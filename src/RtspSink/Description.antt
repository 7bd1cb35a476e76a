-- ===== src/RtspSink/Description.antt =====
-- The texts of the tracks' session descriptions: the constructors and sdp of rtsp_h264_track.cc and
-- rtsp_aac_track.cc. Boost's base64 is a parameter.
use simple_rtmp.Base.{
  ℕ, zero, suc, ◌+◌, ◌*◌, ◌/◌, ◌%◌, List, [], ◌∷◌, ◌++◌, length, get_or, ltb, leb, if◌then◌else◌,
}
use simple_rtmp.Rtsp.Parser.{Text}
use simple_rtmp.RtspSink.Track.{VideoTrack, AudioTrack, RtspTrack, video_track, audio_track}
use Prim.Native.Char.{code}
use Prim.Native.String.{String}

-- The bytes of an ASCII text.
abbrev pub ascii : String → Text
ascii String.[] = []
ascii (String.◌∷◌ c s) = code c ∷ ascii s

-- "%X" of a number below 16, "%02X" of a byte, "%06X" of a number below 2 ^ 24.
unfoldable pub hex_digit : ℕ → ℕ
hex_digit n = if ltb n 10 then 48 + n else 55 + n

unfoldable pub hex_byte : ℕ → Text
hex_byte b = hex_digit (b / 16) ∷ hex_digit (b % 16) ∷ []

unfoldable pub hex_6 : ℕ → Text
hex_6 n = hex_byte (n / 65536) ++ (hex_byte (n / 256 % 256) ++ hex_byte (n % 256))

unfoldable pub hex_text : List ℕ → Text
hex_text [] = []
hex_text (b ∷ bs) = hex_byte b ++ hex_text bs

-- An integer as a stream prints it; the fuel is above the number, and so above its digits.
unfoldable pub digits : ℕ → ℕ → Text
digits zero n = []
digits (suc fuel) n =
    let high = digits fuel (n / 10) in
    if ltb n 10 then (48 + n) ∷ [] else high ++ (48 + n % 10) ∷ []

abbrev pub decimal : ℕ → Text
decimal n = digits (suc n) n

unfoldable pub profile_level_id : List ℕ → ℕ
profile_level_id sps =
    if leb 4 (length sps)
    then get_or sps 1 0 * 65536 + (get_or sps 2 0 * 256 + get_or sps 3 0)
    else 0

-- "\r\n", with which all lines end but the second one of a video track, which ends with "\n".
abbrev pub crlf : Text
crlf = 13 ∷ 10 ∷ []

-- What is written to the stream one after the other.
abbrev pub concat : List Text → Text
concat [] = []
concat (text ∷ texts) = text ++ concat texts

module _ (base64 : List ℕ → Text) where
  unfoldable pub video_sdp : VideoTrack → Text
  unfolding hex_6 profile_level_id
  video_sdp t = concat (
      ascii "m=video 0 RTP/AVP 96"
      ∷ crlf
      ∷ ascii "c=IN IP4 0.0.0.0"
      ∷ (10 ∷ [])
      ∷ ascii "a=rtpmap:96 H264/90000"
      ∷ crlf
      ∷ ascii "a=fmtp:96 packetization-mode=1; profile-level-id="
      ∷ hex_6 (profile_level_id t.track_sps)
      ∷ ascii "; sprop-parameter-sets="
      ∷ base64 t.track_sps
      ∷ (44 ∷ [])
      ∷ base64 t.track_pps
      ∷ crlf
      ∷ ascii "a=control:track1"
      ∷ crlf
      ∷ [])

-- The encoder gives no bit rate, so there is no line for it.
unfoldable pub audio_sdp : AudioTrack → Text
unfolding hex_text
audio_sdp t = concat (
    ascii "m=audio 0 RTP/AVP 98"
    ∷ crlf
    ∷ ascii "c=IN IP4 0.0.0.0"
    ∷ crlf
    ∷ ascii "a=rtpmap:98 mpeg4-generic/"
    ∷ decimal t.sample_rate
    ∷ (47 ∷ [])
    ∷ decimal t.channels
    ∷ crlf
    ∷ ascii "a=fmtp:98 streamtype=5;profile-level-id=1;mode=AAC-hbr;"
    ∷ ascii "sizelength=13;indexlength=3;indexdeltalength=3;config="
    ∷ hex_text t.cfg
    ∷ crlf
    ∷ ascii "a=control:track2"
    ∷ crlf
    ∷ [])

module _ (base64 : List ℕ → Text) where
  unfoldable pub sdp : RtspTrack → Text
  unfolding video_sdp audio_sdp
  sdp (video_track t) = video_sdp base64 t
  sdp (audio_track t) = audio_sdp t
