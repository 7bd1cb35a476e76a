-- ===== src/RtspSink/Read.antt =====
-- What a player reads in the text of an audio track, rtsp_aac_track.cc.
use simple_rtmp.Base.{
  ℕ, zero, suc, ◌+◌, ◌-◌, ◌*◌, ◌/◌, ◌%◌, ◌<◌, ◌≡◌, refl, ap, ◌∙◌, List, [], ◌∷◌, ◌++◌, Option, none,
  some, leb, if◌then◌else◌, arith, All, append_assoc, drop, length,
}
use simple_rtmp.Rtsp.Parser.{Text}
use simple_rtmp.RtspSink.Track.{AudioTrack}
use native.Mathlib.Decide.{dec_lt}
use simple_rtmp.RtspSink.Description.{
  ascii, hex_digit, hex_byte, hex_text, digits, decimal, crlf, concat, audio_sdp,
}

-- A hexadecimal digit, and a decimal one.
abbrev of_hex : ℕ → Option ℕ
of_hex d =
    if leb 48 d
    then (if leb d 57
        then some (d - 48)
        else if leb 65 d
        then (if leb d 70 then some (d - 55) else none)
        else none)
    else none

-- A reader of hexadecimal bytes, which stops at the first sign that is no digit.
unfoldable pub read_hex : Text → List ℕ × Text
read_hex (a ∷ (b ∷ text)) = elim (of_hex a) [
  | none ↦ ([], a ∷ (b ∷ text))
  | some x ↦ elim (of_hex b) [
    | none ↦ ([], a ∷ (b ∷ text))
    | some y ↦ let (bytes, rest) = read_hex text in ((x * 16 + y) ∷ bytes, rest)
  ]
]
read_hex text = ([], text)

-- A reader of a decimal number, on the number so far.
unfoldable pub read_decimal : ℕ → Text → ℕ × Text
read_decimal n [] = (n, [])
read_decimal n (d ∷ text) =
    let rest = read_decimal (n * 10 + (d - 48)) text in
    if leb 48 d then (if leb d 57 then rest else (n, d ∷ text)) else (n, d ∷ text)

of_hex-digit : (n : ℕ) → n < 16 → of_hex (hex_digit n) ≡ some n
unfolding hex_digit
of_hex-digit n h = ground arith

read_hex-text :
    (bytes : List ℕ) (rest : Text)
    → All (λ b. b < 256) bytes
    → read_hex (hex_text bytes ++ (crlf ++ rest)) ≡ (bytes, crlf ++ rest)
unfolding read_hex hex_text hex_byte
read_hex-text [] rest small = refl
read_hex-text (b ∷ bytes) rest (h, small) =
    let whole : b / 16 * 16 + b % 16 ≡ b = omega arith in
    ground (
      arith,
      of_hex-digit (b / 16) (omega arith),
      of_hex-digit (b % 16) (omega arith),
      read_hex-text bytes rest small,
      whole,
    )

read_decimal-digits :
    (fuel m : ℕ) (rest : Text)
    → m < fuel
    → read_decimal 0 (digits fuel m ++ rest) ≡ read_decimal m rest
unfolding read_decimal digits
read_decimal-digits zero m rest h = absurd (omega arith)
read_decimal-digits (suc fuel) m rest h = elim (dec_lt m 10) [
  | yes short ↦ ground arith
  | no long ↦
      let last : ℕ = 48 + m % 10 in
      let ih = read_decimal-digits fuel (m / 10) (last ∷ rest) (omega arith) in
      let whole : m / 10 * 10 + (last - 48) ≡ m = omega arith in
      ground (arith, long, append_assoc (digits fuel (m / 10)) (last ∷ []) rest, ih, whole)
]

-- The number ends where a sign below the digits stands.
read_decimal-stop :
    (m stop : ℕ) (rest : Text) → stop < 48 → read_decimal m (stop ∷ rest) ≡ (m, stop ∷ rest)
unfolding read_decimal
read_decimal-stop m stop rest h = ground arith

-- The fixed lines of an audio track's text up to its sample rate, and from its channels on to the
-- configuration.
abbrev to_rate : Text
to_rate = concat (
    ascii "m=audio 0 RTP/AVP 98"
    ∷ crlf
    ∷ ascii "c=IN IP4 0.0.0.0"
    ∷ crlf
    ∷ ascii "a=rtpmap:98 mpeg4-generic/"
    ∷ [])

abbrev to_config : Text
to_config = concat (
    crlf
    ∷ ascii "a=fmtp:98 streamtype=5;profile-level-id=1;mode=AAC-hbr;"
    ∷ ascii "sizelength=13;indexlength=3;indexdeltalength=3;config="
    ∷ [])

-- A player's reader: the sample rate, the channels and the configuration.
unfoldable pub read_audio : Text → ℕ × ℕ × List ℕ
read_audio text =
    let (rate, text1) = read_decimal 0 (drop (length to_rate) text) in
    let (channels, text2) = read_decimal 0 (drop 1 text1) in
    let (config, text3) = read_hex (drop (length to_config) text2) in (rate, channels, config)

-- From the text of an audio track a player reads its sample rate, its channels and its configuration,
-- whose bytes are below 256.
pub read_audio-sdp :
    (t : AudioTrack)
    → All (λ b. b < 256) t.cfg
    → read_audio (audio_sdp t) ≡ (t.sample_rate, t.channels, t.cfg)
unfolding read_audio audio_sdp
read_audio-sdp t small =
    let end = concat (ascii "a=control:track2" ∷ crlf ∷ []) in
    let config : Text = to_config ++ (hex_text t.cfg ++ (crlf ++ end)) in
    let channels : Text = 47 ∷ (decimal t.channels ++ config) in
    let rate_read : read_decimal 0 (decimal t.sample_rate ++ channels) ≡ (t.sample_rate, channels) =
      read_decimal-digits (suc t.sample_rate) t.sample_rate channels (omega arith)
      ∙ read_decimal-stop t.sample_rate 47 (decimal t.channels ++ config) (omega arith) in
    let channels_read : read_decimal 0 (decimal t.channels ++ config) ≡ (t.channels, config) =
      read_decimal-digits (suc t.channels) t.channels config (omega arith)
      ∙ read_decimal-stop t.channels 13 (drop 1 config) (omega arith) in
    let config_read : read_hex (hex_text t.cfg ++ (crlf ++ end)) ≡ (t.cfg, crlf ++ end) =
      read_hex-text t.cfg end small in
    let n = length to_config in
    ap
      (λ r. (
        r.0,
        (read_decimal 0 (drop 1 (r.1))).0,
        (read_hex (drop n (read_decimal 0 (drop 1 (r.1))).1)).0,
      ))
      rate_read
    ∙ ap (λ r. (t.sample_rate, r.0, (read_hex (drop n (r.1))).0)) channels_read
    ∙ ap (λ r. (t.sample_rate, t.channels, r.0)) config_read
