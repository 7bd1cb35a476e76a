-- ===== src/Demuxer/Aac.antt =====
-- The AAC decoder, rtmp_aac_decoder.h and rtmp_aac_decoder.cc: it puts an ADTS header before each
-- packet.
-- The media-server library's functions are a parameter. `none` is a tag that cannot be read: the
-- code goes on with a tag that was not filled in and with the bytes before the frame's.
use simple_rtmp.Base.{
  ℕ, ◌+◌, ◌%◌, ◌^◌, List, [], ◌∷◌, ◌++◌, Option, none, some, length, drop, ◌==◌, if◌then◌else◌,
}
use simple_rtmp.Base.Int.{ℤ, pos, ltb_ℤ, pos_part}
use simple_rtmp.Codec.{audio, aac}
use simple_rtmp.Frame.{FrameBuffer, fixed, new_frame, resize, bytes_of, pts, dts}
use simple_rtmp.Sink.{Signal, frame, failed}

-- `struct mpeg4_aac_t`: the fields that the code sets, and the others.
pub record Aac (B : Type 0) : Type 0 where
  pub profile : ℕ
  pub sampling_frequency_index : ℕ
  pub channel_configuration : ℕ
  pub channels : ℕ
  pub sampling_frequency : ℕ
  pub extension_frequency : ℕ
  pub npce : ℕ
  pub others : B

-- `struct flv_audio_tag_header_t`, as far as it is used, with the bytes it took.
pub record AudioTag : Type 0 where
  pub read : ℕ
  pub avpacket : ℕ

pub record Library (B : Type 0) : Type 0 where
  pub zeroed : B
  pub aac_lc : ℕ
  pub aac_44100 : ℕ
  -- flv_audio_tag_header_read; `none` is a negative result.
  pub read_tag : List ℕ → Option AudioTag
  -- mpeg4_aac_audio_specific_config_load
  pub load : List ℕ → Aac B → Aac B
  -- mpeg4_aac_adts_save: the result and what it leaves in the bytes it was given.
  pub adts_save : Aac B → ℕ → List ℕ → ℤ × List ℕ

-- `sent` is the log of the calls of `write` on the channel.
pub record AacDecoder (B : Type 0) : Type 0 where
  pub ch : Option ℕ
  pub args : Aac B
  pub sent : List (ℕ × Signal)

abbrev pub sequence_header : ℕ
sequence_header = 0

module _ {B : Type 0} where
  unfoldable pub set_output : Option ℕ → AacDecoder B → AacDecoder B
  set_output c d = record d { ch = c }

  unfoldable pub on_frame : Signal → AacDecoder B → AacDecoder B
  on_frame signal d = elim d.ch [
    | none ↦ d
    | some c ↦ record d { sent = d.sent ++ (c, signal) ∷ [] }
  ]

module _ {B : Type 0} (lib : Library B) where
  unfoldable pub new_decoder : AacDecoder B
  new_decoder = record {
    ch = none;
    args = record {
      profile = 0;
      sampling_frequency_index = 0;
      channel_configuration = 0;
      channels = 0;
      sampling_frequency = 0;
      extension_frequency = 0;
      npce = 0;
      others = lib.zeroed;
    };
    sent = [];
  }

  -- What a configuration is read into.
  abbrev pub defaults : Aac B → Aac B
  defaults a = record a {
    profile = lib.aac_lc;
    sampling_frequency_index = lib.aac_44100;
    channel_configuration = 2;
    channels = 2;
    sampling_frequency = 44100;
    extension_frequency = 44100;
  }

  -- `bytes` are those of the frame `f` behind its tag.
  unfoldable pub write_packet : List ℕ → FrameBuffer → AacDecoder B → AacDecoder B
  unfolding on_frame resize
  write_packet bytes f d =
      let reserved =
        resize (d.args.npce + 7 + 1)
          (record (new_frame []) { media = audio; codec = aac; pts = pts f; dts = dts f }) in
      let (ret, header) = lib.adts_save d.args (length bytes % 2 ^ 16) reserved.payload in
      if ltb_ℤ ret (pos 7)
      then d
      else let saved = resize (pos_part ret) (record reserved { payload = header }) in
        on_frame (frame (fixed (record saved { payload = saved.payload ++ bytes })))
          (record d { args = record (d.args) { npce = 0 } })

  unfoldable pub write : Signal → AacDecoder B → Option (AacDecoder B)
  unfolding write_packet on_frame
  write (failed ec) d = some (on_frame (failed ec) d)
  write (frame f) d = elim (lib.read_tag (bytes_of f)) [
    | none ↦ none
    | some tag ↦
        let bytes = drop tag.read (bytes_of f) in
        if tag.avpacket == sequence_header
        then some (record d { args = lib.load bytes (defaults d.args) })
        else some (write_packet bytes f d)
  ]
