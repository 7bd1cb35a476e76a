-- ===== src/Demuxer.antt =====
-- The demuxer of a publisher's media, rtmp_demuxer.h and rtmp_demuxer.cc: it hands a frame to the
-- script reader or to the decoder for its kind, and makes the decoders that the script data name.
-- The media-server library's AMF reading, the C++ double and its conversions are a parameter. `none` is
-- a fault: a read behind the end of a frame, or a fault of a decoder.
pub mod H264
pub mod Aac
pub mod Hevc
pub mod Units
pub mod Packets
pub mod Media
pub mod Publish
mod Runs
use simple_rtmp.Base.{
  ℕ, suc, ◌+◌, ◌*◌, List, [], ◌∷◌, ◌++◌, Bool, true, false, Option, none, some, get_elem?, drop,
  ◌==◌, if◌then◌else◌,
}
use simple_rtmp.Base.Int.{ℤ, pos, negsuc, to_u32, ◌==ℤ◌}
use simple_rtmp.Codec.{script, video, audio, h264, aac}
use simple_rtmp.Frame.{FrameBuffer, bytes_of, codec}
use simple_rtmp.Sink.{Signal, frame, failed}
use simple_rtmp.Demuxer.H264.{H264Decoder}
use simple_rtmp.Demuxer.Aac.{AacDecoder}
use Prim.Native.String.{String}
use text.Mathlib.Text.{◌==◌ as ◌==ₛ◌}

-- The values that the script data set, as far as they are used; `D` is double.
pub record Metadata (D : Type 0) : Type 0 where
  pub audiocodecid : D
  pub audiodatarate : D
  pub audiosamplesize : D
  pub videocodecid : D
  pub videodatarate : D
  pub framerate : D
  pub height : D
  pub width : D
  pub duration : D
  pub filesize : D

pub record Amf (D : Type 0) : Type 0 where
  pub amf_string : ℕ
  -- AMFReadString: the text and what is left, `none` for a null pointer.
  pub read_string : List ℕ → Option (String × List ℕ)
  -- amf_read_items, from values that are all 0.
  pub read_items : List ℕ → Metadata D
  -- Whether a double is this code, its conversion to int64_t, and that to a text.
  pub equals : D → ℕ → Bool
  pub to_int64 : D → ℤ
  pub to_string : D → String

-- `struct codec_option`, as far as it is filled in.
pub record CodecOption : Type 0 where
  pub paylod_type : ℕ
  pub sample_rate : ℤ
  pub config : List (String × String)

-- The calls that leave the demuxer: of `write` on its channel and of `codec_cb_`, an int as its 32
-- bits. An option that was not filled in is `none`.
pub data Output : Type 0 where
  to_channel : ℕ → Signal → Output
  on_codec : ℕ → Option CodecOption → Output

pub record Demuxer (A B : Type 0) : Type 0 where
  pub ch : Option ℕ
  pub codec_cb : Bool
  pub audio_decoder : Option (AacDecoder B)
  pub video_decoder : Option (H264Decoder A)
  pub outputs : List Output

unfoldable pub outputs_of : List (ℕ × Signal) → List Output
outputs_of [] = []
outputs_of ((c, s) ∷ sent) = to_channel c s ∷ outputs_of sent

-- `audio_codec_id << 4`.
abbrev pub shifted : ℤ → ℤ
shifted (pos n) = pos (n * 16)
shifted (negsuc n) = negsuc (n * 16 + 15)

module _ {A B : Type 0} where
  unfoldable pub new_demuxer : Demuxer A B
  new_demuxer = record {
    ch = none;
    codec_cb = false;
    audio_decoder = none;
    video_decoder = none;
    outputs = [];
  }

  unfoldable pub set_channel : ℕ → Demuxer A B → Demuxer A B
  set_channel c d = record d { ch = some c }

  unfoldable pub set_codec_cb : Demuxer A B → Demuxer A B
  set_codec_cb d = record d { codec_cb = true }

module _ {A B D : Type 0} (amf : Amf D) (avc : H264.Library A) (mpeg4 : Aac.Library B) where
  -- What the decoder writes goes out behind what went out before.
  unfoldable pub demuxer_video : Signal → Demuxer A B → Option (Demuxer A B)
  unfolding outputs_of
  demuxer_video s d = elim d.video_decoder [
    | none ↦ some d
    | some v ↦ elim (H264.write avc s (record v { sent = [] })) [
      | none ↦ none
      | some v' ↦
          some (record d { video_decoder = some v'; outputs = d.outputs ++ outputs_of (v'.sent) })
    ]
  ]

  unfoldable pub demuxer_audio : Signal → Demuxer A B → Option (Demuxer A B)
  unfolding outputs_of
  demuxer_audio s d = elim d.audio_decoder [
    | none ↦ some d
    | some a ↦ elim (Aac.write mpeg4 s (record a { sent = [] })) [
      | none ↦ none
      | some a' ↦
          some (record d { audio_decoder = some a'; outputs = d.outputs ++ outputs_of (a'.sent) })
    ]
  ]

  abbrev pub video_option : Metadata D → CodecOption
  video_option m = record {
    paylod_type = h264;
    sample_rate = amf.to_int64 m.videodatarate;
    config =
        ("duration", amf.to_string m.duration)
        ∷ ("filesize", amf.to_string m.filesize)
        ∷ ("framerate", amf.to_string m.framerate)
        ∷ ("height", amf.to_string m.height)
        ∷ ("width", amf.to_string m.width)
        ∷ [];
  }

  abbrev pub audio_option : Metadata D → CodecOption
  audio_option m = record {
    paylod_type = aac;
    sample_rate = amf.to_int64 m.audiodatarate;
    config = ("audiosamplesize", amf.to_string m.audiosamplesize) ∷ [];
  }

  -- The decoders that the metadata name, set to write to the demuxer's channel, as those there are.
  unfoldable pub make_decoders : Metadata D → Demuxer A B → Demuxer A B
  make_decoders m d = record d {
    video_decoder =
        (if amf.equals m.videocodecid h264
          then some (H264.set_output d.ch H264.new_decoder)
          else elim d.video_decoder [ none ↦ none | some v ↦ some (H264.set_output d.ch v) ]);
    audio_decoder =
        (if shifted (amf.to_int64 m.audiocodecid) ==ℤ pos aac
          then some (Aac.set_output d.ch (Aac.new_decoder mpeg4))
          else elim d.audio_decoder [ none ↦ none | some a ↦ some (Aac.set_output d.ch a) ]);
  }

  unfoldable pub call_codec_cb : Metadata D → Demuxer A B → Demuxer A B
  call_codec_cb m d =
      let code = shifted (amf.to_int64 m.audiocodecid) in
      if d.codec_cb
      then record d {
        outputs =
            d.outputs
            ++ on_codec (to_u32 (amf.to_int64 m.videocodecid))
                (if amf.equals m.videocodecid h264 then some (video_option m) else none)
              ∷ on_codec (to_u32 code) (if code ==ℤ pos aac then some (audio_option m) else none)
              ∷ [];
      }
      else d

  -- A text of AMF type string at the head: `none` is a read behind the end, an inner `none` the
  -- return.
  unfoldable pub amf_text : List ℕ → Option (Option (String × List ℕ))
  amf_text bytes = elim (get_elem? bytes 0) [
    | none ↦ none
    | some type ↦ some (if type == amf.amf_string then amf.read_string (drop 1 bytes) else none)
  ]

  -- Only "onMetaData" is read, of which a failure to read is only logged.
  unfoldable pub on_metadata : String → List ℕ → Demuxer A B → Demuxer A B
  unfolding make_decoders call_codec_cb
  on_metadata name bytes d =
      if name ==ₛ "onMetaData"
      then call_codec_cb (amf.read_items bytes) (make_decoders (amf.read_items bytes) d)
      else d

  unfoldable pub demuxer_script : Signal → Demuxer A B → Option (Demuxer A B)
  unfolding amf_text on_metadata
  demuxer_script (failed ec) d = some d
  demuxer_script (frame f) d = elim (amf_text (bytes_of f)) [
    | none ↦ none
    | some none ↦ some d
    | some (some (name, bytes)) ↦
        if name ==ₛ "@setDataFrame"
        then elim (amf_text bytes) [
          | none ↦ none
          | some none ↦ some d
          | some (some (name', bytes')) ↦ some (on_metadata name' bytes' d)
        ]
        else some (on_metadata name bytes d)
  ]

  unfoldable pub write : Signal → Demuxer A B → Option (Demuxer A B)
  unfolding demuxer_script demuxer_video demuxer_audio
  write (failed ec) d = elim (demuxer_script (failed ec) d) [
    | none ↦ none
    | some d' ↦ elim (demuxer_video (failed ec) d') [
      | none ↦ none
      | some d'' ↦ demuxer_audio (failed ec) d''
    ]
  ]
  write (frame f) d =
      if codec f == script
      then demuxer_script (frame f) d
      else if codec f == video
      then demuxer_video (frame f) d
      else if codec f == audio
      then demuxer_audio (frame f) d
      else some d
