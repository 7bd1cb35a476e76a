-- ===== src/RtmpEncoder/Aac.antt =====
-- The AAC encoder of an RTMP sink, rtmp_aac_encoder.h and rtmp_aac_encoder.cc: it puts an FLV tag
-- header in the place of each frame's ADTS header, and a configuration before the first frame.
-- The media-server library's functions are a parameter. `none` is a buffer that is resized to a negative
-- number of bytes, or a read behind the end of a frame.
use simple_rtmp.Base.{
  ℕ, ◌+◌, List, [], ◌∷◌, ◌++◌, Option, none, some, length, take, drop, ltb, ◌==◌, if◌then◌else◌,
}
use simple_rtmp.Base.Int.{ℤ, pos, negsuc, ◌+ℤ◌}
use simple_rtmp.Codec.{audio, aac}
use simple_rtmp.Frame.{FrameBuffer, Frame, fixed, new_frame, resize, bytes_of, pts, dts}
use simple_rtmp.Sink.{Signal, frame, failed}

-- `K` is struct mpeg4_aac_t. Each function answers with its result, and with what it leaves in the
-- struct or in the bytes that it was given.
pub record Library (K : Type 0) : Type 0 where
  pub zeroed : K
  -- mpeg4_aac_adts_load
  pub adts_load : List ℕ → K → ℤ × K
  -- flv_audio_tag_header_write of a tag of AAC with this avpacket, 44 kHz, 16 bits and stereo.
  pub tag_write : ℕ → List ℕ → ℤ × List ℕ
  -- mpeg4_aac_audio_specific_config_save
  pub config_save : K → List ℕ → ℤ × List ℕ

abbrev pub sequence_header : ℕ
sequence_header = 0

abbrev pub avpacket : ℕ
avpacket = 1

-- `sent` is the log of the calls of `write` on the channel.
pub record AacEncoder (K : Type 0) : Type 0 where
  pub ch : Option ℕ
  pub aac : K
  pub audio_sequence_header : ℕ
  pub sent : List (ℕ × Signal)

-- The frame that is filled in, with four bytes more than the one that came.
abbrev pub reserved : FrameBuffer → Frame
reserved f =
    resize (length (bytes_of f) + 4)
      (record (new_frame []) { pts = pts f; dts = dts f; codec = aac; media = audio })

-- `resize` with an int.
unfoldable pub resize_int : ℤ → Frame → Option Frame
resize_int (pos n) f = some (resize n f)
resize_int (negsuc n) f = none

module _ {K : Type 0} where
  unfoldable pub set_output : Option ℕ → AacEncoder K → AacEncoder K
  set_output c e = record e { ch = c }

  unfoldable pub on_frame : Signal → AacEncoder K → AacEncoder K
  on_frame signal e = elim e.ch [
    | none ↦ e
    | some c ↦ record e { sent = e.sent ++ (c, signal) ∷ [] }
  ]

module _ {K : Type 0} (lib : Library K) where
  unfoldable pub new_encoder : AacEncoder K
  new_encoder = record { ch = none; aac = lib.zeroed; audio_sequence_header = 0; sent = [] }

  -- The configuration before the first frame: the encoder behind it, and what `n` then is.
  unfoldable pub write_config : ℤ → FrameBuffer → AacEncoder K → Option (ℤ × AacEncoder K)
  unfolding on_frame resize resize_int
  write_config n f e =
      if e.audio_sequence_header == 0
      then (let tag = (lib.tag_write sequence_header (reserved f).payload).1 in
          let (m, config) = lib.config_save e.aac (drop 2 tag) in
          elim (resize_int (m +ℤ pos 2) (record (reserved f) { payload = take 2 tag ++ config })) [
            | none ↦ none
            | some g ↦ some (m, on_frame (frame (fixed g)) (record e { audio_sequence_header = 1 }))
          ])
      else some (n, e)

  -- `aac_frame->append(frame->data() + n, frame->size() - n)`.
  unfoldable pub append_rest : ℤ → FrameBuffer → Frame → Option Frame
  append_rest (negsuc n) f g = none
  append_rest (pos n) f g =
      if ltb (length (bytes_of f)) n
      then none
      else some (record g { payload = g.payload ++ drop n (bytes_of f) })

  unfoldable pub write_raw : ℤ → FrameBuffer → AacEncoder K → Option (AacEncoder K)
  unfolding on_frame resize append_rest
  write_raw n f e =
      let (m, tag) = lib.tag_write avpacket (reserved f).payload in
      elim m [
        | negsuc k ↦ if k == 0 then some e else none
        | pos k ↦ elim (append_rest n f (resize k (record (reserved f) { payload = tag }))) [
          | none ↦ none
          | some g ↦ some (on_frame (frame (fixed g)) e)
        ]
      ]

  unfoldable pub write_loaded : ℤ → FrameBuffer → AacEncoder K → Option (AacEncoder K)
  unfolding write_config write_raw
  write_loaded n f e = elim (write_config n f e) [ none ↦ none | some (m, e') ↦ write_raw m f e' ]

  unfoldable pub write : Signal → AacEncoder K → Option (AacEncoder K)
  unfolding write_loaded on_frame
  write (failed ec) e = some (on_frame (failed ec) e)
  write (frame f) e =
      let (n, k) = lib.adts_load (bytes_of f) e.aac in
      let loaded = record e { aac = k } in
      elim n [
        | negsuc i ↦ some loaded
        | pos i ↦ if i == 0 then some loaded else write_loaded (pos i) f loaded
      ]

  unfoldable pub write_all : List FrameBuffer → AacEncoder K → Option (AacEncoder K)
  unfolding write
  write_all [] e = some e
  write_all (f ∷ fs) e = elim (write (frame f) e) [ none ↦ none | some e' ↦ write_all fs e' ]
