-- ===== src/RtmpEncoder/H264.antt =====
-- The H.264 encoder of an RTMP sink, rtmp_h264_encoder.h and rtmp_h264_encoder.cc: it turns units
-- behind start codes into FLV video tags, and sends a configuration when the parameter sets change.
-- The media-server library's functions are a parameter. `none` is a read behind the end of a buffer.
use simple_rtmp.Base.{
  ℕ, ◌+◌, ◌*◌, List, [], ◌∷◌, ◌++◌, Bool, not, ◌&&◌, Option, none, some, length, take, replicate,
  ltb, ◌==◌, if◌then◌else◌,
}
use simple_rtmp.Base.Int.{ℤ, pos, negsuc}
use simple_rtmp.Codec.{video, h264}
use simple_rtmp.Frame.{
  FrameBuffer, Frame, fixed, new_frame, create, resize, bytes_of, pts, dts, append_frame, set_flag,
}
use simple_rtmp.Sink.{Signal, frame, failed}

-- What h264_annexbtomp4 leaves: its result, the bytes it was given to fill, struct mpeg4_avc_t, and
-- the two numbers.
pub record Converted (K : Type 0) : Type 0 where
  pub ret : ℤ
  pub bytes : List ℕ
  pub avc : K
  pub vcl : ℕ
  pub update : ℕ

-- `K` is struct mpeg4_avc_t.
pub record Library (K : Type 0) : Type 0 where
  pub zeroed : K
  pub avc_size : ℕ
  -- h264_annexbtomp4 on a struct, a frame's bytes, the bytes to fill and the two numbers.
  pub annexbtomp4 : K → List ℕ → List ℕ → ℕ → ℕ → Converted K
  pub nb_sps : K → ℕ
  pub nb_pps : K → ℕ
  -- mpeg4_avc_decoder_configuration_record_save: its result, and the bytes it was given.
  pub config_save : K → List ℕ → ℤ × List ℕ

abbrev pub sequence_header : ℕ
sequence_header = 0

abbrev pub avpacket : ℕ
avpacket = 1

-- kBufferSize - kVideoTagSize.
abbrev pub buffer_size : ℕ
buffer_size = 4091

-- `sent` is the log of the calls of `write` on the channel.
pub record H264Encoder (K : Type 0) : Type 0 where
  pub ch : Option ℕ
  pub avc : K
  pub vcl : ℕ
  pub update : ℕ
  pub video_sequence_header : ℕ
  pub sent : List (ℕ × Signal)

module _ {K : Type 0} where
  unfoldable pub set_output : Option ℕ → H264Encoder K → H264Encoder K
  set_output c e = record e { ch = c }

  unfoldable pub on_frame : Signal → H264Encoder K → H264Encoder K
  on_frame signal e = elim e.ch [
    | none ↦ e
    | some c ↦ record e { sent = e.sent ++ (c, signal) ∷ [] }
  ]

-- A frame with the times, the codec and the medium that each frame gets.
abbrev pub made_of : FrameBuffer → List ℕ → Frame
made_of f bytes = record (new_frame bytes) { pts = pts f; dts = dts f; codec = h264; media = video }

-- `buf`: a tag of five bytes, for a key frame (1) or another (2).
abbrev pub tag_bytes : ℕ → ℕ → List ℕ
tag_bytes keyframe packet = (keyframe * 16 + h264) ∷ packet ∷ 0 ∷ 0 ∷ 0 ∷ []

abbrev pub keyframe_of : ℕ → ℕ
keyframe_of vcl = if vcl == 1 then 1 else 2

-- `encode_frame`: the tag's frame and the converted one are appended, and then the flag is set.
unfoldable pub encode_frame : ℕ → FrameBuffer → Frame → FrameBuffer
unfolding append_frame
encode_frame keyframe f avc_frame = set_flag (if keyframe == 1 then 1 else 0) (
    append_frame (some (fixed avc_frame))
      (append_frame (some (fixed (made_of f (tag_bytes keyframe avpacket)))) (create [])))

module _ {K : Type 0} where
  -- What is sent when the parameter sets are new, of a configuration of m bytes.
  unfoldable pub send_config : ℕ → List ℕ → FrameBuffer → H264Encoder K → Option (H264Encoder K)
  unfolding on_frame
  send_config m saved f e =
      let buf = tag_bytes 1 sequence_header ++ saved in
      if ltb (length buf) (m + 5)
      then none
      else some (
          on_frame (frame (fixed (record (made_of f (take (m + 5) buf)) { flag = 1 })))
            (record e { video_sequence_header = 1 }))

  -- The last part: the frame itself.
  unfoldable pub send_frame : FrameBuffer → Frame → H264Encoder K → H264Encoder K
  unfolding on_frame encode_frame
  send_frame f avc_frame e =
      if not (e.vcl == 0) && not (e.video_sequence_header == 0)
      then on_frame (frame (encode_frame (keyframe_of e.vcl) f avc_frame)) e
      else e

module _ {K : Type 0} (lib : Library K) where
  unfoldable pub new_encoder : H264Encoder K
  new_encoder = record {
    ch = none;
    avc = lib.zeroed;
    vcl = 0;
    update = 0;
    video_sequence_header = 0;
    sent = [];
  }

  abbrev pub is_updated : H264Encoder K → Bool
  is_updated e = not (e.update == 0) && (ltb 0 (lib.nb_sps e.avc) && ltb 0 (lib.nb_pps e.avc))

  -- A configuration that cannot be saved ends the call.
  unfoldable pub write_converted : FrameBuffer → Frame → H264Encoder K → Option (H264Encoder K)
  unfolding send_config send_frame
  write_converted f avc_frame e =
      if is_updated e
      then (let (ret, saved) = lib.config_save e.avc (replicate buffer_size 0) in
          elim ret [
            | negsuc m ↦ some e
            | pos m ↦ if m == 0 then some e else elim (send_config m saved f e) [
              | none ↦ none
              | some e' ↦ some (send_frame f avc_frame e')
            ]
          ])
      else some (send_frame f avc_frame e)

  unfoldable pub write : Signal → H264Encoder K → Option (H264Encoder K)
  unfolding write_converted on_frame resize
  write (failed ec) e = some (on_frame (failed ec) e)
  write (frame f) e =
      let r =
        lib.annexbtomp4 e.avc (bytes_of f) (replicate (length (bytes_of f) + lib.avc_size) 0) e.vcl
          e.update in
      let e1 = record e { avc = r.avc; vcl = r.vcl; update = r.update } in
      elim r.ret [
        | negsuc n ↦ some e1
        | pos n ↦ if n == 0 then some e1 else write_converted f (resize n (made_of f r.bytes)) e1
      ]

  unfoldable pub write_all : List FrameBuffer → H264Encoder K → Option (H264Encoder K)
  unfolding write
  write_all [] e = some e
  write_all (f ∷ fs) e = elim (write (frame f) e) [ none ↦ none | some e' ↦ write_all fs e' ]
