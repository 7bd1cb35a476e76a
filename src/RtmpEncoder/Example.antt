-- ===== src/RtmpEncoder/Example.antt =====
-- A small concrete library for H.264, frames for it, and a sink with its encoder, for tests and instances.
use simple_rtmp.Base.{
  ℕ, ◌+◌, ◌==◌, get_or, ◌++◌, refl, List, map, none, [], ◌∷◌, some, length, arith, if◌then◌else◌,
}
use simple_rtmp.Base.Int.{pos}
use simple_rtmp.Codec.{video, h264, aac}
use simple_rtmp.Frame.{FrameBuffer, fixed, new_frame, bytes_of}
use simple_rtmp.Sink.{Signal, frame}
use simple_rtmp.Sink.Rtmp.{RtmpSink, new_sink, writes, add_codec, safe_add_channel}
use simple_rtmp.RtmpEncoder.H264 as H264
use simple_rtmp.RtmpEncoder.Tags.{Kept, kept_of, IsConverted, IsFirst}
use simple_rtmp.RtmpEncoder.Relay.{begun}

-- A library whose frames begin with their kind: 0 has no slice, 1 is a key frame with new
-- parameter sets, 2 is no key frame, 3 is a key frame, and 4 has new parameter sets only. It counts the
-- sets that it has kept.
abbrev pub two_kinds : H264.Library ℕ
two_kinds = record {
  zeroed = 0;
  avc_size = 2;
  annexbtomp4 = λ k bytes buffer v u. record {
    ret = pos (length bytes);
    bytes = bytes ++ 0 ∷ 0 ∷ [];
    avc = if get_or bytes 0 0 == 1 then k + 1 else if get_or bytes 0 0 == 4 then k + 1 else k;
    vcl =
        if get_or bytes 0 0 == 4 then 0 else if get_or bytes 0 0 == 3 then 1 else get_or bytes 0 0;
    update = if get_or bytes 0 0 == 1 then 1 else if get_or bytes 0 0 == 4 then 1 else 0;
  };
  nb_sps = λ k. k;
  nb_pps = λ k. k;
  config_save = λ k buffer. (pos 2, 100 ∷ 31 ∷ []);
}

abbrev pub slices_of : FrameBuffer → ℕ
slices_of f =
    let kind = get_or (bytes_of f) 0 0 in if kind == 4 then 0 else if kind == 3 then 1 else kind

abbrev pub slice : ℕ → ℕ → FrameBuffer
slice kind n = fixed (record (new_frame (kind ∷ n ∷ [])) { media = video })

abbrev pub is_converted :
    (k : Kept ℕ) (kind n : ℕ) → IsConverted two_kinds 3 slices_of bytes_of k (slice kind n)
unfolding bytes_of
is_converted k kind n = record {
  rest = 0 ∷ 0 ∷ [];
  result = refl;
  some_units = omega arith;
  filled = refl;
  counted = refl;
}

abbrev pub is_first :
    IsFirst two_kinds 3 slices_of bytes_of
      (kept_of (H264.new_encoder two_kinds))
      (slice 4 7)
      (100 ∷ 31 ∷ [])
unfolding bytes_of H264.new_encoder
is_first = record {
  rest = [];
  changed = omega arith;
  sps = omega arith;
  pps = omega arith;
  saves = refl;
  some_config = omega arith;
}

-- The encoder as a machine.
abbrev pub machine : H264.H264Encoder ℕ → Signal → H264.H264Encoder ℕ × List Signal
machine e s = elim (H264.write two_kinds s (record e { sent = [] })) [
  | none ↦ (e, [])
  | some e' ↦ (e', map (λ p. p.1) e'.sent)
]

abbrev pub given : List FrameBuffer → RtmpSink (H264.H264Encoder ℕ) → RtmpSink (H264.H264Encoder ℕ)
given fs k = writes 0 (begun two_kinds 3) (H264.new_encoder two_kinds) machine (map frame fs) k

-- A channel comes after four frames.
abbrev pub relayed : RtmpSink (H264.H264Encoder ℕ)
relayed = given (slice 2 6 ∷ []) (
    safe_add_channel 5 (
      given (slice 4 7 ∷ slice 3 8 ∷ slice 0 9 ∷ slice 2 4 ∷ []) (
        add_codec 0 (begun two_kinds 3) (H264.new_encoder two_kinds) machine aac
          (add_codec 0 (begun two_kinds 3) (H264.new_encoder two_kinds) machine h264 new_sink))))
