-- ===== src/Demuxer/Packets.antt =====
-- What the H.264 decoder makes of whole packets, rtmp_h264_decoder.cc.
use simple_rtmp.Base.{
  ℕ, suc, ◌+◌, ◌-◌, ◌≤◌, ◌<◌, ◌≡◌, ◌⊎◌, refl, sym, ap, ◌∙◌, subst, List, [], ◌∷◌, ◌++◌, map,
  append_assoc, true, some, length, take, drop, replicate, arith, length-append, take-nil, All,
  ◌==◌, if◌then◌else◌,
}
use simple_rtmp.Base.Int.{ℤ, pos}
use simple_rtmp.Frame.{FrameBuffer, fixed, bytes_of, pts, resize}
use simple_rtmp.Sink.{frame}
use simple_rtmp.Demuxer.H264.{
  VideoTag, Library, Args, H264Decoder, big_endian, video_frame, unit_frame, avpacket,
  parameter_sets, h264_sps_pps_size, demuxer_loop, demuxer_avpacket, write_packet, write,
}
use simple_rtmp.Demuxer.Units.{
  Nalu, IsNalu, is_idr, packet, frames, wrote, to_channel, NoneFirst, loop-units, loop-idr,
  cut-packet,
}

packet-append :
    (us vs : List Nalu) (rest : List ℕ) → packet (us ++ vs) rest ≡ packet us (packet vs rest)
unfolding packet
packet-append [] vs rest = refl
packet-append (u ∷ us) vs rest = rw (packet-append us vs rest)

length-packet :
    (k : ℕ) (us : List Nalu) (rest : List ℕ)
    → All (IsNalu k) us
    → length us + length rest ≤ length (packet us rest)
unfolding packet
length-packet k [] rest vs = omega arith
length-packet k (u ∷ us) rest (v, vs) = omega (
  arith,
  length-packet k us rest vs,
  v.some_body,
  length-append u.prefix (u.body ++ packet us rest),
  length-append u.body (packet us rest),
)

zeros : (n : ℕ) → take {A = ℕ} n [] ++ replicate (n - 0) 0 ≡ replicate n 0
zeros n =
    ap (λ (xs : List ℕ). xs ++ replicate (n - 0) 0) (take-nil n)
    ∙ ap (λ k. replicate k 0) (omega arith)

-- Bytes that are there, but not the length of a unit of one byte at least and the unit.
abbrev pub IsTorn : ℕ → List ℕ → Type 0
IsTorn k bytes =
    (0 < length bytes)
    × ((big_endian 0 (take k bytes) ≡ 0) ⊎ (length bytes < k + big_endian 0 (take k bytes)))

module _ {A : Type 0} (lib : Library A) (timestamp cts : ℤ) (keyframe : ℕ) where
  loop-nil :
      (fuel : ℕ) (args : Args A) (d : H264Decoder A)
      → demuxer_loop lib fuel timestamp cts keyframe [] args d ≡ some d
  unfolding demuxer_loop
  loop-nil fuel args d = refl

  sets-saved :
      (avc : A) (n : ℕ) (bytes : List ℕ)
      → lib.to_nalu avc (replicate (h264_sps_pps_size lib avc) 0) ≡ (pos (suc n), bytes)
      → parameter_sets lib timestamp cts keyframe avc
        ≡ some (fixed (video_frame timestamp cts keyframe bytes))
  unfolding parameter_sets resize h264_sps_pps_size
  sets-saved avc n bytes saved =
      ground (arith, ap (lib.to_nalu avc) (zeros (h264_sps_pps_size lib avc)) ∙ saved)

map-append :
    (c : ℕ) (fs gs : List FrameBuffer)
    → map (to_channel c) (fs ++ gs) ≡ map (to_channel c) fs ++ map (to_channel c) gs
map-append c [] gs = refl
map-append c (f ∷ fs) gs = ap (◌∷◌ (to_channel c f)) (map-append c fs gs)

wrote-wrote :
    {A : Type 0} (c : ℕ) (fs gs : List FrameBuffer) (d : H264Decoder A)
    → wrote c gs (wrote c fs d) ≡ wrote c (fs ++ gs) d
wrote-wrote c fs gs d =
    ap (λ sent. record d { sent = sent })
      (append_assoc d.sent (map (to_channel c) fs) (map (to_channel c) gs)
        ∙ ap (◌++◌ d.sent) (sym (map-append c fs gs)))

NoneFirst-later : (us : List Nalu) → NoneFirst 1 us
NoneFirst-later [] = tt
NoneFirst-later (u ∷ us) = (ground arith, NoneFirst-later us)

module _ {A : Type 0} (lib : Library A) (timestamp cts : ℤ) (keyframe c : ℕ) where
  abbrev written : List Nalu → List FrameBuffer
  written = frames timestamp cts keyframe

  loop-key :
      (before after : List Nalu) (idr : Nalu) (args : Args A) (d : H264Decoder A)
      (sets : FrameBuffer)
      → All (IsNalu (lib.nalu args.avc)) before
      → All (IsNalu (lib.nalu args.avc)) (idr ∷ after)
      → d.ch ≡ some c
      → args.sps_pps_flag ≡ 0
      → NoneFirst 0 before
      → is_idr idr ≡ true
      → parameter_sets lib timestamp cts keyframe args.avc ≡ some sets
      → demuxer_loop lib
          (length (packet before (packet (idr ∷ after) [])))
          timestamp
          cts
          keyframe
          (packet before (packet (idr ∷ after) []))
          args
          d
        ≡ some (
            wrote c
              (written before ++ sets ∷ written (idr ∷ after))
              (record d { args = some (record args { sps_pps_flag = 1 }) }))
  unfolding packet unit_frame
  loop-key before after idr args d sets vs (v, ws) e flag plain first saved =
      let bytes = packet before (packet (idr ∷ after) []) in
      let long = length-packet (lib.nalu args.avc) before (packet (idr ∷ after) []) vs in
      let long_after = length-packet (lib.nalu args.avc) (idr ∷ after) [] (v, ws) in
      let left = length bytes - length before - 1 in
      let args' = record args { sps_pps_flag = 1 } in
      let d' = record d { args = some args' } in
      loop-units lib timestamp cts keyframe c before (packet (idr ∷ after) []) (length bytes)
        (suc left) args d (omega (arith, long, long_after)) vs e
        (subst (λ n. NoneFirst n before) (sym flag) plain)
      ∙ loop-idr lib timestamp cts keyframe c left (packet (idr ∷ after) []) idr.body
          (packet after []) args (wrote c (written before) d) sets
          (cut-packet (lib.nalu args.avc) idr (packet after []) v) e first flag saved
      ∙ loop-units lib timestamp cts keyframe c after [] left (left - length after) args'
          (wrote c (sets ∷ written (idr ∷ [])) (wrote c (written before) d'))
          (omega (arith, long, long_after)) ws e (NoneFirst-later after)
      ∙ loop-nil lib timestamp cts keyframe (left - length after) args' _
      ∙ ap some (
          ap (wrote c (written after))
            (wrote-wrote c (written before) (sets ∷ written (idr ∷ [])) d')
          ∙ wrote-wrote c (written before ++ sets ∷ written (idr ∷ [])) (written after) d'
          ∙ ap (λ fs. wrote c fs d')
              (append_assoc (written before) (sets ∷ written (idr ∷ [])) (written after)))

abbrev pub key : VideoTag → ℕ
key tag = if tag.keyframe == 1 then 1 else 0

module _ {A : Type 0} (lib : Library A) (f : FrameBuffer) (tag : VideoTag) (c : ℕ) (args : Args A)
    (d : H264Decoder A) (is_tag : lib.read_tag (bytes_of f) ≡ some tag)
    (is_packet : tag.avpacket ≡ avpacket) (has_args : d.args ≡ some args)
    (has_channel : d.ch ≡ some c) where
  write-loop :
      write lib (frame f) d
      ≡ demuxer_loop lib
          (length (drop tag.read (bytes_of f)))
          (pts f)
          tag.cts
          (key tag)
          (drop tag.read (bytes_of f))
          args
          d
  unfolding write write_packet demuxer_avpacket
  write-loop = ground (arith, is_tag, is_packet, has_args)

  -- The packet with the first IDR unit: the parameter sets go out once, as a frame of their own right
  -- before that unit's, where the library writes them; the other units go out as they do otherwise.
  pub write-key :
      (before after : List Nalu) (idr : Nalu) (n : ℕ) (sets : List ℕ)
      → drop tag.read (bytes_of f) ≡ packet (before ++ idr ∷ after) []
      → All (IsNalu (lib.nalu args.avc)) before
      → All (IsNalu (lib.nalu args.avc)) (idr ∷ after)
      → args.sps_pps_flag ≡ 0
      → NoneFirst 0 before
      → is_idr idr ≡ true
      → lib.to_nalu args.avc (replicate (h264_sps_pps_size lib args.avc) 0) ≡ (pos (suc n), sets)
      → write lib (frame f) d
        ≡ some (
            wrote c
              (frames (pts f) tag.cts (key tag) before
                ++ fixed (video_frame (pts f) tag.cts (key tag) sets)
                  ∷ frames (pts f) tag.cts (key tag) (idr ∷ after))
              (record d { args = some (record args { sps_pps_flag = 1 }) }))
  write-key before after idr n sets is_units vs ws flag plain first saved =
      write-loop
      ∙ ap (λ bytes. demuxer_loop lib (length bytes) (pts f) tag.cts (key tag) bytes args d)
          (is_units ∙ packet-append before (idr ∷ after) [])
      ∙ loop-key lib (pts f) tag.cts (key tag) c before after idr args d
          (fixed (video_frame (pts f) tag.cts (key tag) sets)) vs ws has_channel flag plain first
          (sets-saved lib (pts f) tag.cts (key tag) args.avc n sets saved)
