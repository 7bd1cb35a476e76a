-- ===== src/Demuxer/Units.antt =====
-- What the H.264 decoder makes of packets, rtmp_h264_decoder.cc.
use simple_rtmp.Base.{
  ℕ, zero, suc, ◌+◌, ◌%◌, ◌^◌, ◌<◌, ◌≡◌, sym, subst, ap, ◌∙◌, List, [], ◌∷◌, ◌++◌, map, append-nil,
  append_assoc, Bool, true, false, ◌&&◌, some, length, get_or, arith, length-append,
  take-length_append, take-nil, drop-length_append, All, ◌==◌,
}
use simple_rtmp.Base.Int.{ℤ}
use simple_rtmp.Frame.{FrameBuffer, fixed}
use simple_rtmp.Sink.{Signal, frame}
use simple_rtmp.Demuxer.H264.{
  Library, Args, H264Decoder, big_endian, cut_unit, video_frame, start_code, on_frame, unit_frame,
  before_unit, parameter_sets, demuxer_loop,
}

-- A unit behind its length.
pub record Nalu : Type 0 where
  pub prefix : List ℕ
  pub body : List ℕ

pub record IsNalu (k : ℕ) (u : Nalu) : Type 0 where
  pub prefix_len : length u.prefix ≡ k
  pub counts : big_endian 0 u.prefix ≡ length u.body
  pub some_body : 0 < length u.body
  pub fits : length u.body < 2 ^ 31

abbrev pub is_idr : Nalu → Bool
is_idr u = get_or u.body 0 0 % 32 == 5

-- The bytes of units, with what comes behind them.
unfoldable pub packet : List Nalu → List ℕ → List ℕ
packet [] rest = rest
packet (u ∷ us) rest = u.prefix ++ (u.body ++ packet us rest)

-- A frame for a unit: a start code in place of the length.
abbrev pub annex_b : ℤ → ℤ → ℕ → Nalu → FrameBuffer
annex_b timestamp cts keyframe u = fixed (video_frame timestamp cts keyframe (start_code ++ u.body))

abbrev pub to_channel : ℕ → FrameBuffer → ℕ × Signal
to_channel c f = (c, frame f)

pub cut-packet :
    (k : ℕ) (u : Nalu) (rest : List ℕ)
    → IsNalu k u
    → cut_unit k (u.prefix ++ (u.body ++ rest)) ≡ some (u.body, rest)
unfolding cut_unit
cut-packet k u rest v =
    subst (λ n. cut_unit n (u.prefix ++ (u.body ++ rest)) ≡ some (u.body, rest)) v.prefix_len
      at_prefix
  where
    at_prefix : cut_unit (length u.prefix) (u.prefix ++ (u.body ++ rest)) ≡ some (u.body, rest)
    at_prefix = ground (
      arith,
      v.counts,
      v.some_body,
      v.fits,
      take-length_append u.prefix (u.body ++ rest),
      drop-length_append u.prefix (u.body ++ rest),
      take-length_append u.body rest,
      drop-length_append u.body rest,
      length-append u.prefix (u.body ++ rest),
      length-append u.body rest,
    )

-- No unit is an IDR unit that comes without the flag, that is the first one.
abbrev pub NoneFirst : ℕ → List Nalu → Type 0
NoneFirst flag = All (λ u. (is_idr u && flag == 0) ≡ false)

abbrev pub frames : ℤ → ℤ → ℕ → List Nalu → List FrameBuffer
frames timestamp cts keyframe = map (annex_b timestamp cts keyframe)

-- A decoder after it has written these frames to its channel.
abbrev pub wrote : {A : Type 0} → ℕ → List FrameBuffer → H264Decoder A → H264Decoder A
wrote c fs d = record d { sent = d.sent ++ map (to_channel c) fs }

module _ {A : Type 0} (lib : Library A) (timestamp cts : ℤ) (keyframe c : ℕ) where
  -- A round of the loop, where the unit is not the first IDR unit.
  loop-plain :
      (fuel : ℕ) (bytes body rest : List ℕ) (args : Args A) (d : H264Decoder A)
      → cut_unit (lib.nalu args.avc) bytes ≡ some (body, rest)
      → d.ch ≡ some c
      → (get_or body 0 0 % 32 == 5 && args.sps_pps_flag == 0) ≡ false
      → demuxer_loop lib (suc fuel) timestamp cts keyframe bytes args d
        ≡ demuxer_loop lib fuel timestamp cts keyframe rest args
            (wrote c (unit_frame timestamp cts keyframe body ∷ []) d)
  unfolding demuxer_loop before_unit on_frame cut_unit big_endian
  loop-plain fuel [] body rest args d cut e plain =
      ground (arith, cut, take-nil {A = ℕ} (lib.nalu args.avc))
  loop-plain fuel (b ∷ bytes) body rest args d cut e plain = ground (arith, cut, e, plain)

  -- The round of the first IDR unit: the parameter sets come before it.
  pub loop-idr :
      (fuel : ℕ) (bytes body rest : List ℕ) (args : Args A) (d : H264Decoder A) (sets : FrameBuffer)
      → cut_unit (lib.nalu args.avc) bytes ≡ some (body, rest)
      → d.ch ≡ some c
      → (get_or body 0 0 % 32 == 5) ≡ true
      → args.sps_pps_flag ≡ 0
      → parameter_sets lib timestamp cts keyframe args.avc ≡ some sets
      → demuxer_loop lib (suc fuel) timestamp cts keyframe bytes args d
        ≡ demuxer_loop lib fuel timestamp cts keyframe rest
            (record args { sps_pps_flag = 1 })
            (wrote c
              (sets ∷ unit_frame timestamp cts keyframe body ∷ [])
              (record d { args = some (record args { sps_pps_flag = 1 }) }))
  unfolding demuxer_loop before_unit on_frame cut_unit big_endian
  loop-idr fuel [] body rest args d sets cut e idr flag saved =
      ground (arith, cut, take-nil {A = ℕ} (lib.nalu args.avc))
  loop-idr fuel (b ∷ bytes) body rest args d sets cut e idr flag saved = ground (
    arith,
    cut,
    e,
    idr,
    flag,
    saved,
    append_assoc d.sent ((c, frame sets) ∷ [])
        ((c, frame (unit_frame timestamp cts keyframe body)) ∷ []),
  )

  pub loop-units :
      (us : List Nalu) (rest : List ℕ) (fuel left : ℕ) (args : Args A) (d : H264Decoder A)
      → fuel ≡ length us + left
      → All (IsNalu (lib.nalu args.avc)) us
      → d.ch ≡ some c
      → NoneFirst args.sps_pps_flag us
      → demuxer_loop lib fuel timestamp cts keyframe (packet us rest) args d
        ≡ demuxer_loop lib left timestamp cts keyframe rest args
            (wrote c (frames timestamp cts keyframe us) d)
  unfolding packet unit_frame
  loop-units [] rest fuel left args d f vs e plain =
      ap (λ n. demuxer_loop lib n timestamp cts keyframe rest args d) (omega arith)
      ∙ sym (
          ap
            (λ sent.
              demuxer_loop lib left timestamp cts keyframe rest args (record d { sent = sent }))
            (append-nil d.sent))
  loop-units (u ∷ us) rest zero left args d f vs e plain = absurd (omega arith)
  loop-units (u ∷ us) rest (suc fuel) left args d f (v, vs) e (p, plain) =
      loop-plain fuel (packet (u ∷ us) rest) u.body (packet us rest) args d
        (cut-packet (lib.nalu args.avc) u (packet us rest) v) e p
      ∙ loop-units us rest fuel left args (wrote c (annex_b timestamp cts keyframe u ∷ []) d)
          (omega arith) vs e plain
      ∙ ap
          (λ sent.
            demuxer_loop lib left timestamp cts keyframe rest args (record d { sent = sent }))
          (append_assoc d.sent (map (to_channel c) (frames timestamp cts keyframe (u ∷ [])))
            (map (to_channel c) (frames timestamp cts keyframe us)))
