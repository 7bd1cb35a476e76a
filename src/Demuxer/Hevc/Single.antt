-- ===== src/Demuxer/Hevc/Single.antt =====
-- What the H.265 decoder makes of a packet that is one unit, rtmp_hevc_decoder.cc.
use simple_rtmp.Base.{
  ℕ, zero, suc, ◌+◌, ◌%◌, ◌/◌, ◌^◌, ◌≤◌, ◌<◌, ◌≡◌, refl, ap, ◌∙◌, List, [], ◌∷◌, ◌++◌, some, length,
  drop, get_or, ◌==◌, if◌then◌else◌, arith, length-append, take-length_append, drop-length_append,
  take_all,
}
use simple_rtmp.Base.Int.{ℤ}
use simple_rtmp.Frame.{FrameBuffer, fixed, bytes_of, pts}
use simple_rtmp.Sink.{frame}
use simple_rtmp.Demuxer.H264.{VideoTag, big_endian}
use simple_rtmp.Demuxer.Hevc.{
  Library, Args, HevcDecoder, behind_end, next, is_parameter_set, video_frame, on_frame, send_unit,
  take_unit, round, demuxer_loop, demuxer_avpacket, write_packet, write,
}

module _ {A : Type 0} (lib : Library A) (t cts : ℤ) (keyframe : ℕ) where
  -- A length that is read behind the end.
  loop-behind :
      (fuel : ℕ) (packet : List ℕ) (at offset : ℕ) (args : Args A) (d : HevcDecoder A)
      → 1 ≤ fuel
      → length packet < at + lib.length_size args.hevc
      → demuxer_loop lib fuel t cts keyframe packet at offset args d ≡ behind_end d
  unfolding demuxer_loop round
  loop-behind zero packet at offset args d some_fuel behind = ground arith
  loop-behind (suc fuel) packet at offset args d some_fuel behind = ground arith

  -- A unit when the parameter sets have been sent.
  take_unit-sends :
      (packet : List ℕ) (at nalu offset kind : ℕ) (args : Args A) (d : HevcDecoder A)
      → 1 ≤ args.vps_sps_pps_flag
      → (args' : Args A) × (args'.hevc ≡ args.hevc)
        × (take_unit lib t cts keyframe packet at nalu offset kind args d
            ≡ send_unit t cts keyframe packet at nalu offset args' (record d { args = some args' }))
  unfolding take_unit
  take_unit-sends packet at nalu offset kind args d flagged = (
    if is_parameter_set kind then record args { vps_sps_pps_flag = 1 } else args,
    ground arith,
    ground (arith, flagged),
  )

  module _ (prefix unit : List ℕ) (args : Args A) (d : HevcDecoder A) (c : ℕ) where
    send_unit-single :
        d.ch ≡ some c
        → send_unit t cts keyframe (prefix ++ unit) 0 (length unit) (length prefix) args d
          ≡ next
              (length prefix + (length prefix + length unit))
              (length prefix + length unit)
              args
              (record d {
                sent = d.sent ++ (c, frame (fixed (video_frame t cts keyframe unit))) ∷ [];
              })
    unfolding send_unit on_frame
    send_unit-single there = ground (
      arith,
      there,
      length-append prefix unit,
      drop-length_append prefix unit,
      take_all (length unit) unit (omega arith),
    )

  -- The length and the unit, of which the first tells the second's bytes.
  pub record IsSingle (args : Args A) (prefix unit : List ℕ) : Type 0 where
    pub sized : lib.length_size args.hevc ≡ length prefix
    pub tells : big_endian 0 prefix ≡ length unit
    pub no_byte : 2 ≤ length prefix
    pub some_bytes : 2 ≤ length unit
    pub bounded : length unit < 2 ^ 31

  round-single :
      (prefix unit : List ℕ) (args : Args A) (d : HevcDecoder A) (c : ℕ)
      → IsSingle args prefix unit
      → 1 ≤ args.vps_sps_pps_flag
      → d.ch ≡ some c
      → (args' : Args A) × (args'.hevc ≡ args.hevc)
        × (round lib t cts keyframe (prefix ++ unit) 0 0 args d
            ≡ next
                (length prefix + (length prefix + length unit))
                (length prefix + length unit)
                args'
                (record d {
                  args = some args';
                  sent = d.sent ++ (c, frame (fixed (video_frame t cts keyframe unit))) ∷ [];
                }))
  unfolding round
  round-single prefix unit args d c v flagged there =
      let kind = get_or (prefix ++ unit) (length prefix) 0 / 2 % 64 in
      let (args', same, taken) =
        take_unit-sends (prefix ++ unit) 0 (length unit) (length prefix) kind args d flagged in
      let sent = send_unit-single prefix unit args' (record d { args = some args' }) c there in
      (
        args',
        same,
        ground (
          arith,
          v.sized,
          v.tells,
          v.no_byte,
          v.some_bytes,
          v.bounded,
          length-append prefix unit,
          take-length_append prefix unit,
          taken,
          sent,
        ),
      )

  loop-single :
      (prefix unit : List ℕ) (args : Args A) (d : HevcDecoder A) (c : ℕ)
      → IsSingle args prefix unit
      → 1 ≤ args.vps_sps_pps_flag
      → d.ch ≡ some c
      → (d' : HevcDecoder A) × (demuxer_avpacket lib (prefix ++ unit) t cts keyframe args d
          ≡ behind_end d')
        × (d'.sent ≡ d.sent ++ (c, frame (fixed (video_frame t cts keyframe unit))) ∷ [])
  unfolding demuxer_avpacket demuxer_loop
  loop-single prefix unit args d c v flagged there =
      let n = length-append prefix unit in
      let some_bytes = v.some_bytes in
      let (args', same, once) = round-single prefix unit args d c v flagged there in
      let d' : HevcDecoder A = record d {
        args = some args';
        sent = d.sent ++ (c, frame (fixed (video_frame t cts keyframe unit))) ∷ [];
      } in
      let size = ap lib.length_size same ∙ v.sized in
      let behind =
        loop-behind (length (prefix ++ unit)) (prefix ++ unit)
          (length prefix + (length prefix + length unit)) (length prefix + length unit) args' d'
          (omega (arith, n, some_bytes)) (omega (arith, n, size, some_bytes, v.no_byte)) in
      (d', ground (arith, once, behind), refl)

-- The decoder, told of a configuration and with its parameter sets sent, is given a packet that is one
-- unit behind its length: it sends the unit without a start code, and then reads behind the packet's
-- end. A length has more than one byte, and the unit has more than one and fewer than 2 ^ 31.
pub write-single :
    {A : Type 0} (lib : Library A) (f : FrameBuffer) (tag : VideoTag) (prefix unit : List ℕ)
    (args : Args A) (d : HevcDecoder A) (c : ℕ)
    → lib.read_tag (bytes_of f) ≡ some tag
    → tag.avpacket ≡ 1
    → drop tag.read (bytes_of f) ≡ prefix ++ unit
    → d.args ≡ some args
    → 1 ≤ args.vps_sps_pps_flag
    → d.ch ≡ some c
    → lib.length_size args.hevc ≡ length prefix
    → big_endian 0 prefix ≡ length unit
    → 2 ≤ length prefix
    → 2 ≤ length unit
    → length unit < 2 ^ 31
    → (d' : HevcDecoder A) × (write lib (frame f) d ≡ behind_end d')
      × (d'.sent
          ≡ d.sent
            ++ (
              c,
              frame (fixed (video_frame (pts f) tag.cts (if tag.keyframe == 1 then 1 else 0) unit)),
            )
              ∷ [])
unfolding write write_packet
write-single lib f tag prefix unit args d c is_tag avp single told flagged there sized tells no_byte
      some_bytes bounded =
    let (d', q, r) =
      loop-single lib (pts f) tag.cts (if tag.keyframe == 1 then 1 else 0) prefix unit args d c
        (record {
          sized = sized;
          tells = tells;
          no_byte = no_byte;
          some_bytes = some_bytes;
          bounded = bounded;
        })
        flagged there in
    (d', ground (arith, is_tag, avp, single, told, q), r)
