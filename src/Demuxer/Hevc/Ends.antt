-- ===== src/Demuxer/Hevc/Ends.antt =====
-- The loop of the H.265 decoder ends, rtmp_hevc_decoder.cc.
use simple_rtmp.Base.{
  ℕ, zero, suc, ◌+◌, ◌≤◌, ◌≡◌, refl, List, length, drop, ◌⊎◌, arith, Option-cases, ◌==◌,
  if◌then◌else◌, ap, ◌∙◌, inl, inr,
}
use simple_rtmp.Base.Int.{ℤ}
use simple_rtmp.Demuxer.Hevc.{
  Library, Args, HevcDecoder, Outcome, out_of_fuel, Round, ended, next, send_unit, take_unit, round,
  demuxer_loop, demuxer_avpacket, write_packet, write,
}
use simple_rtmp.Frame.{FrameBuffer, bytes_of, pts}
use simple_rtmp.Demuxer.H264.{VideoTag}
use simple_rtmp.Sink.{Signal, frame, failed}

Round-cases :
    {A : Type 0} (r : Round A)
    → ((result : Outcome A) × (r ≡ ended result))
      ⊎ ((at : ℕ) × (offset : ℕ) × (args : Args A) × (d : HevcDecoder A) × (r
            ≡ next at offset args d))
Round-cases (ended result) = inl (result, refl)
Round-cases (next at offset args d) = inr (at, offset, args, d, refl)

module _ {A : Type 0} (lib : Library A) (t cts : ℤ) (keyframe : ℕ) where
  send_unit-next :
      (packet : List ℕ) (at nalu offset at' offset' : ℕ) (args args' : Args A)
      (d d' : HevcDecoder A)
      → send_unit t cts keyframe packet at nalu offset args d ≡ next at' offset' args' d'
      → at + offset ≤ at'
  unfolding send_unit
  send_unit-next packet at nalu offset at' offset' args args' d d' q = ground (arith, q)

  send_unit-ended :
      (packet : List ℕ) (at nalu offset : ℕ) (args : Args A) (d : HevcDecoder A)
      → ¬ (send_unit t cts keyframe packet at nalu offset args d ≡ ended out_of_fuel)
  unfolding send_unit
  send_unit-ended packet at nalu offset args d q = ground (arith, q)

  take_unit-next :
      (packet : List ℕ) (at nalu offset kind at' offset' : ℕ) (args args' : Args A)
      (d d' : HevcDecoder A)
      → take_unit lib t cts keyframe packet at nalu offset kind args d ≡ next at' offset' args' d'
      → at + offset ≤ at'
  unfolding take_unit send_unit
  take_unit-next packet at nalu offset kind at' offset' args args' d d' q = ground (arith, q)

  take_unit-ended :
      (packet : List ℕ) (at nalu offset kind : ℕ) (args : Args A) (d : HevcDecoder A)
      → ¬ (take_unit lib t cts keyframe packet at nalu offset kind args d ≡ ended out_of_fuel)
  unfolding take_unit send_unit
  take_unit-ended packet at nalu offset kind args d q = ground (arith, q)

  round-next :
      (packet : List ℕ) (at offset at' offset' : ℕ) (args args' : Args A) (d d' : HevcDecoder A)
      → 1 ≤ lib.length_size args.hevc
      → round lib t cts keyframe packet at offset args d ≡ next at' offset' args' d'
      → (suc at ≤ length packet) × (suc at ≤ at')
  unfolding round
  round-next packet at offset at' offset' args args' d d' sized q =
      ground (arith, sized, q, take_unit-next packet at)

  round-ended :
      (packet : List ℕ) (at offset : ℕ) (args : Args A) (d : HevcDecoder A)
      → ¬ (round lib t cts keyframe packet at offset args d ≡ ended out_of_fuel)
  unfolding round
  round-ended packet at offset args d q = ground (arith, q, take_unit-ended packet at)

  loop-ends :
      (fuel : ℕ) (packet : List ℕ) (at offset : ℕ) (args : Args A) (d : HevcDecoder A)
      → ((a : A) → 1 ≤ lib.length_size a)
      → length packet ≤ fuel + at
      → ¬ (demuxer_loop lib (suc fuel) t cts keyframe packet at offset args d ≡ out_of_fuel)
  unfolding demuxer_loop
  loop-ends zero packet at offset args d sized enough q =
      elim (Round-cases (round lib t cts keyframe packet at offset args d)) [
        | inl (result, e) ↦
            round-ended packet at offset args d (e ∙ ap ended (ground (arith, q, e)))
        | inr (at', offset', args', d', e) ↦
            let (inside, further) =
              round-next packet at offset at' offset' args args' d d' (sized args.hevc) e in
            absurd (omega arith)
      ]
  loop-ends (suc fuel) packet at offset args d sized enough q =
      elim (Round-cases (round lib t cts keyframe packet at offset args d)) [
        | inl (result, e) ↦
            round-ended packet at offset args d (e ∙ ap ended (ground (arith, q, e)))
        | inr (at', offset', args', d', e) ↦
            let (inside, further) =
              round-next packet at offset at' offset' args args' d d' (sized args.hevc) e in
            loop-ends fuel packet at' offset' args' d' sized (omega arith) (ground (arith, q, e))
      ]

write_packet-ends :
    {A : Type 0} (lib : Library A) (tag : VideoTag) (f : FrameBuffer) (d : HevcDecoder A)
    → ((a : A) → 1 ≤ lib.length_size a)
    → ¬ (write_packet lib tag f d ≡ out_of_fuel)
unfolding write_packet demuxer_avpacket
write_packet-ends lib tag f d sized q =
    let packet = drop tag.read (bytes_of f) in
    elim (Option-cases d.args) [
      | inl missing ↦ ground (arith, q, missing)
      | inr (args, there) ↦ ground (
        arith,
        q,
        there,
        loop-ends lib (pts f) tag.cts (if tag.keyframe == 1 then 1 else 0) (length packet) packet 0
            0 args d sized (omega arith),
      )
    ]

-- Whatever the decoder is written, the call ends: the loop has enough fuel for every packet. A length has
-- a byte at least.
pub write-ends :
    {A : Type 0} (lib : Library A) (signal : Signal) (d : HevcDecoder A)
    → ((a : A) → 1 ≤ lib.length_size a)
    → ¬ (write lib signal d ≡ out_of_fuel)
unfolding write
write-ends lib (failed ec) d sized q = ground (arith, q)
write-ends lib (frame f) d sized q = elim (Option-cases (lib.read_tag (bytes_of f))) [
  | inl missing ↦ ground (arith, q, missing)
  | inr (tag, is_tag) ↦ ground (arith, q, is_tag, write_packet-ends lib tag f d sized)
]
