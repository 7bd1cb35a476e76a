-- ===== src/PlaySession/Ready.antt =====
-- A new server context can send media, and a receiver that has heard nothing agrees with it.
use simple_rtmp.Base.{
  ℕ, zero, suc, ◌<◌, ◌≡◌, refl, sym, ap, ◌∙◌, subst, List, [], ◌∷◌, map, some, length, set,
  replicate, arith, length-set, length-replicate, Option-cases, inl, inr,
}
use simple_rtmp.Frame.{FrameBuffer}
use simple_rtmp.Chunk.{Packet, zero_packet, at, rtmp_packet_find_help}
use simple_rtmp.Chunk.Lookup.{at-set_self, at-set_ne, find_complete}
use simple_rtmp.Chunk.Stream.{fresh_slot, silent, InTune, fresh-InTune}
use simple_rtmp.Server.{Library}
use simple_rtmp.PlaySession.Init.{Sizes, own_slot, init_slots, init}
use native.Mathlib.Decide.{ℕ_discrete}
use simple_rtmp.PlaySession.Message.{Sending, channel_of}

-- The slots that have sent nothing, by their ids.
fresh_slots-set :
    (cids : List ℕ) (i : ℕ) → own_slot i (map fresh_slot cids) ≡ map fresh_slot (set cids i i)
unfolding own_slot
fresh_slots-set cids i = own cids i i
  where
    own :
        (cids : List ℕ) (i cid : ℕ)
        → set (map fresh_slot cids) i (record (at (map fresh_slot cids) i) {
          header = record ((at (map fresh_slot cids) i).header) { cid = cid };
        })
          ≡ map fresh_slot (set cids i cid)
    own [] i cid = refl
    own (c ∷ cids) zero cid = refl
    own (c ∷ cids) (suc i) cid = ap (◌∷◌ (fresh_slot c)) (own cids i cid)

fresh_slots-replicate : (n : ℕ) → replicate n zero_packet ≡ map fresh_slot (replicate n 0)
fresh_slots-replicate zero = refl
fresh_slots-replicate (suc n) = ap (◌∷◌ zero_packet) (fresh_slots-replicate n)

-- A slot that holds its own number.
abbrev IsOwn : List Packet → ℕ → Type 0
IsOwn table i = (i < length table) × ((at table i).header.cid ≡ i)

own_slot-IsOwn : (i : ℕ) (table : List Packet) → i < length table → IsOwn (own_slot i table) i
unfolding own_slot
own_slot-IsOwn i table h =
    let p : Packet = record (at table i) { header = record ((at table i).header) { cid = i } } in
    (omega (arith, length-set table i p), ap (λ q. q.header.cid) (at-set_self table i p h))

own_slot-keeps : (c i : ℕ) (table : List Packet) → IsOwn table i → IsOwn (own_slot c table) i
unfolding own_slot
own_slot-keeps c i table (h, own) =
    let p : Packet = record (at table c) { header = record ((at table c).header) { cid = c } } in
    (
      omega (arith, length-set table c p),
      elim (ℕ_discrete c i) [
        | yes same ↦
            subst (λ k. (at (set table c p) k).header.cid ≡ k) same
              (ap (λ q. q.header.cid) (at-set_self table c p (omega (arith, h))))
        | no other ↦ ap (λ q. q.header.cid) (at-set_ne table c i p other) ∙ own
      ],
    )

IsOwn-found :
    (table : List Packet) (i : ℕ)
    → IsOwn table i
    → (j : ℕ) × (rtmp_packet_find_help table i ≡ some j)
IsOwn-found table i (h, own) = elim (Option-cases (rtmp_packet_find_help table i)) [
  | inl missing ↦ absurd (find_complete table i i missing h own)
  | inr found ↦ found
]

length-own_slot : (c : ℕ) (table : List Packet) → length (own_slot c table) ≡ length table
unfolding own_slot
length-own_slot c table = length-set table c _

module _ (sizes : Sizes) (lib : Library) where
  -- The ids of the slots.
  abbrev ids : List ℕ
  ids =
      let a =
        set (replicate sizes.n_chunk_stream 0) sizes.channel_protocol sizes.channel_protocol in
      let b = set a lib.channel_invoke lib.channel_invoke in
      let c = set b lib.channel_audio lib.channel_audio in
      let d = set c lib.channel_video lib.channel_video in
      set d sizes.channel_data sizes.channel_data

  init_slots-fresh : init_slots sizes lib ≡ map fresh_slot ids
  unfolding init_slots
  init_slots-fresh = simp (fresh_slots-replicate, fresh_slots-set)

  module _ (audio_fits : lib.channel_audio < sizes.n_chunk_stream)
      (video_fits : lib.channel_video < sizes.n_chunk_stream)
      (invoke_fits : lib.channel_invoke < sizes.n_chunk_stream) where
    slots-IsOwn :
        IsOwn (init_slots sizes lib) lib.channel_audio
        × IsOwn (init_slots sizes lib) lib.channel_video
        × IsOwn (init_slots sizes lib) lib.channel_invoke
    unfolding init_slots
    slots-IsOwn =
        let t0 = replicate sizes.n_chunk_stream zero_packet in
        let t1 = own_slot sizes.channel_protocol t0 in
        let t2 = own_slot lib.channel_invoke t1 in
        let t3 = own_slot lib.channel_audio t2 in
        let t4 = own_slot lib.channel_video t3 in
        let n0 = length-replicate sizes.n_chunk_stream zero_packet in
        let n1 = length-own_slot sizes.channel_protocol t0 in
        let n2 = length-own_slot lib.channel_invoke t1 in
        let n3 = length-own_slot lib.channel_audio t2 in
        (
          own_slot-keeps sizes.channel_data lib.channel_audio t4 (
              own_slot-keeps lib.channel_video lib.channel_audio t3
                (own_slot-IsOwn lib.channel_audio t2 (omega (arith, n0, n1, n2)))),
          own_slot-keeps sizes.channel_data lib.channel_video t4
              (own_slot-IsOwn lib.channel_video t3 (omega (arith, n0, n1, n2, n3))),
          own_slot-keeps sizes.channel_data lib.channel_invoke t4 (
              own_slot-keeps lib.channel_video lib.channel_invoke t3 (
                own_slot-keeps lib.channel_audio lib.channel_invoke t2
                  (own_slot-IsOwn lib.channel_invoke t1 (omega (arith, n0, n1))))),
        )

    slots-found :
        (f : FrameBuffer)
        → (j : ℕ) × (rtmp_packet_find_help (init_slots sizes lib) (channel_of lib f) ≡ some j)
    slots-found f =
        IsOwn-found (init_slots sizes lib) (channel_of lib f) (ground (arith, slots-IsOwn))

  -- The context of a new session can send each kind of media, as the chunk streams have their slots and
  -- chunks are not empty, and a receiver that has heard nothing agrees with it on every chunk stream.
  pub init_ready :
      lib.channel_audio < sizes.n_chunk_stream
      → lib.channel_video < sizes.n_chunk_stream
      → lib.channel_invoke < sizes.n_chunk_stream
      → 0 < sizes.chunk_size
      → Sending lib (init sizes lib) × InTune (init sizes lib).out_packets (λ _. silent)
  unfolding init
  init_ready audio_fits video_fits invoke_fits some_bytes = (
    record {
      chunk = some_bytes;
      wants_audio = omega arith;
      wants_video = omega arith;
      slots = slots-found audio_fits video_fits invoke_fits;
    },
    subst (λ table. InTune table (λ _. silent)) (sym init_slots-fresh) (fresh-InTune ids),
  )
