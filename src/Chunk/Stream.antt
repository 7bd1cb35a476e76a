-- ===== src/Chunk/Stream.antt =====
-- A whole connection's messages, over all its chunk streams, as a receiver hears them.
use simple_rtmp.Base.{
  ℕ, zero, suc, ◌^◌, ◌<◌, ◌≡◌, refl, sym, ap, ◌∙◌, subst, List, [], ◌∷◌, Option, none, some, set,
  ◌==◌, if◌then◌else◌, arith, Option-cases, inl, inr, ◌≢◌, map, All, ==_iff,
}
use simple_rtmp.Chunk.{
  type_0, Header, Packet, at, compress, zip_at, rtmp_packet_find_help, rtmp_chunk_header_zip_help,
}
use simple_rtmp.Chunk.Lookup.{find_sound, find-set, at-set_self, at-set_ne}
use simple_rtmp.Chunk.Receiver.{
  Stream, Message, Agrees, receive, wire_of, heard, message_of, compress-Agrees, compress-heard,
}
use mathlib.Core.Path.{ap₂, subst₂}
use native.Mathlib.Decide.{ℕ_discrete}

-- The headers that a series of messages is sent with.
unfoldable pub zip_all : List Packet → List Header → Option (List Header)
zip_all table [] = some []
zip_all table (m ∷ ms) = elim (rtmp_chunk_header_zip_help table m) [
  | none ↦ none
  | some (h, table') ↦ elim (zip_all table' ms) [ none ↦ none | some hs ↦ some (h ∷ hs) ]
]

abbrev update : ℕ → Stream → (ℕ → Stream) → ℕ → Stream
update cid s streams c = if c == cid then s else streams c

-- The messages that a receiver makes of headers.
unfoldable pub hear_all : (ℕ → Stream) → List Header → List Message
unfolding receive wire_of heard
hear_all streams [] = []
hear_all streams (h ∷ hs) =
    let s = receive (wire_of h) (streams h.cid) in
    heard h.cid s ∷ hear_all (update h.cid s streams) hs

-- Sender and receiver agree on every chunk stream that the sender has a slot for.
pub record InTune (table : List Packet) (streams : ℕ → Stream) : Type 0 where
  pub tuned :
      (cid j : ℕ) → rtmp_packet_find_help table cid ≡ some j → Agrees (at table j) (streams cid)

pub compress-cid : (h : Header) (p : Packet) → (compress h p).cid ≡ h.cid
unfolding compress
compress-cid h p = ground arith

module _ (table : List Packet) (streams : ℕ → Stream) (v : InTune table streams) (m : Header)
    (fits : m.timestamp < 2 ^ 32) (j : ℕ) (found : rtmp_packet_find_help table m.cid ≡ some j) where
  packet : Packet
  packet = record { header = compress m (at table j); clock = m.timestamp }

  stream : Stream
  stream = receive (wire_of (compress m (at table j))) (streams m.cid)

  packet-Agrees : Agrees packet stream
  unfolding packet stream
  packet-Agrees = compress-Agrees m (at table j) (streams m.cid) (v.tuned m.cid j found) fits

  packet-cid : packet.header.cid ≡ (at table j).header.cid
  unfolding packet
  packet-cid = compress-cid m (at table j) ∙ sym (find_sound table m.cid j found).1

  found_before :
      (cid i : ℕ)
      → rtmp_packet_find_help (set table j packet) cid ≡ some i
      → rtmp_packet_find_help table cid ≡ some i
  found_before cid i e = sym (find-set table j packet cid packet-cid) ∙ e

  -- The chunk stream of the message.
  tuned_same :
      (cid i : ℕ)
      → cid ≡ m.cid
      → rtmp_packet_find_help table cid ≡ some i
      → Agrees (at (set table j packet) i) (update m.cid stream streams cid)
  tuned_same cid i same e =
      let q : j ≡ i = cc in
      subst₂ Agrees
        (sym (at-set_self table j packet (find_sound table m.cid j found).0)
          ∙ ap (at (set table j packet)) q)
        (rw ((==_iff cid m.cid).1 same)) packet-Agrees

  -- Any other.
  tuned_other :
      (cid i : ℕ)
      → ¬ (cid ≡ m.cid)
      → rtmp_packet_find_help table cid ≡ some i
      → Agrees (at (set table j packet) i) (update m.cid stream streams cid)
  tuned_other cid i other e =
      subst₂ Agrees (sym (at-set_ne table j i packet apart)) (ground arith) (v.tuned cid i e)
    where
      apart : j ≢ i
      apart q = other (
          sym (find_sound table cid i e).1
          ∙ ap (λ k. (at table k).header.cid) (sym q)
          ∙ (find_sound table m.cid j found).1)

  zip_at-InTune : InTune (set table j packet) (update m.cid stream streams)
  zip_at-InTune = record {
    tuned = λ cid i e. elim (ℕ_discrete cid m.cid) [
      | yes same ↦ tuned_same cid i same (found_before cid i e)
      | no other ↦ tuned_other cid i other (found_before cid i e)
    ];
  }

  heard-stream : heard m.cid stream ≡ message_of m
  unfolding stream
  heard-stream = compress-heard m (at table j) (streams m.cid) (v.tuned m.cid j found) fits

  -- The receiver's turn: this message, and the rest with the streams that this one leaves.
  hear_all-first :
      (rest : List Header) (ms : List Header)
      → hear_all (update m.cid stream streams) rest ≡ map message_of ms
      → hear_all streams (compress m (at table j) ∷ rest) ≡ map message_of (m ∷ ms)
  unfolding hear_all stream
  hear_all-first rest ms ih =
      subst
        (λ c.
          let s = receive (wire_of (compress m (at table j))) (streams c) in
          heard c s ∷ hear_all (update c s streams) rest ≡ map message_of (m ∷ ms))
        (sym (compress-cid m (at table j))) (ap₂ ◌∷◌ heard-stream ih)

-- A header that is sent has passed the assertions and found its slot.
pub zip-some :
    (table : List Packet) (m : Header) (r : Header × List Packet)
    → rtmp_chunk_header_zip_help table m ≡ some r
    → (j : ℕ) × (rtmp_packet_find_help table m.cid ≡ some j) × (zip_at m table j ≡ r)
unfolding rtmp_chunk_header_zip_help
zip-some table m r e = elim (Option-cases (rtmp_packet_find_help table m.cid)) [
  | inl missing ↦ ground arith
  | inr (j, found) ↦ (j, found, ground arith)
]

abbrev pub Fits : Header → Type 0
Fits m = m.timestamp < 2 ^ 32

-- The series after its first header.
zip_all-cons :
    (m : Header) (ms : List Header) (table : List Packet) (r : Header × List Packet)
    (hs : List Header)
    → rtmp_chunk_header_zip_help table m ≡ some r
    → zip_all table (m ∷ ms) ≡ some hs
    → (rest : List Header) × (zip_all r.1 ms ≡ some rest) × (r.0 ∷ rest ≡ hs)
unfolding zip_all
zip_all-cons m ms table r hs zipped e = elim (Option-cases (zip_all r.1 ms)) [
  | inl failed ↦ ground arith
  | inr (rest, sent) ↦ (rest, sent, ground arith)
]

-- Whatever series of messages is sent, a receiver that agrees with the sender at first recovers from
-- the compressed headers exactly the ids, times, lengths, types and stream ids of the messages.
pub hear_all-zip_all :
    (ms : List Header) (table : List Packet) (streams : ℕ → Stream) (hs : List Header)
    → InTune table streams
    → All Fits ms
    → zip_all table ms ≡ some hs
    → hear_all streams hs ≡ map message_of ms
unfolding zip_all zip_at packet
hear_all-zip_all [] table streams hs v f e =
    subst (λ xs. hear_all streams xs ≡ []) hs_nil (unfold hear_all in refl)
  where
    hs_nil : [] ≡ hs
    hs_nil = cc
hear_all-zip_all (m ∷ ms) table streams hs v f e =
    elim (Option-cases (rtmp_chunk_header_zip_help table m)) [
      | inl failed ↦ ground arith
      | inr (r, zipped) ↦
          let (j, found, z) = zip-some table m r zipped in
          let (rest, sent, q) =
            zip_all-cons m ms table (zip_at m table j) hs (zipped ∙ ap some (sym z)) e in
          subst (λ xs. hear_all streams xs ≡ map message_of (m ∷ ms)) q
            (hear_all-first table streams v m f.0 j found rest ms
              (hear_all-zip_all ms _ _ rest (zip_at-InTune table streams v m f.0 j found) f.1 sent))
    ]

-- A slot that has its id and has sent nothing, and a receiver that has heard nothing.
abbrev pub fresh_slot : ℕ → Packet
fresh_slot cid = record {
  header = record { fmt = type_0; cid = cid; timestamp = 0; length = 0; type = 0; stream_id = 0 };
  clock = 0;
}

abbrev pub silent : Stream
silent = record { clock = 0; delta = 0; length = 0; type = 0; stream_id = 0 }

fresh-Agrees : (cids : List ℕ) (j : ℕ) → Agrees (at (map fresh_slot cids) j) silent
fresh-Agrees [] j = record {
  clock = refl;
  delta = refl;
  size = refl;
  type = refl;
  stream_id = refl;
}
fresh-Agrees (cid ∷ cids) zero = record {
  clock = refl;
  delta = refl;
  size = refl;
  type = refl;
  stream_id = refl;
}
fresh-Agrees (cid ∷ cids) (suc j) = fresh-Agrees cids j

-- At first sender and receiver agree.
pub fresh-InTune : (cids : List ℕ) → InTune (map fresh_slot cids) (λ _. silent)
fresh-InTune cids = record { tuned = λ cid j e. fresh-Agrees cids j }
