-- ===== src/Chunk/Pieces.antt =====
-- The chunks that one message is cut into.
use simple_rtmp.Base.{
  ℕ, zero, suc, ◌+◌, ◌-◌, ◌≤◌, ◌<◌, min, ◌≡◌, refl, ap, ◌∙◌, List, [], ◌∷◌, ◌++◌, map, some, take,
  drop, arith, inl, inr, ◌⊎◌, take-drop_split, drop-drop,
}
use simple_rtmp.Base.Int.{pos}
use simple_rtmp.Frame.{FrameBuffer, bytes_of, size, create, create_ref}
use simple_rtmp.Chunk.{
  Header, Packet, Writers, first_header, next_header, write_loop, write_zipped, minus_einval,
  rtmp_chunk_header_zip_help, rtmp_chunk_write_help,
}

-- The buffers are sent in pairs, a header and a piece of the payload: the bytes of the headers, the
-- sizes of the pieces, and the bytes of the pieces put together.
unfoldable pub heads : List FrameBuffer → List (List ℕ)
heads (head ∷ (piece ∷ rest)) = bytes_of head ∷ heads rest
heads _ = []

unfoldable pub sizes : List FrameBuffer → List ℕ
sizes (head ∷ (piece ∷ rest)) = size piece ∷ sizes rest
sizes _ = []

unfoldable pub joined : List FrameBuffer → List ℕ
joined (head ∷ (piece ∷ rest)) = bytes_of piece ++ joined rest
joined _ = []

-- All pieces but the last have `chunk` bytes, and the last has 1 to `chunk`.
abbrev pub IsFilled : ℕ → List ℕ → Type 0
IsFilled chunk [] = Unit {0}
IsFilled chunk (n ∷ []) = (1 ≤ n) × (n ≤ chunk)
IsFilled chunk (n ∷ m ∷ ns) = (n ≡ chunk) × IsFilled chunk (m ∷ ns)

-- `first` for the first piece and `next` for each later one.
abbrev pub headed : List ℕ → List ℕ → List ℕ → List (List ℕ)
headed first next [] = []
headed first next (n ∷ ns) = first ∷ map (λ _. next) ns

headed_same : (first : List ℕ) (ns : List ℕ) → headed first first ns ≡ map (λ _. first) ns
headed_same first [] = refl
headed_same first (n ∷ ns) = refl

-- A piece in front of filled ones: it is full, or the last.
IsFilled-cons :
    (chunk n : ℕ) (ns : List ℕ)
    → 1 ≤ n
    → n ≤ chunk
    → (n ≡ chunk) ⊎ (ns ≡ [])
    → IsFilled chunk ns
    → IsFilled chunk (n ∷ ns)
IsFilled-cons chunk n [] lo hi last f = (lo, hi)
IsFilled-cons chunk n (m ∷ ns) lo hi (inl full) f = (full, f)
IsFilled-cons chunk n (m ∷ ns) lo hi (inr none_left) f = cc

module _ (w : Writers) (h : Header) (chunk : ℕ) (frame : FrameBuffer) where
  -- What the loop sends when `left` bytes from `start` on are to be sent and `head` goes first.
  record IsSent (head : List ℕ) (start left : ℕ) (sent : List FrameBuffer) : Type 0 where
    pieces : joined sent ≡ take left (drop start (bytes_of frame))
    filled : IsFilled chunk (sizes sent)
    labels : heads sent ≡ headed head (next_header w h) (sizes sent)
    finished : left ≡ 0 → sizes sent ≡ []

  -- One round in front of the others.
  IsSent-cons :
      (head : List ℕ) (start left n : ℕ) (sent : List FrameBuffer)
      → 1 ≤ n
      → n ≤ chunk
      → n ≤ left
      → (n ≡ chunk) ⊎ (n ≡ left)
      → IsSent (next_header w h) (start + n) (left - n) sent
      → IsSent head start left (create head ∷ (create_ref start n frame ∷ sent))
  unfolding joined sizes heads bytes_of size
  IsSent-cons head start left n sent lo hi fit cut v = record {
    pieces =
        ap (λ bytes. take n (drop start (bytes_of frame)) ++ bytes)
          (v.pieces ∙ ap (take (left - n)) (drop-drop start n (bytes_of frame)))
        ∙ take-drop_split n left (drop start (bytes_of frame)) fit;
    filled = IsFilled-cons chunk n (sizes sent) lo hi last v.filled;
    labels = ap (◌∷◌ head) (v.labels ∙ headed_same (next_header w h) (sizes sent));
    finished = λ e. absurd (omega arith);
  }
    where
      last : (n ≡ chunk) ⊎ (sizes sent ≡ [])
      last = elim cut [ inl full ↦ inl full | inr all ↦ inr (v.finished (omega arith)) ]

  write_loop-IsSent :
      (fuel : ℕ) (head : List ℕ) (start left : ℕ)
      → 0 < chunk
      → left ≤ fuel
      → (sent : List FrameBuffer) × (write_loop w fuel h chunk frame head start left ≡ some sent)
        × IsSent head start left sent
  unfolding write_loop
  write_loop-IsSent fuel head start zero c e = (
    [],
    refl,
    unfold joined sizes heads in
        record { pieces = refl; filled = tt; labels = refl; finished = λ _. refl },
  )
  write_loop-IsSent zero head start (suc left) c e = absurd (omega arith)
  write_loop-IsSent (suc fuel) head start (suc left) c e =
      let n = min (suc left) chunk in
      let (sent, q, v) =
        write_loop-IsSent fuel (next_header w h) (start + n) (suc left - n) c (omega arith) in
      (
        create head ∷ (create_ref start n frame ∷ sent),
        rw (q, write_loop),
        IsSent-cons head start (suc left) n sent (omega arith) (omega arith) (omega arith)
            (omega arith) v,
      )

write_help_zipped :
    (w : Writers) (chunk : ℕ) (table : List Packet) (header : Header) (frame : FrameBuffer)
    (r : Header × List Packet)
    → rtmp_chunk_header_zip_help table header ≡ some r
    → rtmp_chunk_write_help w chunk table header frame ≡ write_zipped w chunk frame r
unfolding rtmp_chunk_write_help
write_help_zipped w chunk table header frame r zipped = rw (zipped, rtmp_chunk_write_help)

-- A message whose header passes and is short enough is sent whole, whatever the size of the frame:
-- the call returns 0, the pieces together are the first bytes of the frame up to the length of the
-- header, all pieces but the last have the size of a chunk, the first piece goes behind the full
-- header and each later one behind a header of type 3. The loop ends.
pub write_help_sends :
    (w : Writers) (chunk : ℕ) (table : List Packet) (header : Header) (frame : FrameBuffer)
    (h : Header) (table' : List Packet)
    → rtmp_chunk_header_zip_help table header ≡ some (h, table')
    → h.length < 0xFFFFFF
    → 0 < chunk
    → (sent : List FrameBuffer) × (rtmp_chunk_write_help w chunk table header frame
        ≡ some (record { result = pos 0; sent = sent; table = table' }))
      × (joined sent ≡ take h.length (bytes_of frame))
      × IsFilled chunk (sizes sent)
      × (heads sent ≡ headed (first_header w h) (next_header w h) (sizes sent))
unfolding write_zipped
write_help_sends w chunk table header frame h table' zipped short c =
    let (sent, q, v) =
      write_loop-IsSent w h chunk frame h.length (first_header w h) 0 h.length c (omega arith) in
    (
      sent,
      write_help_zipped w chunk table header frame (h, table') zipped ∙ ground (arith, q),
      v.pieces,
      v.filled,
      v.labels,
    )

-- A message whose length does not fit 24 bits is refused: the call returns -EINVAL and sends nothing,
-- but the table that it leaves holds the message as if it had been sent.
pub write_help_refuses :
    (w : Writers) (chunk : ℕ) (table : List Packet) (header : Header) (frame : FrameBuffer)
    (h : Header) (table' : List Packet)
    → rtmp_chunk_header_zip_help table header ≡ some (h, table')
    → 0xFFFFFF ≤ h.length
    → rtmp_chunk_write_help w chunk table header frame
      ≡ some (record { result = minus_einval; sent = []; table = table' })
unfolding write_zipped
write_help_refuses w chunk table header frame h table' zipped long =
    write_help_zipped w chunk table header frame (h, table') zipped ∙ ground arith
