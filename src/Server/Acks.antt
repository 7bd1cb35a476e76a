-- ===== src/Server/Acks.antt =====
-- The acknowledgements of what was received.
use simple_rtmp.Base.{
  ℕ, ◌+◌, ◌%◌, ◌^◌, ◌≤◌, ◌≡◌, ◌∙◌, ◌≢◌, List, [], ◌∷◌, ◌++◌, map, append-nil, append_assoc, ltb,
  if◌then◌else◌, ◌<◌, sym, ap, Option, none, some, arith, Option-cases, inl, inr,
}
use simple_rtmp.Base.Int.{ℤ}
use simple_rtmp.Frame.{FrameBuffer, create}
use simple_rtmp.Server.{Context, Library, Handler}
use simple_rtmp.Server.Messages.{
  send, send_bytes, unacknowledged, count_bytes, acknowledge, rtmp_server_send_acknowledgement,
}

-- The sum of the sizes.
abbrev pub sum : List ℕ → ℕ
sum [] = 0
sum (n ∷ ns) = n + sum ns

-- The totals that are told, where `total` bytes have been received and `gap` of them since one was told:
-- that behind each read with which the gap is more than the window. Both are numbers of 32 bits.
unfoldable pub told : ℕ → ℕ → ℕ → List ℕ → List ℕ
told window total gap [] = []
told window total gap (n ∷ ns) =
    let total' = (total + n) % 2 ^ 32 in
    let gap' = (gap + n) % 2 ^ 32 in
    let rest = told window total' (if ltb window gap' then 0 else gap') ns in
    if ltb window gap' then total' ∷ rest else rest

module _ (lib : Library) (h : Handler) where
  abbrev pub acknowledgements : List ℕ → List FrameBuffer
  acknowledgements totals = map (λ total. create (lib.acknowledgement total)) totals

  -- Reads of these sizes, whose results are dropped as rtmp_server_input drops them.
  unfoldable pub read_all : List ℕ → Context → Option Context
  unfolding rtmp_server_send_acknowledgement
  read_all [] c = some c
  read_all (n ∷ ns) c = elim (rtmp_server_send_acknowledgement lib h n c) [
    | none ↦ none
    | some (r, d) ↦ read_all ns d
  ]

  -- What one read leaves.
  record Counted (n : ℕ) (c d : Context) : Type 0 where
    total : d.recv_bytes_0 ≡ (c.recv_bytes_0 + n) % 2 ^ 32
    window : d.window_size ≡ c.window_size
    bounded : c.window_size ≢ 0 → unacknowledged lib h d ≤ c.window_size

  -- The gap behind a read, and what the read tells.
  record Told (n : ℕ) (c d : Context) : Type 0 where
    total : d.recv_bytes_0 ≡ (c.recv_bytes_0 + n) % 2 ^ 32
    window : d.window_size ≡ c.window_size
    small : d.recv_bytes_1 < 2 ^ 32
    gap :
        let gap' = (unacknowledged lib h c + n) % 2 ^ 32 in
        unacknowledged lib h d ≡ (if ltb c.window_size gap' then 0 else gap')
    sent :
        let gap' = (unacknowledged lib h c + n) % 2 ^ 32 in
        d.sent
        ≡ c.sent ++ acknowledgements (if ltb c.window_size gap' then d.recv_bytes_0 ∷ [] else [])

  counted-gap :
      (n : ℕ) (c : Context)
      → c.recv_bytes_1 < 2 ^ 32
      → unacknowledged lib h (count_bytes lib h n c) ≡ (unacknowledged lib h c + n) % 2 ^ 32
  unfolding unacknowledged count_bytes
  counted-gap n c small = omega (arith, small)

  ack-Told :
      (n : ℕ) (r : ℤ) (c d : Context)
      → c.window_size ≢ 0
      → c.recv_bytes_1 < 2 ^ 32
      → rtmp_server_send_acknowledgement lib h n c ≡ some (r, d)
      → Told n c d
  unfolding rtmp_server_send_acknowledgement acknowledge send_bytes send count_bytes unacknowledged
  ack-Told n r c d w small e =
      let gap = counted-gap n c small in
      record {
        total = ground (arith, e);
        window = ground (arith, e);
        small = ground (arith, e, small);
        gap = ground (arith, e, w, gap);
        sent = ground (arith, e, w, gap, append-nil c.sent);
      }

  ack-Counted :
      (n : ℕ) (r : ℤ) (c d : Context)
      → rtmp_server_send_acknowledgement lib h n c ≡ some (r, d)
      → Counted n c d
  unfolding rtmp_server_send_acknowledgement acknowledge send_bytes send count_bytes unacknowledged
  ack-Counted n r c d e = record {
    total = ground (arith, e);
    window = ground (arith, e);
    bounded = λ w. ground (arith, e, w);
  }

  read_all-Counted :
      (n : ℕ) (ns : List ℕ) (c d e : Context)
      → Counted n c e
      → Counted (sum ns) e d
      → Counted (n + sum ns) c d
  read_all-Counted n ns c d e v w = record {
    total = omega (arith, v.total, w.total);
    window = w.window ∙ v.window;
    bounded = λ p. ground (arith, v.window, w.bounded, p);
  }

  read_first :
      (n : ℕ) (ns : List ℕ) (c d : Context)
      → read_all (n ∷ ns) c ≡ some d
      → (c' : Context) × Counted n c c' × (read_all ns c' ≡ some d)
  unfolding read_all
  read_first n ns c d e = elim (Option-cases (rtmp_server_send_acknowledgement lib h n c)) [
    | inl failed ↦ ground (arith, failed, e)
    | inr ((r, c'), q) ↦ (c', ack-Counted n r c c' q, ground (arith, q, e))
  ]

  Counted-read_all :
      (n : ℕ) (ns : List ℕ) (c d : Context)
      → read_all (n ∷ ns) c ≡ some d
      → Counted (n + sum ns) c d
  unfolding read_all
  Counted-read_all n [] c d e =
      let (c', v, q) = read_first n [] c d e in
      record {
        total = ground (arith, q, v.total);
        window = ground (arith, q, v.window);
        bounded = λ p. ground (arith, q, v.bounded p);
      }
  Counted-read_all n (m ∷ ms) c d e =
      let (c', v, q) = read_first n (m ∷ ms) c d e in
      read_all-Counted n (m ∷ ms) c d c' v (Counted-read_all m ms c' d q)

  told-cons :
      (window total gap n : ℕ) (ns : List ℕ)
      → let gap' = (gap + n) % 2 ^ 32 in
        let total' = (total + n) % 2 ^ 32 in
        acknowledgements (if ltb window gap' then total' ∷ [] else [])
          ++ acknowledgements (told window total' (if ltb window gap' then 0 else gap') ns)
        ≡ acknowledgements (told window total gap (n ∷ ns))
  unfolding told
  told-cons window total gap n ns = ground arith

  -- The acknowledgements are those that are due.
  read_all-told :
      (ns : List ℕ) (c d : Context)
      → c.window_size ≢ 0
      → c.recv_bytes_1 < 2 ^ 32
      → read_all ns c ≡ some d
      → d.sent
        ≡ c.sent ++ acknowledgements (told c.window_size c.recv_bytes_0 (unacknowledged lib h c) ns)
  unfolding read_all told
  read_all-told [] c d w small e = ground (arith, e, append-nil c.sent)
  read_all-told (n ∷ ns) c d w small e =
      elim (Option-cases (rtmp_server_send_acknowledgement lib h n c)) [
        | inl failed ↦ ground (arith, failed, e)
        | inr ((r, c'), q) ↦
            let t = ack-Told n r c c' w small q in
            let gap' = (unacknowledged lib h c + n) % 2 ^ 32 in
            let total' = (c.recv_bytes_0 + n) % 2 ^ 32 in
            let rest = if ltb c.window_size gap' then 0 else gap' in
            let again : told c'.window_size c'.recv_bytes_0 (unacknowledged lib h c') ns
                ≡ told c.window_size total' rest ns =
              ap (λ k. told k c'.recv_bytes_0 (unacknowledged lib h c') ns) t.window
              ∙ ap (λ k. told c.window_size k (unacknowledged lib h c') ns) t.total
              ∙ ap (λ k. told c.window_size total' k ns) t.gap in
            let now =
              t.sent
              ∙ ap (λ k. c.sent ++ acknowledgements (if ltb c.window_size gap' then k ∷ [] else []))
                  t.total in
            read_all-told ns c' d (λ z. w (sym t.window ∙ z)) t.small (ground (arith, q, e))
            ∙ ap (λ xs. c'.sent ++ acknowledgements xs) again
            ∙ ap (λ xs. xs ++ acknowledgements (told c.window_size total' rest ns)) now
            ∙ append_assoc c.sent
                (acknowledgements (if ltb c.window_size gap' then total' ∷ [] else []))
                (acknowledgements (told c.window_size total' rest ns))
            ∙ ap (λ xs. c.sent ++ xs)
                (told-cons c.window_size c.recv_bytes_0 (unacknowledged lib h c) n ns)
      ]

  -- Where the window is not 0, after one read and any more, of any sizes, what has been sent are the
  -- acknowledgements that are due and nothing else: behind each read with which more bytes than the window
  -- have come since the last one, one with all the bytes so far as a number of 32 bits. No more is
  -- unacknowledged than the window, and the total is that before with all the sizes. The reads succeed, and
  -- the counters have 32 bits.
  pub read_all-bounded :
      (n : ℕ) (ns : List ℕ) (c d : Context)
      → c.window_size ≢ 0
      → c.recv_bytes_1 < 2 ^ 32
      → read_all (n ∷ ns) c ≡ some d
      → (d.sent
          ≡ c.sent
            ++ acknowledgements
                (told c.window_size c.recv_bytes_0 (unacknowledged lib h c) (n ∷ ns)))
        × (unacknowledged lib h d ≤ c.window_size)
        × (d.recv_bytes_0 ≡ (c.recv_bytes_0 + sum (n ∷ ns)) % 2 ^ 32)
  read_all-bounded n ns c d w small e =
      let v = Counted-read_all n ns c d e in
      (read_all-told (n ∷ ns) c d w small e, v.bounded w, v.total)
