-- ===== src/Server/Handshake.antt =====
-- rtmp_server_input against the reading of one byte after the other, for any split of the handshake.
use simple_rtmp.Base.{
  ◌⊎◌, ℕ, suc, ◌+◌, ◌-◌, ◌≤◌, ◌<◌, ◌≡◌, ap, sym, ◌∙◌, List, [], ◌∷◌, Option, none, some, min,
  length, ltb, Bool, true, false, ◌==◌, if◌then◌else◌, arith, inl, inr,
}
use simple_rtmp.Base.Int.{ℤ, pos, ◌==ℤ◌}
use simple_rtmp.Server.{
  HandshakeState, uninit, handshake_0, handshake_1, handshake_2, Context, Library, Handler, M,
  ◌>>=◌, ret,
}
use simple_rtmp.Server.Input.{
  Round, more, stop, take_version, answer, finish, store, go_on, collect, collect_some, read_chunks,
  round,
}

le_or_lt : (a b : ℕ) → (a ≤ b) ⊎ (b < a)
le_or_lt a b = ground arith

le_cases : (a b : ℕ) → a ≤ b → (a ≡ b) ⊎ (a < b)
le_cases a b l = ground arith

module _ (lib : Library) (h : Handler) where
  -- One byte of a message of the handshake.
  unfoldable pub put : M ℤ → ℕ → M ℤ
  put done b c =
      let d = store (b ∷ []) c in
      if ltb c.handshake_bytes lib.handshake_size
      then (if d.handshake_bytes == lib.handshake_size then done d else some (pos 0, d))
      else none

  unfoldable pub feed : ℕ → M ℤ
  unfolding put
  feed b c = elim c.handshake_state [
    | uninit ↦ elim (take_version lib h b c) [ none ↦ none | some d ↦ some (pos 0, d) ]
    | handshake_0 ↦ put (answer lib h) b c
    | handshake_1 ↦ put (finish) b c
    | handshake_2 ↦ ret (pos 0) c
  ]

  abbrev pub in_handshake : Context → Bool
  in_handshake c = elim c.handshake_state [ handshake_2 ↦ false | _ ↦ true ]

  -- The bytes one after the other, until the handshake is over: all that is left is read as chunks.
  unfoldable pub deliver : List ℕ → M ℤ
  unfolding feed read_chunks
  deliver [] c = some (pos 0, c)
  deliver (b ∷ bs) c =
      if in_handshake c
      then elim (feed b c) [
        | none ↦ none
        | some (r, d) ↦ let rest = deliver bs d in if r ==ℤ pos 0 then rest else some (r, d)
      ]
      else read_chunks lib h (b ∷ bs) c

module _ (lib : Library) (h : Handler) where
  unfoldable pub after_round : Option (Round × Context) → Option (ℤ × Context)
  unfolding deliver
  after_round none = none
  after_round (some (stop r, d)) = some (r, d)
  after_round (some (more rest, d)) = deliver lib h rest d

  unfoldable pub or_deliver : List ℕ → Option (ℤ × Context) → Option (ℤ × Context)
  unfolding deliver
  or_deliver rest none = none
  or_deliver rest (some (r, d)) = if r ==ℤ pos 0 then deliver lib h rest d else some (r, d)

  -- A result of 0 goes on with the rest, any other is returned.
  after_round-go_on :
      (rest : List ℕ) (m : M ℤ) (c : Context)
      → after_round ((m >>= λ r. ret (go_on rest r)) c) ≡ or_deliver rest (m c)
  unfolding after_round or_deliver
  after_round-go_on rest m c = ground arith

  -- The last byte of a message of the handshake, or one that is not the last.
  collect-last :
      (done : M ℤ) (b : ℕ) (bs : List ℕ) (c : Context)
      → suc c.handshake_bytes ≡ lib.handshake_size
      → after_round (collect_some lib h done 1 (b ∷ bs) c) ≡ or_deliver bs (put lib h done b c)
  unfolding collect_some put
  collect-last done b bs c e = ground (arith, after_round-go_on bs done (store (b ∷ []) c))

  collect-step :
      (done : M ℤ) (n b : ℕ) (bs : List ℕ) (c : Context)
      → suc c.handshake_bytes < lib.handshake_size
      → collect_some lib h done (suc n) (b ∷ bs) c ≡ collect_some lib h done n bs (store (b ∷ []) c)
  unfolding collect_some
  collect-step done n b bs c l = ground arith

  pub put-step :
      (done : M ℤ) (b : ℕ) (c : Context)
      → suc c.handshake_bytes < lib.handshake_size
      → put lib h done b c ≡ some (pos 0, store (b ∷ []) c)
  unfolding put
  put-step done b c l = ground arith

  -- The reference follows the source's assertion that the message of the handshake is not complete.
  put-late :
      (done : M ℤ) (b : ℕ) (bs : List ℕ) (c : Context)
      → lib.handshake_size ≤ c.handshake_bytes
      → after_round (collect lib h done (b ∷ bs) c) ≡ or_deliver bs (put lib h done b c)
  unfolding collect collect_some put after_round or_deliver
  put-late done b bs c l = ground arith

  -- In the state where `done` is what completes the message, the reference feeds `put done`.
  unfoldable pub Feeds : M ℤ → HandshakeState → Type 0
  Feeds done s =
      (b : ℕ) (bs : List ℕ) (c : Context)
      → c.handshake_state ≡ s
      → deliver lib h (b ∷ bs) c ≡ or_deliver bs (put lib h done b c)

  pub Feeds-answer : Feeds (answer lib h) handshake_0
  unfolding Feeds deliver feed or_deliver
  Feeds-answer b bs c e = ground (arith, e)

  pub Feeds-finish : Feeds finish handshake_1
  unfolding Feeds deliver feed or_deliver
  Feeds-finish b bs c e = ground (arith, e)

  collect-one :
      (done : M ℤ) (b : ℕ) (c : Context)
      → suc c.handshake_bytes < lib.handshake_size
      → after_round (collect_some lib h done 1 (b ∷ []) c) ≡ some (pos 0, store (b ∷ []) c)
  unfolding collect_some after_round deliver
  collect-one done b c l = ground arith

  collect-count :
      (done : M ℤ) (n : ℕ) (bs : List ℕ) (c : Context)
      → min (lib.handshake_size - c.handshake_bytes) (length bs) ≡ n
      → collect lib h done bs c ≡ collect_some lib h done n bs c
  unfolding collect
  collect-count done n bs c e = ap (λ m. collect_some lib h done m bs c) e

  collect-late :
      (done : M ℤ) (b : ℕ) (bs : List ℕ) (c : Context)
      → lib.handshake_size ≤ suc c.handshake_bytes
      → after_round (collect lib h done (b ∷ bs) c) ≡ or_deliver bs (put lib h done b c)
  collect-late done b bs c l = elim (le_cases lib.handshake_size (suc c.handshake_bytes) l) [
    | inr late ↦ put-late done b bs c (omega arith)
    | inl last ↦
        ap after_round (collect-count done 1 (b ∷ bs) c (omega arith))
        ∙ collect-last done b bs c (sym last)
  ]

  collect-early :
      (done : M ℤ) (b b' : ℕ) (bs : List ℕ) (c : Context)
      → suc c.handshake_bytes < lib.handshake_size
      → collect lib h done (b ∷ (b' ∷ bs)) c ≡ collect lib h done (b' ∷ bs) (store (b ∷ []) c)
  unfolding collect
  collect-early done b b' bs c l =
      collect-count done
        (suc (min (lib.handshake_size - (c.handshake_bytes + 1)) (suc (length bs)))) (b ∷ (b' ∷ bs))
        c (omega arith)
      ∙ collect-step done _ b (b' ∷ bs) c l

  -- Taking many bytes at once is what the reference does with each of them.
  collect-deliver :
      (done : M ℤ) (s : HandshakeState)
      → Feeds done s
      → (b : ℕ) (bs : List ℕ) (c : Context) → c.handshake_state ≡ s
      → after_round (collect lib h done (b ∷ bs) c) ≡ deliver lib h (b ∷ bs) c
  unfolding Feeds or_deliver deliver
  collect-deliver done s f b [] c e = elim (le_or_lt lib.handshake_size (suc c.handshake_bytes)) [
    | inl late ↦ collect-late done b [] c late ∙ sym (f b [] c e)
    | inr early ↦
        ap after_round (collect-count done 1 (b ∷ []) c (omega arith))
        ∙ collect-one done b c early
        ∙ sym (f b [] c e ∙ ap (or_deliver []) (put-step done b c early))
  ]
  collect-deliver done s f b (b' ∷ bs) c e =
      let ih = collect-deliver done s f b' bs (store (b ∷ []) c) e in
      elim (le_or_lt lib.handshake_size (suc c.handshake_bytes)) [
        | inl late ↦ collect-late done b (b' ∷ bs) c late ∙ sym (f b (b' ∷ bs) c e)
        | inr early ↦
            ap after_round (collect-early done b b' bs c early)
            ∙ ih
            ∙ sym (f b (b' ∷ bs) c e ∙ ap (or_deliver (b' ∷ bs)) (put-step done b c early))
      ]

  pub round-deliver :
      (b : ℕ) (bs : List ℕ) (c : Context)
      → after_round (round lib h b bs c) ≡ deliver lib h (b ∷ bs) c
  unfolding round after_round deliver feed
  round-deliver b bs c = ground (
    arith,
    collect-deliver (answer lib h) handshake_0 Feeds-answer b bs c,
    collect-deliver finish handshake_1 Feeds-finish b bs c,
  )
