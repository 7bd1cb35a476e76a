-- ===== src/Server/Rounds.antt =====
-- The rounds of rtmp_server_input's loop, and the whole call.
use simple_rtmp.Base.{
  ℕ, zero, suc, ◌-◌, ◌≤◌, ◌≡◌, refl, List, [], ◌∷◌, Option, none, some, min, length, take, drop,
  arith, length-drop, subst, Option-cases, inl, inr,
}
use simple_rtmp.Base.Int.{ℤ}
use simple_rtmp.Server.{Context, Library, Handler, M, ◌>>=◌, ret}
use simple_rtmp.Server.Input.{
  Round, more, stop, answer, finish, store, go_on, collect, collect_some, round, input_loop,
  rtmp_server_input,
}
use simple_rtmp.Server.Handshake.{deliver, after_round, round-deliver}

module _ (lib : Library) (h : Handler) where
  -- What a round goes on with is no longer than this.
  unfoldable Leaves : ℕ → Option (Round × Context) → Type 0
  Leaves n none = Unit
  Leaves n (some (stop r, d)) = Unit
  Leaves n (some (more rest, d)) = length rest ≤ n

  Leaves-go_on :
      (n : ℕ) (rest : List ℕ) (m : M ℤ) (c : Context)
      → length rest ≤ n
      → Leaves n ((m >>= λ r. ret (go_on rest r)) c)
  unfolding Leaves
  Leaves-go_on n rest m c l = ground arith

  Leaves-collect :
      (done : M ℤ) (b : ℕ) (bs : List ℕ) (c : Context)
      → Leaves (length bs) (collect lib h done (b ∷ bs) c)
  unfolding Leaves collect collect_some
  Leaves-collect done b bs c =
      let n = min (lib.handshake_size - c.handshake_bytes) (length (b ∷ bs)) in
      let d = store (take n (b ∷ bs)) c in
      ground (arith, length-drop n (b ∷ bs), Leaves-go_on (length bs) (drop n (b ∷ bs)) done d)

  Leaves-round : (b : ℕ) (bs : List ℕ) (c : Context) → Leaves (length bs) (round lib h b bs c)
  unfolding Leaves round
  Leaves-round b bs c =
      ground (arith, Leaves-collect (answer lib h) b bs c, Leaves-collect finish b bs c)

  Leaves-more :
      (fuel : ℕ) (bs rest : List ℕ) (d : Context)
      → Leaves (length bs) (some (more rest, d))
      → suc (length bs) ≤ suc fuel
      → length rest ≤ fuel
  unfolding Leaves
  Leaves-more fuel bs rest d v e = omega arith

  loop-deliver :
      (fuel : ℕ) (bs : List ℕ) (c : Context)
      → length bs ≤ fuel
      → input_loop lib h fuel bs c ≡ deliver lib h bs c
  unfolding input_loop deliver after_round
  loop-deliver fuel [] c e = refl
  loop-deliver zero (b ∷ bs) c e = absurd (omega arith)
  loop-deliver (suc fuel) (b ∷ bs) c e = elim (Option-cases (round lib h b bs c)) [
    | inl failed ↦ ground (arith, failed, round-deliver lib h b bs c)
    | inr ((stop r, d), q) ↦ ground (arith, q, round-deliver lib h b bs c)
    | inr ((more rest, d), q) ↦
        let l = Leaves-more fuel bs rest d (subst (Leaves (length bs)) q (Leaves-round b bs c)) e in
        ground (arith, q, round-deliver lib h b bs c, loop-deliver fuel rest d l)
  ]

  -- One call of rtmp_server_input does with its bytes what the reference does. While the handshake lasts,
  -- this takes one byte after the other: the version, the two messages, the answer, and failures. What is
  -- left behind the handshake goes at once to the reading of chunks, which is that of the code.
  pub input-deliver :
      (bs : List ℕ) (c : Context) → rtmp_server_input lib h bs c ≡ deliver lib h bs c
  unfolding rtmp_server_input
  input-deliver bs c = loop-deliver (length bs) bs c (omega arith)
