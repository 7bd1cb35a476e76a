-- ===== src/Server/Splits.antt =====
-- How the handshake's bytes are split among the calls of rtmp_server_input, and what it answers.
use simple_rtmp.Base.{
  ℕ, suc, ◌+◌, ◌-◌, ◌*◌, ◌≤◌, ◌≡◌, refl, ap, sym, ◌∙◌, List, [], ◌∷◌, ◌++◌, true, Option, none,
  some, length, arith, if◌then◌else◌, inl, inr, Option-cases,
}
use simple_rtmp.Base.Int.{ℤ, pos, ◌==ℤ◌}
use simple_rtmp.Server.{uninit, handshake_0, handshake_1, handshake_2, Context, Library, Handler}
use simple_rtmp.Server.Messages.{send, send_bytes, rtmp_server_send_handshake}
use simple_rtmp.Server.Input.{rtmp_server_input}
use simple_rtmp.Server.Handshake.{put, feed, in_handshake, deliver, or_deliver}
use simple_rtmp.Server.Rounds.{input-deliver}

-- How many bytes the handshake still lacks.
unfoldable pub lacks : Library → Context → ℕ
lacks lib c = elim c.handshake_state [
  | uninit ↦ 1 + 2 * lib.handshake_size
  | handshake_0 ↦ 2 * lib.handshake_size - c.handshake_bytes
  | handshake_1 ↦ lib.handshake_size - c.handshake_bytes
  | handshake_2 ↦ 0
]

module _ (lib : Library) (h : Handler) where
  -- What a call returned, and where that is 0 a further call.
  unfoldable pub then_input : List ℕ → Option (ℤ × Context) → Option (ℤ × Context)
  unfolding rtmp_server_input
  then_input bs none = none
  then_input bs (some (r, d)) = if r ==ℤ pos 0 then rtmp_server_input lib h bs d else some (r, d)

  lacks-in_handshake : (n : ℕ) (c : Context) → suc n ≤ lacks lib c → in_handshake lib h c ≡ true
  unfolding lacks
  lacks-in_handshake n c l = ground arith

  lacks-feed :
      (b : ℕ) (r : ℤ) (c d : Context)
      → feed lib h b c ≡ some (r, d)
      → lacks lib c ≤ suc (lacks lib d)
  unfolding lacks feed put rtmp_server_send_handshake send_bytes send
  lacks-feed b r c d e = ground arith

  deliver-append :
      (xs ys : List ℕ) (c : Context)
      → length xs ≤ lacks lib c
      → deliver lib h (xs ++ ys) c ≡ or_deliver lib h ys (deliver lib h xs c)
  unfolding deliver or_deliver
  deliver-append [] ys c l = refl
  deliver-append (x ∷ xs) ys c l = elim (Option-cases (feed lib h x c)) [
    | inl failed ↦ ground (arith, failed, lacks-in_handshake 0 c (omega arith))
    | inr ((r, d), q) ↦
        let ih = deliver-append xs ys d (omega (arith, lacks-feed x r c d q)) in
        ground (arith, q, ih, lacks-in_handshake 0 c (omega arith))
  ]

  -- While the handshake lasts it does not matter how its bytes are split among the calls: a call with
  -- two parts in a row does what a call with the first does, and where that returns 0 a call with the
  -- second, whatever this goes on to.
  pub input-append :
      (xs ys : List ℕ) (c : Context)
      → length xs ≤ lacks lib c
      → rtmp_server_input lib h (xs ++ ys) c ≡ then_input ys (rtmp_server_input lib h xs c)
  unfolding or_deliver then_input
  input-append xs ys c l =
      input-deliver lib h (xs ++ ys) c
      ∙ deliver-append xs ys c l
      ∙ same (deliver lib h xs c)
      ∙ ap (then_input ys) (sym (input-deliver lib h xs c))
    where
      same : (o : Option (ℤ × Context)) → or_deliver lib h ys o ≡ then_input ys o
      same none = refl
      same (some (r, d)) = ground (arith, input-deliver lib h ys d)
