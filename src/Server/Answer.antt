-- ===== src/Server/Answer.antt =====
-- A whole handshake, and what the server answers.
use simple_rtmp.Base.{
  ℕ, zero, suc, ◌+◌, ◌≤◌, ◌<◌, ◌≡◌, refl, ap, sym, ◌∙◌, List, [], ◌∷◌, ◌++◌, append-nil, some,
  length, set, take, arith, length-set, append_assoc,
}
use simple_rtmp.Base.Int.{ℤ, pos}
use simple_rtmp.Frame.{create}
use simple_rtmp.Server.{
  HandshakeState, uninit, handshake_0, handshake_1, handshake_2, Context, Library, Handler, M,
}
use simple_rtmp.Server.Messages.{rtmp_server_send_handshake}
use simple_rtmp.Server.Input.{copy, store, answer, finish, rtmp_server_input}
use simple_rtmp.Server.Handshake.{
  put, feed, deliver, or_deliver, Feeds, Feeds-answer, Feeds-finish, put-step,
}
use simple_rtmp.Server.Rounds.{input-deliver}
use simple_rtmp.Server.Connect.{Accepts, send_bytes-accepted}

take-set : (p : List ℕ) (k x : ℕ) → k < length p → take (suc k) (set p k x) ≡ take k p ++ x ∷ []
take-set [] k x l = absurd (omega arith)
take-set (y ∷ p) zero x l = ap (◌∷◌ x) refl
take-set (y ∷ p) (suc k) x l = ap (◌∷◌ y) (take-set p k x (omega arith))

-- What was copied behind the first k bytes.
take-copy :
    (p : List ℕ) (k : ℕ) (xs : List ℕ)
    → k + length xs ≤ length p
    → take (k + length xs) (copy p k xs) ≡ take k p ++ xs
take-copy p k [] l = ap (λ n. take n p) (omega arith) ∙ sym (append-nil (take k p))
take-copy p k (x ∷ xs) l =
    let next : k + 1 ≡ suc k = omega arith in
    ap (λ n. take n (copy (set p k x) (k + 1) xs)) (omega arith)
    ∙ take-copy (set p k x) (k + 1) xs (omega (arith, length-set p k x, l))
    ∙ ap (λ ys. ys ++ xs) (ap (λ n. take n (set p k x)) next ∙ take-set p k x (omega arith))
    ∙ append_assoc (take k p) (x ∷ []) xs

module _ (lib : Library) (h : Handler) where
  put-last :
      (done : M ℤ) (b : ℕ) (c : Context)
      → suc c.handshake_bytes ≡ lib.handshake_size
      → put lib h done b c ≡ done (store (b ∷ []) c)
  unfolding put
  put-last done b c e = ground (arith, e)

  -- Bytes that complete a message of the handshake, and what follows them.
  deliver_complete :
      (done : M ℤ) (s : HandshakeState)
      → Feeds lib h done s
      → (x : ℕ) (xs ys : List ℕ) (c : Context) → c.handshake_state ≡ s
      → c.handshake_bytes + suc (length xs) ≡ lib.handshake_size
      → deliver lib h (x ∷ (xs ++ ys)) c ≡ or_deliver lib h ys (done (store (x ∷ xs) c))
  unfolding Feeds or_deliver
  deliver_complete done s f x [] ys c e n =
      f x ys c e ∙ ap (or_deliver lib h ys) (put-last done x c (omega arith))
  deliver_complete done s f x (x' ∷ xs) ys c e n =
      f x (x' ∷ (xs ++ ys)) c e
      ∙ ap (or_deliver lib h (x' ∷ (xs ++ ys))) (put-step lib h done x c (omega arith))
      ∙ deliver_complete done s f x' xs ys (store (x ∷ []) c) e (omega arith)
      ∙ ap
          (λ k. or_deliver lib h ys (
            done (record c {
              payload = copy c.payload c.handshake_bytes (x ∷ (x' ∷ xs));
              handshake_bytes = k;
            })))
          (omega arith)

  -- The first message from an idle start: all of it stands in the buffer.
  store-first :
      (xs : List ℕ) (c : Context)
      → length xs ≤ length c.payload
      → c.handshake_bytes ≡ 0
      → take (length xs) (store xs c).payload ≡ xs
  store-first xs c l e =
      let none_before : length xs ≡ 0 + length xs = omega arith in
      ap (λ k. take (length xs) (copy c.payload k xs)) e
      ∙ ap (λ n. take n (copy c.payload 0 xs)) none_before
      ∙ take-copy c.payload 0 xs (omega arith)

  answer-accepted :
      (a : Accepts h) (xs : List ℕ) (c : Context)
      → take lib.handshake_size c.payload ≡ xs
      → length (lib.handshake_reply xs) ≡ 1 + lib.handshake_size + lib.handshake_size
      → answer lib h c
        ≡ some (
          pos 0,
          record c {
            handshake_state = handshake_1;
            handshake_bytes = 0;
            sent = c.sent ++ create (lib.handshake_reply xs) ∷ [];
          },
        )
  unfolding rtmp_server_send_handshake
  answer-accepted a xs c e n = ground (
    arith,
    e,
    n,
    send_bytes-accepted lib h a (lib.handshake_reply xs)
        (record c { handshake_state = handshake_1; handshake_bytes = 0 }),
  )

  version_lem :
      (v : ℕ) (bs : List ℕ) (c : Context)
      → c.handshake_state ≡ uninit
      → v ≤ lib.version
      → deliver lib h (v ∷ bs) c
        ≡ deliver lib h bs (record c { handshake_state = handshake_0; handshake_bytes = 0 })
  unfolding deliver feed
  version_lem v bs c e l = ground (arith, e, l)

  -- A version and two messages of the right size, given to a fresh context whose session takes every
  -- frame, complete the handshake: the call returns 0, and one frame has been sent, the library's answer
  -- to the client's first message, where that answer has the size that the code asserts.
  pub input-answers :
      (a : Accepts h) (v x y : ℕ) (xs ys : List ℕ) (c : Context)
      → c.handshake_state ≡ uninit
      → v ≤ lib.version
      → suc (length xs) ≡ lib.handshake_size
      → suc (length ys) ≡ lib.handshake_size
      → lib.handshake_size ≤ length c.payload
      → length (lib.handshake_reply (x ∷ xs)) ≡ 1 + lib.handshake_size + lib.handshake_size
      → (d : Context) × (rtmp_server_input lib h (v ∷ (x ∷ (xs ++ (y ∷ ys)))) c ≡ some (pos 0, d))
        × (d.handshake_state ≡ handshake_2)
        × (d.sent ≡ c.sent ++ create (lib.handshake_reply (x ∷ xs)) ∷ [])
  unfolding or_deliver deliver
  input-answers a v x y xs ys c e l n1 n2 room reply =
      let c0 : Context = record c { handshake_state = handshake_0; handshake_bytes = 0 } in
      let c1 : Context = store (x ∷ xs) c0 in
      let c2 : Context = record c1 {
        handshake_state = handshake_1;
        handshake_bytes = 0;
        sent = c1.sent ++ create (lib.handshake_reply (x ∷ xs)) ∷ [];
      } in
      let first : take lib.handshake_size c1.payload ≡ x ∷ xs =
        ap (λ n. take n c1.payload) (sym n1) ∙ store-first (x ∷ xs) c0 (omega arith) refl in
      (
        record (store (y ∷ ys) c2) { handshake_state = handshake_2; handshake_bytes = 0 },
        input-deliver lib h (v ∷ (x ∷ (xs ++ (y ∷ ys)))) c
            ∙ version_lem v (x ∷ (xs ++ (y ∷ ys))) c e l
            ∙ deliver_complete (answer lib h) handshake_0 (Feeds-answer lib h) x xs (y ∷ ys) c0 refl
                (omega arith)
            ∙ ap (or_deliver lib h (y ∷ ys)) (answer-accepted a (x ∷ xs) c1 first reply)
            ∙ ap (λ zs. deliver lib h (y ∷ zs) c2) (sym (append-nil ys))
            ∙ deliver_complete finish handshake_1 (Feeds-finish lib h) y ys [] c2 refl
                (omega arith),
        refl,
        refl,
      )
