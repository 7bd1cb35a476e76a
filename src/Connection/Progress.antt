-- ===== src/Connection/Progress.antt =====
-- One async_write at a time, and no frame left waiting.
use simple_rtmp.Base.{
  ◌≡◌, refl, sym, ◌∙◌, List, [], ◌∷◌, ◌++◌, map, All, ap, Bool, true, false, Option, none, some,
  is_empty, append-nil, arith, if◌then◌else◌, Option-cases, inl, inr, ◌||◌, not, ◌⊎◌,
}
use simple_rtmp.Connection.{
  Action, write, close, Connection, fresh, post, shutdown, safe_do_write, safe_on_write, on_read,
  run_action, run_posted, start, set_write_cb, set_read_cb, Event, calls, runs, wrote, read, step,
  run,
}
use simple_rtmp.Connection.Failures.{has_failure, MarkedBy, has_failure-itself, run-marked}
use simple_rtmp.Connection.Order.{frames, history, all_given, history-run}

module _ {ℓ} {A : Type ℓ} where
  -- A shutdown waits among the posted actions.
  pub has_close : List (Action A) → Bool
  has_close [] = false
  has_close (write frame ∷ later) = has_close later
  has_close (close ∷ later) = true

  -- The connection is closed, or will be when the executor comes to it.
  abbrev pub is_closing : Connection A → Bool
  is_closing c = not c.is_open || has_close c.posted

  -- The frames of the finished calls, failed or not.
  abbrev pub frames_of : List (Bool × A) → List A
  frames_of done = map (λ p. p.1) done

  -- The frames given to the socket are those of the finished calls and those of the one call in
  -- flight; frames wait in the queue only while a call is in flight, or on a closing connection.
  pub record InOrder (c : Connection A) : Type ℓ where
    pub in_flight : c.started ≡ frames_of c.completed ++ c.writing_queue
    pub busy : is_empty c.writing_queue ≡ true → (c.write_queue ≡ []) ⊎ (is_closing c ≡ true)

  has_close-append :
      (xs ys : List (Action A)) → has_close (xs ++ ys) ≡ (has_close xs || has_close ys)
  unfolding has_close
  has_close-append [] ys = refl
  has_close-append (write frame ∷ xs) ys = has_close-append xs ys
  has_close-append (close ∷ xs) ys = refl

  fresh-InOrder : InOrder fresh
  unfolding fresh
  fresh-InOrder = record { in_flight = refl; busy = λ _. inl refl }

  post-InOrder : (xs : List (Action A)) (c : Connection A) → InOrder c → InOrder (post xs c)
  unfolding post
  post-InOrder xs c v = ground (arith, has_close-append c.posted xs)

  -- `safe_do_write` needs no more than that the calls are in order.
  do_write-InOrder :
      (c : Connection A)
      → c.started ≡ frames_of c.completed ++ c.writing_queue
      → InOrder (safe_do_write c)
  unfolding safe_do_write
  do_write-InOrder c e = ground (arith, append-nil (frames_of c.completed))

  run_action-InOrder :
      (a : Action A) (later : List (Action A)) (c : Connection A)
      → c.posted ≡ a ∷ later
      → InOrder c
      → InOrder (run_action a (record c { posted = later }))
  unfolding run_action
  run_action-InOrder (write frame) later c e v =
      do_write-InOrder (record c { posted = later; write_queue = c.write_queue ++ frame ∷ [] })
        v.in_flight
  run_action-InOrder close later c e v = record { in_flight = v.in_flight; busy = λ _. inr refl }

  run_posted-InOrder :
      (xs : List (Action A)) (c : Connection A)
      → c.posted ≡ xs
      → InOrder c
      → InOrder (run_posted xs c)
  unfolding run_posted
  run_posted-InOrder [] c e v = v
  run_posted-InOrder (a ∷ later) c e v = run_action-InOrder a later c e v

  -- The state at a completion, before the callback.
  finished : Bool → Connection A → Connection A
  finished ec c = record c {
    writing_queue = [];
    completed = c.completed ++ map (λ frame. (ec, frame)) c.writing_queue;
  }

  frames_of-finished :
      (ec : Bool) (done : List (Bool × A)) (xs : List A)
      → frames_of (done ++ map (λ frame. (ec, frame)) xs) ≡ frames_of done ++ xs
  frames_of-finished ec [] [] = refl
  frames_of-finished ec [] (x ∷ xs) = ap (◌∷◌ x) (frames_of-finished ec [] xs)
  frames_of-finished ec ((flag, frame) ∷ done) xs = ap (◌∷◌ frame) (frames_of-finished ec done xs)

  uncalled-InOrder :
      (ec : Bool) (c : Connection A)
      → c.started ≡ frames_of c.completed ++ c.writing_queue
      → InOrder (if ec then shutdown c else safe_do_write c)
  unfolding shutdown post
  uncalled-InOrder true c e = record {
    in_flight = e;
    busy =
        λ _. inr (rw (has_close-append c.posted (close ∷ [])) (unfold has_close in ground arith));
  }
  uncalled-InOrder false c e = do_write-InOrder c e

  wrote-InOrder : (ec : Bool) (c : Connection A) → InOrder c → InOrder (safe_on_write ec c)
  unfolding safe_on_write finished
  wrote-InOrder ec c v =
      let e =
        v.in_flight
        ∙ sym (frames_of-finished ec c.completed c.writing_queue)
        ∙ sym (append-nil (frames_of (finished ec c).completed)) in
      elim (Option-cases c.write_cb) [
        | inl n ↦ rw (n, safe_on_write) (uncalled-InOrder ec (finished ec c) e)
        | inr (cb, n) ↦ rw (n, safe_on_write) (do_write-InOrder (post (cb ec) (finished ec c)) e)
      ]

  unread-InOrder :
      (got : Option A) (c : Connection A) → c.read_cb ≡ none → InOrder c → InOrder (on_read got c)
  unfolding on_read
  unread-InOrder none c n v =
      rw (n, on_read)
        (post-InOrder (close ∷ []) _ (record { in_flight = v.in_flight; busy = v.busy }))
  unread-InOrder (some frame) c n v =
      rw (n, on_read) (record { in_flight = v.in_flight; busy = v.busy })

  read-InOrder : (got : Option A) (c : Connection A) → InOrder c → InOrder (on_read got c)
  unfolding on_read
  read-InOrder got c v = elim (Option-cases c.read_cb) [
    | inl n ↦ unread-InOrder got c n v
    | inr (cb, n) ↦
        let w = post-InOrder (cb got) c v in
        rw (n, on_read) (record { in_flight = w.in_flight; busy = w.busy })
  ]

  step-InOrder : (c : Connection A) (e : Event A) → InOrder c → InOrder (step c e)
  unfolding step
  step-InOrder c (calls (write frame)) v = post-InOrder (write frame ∷ []) c v
  step-InOrder c (calls close) v = post-InOrder (close ∷ []) c v
  step-InOrder c runs v = run_posted-InOrder c.posted c refl v
  step-InOrder c (wrote ec) v = wrote-InOrder ec c v
  step-InOrder c (read got) v = read-InOrder got c v

-- The invariant is kept by every event: calls, actions of the executor, and completions with and
-- without an error, whatever the callbacks post.
pub run-InOrder {ℓ} :
    {A : Type ℓ} (c : Connection A) (es : List (Event A)) → InOrder c → InOrder (run c es)
unfolding run
run-InOrder c [] v = v
run-InOrder c (e ∷ es) v = run-InOrder (step c e) es (step-InOrder c e v)

module _ {ℓ} {A : Type ℓ} (read_cb : Option A → List (Action A))
    (write_cb : Bool → List (Action A)) where
  -- A connection as a session starts it.
  unfoldable pub opened : Connection A
  unfolding start set_write_cb set_read_cb fresh
  opened = start (set_write_cb write_cb (set_read_cb read_cb fresh))

  pub opened-InOrder : InOrder opened
  unfolding opened
  opened-InOrder = record { in_flight = refl; busy = λ _. inl refl }

is_empty→nil {ℓ} : {A : Type ℓ} (xs : List A) → is_empty xs ≡ true → xs ≡ []
is_empty→nil [] e = refl
is_empty→nil (x ∷ xs) e = cc

history_idle {ℓ} :
    {A : Type ℓ} (c : Connection A)
    → InOrder c
    → c.writing_queue ≡ []
    → c.posted ≡ []
    → c.is_open ≡ true
    → history c ≡ frames_of c.completed
unfolding history frames has_close
history_idle c v w p o = ground (arith, v.busy (rw w), append-nil (frames_of c.completed))

-- When no write is in flight, the executor has nothing to run and the connection is open, every frame
-- handed over since the start was in an async_write that has completed, once and in order, and is marked
-- with what that call said: as failed only where a completion among the events failed, so that without
-- one all frames have been written.
pub run-delivers {ℓ} :
    {A : Type ℓ} (read_cb : Option A → List (Action A)) (write_cb : Bool → List (Action A))
    (es : List (Event A))
    → let c = run (opened read_cb write_cb) es in
      c.writing_queue ≡ []
      → c.posted ≡ []
      → c.is_open ≡ true
      → (frames_of c.completed ≡ all_given (opened read_cb write_cb) es)
        × All (MarkedBy (has_failure es)) c.completed
unfolding history frames opened
run-delivers read_cb write_cb es w p o = (
  sym (history_idle _ (run-InOrder _ es (opened-InOrder read_cb write_cb)) w p o)
      ∙ history-run (opened read_cb write_cb) es
      ∙ unfold opened in refl,
  run-marked (has_failure es) es (opened read_cb write_cb) (has_failure-itself es) tt,
)
