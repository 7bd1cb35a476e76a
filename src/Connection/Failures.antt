-- ===== src/Connection/Failures.antt =====
-- Which frames are marked as failed, tcp_connection.cc.
use simple_rtmp.Base.{
  ◌≡◌, refl, List, [], ◌∷◌, ◌++◌, map, All, Bool, true, false, not, ◌||◌, Option, none, some, arith,
  subst, sym,
}
use simple_rtmp.Connection.{
  Action, write, close, Connection, shutdown, safe_do_write, safe_on_write, on_read, run_action,
  run_posted, Event, calls, runs, wrote, read, step, run,
}

-- A completion among the events failed.
unfoldable pub has_failure {ℓ} : {A : Type ℓ} → List (Event A) → Bool
has_failure [] = false
has_failure (wrote true ∷ es) = true
has_failure (wrote false ∷ es) = has_failure es
has_failure (calls a ∷ es) = has_failure es
has_failure (runs ∷ es) = has_failure es
has_failure (read got ∷ es) = has_failure es

-- A frame is marked as failed only where there was a failure.
abbrev pub MarkedBy {ℓ} : {A : Type ℓ} → Bool → Bool × A → Type 0
MarkedBy failure p = (not p.0 || failure) ≡ true

module _ {ℓ} {A : Type ℓ} (failure : Bool) where
  All-marked :
      (ec : Bool) (done : List (Bool × A)) (xs : List A)
      → (not ec || failure) ≡ true
      → All (MarkedBy failure) done
      → All (MarkedBy failure) (done ++ map (λ frame. (ec, frame)) xs)
  All-marked ec [] [] h ms = tt
  All-marked ec [] (x ∷ xs) h ms = (h, All-marked ec [] xs h tt)
  All-marked ec (p ∷ done) xs h (m, ms) = (m, All-marked ec done xs h ms)

  do_write-completed : (c : Connection A) → (safe_do_write c).completed ≡ c.completed
  unfolding safe_do_write
  do_write-completed c = ground arith

  runs-completed :
      (xs : List (Action A)) (c : Connection A) → (run_posted xs c).completed ≡ c.completed
  unfolding run_posted run_action
  runs-completed [] c = refl
  runs-completed (write frame ∷ later) c =
      do_write-completed (record c { posted = later; write_queue = c.write_queue ++ frame ∷ [] })
  runs-completed (close ∷ later) c = refl

  read-completed : (got : Option A) (c : Connection A) → (on_read got c).completed ≡ c.completed
  unfolding on_read
  read-completed none c = ground arith
  read-completed (some frame) c = ground arith

  wrote-completed :
      (ec : Bool) (c : Connection A)
      → (safe_on_write ec c).completed ≡ c.completed ++ map (λ frame. (ec, frame)) c.writing_queue
  unfolding safe_on_write safe_do_write shutdown
  wrote-completed ec c = ground arith

  step-marked :
      (e : Event A) (c : Connection A)
      → (not (has_failure (e ∷ [])) || failure) ≡ true
      → All (MarkedBy failure) c.completed
      → All (MarkedBy failure) (step c e).completed
  unfolding step has_failure
  step-marked (calls (write frame)) c h ms = ms
  step-marked (calls close) c h ms = ms
  step-marked runs c h ms = subst (All (MarkedBy failure)) (sym (runs-completed c.posted c)) ms
  step-marked (read got) c h ms = subst (All (MarkedBy failure)) (sym (read-completed got c)) ms
  step-marked (wrote true) c h ms =
      subst (All (MarkedBy failure)) (sym (wrote-completed true c))
        (All-marked true c.completed c.writing_queue h ms)
  step-marked (wrote false) c h ms =
      subst (All (MarkedBy failure)) (sym (wrote-completed false c))
        (All-marked false c.completed c.writing_queue h ms)

  has_failure-first :
      (e : Event A) (es : List (Event A))
      → (not (has_failure (e ∷ es)) || failure) ≡ true
      → ((not (has_failure (e ∷ [])) || failure) ≡ true)
        × ((not (has_failure es) || failure) ≡ true)
  unfolding has_failure
  has_failure-first (calls a) es h = (refl, h)
  has_failure-first runs es h = (refl, h)
  has_failure-first (read got) es h = (refl, h)
  has_failure-first (wrote true) es h = (h, ground (arith, h))
  has_failure-first (wrote false) es h = (refl, h)

  pub run-marked :
      (es : List (Event A)) (c : Connection A)
      → (not (has_failure es) || failure) ≡ true
      → All (MarkedBy failure) c.completed
      → All (MarkedBy failure) (run c es).completed
  unfolding run
  run-marked [] c h ms = ms
  run-marked (e ∷ es) c h ms =
      let (now, later) = has_failure-first e es h in
      run-marked es (step c e) later (step-marked e c now ms)

pub has_failure-itself {ℓ} :
    {A : Type ℓ} (es : List (Event A)) → (not (has_failure es) || has_failure es) ≡ true
has_failure-itself es = ground arith
