-- ===== src/Connection/Order.antt =====
-- Frames reach the socket in the order in which they were handed over, each once.
use simple_rtmp.Base.{
  ◌≡◌, refl, sym, ap, ◌∙◌, List, [], ◌∷◌, ◌++◌, map, Bool, true, false, Option, none, some,
  append-nil, append_assoc, arith, if◌then◌else◌, Option-cases, inl, inr,
}
use simple_rtmp.Connection.{
  Action, write, close, Connection, post, shutdown, safe_shutdown, safe_do_write, safe_write_frame,
  safe_on_write, on_read, run_posted, Event, calls, runs, wrote, read, step, run,
}

module _ {ℓ} {A : Type ℓ} where
  -- The frames among posted actions.
  unfoldable pub frames : List (Action A) → List A
  frames [] = []
  frames (write frame ∷ more) = frame ∷ frames more
  frames (close ∷ more) = frames more

  -- The state at a completion, before the callback.
  finished : Bool → Connection A → Connection A
  finished ec c = record c {
    writing_queue = [];
    completed = c.completed ++ map (λ frame. (ec, frame)) c.writing_queue;
  }

  -- Every frame handed over so far: first those given to the socket, then those that wait.
  unfoldable pub history : Connection A → List A
  unfolding frames
  history c = c.started ++ (c.write_queue ++ frames c.posted)

  -- The frames that an event hands over: those of an outside call and those of a callback.
  unfoldable pub given : Connection A → Event A → List A
  unfolding frames
  given c (calls a) = frames (a ∷ [])
  given c runs = []
  given c (wrote ec) = elim c.write_cb [ none ↦ [] | some cb ↦ frames (cb ec) ]
  given c (read got) = elim c.read_cb [ none ↦ [] | some cb ↦ frames (cb got) ]

  unfoldable pub all_given : Connection A → List (Event A) → List A
  unfolding given
  all_given c [] = []
  all_given c (e ∷ es) = given c e ++ all_given (step c e) es

  frames-append : (xs ys : List (Action A)) → frames (xs ++ ys) ≡ frames xs ++ frames ys
  unfolding frames
  frames-append [] ys = refl
  frames-append (write frame ∷ xs) ys = ap (◌∷◌ frame) (frames-append xs ys)
  frames-append (close ∷ xs) ys = frames-append xs ys

  history-post :
      (xs : List (Action A)) (c : Connection A) → history (post xs c) ≡ history c ++ frames xs
  unfolding history post
  history-post xs c = simp (frames-append, append_assoc)

  history-do_write : (c : Connection A) → history (safe_do_write c) ≡ history c
  unfolding history safe_do_write
  history-do_write c = ground (arith, append_assoc c.started c.write_queue (frames c.posted))

  history-write_frame :
      (frame : A) (later : List (Action A)) (c : Connection A)
      → c.posted ≡ write frame ∷ later
      → history (safe_write_frame frame (record c { posted = later })) ≡ history c
  unfolding safe_write_frame history frames
  history-write_frame frame later c e =
      history-do_write (record c { posted = later; write_queue = c.write_queue ++ frame ∷ [] })
      ∙ rw (e, append_assoc c.write_queue (frame ∷ []) (frames later))

  history-runs :
      (xs : List (Action A)) (c : Connection A)
      → c.posted ≡ xs
      → history (run_posted xs c) ≡ history c
  unfolding run_posted
  history-runs [] c e = refl
  history-runs (write frame ∷ later) c e = history-write_frame frame later c e
  history-runs (close ∷ later) c e = unfold history frames safe_shutdown in rw e

  -- The completion without a callback.
  history-uncalled :
      (ec : Bool) (c : Connection A)
      → history (if ec then shutdown c else safe_do_write c) ≡ history c ++ []
  unfolding shutdown frames
  history-uncalled true c = history-post (close ∷ []) c
  history-uncalled false c = history-do_write c ∙ sym (append-nil _)

  history-wrote :
      (ec : Bool) (c : Connection A)
      → history (safe_on_write ec c) ≡ history c ++ given c (wrote ec)
  unfolding safe_on_write given history finished
  history-wrote ec c = elim (Option-cases c.write_cb) [
    | inl e ↦ rw (e, safe_on_write, given) (history-uncalled ec (finished ec c))
    | inr (cb, e) ↦
        rw (e, safe_on_write, given)
          (history-do_write (post (cb ec) (finished ec c)) ∙ history-post (cb ec) (finished ec c))
  ]

  history-unread :
      (got : Option A) (c : Connection A)
      → c.read_cb ≡ none
      → history (on_read got c) ≡ history c ++ given c (read got)
  unfolding history on_read frames given
  history-unread none c e = rw (e, on_read, given) (history-post (close ∷ []) c)
  history-unread (some frame) c e = rw (e, on_read, given) (sym (append-nil _))

  history-read :
      (got : Option A) (c : Connection A)
      → history (on_read got c) ≡ history c ++ given c (read got)
  unfolding history on_read given
  history-read got c = elim (Option-cases c.read_cb) [
    | inl e ↦ history-unread got c e
    | inr (cb, e) ↦ rw (e, on_read, given) (history-post (cb got) c)
  ]

  -- An event adds to the history what it hands over, and reorders nothing.
  history-step : (c : Connection A) (e : Event A) → history (step c e) ≡ history c ++ given c e
  unfolding step given safe_on_write on_read
  history-step c (calls (write frame)) = history-post (write frame ∷ []) c
  history-step c (calls close) = history-post (close ∷ []) c
  history-step c runs = history-runs c.posted c refl ∙ sym (append-nil _)
  history-step c (wrote ec) = history-wrote ec c
  history-step c (read got) = history-read got c

-- From any state, after any events, the frames given to the socket, then those in the queue, then
-- those still posted are the earlier ones followed by all that was handed over since: nothing is
-- lost, doubled or reordered.
pub history-run {ℓ} :
    {A : Type ℓ} (c : Connection A) (es : List (Event A))
    → history (run c es) ≡ history c ++ all_given c es
unfolding run all_given
history-run c [] = sym (append-nil _)
history-run c (e ∷ es) =
    history-run (step c e) es ∙ rw (history-step c e) (append_assoc (history c) (given c e) _)
