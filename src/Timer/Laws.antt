-- ===== src/Timer/Laws.antt =====
-- What `update` calls, what it forgets, and what a deletion does.
use simple_rtmp.Base.{
  ℕ, ◌≡◌, refl, sym, ◌∙◌, List, [], ◌∷◌, ◌++◌, Bool, true, false, not, ◌&&◌, leb, if◌then◌else◌,
  append_assoc, append-nil, arith, Bool-cases, inl, inr,
}
use simple_rtmp.Timer.{
  Task, Manager, Call, Round, make_calls, del_task, contains, is_zero, visit, visit_all,
  start_round, finish, update,
}

-- A task whose time has come: it has repetitions left, is valid, is not deleted and is not early.
abbrev pub is_due : ℕ → List ℕ → Task → Bool
is_due now_ms deleted t =
    not (is_zero t.repeat) && (not t.invalid && (not (contains deleted t.id) && leb t.next now_ms))

unfoldable pub due : ℕ → List ℕ → List Task → List Task
due now_ms deleted [] = []
due now_ms deleted (t ∷ ts) =
    if is_due now_ms deleted t then t ∷ due now_ms deleted ts else due now_ms deleted ts

unfoldable pub ids : List Task → List ℕ
ids [] = []
ids (t ∷ ts) = t.id ∷ ids ts

unfoldable pub calls_of : (ℕ → List Call) → List Task → List Call
calls_of effects [] = []
calls_of effects (t ∷ ts) = effects t.callback ++ calls_of effects ts

make_calls-append :
    (xs ys : List Call) (m : Manager) → make_calls (xs ++ ys) m ≡ make_calls ys (make_calls xs m)
unfolding make_calls
make_calls-append [] ys m = refl
make_calls-append (x ∷ xs) ys m = make_calls-append xs ys _

module _ (effects : ℕ → List Call) (now_ms : ℕ) (deleted : List ℕ) where
  visit-fired :
      (t : Task) (r : Round)
      → (visit effects now_ms deleted t r).fired
        ≡ (if is_due now_ms deleted t then r.fired ++ t.id ∷ [] else r.fired)
  unfolding visit
  visit-fired t r = ground arith

  visit-manager :
      (t : Task) (r : Round)
      → (visit effects now_ms deleted t r).manager
        ≡ (if is_due now_ms deleted t then make_calls (effects t.callback) r.manager else r.manager)
  unfolding visit
  visit-manager t r = ground arith

  visit_all-fired :
      (ts : List Task) (r : Round)
      → (visit_all effects now_ms deleted ts r).fired ≡ r.fired ++ ids (due now_ms deleted ts)
  unfolding visit_all due ids
  visit_all-fired [] r = sym (append-nil r.fired)
  visit_all-fired (t ∷ ts) r = elim (Bool-cases (is_due now_ms deleted t)) [
    | inl e ↦
        visit_all-fired ts (visit effects now_ms deleted t r)
        ∙ rw (visit-fired t r, e) (append_assoc r.fired (t.id ∷ []) (ids (due now_ms deleted ts)))
    | inr e ↦ visit_all-fired ts (visit effects now_ms deleted t r) ∙ rw (visit-fired t r, e)
  ]

  visit_all-manager :
      (ts : List Task) (r : Round)
      → (visit_all effects now_ms deleted ts r).manager
        ≡ make_calls (calls_of effects (due now_ms deleted ts)) r.manager
  unfolding visit_all due calls_of
  visit_all-manager [] r = unfold make_calls in refl
  visit_all-manager (t ∷ ts) r = elim (Bool-cases (is_due now_ms deleted t)) [
    | inl e ↦
        visit_all-manager ts (visit effects now_ms deleted t r)
        ∙ rw (visit-manager t r, e) (sym (make_calls-append (effects t.callback) _ r.manager))
    | inr e ↦ visit_all-manager ts (visit effects now_ms deleted t r) ∙ rw (visit-manager t r, e)
  ]

-- The early return for no tasks makes no difference.
update_lem :
    (effects : ℕ → List Call) (now_ms : ℕ) (m : Manager)
    → update effects now_ms m
      ≡ finish (visit_all effects now_ms m.invalid_ids m.tasks (start_round m))
unfolding update
update_lem effects now_ms m = ground arith

finish-manager : (r : Round) → (finish r).manager ≡ r.manager
unfolding finish
finish-manager r = refl

-- `update` calls back the tasks that are due, each once and in the order of registration, whatever
-- the callbacks do to the manager meanwhile.
update-fired :
    (effects : ℕ → List Call) (now_ms : ℕ) (m : Manager)
    → (update effects now_ms m).fired ≡ ids (due now_ms m.invalid_ids m.tasks)
unfolding finish start_round
update-fired effects now_ms m =
    rw (update_lem effects now_ms m)
      (visit_all-fired effects now_ms m.invalid_ids m.tasks (start_round m))

-- The tasks, the ids to delete and the next id that `update` leaves are those that the callbacks'
-- own calls make of a manager without tasks: no task that was registered before stays registered.
update-forgets :
    (effects : ℕ → List Call) (now_ms : ℕ) (m : Manager)
    → (update effects now_ms m).manager
      ≡ make_calls
          (calls_of effects (due now_ms m.invalid_ids m.tasks))
          (record m { invalid_ids = []; tasks = [] })
unfolding start_round
update-forgets effects now_ms m =
    rw (update_lem effects now_ms m, finish-manager _)
      (visit_all-manager effects now_ms m.invalid_ids m.tasks (start_round m))

contains-append : (xs : List ℕ) (id : ℕ) → contains (xs ++ id ∷ []) id ≡ true
unfolding contains
contains-append [] id = ground arith
contains-append (x ∷ xs) id = ground (arith, contains-append xs id)

not_due :
    (now_ms : ℕ) (deleted : List ℕ) (id : ℕ) (ts : List Task)
    → contains deleted id ≡ true
    → contains (ids (due now_ms deleted ts)) id ≡ false
unfolding due ids contains
not_due now_ms deleted id [] h = refl
not_due now_ms deleted id (t ∷ ts) h = ground (arith, not_due now_ms deleted id ts h)

-- A task deleted before an `update` is not called back by it.
pub del_task-update :
    (effects : ℕ → List Call) (now_ms id : ℕ) (m : Manager)
    → contains (update effects now_ms (del_task id m)).fired id ≡ false
unfolding del_task
del_task-update effects now_ms id m =
    rw (update-fired effects now_ms (del_task id m))
      (not_due now_ms _ id m.tasks (contains-append m.invalid_ids id))

-- The ids called back by a series of updates at the given times.
unfoldable pub updates : (ℕ → List Call) → List ℕ → Manager → List ℕ
updates effects [] m = []
updates effects (now_ms ∷ times) m =
    let o = update effects now_ms m in o.fired ++ updates effects times o.manager

updates-idle :
    (effects : ℕ → List Call) (times : List ℕ) (m : Manager)
    → m.tasks ≡ []
    → updates effects times m ≡ []
unfolding updates update
updates-idle effects [] m e = refl
updates-idle effects (now_ms ∷ times) m e = rw e (updates-idle effects times _ refl)

calls_of-quiet :
    (effects : ℕ → List Call) (ts : List Task)
    → ((n : ℕ) → effects n ≡ [])
    → calls_of effects ts ≡ []
unfolding calls_of
calls_of-quiet effects [] quiet = refl
calls_of-quiet effects (t ∷ ts) quiet = rw (quiet t.callback) (calls_of-quiet effects ts quiet)

-- Where callbacks make no calls of the manager, everything that a series of updates calls back is
-- what was due at its first update: no task is called twice, also one that repeats without a limit,
-- and a task that was not due at the first update is never called.
pub updates-once :
    (effects : ℕ → List Call) (now_ms : ℕ) (times : List ℕ) (m : Manager)
    → ((n : ℕ) → effects n ≡ [])
    → updates effects (now_ms ∷ times) m ≡ ids (due now_ms m.invalid_ids m.tasks)
unfolding updates
updates-once effects now_ms times m quiet =
    rw
      (
        update-fired effects now_ms m,
        updates-idle effects times (update effects now_ms m).manager forgotten,
      )
      (append-nil _)
  where
    forgotten : (update effects now_ms m).manager.tasks ≡ []
    forgotten =
        rw
          (
            update-forgets effects now_ms m,
            calls_of-quiet effects (due now_ms m.invalid_ids m.tasks) quiet,
          )
          (unfold make_calls in refl)
