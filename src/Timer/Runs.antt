-- ===== src/Timer/Runs.antt =====
-- Concrete runs of the timer, and its theorems at concrete inputs.
use simple_rtmp.Base.{ℕ, ◌≡◌, refl, List, [], ◌∷◌, false, ◌==◌, if◌then◌else◌}
use simple_rtmp.Base.Int.{pos, negsuc}
use simple_rtmp.Timer.{Manager, Call, adds, del_task, contains, make_calls, update}
use simple_rtmp.Timer.Laws.{due, ids, updates, del_task-update, updates-once}

abbrev quiet : ℕ → List Call
quiet n = []

abbrev empty : Manager
empty = record { task_id = 0; invalid_ids = []; tasks = [] }

-- At time 100: every 10 ms without a limit, once after 5 ms, and once after 50 ms.
abbrev three_calls : List Call
three_calls = adds 100 10 7 (negsuc 0) ∷ adds 100 5 8 (pos 1) ∷ adds 100 50 9 (pos 1) ∷ []

three_fired : (update quiet 120 (make_calls three_calls empty)).fired ≡ 0 ∷ 1 ∷ []
unfolding update make_calls
three_fired = refl

abbrev loaded : Manager
unfolding make_calls
loaded = make_calls three_calls empty

-- The callback of the task that repeats asks for one more task.
abbrev busy : ℕ → List Call
busy n = if n == 7 then adds 120 10 6 (pos 1) ∷ [] else []

del_task-update_example : contains (update quiet 120 (del_task 1 loaded)).fired 1 ≡ false
del_task-update_example = del_task-update quiet 120 1 loaded

updates-once_example : updates quiet (120 ∷ 130 ∷ 140 ∷ 200 ∷ []) loaded ≡ 0 ∷ 1 ∷ []
unfolding make_calls due ids contains
updates-once_example = updates-once quiet 120 (130 ∷ 140 ∷ 200 ∷ []) loaded (λ n. refl)
