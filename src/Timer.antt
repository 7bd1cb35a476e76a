-- ===== src/Timer.antt =====
-- The timer task manager, timer_task_manger.h and timer_task_manger.cc.
-- The clock is an argument of each call. A callback is a number; what the callback itself does to
-- the manager (it may add and delete tasks) is the parameter `effects`. `update` holds no lock
-- while callbacks run, and the calls of other threads between two updates are calls like any other.
pub mod Laws
mod Runs
use simple_rtmp.Base.{
  ℕ, ◌+◌, ◌-◌, ◌%◌, ◌^◌, List, [], ◌∷◌, ◌++◌, Bool, true, false, ◌==◌, ltb, if◌then◌else◌, suc,
}
use simple_rtmp.Base.Int.{ℤ, pos, negsuc}

-- `repeat` is -1 (any negative number) for a task without a limit.
pub record Task : Type 0 where
  pub callback : ℕ
  pub repeat : ℤ
  pub invalid : Bool
  pub delay : ℕ
  pub next : ℕ
  pub id : ℕ

pub record Manager : Type 0 where
  pub task_id : ℕ
  pub invalid_ids : List ℕ
  pub tasks : List Task

unfoldable pub add_task : ℕ → ℕ → ℕ → ℤ → Manager → Manager
add_task now_ms ms callback repeat m = record m {
  task_id = (m.task_id + 1) % 2 ^ 64;
  tasks = m.tasks ++ task ∷ [];
}
  where
    task : Task
    task = record {
      callback = callback;
      repeat = repeat;
      invalid = false;
      delay = ms % 2 ^ 32;
      next = (now_ms + ms) % 2 ^ 64;
      id = m.task_id;
    }

unfoldable pub del_task : ℕ → Manager → Manager
del_task id m = record m { invalid_ids = m.invalid_ids ++ id ∷ [] }

-- The calls that a callback makes, each addition with the clock that it reads.
pub data Call : Type 0 where
  adds : ℕ → ℕ → ℕ → ℤ → Call
  dels : ℕ → Call

unfoldable pub make_call : Call → Manager → Manager
unfolding add_task del_task
make_call (adds now_ms ms callback repeat) m = add_task now_ms ms callback repeat m
make_call (dels id) m = del_task id m

unfoldable pub make_calls : List Call → Manager → Manager
unfolding make_call
make_calls [] m = m
make_calls (c ∷ cs) m = make_calls cs (make_call c m)

-- std::find over the deleted ids.
unfoldable pub contains : List ℕ → ℕ → Bool
contains [] id = false
contains (x ∷ xs) id = if x == id then true else contains xs id

-- The manager, the tasks visited and the ids of the callbacks called so far.
pub record Round : Type 0 where
  pub manager : Manager
  pub visited : List Task
  pub fired : List ℕ

-- `if (repeat > 0) repeat--`
unfoldable pub count_down : ℤ → ℤ
count_down (pos n) = pos (n - 1)
count_down (negsuc n) = negsuc n

abbrev pub is_zero : ℤ → Bool
is_zero (pos n) = n == 0
is_zero (negsuc n) = false

-- After the callback: the last repetition makes the task invalid, any other sets the next time.
unfoldable pub after_call : Task → Task
unfolding count_down
after_call t =
    let left = count_down t.repeat in
    if is_zero left
    then record t { repeat = left; invalid = true }
    else record t { repeat = left; next = (t.next + t.delay) % 2 ^ 64 }

module _ (effects : ℕ → List Call) where
  unfoldable pub fire : Task → Round → Round
  unfolding after_call make_calls
  fire t r = record {
    manager = make_calls (effects t.callback) r.manager;
    visited = r.visited ++ after_call t ∷ [];
    fired = r.fired ++ t.id ∷ [];
  }

  -- One round of the loop of `update`.
  unfoldable pub visit : ℕ → List ℕ → Task → Round → Round
  unfolding fire contains
  visit now_ms tmp_ids t r =
      if is_zero t.repeat
      then record r { visited = r.visited ++ record t { invalid = true } ∷ [] }
      else if t.invalid
      then record r { visited = r.visited ++ t ∷ [] }
      else if contains tmp_ids t.id
      then record r { visited = r.visited ++ record t { invalid = true } ∷ [] }
      else if ltb now_ms t.next
      then record r { visited = r.visited ++ t ∷ [] }
      else fire t r

  unfoldable pub visit_all : ℕ → List ℕ → List Task → Round → Round
  unfolding visit
  visit_all now_ms tmp_ids [] r = r
  visit_all now_ms tmp_ids (t ∷ ts) r = visit_all now_ms tmp_ids ts (visit now_ms tmp_ids t r)

-- std::remove_if over the tasks visited.
unfoldable pub remove_invalid : List Task → List Task
remove_invalid [] = []
remove_invalid (t ∷ ts) = if t.invalid then remove_invalid ts else t ∷ remove_invalid ts

-- What `update` leaves: the manager, the callbacks called, and the valid tasks that were visited,
-- which stand in the local vector `tmp_tasks` when the function returns.
pub record Outcome : Type 0 where
  pub manager : Manager
  pub fired : List ℕ
  pub tmp_tasks : List Task

-- The last block of `update`: `tasks_` is swapped with an empty vector and put back.
unfoldable pub put_back : Manager → Manager
put_back m =
    let tmp = m.tasks in
    let swapped = record m { tasks = [] } in record swapped { tasks = swapped.tasks ++ tmp }

unfoldable pub start_round : Manager → Round
start_round m = record {
  manager = record m { invalid_ids = []; tasks = [] };
  visited = [];
  fired = [];
}

unfoldable pub finish : Round → Outcome
unfolding put_back remove_invalid
finish r = record {
  manager = put_back r.manager;
  fired = r.fired;
  tmp_tasks = remove_invalid r.visited;
}

-- Where no task is registered `update` returns early: the ids to delete are gone all the same.
unfoldable pub update : (ℕ → List Call) → ℕ → Manager → Outcome
unfolding start_round visit_all finish
update effects now_ms m = elim m.tasks [
  | [] ↦ record { manager = (start_round m).manager; fired = []; tmp_tasks = [] }
  | t ∷ ts ↦ finish (visit_all effects now_ms m.invalid_ids (t ∷ ts) (start_round m))
]
