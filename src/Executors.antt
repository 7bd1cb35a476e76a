-- ===== src/Executors.antt =====
-- The pool of executors, execution.h and execution.cc: get_executor, which holds the mutex. run and
-- stop start and join threads. `none` is a read behind the end of the vector.
pub mod Rounds
mod Runs
use simple_rtmp.Base.{
  ℕ, zero, suc, ◌+◌, ◌%◌, ◌^◌, List, [], ◌∷◌, Option, none, some, ltb, ◌==◌, if◌then◌else◌,
}

-- `pool_size` is the size of `exs_`.
pub record Executors : Type 0 where
  pub index : ℕ
  pub pool_size : ℕ

abbrev pub new_executors : ℕ → Executors
new_executors n = record { index = 0; pool_size = n }

-- The number of an executor, and the pool after the call; `index_` is a uint32_t.
unfoldable pub get_executor : Executors → Option (ℕ × Executors)
get_executor e =
    let i = if e.index == e.pool_size then 0 else e.index in
    if ltb i e.pool_size then some (i, record e { index = (i + 1) % 2 ^ 32 }) else none

unfoldable pub get_executors : ℕ → Executors → Option (List ℕ × Executors)
unfolding get_executor
get_executors zero e = some ([], e)
get_executors (suc n) e = elim (get_executor e) [
  | none ↦ none
  | some (i, e') ↦ elim (get_executors n e') [ none ↦ none | some (is, e'') ↦ some (i ∷ is, e'') ]
]
