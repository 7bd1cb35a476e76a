-- ===== src/Executors/Rounds.antt =====
-- The order in which the executors are handed out, execution.cc.
use simple_rtmp.Base.{
  ℕ, zero, suc, ◌+◌, ◌-◌, ◌^◌, ◌≤◌, ◌<◌, ◌≡◌, ap, ◌∙◌, List, [], ◌∷◌, ◌++◌, append-nil, some, ◌==◌,
  if◌then◌else◌, arith,
}
use simple_rtmp.Executors.{Executors, get_executor, get_executors}

-- `n` numbers in a row.
unfoldable pub range : ℕ → ℕ → List ℕ
range i zero = []
range i (suc n) = i ∷ range (i + 1) n

abbrev at : ℕ → ℕ → Executors
at i size = record { index = i; pool_size = size }

-- Up to the end of the pool.
get-ascending :
    (n i size : ℕ)
    → i + n ≤ size
    → size < 2 ^ 32
    → get_executors n (at i size) ≡ some (range i n, at (i + n) size)
unfolding get_executors get_executor range
get-ascending zero i size h small = ap (λ k. some ([], at k size)) (omega arith)
get-ascending (suc n) i size h small =
    ground (arith, h, small, get-ascending n (i + 1) size (omega arith) small)

get-wrapped :
    (n size : ℕ)
    → suc n ≤ size
    → size < 2 ^ 32
    → get_executors (suc n) (at size size) ≡ some (range 0 (suc n), at (suc n) size)
unfolding get_executors get_executor range
get-wrapped n size h small = ground (arith, h, small, get-ascending n 1 size (omega arith) small)

-- To the end of the pool, and on from its beginning.
get-around :
    (n k i j size : ℕ)
    → i + n ≡ size
    → k ≡ n + suc j
    → suc j ≤ size
    → size < 2 ^ 32
    → get_executors k (at i size) ≡ some (range i n ++ range 0 (suc j), at (suc j) size)
unfolding get_executors get_executor range
get-around zero k i j size e count h small =
    let at_end : i ≡ size = omega (arith, e) in
    let only : k ≡ suc j = omega (arith, count) in
    ap (λ m. get_executors m (at i size)) only
    ∙ ap (λ m. get_executors (suc j) (at m size)) at_end
    ∙ get-wrapped j size h small
get-around (suc n) zero i j size e count h small = absurd (omega (arith, count))
get-around (suc n) (suc k) i j size e count h small = ground (
  arith,
  e,
  small,
  get-around n k (i + 1) j size (omega (arith, e)) (omega (arith, count)) h small,
)

-- Wherever the pool stands, as many calls as it has executors hand out each of them once, in ascending
-- order from there on and then from the first, and leave it standing there, or at its end where it stood
-- at its beginning; there is an executor, and there are fewer than 2 ^ 32.
pub get_executors-round :
    (i size : ℕ)
    → i ≤ size
    → 1 ≤ size
    → size < 2 ^ 32
    → get_executors size (record { index = i; pool_size = size })
      ≡ some (
        range i (size - i) ++ range 0 i,
        record { index = if i == 0 then size else i; pool_size = size },
      )
unfolding range
get_executors-round zero size h some_there small =
    ground (arith, get-ascending size 0 size (omega arith) small, append-nil (range 0 size))
get_executors-round (suc i) size h some_there small = ground (
  arith,
  get-around (size - suc i) size (suc i) i size (omega (arith, h)) (omega (arith, h)) h small,
)
