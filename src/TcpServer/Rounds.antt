-- ===== src/TcpServer/Rounds.antt =====
-- Which executors the accepted connections get, tcp_server.h with execution.cc.
use simple_rtmp.Base.{
  ℕ, suc, ◌+◌, ◌-◌, ◌%◌, ◌^◌, ◌≤◌, ◌<◌, ◌≡◌, refl, ap, ◌∙◌, List, [], ◌∷◌, ◌++◌, append_assoc,
  length, sym, ◌==◌, if◌then◌else◌, true, some, arith, Option-cases, inl, inr,
}
use simple_rtmp.Executors.{Executors, get_executor, get_executors}
use simple_rtmp.Executors.Rounds.{range, get_executors-round}
use simple_rtmp.TcpServer.{
  Opening, TcpServer, Draw, ours, theirs, new_server, open_acceptor, do_accept, on_accept, accepts,
  run, serve,
}

-- Calls of get_executor in a row, the first and the others.
get_executors-first :
    (n : ℕ) (p p' : Executors) (is : List ℕ)
    → get_executors (suc n) p ≡ some (is, p')
    → (i : ℕ) × (q : Executors) × (rest : List ℕ) × (get_executor p ≡ some (i, q))
      × (get_executors n q ≡ some (rest, p'))
      × (is ≡ i ∷ rest)
unfolding get_executors
get_executors-first n p p' is e = elim (Option-cases (get_executor p)) [
  | inl missing ↦ ground (arith, missing, e)
  | inr ((i, q), found) ↦ elim (Option-cases (get_executors n q)) [
    | inl missing ↦ ground (arith, missing, found, e)
    | inr ((rest, r), others) ↦
        (i, q, rest, found, ground (arith, found, others, e), ground (arith, found, others, e))
  ]
]

-- The executors of `is` that are taken by this server, where `ds` says who takes which.
abbrev pub taken_by_us : List Draw → List ℕ → List ℕ
taken_by_us [] is = []
taken_by_us (d ∷ ds) [] = []
taken_by_us (ours ∷ ds) (i ∷ is) = i ∷ taken_by_us ds is
taken_by_us (theirs ∷ ds) (i ∷ is) = taken_by_us ds is

do_accept-takes :
    (s : TcpServer) (pool : Executors) (i : ℕ) (q : Executors)
    → s.is_open ≡ true
    → get_executor pool ≡ some (i, q)
    → do_accept s pool ≡ some (record s { count = (s.count + 1) % 2 ^ 32; session = some i }, q)
unfolding do_accept
do_accept-takes s pool i q is_open e = ground (arith, is_open, e)

accepts-takes :
    (ds : List Draw) (i : ℕ) (s : TcpServer) (pool : Executors) (is : List ℕ) (pool' : Executors)
    → s.is_open ≡ true
    → s.session ≡ some i
    → get_executors (length ds) pool ≡ some (is, pool')
    → (s' : TcpServer) × (k : ℕ) × (accepts ds s pool ≡ some (s', pool'))
      × (s'.session ≡ some k)
      × (s'.started ++ k ∷ [] ≡ s.started ++ i ∷ taken_by_us ds is)
unfolding accepts on_accept get_executors
accepts-takes [] i s pool is pool' is_open waits e =
    (s, i, ground (arith, e), waits, ground (arith, e))
accepts-takes (ours ∷ ds) i s pool is pool' is_open waits e =
    let (j, q, rest, found, others, is_list) = get_executors-first (length ds) pool pool' is e in
    let s0 : TcpServer = record s { started = s.started ++ i ∷ [] } in
    let s1 : TcpServer = record s0 { count = (s.count + 1) % 2 ^ 32; session = some j } in
    let (s', k, r, waits', order) = accepts-takes ds j s1 q rest pool' is_open refl others in
    (
      s',
      k,
      ground (arith, waits, do_accept-takes s0 pool j q is_open found, r),
      waits',
      order
          ∙ append_assoc s.started (i ∷ []) (j ∷ taken_by_us ds rest)
          ∙ ap (λ js. s.started ++ i ∷ taken_by_us (ours ∷ ds) js) (sym is_list),
    )
accepts-takes (theirs ∷ ds) i s pool is pool' is_open waits e =
    let (j, q, rest, found, others, is_list) = get_executors-first (length ds) pool pool' is e in
    let (s', k, r, waits', order) = accepts-takes ds i s q rest pool' is_open waits others in
    (
      s',
      k,
      ground (arith, found, r),
      waits',
      order ∙ ap (λ js. s.started ++ i ∷ taken_by_us (theirs ∷ ds) js) (sym is_list),
    )

-- A new server whose socket can be opened is run with a pool that others use too, wherever this stands. Until
-- the pool has given as many executors as it has, it gives them in a round: in ascending order from where
-- it stood on and then from the first. The sessions that the server has started, in order, and then the one
-- that waits, are on those of the round that come at the server's own turns, in whatever order others take
-- theirs; the first turn is that of its start. There is an executor, and there are fewer than 2 ^ 32.
pub serve-rounds :
    (r : Opening) (ds : List Draw) (i : ℕ)
    → r.address ≡ true
    → r.opened ≡ true
    → r.bound ≡ true
    → r.listens ≡ true
    → i ≤ suc (length ds)
    → suc (length ds) < 2 ^ 32
    → (s' : TcpServer) × (pool' : Executors) × (k : ℕ) × (serve r ds new_server
          (record { index = i; pool_size = suc (length ds) })
        ≡ some (s', pool'))
      × (s'.session ≡ some k)
      × (s'.started ++ k ∷ []
          ≡ taken_by_us (ours ∷ ds) (range i (suc (length ds) - i) ++ range 0 i))
unfolding serve run open_acceptor
serve-rounds r ds i address opened bound listens inside small =
    let n = length ds in
    let pool : Executors = record { index = i; pool_size = suc n } in
    let round = get_executors-round i (suc n) inside (omega arith) small in
    let (j, q, rest, found, others, is_list) = get_executors-first n pool _ _ round in
    let s0 : TcpServer = record new_server { is_open = true } in
    let s1 : TcpServer = record s0 { count = 1; session = some j } in
    let (s', k, taken, waits, order) = accepts-takes ds j s1 q rest _ refl refl others in
    (
      s',
      record { index = if i == 0 then suc n else i; pool_size = suc n },
      k,
      ground
          (arith, address, opened, bound, listens, do_accept-takes s0 pool j q refl found, taken),
      waits,
      order ∙ ap (taken_by_us (ours ∷ ds)) (sym is_list),
    )
