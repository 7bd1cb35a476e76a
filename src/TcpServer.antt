-- ===== src/TcpServer.antt =====
-- The server that accepts connections, tcp_server.h. What the operating system answers to the calls of
-- open is an argument, a session is known by its executor, and `none` is a read behind the end of the
-- pool, or a null pointer that is used.
pub mod Rounds
mod Runs
use simple_rtmp.Base.{
  ℕ, zero, suc, ◌+◌, ◌%◌, ◌^◌, List, [], ◌∷◌, ◌++◌, Bool, true, false, not, Option, none, some,
  if◌then◌else◌,
}
use simple_rtmp.Executors.{Executors, get_executor}

-- Which calls succeed.
pub record Opening : Type 0 where
  pub address : Bool
  pub opened : Bool
  pub options_set : Bool
  pub bound : Bool
  pub listens : Bool

-- `session` is the session that waits for a connection, and `started` those that have one. The pool is not
-- a part of the server: main owns it and gives it to four servers, so it is passed in and out.
pub record TcpServer : Type 0 where
  pub is_open : Bool
  pub count : ℕ
  pub session : Option ℕ
  pub started : List ℕ

abbrev pub new_server : TcpServer
new_server = record { is_open = false; count = 0; session = none; started = [] }

-- Options that cannot be set are only logged.
unfoldable pub open_acceptor : Opening → TcpServer → TcpServer
open_acceptor r s =
    if not r.address
    then s
    else if not r.opened
    then s
    else if not r.bound
    then s
    else if not r.listens
    then s
    else record s { is_open = true }

unfoldable pub shutdown : TcpServer → TcpServer
shutdown s = record s { is_open = false }

unfoldable pub do_accept : TcpServer → Executors → Option (TcpServer × Executors)
do_accept s pool = if not s.is_open then some (s, pool) else elim (get_executor pool) [
  | none ↦ none
  | some (i, pool') ↦ some (record s { count = (s.count + 1) % 2 ^ 32; session = some i }, pool')
]

pub data Result : Type 0 where
  accepted canceled failed : Result

-- After an error nothing waits for a connection any more.
unfoldable pub on_accept : Result → TcpServer → Executors → Option (TcpServer × Executors)
unfolding do_accept
on_accept canceled s pool = some (s, pool)
on_accept failed s pool = some (s, pool)
on_accept accepted s pool = elim s.session [
  | none ↦ none
  | some i ↦ do_accept (record s { started = s.started ++ i ∷ [] }) pool
]

unfoldable pub run : Opening → TcpServer → Executors → Option (TcpServer × Executors)
unfolding open_acceptor do_accept
run r s pool = do_accept (open_acceptor r s) pool

-- Who takes an executor: this server, with an accepted connection, or another user of the pool.
pub data Draw : Type 0 where
  ours theirs : Draw

-- Accepted connections and what others take, in this order.
unfoldable pub accepts : List Draw → TcpServer → Executors → Option (TcpServer × Executors)
unfolding on_accept
accepts [] s pool = some (s, pool)
accepts (ours ∷ ds) s pool = elim (on_accept accepted s pool) [
  | none ↦ none
  | some (s', pool') ↦ accepts ds s' pool'
]
accepts (theirs ∷ ds) s pool = elim (get_executor pool) [
  | none ↦ none
  | some (_, pool') ↦ accepts ds s pool'
]

unfoldable pub serve : Opening → List Draw → TcpServer → Executors → Option (TcpServer × Executors)
unfolding run accepts
serve r ds s pool = elim (run r s pool) [ none ↦ none | some (s', pool') ↦ accepts ds s' pool' ]
