-- ===== src/TcpServer/Runs.antt =====
-- A server with three executors.
use simple_rtmp.Base.{ℕ, ◌≡◌, refl, [], ◌∷◌, ◌++◌, true, false, some, arith}
use simple_rtmp.Executors.Rounds.{range}
use simple_rtmp.Executors.{Executors}
use simple_rtmp.TcpServer.{Opening, TcpServer, new_server, ours, theirs, run, serve}
use simple_rtmp.TcpServer.Rounds.{serve-rounds}

abbrev all_right : Opening
all_right = record {
  address = true;
  opened = true;
  options_set = false;
  bound = true;
  listens = true;
}

-- Another server takes the second executor.
serve-rounds_example :
    (s' : TcpServer) × (pool' : Executors) × (k : ℕ) × (serve all_right
        (theirs ∷ ours ∷ [])
        new_server
        (record { index = 1; pool_size = 3 })
      ≡ some (s', pool'))
    × (s'.session ≡ some k)
    × (s'.started ++ k ∷ [] ≡ 1 ∷ 0 ∷ [])
unfolding range
serve-rounds_example =
    serve-rounds all_right (theirs ∷ ours ∷ []) 1 refl refl refl refl (omega arith) (omega arith)

-- A port that is taken: the server runs, and accepts nothing.
port_taken :
    run (record all_right { bound = false }) new_server (record { index = 0; pool_size = 3 })
    ≡ some (new_server, record { index = 0; pool_size = 3 })
unfolding run
port_taken = refl
