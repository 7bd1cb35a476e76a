-- ===== src/Executors/Runs.antt =====
-- A pool of four executors that stands at its last.
use simple_rtmp.Base.{◌≡◌, refl, [], ◌∷◌, some}
use simple_rtmp.Executors.{get_executors}

four_calls :
    get_executors 4 (record { index = 3; pool_size = 4 })
    ≡ some (3 ∷ 0 ∷ 1 ∷ 2 ∷ [], record { index = 3; pool_size = 4 })
unfolding get_executors
four_calls = refl
