-- ===== src/Sink/Registry.antt =====
-- The registry answers as a map does.
use simple_rtmp.Base.{◌≡◌, refl, List, [], ◌∷◌, none, some, if◌then◌else◌, arith}
use simple_rtmp.Sink.{get, add, del}
use Prim.Native.String.{String}
use text.Mathlib.Text.{◌==◌}
use text.Mathlib.TextEquality.{eq_iff}

module _ {ℓ} {S : Type ℓ} where
  -- After `add` the sink is found under its own id, in place of an earlier one, and every other id
  -- is answered as before.
  get-add :
      (id key : String) (s : S) (sinks : List (String × S))
      → get key (add id s sinks) ≡ (if id == key then some s else get key sinks)
  unfolding get add
  get-add id key s [] = refl
  get-add id key s ((k, t) ∷ sinks) =
      ground (arith, eq_iff id key, eq_iff k id, eq_iff k key, get-add id key s sinks)

  -- After `del` no sink is found under the id, and every other id is answered as before.
  get-del :
      (id key : String) (sinks : List (String × S))
      → get key (del id sinks) ≡ (if id == key then none else get key sinks)
  unfolding get del
  get-del id key [] = ground arith
  get-del id key ((k, t) ∷ sinks) =
      ground (arith, eq_iff id key, eq_iff k id, eq_iff k key, get-del id key sinks)
