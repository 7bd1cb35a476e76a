-- ===== src/Sink.antt =====
-- Channels and the registry of sinks, channel.h, channel.cc, sink.h and sink.cpp.
-- What passes through a channel is a frame or an error code. A channel is known by a number, its
-- address; the registry's map is an association list, and each of its calls holds the mutex.
pub mod Rtmp
pub mod Registry
mod Runs
use simple_rtmp.Base.{ℕ, List, [], ◌∷◌, ◌++◌, Option, none, some, if◌then◌else◌, Bool}
use simple_rtmp.Frame.{FrameBuffer}
use Prim.Native.String.{String}
use text.Mathlib.Text.{◌==◌}

-- The arguments (frame, ec) of `write`: with an error set no receiver looks at the frame.
pub data Signal : Type 0 where
  frame : FrameBuffer → Signal
  failed : ℕ → Signal

-- `output` answers with what the receiver makes of a signal.
pub record Channel {ℓ} (R : Type ℓ) : Type ℓ where
  pub output : Option (Signal → List R)

module _ {ℓ} {R : Type ℓ} where
  unfoldable pub set_output : (Signal → List R) → Channel R → Channel R
  set_output out c = record { output = some out }

  -- A channel without an output drops what is written.
  unfoldable pub write : Signal → Channel R → List R
  write s c = elim c.output [ none ↦ [] | some out ↦ out s ]

-- `sinks_`, for any type of sinks.
module _ {ℓ} {S : Type ℓ} where
  unfoldable pub get : String → List (String × S) → Option S
  get id [] = none
  get id ((key, s) ∷ sinks) = if key == id then some s else get id sinks

  -- `sinks_[s->id()] = s`.
  unfoldable pub add : String → S → List (String × S) → List (String × S)
  add id s [] = (id, s) ∷ []
  add id s ((key, old) ∷ sinks) =
      if key == id then (key, s) ∷ sinks else (key, old) ∷ add id s sinks

  unfoldable pub del : String → List (String × S) → List (String × S)
  del id [] = []
  del id ((key, s) ∷ sinks) = if key == id then del id sinks else (key, s) ∷ del id sinks
