-- ===== src/Connection/Runs.antt =====
-- Concrete runs of a connection, and its theorems at concrete inputs.
use simple_rtmp.Base.{
  ℕ, ◌≡◌, refl, List, [], ◌∷◌, All, Bool, true, false, Option, none, some, if◌then◌else◌,
}
use simple_rtmp.Connection.{Action, write, close, Event, calls, runs, wrote, read, run}
use simple_rtmp.Connection.Failures.{has_failure, MarkedBy}
use simple_rtmp.Connection.Order.{all_given}
use simple_rtmp.Connection.Progress.{
  frames_of, InOrder, opened, opened-InOrder, run-InOrder, run-delivers,
}

-- A session that answers a read with a frame and shuts the connection down on an error.
abbrev echo : Option ℕ → List (Action ℕ)
echo none = close ∷ []
echo (some frame) = write frame ∷ []

abbrev on_error : Bool → List (Action ℕ)
on_error ec = if ec then close ∷ [] else []

-- Two frames from outside and one that answers a read; the second write takes two frames at once.
abbrev three_frames : List (Event ℕ)
three_frames =
    calls (write 1)
    ∷ runs
    ∷ calls (write 2)
    ∷ runs
    ∷ read (some 3)
    ∷ runs
    ∷ wrote false
    ∷ wrote false
    ∷ []

three_written :
    (run (opened echo on_error) three_frames).completed ≡ (false, 1) ∷ (false, 2) ∷ (false, 3) ∷ []
unfolding run opened
three_written = refl

in_batches :
    (run
      (opened echo on_error)
      (calls (write 1) ∷ runs ∷ calls (write 2) ∷ runs ∷ calls (write 3) ∷ runs ∷ [])).write_queue
    ≡ 2 ∷ 3 ∷ []
unfolding run opened
in_batches = refl

run-InOrder_example : InOrder (run (opened echo on_error) three_frames)
run-InOrder_example = run-InOrder (opened echo on_error) three_frames (opened-InOrder echo on_error)

-- The second write fails, and the session does nothing about it.
abbrev failing : List (Event ℕ)
failing = calls (write 1) ∷ runs ∷ wrote false ∷ calls (write 2) ∷ runs ∷ wrote true ∷ []

failed_write : (run (opened echo (λ ec. [])) failing).completed ≡ (false, 1) ∷ (true, 2) ∷ []
unfolding run opened
failed_write = refl

run-delivers_example :
    (frames_of (run (opened echo on_error) three_frames).completed ≡ 1 ∷ 2 ∷ 3 ∷ [])
    × All (MarkedBy false) (run (opened echo on_error) three_frames).completed
unfolding run opened all_given has_failure
run-delivers_example = run-delivers echo on_error three_frames refl refl refl
