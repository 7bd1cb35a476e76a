-- ===== src/Sink/Runs.antt =====
-- Concrete runs of the registry and of the RTMP sink, and their theorems at concrete inputs.
use simple_rtmp.Base.{ℕ, ◌≡◌, refl, List, [], ◌∷◌}
use simple_rtmp.Base.Int.{pos}
use simple_rtmp.Codec.{video, h264}
use simple_rtmp.Frame.{FrameBuffer, fixed, base, bytes_of}
use simple_rtmp.Sink.{frame, failed}
use simple_rtmp.Sink.Rtmp.{new_sink, on_frames, safe_add_channel}
use simple_rtmp.Sink.Rtmp.Trace.{Event, signals, joins, leaves, run, frames_of, Caches, run-Caches}
use simple_rtmp.Sink.Rtmp.Join.{received, owed, join_lem}
use Prim.Native.String.{String}

abbrev registry : List (String × ℕ)
registry = ("rtmp_live_a", 1) ∷ ("rtsp_live_a", 2) ∷ []

-- A video frame with its flag and its second byte; its last byte tells it from the others.
abbrev picture : ℕ → ℕ → ℕ → FrameBuffer
picture flag second last = fixed (record {
  media = video;
  codec = h264;
  flag = flag;
  pts = pos 0;
  dts = pos 0;
  payload = 23 ∷ second ∷ last ∷ [];
})

-- A configuration, a key frame, a frame, a key frame, a frame, with a channel that comes and goes.
abbrev broadcast : List Event
broadcast =
    signals (frame (picture 1 0 0))
    ∷ signals (frame (picture 1 1 1))
    ∷ joins 4
    ∷ signals (frame (picture 0 1 2))
    ∷ signals (frame (picture 1 1 3))
    ∷ leaves 4
    ∷ signals (failed 2)
    ∷ signals (frame (picture 0 1 4))
    ∷ []

kept : (run 9 broadcast (new_sink {E = ℕ})).gop_cache ≡ picture 1 1 3 ∷ picture 0 1 4 ∷ []
unfolding run base bytes_of new_sink
kept = refl

run-Caches_example : Caches 9 (frames_of broadcast) (run 9 broadcast (new_sink {E = ℕ}))
run-Caches_example = run-Caches ℕ 9 broadcast

join_lem_example :
    received 5
      (on_frames 9
        (frame (picture 0 1 5) ∷ failed 2 ∷ [])
        (safe_add_channel 5 (run 9 broadcast (new_sink {E = ℕ})))).sent
    ≡ frame (picture 1 0 0)
      ∷ frame (picture 1 1 3)
      ∷ frame (picture 0 1 4)
      ∷ frame (picture 0 1 5)
      ∷ failed 2
      ∷ []
unfolding received run base bytes_of new_sink owed frames_of
join_lem_example = join_lem ℕ 9 5 broadcast (frame (picture 0 1 5) ∷ failed 2 ∷ [])
