-- ===== src/Sink/Rtmp/Series.antt =====
-- What series of frames leave of an RTMP sink, whatever its encoders are.
use simple_rtmp.Base.{ℕ, ◌≡◌, refl, ap, ◌∙◌, List, [], ◌∷◌, ◌++◌, map, append-nil, Option, arith}
use simple_rtmp.Frame.{FrameBuffer}
use simple_rtmp.Sink.{Signal, frame, failed}
use simple_rtmp.Sink.Rtmp.{RtmpSink, write_all, on_frame, on_frames, keep_frame}
use simple_rtmp.Sink.Rtmp.Trace.{signals, run, frames_of}

module _ {E : Type 0} (stray : ℕ) where
  -- The frames of the sink do not touch its encoders.
  pub on_frame-encoders :
      (x y : Option E) (s : Signal) (k : RtmpSink E)
      → on_frame stray s (record k { video_encoder = x; audio_encoder = y })
        ≡ record (on_frame stray s k) { video_encoder = x; audio_encoder = y }
  unfolding on_frame keep_frame
  on_frame-encoders x y (failed ec) k = refl
  on_frame-encoders x y (frame f) k = ground arith

  pub on_frames-encoders :
      (x y : Option E) (ss : List Signal) (k : RtmpSink E)
      → on_frames stray ss (record k { video_encoder = x; audio_encoder = y })
        ≡ record (on_frames stray ss k) { video_encoder = x; audio_encoder = y }
  unfolding on_frames
  on_frames-encoders x y [] k = refl
  on_frames-encoders x y (s ∷ ss) k =
      ap (on_frames stray ss) (on_frame-encoders x y s k)
      ∙ on_frames-encoders x y ss (on_frame stray s k)

  pub on_frames-append :
      (fs gs : List FrameBuffer) (k : RtmpSink E)
      → on_frames stray (map frame (fs ++ gs)) k
        ≡ on_frames stray (map frame gs) (on_frames stray (map frame fs) k)
  unfolding on_frames
  on_frames-append [] gs k = refl
  on_frames-append (f ∷ fs) gs k = on_frames-append fs gs (on_frame stray (frame f) k)

  pub run-signals :
      (ss : List Signal) (k : RtmpSink E) → run stray (map signals ss) k ≡ on_frames stray ss k
  unfolding run on_frames
  run-signals [] k = refl
  run-signals (s ∷ ss) k = run-signals ss (on_frame stray s k)

  -- A sink without channels writes nothing.
  pub unheard :
      (ss : List Signal) (k : RtmpSink E) → k.chs ≡ [] → (on_frames stray ss k).sent ≡ k.sent
  unfolding on_frames on_frame keep_frame write_all
  unheard [] k nobody = refl
  unheard (failed ec ∷ ss) k nobody =
      unheard ss (on_frame stray (failed ec) k) nobody ∙ ground (arith, nobody, append-nil k.sent)
  unheard (frame f ∷ ss) k nobody =
      unheard ss (on_frame stray (frame f) k) (ground (arith, nobody))
      ∙ ground (arith, nobody, append-nil k.sent)

pub frames_of-signals : (fs : List FrameBuffer) → frames_of (map signals (map frame fs)) ≡ fs
unfolding frames_of
frames_of-signals [] = refl
frames_of-signals (f ∷ fs) = ap (◌∷◌ f) (frames_of-signals fs)
