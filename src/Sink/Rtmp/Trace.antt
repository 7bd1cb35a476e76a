-- ===== src/Sink/Rtmp/Trace.antt =====
-- What the executor and the encoders make of a sink, event by event, and what stays true.
use simple_rtmp.Base.{
  ℕ, suc, ◌≤◌, ◌≡◌, refl, ap, subst, ◌∙◌, List, [], ◌∷◌, ◌++◌, arith, append_assoc, append-nil,
}
use simple_rtmp.Frame.{FrameBuffer}
use simple_rtmp.Sink.{Signal, frame, failed}
use simple_rtmp.Sink.Rtmp.{
  RtmpSink, new_sink, insert, erase, on_frame, keep_frame, safe_add_channel, safe_del_channel,
}
use simple_rtmp.Sink.Rtmp.Gop.{Keeps, keep_frame-Keeps, pictures, from_last_key, latest}

-- An encoder hands over a signal; the executor adds or deletes a channel.
pub data Event : Type 0 where
  signals : Signal → Event
  joins : ℕ → Event
  leaves : ℕ → Event

unfoldable pub frames_of : List Event → List FrameBuffer
frames_of [] = []
frames_of (signals (frame f) ∷ es) = f ∷ frames_of es
frames_of (signals (failed ec) ∷ es) = frames_of es
frames_of (joins ch ∷ es) = frames_of es
frames_of (leaves ch ∷ es) = frames_of es

module _ {E : Type 0} (stray : ℕ) where
  unfoldable pub step : Event → RtmpSink E → RtmpSink E
  unfolding on_frame safe_add_channel safe_del_channel
  step (signals s) k = on_frame stray s k
  step (joins ch) k = safe_add_channel ch k
  step (leaves ch) k = safe_del_channel ch k

  unfoldable pub run : List Event → RtmpSink E → RtmpSink E
  unfolding step
  run [] k = k
  run (e ∷ es) k = run es (step e k)

-- The channels are in strictly ascending order from `lo` on.
abbrev pub Ascending : ℕ → List ℕ → Type 0
Ascending lo [] = Unit {0}
Ascending lo (c ∷ chs) = (lo ≤ c) × Ascending (suc c) chs

Ascending-mono : {lo hi : ℕ} (chs : List ℕ) → lo ≤ hi → Ascending hi chs → Ascending lo chs
Ascending-mono [] h a = tt
Ascending-mono (c ∷ chs) h a = (omega arith, a.1)

pub insert-Ascending :
    (lo ch : ℕ) (chs : List ℕ) → lo ≤ ch → Ascending lo chs → Ascending lo (insert ch chs)
unfolding insert
insert-Ascending lo ch [] h a = (h, tt)
insert-Ascending lo ch (c ∷ chs) h a =
    ground (arith, λ (g : suc c ≤ ch). insert-Ascending (suc c) ch chs g a.1)

erase-Ascending : (lo ch : ℕ) (chs : List ℕ) → Ascending lo chs → Ascending lo (erase ch chs)
unfolding erase
erase-Ascending lo ch [] a = tt
erase-Ascending lo ch (c ∷ chs) a =
    ground (arith, Ascending-mono {lo = lo} {hi = suc c} chs, erase-Ascending (suc c) ch chs a.1)

module _ {E : Type 0} (stray : ℕ) where
  pub keep_frame-chs : (f : FrameBuffer) (k : RtmpSink E) → (keep_frame stray f k).chs ≡ k.chs
  unfolding keep_frame
  keep_frame-chs f k = ground arith

  pub on_frame-chs : (s : Signal) (k : RtmpSink E) → (on_frame stray s k).chs ≡ k.chs
  unfolding on_frame
  on_frame-chs (failed ec) k = refl
  on_frame-chs (frame f) k = keep_frame-chs f k

  -- The channels stay a set, and the sink keeps what the frames so far ask for.
  pub record Caches (fs : List FrameBuffer) (k : RtmpSink E) : Type 0 where
    pub ascending : Ascending 0 k.chs
    pub keeps : Keeps stray fs k

  Keeps-by :
      {fs : List FrameBuffer} {k k' : RtmpSink E}
      → Keeps stray fs k
      → k'.gop_cache ≡ k.gop_cache
      → k'.video_config ≡ k.video_config
      → k'.audio_config ≡ k.audio_config
      → Keeps stray fs k'
  Keeps-by v g vc ac = record {
    gop = g ∙ v.gop;
    video_kept = vc ∙ v.video_kept;
    audio_kept = ac ∙ v.audio_kept;
  }

  step-Caches :
      (fs : List FrameBuffer) (e : Event) (k : RtmpSink E)
      → Caches fs k
      → Caches (fs ++ frames_of (e ∷ [])) (step stray e k)
  unfolding step frames_of
  step-Caches fs (signals (failed ec)) k v =
      rw append-nil (record { ascending = v.ascending; keeps = Keeps-by v.keeps refl refl refl })
  step-Caches fs (signals (frame f)) k v = record {
    ascending = rw (keep_frame-chs f k) v.ascending;
    keeps = Keeps-by (keep_frame-Keeps stray fs f k v.keeps) refl refl refl;
  }
  step-Caches fs (joins ch) k v = rw append-nil (record {
    ascending = insert-Ascending 0 ch k.chs (omega arith) v.ascending;
    keeps = Keeps-by v.keeps refl refl refl;
  })
  step-Caches fs (leaves ch) k v = rw append-nil (record {
    ascending = erase-Ascending 0 ch k.chs v.ascending;
    keeps = Keeps-by v.keeps refl refl refl;
  })

  run-Caches_from :
      (fs : List FrameBuffer) (es : List Event) (k : RtmpSink E)
      → Caches fs k
      → Caches (fs ++ frames_of es) (run stray es k)
  unfolding run frames_of
  run-Caches_from fs [] k v = rw append-nil v
  run-Caches_from fs (e ∷ es) k v =
      subst (λ gs. Caches gs (run stray es (step stray e k))) (regroup e)
        (run-Caches_from (fs ++ frames_of (e ∷ [])) es (step stray e k) (step-Caches fs e k v))
    where
      regroup : (e : Event) → (fs ++ frames_of (e ∷ [])) ++ frames_of es ≡ fs ++ frames_of (e ∷ es)
      regroup (signals (frame f)) = append_assoc fs (f ∷ []) (frames_of es)
      regroup (signals (failed ec)) = ap (λ gs. gs ++ frames_of es) (append-nil fs)
      regroup (joins ch) = ap (λ gs. gs ++ frames_of es) (append-nil fs)
      regroup (leaves ch) = ap (λ gs. gs ++ frames_of es) (append-nil fs)

  new_sink-Caches : Caches [] (new_sink {E = E})
  unfolding new_sink pictures from_last_key latest
  new_sink-Caches = record {
    ascending = tt;
    keeps = record { gop = refl; video_kept = refl; audio_kept = refl };
  }

-- After any events from a new sink on, the channels are a set in order; the cache holds the video
-- frames since the last key frame, without configurations, and nothing before the first key frame;
-- and the two kept configurations are the last of each kind. Errors, and channels that come and go,
-- change none of this.
pub run-Caches :
    (E : Type 0) (stray : ℕ) (es : List Event)
    → Caches stray (frames_of es) (run stray es (new_sink {E = E}))
run-Caches E stray es = run-Caches_from stray [] es new_sink (new_sink-Caches {E = E} stray)
