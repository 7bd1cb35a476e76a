-- ===== src/Sink/Rtmp/Join.antt =====
-- What a channel that joins late is written.
use simple_rtmp.Base.{
  ℕ, suc, ◌≤◌, ◌≡◌, refl, sym, ap, ◌∙◌, List, [], ◌∷◌, ◌++◌, map, Bool, true, false, ◌||◌, ◌==◌,
  if◌then◌else◌, arith, append_assoc, append-nil,
}
use mathlib.Core.Path.{ap₂}
use simple_rtmp.Frame.{FrameBuffer}
use simple_rtmp.Sink.{Signal, frame, failed}
use simple_rtmp.Sink.Rtmp.{
  RtmpSink, new_sink, insert, write_all, write_frames, option_list, on_frame, on_frames,
  safe_add_channel, keep_frame,
}
use simple_rtmp.Sink.Rtmp.Gop.{pictures, from_last_key, latest, is_video_config, is_audio_config}
use simple_rtmp.Sink.Rtmp.Trace.{
  Event, Ascending, Caches, run, frames_of, run-Caches, keep_frame-chs, on_frame-chs,
  insert-Ascending,
}

-- The signals that a channel was written, in order.
unfoldable pub received : ℕ → List (ℕ × Signal) → List Signal
received ch [] = []
received ch ((c, s) ∷ log) = if ch == c then s ∷ received ch log else received ch log

unfoldable pub contains : List ℕ → ℕ → Bool
contains [] ch = false
contains (c ∷ chs) ch = ch == c || contains chs ch

pub received-append :
    (ch : ℕ) (xs ys : List (ℕ × Signal)) → received ch (xs ++ ys) ≡ received ch xs ++ received ch ys
unfolding received
received-append ch [] ys = refl
received-append ch ((c, s) ∷ xs) ys = ground (arith, received-append ch xs ys)

received-write_frames :
    (ch : ℕ) (fs : List FrameBuffer) → received ch (write_frames ch fs) ≡ map frame fs
unfolding received write_frames
received-write_frames ch [] = refl
received-write_frames ch (f ∷ fs) = ground (arith, received-write_frames ch fs)

received_below :
    (lo ch : ℕ) (chs : List ℕ) (s : Signal)
    → Ascending lo chs
    → suc ch ≤ lo
    → received ch (write_all chs s) ≡ []
unfolding received write_all
received_below lo ch [] s a h = refl
received_below lo ch (c ∷ chs) s a h = ground (arith, received_below (suc c) ch chs s a.1)

-- A channel of the set is written once, any other not at all.
pub received-write_all :
    (lo ch : ℕ) (chs : List ℕ) (s : Signal)
    → Ascending lo chs
    → received ch (write_all chs s) ≡ (if contains chs ch then s ∷ [] else [])
unfolding received write_all contains
received-write_all lo ch [] s a = refl
received-write_all lo ch (c ∷ chs) s a =
    ground (arith, received-write_all (suc c) ch chs s a.1, received_below (suc c) ch chs s a.1)

contains-insert : (ch : ℕ) (chs : List ℕ) → contains (insert ch chs) ch ≡ true
unfolding contains insert
contains-insert ch [] = ground arith
contains-insert ch (c ∷ chs) = ground (arith, contains-insert ch chs)

module _ {E : Type 0} (stray ch : ℕ) where
  keep_frame-sent : (f : FrameBuffer) (k : RtmpSink E) → (keep_frame stray f k).sent ≡ k.sent
  unfolding keep_frame
  keep_frame-sent f k = ground arith

  on_frame-sent :
      (s : Signal) (k : RtmpSink E) → (on_frame stray s k).sent ≡ k.sent ++ write_all k.chs s
  unfolding on_frame
  on_frame-sent (failed ec) k = refl
  on_frame-sent (frame f) k =
      ap₂ (λ sent chs. sent ++ write_all chs (frame f)) (keep_frame-sent f k)
        (keep_frame-chs stray f k)

  received-on_frame :
      (s : Signal) (k : RtmpSink E)
      → Ascending 0 k.chs
      → contains k.chs ch ≡ true
      → received ch (on_frame stray s k).sent ≡ received ch k.sent ++ s ∷ []
  received-on_frame s k a h =
      ap (received ch) (on_frame-sent s k)
      ∙ received-append ch k.sent (write_all k.chs s)
      ∙ ap (◌++◌ (received ch k.sent)) (received-write_all 0 ch k.chs s a ∙ rw h)

  received-on_frames :
      (signals : List Signal) (k : RtmpSink E)
      → Ascending 0 k.chs
      → contains k.chs ch ≡ true
      → received ch (on_frames stray signals k).sent ≡ received ch k.sent ++ signals
  unfolding on_frames
  received-on_frames [] k a h = sym (append-nil _)
  received-on_frames (s ∷ signals) k a h =
      received-on_frames signals (on_frame stray s k) (rw (on_frame-chs stray s k) a)
        (rw (on_frame-chs stray s k) h)
      ∙ rw (received-on_frame s k a h) (append_assoc (received ch k.sent) (s ∷ []) signals)

-- What a joining channel is owed for the frames so far: the last video configuration, the last audio
-- configuration, and the video frames from the last key frame on.
unfoldable pub owed : ℕ → List FrameBuffer → List FrameBuffer
unfolding latest from_last_key pictures
owed stray fs =
    option_list (latest (is_video_config stray) fs)
    ++ (option_list (latest (is_audio_config stray) fs) ++ from_last_key (pictures stray fs))

-- What the sink holds for a joining channel is what it owes.
held-owed :
    {E : Type 0} (stray : ℕ) (fs : List FrameBuffer) (k : RtmpSink E)
    → Caches stray fs k
    → option_list k.video_config ++ (option_list k.audio_config ++ k.gop_cache) ≡ owed stray fs
unfolding owed
held-owed stray fs k v = rw (v.keeps.video_kept, v.keeps.audio_kept, v.keeps.gop)

received-join :
    {E : Type 0} (stray ch : ℕ) (fs : List FrameBuffer) (k : RtmpSink E)
    → Caches stray fs k
    → received ch (safe_add_channel ch k).sent ≡ received ch k.sent ++ map frame (owed stray fs)
unfolding safe_add_channel
received-join stray ch fs k v =
    received-append ch k.sent _
    ∙ ap (◌++◌ (received ch k.sent))
        (received-write_frames ch _ ∙ ap (map frame) (held-owed stray fs k v))

joined :
    {E : Type 0} (stray ch : ℕ) (fs : List FrameBuffer) (k : RtmpSink E)
    → Caches stray fs k
    → Ascending 0 (safe_add_channel ch k).chs × (contains (safe_add_channel ch k).chs ch ≡ true)
unfolding safe_add_channel
joined stray ch fs k v =
    (insert-Ascending 0 ch k.chs (omega arith) v.ascending, contains-insert ch k.chs)

-- A channel that joins after any events is written what it is owed for the frames of those events,
-- and from then on every signal, errors included, once and in order. This holds also of a channel
-- that is there already.
pub join_lem :
    (E : Type 0) (stray ch : ℕ) (es : List Event) (signals : List Signal)
    → let k = run stray es (new_sink {E = E}) in
      received ch (on_frames stray signals (safe_add_channel ch k)).sent
      ≡ received ch k.sent ++ (map frame (owed stray (frames_of es)) ++ signals)
join_lem E stray ch es signals =
    let k = run stray es (new_sink {E = E}) in
    let v = run-Caches E stray es in
    let (ordered, member) = joined stray ch (frames_of es) k v in
    received-on_frames stray ch signals (safe_add_channel ch k) ordered member
    ∙ ap (λ got. got ++ signals) (received-join stray ch (frames_of es) k v)
    ∙ append_assoc (received ch k.sent) _ signals
