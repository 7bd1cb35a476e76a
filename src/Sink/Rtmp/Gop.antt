-- ===== src/Sink/Rtmp/Gop.antt =====
-- The cache holds the frames since the last key frame.
use simple_rtmp.Base.{
  ℕ, ◌≡◌, refl, List, [], ◌∷◌, ◌++◌, Bool, false, not, ◌&&◌, ◌||◌, Option, none, some, is_empty,
  ◌==◌, if◌then◌else◌, arith,
}
use simple_rtmp.Codec.{video, audio}
use simple_rtmp.Frame.{FrameBuffer, media, flag}
use simple_rtmp.Sink.Rtmp.{RtmpSink, video_config_frame, audio_config_frame, keep_frame}

abbrev pub is_key : FrameBuffer → Bool
is_key f = flag f == 1

-- There is a key frame among the frames.
unfoldable pub has_key : List FrameBuffer → Bool
has_key [] = false
has_key (f ∷ fs) = is_key f || has_key fs

-- The frames from the last key frame on, none if there is no key frame.
unfoldable pub from_last_key : List FrameBuffer → List FrameBuffer
unfolding has_key
from_last_key [] = []
from_last_key (f ∷ fs) = if has_key fs then from_last_key fs else if is_key f then f ∷ fs else []

from_last_key-none : (fs : List FrameBuffer) → has_key fs ≡ false → from_last_key fs ≡ []
unfolding from_last_key
from_last_key-none [] e = refl
from_last_key-none (f ∷ fs) e = ground arith

has_key-snoc :
    (fs : List FrameBuffer) (f : FrameBuffer) → has_key (fs ++ f ∷ []) ≡ (has_key fs || is_key f)
unfolding has_key
has_key-snoc [] f = ground arith
has_key-snoc (g ∷ fs) f = ground (arith, has_key-snoc fs f)

is_empty-from_last_key : (fs : List FrameBuffer) → is_empty (from_last_key fs) ≡ not (has_key fs)
unfolding from_last_key
is_empty-from_last_key [] = refl
is_empty-from_last_key (f ∷ fs) = ground (arith, is_empty-from_last_key fs)

-- One more frame: a key frame begins anew, another joins if there is something to join.
from_last_key-snoc :
    (fs : List FrameBuffer) (f : FrameBuffer)
    → from_last_key (fs ++ f ∷ [])
      ≡ (if is_key f then f ∷ [] else if has_key fs then from_last_key fs ++ f ∷ [] else [])
unfolding from_last_key
from_last_key-snoc [] f = ground arith
from_last_key-snoc (g ∷ fs) f =
    ground (arith, from_last_key-snoc fs f, has_key-snoc fs f, from_last_key-none fs)

-- The last frame that passes a test.
unfoldable pub latest : (FrameBuffer → Bool) → List FrameBuffer → Option FrameBuffer
latest test [] = none
latest test (f ∷ fs) = elim (latest test fs) [
  | some g ↦ some g
  | none ↦ if test f then some f else none
]

latest-snoc :
    (test : FrameBuffer → Bool) (fs : List FrameBuffer) (f : FrameBuffer)
    → latest test (fs ++ f ∷ []) ≡ (if test f then some f else latest test fs)
unfolding latest
latest-snoc test [] f = refl
latest-snoc test (g ∷ fs) f = ground (arith, latest-snoc test fs f)

module _ (stray : ℕ) where
  abbrev pub is_video_config : FrameBuffer → Bool
  is_video_config f = media f == video && video_config_frame stray f

  abbrev pub is_audio_config : FrameBuffer → Bool
  is_audio_config f = media f == audio && audio_config_frame stray f

  -- The video frames that are no configuration.
  unfoldable pub pictures : List FrameBuffer → List FrameBuffer
  pictures [] = []
  pictures (f ∷ fs) =
      if media f == video && not (video_config_frame stray f) then f ∷ pictures fs else pictures fs

  pictures-snoc :
      (fs : List FrameBuffer) (f : FrameBuffer)
      → pictures (fs ++ f ∷ []) ≡ (
          if media f == video && not (video_config_frame stray f)
          then pictures fs ++ f ∷ []
          else pictures fs)
  unfolding pictures
  pictures-snoc [] f = ground arith
  pictures-snoc (g ∷ fs) f = ground (arith, pictures-snoc fs f)

  -- What the sink keeps of the frames `fs` that it has seen.
  pub record Keeps {E : Type 0} (fs : List FrameBuffer) (s : RtmpSink E) : Type 0 where
    pub gop : s.gop_cache ≡ from_last_key (pictures fs)
    pub video_kept : s.video_config ≡ latest is_video_config fs
    pub audio_kept : s.audio_config ≡ latest is_audio_config fs

  pub keep_frame-Keeps :
      {E : Type 0} (fs : List FrameBuffer) (f : FrameBuffer) (s : RtmpSink E)
      → Keeps fs s
      → Keeps (fs ++ f ∷ []) (keep_frame stray f s)
  unfolding keep_frame
  keep_frame-Keeps fs f s k = record {
    gop = ground (
      arith,
      k.gop,
      pictures-snoc fs f,
      from_last_key-snoc (pictures fs) f,
      is_empty-from_last_key (pictures fs),
    );
    video_kept = ground (arith, k.video_kept, latest-snoc is_video_config fs f);
    audio_kept = ground (arith, k.audio_kept, latest-snoc is_audio_config fs f);
  }
