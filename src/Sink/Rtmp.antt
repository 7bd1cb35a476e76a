-- ===== src/Sink/Rtmp.antt =====
-- The RTMP sink, rtmp_sink.h and rtmp_sink.cc: it hands encoded frames to its channels, and keeps
-- the configuration frames and the frames since the last key frame for a channel that comes later.
-- `stray` is the byte that a read behind the end of a frame finds; the theorems hold for any.
-- An encoder is a machine: its state, and a function from a signal to the new state and the signals
-- that it hands back to `on_frame`.
pub mod Gop
pub mod Trace
pub mod Join
pub mod Series
use simple_rtmp.Base.{
  ℕ, ◌+◌, List, [], ◌∷◌, ◌++◌, map, Bool, true, false, ◌&&◌, ◌||◌, Option, none, some, get_or,
  is_empty, ltb, ◌==◌, if◌then◌else◌,
}
use simple_rtmp.Codec.{video, audio, aac, opus, h264}
use simple_rtmp.Frame.{FrameBuffer, base, bytes_of, media, codec, flag}
use simple_rtmp.Sink.{Signal, frame, failed}

-- std::set of channel pointers: the numbers, ascending.
unfoldable pub insert : ℕ → List ℕ → List ℕ
insert ch [] = ch ∷ []
insert ch (c ∷ chs) =
    if ltb ch c then ch ∷ (c ∷ chs) else if ch == c then c ∷ chs else c ∷ insert ch chs

unfoldable pub erase : ℕ → List ℕ → List ℕ
erase ch [] = []
erase ch (c ∷ chs) = if ch == c then chs else c ∷ erase ch chs

-- `sent` is the log of the calls of `write` on channels: which channel and what.
pub record RtmpSink (E : Type 0) : Type 0 where
  pub chs : List ℕ
  pub video_config : Option FrameBuffer
  pub audio_config : Option FrameBuffer
  pub gop_cache : List FrameBuffer
  pub video_encoder : Option E
  pub audio_encoder : Option E
  pub sent : List (ℕ × Signal)

module _ {E : Type 0} where
  unfoldable pub new_sink : RtmpSink E
  new_sink = record {
    chs = [];
    video_config = none;
    audio_config = none;
    gop_cache = [];
    video_encoder = none;
    audio_encoder = none;
    sent = [];
  }

-- `frame->data()[1] == 0`.
abbrev pub video_config_frame : ℕ → FrameBuffer → Bool
video_config_frame stray f = get_or (bytes_of f) 1 stray == 0

abbrev pub audio_config_frame : ℕ → FrameBuffer → Bool
audio_config_frame stray f = (codec f == aac || codec f == opus) && get_or (bytes_of f) 1 stray == 0

-- `for (ch : chs_) ch->write(frame, ec)`.
unfoldable pub write_all : List ℕ → Signal → List (ℕ × Signal)
write_all [] s = []
write_all (ch ∷ chs) s = (ch, s) ∷ write_all chs s

-- One channel is written several frames.
unfoldable pub write_frames : ℕ → List FrameBuffer → List (ℕ × Signal)
write_frames ch [] = []
write_frames ch (f ∷ fs) = (ch, frame f) ∷ write_frames ch fs

abbrev pub option_list : Option FrameBuffer → List FrameBuffer
option_list none = []
option_list (some f) = f ∷ []

module _ {E : Type 0} (stray : ℕ) where
  unfoldable pub on_video_frame : FrameBuffer → RtmpSink E → RtmpSink E
  on_video_frame f s =
      if video_config_frame stray f
      then record s { video_config = some f }
      else if flag f == 1
      then record s { gop_cache = f ∷ [] }
      else if is_empty s.gop_cache
      then s
      else record s { gop_cache = s.gop_cache ++ f ∷ [] }

  unfoldable pub on_audio_frame : FrameBuffer → RtmpSink E → RtmpSink E
  on_audio_frame f s = if audio_config_frame stray f then record s { audio_config = some f } else s

  unfoldable pub write_to_channels : Signal → RtmpSink E → RtmpSink E
  unfolding write_all
  write_to_channels signal s = record s { sent = s.sent ++ write_all s.chs signal }

  -- What is kept of a frame without an error.
  unfoldable pub keep_frame : FrameBuffer → RtmpSink E → RtmpSink E
  unfolding on_video_frame on_audio_frame
  keep_frame f s =
      if media f == video
      then on_video_frame f s
      else if media f == audio
      then on_audio_frame f s
      else s

  unfoldable pub on_frame : Signal → RtmpSink E → RtmpSink E
  unfolding write_to_channels keep_frame
  on_frame (failed ec) s = write_to_channels (failed ec) s
  on_frame (frame f) s = write_to_channels (frame f) (keep_frame f s)

  unfoldable pub on_frames : List Signal → RtmpSink E → RtmpSink E
  unfolding on_frame
  on_frames [] s = s
  on_frames (signal ∷ signals) s = on_frames signals (on_frame signal s)

-- `add_channel` and `del_channel` post these two to the executor.
module _ {E : Type 0} where
  unfoldable pub safe_add_channel : ℕ → RtmpSink E → RtmpSink E
  unfolding insert write_frames
  safe_add_channel ch s =
      let held = option_list s.video_config ++ (option_list s.audio_config ++ s.gop_cache) in
      record s { sent = s.sent ++ write_frames ch held; chs = insert ch s.chs }

  unfoldable pub safe_del_channel : ℕ → RtmpSink E → RtmpSink E
  unfolding erase
  safe_del_channel ch s = record s { chs = erase ch s.chs }

-- The encoders: how a new one of each kind begins, and what one does with a signal.
module _ {E : Type 0} (stray : ℕ) (new_h264 new_aac : E)
    (encode : E → Signal → E × List Signal) where
  unfoldable pub add_codec : ℕ → RtmpSink E → RtmpSink E
  add_codec code s =
      if code == h264
      then record s { video_encoder = some new_h264 }
      else if code == aac
      then record s { audio_encoder = some new_aac }
      else s

  unfoldable pub write_video : Signal → RtmpSink E → RtmpSink E
  unfolding on_frames
  write_video signal s = elim s.video_encoder [
    | none ↦ s
    | some e ↦
        on_frames stray (encode e signal).1 (record s { video_encoder = some (encode e signal).0 })
  ]

  unfoldable pub write_audio : Signal → RtmpSink E → RtmpSink E
  unfolding on_frames
  write_audio signal s = elim s.audio_encoder [
    | none ↦ s
    | some e ↦
        on_frames stray (encode e signal).1 (record s { audio_encoder = some (encode e signal).0 })
  ]

  -- An error goes to both encoders, a frame to that of its kind.
  unfoldable pub write : Signal → RtmpSink E → RtmpSink E
  unfolding write_video write_audio
  write (failed ec) s = write_audio (failed ec) (write_video (failed ec) s)
  write (frame f) s =
      let s' = if media f == video then write_video (frame f) s else s in
      if media f == audio then write_audio (frame f) s' else s'

  unfoldable pub writes : List Signal → RtmpSink E → RtmpSink E
  unfolding write
  writes [] s = s
  writes (signal ∷ signals) s = writes signals (write signal s)
