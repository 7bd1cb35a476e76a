-- ===== src/RtspSink.antt =====
-- The RTSP sink, rtsp_sink.h and rtsp_sink.cc: it has the frames packed by its encoders and hands the
-- packets to its channels. `none` is a fault of the H.264 encoder.
pub mod Description
pub mod Read
pub mod Track
pub mod H264
pub mod Aac
pub mod Scan
pub mod Pack
pub mod Fanout
mod Runs
use simple_rtmp.Base.{ℕ, List, [], ◌∷◌, ◌++◌, Option, none, some, ◌==◌, if◌then◌else◌}
use simple_rtmp.Codec.{video, audio, h264, aac}
use simple_rtmp.Frame.{media}
use simple_rtmp.Sink.{Signal, frame, failed}
use simple_rtmp.Sink.Rtmp.{insert, erase, write_all}
use simple_rtmp.RtspSink.H264.{H264Encoder, Rtp}
use simple_rtmp.RtspSink.Aac.{AacEncoder, Mpeg4}
use simple_rtmp.RtspSink.Track.{RtspTrack, video_track, audio_track}

-- `sent` is the log of the calls of `write` on channels: which channel and what.
pub record RtspSink (S : Type 0) : Type 0 where
  pub chs : List ℕ
  pub video_encoder : Option (H264Encoder S)
  pub audio_encoder : Option (AacEncoder S)
  pub sent : List (ℕ × Signal)

module _ {S : Type 0} where
  unfoldable pub new_sink : RtspSink S
  new_sink = record { chs = []; video_encoder = none; audio_encoder = none; sent = [] }

  unfoldable pub add_channel : ℕ → RtspSink S → RtspSink S
  unfolding insert
  add_channel ch s = record s { chs = insert ch s.chs }

  unfoldable pub del_channel : ℕ → RtspSink S → RtspSink S
  unfolding erase
  del_channel ch s = record s { chs = erase ch s.chs }

  -- The encoders begin with the counters of their tracks' ssrcs.
  unfoldable pub add_codec : ℕ → ℕ → ℕ → RtspSink S → RtspSink S
  add_codec videos audios codec s =
      if codec == h264
      then record s { video_encoder = some (H264.new_encoder videos) }
      else if codec == aac
      then record s { audio_encoder = some (Aac.new_encoder audios) }
      else s

  unfoldable pub on_frame : Signal → RtspSink S → RtspSink S
  unfolding write_all
  on_frame signal s = record s { sent = s.sent ++ write_all s.chs signal }

  unfoldable pub on_frames : List Signal → RtspSink S → RtspSink S
  unfolding on_frame
  on_frames [] s = s
  on_frames (signal ∷ signals) s = on_frames signals (on_frame signal s)

  -- What `tracks` hands to its callback, null pointers included.
  unfoldable pub tracks : RtspSink S → List (Option RtspTrack)
  tracks s =
      let of_audio : List (Option RtspTrack) = elim s.audio_encoder [
        | none ↦ []
        | some e ↦ elim (e.track) [ none ↦ none | some t ↦ some (audio_track t) ] ∷ []
      ] in
      elim s.video_encoder [
        | none ↦ of_audio
        | some e ↦ elim (e.track) [ none ↦ none | some t ↦ some (video_track t) ] ∷ of_audio
      ]

module _ {S K : Type 0} (rtp : Rtp S) (mpeg4 : Mpeg4 K) where
  -- What an encoder writes comes back to on_frame.
  unfoldable pub write_video : Signal → RtspSink S → Option (RtspSink S)
  unfolding on_frames
  write_video signal s = elim s.video_encoder [
    | none ↦ some s
    | some e ↦ elim (H264.write rtp signal (record e { sent = [] })) [
      | none ↦ none
      | some e' ↦ some (on_frames (e'.sent) (record s { video_encoder = some e' }))
    ]
  ]

  unfoldable pub write_audio : Signal → RtspSink S → RtspSink S
  unfolding on_frames
  write_audio signal s = elim s.audio_encoder [
    | none ↦ s
    | some e ↦
        let e' = Aac.write rtp mpeg4 signal (record e { sent = [] }) in
        on_frames (e'.sent) (record s { audio_encoder = some e' })
  ]

  unfoldable pub write : Signal → RtspSink S → Option (RtspSink S)
  unfolding write_video write_audio
  write (failed ec) s = elim (write_video (failed ec) s) [
    | none ↦ none
    | some s' ↦ some (write_audio (failed ec) s')
  ]
  write (frame f) s =
      let then_audio =
        λ (s' : RtspSink S). if media f == audio then write_audio (frame f) s' else s' in
      if media f == video
      then elim (write_video (frame f) s) [ none ↦ none | some s' ↦ some (then_audio s') ]
      else some (then_audio s)
