-- ===== src/RtspSession.antt =====
-- The RTSP session of a player, rtsp_forward_session.h and rtsp_forward_session.cc: its state, and what
-- it writes of the frames that its channel gets. RtspSession.Requests has its answers to requests.
-- `none` is a fault: a null pointer is used, or a number divided by 0. The RTCP part of the
-- media-server library and the clock are parameters.

pub mod Requests
pub mod Events
pub mod Dialogue
pub mod Stream
pub mod Deliver
mod Runs
use simple_rtmp.Base.{
  ℕ, suc, ◌+◌, ◌-◌, ◌*◌, ◌/◌, ◌%◌, ◌^◌, List, [], ◌∷◌, ◌++◌, Bool, true, false, ◌||◌, Option, none,
  some, leb, ◌==◌, if◌then◌else◌,
}
use simple_rtmp.Base.Int.{ℤ, pos}
use simple_rtmp.Codec.{video, audio}
use simple_rtmp.Frame.{FrameBuffer, create, bytes_of, size, media, dts}
use simple_rtmp.Sink.{Signal, frame, failed}
use simple_rtmp.Rtsp.Parser.{Text}
use simple_rtmp.RtspSink.Track.{RtspTrack, video_track, audio_track, VideoTrack, AudioTrack}
use simple_rtmp.RtspSink.H264.{times}
use simple_rtmp.RtspSink.Aac.{quotient}

-- rtp_create by ssrc, time, rate and bandwidth, rtp_rtcp_interval, rtp_rtcp_report, rtp_onsend and
-- rtp_onreceived_rtcp.
pub record Rtcp (R : Type 0) : Type 0 where
  pub create_rtp : ℕ → ℤ → ℕ → ℕ → R
  pub interval : R → ℕ
  pub report : R → R × List ℕ
  pub onsend : R → List ℕ → R
  pub onreceived : R → List ℕ → R

-- The answers, with what their texts say; `setup_reply` has the two channels.
pub data Reply : Type 0 where
  options_reply : ℤ → Reply
  describe_reply : ℤ → Text → List RtspTrack → Reply
  setup_reply : ℤ → ℕ → ℕ → ℕ → Text → Reply
  unsupported_reply : ℤ → Reply
  play_reply : ℤ → Text → Reply
  teardown_reply : ℤ → Reply

-- What the session does outside: frames and answers on its connection, its channel's place in a sink,
-- the question for a sink's tracks, and what it posts to its executor.
pub data Output : Type 0 where
  written : FrameBuffer → Output
  replied : Reply → Output
  channel_added : ℕ → Output
  channel_deleted : ℕ → Output
  tracks_asked : ℕ → Text → Output
  shutdown_posted : Output
  conn_shutdown : Output

-- What the session keeps for video and for audio.
pub record Medium (R : Type 0) : Type 0 where
  pub track : Option RtspTrack
  pub rtcp_ctx : Option R
  pub rtcp_time : ℕ

-- `sink` is the weak pointer, the number of a sink; `channel` and `conn` say whether the pointers are
-- set.
pub record RtspSession (R : Type 0) : Type 0 where
  pub session_id : Text
  pub sink : Option ℕ
  pub channel : Bool
  pub conn : Bool
  pub tracks : List (Text × RtspTrack)
  pub video_half : Medium R
  pub audio_half : Medium R
  pub outputs : List Output

abbrev pub rtp_video_channel : ℕ
rtp_video_channel = 0

abbrev pub rtcp_video_channel : ℕ
rtcp_video_channel = 1

abbrev pub rtp_audio_channel : ℕ
rtp_audio_channel = 2

abbrev pub rtcp_audio_channel : ℕ
rtcp_audio_channel = 3

abbrev pub ssrc_of : RtspTrack → ℕ
ssrc_of (video_track t) = t.ssrc
ssrc_of (audio_track t) = t.ssrc

abbrev pub rate_of : RtspTrack → ℕ
rate_of (video_track t) = 90000
rate_of (audio_track t) = t.sample_rate

-- `$`, the channel, and the size in two bytes.
abbrev pub make_frame_header : ℕ → FrameBuffer → FrameBuffer
make_frame_header channel f = create (36 ∷ channel ∷ size f / 256 % 256 ∷ size f % 256 ∷ [])

module _ {R : Type 0} where
  -- The session after `start`.
  unfoldable pub new_session : RtspSession R
  new_session = record {
    session_id = [];
    sink = none;
    channel = true;
    conn = true;
    tracks = [];
    video_half = record { track = none; rtcp_ctx = none; rtcp_time = 0 };
    audio_half = record { track = none; rtcp_ctx = none; rtcp_time = 0 };
    outputs = [];
  }

  abbrev pub output : Output → RtspSession R → RtspSession R
  output o s = record s { outputs = s.outputs ++ o ∷ [] }

  abbrev pub shutdown : RtspSession R → RtspSession R
  shutdown s = output shutdown_posted s

  -- `conn_->write_frame`.
  abbrev pub on_conn : Output → RtspSession R → Option (RtspSession R)
  on_conn o s = if s.conn then some (output o s) else none

  -- A frame behind its header.
  unfoldable pub write_interleaved : ℕ → FrameBuffer → RtspSession R → Option (RtspSession R)
  write_interleaved channel f s =
      if s.conn
      then some (output (written f) (output (written (make_frame_header channel f)) s))
      else none

module _ {R : Type 0} (lib : Rtcp R) where
  -- The RTCP context, made when it is first needed.
  unfoldable pub rtcp_context : ℕ → FrameBuffer → Medium R → Option R
  rtcp_context bandwidth f m = elim m.rtcp_ctx [
    | some r ↦ some r
    | none ↦ elim m.track [
      | none ↦ none
      | some t ↦
          if rate_of t == 0
          then none
          else some (
              lib.create_rtp (ssrc_of t) (quotient (times 1000 (dts f)) (rate_of t)) (rate_of t)
                bandwidth)
    ]
  ]

  -- Whether a report is due.
  abbrev pub report_due : ℕ → R → Medium R → Bool
  report_due now r m = m.rtcp_time == 0 || leb ((m.rtcp_time + lib.interval r * 1000) % 2 ^ 64) now

  -- What send_video_rtcp and send_audio_rtcp do to a medium, with the report to be written.
  unfoldable pub rtcp_step : ℕ → ℕ → FrameBuffer → Medium R → Option (Medium R × Option (List ℕ))
  unfolding rtcp_context
  rtcp_step bandwidth now f m = elim (rtcp_context bandwidth f m) [
    | none ↦ none
    | some r ↦
        if report_due now r m
        then some (
          record m { rtcp_ctx = some (lib.onsend (lib.report r).0 (bytes_of f)); rtcp_time = now },
          some (lib.report r).1,
        )
        else some (record m { rtcp_ctx = some (lib.onsend r (bytes_of f)) }, none)
  ]

  -- The report, if there is one, and then the frame.
  unfoldable pub write_media :
      ℕ → ℕ → Option (List ℕ) → FrameBuffer → RtspSession R → Option (RtspSession R)
  unfolding write_interleaved
  write_media rtcp_channel rtp_channel none f s = write_interleaved rtp_channel f s
  write_media rtcp_channel rtp_channel (some report) f s =
      elim (write_interleaved rtcp_channel (create report) s) [
        | none ↦ none
        | some s' ↦ write_interleaved rtp_channel f s'
      ]

  unfoldable pub channel_out : ℕ → Signal → RtspSession R → Option (RtspSession R)
  unfolding rtcp_step write_media
  channel_out now (failed ec) s = some (shutdown s)
  channel_out now (frame f) s =
      if media f == video
      then elim (rtcp_step (4 * 1024 * 1024) now f s.video_half) [
        | none ↦ none
        | some (m, report) ↦
            write_media rtcp_video_channel rtp_video_channel report f (record s { video_half = m })
      ]
      else if media f == audio
      then elim (rtcp_step (128 * 1024) now f s.audio_half) [
        | none ↦ none
        | some (m, report) ↦
            write_media rtcp_audio_channel rtp_audio_channel report f (record s { audio_half = m })
      ]
      else some s

  unfoldable pub on_rtcp : ℕ → List ℕ → RtspSession R → RtspSession R
  on_rtcp channel bytes s =
      if channel == rtcp_video_channel
      then elim (s.video_half.rtcp_ctx) [
        | none ↦ s
        | some r ↦ record s {
          video_half = record (s.video_half) { rtcp_ctx = some (lib.onreceived r bytes) };
        }
      ]
      else if channel == rtcp_audio_channel
      then elim (s.audio_half.rtcp_ctx) [
        | none ↦ s
        | some r ↦ record s {
          audio_half = record (s.audio_half) { rtcp_ctx = some (lib.onreceived r bytes) };
        }
      ]
      else s
