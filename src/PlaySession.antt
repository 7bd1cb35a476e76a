-- ===== src/PlaySession.antt =====
-- The session of an RTMP player, rtmp_forward_session.h and rtmp_forward_session.cc, with its server
-- context in its state. Text is a list of bytes. `none` is a fault of the context, or a null pointer
-- that is used; a channel that is reset and then added to a sink is taken as one.
-- The media-server library calls the handlers for the commands that it reads, so a play is an operation
-- of its own, and the bytes of a read go to the context as they are.
pub mod Init
pub mod Message
pub mod Deliver
pub mod Late
pub mod Ready
pub mod Notices
pub mod Answer
pub mod Play
mod Runs
use simple_rtmp.Base.{
  ℕ, List, [], ◌∷◌, ◌++◌, map, Bool, true, false, Option, none, some, ◌==◌, if◌then◌else◌,
}
use simple_rtmp.Base.Int.{ℤ, pos, ◌==ℤ◌}
use simple_rtmp.Codec.{script, video, audio}
use simple_rtmp.Frame.{FrameBuffer, size, media}
use simple_rtmp.Sink.{Signal, frame, failed}
use simple_rtmp.Rtsp.Parser.{Text}
use simple_rtmp.FlvSession.{rtmp_prefix}
use simple_rtmp.Server.{Context, Library, Handler, M}
use simple_rtmp.Server.Messages.{
  rtmp_server_send_video, rtmp_server_send_audio, rtmp_server_send_script,
}
use simple_rtmp.Server.Input.{rtmp_server_input}
use simple_rtmp.Server.Handlers as Handlers

-- What the session does outside.
pub data Output : Type 0 where
  written : FrameBuffer → Output
  channel_added : ℕ → Output
  channel_deleted : ℕ → Output
  shutdown_posted : Output
  conn_started : Output
  conn_shutdown : Output

pub record PlaySession : Type 0 where
  pub app : Text
  pub stream : Text
  pub stream_id : Text
  pub sink : Option ℕ
  pub channel : Bool
  pub conn : Bool
  pub ctx : Context
  pub outputs : List Output

abbrev pub output : Output → PlaySession → PlaySession
output o s = record s { outputs = s.outputs ++ o ∷ [] }

-- The context is made with the handlers, and is there until the session is destroyed.
unfoldable pub start : Context → PlaySession
start c = record {
  app = [];
  stream = [];
  stream_id = [];
  sink = none;
  channel = true;
  conn = true;
  ctx = c;
  outputs = conn_started ∷ [];
}

abbrev pub shutdown : PlaySession → PlaySession
shutdown s = output shutdown_posted s

unfoldable pub on_write : Bool → PlaySession → PlaySession
on_write ok s = if ok then s else shutdown s

-- What shutdown posts. `alive` says which sinks are still there.
unfoldable pub leave_sink : (ℕ → Bool) → PlaySession → PlaySession
leave_sink alive s = elim s.sink [
  | none ↦ s
  | some k ↦ if alive k then output (channel_deleted k) s else s
]

unfoldable pub safe_shutdown : (ℕ → Bool) → PlaySession → PlaySession
unfolding leave_sink
safe_shutdown alive s =
    let left = record (leave_sink alive s) { channel = false } in
    if s.conn then record (output conn_shutdown left) { conn = false } else left

-- The handlers. Of what they do to the session, send's part is in `with_context`, and onplay's in
-- `rtmp_server_onplay`. `half_an_hour` is the double 30 * 60.
unfoldable pub rtmp_server_send : FrameBuffer → ℤ
rtmp_server_send f = pos (size f)

abbrev pub rtmp_server_onpause : ℕ → ℕ → ℤ
rtmp_server_onpause pause ms = pos 0

abbrev pub rtmp_server_onseek : ℕ → ℤ
rtmp_server_onseek ms = pos 0

abbrev pub rtmp_server_ongetduration : ℕ → Text → Text → ℤ × ℕ
rtmp_server_ongetduration half_an_hour app name = (pos 0, half_an_hour)

abbrev pub handlers : ℕ → Handler
handlers half_an_hour = record {
  send = some rtmp_server_send;
  onplay = some (λ app name begin duration reset c. some (pos 0, c));
  onpause = some rtmp_server_onpause;
  onseek = some rtmp_server_onseek;
  onpublish = none;
  onvideo = none;
  onaudio = none;
  onscript = none;
  ongetduration = some (rtmp_server_ongetduration half_an_hour);
}

-- The frames that the context gave to send go to the connection, if there is one.
unfoldable pub write_frames : List FrameBuffer → PlaySession → PlaySession
write_frames fs s = if s.conn then record s { outputs = s.outputs ++ map written fs } else s

unfoldable pub with_context : M ℤ → PlaySession → Option PlaySession
unfolding write_frames
with_context m s = elim (m (record (s.ctx) { sent = [] })) [
  | none ↦ none
  | some (r, c) ↦ some (write_frames c.sent (record s { ctx = c }))
]

-- `get` is the registry. The result is 0 on both branches.
unfoldable pub rtmp_server_onplay :
    (Text → Option ℕ) → Text → Text → PlaySession → Option PlaySession
rtmp_server_onplay get app name s =
    let id = rtmp_prefix ++ (app ++ 95 ∷ name) in
    elim (get id) [
      | none ↦ some (shutdown s)
      | some k ↦
          if s.channel
          then some (record (output (channel_added k) s) {
            sink = some k;
            stream_id = id;
            app = app;
            stream = name;
          })
          else none
    ]

module _ (lib : Library) (half_an_hour : ℕ) where
  unfoldable pub send_media : FrameBuffer → M ℤ
  send_media f c =
      if media f == video
      then rtmp_server_send_video lib (handlers half_an_hour) f c
      else if media f == audio
      then rtmp_server_send_audio lib (handlers half_an_hour) f c
      else if media f == script
      then rtmp_server_send_script lib (handlers half_an_hour) f c
      else some (pos 0, c)

  unfoldable pub channel_out : Signal → PlaySession → Option PlaySession
  unfolding with_context send_media
  channel_out (failed ec) s = some (shutdown s)
  channel_out (frame f) s = with_context (send_media f) s

  unfoldable pub channel_outs : List Signal → PlaySession → Option PlaySession
  unfolding channel_out
  channel_outs [] s = some s
  channel_outs (signal ∷ signals) s = elim (channel_out signal s) [
    | none ↦ none
    | some s' ↦ channel_outs signals s'
  ]

  -- `none` is a read that failed.
  unfoldable pub on_read : Option (List ℕ) → PlaySession → Option PlaySession
  unfolding with_context
  on_read none s = some (shutdown s)
  on_read (some bytes) s = with_context (rtmp_server_input lib (handlers half_an_hour) bytes) s

  -- The library's call of onplay, with the result of what it read before.
  unfoldable pub play_command :
      (Text → Option ℕ) → ℤ → ℕ → Option Text → ℕ → ℕ → ℕ → PlaySession → Option PlaySession
  unfolding with_context rtmp_server_onplay
  play_command get r transaction name begin duration reset s =
      let answer : PlaySession → Option PlaySession = with_context (
        Handlers.rtmp_server_onplay lib (handlers half_an_hour) r transaction name begin duration
          reset) in
      if r ==ℤ pos 0
      then elim name [
        | none ↦ none
        | some n ↦ elim (rtmp_server_onplay get s.ctx.app n s) [ none ↦ none | some s' ↦ answer s' ]
      ]
      else answer s
