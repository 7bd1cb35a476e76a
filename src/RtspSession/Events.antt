-- ===== src/RtspSession/Events.antt =====
-- The events of an RTSP session, in any order: its handlers as start of rtsp_forward_session.cc sets
-- them, the sink's answer, its channel, its connection and its executor.
use simple_rtmp.Base.{ℕ, List, [], ◌∷◌, Bool, Option, none, some}
use simple_rtmp.Base.Int.{ℤ}
use simple_rtmp.Sink.{Signal}
use simple_rtmp.Rtsp.{Call, on_options, on_describe, on_setup, on_play, on_teardown, on_rtcp}
use simple_rtmp.Rtsp.Parser.{Text}
use simple_rtmp.RtspSink.Track.{RtspTrack}
use simple_rtmp.RtspSession as Session
use simple_rtmp.RtspSession.{
  Rtcp, Reply, describe_reply, setup_reply, play_reply, Output, replied, channel_added,
  tracks_asked, RtspSession, new_session, channel_out, ssrc_of,
}
use simple_rtmp.RtspSession.Requests.{
  options_request, describe_request, on_track, setup_request, play_request, teardown_request,
  on_read, on_write, safe_shutdown,
}

-- What happens to a session: a request with the number of its sequence, the sink's answer, a signal on
-- its channel at a time, the end of a read and of a write, and the turn of a posted shutdown.
pub data Event : Type 0 where
  requested : ℤ → Call → Event
  tracks_told : ℤ → Text → List (Option RtspTrack) → Event
  channel_wrote : ℕ → Signal → Event
  read_done : Bool → Event
  write_done : Bool → Event
  shutdown_runs : Event

module _ {R : Type 0} (lib : Rtcp R) (get : Text → Option (ℕ × Bool)) (alive : ℕ → Bool) where
  -- The handlers as `start` sets them.
  unfoldable pub handle : ℤ → Call → RtspSession R → Option (RtspSession R)
  unfolding options_request describe_request setup_request play_request teardown_request
  handle seq (on_options url) s = options_request seq s
  handle seq (on_describe url) s = describe_request seq get url s
  handle seq (on_setup url session transport) s = setup_request seq url transport s
  handle seq (on_play url session) s = play_request seq alive session s
  handle seq (on_teardown url session) s = teardown_request seq alive s
  handle seq (on_rtcp channel bytes) s = some (Session.on_rtcp lib channel bytes s)

  unfoldable pub step : Event → RtspSession R → Option (RtspSession R)
  unfolding handle on_track channel_out on_read on_write safe_shutdown
  step (requested seq call) s = handle seq call s
  step (tracks_told seq url tracks) s = on_track seq url tracks s
  step (channel_wrote now signal) s = channel_out lib now signal s
  step (read_done ok) s = some (on_read ok s)
  step (write_done ok) s = some (on_write ok s)
  step shutdown_runs s = some (safe_shutdown alive s)

  unfoldable pub run : List Event → RtspSession R → Option (RtspSession R)
  unfolding step
  run [] s = some s
  run (event ∷ events) s = elim (step event s) [ none ↦ none | some s' ↦ run events s' ]
