-- ===== src/RtspSession/Requests.antt =====
-- The handlers of an RTSP session's requests and its end, rtsp_forward_session.cc. The caller does
-- not use what the handlers return. The texts of the answers are values that say what is in them; the
-- registry of sinks, and whether a sink is still there, are arguments.
use simple_rtmp.Base.{
  ℕ, List, [], ◌∷◌, ◌++◌, Bool, true, false, not, ◌&&◌, Option, none, some, length, drop, ltb,
  get_or, ◌-◌, is_empty, ◌==◌, if◌then◌else◌,
}
use simple_rtmp.Base.Int.{ℤ}
use simple_rtmp.Rtsp.Parser.{Text, same_text}
use simple_rtmp.Rtsp.Transports.{Transport}
use simple_rtmp.RtspSink.Track.{RtspTrack, video_track, audio_track}
use simple_rtmp.RtspSession.{
  options_reply, describe_reply, setup_reply, unsupported_reply, play_reply, teardown_reply,
  replied, channel_added, channel_deleted, tracks_asked, conn_shutdown, RtspSession, output,
  shutdown, on_conn, ssrc_of, rtp_video_channel, rtcp_video_channel, rtp_audio_channel,
  rtcp_audio_channel,
}

-- `track1`, `track2`, `rtsp_` and the only id that make_session_id makes, 0xff1fcc in decimals, as its
-- counter is not static.
abbrev pub video_track_id : Text
video_track_id = 116 ∷ 114 ∷ 97 ∷ 99 ∷ 107 ∷ 49 ∷ []

abbrev pub audio_track_id : Text
audio_track_id = 116 ∷ 114 ∷ 97 ∷ 99 ∷ 107 ∷ 50 ∷ []

abbrev pub rtsp_prefix : Text
rtsp_prefix = 114 ∷ 116 ∷ 115 ∷ 112 ∷ 95 ∷ []

abbrev pub make_session_id : Text
make_session_id = 49 ∷ 54 ∷ 55 ∷ 49 ∷ 57 ∷ 56 ∷ 50 ∷ 48 ∷ []

abbrev pub id_of : RtspTrack → Text
id_of (video_track t) = video_track_id
id_of (audio_track t) = audio_track_id

-- The pieces between slashes.
unfoldable pub split : Text → List Text
split [] = [] ∷ []
split (c ∷ text) =
    let rest = split text in
    if c == 47
    then [] ∷ rest
    else elim rest [ [] ↦ (c ∷ []) ∷ [] | piece ∷ pieces ↦ (c ∷ piece) ∷ pieces ]

abbrev pub ends_with : Text → Text → Bool
ends_with text suffix =
    not (ltb (length text) (length suffix))
    && same_text (drop (length text - length suffix) text) suffix

-- `rtsp_app_stream` of the last two pieces.
unfoldable pub sink_id : List Text → Text
sink_id pieces =
    rtsp_prefix
    ++ (get_or pieces (length pieces - 2) [] ++ 95 ∷ get_or pieces (length pieces - 1) [])

-- `tracks_`: a later entry of the same id takes the place of an earlier one.
unfoldable pub put : Text → RtspTrack → List (Text × RtspTrack) → List (Text × RtspTrack)
put id t [] = (id, t) ∷ []
put id t ((key, old) ∷ rest) =
    let later = put id t rest in if same_text key id then (key, t) ∷ rest else (key, old) ∷ later

unfoldable pub find_track : Text → List (Text × RtspTrack) → Option RtspTrack
find_track id [] = none
find_track id ((key, t) ∷ rest) =
    let later = find_track id rest in if same_text key id then some t else later

unfoldable pub put_all :
    Text → List (Option RtspTrack) → List (Text × RtspTrack) → List (Text × RtspTrack)
unfolding put
put_all url [] entries = entries
put_all url (none ∷ tracks) entries = put_all url tracks entries
put_all url (some t ∷ tracks) entries = put_all url tracks (put (url ++ 47 ∷ id_of t) t entries)

unfoldable pub present : List (Option RtspTrack) → List RtspTrack
present [] = []
present (none ∷ tracks) = present tracks
present (some t ∷ tracks) = t ∷ present tracks

module _ {R : Type 0} where
  -- `sink_.lock()`.
  unfoldable pub lock : (ℕ → Bool) → RtspSession R → Option ℕ
  lock alive s = elim s.sink [ none ↦ none | some k ↦ if alive k then some k else none ]

module _ {R : Type 0} (seq : ℤ) where
  unfoldable pub options_request : RtspSession R → Option (RtspSession R)
  options_request s = on_conn (replied (options_reply seq)) s

  -- `get` is sink::get, with whether the sink is an RTSP sink.
  unfoldable pub describe_request :
      (Text → Option (ℕ × Bool)) → Text → RtspSession R → Option (RtspSession R)
  unfolding split sink_id
  describe_request get url s =
      if ltb (length (split url)) 5 then some (shutdown s) else elim (get (sink_id (split url))) [
        | none ↦ some (shutdown s)
        | some (k, false) ↦ some (shutdown s)
        | some (k, true) ↦ some (record (output (tracks_asked k url) s) { sink = some k })
      ]

  -- The sink's answer to the question for its tracks.
  unfoldable pub on_track : Text → List (Option RtspTrack) → RtspSession R → Option (RtspSession R)
  unfolding put_all present
  on_track url tracks s =
      on_conn (replied (describe_reply seq url (present tracks)))
        (record s { tracks = put_all url tracks s.tracks })

  -- The track of the medium that the URL names; `none` where it names none.
  unfoldable pub set_track : Text → RtspTrack → RtspSession R → Option (RtspSession R)
  set_track url t s =
      if ends_with url video_track_id
      then some (record s { video_half = record (s.video_half) { track = some t } })
      else if ends_with url audio_track_id
      then some (record s { audio_half = record (s.audio_half) { track = some t } })
      else none

  -- The answer to a setup, with a session id from the first one on.
  unfoldable pub accept_setup : Text → RtspTrack → RtspSession R → Option (RtspSession R)
  accept_setup url t s =
      let id = if is_empty s.session_id then make_session_id else s.session_id in
      let reply =
        if ends_with url video_track_id
        then setup_reply seq rtp_video_channel rtcp_video_channel (ssrc_of t) id
        else setup_reply seq rtp_audio_channel rtcp_audio_channel (ssrc_of t) id in
      on_conn (replied reply) (record s { session_id = id })

  -- Multicast and UDP are refused; after UDP the session goes on.
  unfoldable pub setup_request : Text → Transport → RtspSession R → Option (RtspSession R)
  unfolding find_track set_track accept_setup
  setup_request url transport s = elim (find_track url s.tracks) [
    | none ↦ some (shutdown s)
    | some t ↦ elim (set_track url t s) [
      | none ↦ some (shutdown s)
      | some s' ↦
          if not (transport.multicast == 0)
          then elim (on_conn (replied (unsupported_reply seq)) s') [
            | none ↦ none
            | some s'' ↦ some (shutdown s'')
          ]
          else if transport.transport == 0
          then on_conn (replied (unsupported_reply seq)) s'
          else accept_setup url t s'
    ]
  ]

  unfoldable pub play_request : (ℕ → Bool) → Text → RtspSession R → Option (RtspSession R)
  unfolding lock
  play_request alive session s =
      if same_text session s.session_id
      then elim (lock alive s) [
        | none ↦ some (shutdown s)
        | some k ↦ elim (on_conn (replied (play_reply seq s.session_id)) s) [
          | none ↦ none
          | some s' ↦ some (output (channel_added k) s')
        ]
      ]
      else some (shutdown s)

  unfoldable pub teardown_request : (ℕ → Bool) → RtspSession R → Option (RtspSession R)
  unfolding lock
  teardown_request alive s = elim (lock alive s) [
    | none ↦ some (shutdown s)
    | some k ↦ elim (on_conn (replied (teardown_reply seq)) s) [
      | none ↦ none
      | some s' ↦ some (record (output (channel_deleted k) s') { sink = none })
    ]
  ]

module _ {R : Type 0} where
  -- A read that failed, bytes that could not be parsed, and a write that failed end the session.
  unfoldable pub on_read : Bool → RtspSession R → RtspSession R
  on_read ok s = if ok then s else shutdown s

  unfoldable pub on_write : Bool → RtspSession R → RtspSession R
  on_write ok s = if ok then s else shutdown s

  -- What shutdown posts.
  unfoldable pub safe_shutdown : (ℕ → Bool) → RtspSession R → RtspSession R
  unfolding lock
  safe_shutdown alive s =
      let s' : RtspSession R = elim (lock alive s) [
        | none ↦ s
        | some k ↦ output (channel_deleted k) s
      ] in
      let s'' : RtspSession R = record s' { channel = false } in
      if s''.conn then record (output conn_shutdown s'') { conn = false } else s''
