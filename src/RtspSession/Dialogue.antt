-- ===== src/RtspSession/Dialogue.antt =====
-- The dialogue that begins a stream, rtsp_forward_session.cc.
use simple_rtmp.Base.{
  ℕ, ◌-◌, ◌≤◌, ◌≡◌, refl, sym, ap, ◌∙◌, List, [], ◌∷◌, ◌++◌, append_assoc, Bool, true, Option, some,
  length, drop, arith, length-append, drop-length_append,
}
use simple_rtmp.Base.Int.{ℤ}
use simple_rtmp.Rtsp.{on_describe, on_setup, on_play}
use simple_rtmp.Rtsp.Parser.{Text, same_text}
use simple_rtmp.Rtsp.Transports.{Transport}
use simple_rtmp.RtspSink.Track.{RtspTrack, VideoTrack, AudioTrack, video_track, audio_track}
use simple_rtmp.RtspSession.{
  Rtcp, describe_reply, setup_reply, play_reply, replied, channel_added, tracks_asked, RtspSession,
  new_session,
}
use simple_rtmp.RtspSession.Events.{Event, requested, tracks_told, handle, step, run}
use simple_rtmp.RtspSession.Requests.{
  video_track_id, audio_track_id, make_session_id, split, sink_id, ends_with, put, put_all, present,
  find_track, describe_request, on_track, set_track, accept_setup, setup_request, lock,
  play_request,
}

same_text_refl : (xs : Text) → same_text xs xs ≡ true
same_text_refl [] = refl
same_text_refl (x ∷ xs) = ground (arith, same_text_refl xs)

-- The URL of a track.
abbrev pub track_url : Text → Text → Text
track_url url id = url ++ 47 ∷ id

same-track : (url a b : Text) → same_text (track_url url a) (track_url url b) ≡ same_text a b
same-track [] a b = ground arith
same-track (x ∷ url) a b = ground (arith, same-track url a b)

drop-track : (url id : Text) → drop (length (track_url url id) - length id) (track_url url id) ≡ id
drop-track url id =
    let lengths : length (track_url url id) - length id ≡ length (url ++ 47 ∷ []) =
      omega (arith, length-append url (47 ∷ id), length-append url (47 ∷ [])) in
    ap (λ n. drop n (track_url url id)) lengths
    ∙ ap (drop (length (url ++ 47 ∷ []))) (sym (append_assoc url (47 ∷ []) id))
    ∙ drop-length_append (url ++ 47 ∷ []) id

ends_with-track :
    (url id suffix : Text)
    → length id ≡ length suffix
    → ends_with (track_url url id) suffix ≡ same_text id suffix
ends_with-track url id suffix e =
    let long : length suffix ≤ length (track_url url id) =
      omega (arith, length-append url (47 ∷ id)) in
    let dropped =
      ap (λ n. drop (length (track_url url id) - n) (track_url url id)) (sym e)
      ∙ drop-track url id in
    ground (arith, long, dropped)

-- The tracks that a session knows under a URL.
abbrev pub both : Text → VideoTrack → AudioTrack → List (Text × RtspTrack)
both url vt at =
    (track_url url video_track_id, video_track vt)
    ∷ (track_url url audio_track_id, audio_track at)
    ∷ []

put_all-both :
    (url : Text) (vt : VideoTrack) (at : AudioTrack)
    → put_all url (some (video_track vt) ∷ some (audio_track at) ∷ []) [] ≡ both url vt at
unfolding put_all put
put_all-both url vt at = ground (arith, same-track url video_track_id audio_track_id)

find_track-video :
    (url : Text) (vt : VideoTrack) (at : AudioTrack)
    → find_track (track_url url video_track_id) (both url vt at) ≡ some (video_track vt)
unfolding find_track
find_track-video url vt at = ground (arith, same-track url video_track_id video_track_id)

find_track-audio :
    (url : Text) (vt : VideoTrack) (at : AudioTrack)
    → find_track (track_url url audio_track_id) (both url vt at) ≡ some (audio_track at)
unfolding find_track
find_track-audio url vt at = ground (
  arith,
  same-track url video_track_id audio_track_id,
  same-track url audio_track_id audio_track_id,
)

abbrev pub IsTcp : Transport → Type 0
IsTcp t = (t.multicast ≡ 0) × (t.transport ≡ 1)

module _ {R : Type 0} where
  setup-video :
      (seq : ℤ) (url : Text) (t : Transport) (vt : VideoTrack) (at : AudioTrack) (s : RtspSession R)
      → s.tracks ≡ both url vt at
      → s.conn ≡ true
      → s.session_id ≡ []
      → IsTcp t
      → setup_request seq (track_url url video_track_id) t s
        ≡ some (record s {
          session_id = make_session_id;
          video_half = record (s.video_half) { track = some (video_track vt) };
          outputs = s.outputs ++ replied (setup_reply seq 0 1 vt.ssrc make_session_id) ∷ [];
        })
  unfolding setup_request set_track accept_setup
  setup-video seq url t vt at s known is_open first (unicast, tcp) = ground (
    arith,
    ap (find_track (track_url url video_track_id)) known ∙ find_track-video url vt at,
    ends_with-track url video_track_id video_track_id refl,
    is_open,
    first,
    unicast,
    tcp,
  )

  setup-audio :
      (seq : ℤ) (url : Text) (t : Transport) (vt : VideoTrack) (at : AudioTrack) (s : RtspSession R)
      → s.tracks ≡ both url vt at
      → s.conn ≡ true
      → s.session_id ≡ make_session_id
      → IsTcp t
      → setup_request seq (track_url url audio_track_id) t s
        ≡ some (record s {
          audio_half = record (s.audio_half) { track = some (audio_track at) };
          outputs = s.outputs ++ replied (setup_reply seq 2 3 at.ssrc make_session_id) ∷ [];
        })
  unfolding setup_request set_track accept_setup
  setup-audio seq url t vt at s known is_open first (unicast, tcp) = ground (
    arith,
    ap (find_track (track_url url audio_track_id)) known ∙ find_track-audio url vt at,
    ends_with-track url audio_track_id video_track_id refl,
    ends_with-track url audio_track_id audio_track_id refl,
    is_open,
    first,
    unicast,
    tcp,
  )

module _ {R : Type 0} (lib : Rtcp R) (get : Text → Option (ℕ × Bool)) (alive : ℕ → Bool) where
  run-cons :
      (event : Event) (events : List Event) (s s' : RtspSession R)
      → step lib get alive event s ≡ some s'
      → run lib get alive (event ∷ events) s ≡ run lib get alive events s'
  unfolding run
  run-cons event events s s' q = ground (arith, q)

  -- A new session that is asked for a stream whose RTSP sink is there, told of a video and an audio
  -- track, and asked for both over TCP and to play with the session's id, answers each request in turn
  -- and is then a channel of that sink; it does not fault, and nothing else goes out.
  pub run-dialogue :
      (url : Text) (k : ℕ) (vt : VideoTrack) (at : AudioTrack) (tv ta : Transport) (n1 n2 n3 n4 : ℤ)
      → 5 ≤ length (split url)
      → get (sink_id (split url)) ≡ some (k, true)
      → alive k ≡ true
      → IsTcp tv
      → IsTcp ta
      → (s : RtspSession R) × (run lib get alive
            (requested n1 (on_describe url)
              ∷ tracks_told n1 url (some (video_track vt) ∷ some (audio_track at) ∷ [])
              ∷ requested n2 (on_setup (track_url url video_track_id) [] tv)
              ∷ requested n3 (on_setup (track_url url audio_track_id) make_session_id ta)
              ∷ requested n4 (on_play url make_session_id)
              ∷ [])
            new_session
          ≡ some s)
        × (s.outputs
            ≡ tracks_asked k url
              ∷ replied (describe_reply n1 url (video_track vt ∷ audio_track at ∷ []))
              ∷ replied (setup_reply n2 0 1 vt.ssrc make_session_id)
              ∷ replied (setup_reply n3 2 3 at.ssrc make_session_id)
              ∷ replied (play_reply n4 make_session_id)
              ∷ channel_added k
              ∷ [])
  unfolding run step handle describe_request on_track play_request lock new_session present
  run-dialogue url k vt at tv ta n1 n2 n3 n4 long found living tcp_v tcp_a =
      let s2 : RtspSession R = record new_session {
        sink = some k;
        tracks = both url vt at;
        outputs =
            tracks_asked k url
            ∷ replied (describe_reply n1 url (video_track vt ∷ audio_track at ∷ []))
            ∷ [];
      } in
      let s3 : RtspSession R = record s2 {
        session_id = make_session_id;
        video_half = record (s2.video_half) { track = some (video_track vt) };
        outputs = s2.outputs ++ replied (setup_reply n2 0 1 vt.ssrc make_session_id) ∷ [];
      } in
      let step3 = setup-video n2 url tv vt at s2 refl refl refl tcp_v in
      let step4 = setup-audio n3 url ta vt at s3 refl refl refl tcp_a in
      let s1 : RtspSession R = record new_session {
        sink = some k;
        outputs = tracks_asked k url ∷ [];
      } in
      let s4 : RtspSession R = record s3 {
        audio_half = record (s3.audio_half) { track = some (audio_track at) };
        outputs = s3.outputs ++ replied (setup_reply n3 2 3 at.ssrc make_session_id) ∷ [];
      } in
      let s5 : RtspSession R = record s4 {
        outputs =
            (s4.outputs ++ replied (play_reply n4 make_session_id) ∷ []) ++ channel_added k ∷ [];
      } in
      let e1 = requested n1 (on_describe url) in
      let e2 = tracks_told n1 url (some (video_track vt) ∷ some (audio_track at) ∷ []) in
      let e3 = requested n2 (on_setup (track_url url video_track_id) [] tv) in
      let e4 = requested n3 (on_setup (track_url url audio_track_id) make_session_id ta) in
      let e5 = requested n4 (on_play url make_session_id) in
      let step1 : step lib get alive (requested n1 (on_describe url)) new_session ≡ some s1 =
        ground (arith, long, found) in
      let step2 : step lib get alive
            (tracks_told n1 url (some (video_track vt) ∷ some (audio_track at) ∷ [])) s1
          ≡ some s2 =
        ground (arith, put_all-both url vt at) in
      let step5 : step lib get alive (requested n4 (on_play url make_session_id)) s4 ≡ some s5 =
        ground (arith, living, same_text_refl make_session_id) in
      (
        s5,
        run-cons e1 (e2 ∷ e3 ∷ e4 ∷ e5 ∷ []) new_session s1 step1
            ∙ run-cons e2 (e3 ∷ e4 ∷ e5 ∷ []) s1 s2 step2
            ∙ run-cons e3 (e4 ∷ e5 ∷ []) s2 s3 step3
            ∙ run-cons e4 (e5 ∷ []) s3 s4 step4
            ∙ run-cons e5 [] s4 s5 step5,
        refl,
      )
