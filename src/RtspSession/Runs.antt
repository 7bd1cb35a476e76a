-- ===== src/RtspSession/Runs.antt =====
-- A concrete session, and the theorems at concrete inputs.
use simple_rtmp.Base.{ℕ, ◌+◌, ◌≡◌, inl, inr, refl, [], ◌∷◌, Option, none, some, true, Bool, arith}
use simple_rtmp.Base.Int.{pos}
use simple_rtmp.Codec.{video, audio}
use simple_rtmp.Frame.{FrameBuffer, fixed, new_frame, bytes_of, size, base}
use simple_rtmp.Rtsp.{on_describe, on_setup, on_play}
use simple_rtmp.Rtsp.Parser.{Text}
use simple_rtmp.Rtsp.Transports.{Transport}
use simple_rtmp.RtspSink.Track.{VideoTrack, AudioTrack, video_track, audio_track}
use simple_rtmp.RtspSession.{
  Rtcp, RtspSession, new_session, replied, tracks_asked, channel_added, describe_reply, setup_reply,
  play_reply,
}
use simple_rtmp.RtspSession.Requests.{video_track_id, audio_track_id, make_session_id, split}
use simple_rtmp.RtspSession.Events.{requested, tracks_told, run}
use simple_rtmp.RtspSession.Dialogue.{track_url, run-dialogue}
use simple_rtmp.RtspSession.Deliver.{Sends, channel_outs, channel_outs-Sends}

-- A library that counts the frames that were sent.
abbrev counting : Rtcp ℕ
counting = record {
  create_rtp = λ ssrc time rate bandwidth. 0;
  interval = λ r. 5;
  report = λ r. (r, 128 ∷ 200 ∷ r ∷ []);
  onsend = λ r bytes. r + 1;
  onreceived = λ r bytes. r;
}

abbrev vt : VideoTrack
vt = record { track_sps = 103 ∷ []; track_pps = 104 ∷ []; ssrc = 4084 }

abbrev at : AudioTrack
at = record { cfg = 18 ∷ 16 ∷ []; sample_rate = 44100; channels = 2; ssrc = 4083 }

-- rtsp://h/live/a
abbrev stream_url : Text
stream_url = 114 ∷ 116 ∷ 115 ∷ 112 ∷ 58 ∷ 47 ∷ 47 ∷ 104 ∷ 47 ∷ 108 ∷ 105 ∷ 118 ∷ 101 ∷ 47 ∷ 97 ∷ []

abbrev tcp : Transport
tcp = record {
  transport = 1;
  multicast = 0;
  client_port1 = 0;
  client_port2 = 0;
  interleaved1 = pos 0;
  interleaved2 = pos 1;
}

abbrev one_sink : Text → Option (ℕ × Bool)
one_sink id = some (9, true)

abbrev all_there : ℕ → Bool
all_there k = true

run-dialogue_example :
    (s : RtspSession ℕ) × (run counting one_sink all_there
        (requested (pos 2) (on_describe stream_url)
          ∷ tracks_told (pos 2) stream_url (some (video_track vt) ∷ some (audio_track at) ∷ [])
          ∷ requested (pos 3) (on_setup (track_url stream_url video_track_id) [] tcp)
          ∷ requested (pos 4) (on_setup (track_url stream_url audio_track_id) make_session_id tcp)
          ∷ requested (pos 5) (on_play stream_url make_session_id)
          ∷ [])
        new_session
      ≡ some s)
    × (s.outputs
        ≡ tracks_asked 9 stream_url
          ∷ replied (describe_reply (pos 2) stream_url (video_track vt ∷ audio_track at ∷ []))
          ∷ replied (setup_reply (pos 3) 0 1 4084 make_session_id)
          ∷ replied (setup_reply (pos 4) 2 3 4083 make_session_id)
          ∷ replied (play_reply (pos 5) make_session_id)
          ∷ channel_added 9
          ∷ [])
unfolding split
run-dialogue_example =
    run-dialogue counting one_sink all_there stream_url 9 vt at tcp tcp (pos 2) (pos 3) (pos 4)
      (pos 5) (omega arith) refl refl (refl, refl) (refl, refl)

abbrev playing : RtspSession ℕ
playing = record {
  session_id = make_session_id;
  sink = some 9;
  channel = true;
  conn = true;
  tracks = [];
  video_half = record { track = some (video_track vt); rtcp_ctx = none; rtcp_time = 0 };
  audio_half = record { track = some (audio_track at); rtcp_ctx = none; rtcp_time = 0 };
  outputs = [];
}

abbrev picture : FrameBuffer
picture = fixed (record (new_frame (128 ∷ 96 ∷ 7 ∷ [])) { media = video })

abbrev sound : FrameBuffer
sound = fixed (record (new_frame (128 ∷ 98 ∷ [])) { media = audio })

channel_outs-Sends_example :
    (s' : RtspSession ℕ) × (channel_outs counting
        ((1000, picture) ∷ (1001, sound) ∷ (1002, picture) ∷ [])
        playing
      ≡ some s')
    × Sends (picture ∷ sound ∷ picture ∷ []) playing s'
unfolding base bytes_of size
channel_outs-Sends_example =
    channel_outs-Sends counting (λ r. omega arith)
      ((1000, picture) ∷ (1001, sound) ∷ (1002, picture) ∷ []) playing refl
      (
        (inl (refl, (video_track vt, refl, omega arith)), (refl, omega arith)),
        (
          (inr (refl, (audio_track at, refl, omega arith)), (refl, omega arith)),
          ((inl (refl, (video_track vt, refl, omega arith)), (refl, omega arith)), tt),
        ),
      )
