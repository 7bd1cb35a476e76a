-- ===== src/PlaySession/Runs.antt =====
-- A new session with a small library, and the theorems at it.
use simple_rtmp.Base.{ℕ, ◌≡◌, refl, List, [], ◌∷◌, ◌++◌, map, none, some, arith, set}
use simple_rtmp.Base.Int.{pos}
use simple_rtmp.Codec.{video, audio}
use simple_rtmp.Frame.{FrameBuffer, fixed, new_frame, create, create_ref, size, bytes_of, base}
use simple_rtmp.Sink.{frame}
use simple_rtmp.Chunk.{
  Header, Packet, rtmp_chunk_write_help, rtmp_chunk_header_zip_help, write_zipped, write_loop,
}
use simple_rtmp.Chunk.Receiver.{message_of}
use simple_rtmp.Chunk.Stream.{silent, hear_all, InTune}
use simple_rtmp.Server.{Context, no_start}
use simple_rtmp.Server.Example.{small_library}
use simple_rtmp.Server.Messages.{
  rtmp_server_send, send, rtmp_server_send_video, rtmp_server_send_audio,
}
use simple_rtmp.Server.Connect.{Writes}
use simple_rtmp.PlaySession.{
  PlaySession, start, channel_outs, play_command, written, shutdown_posted, conn_started, handlers,
}
use simple_rtmp.PlaySession as Session
use simple_rtmp.PlaySession.Init.{Sizes, init}
use simple_rtmp.PlaySession.Message.{IsNumbered, Sending, AreMessages, all_sent, headers, header_of}
use simple_rtmp.PlaySession.Late.{late_frames, channel_outs-relay}
use simple_rtmp.RtmpEncoder.Tags.{kept_all}
use simple_rtmp.RtmpEncoder.H264 as H264
use simple_rtmp.RtmpEncoder.Example.{
  two_kinds, slices_of, slice, is_converted, is_first, machine, relayed,
}
use simple_rtmp.Sink.Rtmp.Join.{received}
use simple_rtmp.PlaySession.Deliver.{channel_outs-heard}
use simple_rtmp.PlaySession.Ready.{init_ready}
use simple_rtmp.PlaySession.Notices.{invoke, sample_header}
use simple_rtmp.PlaySession.Play.{play_command-answers}

abbrev small_sizes : Sizes
small_sizes = record { n_chunk_stream = 8; chunk_size = 2; channel_protocol = 2; channel_data = 6 }

abbrev numbered : IsNumbered small_library
numbered = record { invoke = omega arith; audio = omega arith; video = omega arith }

init_ready_example :
    Sending small_library (init small_sizes small_library)
    × InTune (init small_sizes small_library).out_packets (λ _. silent)
init_ready_example =
    init_ready small_sizes small_library (omega arith) (omega arith) (omega arith) (omega arith)

unfoldable new_session : PlaySession
unfolding start
new_session = start (init small_sizes small_library)

abbrev picture : FrameBuffer
picture = fixed (record (new_frame (23 ∷ 1 ∷ 7 ∷ [])) { media = video; pts = pos 40 })

abbrev sound : FrameBuffer
sound = fixed (record (new_frame (175 ∷ 1 ∷ [])) { media = audio; pts = pos 50 })

-- Three bytes in two chunks, and two in one.
frames_run :
    elim (channel_outs small_library 1800 (frame picture ∷ frame sound ∷ []) new_session) [
      | none ↦ []
      | some s ↦ map (λ o. elim o [ written f ↦ bytes_of f | _ ↦ [] ]) s.outputs
    ]
    ≡ [] ∷ (5 ∷ 3 ∷ []) ∷ (23 ∷ 1 ∷ []) ∷ (5 ∷ []) ∷ (7 ∷ []) ∷ (4 ∷ 2 ∷ []) ∷ (175 ∷ 1 ∷ []) ∷ []
unfolding channel_outs new_session init size bytes_of base start rtmp_server_send_video
    rtmp_server_send_audio rtmp_chunk_write_help rtmp_chunk_header_zip_help write_zipped write_loop
frames_run = refl

channel_outs-heard_example :
    (s' : PlaySession) × (ms : List (Header × List FrameBuffer)) × (channel_outs small_library 1800
        (frame picture ∷ frame sound ∷ [])
        new_session
      ≡ some s')
    × (s'.outputs ≡ conn_started ∷ map written (all_sent ms))
    × AreMessages small_library.writers 2 (picture ∷ sound ∷ []) ms
    × (hear_all (λ _. silent) (headers ms)
        ≡ map message_of (header_of small_library 0 picture ∷ header_of small_library 0 sound ∷ []))
unfolding new_session init size base bytes_of start
channel_outs-heard_example =
    channel_outs-heard small_library numbered 1800 (picture ∷ sound ∷ []) new_session (λ _. silent)
      (omega arith)
      (init_ready small_sizes small_library (omega arith) (omega arith) (omega arith)
        (omega arith)).0
      refl
      (init_ready small_sizes small_library (omega arith) (omega arith) (omega arith)
        (omega arith)).1

small_library-succeeds :
    (m : Header) (payload : List ℕ) (c : Context)
    → rtmp_server_send small_library (handlers 1800) (m.cid ∷ []) payload c
      ≡ some (pos 0, record c { sent = c.sent ++ create (m.cid ∷ payload) ∷ [] })
unfolding rtmp_server_send send size Session.rtmp_server_send
small_library-succeeds m payload c = ground arith

abbrev small_writes : Writes
small_writes = record {
  message = λ m payload c. create (m.cid ∷ payload) ∷ [];
  table = λ m payload c. c.out_packets;
}

abbrev sample_sent : List FrameBuffer
sample_sent = create (3 ∷ 2 ∷ []) ∷ create_ref 0 2 (create (7 ∷ 7 ∷ [])) ∷ []

abbrev table_left : List Packet
unfolding init
table_left =
    set (init small_sizes small_library).out_packets 3
      (record { header = sample_header small_library 0; clock = 0 })

-- A play of a stream that is not there, with a reset.
play_command-answers_example :
    (s' : PlaySession) × (play_command small_library 1800
        (λ id. none)
        (pos 0)
        5
        (some (120 ∷ []))
        0
        0
        1
        new_session
      ≡ some s')
    × (s'.outputs
        ≡ conn_started
          ∷ shutdown_posted
          ∷ written (create (0 ∷ 0 ∷ []))
          ∷ written (create (3 ∷ 5 ∷ []))
          ∷ written (create (3 ∷ 5 ∷ []))
          ∷ written (create (4 ∷ 0 ∷ []))
          ∷ map written sample_sent)
    × (s'.sink ≡ none)
    × (s'.ctx.play ≡ no_start)
unfolding new_session init start rtmp_chunk_header_zip_help write_zipped write_loop
play_command-answers_example =
    play_command-answers small_library 1800 small_writes (λ id. none) 5 (120 ∷ []) 0 0 1 new_session
      sample_sent table_left refl refl
      (
        small_library-succeeds (invoke small_library 0 (5 ∷ [])) (5 ∷ []) _,
        (small_library-succeeds (invoke small_library 0 (5 ∷ [])) (5 ∷ []) _, tt),
      )
      (unfold rtmp_chunk_write_help in refl)

-- A channel that comes after four frames and before a fifth.
channel_outs-relay_example :
    let frames =
      late_frames two_kinds 3 0 slices_of bytes_of
        (slice 4 7)
        (slice 3 8 ∷ slice 0 9 ∷ slice 2 4 ∷ [])
        (slice 2 6 ∷ [])
        (100 ∷ 31 ∷ []) in
    (s' : PlaySession) × (ms : List (Header × List FrameBuffer)) × (channel_outs small_library 1800
        (received 5 relayed.sent)
        new_session
      ≡ some s')
    × (s'.outputs ≡ conn_started ∷ map written (all_sent ms))
    × AreMessages small_library.writers 2 frames ms
    × (hear_all (λ _. silent) (headers ms)
        ≡ map message_of (map (header_of small_library 0) frames))
unfolding new_session init start bytes_of base size kept_all H264.new_encoder
channel_outs-relay_example =
    channel_outs-relay two_kinds 3 0 slices_of bytes_of (λ e. e) (H264.new_encoder two_kinds)
      machine small_library numbered 1800 (slice 4 7) (slice 3 8 ∷ slice 0 9 ∷ slice 2 4 ∷ [])
      (slice 2 6 ∷ []) (100 ∷ 31 ∷ []) 5 new_session (λ _. silent) (λ e e' s q. ground (arith, q))
      (is_converted _ 4 7) is_first
      (is_converted _ 3 8, refl, (is_converted _ 0 9, refl, (is_converted _ 2 4, refl, tt)))
      (is_converted _ 2 6, refl, tt) (refl, (refl, (refl, (refl, tt)))) (refl, tt) (omega arith)
      (omega arith, (omega arith, (omega arith, (omega arith, tt)))) (omega arith, tt)
      (init_ready small_sizes small_library (omega arith) (omega arith) (omega arith)
        (omega arith)).0
      refl
      (init_ready small_sizes small_library (omega arith) (omega arith) (omega arith)
        (omega arith)).1
