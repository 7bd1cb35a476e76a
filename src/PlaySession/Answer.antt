-- ===== src/PlaySession/Answer.antt =====
-- How a play is answered, step by step: rtmp_server_onplay and rtmp_server_start of
-- rtmp_server_context.cc.
use simple_rtmp.Base.{
  ℕ, ◌≡◌, refl, sym, ap, subst, ◌∙◌, List, [], ◌∷◌, ◌++◌, map, true, false, none, some,
  append_assoc, ◌==◌, arith, Bool-cases, inl, inr, append-nil,
}
use simple_rtmp.Base.Int.{pos}
use simple_rtmp.Frame.{FrameBuffer, create}
use simple_rtmp.Chunk.{Packet, rtmp_chunk_write_help}
use simple_rtmp.Rtsp.Parser.{Text}
use simple_rtmp.Server.{Context, Library, no_start}
use simple_rtmp.Server.Messages.{rtmp_server_send_stream_is_record, rtmp_server_rtmp_sample_access}
use simple_rtmp.Server.Start.{begin_play, finish_play, start_play, rtmp_server_start}
use simple_rtmp.Server.Handlers as Handlers
use simple_rtmp.Server.Handlers.{print_name}
use simple_rtmp.Server.Connect.{Writes, Succeeds, after_write, send_bytes-accepted}
use simple_rtmp.PlaySession.{written, PlaySession, handlers, write_frames, with_context}
use simple_rtmp.PlaySession.Message.{write_help-sent}
use simple_rtmp.PlaySession.Notices.{
  takes_all, invoke, sample_header, notices, invoked, after_invokes, AllSucceed, requested,
  stream_begun, reset_notice, start_notice, onstatus-sends, begin_play-plain, begin_play-reset,
}

module _ (lib : Library) (n : ℕ) (w : Writes) where
  module _ (sample : List FrameBuffer) (table : List Packet) where
    -- The context behind StreamIsRecord and the last notice.
    abbrev pub finished : Context → Context
    finished c = record c {
      play = no_start;
      out_packets = table;
      sent = (c.sent ++ create (lib.event_stream_is_record c.stream_id) ∷ []) ++ sample;
    }

    -- The writing of the last notice, with a table of slots.
    abbrev pub Samples : Context → Type 0
    Samples c =
        rtmp_chunk_write_help lib.writers c.out_chunk_size c.out_packets
          (sample_header lib c.stream_id) (create lib.sample_access)
        ≡ some (record { result = pos 0; sent = sample; table = table })

    finish_play-finished :
        (c : Context)
        → let c1 =
            after_write w
              (invoke lib c.stream_id (start_notice lib n w c))
              (start_notice lib n w c)
              c in
          Succeeds lib
            (handlers n)
            w
            (invoke lib c.stream_id (start_notice lib n w c))
            (start_notice lib n w c)
            c
          → Samples c1
          → finish_play lib (handlers n) (pos 0) none c ≡ some (pos 0, finished c1)
    unfolding finish_play rtmp_server_send_stream_is_record rtmp_server_rtmp_sample_access
    finish_play-finished c e samples =
        let c1 =
          after_write w (invoke lib c.stream_id (start_notice lib n w c)) (start_notice lib n w c)
            c in
        let bytes = lib.event_stream_is_record c.stream_id in
        let c2 : Context = record c1 { sent = c1.sent ++ create bytes ∷ [] } in
        ground (
          arith,
          onstatus-sends lib n w c.transaction "NetStream.Play.Start" "NetStream.Play.Failed"
              "Start video on demand" c e,
          send_bytes-accepted lib (handlers n) (takes_all n) bytes c1,
          write_help-sent lib n (sample_header lib c.stream_id) (create lib.sample_access) c2
              (record { result = pos 0; sent = sample; table = table }) samples,
        )

    -- The context behind the notices.
    abbrev pub noticed : ℕ → Text → ℕ → ℕ → Context → Context
    noticed transaction name begin reset c =
        after_invokes lib n w c.stream_id (notices lib transaction reset)
          (stream_begun lib n w (requested lib n w transaction name begin reset c))

    onplay-steps :
        (transaction : ℕ) (name : Text) (begin duration reset : ℕ) (c d e : Context)
        → begin_play lib (handlers n) (requested lib n w transaction name begin reset c)
          ≡ some (pos 0, d)
        → finish_play lib (handlers n) (pos 0) none d ≡ some (pos 0, e)
        → Handlers.rtmp_server_onplay lib
            (handlers n)
            (pos 0)
            transaction
            (some name)
            begin
            duration
            reset
            c
          ≡ some (pos 0, e)
    unfolding Handlers.rtmp_server_onplay rtmp_server_start start_play
    onplay-steps transaction name begin duration reset c d e first second =
        ground (arith, first, second)

    -- The notices one by one.
    answers_plain :
        (transaction : ℕ) (name : Text) (begin duration reset : ℕ) (c : Context)
        → (reset == 0) ≡ true
        → let d = requested lib n w transaction name begin reset c in
          AllSucceed lib n w c.stream_id (start_notice lib n w d ∷ []) (stream_begun lib n w d)
          → Samples (
              after_invokes lib n w c.stream_id
                (start_notice lib n w d ∷ [])
                (stream_begun lib n w d))
          → Handlers.rtmp_server_onplay lib
              (handlers n)
              (pos 0)
              transaction
              (some name)
              begin
              duration
              reset
              c
            ≡ some (
              pos 0,
              finished (
                  after_invokes lib n w c.stream_id
                    (start_notice lib n w d ∷ [])
                    (stream_begun lib n w d)),
            )
    answers_plain transaction name begin duration reset c plain (starts, _) samples =
        let d = requested lib n w transaction name begin reset c in
        onplay-steps transaction name begin duration reset c (stream_begun lib n w d) _
          (begin_play-plain lib n w d plain)
          (finish_play-finished (stream_begun lib n w d) starts samples)

    answers_reset :
        (transaction : ℕ) (name : Text) (begin duration reset : ℕ) (c : Context)
        → (reset == 0) ≡ false
        → let d = requested lib n w transaction name begin reset c in
          let ps = reset_notice lib n w d ∷ start_notice lib n w d ∷ [] in
          AllSucceed lib n w c.stream_id ps (stream_begun lib n w d)
          → Samples (after_invokes lib n w c.stream_id ps (stream_begun lib n w d))
          → Handlers.rtmp_server_onplay lib
              (handlers n)
              (pos 0)
              transaction
              (some name)
              begin
              duration
              reset
              c
            ≡ some (pos 0, finished (after_invokes lib n w c.stream_id ps (stream_begun lib n w d)))
    answers_reset transaction name begin duration reset c some_reset (resets, (starts, _)) samples =
        let d = requested lib n w transaction name begin reset c in
        let e =
          after_write w (invoke lib c.stream_id (reset_notice lib n w d)) (reset_notice lib n w d)
            (stream_begun lib n w d) in
        onplay-steps transaction name begin duration reset c e _
          (begin_play-reset lib n w d some_reset resets) (finish_play-finished e starts samples)

    onplay-answers :
        (transaction : ℕ) (name : Text) (begin duration reset : ℕ) (c : Context)
        → AllSucceed lib n w c.stream_id
            (notices lib transaction reset)
            (stream_begun lib n w (requested lib n w transaction name begin reset c))
        → Samples (noticed transaction name begin reset c)
        → Handlers.rtmp_server_onplay lib
            (handlers n)
            (pos 0)
            transaction
            (some name)
            begin
            duration
            reset
            c
          ≡ some (pos 0, finished (noticed transaction name begin reset c))
    onplay-answers transaction name begin duration reset c succeed samples =
        let d = requested lib n w transaction name begin reset c in
        let id = c.stream_id in
        let c0 = stream_begun lib n w d in
        elim (Bool-cases (reset == 0)) [
          | inl plain ↦
              let ps : notices lib transaction reset ≡ start_notice lib n w d ∷ [] =
                rw plain refl in
              answers_plain transaction name begin duration reset c plain
                (subst (λ qs. AllSucceed lib n w id qs c0) ps succeed)
                (subst (λ qs. Samples (after_invokes lib n w id qs c0)) ps samples)
              ∙ ap (λ qs. some (pos 0, finished (after_invokes lib n w id qs c0))) (sym ps)
          | inr some_reset ↦
              let ps : notices lib transaction reset
                  ≡ reset_notice lib n w d ∷ start_notice lib n w d ∷ [] =
                rw some_reset refl in
              answers_reset transaction name begin duration reset c some_reset
                (subst (λ qs. AllSucceed lib n w id qs c0) ps succeed)
                (subst (λ qs. Samples (after_invokes lib n w id qs c0)) ps samples)
              ∙ ap (λ qs. some (pos 0, finished (after_invokes lib n w id qs c0))) (sym ps)
        ]

    -- The frames of the answer, in order, on a context that has sent nothing.
    abbrev pub answer : ℕ → Text → ℕ → ℕ → Context → List FrameBuffer
    answer transaction name begin reset c =
        create (lib.event_stream_begin c.stream_id)
          ∷ invoked lib n w c.stream_id (notices lib transaction reset)
              (stream_begun lib n w (requested lib n w transaction name begin reset c))
        ++ (create (lib.event_stream_is_record c.stream_id) ∷ sample)

    after_invokes-sent :
        (id : ℕ) (ps : List (List ℕ)) (c : Context)
        → ((after_invokes lib n w id ps c).sent ≡ c.sent ++ invoked lib n w id ps c)
          × ((after_invokes lib n w id ps c).stream_id ≡ c.stream_id)
    after_invokes-sent id [] c = (sym (append-nil c.sent), refl)
    after_invokes-sent id (p ∷ ps) c =
        let d = after_write w (invoke lib id p) p c in
        let (q, r) = after_invokes-sent id ps d in
        (q ∙ append_assoc c.sent (w.message (invoke lib id p) p c) (invoked lib n w id ps d), r)

    answer-sent :
        (transaction : ℕ) (name : Text) (begin reset : ℕ) (c : Context)
        → c.sent ≡ []
        → (finished (noticed transaction name begin reset c)).sent
          ≡ answer transaction name begin reset c
    answer-sent transaction name begin reset c none_sent =
        let c0 = stream_begun lib n w (requested lib n w transaction name begin reset c) in
        let ps = notices lib transaction reset in
        let (q, r) = after_invokes-sent c.stream_id ps c0 in
        rw (q, r, none_sent) (simp append_assoc)

    -- The session behind the answer.
    abbrev pub answered : ℕ → Text → ℕ → ℕ → PlaySession → PlaySession
    answered transaction name begin reset s =
        let c : Context = record (s.ctx) { sent = [] } in
        record s {
          ctx = finished (noticed transaction name begin reset c);
          outputs = s.outputs ++ map written (answer transaction name begin reset c);
        }

    pub with_context-answers :
        (transaction : ℕ) (name : Text) (begin duration reset : ℕ) (s : PlaySession)
        → s.conn ≡ true
        → AllSucceed lib n w s.ctx.stream_id (notices lib transaction reset) (
            stream_begun lib n w
              (requested lib n w transaction name begin reset (record (s.ctx) { sent = [] })))
        → Samples (noticed transaction name begin reset (record (s.ctx) { sent = [] }))
        → with_context
            (Handlers.rtmp_server_onplay lib
              (handlers n)
              (pos 0)
              transaction
              (some name)
              begin
              duration
              reset)
            s
          ≡ some (answered transaction name begin reset s)
    unfolding with_context write_frames
    with_context-answers transaction name begin duration reset s open_conn succeed samples =
        let c : Context = record (s.ctx) { sent = [] } in
        let sent = answer-sent transaction name begin reset c refl in
        ground (
          arith,
          open_conn,
          onplay-answers transaction name begin duration reset c succeed samples,
          sent,
        )
