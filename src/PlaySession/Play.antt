-- ===== src/PlaySession/Play.antt =====
-- What a player is answered to a play, rtmp_server_onplay of rtmp_forward_session.cc and of
-- rtmp_server_context.cc.
use simple_rtmp.Base.{
  ℕ, ◌≡◌, refl, List, [], ◌∷◌, ◌++◌, map, true, Option, none, some, append_assoc, arith,
  Option-cases, inl, inr,
}
use simple_rtmp.Base.Int.{pos}
use simple_rtmp.Frame.{FrameBuffer}
use simple_rtmp.Chunk.{Packet}
use simple_rtmp.Rtsp.Parser.{Text}
use simple_rtmp.FlvSession.{rtmp_prefix}
use simple_rtmp.Server.{Library, no_start}
use simple_rtmp.Server.Connect.{Writes}
use simple_rtmp.PlaySession.{
  written, channel_added, shutdown_posted, PlaySession, rtmp_server_onplay, play_command,
}
use simple_rtmp.PlaySession.Notices.{notices, AllSucceed, requested, stream_begun}
use simple_rtmp.PlaySession.Answer.{Samples, noticed, answer, answered, with_context-answers}

module _ (lib : Library) (n : ℕ) (w : Writes) where
  -- A play that the library reads, on an open connection whose session has its channel, is answered in
  -- full and as accepted, in this order: StreamBegin, the reset notice where the player asked for it,
  -- the start notice, StreamIsRecord and the sample access notice. The channel joins the sink of the
  -- stream if the registry has it. If it has none the answer is the same, and the session posts its own
  -- shutdown. The calls of rtmp_chunk_write for the notices succeed, each on the context that the one
  -- before leaves, and so does the writing of the last notice.
  pub play_command-answers :
      (get : Text → Option ℕ) (transaction : ℕ) (name : Text) (begin duration reset : ℕ)
      (s : PlaySession) (sample : List FrameBuffer) (table : List Packet)
      → s.conn ≡ true
      → s.channel ≡ true
      → AllSucceed lib n w s.ctx.stream_id (notices lib transaction reset) (
          stream_begun lib n w
            (requested lib n w transaction name begin reset (record (s.ctx) { sent = [] })))
      → Samples lib n w sample table
          (noticed lib n w sample table transaction name begin reset (record (s.ctx) { sent = [] }))
      → (s' : PlaySession) × (play_command lib n get
            (pos 0)
            transaction
            (some name)
            begin
            duration
            reset
            s
          ≡ some s')
        × (s'.outputs
            ≡ s.outputs
              ++ (elim (get (rtmp_prefix ++ (s.ctx.app ++ 95 ∷ name))) [
                | none ↦ shutdown_posted
                | some k ↦ channel_added k
              ]
                  ∷ map written (
                      answer lib n w sample table transaction name begin reset
                        (record (s.ctx) { sent = [] }))))
        × (s'.sink ≡ elim (get (rtmp_prefix ++ (s.ctx.app ++ 95 ∷ name))) [
          | none ↦ s.sink
          | some k ↦ some k
        ])
        × (s'.ctx.play ≡ no_start)
  unfolding play_command rtmp_server_onplay
  play_command-answers get transaction name begin duration reset s sample table open_conn there
        succeed e =
      let id = rtmp_prefix ++ (s.ctx.app ++ 95 ∷ name) in
      let fs =
        map written (
          answer lib n w sample table transaction name begin reset
            (record (s.ctx) { sent = [] })) in
      elim (Option-cases (get id)) [
        | inl missing ↦
            let s1 : PlaySession = record s { outputs = s.outputs ++ shutdown_posted ∷ [] } in
            (
              answered lib n w sample table transaction name begin reset s1,
              rw missing (
                  with_context-answers lib n w sample table transaction name begin duration reset s1
                    open_conn succeed e),
              rw missing (append_assoc s.outputs (shutdown_posted ∷ []) fs),
              rw missing refl,
              refl,
            )
        | inr (k, found) ↦
            let s1 : PlaySession = record s {
              outputs = s.outputs ++ channel_added k ∷ [];
              sink = some k;
              stream_id = id;
              app = s.ctx.app;
              stream = name;
            } in
            (
              answered lib n w sample table transaction name begin reset s1,
              ground (
                arith,
                found,
                there,
                with_context-answers lib n w sample table transaction name begin duration reset s1
                    open_conn succeed e,
              ),
              rw found (append_assoc s.outputs (channel_added k ∷ []) fs),
              rw found refl,
              refl,
            )
      ]
