-- ===== src/PlaySession/Notices.antt =====
-- The notices of a play, and the answer's first part: begin_play of rtmp_server_start,
-- rtmp_server_context.cc.
use simple_rtmp.Base.{
  ℕ, ◌≡◌, refl, List, [], ◌∷◌, ◌++◌, true, false, some, length, ◌==◌, if◌then◌else◌, arith,
}
use Prim.Native.String.{String}
use simple_rtmp.Base.Int.{pos}
use simple_rtmp.Frame.{FrameBuffer, create}
use simple_rtmp.Chunk.{type_0, Header}
use simple_rtmp.Rtsp.Parser.{Text}
use simple_rtmp.Server.{Context, Library, status, on_play}
use simple_rtmp.Server.Messages.{
  rtmp_server_send_control, rtmp_server_send_onstatus, rtmp_server_send_stream_begin,
}
use simple_rtmp.Server.Start.{begin_play}
use simple_rtmp.Server.Handlers.{print_name}
use simple_rtmp.Server.Connect.{Accepts, Writes, Succeeds, after_write, send_bytes-accepted}
use simple_rtmp.PlaySession.{handlers, rtmp_server_send}

-- The session takes every frame.
abbrev pub takes_all : (n : ℕ) → Accepts (handlers n)
unfolding rtmp_server_send
takes_all n = record { taker = rtmp_server_send; set = refl; whole = λ frame. refl }

-- An invoke, and the notice of sample access.
abbrev pub invoke : Library → ℕ → List ℕ → Header
invoke lib id payload = record {
  fmt = type_0;
  cid = lib.channel_invoke;
  timestamp = 0;
  length = length payload;
  type = lib.type_invoke;
  stream_id = id;
}

abbrev pub sample_header : Library → ℕ → Header
sample_header lib id = record {
  fmt = type_0;
  cid = lib.channel_invoke;
  timestamp = 0;
  length = length lib.sample_access;
  type = lib.type_data;
  stream_id = id;
}

-- The notices of a play in order, the first one where the player asked for a reset.
abbrev pub notices : Library → ℕ → ℕ → List (List ℕ)
notices lib transaction reset =
    let started =
      lib.onstatus transaction status "NetStream.Play.Start" "Start video on demand" ∷ [] in
    if reset == 0
    then started
    else lib.onstatus transaction status "NetStream.Play.Reset" "" ∷ started

module _ (lib : Library) (n : ℕ) (w : Writes) where
  -- Invokes in a row: their chunks, the context behind them, and that each call of rtmp_chunk_write
  -- succeeds on the context that it is given.
  abbrev pub invoked : ℕ → List (List ℕ) → Context → List FrameBuffer
  invoked id [] c = []
  invoked id (p ∷ ps) c =
      w.message (invoke lib id p) p c ++ invoked id ps (after_write w (invoke lib id p) p c)

  abbrev pub after_invokes : ℕ → List (List ℕ) → Context → Context
  after_invokes id [] c = c
  after_invokes id (p ∷ ps) c = after_invokes id ps (after_write w (invoke lib id p) p c)

  abbrev pub AllSucceed : ℕ → List (List ℕ) → Context → Type 0
  AllSucceed id [] c = Unit
  AllSucceed id (p ∷ ps) c =
      Succeeds lib (handlers n) w (invoke lib id p) p c
      × AllSucceed id ps (after_write w (invoke lib id p) p c)

  -- The context of a play with StreamBegin sent.
  abbrev pub requested : ℕ → Text → ℕ → ℕ → Context → Context
  requested transaction name begin reset c = record c {
    play = on_play;
    reset = reset;
    transaction = transaction;
    stream_name = print_name 255 (some name);
    stream_type =
        print_name 17
          (some (if lib.is_minus_one begin then lib.stream_live else lib.stream_record));
  }

  abbrev pub stream_begun : Context → Context
  stream_begun c = record c { sent = c.sent ++ create (lib.event_stream_begin c.stream_id) ∷ [] }

  abbrev pub reset_notice : Context → List ℕ
  reset_notice c = lib.onstatus c.transaction status "NetStream.Play.Reset" ""

  abbrev pub start_notice : Context → List ℕ
  start_notice c = lib.onstatus c.transaction status "NetStream.Play.Start" "Start video on demand"

  pub onstatus-sends :
      (transaction : ℕ) (success fail description : String) (c : Context)
      → let p = lib.onstatus transaction status success description in
        Succeeds lib (handlers n) w (invoke lib c.stream_id p) p c
        → rtmp_server_send_onstatus lib (handlers n) transaction (pos 0) success fail description c
          ≡ some (pos 0, after_write w (invoke lib c.stream_id p) p c)
  unfolding rtmp_server_send_onstatus rtmp_server_send_control
  onstatus-sends transaction success fail description c e = e

  -- The context with the answer's first part.
  abbrev begun : Context → Context
  begun c =
      let c1 = stream_begun c in
      if c.reset == 0
      then c1
      else after_write w (invoke lib c.stream_id (reset_notice c)) (reset_notice c) c1

  pub begin_play-plain :
      (c : Context)
      → (c.reset == 0) ≡ true
      → begin_play lib (handlers n) c ≡ some (pos 0, stream_begun c)
  unfolding begin_play rtmp_server_send_stream_begin
  begin_play-plain c plain = ground (
    arith,
    plain,
    send_bytes-accepted lib (handlers n) (takes_all n) (lib.event_stream_begin c.stream_id) c,
  )

  pub begin_play-reset :
      (c : Context)
      → (c.reset == 0) ≡ false
      → Succeeds lib
          (handlers n)
          w
          (invoke lib c.stream_id (reset_notice c))
          (reset_notice c)
          (stream_begun c)
      → begin_play lib (handlers n) c
        ≡ some (
          pos 0,
          after_write w (invoke lib c.stream_id (reset_notice c)) (reset_notice c) (stream_begun c),
        )
  unfolding begin_play rtmp_server_send_stream_begin
  begin_play-reset c some_reset e = ground (
    arith,
    some_reset,
    send_bytes-accepted lib (handlers n) (takes_all n) (lib.event_stream_begin c.stream_id) c,
    onstatus-sends c.transaction "NetStream.Play.Reset" "NetStream.Play.Failed" "" (stream_begun c)
        e,
  )
