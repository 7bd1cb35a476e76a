-- ===== src/Server/Connect.antt =====
-- The answer to a connect.
use simple_rtmp.Base.{
  ℕ, ◌≡◌, refl, ap, ◌∙◌, List, [], ◌∷◌, ◌++◌, true, none, some, length, if◌then◌else◌, arith,
}
use simple_rtmp.Base.Int.{ℤ, pos}
use simple_rtmp.Frame.{FrameBuffer, create, size}
use simple_rtmp.Chunk.{type_0, Header, Packet}
use simple_rtmp.Server.{Context, Library, Handler, M, ◌>>=◌, ◌>>◌, and_then, ret, modify}
use simple_rtmp.Server.Messages.{
  send, send_bytes, rtmp_server_send, rtmp_server_send_control, rtmp_server_send_set_chunk_size,
  rtmp_server_send_server_bandwidth, rtmp_server_send_client_bandwidth,
}
use simple_rtmp.Server.Handlers.{greet, accept, first, rtmp_server_onconnect}

-- A session that takes every frame whole.
pub record Accepts (h : Handler) : Type 0 where
  pub taker : FrameBuffer → ℤ
  pub set : h.send ≡ some taker
  pub whole : (frame : FrameBuffer) → taker frame ≡ pos (size frame)

-- What rtmp_chunk_write makes of a message and a context where it succeeds: the frames that it sends, and
-- its table. It may cut the message into chunks.
pub record Writes : Type 0 where
  pub message : Header → List ℕ → Context → List FrameBuffer
  pub table : Header → List ℕ → Context → List Packet

-- The context behind a message, and that a call leaves it.
abbrev pub after_write : Writes → Header → List ℕ → Context → Context
after_write w header payload c = record c {
  out_packets = w.table header payload c;
  sent = c.sent ++ w.message header payload c;
}

abbrev pub Succeeds : Library → Handler → Writes → Header → List ℕ → Context → Type 0
Succeeds lib h w header payload c =
    lib.chunk_write (rtmp_server_send lib h) header payload c
    ≡ some (pos 0, after_write w header payload c)

pub bind-some :
    {A B : Type 0} {c c' : Context} {a : A} (m : M A) (f : A → M B)
    → m c ≡ some (a, c')
    → (m >>= f) c ≡ f a c'
bind-some m f e = ap (λ o. elim o [ none ↦ none | some (a, c') ↦ f a c' ]) e

append_three :
    {A : Type 0} (xs : List A) (x y z : A)
    → ((xs ++ x ∷ []) ++ y ∷ []) ++ z ∷ [] ≡ xs ++ x ∷ y ∷ z ∷ []
append_three [] x y z = refl
append_three (w ∷ xs) x y z = ap (◌∷◌ w) (append_three xs x y z)

module _ (lib : Library) (h : Handler) (a : Accepts h) where
  pub send_bytes-accepted :
      (bytes : List ℕ) (c : Context)
      → send_bytes lib h bytes c ≡ some (pos 0, record c { sent = c.sent ++ create bytes ∷ [] })
  unfolding send_bytes send size
  send_bytes-accepted bytes c = ground (arith, a.set, a.whole (create bytes))

  then_send :
      (bytes : List ℕ) (c : Context) (f : ℤ → M ℤ)
      → (send_bytes lib h bytes >>= f) c
        ≡ f (pos 0) (record c { sent = c.sent ++ create bytes ∷ [] })
  then_send bytes c f = bind-some (send_bytes lib h bytes) f (send_bytes-accepted bytes c)

  -- The three control messages, in this order.
  abbrev greeting : Context → List FrameBuffer
  greeting c =
      create (lib.window_acknowledgement_size c.window_size)
      ∷ create (lib.set_peer_bandwidth c.peer_bandwidth)
      ∷ create (lib.set_chunk_size 65535)
      ∷ []

  greet-accepted :
      (c : Context)
      → greet lib h c
        ≡ some (pos 0, record c { out_chunk_size = 65535; sent = c.sent ++ greeting c })
  unfolding greet rtmp_server_send_set_chunk_size rtmp_server_send_server_bandwidth
      rtmp_server_send_client_bandwidth
  greet-accepted c =
      let a1 = lib.window_acknowledgement_size c.window_size in
      let a2 = lib.set_peer_bandwidth c.peer_bandwidth in
      let c1 : Context = record c { sent = c.sent ++ create a1 ∷ [] } in
      let c2 : Context = record c1 { sent = c1.sent ++ create a2 ∷ [] } in
      then_send a1 c (λ r1. and_then r1 (rtmp_server_send_client_bandwidth lib h) >>= λ r2.
      and_then r2 (rtmp_server_send_set_chunk_size lib h))
      ∙ then_send a2 c1 (λ r2. and_then r2 (rtmp_server_send_set_chunk_size lib h))
      ∙ then_send (lib.set_chunk_size 65535) c2
          (λ r. modify (λ d. record d { out_chunk_size = 65535 }) >> ret r)
      ∙ ap (λ frames. some (pos 0, record c { out_chunk_size = 65535; sent = frames }))
          (append_three c.sent (create a1) (create a2) (create (lib.set_chunk_size 65535)))

  first-accepted :
      (transaction : ℕ) (app : List ℕ) (c : Context)
      → lib.is_one transaction ≡ true
      → first lib h (pos 0) transaction app c
        ≡ some (pos 0, record c { app = app; out_chunk_size = 65535; sent = c.sent ++ greeting c })
  unfolding first accept
  first-accepted transaction app c one = rw (one, greet-accepted (record c { app = app }))

module _ (lib : Library) (h : Handler) where
  -- Where the session takes every frame, a first connect with a known encoding remembers the application,
  -- raises the chunk size to 65535, and sends the window size, the peer bandwidth and the chunk size, in
  -- this order; then the reply goes as an invoke on stream 0 to rtmp_chunk_write, and whatever this does
  -- and returns is the end of the call.
  pub onconnect_replies :
      (a : Accepts h) (transaction : ℕ) (app : List ℕ) (encoding : ℕ) (c : Context)
      → lib.is_amf_encoding encoding ≡ true
      → lib.is_one transaction ≡ true
      → let reply = lib.connect_reply transaction encoding in
        let header : Header = record {
          fmt = type_0;
          cid = lib.channel_invoke;
          timestamp = 0;
          length = length reply;
          type = lib.type_invoke;
          stream_id = 0;
        } in
        rtmp_server_onconnect lib h (pos 0) transaction app encoding c
        ≡ lib.chunk_write
            (rtmp_server_send lib h)
            header
            reply
            (record c { app = app; out_chunk_size = 65535; sent = c.sent ++ greeting lib h a c })
  unfolding rtmp_server_onconnect rtmp_server_send_control
  onconnect_replies a transaction app encoding c known one =
      let reply = lib.connect_reply transaction encoding in
      let go_on : ℤ → M ℤ = λ r. and_then r (rtmp_server_send_control lib h reply 0) in
      ap (λ b. if b then (first lib h (pos 0) transaction app >>= go_on) c else none) known
      ∙ bind-some {c = c} (first lib h (pos 0) transaction app) go_on
          (first-accepted lib h a transaction app c one)
