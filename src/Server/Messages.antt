-- ===== src/Server/Messages.antt =====
-- What the server sends, rtmp_server_context.cc: the control messages, the replies and the media.
-- A frame that is created empty and then appended to is `create` of the bytes.
use simple_rtmp.Base.{
  ℕ, ◌+◌, ◌-◌, ◌%◌, ◌^◌, List, [], ◌∷◌, ◌++◌, not, ◌&&◌, none, some, length, take, ltb, ◌==◌,
  if◌then◌else◌,
}
use simple_rtmp.Base.Int.{ℤ, pos, negsuc, to_u32, ◌==ℤ◌}
use simple_rtmp.Frame.{FrameBuffer, create, size, pts}
use simple_rtmp.Chunk.{type_0, type_1, Header, rtmp_chunk_write_help}
use simple_rtmp.Server.{Context, Library, Handler, status, error, M, ◌>>=◌, ◌>>◌, ret, modify}
use Prim.Native.String.{String}

module _ (lib : Library) (h : Handler) where
  -- `handler_.send(frame)`.
  unfoldable pub send : FrameBuffer → M ℤ
  send frame c = elim h.send [
    | none ↦ none
    | some f ↦ some (f frame, record c { sent = c.sent ++ frame ∷ [] })
  ]

  -- The frames that rtmp_chunk_write_help gives to `handler_.send`, whose results it drops.
  unfoldable pub send_each : List FrameBuffer → M (Unit {0})
  unfolding send
  send_each [] = ret tt
  send_each (frame ∷ frames) = send frame >>= λ r. send_each frames

  -- A frame of the n bytes that were written to `payload`: `n == r ? 0 : r`.
  unfoldable pub send_bytes : List ℕ → M ℤ
  unfolding send
  send_bytes bytes =
      send (create bytes) >>= λ r. ret (if pos (length bytes) ==ℤ r then pos 0 else r)

  unfoldable pub rtmp_server_send : List ℕ → List ℕ → M ℤ
  unfolding send
  rtmp_server_send header payload = send (create (header ++ payload)) >>= λ r.
      ret (if r ==ℤ pos (length payload + length header) then pos 0 else negsuc 0)

  unfoldable pub rtmp_server_send_control : List ℕ → ℕ → M ℤ
  unfolding rtmp_server_send
  rtmp_server_send_control payload stream_id =
      lib.chunk_write rtmp_server_send
        (record {
          fmt = type_0;
          cid = lib.channel_invoke;
          timestamp = 0;
          length = length payload;
          type = lib.type_invoke;
          stream_id = stream_id;
        })
        payload

  unfoldable pub rtmp_server_send_onstatus : ℕ → ℤ → String → String → String → M ℤ
  unfolding rtmp_server_send_control
  rtmp_server_send_onstatus transaction r success fail description c =
      rtmp_server_send_control
        (if r ==ℤ pos 0
          then lib.onstatus transaction status success description
          else lib.onstatus transaction error fail description)
        c.stream_id c

  -- The handshake's answer is made of the first bytes of `payload`.
  unfoldable pub rtmp_server_send_handshake : M ℤ
  unfolding send_bytes
  rtmp_server_send_handshake c =
      let answer = lib.handshake_reply (take lib.handshake_size c.payload) in
      if length answer == 1 + lib.handshake_size + lib.handshake_size
      then send_bytes answer c
      else none

  unfoldable pub rtmp_server_send_set_chunk_size : M ℤ
  unfolding send_bytes
  rtmp_server_send_set_chunk_size = send_bytes (lib.set_chunk_size 65535) >>= λ r.
      modify (λ c. record c { out_chunk_size = 65535 }) >> ret r

  -- The two counters are uint32_t.
  unfoldable pub unacknowledged : Context → ℕ
  unacknowledged c = (c.recv_bytes_0 + 2 ^ 32 - c.recv_bytes_1) % 2 ^ 32

  unfoldable pub count_bytes : ℕ → Context → Context
  count_bytes n c = record c { recv_bytes_0 = (c.recv_bytes_0 + n) % 2 ^ 32 }

  unfoldable pub acknowledge : M ℤ
  unfolding send_bytes
  acknowledge c =
      (send_bytes (lib.acknowledgement c.recv_bytes_0) >>= λ r.
      modify (λ d. record d { recv_bytes_1 = d.recv_bytes_0 }) >> ret r)
        c

  unfoldable pub rtmp_server_send_acknowledgement : ℕ → M ℤ
  unfolding unacknowledged count_bytes acknowledge
  rtmp_server_send_acknowledgement n c =
      let d = count_bytes n c in
      if not (d.window_size == 0) && ltb d.window_size (unacknowledged d)
      then acknowledge d
      else some (pos 0, d)

  unfoldable pub rtmp_server_send_server_bandwidth : M ℤ
  unfolding send_bytes
  rtmp_server_send_server_bandwidth c = send_bytes (lib.window_acknowledgement_size c.window_size) c

  unfoldable pub rtmp_server_send_client_bandwidth : M ℤ
  unfolding send_bytes
  rtmp_server_send_client_bandwidth c = send_bytes (lib.set_peer_bandwidth c.peer_bandwidth) c

  unfoldable pub rtmp_server_send_stream_is_record : M ℤ
  unfolding send_bytes
  rtmp_server_send_stream_is_record c = send_bytes (lib.event_stream_is_record c.stream_id) c

  unfoldable pub rtmp_server_send_stream_begin : M ℤ
  unfolding send_bytes
  rtmp_server_send_stream_begin c = send_bytes (lib.event_stream_begin c.stream_id) c

  -- rtmp_chunk_write_help on the context: the table is its own, and the frames go to `send`.
  unfoldable pub write_help : Header → FrameBuffer → M ℤ
  unfolding send_each
  write_help header frame c =
      elim (rtmp_chunk_write_help lib.writers c.out_chunk_size c.out_packets header frame) [
        | none ↦ none
        | some w ↦ (send_each w.sent >> ret w.result) (record c { out_packets = w.table })
      ]

  unfoldable pub rtmp_server_rtmp_sample_access : M ℤ
  unfolding write_help
  rtmp_server_rtmp_sample_access c =
      write_help
        (record {
          fmt = type_0;
          cid = lib.channel_invoke;
          timestamp = 0;
          length = length lib.sample_access;
          type = lib.type_data;
          stream_id = c.stream_id;
        })
        (create lib.sample_access) c

  -- The header of a media message: the time and the size are converted to uint32_t.
  abbrev pub media_header : ℕ → ℕ → FrameBuffer → Context → Header
  media_header channel type frame c = record {
    fmt = type_1;
    cid = channel;
    timestamp = to_u32 (pts frame);
    length = size frame % 2 ^ 32;
    type = type;
    stream_id = c.stream_id;
  }

  unfoldable pub rtmp_server_send_audio : FrameBuffer → M ℤ
  unfolding write_help
  rtmp_server_send_audio frame c =
      if c.receive_audio == 0
      then some (pos 0, c)
      else write_help (media_header lib.channel_audio lib.type_audio frame c) frame c

  unfoldable pub rtmp_server_send_video : FrameBuffer → M ℤ
  unfolding write_help
  rtmp_server_send_video frame c =
      if c.receive_video == 0
      then some (pos 0, c)
      else write_help (media_header lib.channel_video lib.type_video frame c) frame c

  unfoldable pub rtmp_server_send_script : FrameBuffer → M ℤ
  unfolding write_help
  rtmp_server_send_script frame c =
      write_help (media_header lib.channel_invoke lib.type_data frame c) frame c
