-- ===== src/Server/Runs.antt =====
-- A concrete library and session, runs of the server, and the theorems at concrete inputs.
use simple_rtmp.Base.{ℕ, ◌+◌, ◌%◌, ◌^◌, ◌≤◌, ◌≡◌, refl, [], ◌∷◌, ◌++◌, none, some, arith}
use simple_rtmp.Base.Int.{pos}
use simple_rtmp.Frame.{create, size}
use simple_rtmp.Chunk.{type_0, Packet}
use simple_rtmp.Server.{uninit, handshake_2, Play, no_start, Context, Handler}
use simple_rtmp.Server.Messages.{
  rtmp_server_send_handshake, rtmp_server_send_stream_begin, rtmp_server_send_onstatus, send,
  rtmp_server_send, unacknowledged,
}
use simple_rtmp.Server.Handlers.{rtmp_server_onconnect}
use simple_rtmp.Server.Input.{rtmp_server_input}
use simple_rtmp.Server.Start.{rtmp_server_start}
use simple_rtmp.Server.Handshake.{deliver}
use simple_rtmp.Server.Rounds.{input-deliver}
use simple_rtmp.Server.Answer.{input-answers}
use simple_rtmp.Server.Splits.{lacks, then_input, input-append}
use simple_rtmp.Server.Acks.{read_all, sum, told, acknowledgements, read_all-bounded}
use simple_rtmp.Server.Example.{small_library}
use simple_rtmp.Server.Replies.{start-start}
use simple_rtmp.Server.Connect.{Accepts, onconnect_replies}

-- A session that takes every frame, and sets no other callback.
abbrev deaf : Handler
deaf = record {
  send = some (λ frame. pos (size frame));
  onplay = none;
  onpause = none;
  onseek = none;
  onpublish = none;
  onvideo = none;
  onaudio = none;
  onscript = none;
  ongetduration = none;
}

abbrev fresh_slot : ℕ → Packet
fresh_slot id = record {
  header = record { fmt = type_0; cid = id; timestamp = 0; length = 0; type = 0; stream_id = 0 };
  clock = 0;
}

abbrev fresh_context : Context
fresh_context = record {
  recv_bytes_0 = 0;
  recv_bytes_1 = 0;
  payload = 0 ∷ 0 ∷ 0 ∷ [];
  handshake_bytes = 0;
  handshake_state = uninit;
  app = [];
  stream_name = [];
  stream_type = [];
  stream_id = 0;
  receive_audio = 1;
  receive_video = 1;
  transaction = 0;
  reset = 0;
  play = no_start;
  out_chunk_size = 128;
  window_size = 5000000;
  peer_bandwidth = 5000000;
  out_packets =
      fresh_slot 0 ∷ fresh_slot 0 ∷ fresh_slot 2 ∷ fresh_slot 3 ∷ fresh_slot 4 ∷ fresh_slot 5 ∷ [];
  sent = [];
  received = [];
}

-- The whole handshake in one call: the answer goes out after the first message, and the second one overwrites it.
abbrev shaken : Context
shaken = record fresh_context {
  handshake_state = handshake_2;
  payload = 12 ∷ 13 ∷ 0 ∷ [];
  sent = create (3 ∷ 0 ∷ 0 ∷ 10 ∷ 11 ∷ []) ∷ [];
}

handshake_runs :
    rtmp_server_input small_library deaf (3 ∷ 10 ∷ 11 ∷ 12 ∷ 13 ∷ []) fresh_context
    ≡ some (pos 0, shaken)
unfolding rtmp_server_input size rtmp_server_send_handshake
handshake_runs = refl

-- The first byte of a client that does not speak RTMP.
http_client : rtmp_server_input small_library deaf (0x47 ∷ []) fresh_context ≡ none
unfolding rtmp_server_input
http_client = refl

input-deliver_example :
    rtmp_server_input small_library deaf (3 ∷ 10 ∷ 11 ∷ 12 ∷ []) fresh_context
    ≡ deliver small_library deaf (3 ∷ 10 ∷ 11 ∷ 12 ∷ []) fresh_context
input-deliver_example = input-deliver small_library deaf (3 ∷ 10 ∷ 11 ∷ 12 ∷ []) fresh_context

input-append_example :
    rtmp_server_input small_library deaf (3 ∷ 10 ∷ 11 ∷ 12 ∷ 13 ∷ 14 ∷ []) fresh_context
    ≡ then_input small_library deaf
        (11 ∷ 12 ∷ 13 ∷ 14 ∷ [])
        (rtmp_server_input small_library deaf (3 ∷ 10 ∷ []) fresh_context)
input-append_example =
    input-append small_library deaf (3 ∷ 10 ∷ []) (11 ∷ 12 ∷ 13 ∷ 14 ∷ []) fresh_context
      (unfold lacks in omega arith)

abbrev window_4 : Context
window_4 = record fresh_context { window_size = 4 }

-- The second read passes the window.
abbrev acknowledged : Context
acknowledged = record window_4 {
  recv_bytes_0 = 7;
  recv_bytes_1 = 6;
  sent = create (3 ∷ 6 ∷ []) ∷ [];
}

read_all-bounded_example :
    (create (3 ∷ 6 ∷ []) ∷ []
      ≡ [] ++ acknowledgements small_library deaf (told 4 0 0 (3 ∷ 3 ∷ 1 ∷ [])))
    × (unacknowledged small_library deaf acknowledged ≤ 4)
    × (7 ≡ (0 + sum (3 ∷ 3 ∷ 1 ∷ [])) % 2 ^ 32)
unfolding unacknowledged
read_all-bounded_example =
    read_all-bounded small_library deaf 3 (3 ∷ 1 ∷ []) window_4 acknowledged (omega arith)
      (omega arith) (unfold read_all size in refl)

-- A publish that is answered: StreamBegin and the status.
abbrev publishing : Context
publishing = record fresh_context { play = Play.on_publish; transaction = 5 }

abbrev published : Context
published = record publishing {
  play = no_start;
  sent = create (0 ∷ 0 ∷ []) ∷ create (3 ∷ 5 ∷ []) ∷ [];
}

publishing_starts :
    rtmp_server_start small_library deaf (pos 0) none publishing ≡ some (pos 0, published)
unfolding rtmp_server_start rtmp_server_send_stream_begin rtmp_server_send_onstatus size
publishing_starts = refl

start-start_example :
    rtmp_server_start small_library deaf (pos 9) none published ≡ some (pos 9, published)
start-start_example =
    start-start small_library deaf (pos 0) (pos 9) none none publishing published publishing_starts

accepts : Accepts deaf
accepts = record { taker = λ frame. pos (size frame); set = refl; whole = λ frame. refl }

onconnect_replies_example :
    rtmp_server_onconnect small_library deaf (pos 0) 1 (90 ∷ []) 0 shaken
    ≡ some (
      pos 0,
      record shaken {
        app = 90 ∷ [];
        out_chunk_size = 65535;
        sent =
            create (3 ∷ 0 ∷ 0 ∷ 10 ∷ 11 ∷ [])
            ∷ create (5 ∷ 5000000 ∷ [])
            ∷ create (6 ∷ 5000000 ∷ [])
            ∷ create (1 ∷ 65535 ∷ [])
            ∷ create (3 ∷ 1 ∷ 0 ∷ [])
            ∷ [];
      },
    )
unfolding rtmp_server_send send size
onconnect_replies_example =
    onconnect_replies small_library deaf accepts 1 (90 ∷ []) 0 shaken refl refl

input-answers_example :
    (d : Context) × (rtmp_server_input small_library deaf (3 ∷ 10 ∷ 11 ∷ 12 ∷ 13 ∷ []) fresh_context
      ≡ some (pos 0, d))
    × (d.handshake_state ≡ handshake_2)
    × (d.sent ≡ create (3 ∷ 0 ∷ 0 ∷ 10 ∷ 11 ∷ []) ∷ [])
input-answers_example =
    input-answers small_library deaf accepts 3 10 12 (11 ∷ []) (13 ∷ []) fresh_context refl
      (omega arith) (omega arith) (omega arith) (omega arith) refl
