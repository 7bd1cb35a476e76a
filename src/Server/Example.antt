-- ===== src/Server/Example.antt =====
-- A small concrete library for tests and instances.
use simple_rtmp.Base.{◌%◌, ◌^◌, [], ◌∷◌, false, ◌==◌}
use simple_rtmp.Base.Int.{pos}
use simple_rtmp.Server.{Library}
use simple_rtmp.Base.{some}

-- Replies that show what they are made of. A message of the handshake has two bytes.
abbrev pub small_library : Library
small_library = record {
  writers = record {
    basic_header = λ t cid. cid ∷ [];
    message_header = λ m. m.length ∷ [];
    extended_timestamp = λ t. t ∷ [];
  };
  chunk_write = λ send m payload. send (m.cid ∷ []) payload;
  chunk_read = λ bytes c. some (pos 0, c);
  handshake_size = 2;
  version = 3;
  handshake_reply = λ c1. 3 ∷ 0 ∷ 0 ∷ c1;
  set_chunk_size = λ n. 1 ∷ n ∷ [];
  acknowledgement = λ n. 3 ∷ n ∷ [];
  window_acknowledgement_size = λ n. 5 ∷ n ∷ [];
  set_peer_bandwidth = λ n. 6 ∷ n ∷ [];
  event_stream_is_record = λ n. 4 ∷ n ∷ [];
  event_stream_begin = λ n. 0 ∷ n ∷ [];
  sample_access = 7 ∷ 7 ∷ [];
  onstatus = λ t level success description. t ∷ [];
  stream_live = 8 ∷ [];
  stream_record = 9 ∷ [];
  connect_reply = λ t encoding. t ∷ encoding ∷ [];
  create_stream_reply = λ t id. t ∷ id ∷ [];
  get_stream_length_reply = λ t duration. t ∷ duration ∷ [];
  channel_invoke = 3;
  channel_audio = 4;
  channel_video = 5;
  type_invoke = 20;
  type_data = 18;
  type_audio = 8;
  type_video = 9;
  is_one = λ t. t == 1;
  is_amf_encoding = λ t. t == 0;
  is_minus_one = λ t. false;
  to_uint32 = λ t. t % 2 ^ 32;
}
