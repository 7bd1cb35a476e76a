-- ===== src/PlaySession/Init.antt =====
-- The context that a session starts with: init of rtmp_server_context_args, rtmp_server_context.cc, on
-- memory that is zero.
use simple_rtmp.Base.{ℕ, List, [], set, replicate}
use simple_rtmp.Chunk.{Packet, zero_packet, at}
use simple_rtmp.Server.{uninit, no_start, Context, Library}

-- The media-server library's numbers that only init uses.
pub record Sizes : Type 0 where
  pub n_chunk_stream : ℕ
  pub chunk_size : ℕ
  pub channel_protocol : ℕ
  pub channel_data : ℕ

-- `rtmp.out_packets[cid].header.cid = cid`.
unfoldable pub own_slot : ℕ → List Packet → List Packet
own_slot cid table =
    set table cid (record (at table cid) { header = record ((at table cid).header) { cid = cid } })

unfoldable pub init_slots : Sizes → Library → List Packet
unfolding own_slot
init_slots sizes lib = own_slot sizes.channel_data (
    own_slot lib.channel_video (
      own_slot lib.channel_audio (
        own_slot lib.channel_invoke
          (own_slot sizes.channel_protocol (replicate sizes.n_chunk_stream zero_packet)))))

unfoldable pub init : Sizes → Library → Context
unfolding init_slots
init sizes lib = record {
  recv_bytes_0 = 0;
  recv_bytes_1 = 0;
  payload = replicate 2048 0;
  handshake_bytes = 0;
  handshake_state = uninit;
  app = [];
  stream_name = [];
  stream_type = [];
  stream_id = 0;
  receive_audio = 1;
  receive_video = 1;
  transaction = 0;
  reset = 0;
  play = no_start;
  out_chunk_size = sizes.chunk_size;
  window_size = 5000000;
  peer_bandwidth = 5000000;
  out_packets = init_slots sizes lib;
  sent = [];
  received = [];
}
