-- ===== src/Chunk/Receiver.antt =====
-- Header compression against a receiver of chunk streams, after section 5.3.1.2 of the RTMP
-- specification: what is sent lets it recover every message header.
use simple_rtmp.Base.{ℕ, ◌+◌, ◌-◌, ◌%◌, ◌^◌, ◌≤◌, ◌<◌, ◌≡◌, sym, ◌∙◌, arith, ◌≢◌}
use simple_rtmp.Chunk.{ChunkType, type_0, type_1, type_2, type_3, Header, Packet, compress}

-- The fields that a message header of each type carries.
pub data Wire : Type 0 where
  full : ℕ → ℕ → ℕ → ℕ → Wire
  same_stream : ℕ → ℕ → ℕ → Wire
  same_shape : ℕ → Wire
  nothing : Wire

abbrev wire_by : ChunkType → Header → Wire
wire_by type_0 h = full h.timestamp h.length h.type h.stream_id
wire_by type_1 h = same_stream h.timestamp h.length h.type
wire_by type_2 h = same_shape h.timestamp
wire_by type_3 h = nothing

unfoldable pub wire_of : Header → Wire
wire_of h = wire_by h.fmt h

-- What a receiver remembers of a chunk stream.
pub record Stream : Type 0 where
  pub clock : ℕ
  pub delta : ℕ
  pub length : ℕ
  pub type : ℕ
  pub stream_id : ℕ

-- Times are 32-bit numbers. After a full header the next time that is left out is the same number
-- once more.
unfoldable pub receive : Wire → Stream → Stream
receive (full time n type id) s = record {
  clock = time;
  delta = time;
  length = n;
  type = type;
  stream_id = id;
}
receive (same_stream delta n type) s = record s {
  clock = (s.clock + delta) % 2 ^ 32;
  delta = delta;
  length = n;
  type = type;
}
receive (same_shape delta) s = record s { clock = (s.clock + delta) % 2 ^ 32; delta = delta }
receive nothing s = record s { clock = (s.clock + s.delta) % 2 ^ 32 }

pub record Message : Type 0 where
  pub cid : ℕ
  pub timestamp : ℕ
  pub length : ℕ
  pub type : ℕ
  pub stream_id : ℕ

unfoldable pub message_of : Header → Message
message_of h = record {
  cid = h.cid;
  timestamp = h.timestamp;
  length = h.length;
  type = h.type;
  stream_id = h.stream_id;
}

unfoldable pub heard : ℕ → Stream → Message
heard cid s = record {
  cid = cid;
  timestamp = s.clock;
  length = s.length;
  type = s.type;
  stream_id = s.stream_id;
}

-- The sender's memory of a chunk stream and the receiver's are the same.
pub record Agrees (p : Packet) (s : Stream) : Type 0 where
  pub clock : s.clock ≡ p.clock
  pub delta : s.delta ≡ p.header.timestamp
  pub size : s.length ≡ p.header.length
  pub type : s.type ≡ p.header.type
  pub stream_id : s.stream_id ≡ p.header.stream_id

module _ (h : Header) (p : Packet) (s : Stream) (a : Agrees p s) (fits : h.timestamp < 2 ^ 32) where
  -- The stored packet after `h`, and the receiver after the header that is sent.
  pub compress-Agrees :
      Agrees
        (record { header = compress h p; clock = h.timestamp })
        (receive (wire_of (compress h p)) s)
  unfolding compress receive wire_of
  compress-Agrees = record {
    clock = ground arith;
    delta = ground arith;
    size = ground arith;
    type = ground arith;
    stream_id = ground arith;
  }

  pub compress-heard : heard h.cid (receive (wire_of (compress h p)) s) ≡ message_of h
  unfolding compress receive wire_of heard message_of
  compress-heard = ground arith

pub compress-keeps :
    (h : Header) (p : Packet)
    → ((compress h p).cid ≡ h.cid)
      × ((compress h p).length ≡ h.length)
      × ((compress h p).stream_id ≡ h.stream_id)
unfolding compress
compress-keeps h p = ground arith

-- Compression to type 1, where the length differs.
compress_to_type_1 :
    (h : Header) (p : Packet)
    → h.fmt ≡ type_1
    → h.cid ≡ p.header.cid
    → h.stream_id ≡ p.header.stream_id
    → p.clock ≤ h.timestamp
    → h.timestamp < p.clock + 0xFFFFFF
    → h.length ≢ p.header.length
    → wire_of (compress h p) ≡ same_stream (h.timestamp - p.clock) h.length h.type
unfolding compress wire_of
compress_to_type_1 h p fmt cid id after near other = ground arith

-- After a message that only the sender has stored, the receiver gets the time of a later one wrong.
pub stored_only-clock :
    (refused next : Header) (p : Packet) (s : Stream)
    → Agrees p s
    → 0xFFFFFF ≤ refused.length
    → next.length < 0xFFFFFF
    → next.cid ≡ refused.cid
    → next.stream_id ≡ refused.stream_id
    → next.fmt ≡ type_1
    → p.clock < refused.timestamp
    → refused.timestamp ≤ next.timestamp
    → next.timestamp < refused.timestamp + 0xFFFFFF
    → next.timestamp < 2 ^ 32
    → let remembered : Packet = record { header = compress refused p; clock = refused.timestamp } in
      (receive (wire_of (compress next remembered)) s).clock ≢ next.timestamp
unfolding receive
stored_only-clock refused next p s a long short cid id fmt before after near fits =
    let (same_cid, same_length, same_id) = compress-keeps refused p in
    rw
      (compress_to_type_1 next (record { header = compress refused p; clock = refused.timestamp })
        fmt (cid ∙ sym same_cid) (id ∙ sym same_id) after near (omega arith))
      (omega (arith, a.clock))
