-- ===== src/Chunk.antt =====
-- Writing a message as RTMP chunks, the first part of rtmp_server_context.cc.
-- An assertion that fails is `none`. The chunk types are a data type. The functions of the
-- media-server library that write header bytes are the parameters of `Writers`, and
-- RTMP_CHUNK_TYPE_0 to 3 are its names for the four types.
pub mod Lookup
pub mod Receiver
pub mod Stream
pub mod Pieces
pub mod Refused
mod Runs
use simple_rtmp.Base.{
  ℕ, zero, suc, ◌+◌, ◌-◌, ◌%◌, ◌^◌, ◌≤◌, ◌<◌, min, List, [], ◌∷◌, ◌++◌, Bool, true, false, not,
  ◌&&◌, ◌||◌, Option, none, some, length, get_or, set, ltb, leb, ◌==◌, if◌then◌else◌,
}
use simple_rtmp.Base.Int.{ℤ, pos, negsuc}
use simple_rtmp.Frame.{FrameBuffer, create, create_ref}

pub data ChunkType : Type 0 where
  type_0 type_1 type_2 type_3 : ChunkType

-- `struct rtmp_chunk_header_t`: uint32_t numbers. In a stored header `timestamp` is the time of the
-- message for type 0 and the difference to the time before for the others.
pub record Header : Type 0 where
  pub fmt : ChunkType
  pub cid : ℕ
  pub timestamp : ℕ
  pub length : ℕ
  pub type : ℕ
  pub stream_id : ℕ

-- `struct rtmp_packet_t`: the last header of a chunk stream and the time of its last message.
pub record Packet : Type 0 where
  pub header : Header
  pub clock : ℕ

abbrev pub zero_packet : Packet
zero_packet = record {
  header = record { fmt = type_0; cid = 0; timestamp = 0; length = 0; type = 0; stream_id = 0 };
  clock = 0;
}

abbrev pub at : List Packet → ℕ → Packet
at table i = get_or table i zero_packet

-- The loop over the slots (i + cid) % N_CHUNK_STREAM; the first argument counts the rounds left.
unfoldable pub find_loop : ℕ → ℕ → ℕ → List Packet → Option ℕ
find_loop zero i cid table = none
find_loop (suc left) i cid table =
    let rest = find_loop left (i + 1) cid table in
    let j = (i + cid) % length table in if (at table j).header.cid == cid then some j else rest

-- `none` where no slot has the id. The assertion on `cid` is made in `asserts_hold`.
unfoldable pub rtmp_packet_find_help : List Packet → ℕ → Option ℕ
unfolding find_loop
rtmp_packet_find_help table cid = find_loop (length table) 0 cid table

abbrev pub is_type_0 : ChunkType → Bool
is_type_0 type_0 = true
is_type_0 _ = false

abbrev pub is_type_1 : ChunkType → Bool
is_type_1 type_1 = true
is_type_1 _ = false

-- The three assertions before the search and in it.
unfoldable pub asserts_hold : Header → Bool
asserts_hold h =
    not (h.cid == 0)
    && (not (h.cid == 1)
        && ((is_type_0 h.fmt || is_type_1 h.fmt) && (leb h.cid (65535 + 64) && leb 2 h.cid)))

-- The header that is stored and sent for `header` after the packet `pkt`.
unfoldable pub compress : Header → Packet → Header
compress header pkt =
    if not (is_type_0 header.fmt)
      && (header.cid == pkt.header.cid
          && (leb pkt.clock header.timestamp
              && (ltb (header.timestamp - pkt.clock) 0xFFFFFF
                  && header.stream_id == pkt.header.stream_id)))
    then (let delta = header.timestamp - pkt.clock in
        if header.type == pkt.header.type && header.length == pkt.header.length
        then (if delta == pkt.header.timestamp
            then record header { fmt = type_3; timestamp = delta }
            else record header { fmt = type_2; timestamp = delta })
        else record header { fmt = type_1; timestamp = delta })
    else record header { fmt = type_0 }

-- The sent header with the table that remembers it.
unfoldable pub zip_at : Header → List Packet → ℕ → Header × List Packet
unfolding compress
zip_at header table j =
    let h = compress header (at table j) in
    (h, set table j (record { header = h; clock = header.timestamp }))

unfoldable pub rtmp_chunk_header_zip_help : List Packet → Header → Option (Header × List Packet)
unfolding rtmp_packet_find_help asserts_hold zip_at
rtmp_chunk_header_zip_help table header =
    if asserts_hold header
    then elim (rtmp_packet_find_help table header.cid) [
      | none ↦ none
      | some j ↦ some (zip_at header table j)
    ]
    else none

-- rtmp_chunk_basic_header_write, rtmp_chunk_message_header_write and
-- rtmp_chunk_extended_timestamp_write: the bytes that each writes.
pub record Writers : Type 0 where
  pub basic_header : ChunkType → ℕ → List ℕ
  pub message_header : Header → List ℕ
  pub extended_timestamp : ℕ → List ℕ

-- What a call returns (-EINVAL is -22), what it sends and the table that it leaves.
pub record Written : Type 0 where
  pub result : ℤ
  pub sent : List FrameBuffer
  pub table : List Packet

abbrev pub minus_einval : ℤ
minus_einval = negsuc 21

module _ (w : Writers) where
  abbrev pub extended_part : Header → List ℕ
  extended_part h = if leb 0xFFFFFF h.timestamp then w.extended_timestamp h.timestamp else []

  abbrev pub first_header : Header → List ℕ
  first_header h = w.basic_header h.fmt h.cid ++ (w.message_header h ++ extended_part h)

  abbrev pub next_header : Header → List ℕ
  next_header h = w.basic_header type_3 h.cid ++ extended_part h

  -- The loop: `head` is the header to send now, `start` how far into the frame `payload` points and
  -- `left` the payloadSize. Two buffers are sent in each round. `none` means that the fuel ran out.
  unfoldable pub write_loop :
      ℕ → Header → ℕ → FrameBuffer → List ℕ → ℕ → ℕ → Option (List FrameBuffer)
  write_loop fuel h out_chunk_size frame head start zero = some []
  write_loop zero h out_chunk_size frame head start (suc left) = none
  write_loop (suc fuel) h out_chunk_size frame head start (suc left) =
      let n = min (suc left) out_chunk_size in
      elim (write_loop fuel h out_chunk_size frame (next_header h) (start + n) (suc left - n)) [
        | none ↦ none
        | some sent ↦ some (create head ∷ (create_ref start n frame ∷ sent))
      ]

  unfoldable pub write_zipped : ℕ → FrameBuffer → Header × List Packet → Option Written
  write_zipped out_chunk_size frame (h, table) =
      if leb 0xFFFFFF h.length
      then some (record { result = minus_einval; sent = []; table = table })
      else elim (write_loop h.length h out_chunk_size frame (first_header h) 0 h.length) [
        | none ↦ none
        | some sent ↦ some (record { result = pos 0; sent = sent; table = table })
      ]

  unfoldable pub rtmp_chunk_write_help : ℕ → List Packet → Header → FrameBuffer → Option Written
  rtmp_chunk_write_help out_chunk_size table header frame =
      elim (rtmp_chunk_header_zip_help table header) [
        | none ↦ none
        | some zipped ↦ write_zipped out_chunk_size frame zipped
      ]
