-- ===== src/PlaySession/Message.antt =====
-- One frame on the channel of a session, from channel_out of rtmp_forward_session.cc down to the chunks
-- of rtmp_server_context.cc.
use simple_rtmp.Base.{
  ℕ, ◌%◌, ◌^◌, ◌≤◌, ◌<◌, ◌≡◌, refl, sym, ap, ◌∙◌, List, [], ◌∷◌, ◌++◌, map, append-nil,
  append_assoc, true, some, length, ◌==◌, if◌then◌else◌, arith, take_all,
}
use simple_rtmp.Base.Int.{pos, to_u32}
use simple_rtmp.Codec.{video, audio}
use simple_rtmp.Frame.{FrameBuffer, size, media, pts, bytes_of}
use simple_rtmp.Sink.{frame}
use simple_rtmp.Chunk.{
  type_1, Header, Packet, at, compress, zip_at, asserts_hold, rtmp_packet_find_help,
  rtmp_chunk_header_zip_help, rtmp_chunk_write_help, first_header, next_header, Writers, Written,
}
use simple_rtmp.Chunk.Lookup.{find_sound, find-set}
use simple_rtmp.Chunk.Receiver.{compress-keeps}
use simple_rtmp.Chunk.Stream.{compress-cid}
use simple_rtmp.Chunk.Pieces.{joined, sizes, heads, IsFilled, headed, write_help_sends}
use simple_rtmp.Server.{Context, Library}
use simple_rtmp.Server.Messages.{
  send, send_each, write_help, rtmp_server_send_video, rtmp_server_send_audio,
  rtmp_server_send_script,
}
use simple_rtmp.PlaySession.{
  written, PlaySession, handlers, write_frames, with_context, send_media, channel_out,
}

-- The chunk stream and the type of a frame's message.
abbrev pub channel_of : Library → FrameBuffer → ℕ
channel_of lib f =
    if media f == video
    then lib.channel_video
    else if media f == audio
    then lib.channel_audio
    else lib.channel_invoke

abbrev pub type_of : Library → FrameBuffer → ℕ
type_of lib f =
    if media f == video
    then lib.type_video
    else if media f == audio
    then lib.type_audio
    else lib.type_data

-- The message of a frame: the converted time, the size.
abbrev pub header_of : Library → ℕ → FrameBuffer → Header
header_of lib stream_id f = record {
  fmt = type_1;
  cid = channel_of lib f;
  timestamp = to_u32 (pts f);
  length = size f;
  type = type_of lib f;
  stream_id = stream_id;
}

-- A frame of a kind that is sent, whose size is that of its bytes, of which there are some, and fits a
-- message.
pub record IsMedia (f : FrameBuffer) : Type 0 where
  pub kind : media f ≤ 2
  pub sized : length (bytes_of f) ≡ size f
  pub some_bytes : 1 ≤ size f
  pub fits : size f < 0xFFFFFF

-- What is sent for a frame: its bytes in pieces that fill the chunks, each behind a chunk header, and
-- the first one behind the message's.
pub record IsMessage (w : Writers) (chunk : ℕ) (f : FrameBuffer) (h : Header)
    (sent : List FrameBuffer) : Type 0 where
  pub pieces : joined sent ≡ bytes_of f
  pub filled : IsFilled chunk (sizes sent)
  pub labels : heads sent ≡ headed (first_header w h) (next_header w h) (sizes sent)

abbrev pub AreMessages : Writers → ℕ → List FrameBuffer → List (Header × List FrameBuffer) → Type 0
AreMessages w chunk [] [] = Unit
AreMessages w chunk (f ∷ fs) ((h, sent) ∷ ms) =
    IsMessage w chunk f h sent × AreMessages w chunk fs ms
AreMessages w chunk _ _ = ⊥

abbrev pub all_sent : List (Header × List FrameBuffer) → List FrameBuffer
all_sent [] = []
all_sent ((h, sent) ∷ ms) = sent ++ all_sent ms

abbrev pub headers : List (Header × List FrameBuffer) → List Header
headers [] = []
headers ((h, sent) ∷ ms) = h ∷ headers ms

-- The library's chunk streams can be written.
pub record IsNumbered (lib : Library) : Type 0 where
  pub invoke : (2 ≤ lib.channel_invoke) × (lib.channel_invoke ≤ 65599)
  pub audio : (2 ≤ lib.channel_audio) × (lib.channel_audio ≤ 65599)
  pub video : (2 ≤ lib.channel_video) × (lib.channel_video ≤ 65599)

abbrev HasSlot : List Packet → ℕ → Type 0
HasSlot table cid = (j : ℕ) × (rtmp_packet_find_help table cid ≡ some j)

-- A context that sends media: the player wants both, and there is a slot for each kind.
pub record Sending (lib : Library) (c : Context) : Type 0 where
  pub chunk : 0 < c.out_chunk_size
  pub wants_audio : 0 < c.receive_audio
  pub wants_video : 0 < c.receive_video
  pub slots : (f : FrameBuffer) → HasSlot c.out_packets (channel_of lib f)

send_each-sent :
    (lib : Library) (n : ℕ) (fs : List FrameBuffer) (c : Context)
    → send_each lib (handlers n) fs c ≡ some (tt, record c { sent = c.sent ++ fs })
unfolding send_each send
send_each-sent lib n [] c = ap (λ fs. some (tt, record c { sent = fs })) (sym (append-nil c.sent))
send_each-sent lib n (f ∷ fs) c =
    send_each-sent lib n fs (record c { sent = c.sent ++ f ∷ [] })
    ∙ ap (λ gs. some (tt, record c { sent = gs })) (append_assoc c.sent (f ∷ []) fs)

pub write_help-sent :
    (lib : Library) (n : ℕ) (header : Header) (f : FrameBuffer) (c : Context) (w : Written)
    → rtmp_chunk_write_help lib.writers c.out_chunk_size c.out_packets header f ≡ some w
    → write_help lib (handlers n) header f c
      ≡ some (w.result, record c { out_packets = w.table; sent = c.sent ++ w.sent })
unfolding write_help
write_help-sent lib n header f c w e =
    ground (arith, e, send_each-sent lib n w.sent (record c { out_packets = w.table }))

module _ (lib : Library) (numbered : IsNumbered lib) where
  header-asserts_hold : (id : ℕ) (f : FrameBuffer) → asserts_hold (header_of lib id f) ≡ true
  unfolding asserts_hold
  header-asserts_hold id f = ground (arith, numbered.invoke, numbered.audio, numbered.video)

  -- The header is compressed against its slot.
  zip-found :
      (id : ℕ) (f : FrameBuffer) (table : List Packet) (j : ℕ)
      → rtmp_packet_find_help table (channel_of lib f) ≡ some j
      → rtmp_chunk_header_zip_help table (header_of lib id f)
        ≡ some (zip_at (header_of lib id f) table j)
  unfolding rtmp_chunk_header_zip_help
  zip-found id f table j found = rw (header-asserts_hold id f) (rw found refl)

  -- And every chunk stream keeps its slot.
  zip-keeps :
      (id : ℕ) (f : FrameBuffer) (table : List Packet) (j cid : ℕ)
      → rtmp_packet_find_help table (channel_of lib f) ≡ some j
      → rtmp_packet_find_help (zip_at (header_of lib id f) table j).1 cid
        ≡ rtmp_packet_find_help table cid
  unfolding zip_at
  zip-keeps id f table j cid found =
      let h = header_of lib id f in
      find-set table j (record { header = compress h (at table j); clock = h.timestamp }) cid
        (compress-cid h (at table j) ∙ sym (find_sound table (channel_of lib f) j found).1)

-- The three senders, for a player that wants both media.
send_media-write_help :
    (lib : Library) (n : ℕ) (f : FrameBuffer) (c : Context)
    → IsMedia f
    → 0 < c.receive_audio
    → 0 < c.receive_video
    → send_media lib n f c ≡ write_help lib (handlers n) (header_of lib c.stream_id f) f c
unfolding send_media rtmp_server_send_video rtmp_server_send_audio rtmp_server_send_script
send_media-write_help lib n f c m a v =
    let whole : size f % 2 ^ 32 ≡ size f = omega (arith, m.fits) in ground (arith, m.kind, whole)

module _ (lib : Library) (numbered : IsNumbered lib) (n : ℕ) where
  -- One frame.
  pub channel_out-sends :
      (f : FrameBuffer) (s : PlaySession)
      → IsMedia f
      → Sending lib s.ctx
      → s.conn ≡ true
      → (h : Header) × (table : List Packet) × (sent : List FrameBuffer)
        × (rtmp_chunk_header_zip_help s.ctx.out_packets (header_of lib s.ctx.stream_id f)
            ≡ some (h, table))
        × (channel_out lib n (frame f) s
            ≡ some (record s {
              ctx = record (s.ctx) { out_packets = table; sent = sent };
              outputs = s.outputs ++ map written sent;
            }))
        × Sending lib (record (s.ctx) { out_packets = table; sent = sent })
        × IsMessage lib.writers s.ctx.out_chunk_size f h sent
  unfolding channel_out with_context write_frames zip_at
  channel_out-sends f s m v open_conn =
      let c : Context = record (s.ctx) { sent = [] } in
      let header = header_of lib c.stream_id f in
      let (j, found) = v.slots f in
      let (h, table) = zip_at header c.out_packets j in
      let zipped = zip-found lib numbered c.stream_id f c.out_packets j found in
      let same : h.length ≡ size f = (compress-keeps header (at c.out_packets j)).1 in
      let (sent, q, whole, filled, labels) =
        write_help_sends lib.writers c.out_chunk_size c.out_packets header f h table zipped
          (omega (arith, same, m.fits)) v.chunk in
      (
        h,
        table,
        sent,
        zipped,
        ground (
          arith,
          open_conn,
          send_media-write_help lib n f c m v.wants_audio v.wants_video,
          write_help-sent lib n header f c (record { result = pos 0; sent = sent; table = table })
              q,
        ),
        record {
          chunk = v.chunk;
          wants_audio = v.wants_audio;
          wants_video = v.wants_video;
          slots = λ g. (
            (v.slots g).0,
            zip-keeps lib numbered c.stream_id f c.out_packets j (channel_of lib g) found
                ∙ (v.slots g).1,
          );
        },
        record {
          pieces = whole ∙ take_all h.length (bytes_of f) (omega (arith, same, m.sized));
          filled = filled;
          labels = labels;
        },
      )
