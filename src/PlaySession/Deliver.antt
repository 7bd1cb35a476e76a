-- ===== src/PlaySession/Deliver.antt =====
-- What an RTMP player receives of a series of frames, from channel_out of rtmp_forward_session.cc down
-- to the chunks of rtmp_server_context.cc, and from there up again as a receiver reads them.
use simple_rtmp.Base.{
  ℕ, ◌^◌, ◌<◌, ◌≡◌, refl, sym, ap, ◌∙◌, List, [], ◌∷◌, ◌++◌, map, append-nil, append_assoc, true,
  some, arith, All,
}
use simple_rtmp.Base.Int.{ℤ, pos, negsuc, to_u32}
use simple_rtmp.Frame.{FrameBuffer, media, pts}
use simple_rtmp.Sink.{frame}
use simple_rtmp.Chunk.{Header, Packet, rtmp_chunk_header_zip_help}
use simple_rtmp.Chunk.Receiver.{Stream, message_of}
use simple_rtmp.Chunk.Stream.{zip_all, hear_all, InTune, Fits, hear_all-zip_all}
use simple_rtmp.Server.{Library}
use mathlib.Core.List.{map-append}
use simple_rtmp.PlaySession.{written, PlaySession, channel_outs}
use simple_rtmp.PlaySession.Message.{
  header_of, IsMedia, AreMessages, all_sent, headers, IsNumbered, Sending, channel_out-sends,
}

headers-Fits :
    (lib : Library) (id : ℕ) (fs : List FrameBuffer) → All Fits (map (header_of lib id) fs)
headers-Fits lib id [] = tt
headers-Fits lib id (f ∷ fs) = (to_u32-lt (pts f), headers-Fits lib id fs)
  where
    to_u32-lt : (t : ℤ) → to_u32 t < 2 ^ 32
    to_u32-lt (pos n) = omega arith
    to_u32-lt (negsuc n) = omega arith

zip_all-first :
    (table table' : List Packet) (m h : Header) (ms hs : List Header)
    → rtmp_chunk_header_zip_help table m ≡ some (h, table')
    → zip_all table' ms ≡ some hs
    → zip_all table (m ∷ ms) ≡ some (h ∷ hs)
unfolding zip_all
zip_all-first table table' m h ms hs e r = ground (arith, e, r)

module _ (lib : Library) (numbered : IsNumbered lib) (n : ℕ) where
  channel_outs-sends :
      (fs : List FrameBuffer) (s : PlaySession)
      → All IsMedia fs
      → Sending lib s.ctx
      → s.conn ≡ true
      → (s' : PlaySession) × (ms : List (Header × List FrameBuffer)) × (channel_outs lib n
            (map frame fs)
            s
          ≡ some s')
        × (s'.outputs ≡ s.outputs ++ map written (all_sent ms))
        × AreMessages lib.writers s.ctx.out_chunk_size fs ms
        × (zip_all s.ctx.out_packets (map (header_of lib s.ctx.stream_id) fs) ≡ some (headers ms))
  unfolding channel_outs zip_all
  channel_outs-sends [] s media v open_conn = (s, [], refl, sym (append-nil s.outputs), tt, refl)
  channel_outs-sends (f ∷ fs) s (m, media) v open_conn =
      let (h, table, sent, zipped, q, v1, message) =
        channel_out-sends lib numbered n f s m v open_conn in
      let s1 : PlaySession = record s {
        ctx = record (s.ctx) { out_packets = table; sent = sent };
        outputs = s.outputs ++ map written sent;
      } in
      let (s', ms, r, outs, messages, zips) = channel_outs-sends fs s1 media v1 open_conn in
      (
        s',
        (h, sent) ∷ ms,
        ground (arith, q, r),
        outs
            ∙ append_assoc s.outputs (map written sent) (map written (all_sent ms))
            ∙ ap (λ xs. s.outputs ++ xs) (sym (map-append written sent (all_sent ms))),
        (message, messages),
        zip_all-first s.ctx.out_packets table (header_of lib s.ctx.stream_id f) h
            (map (header_of lib s.ctx.stream_id) fs) (headers ms) zipped zips,
      )

  -- Whatever frames are written to the channel of a session whose connection is open and whose player
  -- wants both media, what goes out on the connection is a series of messages, one for each frame in
  -- order: the frame's bytes in chunks, of which all but the last are full, behind chunk headers. A
  -- receiver that agrees with the session's context at first reads of these headers each frame's chunk
  -- stream, converted time, size, kind and the stream's id. A frame has bytes, as many as its size
  -- says and fewer than 0xFFFFFF, and each kind has its chunk stream and slot.
  pub channel_outs-heard :
      (fs : List FrameBuffer) (s : PlaySession) (streams : ℕ → Stream)
      → All IsMedia fs
      → Sending lib s.ctx
      → s.conn ≡ true
      → InTune s.ctx.out_packets streams
      → (s' : PlaySession) × (ms : List (Header × List FrameBuffer)) × (channel_outs lib n
            (map frame fs)
            s
          ≡ some s')
        × (s'.outputs ≡ s.outputs ++ map written (all_sent ms))
        × AreMessages lib.writers s.ctx.out_chunk_size fs ms
        × (hear_all streams (headers ms) ≡ map message_of (map (header_of lib s.ctx.stream_id) fs))
  channel_outs-heard fs s streams media v open_conn tuned =
      let (s', ms, q, outs, messages, zips) = channel_outs-sends fs s media v open_conn in
      (
        s',
        ms,
        q,
        outs,
        messages,
        hear_all-zip_all (map (header_of lib s.ctx.stream_id) fs) s.ctx.out_packets streams
            (headers ms) tuned (headers-Fits lib s.ctx.stream_id fs) zips,
      )
