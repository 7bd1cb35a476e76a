-- ===== src/Chunk/Refused.antt =====
-- What a refused message does to the next one on its chunk stream, rtmp-chunk-write.c.
use simple_rtmp.Base.{
  ℕ, ◌+◌, ◌^◌, ◌≤◌, ◌<◌, ◌≡◌, ◌≢◌, sym, ap, ◌∙◌, subst, List, [], set, some, arith, Option-cases,
  inl, inr,
}
use simple_rtmp.Frame.{FrameBuffer}
use simple_rtmp.Chunk.{
  type_1, Header, Packet, Writers, Written, at, compress, zip_at, minus_einval,
  rtmp_packet_find_help, rtmp_chunk_header_zip_help, rtmp_chunk_write_help,
}
use simple_rtmp.Chunk.Lookup.{find_sound, find-set, at-set_self}
use simple_rtmp.Chunk.Receiver.{Stream, Agrees, receive, wire_of, compress-keeps, stored_only-clock}
use simple_rtmp.Chunk.Stream.{compress-cid, zip-some}
use simple_rtmp.Chunk.Pieces.{write_help_refuses}

module _ (table : List Packet) (refused : Header) (j : ℕ)
    (found : rtmp_packet_find_help table refused.cid ≡ some j) where
  remembered : Packet
  remembered = record { header = compress refused (at table j); clock = refused.timestamp }

  -- The header after a stored one on the same chunk stream.
  zip-after :
      (next : Header) (r : Header × List Packet)
      → next.cid ≡ refused.cid
      → rtmp_chunk_header_zip_help (set table j remembered) next ≡ some r
      → r.0 ≡ compress next remembered
  unfolding remembered zip_at
  zip-after next r same zipped =
      let (i, found_i, z) = zip-some (set table j remembered) next r zipped in
      let v = find_sound table refused.cid j found in
      let kept =
        find-set table j remembered next.cid (compress-cid refused (at table j) ∙ sym v.1) in
      let q : i ≡ j = cc in
      let stored = at-set_self table j remembered v.0 in
      ap (λ t. t.0) (sym z)
      ∙ ap (λ k. compress next (at (set table j remembered) k)) q
      ∙ ap (compress next) stored

  -- What a refused call leaves.
  refused-leaves :
      (w : Writers) (chunk : ℕ) (frame : FrameBuffer) (written : Written)
      → rtmp_chunk_write_help w chunk table refused frame ≡ some written
      → 0xFFFFFF ≤ refused.length
      → record { result = minus_einval; sent = []; table = set table j remembered } ≡ written
  unfolding rtmp_chunk_write_help zip_at remembered
  refused-leaves w chunk frame written e long =
      elim (Option-cases (rtmp_chunk_header_zip_help table refused)) [
        | inl failed ↦ ground (arith, failed, e)
        | inr ((h, table'), zipped) ↦
            let (i, found_i, z) = zip-some table refused (h, table') zipped in
            let q : i ≡ j = cc in
            let z' : zip_at refused table j ≡ (h, table') = ap (zip_at refused table) (sym q) ∙ z in
            let size : refused.length ≡ h.length =
              sym (compress-keeps refused (at table j)).1 ∙ ap (λ t. t.0.length) z' in
            let left =
              write_help_refuses w chunk table refused frame h table' zipped (omega arith) in
            let stored : record { result = minus_einval; sent = []; table = table' } ≡ written =
              cc (left, e) in
            ap (λ t. record { result = minus_einval; sent = []; table = t }) (ap (λ t. t.1) z')
            ∙ stored
      ]

-- A message that is too long is refused: the call returns -EINVAL and sends nothing, and yet the table that
-- it leaves holds the message. The receiver then gets the time of the next message on the chunk stream
-- wrong: the difference in its header is to the time of the refused message, which the receiver never saw.
-- Before this, the receiver agrees with the slot of the chunk stream; the refused message is later than
-- that of the slot; and the next one may be compressed, has the same stream id and a fitting length, is
-- not earlier, and less than 0xFFFFFF later, with times of 32 bits.
pub refused_desync :
    (w : Writers) (chunk : ℕ) (table : List Packet) (refused next : Header) (frame : FrameBuffer)
    (j : ℕ) (s : Stream) (written : Written) (r : Header × List Packet)
    → rtmp_packet_find_help table refused.cid ≡ some j
    → Agrees (at table j) s
    → rtmp_chunk_write_help w chunk table refused frame ≡ some written
    → rtmp_chunk_header_zip_help written.table next ≡ some r
    → 0xFFFFFF ≤ refused.length
    → next.length < 0xFFFFFF
    → next.cid ≡ refused.cid
    → next.stream_id ≡ refused.stream_id
    → next.fmt ≡ type_1
    → (at table j).clock < refused.timestamp
    → refused.timestamp ≤ next.timestamp
    → next.timestamp < refused.timestamp + 0xFFFFFF
    → next.timestamp < 2 ^ 32
    → (written.result ≡ minus_einval)
      × (written.sent ≡ [])
      × ((receive (wire_of r.0) s).clock ≢ next.timestamp)
unfolding remembered
refused_desync w chunk table refused next frame j s written r found a e zipped long short cid id fmt
      before after near fits =
    let left = refused-leaves table refused j found w chunk frame written e long in
    let zipped' = ap (λ t. rtmp_chunk_header_zip_help t next) (ap (λ t. t.table) left) ∙ zipped in
    let header = zip-after table refused j found next r cid zipped' in
    let wrong =
      stored_only-clock refused next (at table j) s a long short cid id fmt before after near
        fits in
    (
      ap (λ t. t.result) (sym left),
      ap (λ t. t.sent) (sym left),
      subst (λ h. (receive (wire_of h) s).clock ≢ next.timestamp) (sym header) wrong,
    )
