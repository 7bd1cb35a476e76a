-- ===== src/Gb28181/Stuck.antt =====
-- A packet that cannot be read stays in front, gb28181_rtp_demuxer.cc.
use simple_rtmp.Base.{
  ℕ, ◌+◌, ◌*◌, ◌≤◌, ◌≡◌, sym, ap, ◌∙◌, List, [], ◌∷◌, ◌++◌, append-nil, append_assoc, none, some,
  length, take, drop, replicate, arith, length-append, take-length_append,
}
use simple_rtmp.Frame.{FrameBuffer, bytes_of}
use simple_rtmp.Sink.{failed}
use simple_rtmp.Gb28181.Rtp.{
  Library, RtpDemuxer, protocol_error, rtp_payload_size, on_frame, take_packet, write, write_all,
}
use simple_rtmp.Gb28181.Takes.{stream}

module _ {P Q : Type 0} (lib : Library P Q) (c : ℕ) where
  -- Bytes that begin with a whole packet which the library does not read.
  pub record IsStuck (xs : List ℕ) : Type 0 where
    pub content : List ℕ
    pub rest : List ℕ
    pub high : ℕ
    pub low : ℕ
    pub framed : xs ≡ high ∷ low ∷ (content ++ rest)
    pub sized : length content ≡ high * 256 + low
    pub refused : lib.deserialize content ≡ none

  IsStuck-append : (xs ys : List ℕ) → IsStuck xs → IsStuck (xs ++ ys)
  IsStuck-append xs ys v = record {
    content = v.content;
    rest = v.rest ++ ys;
    high = v.high;
    low = v.low;
    framed =
        ap (λ zs. zs ++ ys) v.framed
        ∙ ap (λ zs. v.high ∷ v.low ∷ zs) (append_assoc v.content v.rest ys);
    sized = v.sized;
    refused = v.refused;
  }

  stuck_fails :
      (xs : List ℕ) (d : RtpDemuxer Q)
      → IsStuck xs
      → d.ch ≡ some c
      → take_packet lib (rtp_payload_size xs) (record d { received = xs })
        ≡ some (record d { received = xs; sent = d.sent ++ (c, failed protocol_error) ∷ [] })
  unfolding take_packet on_frame
  stuck_fails xs d v there =
      let n : rtp_payload_size xs ≡ length v.content = ap rtp_payload_size v.framed ∙ sym v.sized in
      let taken : lib.deserialize (take (rtp_payload_size xs) (drop 2 xs)) ≡ none =
        ap (λ k. lib.deserialize (take k (drop 2 xs))) n
        ∙ ap (λ ys. lib.deserialize (take (length v.content) (drop 2 ys))) v.framed
        ∙ ap lib.deserialize (take-length_append v.content v.rest)
        ∙ v.refused in
      ground (arith, taken, there)

  write-stuck :
      (f : FrameBuffer) (d : RtpDemuxer Q)
      → IsStuck d.received
      → d.ch ≡ some c
      → write lib f d
        ≡ some (record d {
          received = d.received ++ bytes_of f;
          sent = d.sent ++ (c, failed protocol_error) ∷ [];
        })
  unfolding write
  write-stuck f d v there =
      let xs = d.received ++ bytes_of f in
      let v' = IsStuck-append d.received (bytes_of f) v in
      let size : rtp_payload_size xs ≡ length v'.content =
        ap rtp_payload_size v'.framed ∙ sym v'.sized in
      let whole : rtp_payload_size xs + 2 ≤ length xs =
        omega (arith, size, ap length v'.framed, length-append v'.content v'.rest) in
      ground (arith, whole, stuck_fails xs d v' there)

  -- Once a whole packet that the library does not read stands in front, nothing else comes out: every
  -- further write hands on the same error, whatever it brings, and all of it is kept.
  pub write_all-stuck :
      (fs : List FrameBuffer) (d : RtpDemuxer Q)
      → IsStuck d.received
      → d.ch ≡ some c
      → write_all lib fs d
        ≡ some (record d {
          received = d.received ++ stream fs;
          sent = d.sent ++ replicate (length fs) (c, failed protocol_error);
        })
  unfolding write_all
  write_all-stuck [] d v there =
      ap (λ xs. some (record d { received = xs })) (sym (append-nil d.received))
      ∙ ap (λ ys. some (record d { received = d.received ++ []; sent = ys }))
          (sym (append-nil d.sent))
  write_all-stuck (f ∷ fs) d v there =
      let d1 : RtpDemuxer Q = record d {
        received = d.received ++ bytes_of f;
        sent = d.sent ++ (c, failed protocol_error) ∷ [];
      } in
      ground (
        arith,
        write-stuck f d v there,
        write_all-stuck fs d1 (IsStuck-append d.received (bytes_of f) v) there,
        append_assoc d.received (bytes_of f) (stream fs),
        append_assoc d.sent ((c, failed protocol_error) ∷ [])
            (replicate (length fs) (c, failed protocol_error)),
      )
