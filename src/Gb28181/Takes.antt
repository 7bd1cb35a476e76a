-- ===== src/Gb28181/Takes.antt =====
-- What one write does where a packet is there whole, and where none is, gb28181_rtp_demuxer.cc.
use simple_rtmp.Base.{
  ℕ, ◌+◌, ◌*◌, ◌≤◌, ◌<◌, ◌≡◌, ◌⊎◌, refl, sym, ap, ◌∙◌, List, [], ◌∷◌, ◌++◌, append_assoc, some,
  length, take, drop, arith, inl, inr, length-append, drop-drop,
}
use simple_rtmp.Frame.{FrameBuffer, bytes_of}
use simple_rtmp.Sink.{Signal, frame}
use native.Mathlib.Decide.{dec_lt}
use simple_rtmp.Gb28181.Rtp.{
  Library, RtpDemuxer, rtp_payload_size, on_frame, frame_of, pass_on, take_packet, write,
}

-- The bytes of frames in a row.
abbrev pub stream : List FrameBuffer → List ℕ
stream [] = []
stream (f ∷ fs) = bytes_of f ++ stream fs

module _ {P Q : Type 0} (lib : Library P Q) where
  -- The queue, as it stands, has room for these packets and is missing none before them: it hands out
  -- each as it is put in.
  abbrev pub HandsOut : Q → List P → Type 0
  HandsOut queue [] = Unit
  HandsOut queue (p ∷ ps) =
      (queue' : Q) × (lib.queue_read (lib.queue_write queue p).1 ≡ (some p, queue'))
      × HandsOut queue' ps

  -- Some bytes are a packet of this content: its length in two bytes, and what the library reads.
  pub record IsPacket (bytes : List ℕ) (p : P) : Type 0 where
    pub content : List ℕ
    pub high : ℕ
    pub low : ℕ
    pub framed : bytes ≡ high ∷ low ∷ content
    pub sized : length content ≡ high * 256 + low
    pub read : lib.deserialize content ≡ some p

  abbrev pub ArePackets : List (List ℕ) → List P → Type 0
  ArePackets [] [] = Unit
  ArePackets (b ∷ bs) (p ∷ ps) = IsPacket b p × ArePackets bs ps
  ArePackets _ _ = ⊥

unfoldable pub join : List (List ℕ) → List ℕ
join [] = []
join (b ∷ bs) = b ++ join bs

-- Two ways to cut a list, the second piece of which begins with `content`.
cut :
    (xs later content rest : List ℕ)
    → xs ++ later ≡ content ++ rest
    → length content ≤ length xs
    → (take (length content) xs ≡ content) × (drop (length content) xs ++ later ≡ rest)
cut xs later [] rest e h = (refl, e)
cut [] later (y ∷ content) rest e h = absurd (omega arith)
cut (x ∷ xs) later (y ∷ content) rest e h =
    let (taken, left) = cut xs later content rest (ground (arith, e)) (omega arith) in
    (ground (arith, taken, e), left)

module _ {P Q : Type 0} (lib : Library P Q) (c : ℕ) where
  abbrev pub out : P → ℕ × Signal
  out p = (c, frame (frame_of lib p))

  pub Waits : List ℕ → Type 0
  Waits xs = (length xs < 2) ⊎ (length xs < rtp_payload_size xs + 2)

  pub write-Waits :
      (f : FrameBuffer) (d : RtpDemuxer Q)
      → Waits (d.received ++ bytes_of f)
      → write lib f d ≡ some (record d { received = d.received ++ bytes_of f })
  unfolding write Waits
  write-Waits f d (inl short) = ground arith
  write-Waits f d (inr short) = ground arith

  pass_on-direct :
      (p : P) (queue' : Q) (d : RtpDemuxer Q)
      → lib.queue_read (lib.queue_write d.queue p).1 ≡ (some p, queue')
      → d.ch ≡ some c
      → pass_on lib p d ≡ some (record d { queue = queue'; sent = d.sent ++ out p ∷ [] })
  unfolding pass_on on_frame
  pass_on-direct p queue' d hands_out there = ground (arith, there, hands_out)

  -- A packet that is there whole, with other bytes behind it.
  take_packet-direct :
      (high low : ℕ) (content rest : List ℕ) (p : P) (queue' : Q) (xs : List ℕ) (d : RtpDemuxer Q)
      → lib.queue_read (lib.queue_write d.queue p).1 ≡ (some p, queue')
      → d.ch ≡ some c
      → d.received ≡ high ∷ low ∷ xs
      → take (high * 256 + low) xs ≡ content
      → lib.deserialize content ≡ some p
      → take_packet lib (high * 256 + low) d
        ≡ some (record d {
          received = drop (2 + (high * 256 + low)) d.received;
          queue = queue';
          sent = d.sent ++ out p ∷ [];
        })
  unfolding take_packet
  take_packet-direct high low content rest p queue' xs d hands_out there begins taken read =
      let n = high * 256 + low in
      let found : lib.deserialize (take n (drop 2 d.received)) ≡ some p =
        ap (λ bytes. lib.deserialize (take n (drop 2 bytes))) begins
        ∙ ap lib.deserialize taken
        ∙ read in
      ground (
        arith,
        found,
        pass_on-direct p queue' (record d { received = drop (2 + n) d.received }) hands_out there,
      )

  two_bytes : (xs : List ℕ) → 2 ≤ length xs → (x y : ℕ) × (zs : List ℕ) × (xs ≡ x ∷ y ∷ zs)
  two_bytes [] h = absurd (omega arith)
  two_bytes (x ∷ []) h = absurd (omega arith)
  two_bytes (x ∷ y ∷ zs) h = (x, y, zs, refl)

  write-whole :
      (f : FrameBuffer) (d : RtpDemuxer Q)
      → 2 ≤ length (d.received ++ bytes_of f)
      → rtp_payload_size (d.received ++ bytes_of f) + 2 ≤ length (d.received ++ bytes_of f)
      → write lib f d
        ≡ take_packet lib
            (rtp_payload_size (d.received ++ bytes_of f))
            (record d { received = d.received ++ bytes_of f })
  unfolding write
  write-whole f d long whole = ground arith

  -- The first two bytes of a stream are those of its first packet.
  header_of :
      (xs later b rest : List ℕ) (p : P) (v : IsPacket lib b p)
      → xs ++ later ≡ b ++ rest
      → 2 ≤ length xs
      → (zs : List ℕ) × (xs ≡ v.high ∷ v.low ∷ zs) × (zs ++ later ≡ v.content ++ rest)
  header_of xs later b rest p v e long =
      let (x, y, zs, is_xs) = two_bytes xs long in
      let same : x ∷ y ∷ (zs ++ later) ≡ v.high ∷ v.low ∷ (v.content ++ rest) =
        sym (ap (λ ws. ws ++ later) is_xs) ∙ e ∙ ap (λ ws. ws ++ rest) v.framed in
      let high : x ≡ v.high = ground (arith, same) in
      let low : y ≡ v.low = ground (arith, same) in
      (zs, is_xs ∙ ap (λ k. k ∷ y ∷ zs) high ∙ ap (λ k. v.high ∷ k ∷ zs) low, ground (arith, same))

  packet_size : (b : List ℕ) (p : P) (v : IsPacket lib b p) → length b ≡ v.high * 256 + v.low + 2
  packet_size b p v = omega (arith, ap length v.framed, v.sized)

  pub Waits-short :
      (xs later b rest : List ℕ) (p : P) (v : IsPacket lib b p)
      → xs ++ later ≡ b ++ rest
      → length xs < length b
      → Waits xs
  unfolding Waits
  Waits-short xs later b rest p v e short = elim (dec_lt (length xs) 2) [
    | yes very_short ↦ inl very_short
    | no long ↦
        let (zs, begins, left) = header_of xs later b rest p v e (omega arith) in
        let size : rtp_payload_size xs ≡ v.high * 256 + v.low = ap rtp_payload_size begins in
        inr (omega (arith, size, short, packet_size b p v))
  ]

  pub write-takes :
      (f : FrameBuffer) (d : RtpDemuxer Q) (b : List ℕ) (bs : List (List ℕ)) (p : P) (queue' : Q)
      (later : List ℕ)
      → IsPacket lib b p
      → lib.queue_read (lib.queue_write d.queue p).1 ≡ (some p, queue')
      → (d.received ++ bytes_of f) ++ later ≡ b ++ join bs
      → d.ch ≡ some c
      → length b ≤ length (d.received ++ bytes_of f)
      → (d' : RtpDemuxer Q) × (write lib f d ≡ some d')
        × (d'.ch ≡ some c)
        × (d'.received ++ later ≡ join bs)
        × (d'.sent ≡ d.sent ++ out p ∷ [])
        × (d'.queue ≡ queue')
  write-takes f d b bs p queue' later v hands_out e there enough =
      let xs = d.received ++ bytes_of f in
      let n = v.high * 256 + v.low in
      let all = packet_size b p v in
      let long : 2 ≤ length xs = omega (arith, all, enough) in
      let (zs, begins, rest) = header_of xs later b (join bs) p v e long in
      let size : rtp_payload_size xs ≡ n = ap rtp_payload_size begins in
      let fits : length v.content ≤ length zs =
        omega (arith, v.sized, all, enough, ap length begins) in
      let (taken, left) = cut zs later v.content (join bs) rest fits in
      let d1 : RtpDemuxer Q = record d { received = xs } in
      (
        record d1 { received = drop (2 + n) xs; queue = queue'; sent = d.sent ++ out p ∷ [] },
        write-whole f d long (omega (arith, size, all, enough))
            ∙ ap (λ k. take_packet lib k d1) size
            ∙ take_packet-direct v.high v.low v.content (join bs) p queue' zs d1 hands_out there
                begins (ap (λ k. take k zs) (sym v.sized) ∙ taken) v.read,
        there,
        ap (λ ws. drop (2 + n) ws ++ later) begins
            ∙ ap (λ ws. ws ++ later) (drop-drop 2 n (v.high ∷ v.low ∷ zs))
            ∙ ap (λ k. drop k zs ++ later) (sym v.sized)
            ∙ left,
        refl,
        refl,
      )

  pub more :
      (f : FrameBuffer) (fs : List FrameBuffer) (d : RtpDemuxer Q) (later all : List ℕ)
      → d.received ++ (stream (f ∷ fs) ++ later) ≡ all
      → (d.received ++ bytes_of f) ++ (stream fs ++ later) ≡ all
  more f fs d later all e =
      append_assoc d.received (bytes_of f) (stream fs ++ later)
      ∙ ap (λ ws. d.received ++ ws) (sym (append_assoc (bytes_of f) (stream fs) later))
      ∙ e

  pub nothing_whole : (xs ys : List ℕ) → xs ++ ys ≡ [] → Waits xs
  unfolding Waits
  nothing_whole xs ys e = inl (omega (arith, length-append xs ys, ap length e))
