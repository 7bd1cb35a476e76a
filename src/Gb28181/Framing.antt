-- ===== src/Gb28181/Framing.antt =====
-- What becomes of the bytes of a TCP stream of RTP packets, gb28181_rtp_demuxer.cc.
use simple_rtmp.Base.{
  ℕ, suc, ◌+◌, ◌≡◌, List, [], ◌∷◌, ◌++◌, map, ltb, ◌-◌, if◌then◌else◌, some, length, take, drop,
}
use simple_rtmp.Frame.{FrameBuffer, bytes_of}
use simple_rtmp.Gb28181.Rtp.{Library, RtpDemuxer}
use simple_rtmp.Gb28181.Takes.{join, out}

-- How many packets of these sizes come out, at most one for each write: `kept` bytes are there already,
-- and the writes have these sizes.
unfoldable pub packets_out : ℕ → List ℕ → List ℕ → ℕ
packets_out kept [] packets = 0
packets_out kept (n ∷ writes) [] = 0
packets_out kept (n ∷ writes) (size ∷ packets) =
    if ltb (kept + n) size
    then packets_out (kept + n) writes (size ∷ packets)
    else suc (packets_out (kept + n - size) writes packets)

module _ {P Q : Type 0} (lib : Library P Q) (c : ℕ) where
  -- What is left of a stream of packets, and what has come out of it.
  record Took (d : RtpDemuxer Q) (bs : List (List ℕ)) (ps : List P) (later : List ℕ) (count : ℕ)
      (d' : RtpDemuxer Q) : Type 0 where
    left : d'.received ++ later ≡ join (drop count bs)
    sent : d'.sent ≡ d.sent ++ map (out lib c) (take count ps)
    there : d'.ch ≡ some c

  -- The number for writes and packets.
  abbrev pub pulled : ℕ → List FrameBuffer → List (List ℕ) → ℕ
  pulled kept fs bs = packets_out kept (map (λ f. length (bytes_of f)) fs) (map length bs)
