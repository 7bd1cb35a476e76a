-- ===== src/Gb28181/Runs.antt =====
-- A queue of one packet, and the theorems at streams of two packets.
use simple_rtmp.Base.{
  ℕ, ◌≡◌, refl, List, [], ◌∷◌, none, some, drop, Option, get_or, ◌==◌, if◌then◌else◌,
}
use simple_rtmp.Base.Int.{pos}
use simple_rtmp.Frame.{create, bytes_of}
use simple_rtmp.Sink.{failed}
use simple_rtmp.Gb28181.Rtp.{
  Library, RtpDemuxer, new_demuxer, set_channel, protocol_error, write_all,
}
use simple_rtmp.Gb28181.Takes.{IsPacket, out}
use simple_rtmp.Gb28181.Stuck.{write_all-stuck}

-- A packet begins with 128.
abbrev one_place : Library (List ℕ) (Option (List ℕ))
one_place = record {
  deserialize = λ bytes. if get_or bytes 0 0 == 128 then some bytes else none;
  payload = λ p. drop 1 p;
  timestamp = λ p. 9;
  queue_create = none;
  queue_write = λ q p. (pos 1, some p);
  queue_read = λ q. (q, none);
}

abbrev packet_of : (n : ℕ) → IsPacket one_place (0 ∷ 2 ∷ 128 ∷ n ∷ []) (128 ∷ n ∷ [])
packet_of n = record {
  content = 128 ∷ n ∷ [];
  high = 0;
  low = 2;
  framed = refl;
  sized = refl;
  read = refl;
}

abbrev ready : RtpDemuxer (Option (List ℕ))
unfolding new_demuxer set_channel
ready = set_channel (some 3) (new_demuxer one_place)

-- Two packets in one write: the second one is kept.
kept_back :
    write_all one_place (create (0 ∷ 2 ∷ 128 ∷ 7 ∷ 0 ∷ 2 ∷ 128 ∷ 8 ∷ []) ∷ []) ready
    ≡ some (record ready {
      received = 0 ∷ 2 ∷ 128 ∷ 8 ∷ [];
      sent = out one_place 3 (128 ∷ 7 ∷ []) ∷ [];
    })
unfolding write_all bytes_of ready
kept_back = refl

-- A packet that begins with 9, and a good one behind it.
abbrev stuck : RtpDemuxer (Option (List ℕ))
stuck = record ready { received = 0 ∷ 1 ∷ 9 ∷ [] }

write_all-stuck_example :
    write_all one_place (create (0 ∷ 2 ∷ 128 ∷ 7 ∷ []) ∷ []) stuck
    ≡ some (record stuck {
      received = 0 ∷ 1 ∷ 9 ∷ 0 ∷ 2 ∷ 128 ∷ 7 ∷ [];
      sent = (3, failed protocol_error) ∷ [];
    })
unfolding bytes_of ready
write_all-stuck_example =
    write_all-stuck one_place 3 (create (0 ∷ 2 ∷ 128 ∷ 7 ∷ []) ∷ []) stuck
      (record {
        content = 9 ∷ [];
        rest = [];
        high = 0;
        low = 1;
        framed = refl;
        sized = refl;
        refused = refl;
      })
      refl
