-- ===== src/Gb28181/Rtp.antt =====
-- The demuxer of RTP over TCP, gb28181_rtp_demuxer.h and gb28181_rtp_demuxer.cc: each packet has two
-- bytes with its length in front.
-- The media-server library's packets and its reordering queue are a parameter. `none` is a null pointer
-- that is used, where the queue has no packet to hand out.
use simple_rtmp.Base.{
  ℕ, ◌+◌, ◌*◌, List, [], ◌∷◌, ◌++◌, Option, none, some, length, take, drop, get_or, ltb,
  if◌then◌else◌,
}
use simple_rtmp.Base.Int.{ℤ, pos}
use simple_rtmp.Frame.{FrameBuffer, fixed, new_frame, bytes_of}
use simple_rtmp.Sink.{Signal, frame, failed}

-- `P` is struct rtp_packet_t, `Q` is rtp_queue_t.
pub record Library (P Q : Type 0) : Type 0 where
  -- rtp_packet_deserialize; `none` is a result other than 0.
  pub deserialize : List ℕ → Option P
  pub payload : P → List ℕ
  pub timestamp : P → ℕ
  -- rtp_queue_create(100, 90000), rtp_queue_write and rtp_queue_read.
  pub queue_create : Q
  pub queue_write : Q → P → ℤ × Q
  pub queue_read : Q → Option P × Q

pub record RtpDemuxer (Q : Type 0) : Type 0 where
  pub ch : Option ℕ
  pub received : List ℕ
  pub queue : Q
  pub sent : List (ℕ × Signal)

-- kGB28181RtpTcpPrefixSize, and errc::protocol_error.
abbrev pub prefix_size : ℕ
prefix_size = 2

abbrev pub protocol_error : ℕ
protocol_error = 71

-- `(data_[0] << 8) | data_[1]` of bytes.
abbrev pub rtp_payload_size : List ℕ → ℕ
rtp_payload_size bytes = get_or bytes 0 0 * 256 + get_or bytes 1 0

module _ {Q : Type 0} where
  unfoldable pub set_channel : Option ℕ → RtpDemuxer Q → RtpDemuxer Q
  set_channel c d = record d { ch = c }

  unfoldable pub on_frame : Signal → RtpDemuxer Q → RtpDemuxer Q
  on_frame signal d = elim d.ch [
    | none ↦ d
    | some c ↦ record d { sent = d.sent ++ (c, signal) ∷ [] }
  ]

module _ {P Q : Type 0} (lib : Library P Q) where
  unfoldable pub new_demuxer : RtpDemuxer Q
  new_demuxer = record { ch = none; received = []; queue = lib.queue_create; sent = [] }

  abbrev pub frame_of : P → FrameBuffer
  frame_of p = fixed (record (new_frame (lib.payload p)) {
    pts = pos (lib.timestamp p);
    dts = pos (lib.timestamp p);
  })

  -- The packet goes into the queue, which may refuse it, and the next one comes out.
  unfoldable pub pass_on : P → RtpDemuxer Q → Option (RtpDemuxer Q)
  unfolding on_frame
  pass_on p d =
      let written = (lib.queue_write d.queue p).1 in
      let (next, queue) = lib.queue_read written in
      elim next [
        | none ↦ none
        | some p' ↦ some (on_frame (frame (frame_of p')) (record d { queue = queue }))
      ]

  -- A packet that has arrived whole. What cannot be read stays where it is.
  unfoldable pub take_packet : ℕ → RtpDemuxer Q → Option (RtpDemuxer Q)
  unfolding pass_on on_frame
  take_packet n d = elim (lib.deserialize (take n (drop prefix_size d.received))) [
    | none ↦ some (on_frame (failed protocol_error) d)
    | some p ↦ pass_on p (record d { received = drop (prefix_size + n) d.received })
  ]

  unfoldable pub write : FrameBuffer → RtpDemuxer Q → Option (RtpDemuxer Q)
  unfolding take_packet
  write f d =
      let d1 = record d { received = d.received ++ bytes_of f } in
      let n = rtp_payload_size d1.received in
      if ltb (length d1.received) prefix_size
      then some d1
      else if ltb (length d1.received) (n + prefix_size)
      then some d1
      else take_packet n d1

  unfoldable pub write_all : List FrameBuffer → RtpDemuxer Q → Option (RtpDemuxer Q)
  unfolding write
  write_all [] d = some d
  write_all (f ∷ fs) d = elim (write f d) [ none ↦ none | some d' ↦ write_all fs d' ]
