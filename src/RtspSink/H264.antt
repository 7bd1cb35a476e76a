-- ===== src/RtspSink/H264.antt =====
-- The H.264 encoder of an RTSP sink, rtsp_h264_encoder.h and rtsp_h264_encoder.cc: it finds the units
-- of a frame by their start codes, keeps the parameter sets for the track, and has the frame packed
-- into RTP packets.
-- The RTP packing of the media-server library is a parameter, a machine. `none` is the assertion
-- that fails.
use simple_rtmp.Base.{
  ℕ, zero, suc, ◌-◌, ◌*◌, ◌%◌, List, [], ◌∷◌, ◌++◌, map, ◌&&◌, Option, none, some, length, take,
  ◌==◌, if◌then◌else◌,
}
use simple_rtmp.Base.Int.{ℤ, pos, negsuc, to_u32}
use simple_rtmp.Codec.{video}
use simple_rtmp.Frame.{FrameBuffer, fixed, new_frame, bytes_of, pts}
use simple_rtmp.Sink.{Signal, frame, failed}
use simple_rtmp.RtspSink.Track.{VideoTrack, next_ssrc}
use Prim.Native.String.{String}

-- What the library hands to rtp_encode_packet.
pub record RtpPacket : Type 0 where
  pub data_bytes : List ℕ
  pub timestamp : ℕ
  pub flags : ℕ

-- rtp_payload_encode_create, by payload type, encoding, and ssrc, and rtp_payload_encode_input.
pub record Rtp (S : Type 0) : Type 0 where
  pub create : ℕ → String → ℕ → Option S
  pub input : S → List ℕ → ℕ → S × List RtpPacket

-- `counter` is the static counter of `video_ssrc`; `sent` is the log of the calls of `write` on the
-- encoder's channel, which is always set.
pub record H264Encoder (S : Type 0) : Type 0 where
  pub sps : Option (List ℕ)
  pub pps : Option (List ℕ)
  pub track : Option VideoTrack
  pub ctx : Option S
  pub counter : ℕ
  pub sent : List Signal

-- The bytes behind the first start code that has bytes behind it.
unfoldable pub h264_startcode : List ℕ → Option (List ℕ)
h264_startcode [] = none
h264_startcode (a ∷ []) = none
h264_startcode (a ∷ (b ∷ [])) = none
h264_startcode (a ∷ (b ∷ (c ∷ bytes))) =
    let later = h264_startcode (b ∷ (c ∷ bytes)) in
    if c == 1 && (b == 0 && a == 0)
    then elim bytes [ [] ↦ none | d ∷ rest ↦ some (d ∷ rest) ]
    else later

-- `while (n > 0 && 0 == p[n - 1]) n--`.
unfoldable pub strip_zeros : List ℕ → List ℕ
strip_zeros [] = []
strip_zeros (b ∷ bytes) = elim (strip_zeros bytes) [
  | [] ↦ if b == 0 then [] else b ∷ []
  | x ∷ rest ↦ b ∷ (x ∷ rest)
]

-- The bytes from a start code up to the next.
unfoldable pub unit_at : List ℕ → List ℕ
unfolding strip_zeros h264_startcode
unit_at p = elim (h264_startcode p) [
  | none ↦ strip_zeros p
  | some next ↦ strip_zeros (take (length p - length next - 3) p)
]

-- A number times a positive one.
abbrev pub times : ℕ → ℤ → ℤ
times k (pos n) = pos (n * k)
times k (negsuc n) = negsuc (suc n * k - 1)

abbrev pub rtp_frame : RtpPacket → FrameBuffer
rtp_frame p = fixed (record (new_frame p.data_bytes) {
  media = video;
  flag = p.flags;
  pts = pos p.timestamp;
  dts = pos p.timestamp;
})

module _ {S : Type 0} where
  unfoldable pub new_encoder : ℕ → H264Encoder S
  new_encoder counter = record {
    sps = none;
    pps = none;
    track = none;
    ctx = none;
    counter = counter;
    sent = [];
  }

  -- A unit's first byte tells the sets from the rest.
  unfoldable pub remember : ℕ → List ℕ → H264Encoder S → H264Encoder S
  remember first unit e =
      let e' = if first % 32 == 7 then record e { sps = some unit } else e in
      if first % 32 == 8 then record e' { pps = some unit } else e'

  -- The loop over the units, `p` as a pointer that may be null.
  unfoldable pub scan : ℕ → Option (List ℕ) → H264Encoder S → Option (H264Encoder S)
  unfolding h264_startcode unit_at remember
  scan fuel none e = some e
  scan zero (some p) e = none
  scan (suc fuel) (some p) e = elim (unit_at p) [
    | [] ↦ none
    | first ∷ unit ↦ scan fuel (h264_startcode p) (remember first (first ∷ unit) e)
  ]

  -- A track takes its ssrc from the counter.
  unfoldable pub make_track : H264Encoder S → H264Encoder S
  make_track e = elim e.track [
    | some t ↦ e
    | none ↦ elim e.sps [
      | none ↦ e
      | some s ↦ elim e.pps [
        | none ↦ e
        | some p ↦
            let n = next_ssrc e.counter in
            record e {
              counter = n;
              track = some (record { track_sps = s; track_pps = p; ssrc = n });
            }
      ]
    ]
  ]

module _ {S : Type 0} (rtp : Rtp S) where
  unfoldable pub make_ctx : H264Encoder S → H264Encoder S
  make_ctx e = elim e.ctx [
    | some c ↦ e
    | none ↦ elim e.track [ none ↦ e | some t ↦ record e { ctx = rtp.create 96 "H264" t.ssrc } ]
  ]

  -- Each packet goes through rtp_encode_packet.
  unfoldable pub pack : FrameBuffer → H264Encoder S → H264Encoder S
  pack f e = elim e.ctx [
    | none ↦ e
    | some c ↦
        let (c', packets) = rtp.input c (bytes_of f) (to_u32 (times 90 (pts f))) in
        record e { ctx = some c'; sent = e.sent ++ map (λ p. frame (rtp_frame p)) packets }
  ]

  unfoldable pub write : Signal → H264Encoder S → Option (H264Encoder S)
  unfolding scan make_track make_ctx pack
  write (failed ec) e = some (record e { sent = e.sent ++ failed ec ∷ [] })
  write (frame f) e = elim (scan (length (bytes_of f)) (h264_startcode (bytes_of f)) e) [
    | none ↦ none
    | some e' ↦ some (pack f (make_ctx (make_track e')))
  ]
