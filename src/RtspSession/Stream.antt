-- ===== src/RtspSession/Stream.antt =====
-- What a player's connection is written of the frames on a session's channel, channel_out and what it
-- calls in rtsp_forward_session.cc.
use simple_rtmp.Base.{
  ℕ, ◌+◌, ◌*◌, ◌/◌, ◌%◌, ◌^◌, ◌<◌, ◌≡◌, refl, sym, ap, ◌∙◌, List, [], ◌∷◌, ◌++◌, append_assoc, true,
  ◌||◌, some, length, ◌==◌, if◌then◌else◌, arith,
}
use simple_rtmp.Codec.{video}
use simple_rtmp.Frame.{FrameBuffer, bytes_of, size, media}
use simple_rtmp.Rtsp.Rtcp.{Packet, encode, encode_all}
use simple_rtmp.RtspSession.{Output, written, RtspSession, make_frame_header, write_interleaved}

-- The bytes of the frames that went to the connection.
unfoldable pub sent_bytes : List Output → List ℕ
unfolding bytes_of
sent_bytes [] = []
sent_bytes (written f ∷ outputs) = bytes_of f ++ sent_bytes outputs
sent_bytes (o ∷ outputs) = sent_bytes outputs

pub sent_bytes-append :
    (xs ys : List Output) → sent_bytes (xs ++ ys) ≡ sent_bytes xs ++ sent_bytes ys
unfolding sent_bytes
sent_bytes-append [] ys = refl
sent_bytes-append (written f ∷ xs) ys =
    ap (◌++◌ (bytes_of f)) (sent_bytes-append xs ys)
    ∙ sym (append_assoc (bytes_of f) (sent_bytes xs) (sent_bytes ys))
sent_bytes-append (Output.replied r ∷ xs) ys = sent_bytes-append xs ys
sent_bytes-append (Output.channel_added k ∷ xs) ys = sent_bytes-append xs ys
sent_bytes-append (Output.channel_deleted k ∷ xs) ys = sent_bytes-append xs ys
sent_bytes-append (Output.tracks_asked k url ∷ xs) ys = sent_bytes-append xs ys
sent_bytes-append (Output.shutdown_posted ∷ xs) ys = sent_bytes-append xs ys
sent_bytes-append (Output.conn_shutdown ∷ xs) ys = sent_bytes-append xs ys

pub encode_all-append :
    (ps qs : List Packet) → encode_all (ps ++ qs) ≡ encode_all ps ++ encode_all qs
unfolding encode_all
encode_all-append [] qs = refl
encode_all-append (p ∷ ps) qs =
    ap (◌++◌ (encode p)) (encode_all-append ps qs)
    ∙ sym (append_assoc (encode p) (encode_all ps) (encode_all qs))

-- A frame as a packet on a channel.
abbrev pub packet_on : ℕ → FrameBuffer → Packet
packet_on channel f = record {
  channel = channel;
  high = size f / 256 % 256;
  low = size f % 256;
  body = bytes_of f;
}

abbrev pub rtp_packet : FrameBuffer → Packet
rtp_packet f = packet_on (if media f == video then 0 else 2) f

-- The packets on the media channels, without the RTCP packets.
unfoldable pub media_of : List Packet → List Packet
media_of [] = []
media_of (p ∷ ps) = if p.channel == 0 || p.channel == 2 then p ∷ media_of ps else media_of ps

pub media_of-append : (ps qs : List Packet) → media_of (ps ++ qs) ≡ media_of ps ++ media_of qs
unfolding media_of
media_of-append [] qs = refl
media_of-append (p ∷ ps) qs = ground (arith, media_of-append ps qs)

-- The two bytes of the length are the length.
abbrev pub IsFramed : Packet → Type 0
IsFramed p = p.high * 256 + p.low ≡ length p.body

-- A frame whose size is that of its bytes and fits two bytes.
abbrev pub Fits : FrameBuffer → Type 0
Fits f = (size f ≡ length (bytes_of f)) × (length (bytes_of f) < 2 ^ 16)

pub packet_on-IsFramed : (channel : ℕ) (f : FrameBuffer) → Fits f → IsFramed (packet_on channel f)
packet_on-IsFramed channel f (e, h) = omega (arith, e, h)

module _ {R : Type 0} where
  -- A session after it has written these packets.
  pub record Wrote (ps : List Packet) (s s' : RtspSession R) : Type 0 where
    pub on_wire : sent_bytes s'.outputs ≡ sent_bytes s.outputs ++ encode_all ps
    pub still_open : s'.conn ≡ s.conn
    pub same_video : s'.video_half.track ≡ s.video_half.track
    pub same_audio : s'.audio_half.track ≡ s.audio_half.track

  pub Wrote-then :
      {ps qs : List Packet} {s s' s'' : RtspSession R}
      → Wrote ps s s'
      → Wrote qs s' s''
      → Wrote (ps ++ qs) s s''
  Wrote-then {ps} {qs} {s} w v = record {
    on_wire =
        v.on_wire
        ∙ ap (λ bytes. bytes ++ encode_all qs) w.on_wire
        ∙ append_assoc (sent_bytes s.outputs) (encode_all ps) (encode_all qs)
        ∙ ap (◌++◌ (sent_bytes s.outputs)) (sym (encode_all-append ps qs));
    still_open = v.still_open ∙ w.still_open;
    same_video = v.same_video ∙ w.same_video;
    same_audio = v.same_audio ∙ w.same_audio;
  }

  pub write_interleaved-Wrote :
      (channel : ℕ) (f : FrameBuffer) (s : RtspSession R)
      → s.conn ≡ true
      → (s' : RtspSession R) × (write_interleaved channel f s ≡ some s')
        × Wrote (packet_on channel f ∷ []) s s'
  unfolding write_interleaved sent_bytes encode_all bytes_of
  write_interleaved-Wrote channel f s is_open = (
    record s {
      outputs = (s.outputs ++ written (make_frame_header channel f) ∷ []) ++ written f ∷ [];
    },
    ground (arith, is_open),
    record {
      on_wire =
          sent_bytes-append (s.outputs ++ written (make_frame_header channel f) ∷ [])
            (written f ∷ [])
          ∙ ap (λ bytes. bytes ++ (bytes_of f ++ []))
              (sent_bytes-append s.outputs (written (make_frame_header channel f) ∷ []))
          ∙ append_assoc (sent_bytes s.outputs) (bytes_of (make_frame_header channel f))
              (bytes_of f ++ []);
      still_open = refl;
      same_video = refl;
      same_audio = refl;
    },
  )
