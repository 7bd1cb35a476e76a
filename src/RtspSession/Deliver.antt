-- ===== src/RtspSession/Deliver.antt =====
-- What a player's connection is written of a series of frames, channel_out in rtsp_forward_session.cc.
use simple_rtmp.Base.{
  ℕ, ◌*◌, ◌≤◌, ◌≡◌, ◌⊎◌, inl, inr, refl, sym, ap, ◌∙◌, List, [], ◌∷◌, ◌++◌, map, append-nil, true,
  false, ◌||◌, Option, none, some, length, ◌==◌, if◌then◌else◌, arith, All, Bool-cases,
  Option-cases,
}
use simple_rtmp.Codec.{video, audio}
use simple_rtmp.Frame.{FrameBuffer, create, bytes_of, size, media, dts}
use simple_rtmp.Sink.{frame}
use simple_rtmp.Rtsp.Rtcp.{Packet, encode_all}
use simple_rtmp.RtspSink.Track.{RtspTrack}
use simple_rtmp.RtspSink.H264.{times}
use simple_rtmp.RtspSink.Aac.{quotient}
use simple_rtmp.RtspSession.{
  Rtcp, Medium, RtspSession, rate_of, ssrc_of, rtcp_context, report_due, rtcp_step, write_media,
  channel_out,
}
use simple_rtmp.RtspSession.Stream.{
  sent_bytes, packet_on, rtp_packet, media_of, media_of-append, IsFramed, Fits, packet_on-IsFramed,
  Wrote, Wrote-then, write_interleaved-Wrote,
}

All-append : (ps qs : List Packet) → All IsFramed ps → All IsFramed qs → All IsFramed (ps ++ qs)
All-append [] qs a b = b
All-append (p ∷ ps) qs (h, a) b = (h, All-append ps qs a b)

-- A medium whose track is set, and has a sample rate.
abbrev pub IsSetUp : {R : Type 0} → Medium R → Type 0
IsSetUp m = (t : RtspTrack) × (m.track ≡ some t) × (1 ≤ rate_of t)

-- A report fits a packet.
abbrev IsShort : Option (List ℕ) → Type 0
IsShort none = Unit
IsShort (some report) = length report ≤ 1024

-- The packets of a report and a frame.
abbrev with_report : ℕ → ℕ → Option (List ℕ) → FrameBuffer → List Packet
with_report rtcp rtp none f = packet_on rtp f ∷ []
with_report rtcp rtp (some report) f = packet_on rtcp (create report) ∷ packet_on rtp f ∷ []

abbrev pub buffers : List (ℕ × FrameBuffer) → List FrameBuffer
buffers = map (λ (x : ℕ × FrameBuffer). x.1)

module _ {R : Type 0} where
  -- What frames make the session write.
  pub record Sends (fs : List FrameBuffer) (s s' : RtspSession R) : Type 0 where
    pub packets : List Packet
    pub wrote : Wrote packets s s'
    pub in_order : media_of packets ≡ map rtp_packet fs
    pub framed : All IsFramed packets

  -- The frame's medium is set up.
  abbrev pub IsReady : FrameBuffer → RtspSession R → Type 0
  IsReady f s =
      ((media f ≡ video) × IsSetUp s.video_half) ⊎ ((media f ≡ audio) × IsSetUp s.audio_half)

  abbrev pub AllReady : List (ℕ × FrameBuffer) → RtspSession R → Type 0
  AllReady fs s = All (λ (x : ℕ × FrameBuffer). IsReady (x.1) s × Fits (x.1)) fs

module _ {R : Type 0} (lib : Rtcp R) where
  unfoldable pub channel_outs : List (ℕ × FrameBuffer) → RtspSession R → Option (RtspSession R)
  unfolding channel_out
  channel_outs [] s = some s
  channel_outs ((now, f) ∷ fs) s = elim (channel_out lib now (frame f) s) [
    | none ↦ none
    | some s' ↦ channel_outs fs s'
  ]

module _ {R : Type 0} (lib : Rtcp R) (short : (r : R) → length (lib.report r).1 ≤ 1024) where
  rtcp_context-set_up :
      (bandwidth : ℕ) (f : FrameBuffer) (m : Medium R)
      → IsSetUp m
      → (r : R) × (rtcp_context lib bandwidth f m ≡ some r)
  unfolding rtcp_context
  rtcp_context-set_up bandwidth f m (t, has, rate) = elim (Option-cases m.rtcp_ctx) [
    | inl none_yet ↦ (
      lib.create_rtp (ssrc_of t) (quotient (times 1000 (dts f)) (rate_of t)) (rate_of t) bandwidth,
      ground (arith, none_yet, has, rate),
    )
    | inr (r, there) ↦ (r, ground (arith, there))
  ]

  rtcp_step-set_up :
      (bandwidth now : ℕ) (f : FrameBuffer) (m : Medium R)
      → IsSetUp m
      → (m' : Medium R) × (report : Option (List ℕ)) × (rtcp_step lib bandwidth now f m
          ≡ some (m', report))
        × (m'.track ≡ m.track)
        × IsShort report
  unfolding rtcp_step
  rtcp_step-set_up bandwidth now f m set_up =
      let (r, made) = rtcp_context-set_up bandwidth f m set_up in
      elim (Bool-cases (report_due lib now r m)) [
        | inl due ↦ (
          record m { rtcp_ctx = some (lib.onsend (lib.report r).0 (bytes_of f)); rtcp_time = now },
          some (lib.report r).1,
          ground (arith, made, due),
          refl,
          short r,
        )
        | inr not_due ↦ (
          record m { rtcp_ctx = some (lib.onsend r (bytes_of f)) },
          none,
          ground (arith, made, not_due),
          refl,
          tt,
        )
      ]

  write_media-Wrote :
      (rtcp rtp : ℕ) (report : Option (List ℕ)) (f : FrameBuffer) (s : RtspSession R)
      → s.conn ≡ true
      → (s' : RtspSession R) × (write_media lib rtcp rtp report f s ≡ some s')
        × Wrote (with_report rtcp rtp report f) s s'
  unfolding write_media
  write_media-Wrote rtcp rtp none f s is_open = write_interleaved-Wrote rtp f s is_open
  write_media-Wrote rtcp rtp (some report) f s is_open =
      let (s1, q, w) = write_interleaved-Wrote rtcp (create report) s is_open in
      let (s2, r, v) = write_interleaved-Wrote rtp f s1 (w.still_open ∙ is_open) in
      (s2, ground (arith, q, r), Wrote-then w v)

  with_report-IsFramed :
      (rtcp rtp : ℕ) (report : Option (List ℕ)) (f : FrameBuffer)
      → IsShort report
      → Fits f
      → All IsFramed (with_report rtcp rtp report f)
  unfolding bytes_of size
  with_report-IsFramed rtcp rtp none f short fits = (packet_on-IsFramed rtp f fits, tt)
  with_report-IsFramed rtcp rtp (some report) f short fits = (
    packet_on-IsFramed rtcp (create report) (refl, omega (arith, short)),
    (packet_on-IsFramed rtp f fits, tt),
  )

  media_one :
      (rtcp rtp : ℕ) (report : Option (List ℕ)) (f : FrameBuffer)
      → (rtcp == 0 || rtcp == 2) ≡ false
      → (rtp == 0 || rtp == 2) ≡ true
      → (if media f == video then 0 else 2) ≡ rtp
      → media_of (with_report rtcp rtp report f) ≡ rtp_packet f ∷ []
  unfolding media_of
  media_one rtcp rtp none f not_media is_media own = ground (arith, not_media, is_media, own)
  media_one rtcp rtp (some report) f not_media is_media own =
      ground (arith, not_media, is_media, own)

  Wrote-nothing :
      (s s' : RtspSession R)
      → s'.outputs ≡ s.outputs
      → s'.conn ≡ s.conn
      → s'.video_half.track ≡ s.video_half.track
      → s'.audio_half.track ≡ s.audio_half.track
      → Wrote [] s s'
  unfolding encode_all
  Wrote-nothing s s' outs conn v a = record {
    on_wire = ap sent_bytes outs ∙ sym (append-nil (sent_bytes s.outputs));
    still_open = conn;
    same_video = v;
    same_audio = a;
  }

  channel_out-Sends :
      (now : ℕ) (f : FrameBuffer) (s : RtspSession R)
      → s.conn ≡ true
      → IsReady f s
      → Fits f
      → (s' : RtspSession R) × (channel_out lib now (frame f) s ≡ some s') × Sends (f ∷ []) s s'
  unfolding channel_out media_of
  channel_out-Sends now f s is_open (inl (kind, set_up)) fits =
      let (m, report, q, same, is_short) =
        rtcp_step-set_up (4 * 1024 * 1024) now f s.video_half set_up in
      let s1 : RtspSession R = record s { video_half = m } in
      let (s', r, w) = write_media-Wrote 1 0 report f s1 is_open in
      (
        s',
        ground (arith, kind, q, r),
        record {
          packets = with_report 1 0 report f;
          wrote = Wrote-then (Wrote-nothing s s1 refl refl same refl) w;
          in_order = media_one 1 0 report f refl refl (ground (arith, kind));
          framed = with_report-IsFramed 1 0 report f is_short fits;
        },
      )
  channel_out-Sends now f s is_open (inr (kind, set_up)) fits =
      let (m, report, q, same, is_short) =
        rtcp_step-set_up (128 * 1024) now f s.audio_half set_up in
      let s1 : RtspSession R = record s { audio_half = m } in
      let (s', r, w) = write_media-Wrote 3 2 report f s1 is_open in
      (
        s',
        ground (arith, kind, q, r),
        record {
          packets = with_report 3 2 report f;
          wrote = Wrote-then (Wrote-nothing s s1 refl refl refl same) w;
          in_order = media_one 3 2 report f refl refl (ground (arith, kind));
          framed = with_report-IsFramed 3 2 report f is_short fits;
        },
      )

  AllReady-Wrote :
      {ps : List Packet} (fs : List (ℕ × FrameBuffer)) (s s' : RtspSession R)
      → Wrote ps s s'
      → AllReady fs s
      → AllReady fs s'
  AllReady-Wrote [] s s' w ready = tt
  AllReady-Wrote (x ∷ fs) s s' w ((inl (kind, (t, has, rate)), fits), others) =
      ((inl (kind, (t, w.same_video ∙ has, rate)), fits), AllReady-Wrote fs s s' w others)
  AllReady-Wrote (x ∷ fs) s s' w ((inr (kind, (t, has, rate)), fits), others) =
      ((inr (kind, (t, w.same_audio ∙ has, rate)), fits), AllReady-Wrote fs s s' w others)

  -- Frames of media that are set up go out on an open connection behind headers with their channels and
  -- lengths, in order, whatever the time: what is written is a series of interleaved packets, of which
  -- those on the channels 0 and 2 are the frames, and none faults. A frame's size is that of its bytes,
  -- which are fewer than 2 ^ 16, and a report has 1024 bytes at most.
  pub channel_outs-Sends :
      (fs : List (ℕ × FrameBuffer)) (s : RtspSession R)
      → s.conn ≡ true
      → AllReady fs s
      → (s' : RtspSession R) × (channel_outs lib fs s ≡ some s') × Sends (buffers fs) s s'
  unfolding channel_outs media_of
  channel_outs-Sends [] s is_open ready = (
    s,
    refl,
    record {
      packets = [];
      wrote = Wrote-nothing s s refl refl refl refl;
      in_order = refl;
      framed = tt;
    },
  )
  channel_outs-Sends ((now, f) ∷ fs) s is_open ((ready, fits), others) =
      let (s1, q, w) = channel_out-Sends now f s is_open ready fits in
      let (s2, r, v) =
        channel_outs-Sends fs s1 (w.wrote.still_open ∙ is_open)
          (AllReady-Wrote fs s s1 w.wrote others) in
      (
        s2,
        ground (arith, q, r),
        record {
          packets = w.packets ++ v.packets;
          wrote = Wrote-then (w.wrote) (v.wrote);
          in_order =
              media_of-append (w.packets) (v.packets)
              ∙ ap (λ ps. ps ++ media_of (v.packets)) (w.in_order)
              ∙ ap (◌∷◌ (rtp_packet f)) (v.in_order);
          framed = All-append (w.packets) (v.packets) w.framed v.framed;
        },
      )
