-- ===== src/RtspSink/Pack.antt =====
-- What the H.264 encoder of an RTSP sink makes of frames, rtsp_h264_encoder.cc.
use simple_rtmp.Base.{
  ℕ, ◌+◌, ◌%◌, ◌^◌, ◌≡◌, refl, sym, ap, ◌∙◌, List, [], ◌∷◌, ◌++◌, map, none, some, length, arith,
  All,
}
use simple_rtmp.Base.Int.{to_u32}
use simple_rtmp.Frame.{FrameBuffer, bytes_of, pts}
use simple_rtmp.Sink.{Signal, frame}
use simple_rtmp.RtspSink.Track.{VideoTrack}
use simple_rtmp.RtspSink.H264.{
  H264Encoder, RtpPacket, Rtp, h264_startcode, remember, scan, times, rtp_frame, make_track,
  make_ctx, pack, write,
}
use simple_rtmp.RtspSink.Scan.{IsUnit, annex_b, remember_all, scan-annex_b, remember_unit}

abbrev pub to_signals : List RtpPacket → List Signal
to_signals = map (λ p. frame (rtp_frame p))

module _ {S : Type 0} where
  -- The fields that the search leaves alone.
  record Keeps (e e' : H264Encoder S) : Type 0 where
    same_ctx : e'.ctx ≡ e.ctx
    same_track : e'.track ≡ e.track
    same_sent : e'.sent ≡ e.sent
    same_counter : e'.counter ≡ e.counter

  remember_unit-Keeps : (u : List ℕ) (e : H264Encoder S) → Keeps e (remember_unit u e)
  unfolding remember
  remember_unit-Keeps [] e = record {
    same_ctx = refl;
    same_track = refl;
    same_sent = refl;
    same_counter = refl;
  }
  remember_unit-Keeps (first ∷ u) e = record {
    same_ctx = ground arith;
    same_track = ground arith;
    same_sent = ground arith;
    same_counter = ground arith;
  }

  remember_all-Keeps : (us : List (List ℕ)) (e : H264Encoder S) → Keeps e (remember_all us e)
  unfolding remember_all
  remember_all-Keeps [] e = record {
    same_ctx = refl;
    same_track = refl;
    same_sent = refl;
    same_counter = refl;
  }
  remember_all-Keeps (u ∷ us) e =
      let k = remember_unit-Keeps u e in
      let l = remember_all-Keeps us (remember_unit u e) in
      record {
        same_ctx = l.same_ctx ∙ k.same_ctx;
        same_track = l.same_track ∙ k.same_track;
        same_sent = l.same_sent ∙ k.same_sent;
        same_counter = l.same_counter ∙ k.same_counter;
      }

  make_track-ctx : (e : H264Encoder S) → (make_track e).ctx ≡ e.ctx
  unfolding make_track
  make_track-ctx e = ground arith

  make_track-sent : (e : H264Encoder S) → (make_track e).sent ≡ e.sent
  unfolding make_track
  make_track-sent e = ground arith

module _ {S : Type 0} (rtp : Rtp S) where
  pack-has :
      (f : FrameBuffer) (c : S) (e : H264Encoder S)
      → e.ctx ≡ some c
      → ((pack rtp f (make_ctx rtp e)).ctx
          ≡ some (rtp.input c (bytes_of f) (to_u32 (times 90 (pts f)))).0)
        × ((pack rtp f (make_ctx rtp e)).sent
            ≡ e.sent ++ to_signals (rtp.input c (bytes_of f) (to_u32 (times 90 (pts f)))).1)
  unfolding pack make_ctx
  pack-has f c e has = (ground (arith, has), ground (arith, has))

  write-scan :
      (f : FrameBuffer) (us : List (List ℕ)) (e : H264Encoder S)
      → bytes_of f ≡ annex_b us
      → All IsUnit us
      → write rtp (frame f) e ≡ some (pack rtp f (make_ctx rtp (make_track (remember_all us e))))
  unfolding write
  write-scan f us e is_units vs = ground (
    arith,
    ap (λ bytes. scan (length bytes) (h264_startcode bytes) e) is_units ∙ scan-annex_b us e vs,
  )

  make_ctx-has : (c : S) (e : H264Encoder S) → e.ctx ≡ some c → make_ctx rtp e ≡ e
  unfolding make_ctx
  make_ctx-has c e has = ground (arith, has)

  pack-track : (f : FrameBuffer) (e : H264Encoder S) → (pack rtp f e).track ≡ e.track
  unfolding pack
  pack-track f e = ground arith

  ready :
      (s p : List ℕ) (first_s first_p : ℕ) (c : S) (e : H264Encoder S)
      → first_s % 32 ≡ 7
      → first_p % 32 ≡ 8
      → e.track ≡ none
      → e.ctx ≡ none
      → rtp.create 96 "H264" ((e.counter + 2) % 2 ^ 32) ≡ some c
      → make_ctx rtp (make_track (remember_all ((first_s ∷ s) ∷ (first_p ∷ p) ∷ []) e)) ≡ record e {
        sps = some (first_s ∷ s);
        pps = some (first_p ∷ p);
        track = some (record {
          track_sps = first_s ∷ s;
          track_pps = first_p ∷ p;
          ssrc = (e.counter + 2) % 2 ^ 32;
        });
        ctx = some c;
        counter = (e.counter + 2) % 2 ^ 32;
      }
  unfolding make_ctx make_track remember_all remember
  ready s p first_s first_p c e type_s type_p no_track no_ctx made =
      ground (arith, type_s, type_p, no_track, no_ctx, made)

  -- Once the encoder has its packer, a frame of units, each behind a start code of four bytes, goes out
  -- as the packets that the library makes of the whole frame with its time in 90 kHz, in order; the
  -- call does not fail. No unit ends in 0 or holds a start code.
  pub write-units :
      (f : FrameBuffer) (us : List (List ℕ)) (c : S) (e : H264Encoder S)
      → bytes_of f ≡ annex_b us
      → All IsUnit us
      → e.ctx ≡ some c
      → (e' : H264Encoder S) × (write rtp (frame f) e ≡ some e')
        × (e'.ctx ≡ some (rtp.input c (bytes_of f) (to_u32 (times 90 (pts f)))).0)
        × (e'.sent ≡ e.sent ++ to_signals (rtp.input c (bytes_of f) (to_u32 (times 90 (pts f)))).1)
  write-units f us c e is_units vs has =
      let k = remember_all-Keeps us e in
      let e1 = make_track (remember_all us e) in
      let packed = pack-has f c e1 (make_track-ctx (remember_all us e) ∙ k.same_ctx ∙ has) in
      let q = make_track-sent (remember_all us e) ∙ k.same_sent in
      (
        _,
        write-scan f us e is_units vs,
        packed.0,
        packed.1
            ∙ ap
                (λ sent.
                  sent ++ to_signals (rtp.input c (bytes_of f) (to_u32 (times 90 (pts f)))).1)
                q,
      )

  -- The frame that brings the parameter sets makes the track, with the next ssrc, and the packer, and
  -- is itself packed.
  pub write-sets :
      (f : FrameBuffer) (s p : List ℕ) (first_s first_p : ℕ) (c : S) (e : H264Encoder S)
      → bytes_of f ≡ annex_b ((first_s ∷ s) ∷ (first_p ∷ p) ∷ [])
      → IsUnit (first_s ∷ s)
      → IsUnit (first_p ∷ p)
      → first_s % 32 ≡ 7
      → first_p % 32 ≡ 8
      → e.track ≡ none
      → e.ctx ≡ none
      → rtp.create 96 "H264" ((e.counter + 2) % 2 ^ 32) ≡ some c
      → (e' : H264Encoder S) × (write rtp (frame f) e ≡ some e')
        × (e'.ctx ≡ some (rtp.input c (bytes_of f) (to_u32 (times 90 (pts f)))).0)
        × (e'.track
            ≡ some (record {
              track_sps = first_s ∷ s;
              track_pps = first_p ∷ p;
              ssrc = (e.counter + 2) % 2 ^ 32;
            }))
        × (e'.sent ≡ e.sent ++ to_signals (rtp.input c (bytes_of f) (to_u32 (times 90 (pts f)))).1)
  write-sets f s p first_s first_p c e is_units vs vp type_s type_p no_track no_ctx made =
      let n = (e.counter + 2) % 2 ^ 32 in
      let t : VideoTrack = record { track_sps = first_s ∷ s; track_pps = first_p ∷ p; ssrc = n } in
      let e2 : H264Encoder S = record e {
        sps = some (first_s ∷ s);
        pps = some (first_p ∷ p);
        track = some t;
        ctx = some c;
        counter = n;
      } in
      let q = ready s p first_s first_p c e type_s type_p no_track no_ctx made in
      let packed = pack-has f c e2 refl in
      (
        pack rtp f (make_ctx rtp e2),
        write-scan f _ e is_units (vs, (vp, tt))
            ∙ ap (λ x. some (pack rtp f x)) (q ∙ sym (make_ctx-has c e2 refl)),
        packed.0,
        pack-track f (make_ctx rtp e2) ∙ ap (λ x. x.track) (make_ctx-has c e2 refl),
        packed.1,
      )

  -- An encoder that has its packer and its track keeps both.
  pub write-keeps :
      (f : FrameBuffer) (us : List (List ℕ)) (c : S) (t : VideoTrack) (e : H264Encoder S)
      → bytes_of f ≡ annex_b us
      → All IsUnit us
      → e.ctx ≡ some c
      → e.track ≡ some t
      → (e' : H264Encoder S) × (c' : S) × (write rtp (frame f) e ≡ some e')
        × (e'.ctx ≡ some c')
        × (e'.track ≡ some t)
  unfolding make_track
  write-keeps f us c t e is_units vs has_ctx has_track =
      let k = remember_all-Keeps us e in
      let e1 = remember_all us e in
      let kept : make_track e1 ≡ e1 = ground (arith, k.same_track ∙ has_track) in
      let packed = pack-has f c e1 (k.same_ctx ∙ has_ctx) in
      (
        pack rtp f (make_ctx rtp e1),
        _,
        write-scan f us e is_units vs ∙ ap (λ x. some (pack rtp f (make_ctx rtp x))) kept,
        packed.0,
        pack-track f (make_ctx rtp e1)
            ∙ ap (λ x. x.track) (make_ctx-has c e1 (k.same_ctx ∙ has_ctx))
            ∙ k.same_track
            ∙ has_track,
      )
