-- ===== src/RtspSink/Fanout.antt =====
-- What the channels of an RTSP sink are written, rtsp_sink.cc.
use simple_rtmp.Base.{
  ℕ, ◌≡◌, refl, ap, ◌∙◌, List, [], ◌∷◌, ◌++◌, some, if◌then◌else◌, arith, All, append_assoc,
  append-nil,
}
use simple_rtmp.Base.Int.{to_u32}
use simple_rtmp.Codec.{video}
use simple_rtmp.Frame.{FrameBuffer, bytes_of, pts, media}
use simple_rtmp.Sink.{Signal, frame}
use simple_rtmp.Sink.Rtmp.{write_all}
use simple_rtmp.Sink.Rtmp.Trace.{Ascending}
use simple_rtmp.Sink.Rtmp.Join.{received, contains, received-append, received-write_all}
use simple_rtmp.RtspSink.H264.{H264Encoder, Rtp, times}
use simple_rtmp.RtspSink.Aac.{Mpeg4}
use simple_rtmp.RtspSink.{RtspSink, on_frame, on_frames, write_video, write}
use simple_rtmp.RtspSink.Scan.{IsUnit, annex_b}
use simple_rtmp.RtspSink.Pack.{to_signals, write-units}

-- A channel of the set gets the signals, any other gets none.
abbrev pub for_channel : ℕ → List ℕ → List Signal → List Signal
for_channel ch chs signals = if contains chs ch then signals else []

module _ {S : Type 0} (ch : ℕ) where
  on_frames-chs : (signals : List Signal) (s : RtspSink S) → (on_frames signals s).chs ≡ s.chs
  unfolding on_frames on_frame
  on_frames-chs [] s = refl
  on_frames-chs (signal ∷ signals) s = on_frames-chs signals (on_frame signal s)

  on_frames-received :
      (signals : List Signal) (s : RtspSink S)
      → Ascending 0 s.chs
      → received ch (on_frames signals s).sent ≡ received ch s.sent ++ for_channel ch s.chs signals
  unfolding on_frames on_frame
  on_frames-received [] s a = ground (arith, append-nil (received ch s.sent))
  on_frames-received (signal ∷ signals) s a = ground (
    arith,
    on_frames-received signals (on_frame signal s) a,
    received-append ch s.sent (write_all s.chs signal),
    received-write_all 0 ch s.chs signal a,
    append_assoc (received ch s.sent) (signal ∷ []) signals,
    append-nil (received ch s.sent),
  )

module _ {S K : Type 0} (rtp : Rtp S) (mpeg4 : Mpeg4 K) where
  -- A video frame of units, each behind a start code of four bytes, given to a sink whose video encoder
  -- has its packer: every channel of the sink is written each packet that the library makes of the
  -- frame, once and in order, any other channel nothing, and the call does not fail.
  pub write-fanout :
      (f : FrameBuffer) (us : List (List ℕ)) (c : S) (e : H264Encoder S) (s : RtspSink S)
      → bytes_of f ≡ annex_b us
      → All IsUnit us
      → media f ≡ video
      → s.video_encoder ≡ some e
      → e.ctx ≡ some c
      → Ascending 0 s.chs
      → (s' : RtspSink S) × (write rtp mpeg4 (frame f) s ≡ some s')
        × (s'.chs ≡ s.chs)
        × ((ch : ℕ)
            → received ch s'.sent
              ≡ received ch s.sent
                ++ for_channel ch s.chs
                    (to_signals (rtp.input c (bytes_of f) (to_u32 (times 90 (pts f)))).1))
  unfolding write write_video
  write-fanout f us c e s is_units vs kind has has_ctx a =
      let (e', q, ctx, sent) =
        write-units rtp f us c (record e { sent = [] }) is_units vs has_ctx in
      let s1 : RtspSink S = record s { video_encoder = some e' } in
      (
        on_frames (e'.sent) s1,
        ground (arith, kind, has, q),
        on_frames-chs 0 (e'.sent) s1,
        λ ch.
            on_frames-received ch (e'.sent) s1 a
            ∙ ap (λ x. received ch s.sent ++ for_channel ch s.chs x) sent,
      )
