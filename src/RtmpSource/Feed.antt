-- ===== src/RtmpSource/Feed.antt =====
-- What the RTSP encoder of a source has become when it is handed frames.
use simple_rtmp.Base.{
  ℕ, ◌%◌, ◌≡◌, refl, sym, ap, ◌∙◌, List, [], ◌∷◌, map, append-nil, none, some, arith, All,
}
use simple_rtmp.Base.Int.{ℤ}
use simple_rtmp.Codec.{video}
use simple_rtmp.Frame.{FrameBuffer, fixed, bytes_of, base, media}
use simple_rtmp.Sink.{Signal, frame}
use simple_rtmp.Sink.Rtmp
use simple_rtmp.RtspSink
use simple_rtmp.RtspSink.{RtspSink, tracks}
use simple_rtmp.RtspSink.H264
use simple_rtmp.RtspSink.Aac
use simple_rtmp.RtspSink.Track.{VideoTrack, next_ssrc}
use simple_rtmp.RtspSink.Scan.{IsUnit, annex_b}
use simple_rtmp.RtspSink.Pack.{write-keeps, write-sets}
use simple_rtmp.Demuxer.{to_channel}
use simple_rtmp.Demuxer.H264.{video_frame}
use simple_rtmp.Demuxer.Units.{Nalu, frames}
use simple_rtmp.RtmpSource.{Parts, RtmpSource, on_frame, make_calls}

on_frames-encoders :
    {S : Type 0} (signals : List Signal) (s : RtspSink S)
    → ((RtspSink.on_frames signals s).video_encoder ≡ s.video_encoder)
      × ((RtspSink.on_frames signals s).audio_encoder ≡ s.audio_encoder)
unfolding RtspSink.on_frames RtspSink.on_frame
on_frames-encoders [] s = (refl, refl)
on_frames-encoders (signal ∷ signals) s = on_frames-encoders signals (RtspSink.on_frame signal s)

module _ {A B D E S K : Type 0} (p : Parts A B D E S K) where
  -- The encoders of the RTSP sink, the video encoder with a packer and this track.
  pub record Plays (t : VideoTrack) (a : Aac.AacEncoder S) (s : RtmpSource A B E S) : Type 0 where
    pub encoder : H264.H264Encoder S
    pub packer : S
    pub has_encoder : s.rtsp_sink.video_encoder ≡ some encoder
    pub has_packer : encoder.ctx ≡ some packer
    pub has_track : encoder.track ≡ some t
    pub has_audio : s.rtsp_sink.audio_encoder ≡ some a

  on_frame-video :
      (f : FrameBuffer) (e e' : H264.H264Encoder S) (a : Aac.AacEncoder S) (s : RtmpSource A B E S)
      → media f ≡ video
      → s.rtsp_sink.video_encoder ≡ some e
      → s.rtsp_sink.audio_encoder ≡ some a
      → H264.write p.rtp (frame f) (record e { sent = [] }) ≡ some e'
      → (s' : RtmpSource A B E S) × (on_frame p (frame f) s ≡ some s')
        × (s'.rtsp_sink.video_encoder ≡ some e')
        × (s'.rtsp_sink.audio_encoder ≡ some a)
  unfolding on_frame RtspSink.write RtspSink.write_video
  on_frame-video f e e' a s kind has_video has_audio q =
      let r = RtspSink.on_frames (e'.sent) (record (s.rtsp_sink) { video_encoder = some e' }) in
      let k = on_frames-encoders (e'.sent) (record (s.rtsp_sink) { video_encoder = some e' }) in
      (
        record s {
          rtmp_sink = Rtmp.write p.stray p.new_h264 p.new_aac p.encode (frame f) s.rtmp_sink;
          rtsp_sink = r;
        },
        ground (arith, kind, has_video, q),
        k.0,
        k.1 ∙ has_audio,
      )

  on_frame-Plays :
      (f : FrameBuffer) (us : List (List ℕ)) (t : VideoTrack) (a : Aac.AacEncoder S)
      (s : RtmpSource A B E S)
      → media f ≡ video
      → bytes_of f ≡ annex_b us
      → All IsUnit us
      → Plays t a s
      → (s' : RtmpSource A B E S) × (on_frame p (frame f) s ≡ some s') × Plays t a s'
  on_frame-Plays f us t a s kind is_units vs plays =
      let (e', c', q, has_packer, has_track) =
        write-keeps p.rtp f us plays.packer t (record (plays.encoder) { sent = [] }) is_units vs
          plays.has_packer plays.has_track in
      let (s', r, has_encoder, has_audio) =
        on_frame-video f plays.encoder e' a s kind plays.has_encoder plays.has_audio q in
      (
        s',
        r,
        record {
          encoder = e';
          packer = c';
          has_encoder = has_encoder;
          has_packer = has_packer;
          has_track = has_track;
          has_audio = has_audio;
        },
      )

  pub make_calls-units :
      (timestamp cts : ℤ) (keyframe c : ℕ) (us : List Nalu) (t : VideoTrack) (a : Aac.AacEncoder S)
      (s : RtmpSource A B E S)
      → All (λ (u : Nalu). IsUnit (u.body)) us
      → Plays t a s
      → (s' : RtmpSource A B E S) × (make_calls p
            (map (λ u. to_channel c (frame u)) (frames timestamp cts keyframe us))
            s
          ≡ some s')
        × Plays t a s'
  unfolding make_calls annex_b bytes_of base
  make_calls-units timestamp cts keyframe c [] t a s vs plays = (s, refl, plays)
  make_calls-units timestamp cts keyframe c (u ∷ us) t a s (v, vs) plays =
      let f = fixed (video_frame timestamp cts keyframe (0 ∷ (0 ∷ (0 ∷ (1 ∷ u.body))))) in
      let (s1, q, plays1) =
        on_frame-Plays f (u.body ∷ []) t a s refl
          (ap (λ bytes. 0 ∷ (0 ∷ (0 ∷ (1 ∷ bytes)))) (sym (append-nil u.body))) (v, tt) plays in
      let (s2, r, plays2) = make_calls-units timestamp cts keyframe c us t a s1 vs plays1 in
      (s2, ground (arith, q, r), plays2)

  pub make_calls-sets :
      (f : FrameBuffer) (c : ℕ) (first_s first_p : ℕ) (sps pps : List ℕ) (packer : S)
      (a : Aac.AacEncoder S) (s : RtmpSource A B E S)
      → media f ≡ video
      → bytes_of f ≡ annex_b ((first_s ∷ sps) ∷ (first_p ∷ pps) ∷ [])
      → IsUnit (first_s ∷ sps)
      → IsUnit (first_p ∷ pps)
      → first_s % 32 ≡ 7
      → first_p % 32 ≡ 8
      → p.rtp.create 96 "H264" (next_ssrc p.videos) ≡ some packer
      → s.rtsp_sink.video_encoder ≡ some (H264.new_encoder p.videos)
      → s.rtsp_sink.audio_encoder ≡ some a
      → (s' : RtmpSource A B E S) × (on_frame p (frame f) s ≡ some s')
        × Plays
            (record {
              track_sps = first_s ∷ sps;
              track_pps = first_p ∷ pps;
              ssrc = next_ssrc p.videos;
            })
            a
            s'
  unfolding H264.new_encoder
  make_calls-sets f c first_s first_p sps pps packer a s kind is_sets vs vp type_s type_p made
        has_video has_audio =
      let e : H264.H264Encoder S = record {
        sps = none;
        pps = none;
        track = none;
        ctx = none;
        counter = p.videos;
        sent = [];
      } in
      let (e', q, has_packer, has_track, _) =
        write-sets p.rtp f sps pps first_s first_p packer e is_sets vs vp type_s type_p refl refl
          made in
      let (s', r, has_encoder, has_audio') = on_frame-video f e e' a s kind has_video has_audio q in
      (
        s',
        r,
        record {
          encoder = e';
          packer = _;
          has_encoder = has_encoder;
          has_packer = has_packer;
          has_track = has_track;
          has_audio = has_audio';
        },
      )
