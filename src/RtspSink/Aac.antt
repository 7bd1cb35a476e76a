-- ===== src/RtspSink/Aac.antt =====
-- The AAC encoder of an RTSP sink, rtsp_aac_encoder.h and rtsp_aac_encoder.cc: it makes the track from
-- the first ADTS header and has each frame packed into RTP packets.
-- The media-server library's AAC functions and its RTP packing are parameters.
use simple_rtmp.Base.{
  ℕ, suc, ◌-◌, ◌/◌, List, [], ◌∷◌, ◌++◌, map, Option, none, some, if◌then◌else◌, ◌==◌,
}
use simple_rtmp.Base.Int.{ℤ, pos, negsuc, to_u32}
use simple_rtmp.Codec.{audio}
use simple_rtmp.Frame.{FrameBuffer, fixed, new_frame, bytes_of, pts}
use simple_rtmp.Sink.{Signal, frame, failed}
use simple_rtmp.RtspSink.H264.{Rtp, RtpPacket, times}
use simple_rtmp.RtspSink.Track.{AudioTrack, next_ssrc}

-- mpeg4_aac_adts_load, with the index and the channels that it reads; `none` is a negative result, as
-- in mpeg4_aac_audio_specific_config_save; mpeg4_aac_audio_frequency_to. `K` is struct mpeg4_aac_t.
pub record Mpeg4 (K : Type 0) : Type 0 where
  pub adts_load : List ℕ → Option K
  pub sampling_frequency_index : K → ℕ
  pub channel_configuration : K → ℕ
  pub config_save : K → Option (List ℕ)
  pub frequency_to : ℕ → ℕ

-- `counter` is the static counter of `audio_ssrc` as it stands when the track is made; `sent` is the
-- log of the calls of `write` on the encoder's channel.
pub record AacEncoder (S : Type 0) : Type 0 where
  pub sample_rate : ℕ
  pub channel_count : ℕ
  pub track : Option AudioTrack
  pub ctx : Option S
  pub counter : ℕ
  pub sent : List Signal

-- The division of a C++ integer by a positive one, which rounds to 0.
abbrev pub quotient : ℤ → ℕ → ℤ
quotient (pos n) k = pos (n / k)
quotient (negsuc n) k = if suc n / k == 0 then pos 0 else negsuc (suc n / k - 1)

abbrev pub rtp_frame : RtpPacket → FrameBuffer
rtp_frame p = fixed (record (new_frame p.data_bytes) {
  media = audio;
  flag = p.flags;
  pts = pos p.timestamp;
  dts = pos p.timestamp;
})

module _ {S : Type 0} where
  unfoldable pub new_encoder : ℕ → AacEncoder S
  new_encoder counter = record {
    sample_rate = 44100;
    channel_count = 0;
    track = none;
    ctx = none;
    counter = counter;
    sent = [];
  }

module _ {S K : Type 0} (rtp : Rtp S) (mpeg4 : Mpeg4 K) where
  -- The track from a frame's header; `none` is an early return.
  unfoldable pub make_track : FrameBuffer → AacEncoder S → Option (AacEncoder S)
  make_track f e = elim e.track [
    | some t ↦ some e
    | none ↦ elim (mpeg4.adts_load (bytes_of f)) [
      | none ↦ none
      | some aac ↦ elim (mpeg4.config_save aac) [
        | none ↦ none
        | some buf ↦
            let n = next_ssrc e.counter in
            let rate = mpeg4.frequency_to (mpeg4.sampling_frequency_index aac) in
            let count = mpeg4.channel_configuration aac in
            some (record e {
              sample_rate = rate;
              channel_count = count;
              counter = n;
              track = some (record { cfg = buf; sample_rate = rate; channels = count; ssrc = n });
            })
      ]
    ]
  ]

  unfoldable pub make_ctx : AacEncoder S → AacEncoder S
  make_ctx e = elim e.ctx [
    | some c ↦ e
    | none ↦ elim e.track [
      | none ↦ e
      | some t ↦ record e { ctx = rtp.create 98 "mpeg4-generic" t.ssrc }
    ]
  ]

  unfoldable pub pack : FrameBuffer → AacEncoder S → AacEncoder S
  pack f e = elim e.ctx [
    | none ↦ e
    | some c ↦
        let time = to_u32 (quotient (times e.sample_rate (pts f)) 1000) in
        let (c', packets) = rtp.input c (bytes_of f) time in
        record e { ctx = some c'; sent = e.sent ++ map (λ p. frame (rtp_frame p)) packets }
  ]

  unfoldable pub write : Signal → AacEncoder S → AacEncoder S
  unfolding make_track make_ctx pack
  write (failed ec) e = record e { sent = e.sent ++ failed ec ∷ [] }
  write (frame f) e = elim (make_track f e) [ none ↦ e | some e' ↦ pack f (make_ctx e') ]
