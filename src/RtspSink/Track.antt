-- ===== src/RtspSink/Track.antt =====
-- The tracks of an RTSP sink, rtsp_track.h, rtsp_track.cc, rtsp_h264_track.cc and rtsp_aac_track.cc;
-- the texts of their session descriptions are in RtspSink.Description.
use simple_rtmp.Base.{ℕ, ◌+◌, ◌%◌, ◌^◌, List}

-- `video_ssrc` and `audio_ssrc`, each with a counter of its own.
abbrev pub next_ssrc : ℕ → ℕ
next_ssrc counter = (counter + 2) % 2 ^ 32

-- `rtsp_h264_track`.
pub record VideoTrack : Type 0 where
  pub track_sps : List ℕ
  pub track_pps : List ℕ
  pub ssrc : ℕ

-- `rtsp_aac_track`.
pub record AudioTrack : Type 0 where
  pub cfg : List ℕ
  pub sample_rate : ℕ
  pub channels : ℕ
  pub ssrc : ℕ

pub data RtspTrack : Type 0 where
  video_track : VideoTrack → RtspTrack
  audio_track : AudioTrack → RtspTrack
