-- ===== src/RtmpEncoder.antt =====
-- The encoders of an RTMP sink, rtmp_encoder.h.
pub mod Aac
pub mod H264
pub mod Tags
pub mod Relay
pub mod Series
pub mod Example
mod Runs
