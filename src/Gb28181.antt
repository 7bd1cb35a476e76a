-- ===== src/Gb28181.antt =====
-- Taking in GB28181 streams: RTP packets over TCP. Gb28181.Rtp is the part that cuts the bytes into
-- packets; the session, the source and the other demuxers, modelled here, drop what they get.
pub mod Rtp
pub mod Takes
pub mod Framing
pub mod Stuck
mod Runs
use simple_rtmp.Base.{ℕ, List, [], ◌∷◌, ◌++◌, Bool, true, false, Option, none, some, if◌then◌else◌}
use simple_rtmp.Frame.{FrameBuffer}
use simple_rtmp.Sink.{Signal, frame, failed}

-- gb28181_demuxer.h, gb28181_demuxer.cc. The callback is a number.
pub record Demuxer : Type 0 where
  pub ch : Option ℕ
  pub codec_cb : Option ℕ

unfoldable pub set_channel : Option ℕ → Demuxer → Demuxer
set_channel ch d = record d { ch = ch }

unfoldable pub on_codec : Option ℕ → Demuxer → Demuxer
on_codec codec_cb d = record d { codec_cb = codec_cb }

unfoldable pub demuxer_write : Signal → Demuxer → Demuxer
demuxer_write (failed ec) d = d
demuxer_write (frame f) d = d

-- gb28181_ps_demuxer.h, gb28181_ps_demuxer.cc: what it is written never reaches its channel.
pub record PsDemuxer : Type 0 where
  pub ps_ch : Option ℕ
  pub sent : List (ℕ × Signal)

unfoldable pub ps_set_channel : Option ℕ → PsDemuxer → PsDemuxer
ps_set_channel ch d = record d { ps_ch = ch }

unfoldable pub ps_on_frame : Signal → PsDemuxer → PsDemuxer
ps_on_frame signal d = elim d.ps_ch [
  | none ↦ d
  | some c ↦ record d { sent = d.sent ++ (c, signal) ∷ [] }
]

unfoldable pub ps_write : FrameBuffer → PsDemuxer → PsDemuxer
ps_write f d = d

-- gb28181_source.h, gb28181_source.cc: the channel is all that it keeps.
unfoldable pub source_write : Signal → Option ℕ → Option ℕ
source_write signal ch = ch

unfoldable pub source_on_codec : ℕ → Option ℕ → Option ℕ
source_on_codec codec ch = ch

-- gb28181_publish_session.h, gb28181_publish_session.cc.
pub data Output : Type 0 where
  conn_started : Output
  shutdown_posted : Output
  conn_shutdown : Output

pub record PublishSession : Type 0 where
  pub conn : Bool
  pub outputs : List Output

unfoldable pub start : PublishSession
start = record { conn = true; outputs = conn_started ∷ [] }

abbrev pub shutdown : PublishSession → PublishSession
shutdown s = record s { outputs = s.outputs ++ shutdown_posted ∷ [] }

unfoldable pub on_write : Bool → PublishSession → PublishSession
on_write ok s = if ok then s else shutdown s

-- `failed` is a read that failed; what any other brings is dropped.
unfoldable pub on_read : Signal → PublishSession → PublishSession
on_read (failed ec) s = shutdown s
on_read (frame f) s = s

unfoldable pub safe_shutdown : PublishSession → PublishSession
safe_shutdown s =
    if s.conn then record s { conn = false; outputs = s.outputs ++ conn_shutdown ∷ [] } else s
