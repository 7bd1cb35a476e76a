-- ===== src/RtmpSource.antt =====
-- The source of a publisher's stream, rtmp_source.h and rtmp_source.cc, and its session,
-- rtmp_publish_session.h and rtmp_publish_session.cc.
-- The demuxer's calls are made while it works, but none of them reads it: they are made in order from
-- its log. `none` is a fault of the demuxer or of the RTSP sink, or a null pointer that is used.

pub mod Feed
pub mod Tracks
pub mod Session
mod Runs
use simple_rtmp.Base.{
  ℕ, List, [], ◌∷◌, ◌++◌, Bool, true, false, Option, none, some, ◌==◌, if◌then◌else◌,
}
use simple_rtmp.Frame.{FrameBuffer}
use simple_rtmp.Sink.{Signal, frame, failed}
use simple_rtmp.Sink.Rtmp
use simple_rtmp.Sink.Rtmp.{RtmpSink}
use simple_rtmp.RtspSink
use simple_rtmp.RtspSink.{RtspSink}
use simple_rtmp.RtspSink.H264.{Rtp}
use simple_rtmp.RtspSink.Aac.{Mpeg4}
use simple_rtmp.Demuxer
use simple_rtmp.Demuxer.{Demuxer, Amf, Output, to_channel, on_codec}
use simple_rtmp.Demuxer.H264
use simple_rtmp.Demuxer.Aac

-- The libraries and the other parameters of the parts: `E` is an RTMP encoder, with the byte that a read
-- behind a frame finds, its beginnings and what it does with a signal, and the two counters are those
-- of the tracks' ssrcs.
pub record Parts (A B D E S K : Type 0) : Type 0 where
  pub amf : Amf D
  pub avc : H264.Library A
  pub mpeg4 : Aac.Library B
  pub stray : ℕ
  pub new_h264 : E
  pub new_aac : E
  pub encode : E → Signal → E × List Signal
  pub rtp : Rtp S
  pub adts : Mpeg4 K
  pub videos : ℕ
  pub audios : ℕ

pub record RtmpSource (A B E S : Type 0) : Type 0 where
  pub demuxer : Demuxer A B
  pub rtmp_sink : RtmpSink E
  pub rtsp_sink : RtspSink S

module _ {A B D E S K : Type 0} (p : Parts A B D E S K) where
  -- The constructor, but for the registration of the sinks.
  unfoldable pub new_source : ℕ → RtmpSource A B E S
  unfolding Demuxer.new_demuxer Demuxer.set_channel Demuxer.set_codec_cb Rtmp.new_sink
      RtspSink.new_sink
  new_source ch = record {
    demuxer = Demuxer.set_codec_cb (Demuxer.set_channel ch Demuxer.new_demuxer);
    rtmp_sink = Rtmp.new_sink;
    rtsp_sink = RtspSink.new_sink;
  }

  unfoldable pub on_frame : Signal → RtmpSource A B E S → Option (RtmpSource A B E S)
  unfolding Rtmp.write RtspSink.write
  on_frame signal s = elim (RtspSink.write p.rtp p.adts signal s.rtsp_sink) [
    | none ↦ none
    | some r ↦ some (record s {
      rtmp_sink = Rtmp.write p.stray p.new_h264 p.new_aac p.encode signal s.rtmp_sink;
      rtsp_sink = r;
    })
  ]

  unfoldable pub add_codec : ℕ → RtmpSource A B E S → RtmpSource A B E S
  unfolding Rtmp.add_codec RtspSink.add_codec
  add_codec code s = record s {
    rtmp_sink = Rtmp.add_codec p.stray p.new_h264 p.new_aac p.encode code s.rtmp_sink;
    rtsp_sink = RtspSink.add_codec p.videos p.audios code s.rtsp_sink;
  }

  -- The calls that leave the demuxer: its channel is that of the source.
  unfoldable pub make_calls : List Output → RtmpSource A B E S → Option (RtmpSource A B E S)
  unfolding on_frame add_codec
  make_calls [] s = some s
  make_calls (to_channel c signal ∷ outputs) s = elim (on_frame signal s) [
    | none ↦ none
    | some s' ↦ make_calls outputs s'
  ]
  make_calls (on_codec code option ∷ outputs) s = make_calls outputs (add_codec code s)

  unfoldable pub write : Signal → RtmpSource A B E S → Option (RtmpSource A B E S)
  unfolding Demuxer.write make_calls
  write signal s =
      elim (Demuxer.write p.amf p.avc p.mpeg4 signal (record (s.demuxer) { outputs = [] })) [
        | none ↦ none
        | some d ↦ make_calls d.outputs (record s { demuxer = d })
      ]

  unfoldable pub write_all : List Signal → RtmpSource A B E S → Option (RtmpSource A B E S)
  unfolding write
  write_all [] s = some s
  write_all (signal ∷ signals) s = elim (write signal s) [
    | none ↦ none
    | some s' ↦ write_all signals s'
  ]
