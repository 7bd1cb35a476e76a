-- ===== src/RtmpSource/Session.antt =====
-- The session of an RTMP publisher, rtmp_publish_session.h and rtmp_publish_session.cc, as the handlers
-- that it sets in its server context and its callbacks. `none` is a null pointer that is used, or a
-- fault of the source.
use simple_rtmp.Base.{ℕ, List, [], ◌∷◌, ◌++◌, Bool, true, false, Option, none, some, if◌then◌else◌}
use simple_rtmp.Frame.{FrameBuffer, size}
use simple_rtmp.Sink.{frame, failed}
use simple_rtmp.Rtsp.Parser.{Text}
use simple_rtmp.RtspSession.Requests.{rtsp_prefix}
use simple_rtmp.FlvSession.{rtmp_prefix}
use simple_rtmp.Demuxer.H264.{eof}
use simple_rtmp.RtmpSource.{Parts, RtmpSource, new_source}
use simple_rtmp.RtmpSource

-- What the session does outside; `sinks_added` has the ids under which its source adds the sinks, the
-- RTSP sink's first.
pub data Output : Type 0 where
  written : FrameBuffer → Output
  sinks_added : Text → Text → Output
  shutdown_posted : Output
  conn_shutdown : Output

pub record PublishSession (A B E S : Type 0) : Type 0 where
  pub app : Text
  pub stream : Text
  pub source : Option (RtmpSource A B E S)
  pub conn : Bool
  pub outputs : List Output

module _ {A B E S : Type 0} where
  unfoldable pub new_session : PublishSession A B E S
  new_session = record { app = []; stream = []; source = none; conn = true; outputs = [] }

  abbrev pub output : Output → PublishSession A B E S → PublishSession A B E S
  output o s = record s { outputs = s.outputs ++ o ∷ [] }

  abbrev pub shutdown : PublishSession A B E S → PublishSession A B E S
  shutdown s = output shutdown_posted s

  unfoldable pub on_write : Bool → PublishSession A B E S → PublishSession A B E S
  on_write ok s = if ok then s else shutdown s

  -- A read that failed; the bytes of any other go to the server context, whose result is not used.
  unfoldable pub on_read_failed : PublishSession A B E S → PublishSession A B E S
  on_read_failed s = shutdown s

  -- The result and the frame on its way.
  unfoldable pub rtmp_do_send :
      FrameBuffer → PublishSession A B E S → Option (ℕ × PublishSession A B E S)
  rtmp_do_send f s = if s.conn then some (size f, output (written f) s) else none

module _ {A B D E S K : Type 0} (p : Parts A B D E S K) where
  -- A source that was there goes, with its channel; `ch` is the new source's channel.
  unfoldable pub rtmp_on_publish : ℕ → Text → Text → PublishSession A B E S → PublishSession A B E S
  rtmp_on_publish ch app stream s =
      let id = app ++ 95 ∷ stream in
      record (output (sinks_added (rtsp_prefix ++ id) (rtmp_prefix ++ id)) s) {
        app = app;
        stream = stream;
        source = some (new_source p ch);
      }

  -- rtmp_on_script, rtmp_on_video and rtmp_on_audio.
  unfoldable pub rtmp_on_media :
      FrameBuffer → PublishSession A B E S → Option (PublishSession A B E S)
  unfolding RtmpSource.write
  rtmp_on_media f s = elim s.source [
    | none ↦ none
    | some source ↦ elim (RtmpSource.write p (frame f) source) [
      | none ↦ none
      | some source' ↦ some (record s { source = some source' })
    ]
  ]

  -- What shutdown posts: the end of the stream goes to the source.
  unfoldable pub safe_shutdown : PublishSession A B E S → Option (PublishSession A B E S)
  unfolding RtmpSource.write
  safe_shutdown s =
      let close : PublishSession A B E S → PublishSession A B E S =
        λ s'. if s'.conn then record (output conn_shutdown s') { conn = false } else s' in
      elim s.source [
        | none ↦ some (close s)
        | some source ↦ elim (RtmpSource.write p (failed eof) source) [
          | none ↦ none
          | some source' ↦ some (close (record s { source = none }))
        ]
      ]
