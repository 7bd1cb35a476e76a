-- ===== src/Server/Media.antt =====
-- A player that switches a medium off.
use simple_rtmp.Base.{ℕ, ◌≡◌, refl, some}
use simple_rtmp.Base.Int.{pos}
use simple_rtmp.Frame.{FrameBuffer}
use simple_rtmp.Server.{Context, Library, Handler, ◌>>=◌}
use simple_rtmp.Server.Messages.{rtmp_server_send_audio, rtmp_server_send_video}
use simple_rtmp.Server.Handlers.{rtmp_server_onreceive_audio, rtmp_server_onreceive_video}

module _ (lib : Library) (h : Handler) where
  -- After receiveAudio or receiveVideo with false no frame of that medium is sent: sending one returns
  -- 0 and leaves the context as the command left it, which is the context with that flag cleared.
  onreceive-send :
      (transaction : ℕ) (frame : FrameBuffer) (c : Context)
      → ((rtmp_server_onreceive_audio lib h (pos 0) transaction 0 >>= λ r.
              rtmp_server_send_audio lib h frame)
            c
          ≡ some (pos 0, record c { receive_audio = 0 }))
        × ((rtmp_server_onreceive_video lib h (pos 0) transaction 0 >>= λ r.
                rtmp_server_send_video lib h frame)
              c
            ≡ some (pos 0, record c { receive_video = 0 }))
  unfolding rtmp_server_onreceive_audio rtmp_server_onreceive_video rtmp_server_send_audio
      rtmp_server_send_video
  onreceive-send transaction frame c = (refl, refl)
