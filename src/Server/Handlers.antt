-- ===== src/Server/Handlers.antt =====
-- The callbacks that the media-server library calls for the commands and the media that it reads.
use simple_rtmp.Base.{ℕ, ◌-◌, List, [], ◌∷◌, ◌++◌, Option, none, some, take, ◌==◌, if◌then◌else◌}
use simple_rtmp.Base.Int.{ℤ, pos, ◌==ℤ◌}
use simple_rtmp.Frame.{FrameBuffer, create, append_bytes, set_pts, set_dts, set_codec}
use simple_rtmp.Codec
use simple_rtmp.Server.{
  no_start, on_play, on_publish, Library, Handler, M, ◌>>=◌, ◌>>◌, ret, modify, and_then,
}
use simple_rtmp.Server.Messages.{
  rtmp_server_send_control, rtmp_server_send_onstatus, rtmp_server_send_set_chunk_size,
  rtmp_server_send_server_bandwidth, rtmp_server_send_client_bandwidth,
}
use simple_rtmp.Server.Start.{rtmp_server_start}

-- A frame of the bytes, which carries the time twice and the tag as its codec.
unfoldable pub media_frame : ℕ → List ℕ → ℕ → FrameBuffer
unfolding append_bytes
media_frame tag bytes time =
    set_codec tag (set_dts (pos time) (set_pts (pos time) (append_bytes (some bytes) (create []))))

-- The call of a media callback; what it is given is logged.
unfoldable pub receive : Option (FrameBuffer → ℤ) → FrameBuffer → M ℤ
receive none frame c = none
receive (some f) frame c = some (f frame, record c { received = c.received ++ frame ∷ [] })

-- `snprintf(to, room, "%s", text != nullptr ? text : "")`.
abbrev pub print_name : ℕ → Option (List ℕ) → List ℕ
print_name room none = []
print_name room (some text) = take (room - 1) text

-- RTMP_SERVER_ASYNC_START.
abbrev pub async_start : ℤ
async_start = pos 0x12345678

module _ (lib : Library) (h : Handler) where
  unfoldable pub rtmp_server_onaudio : List ℕ → ℕ → M ℤ
  unfolding receive media_frame
  rtmp_server_onaudio bytes time = receive h.onaudio (media_frame Codec.audio bytes time)

  unfoldable pub rtmp_server_onvideo : List ℕ → ℕ → M ℤ
  unfolding receive media_frame
  rtmp_server_onvideo bytes time = receive h.onvideo (media_frame Codec.video bytes time)

  unfoldable pub rtmp_server_onscript : List ℕ → ℕ → M ℤ
  unfolding receive media_frame
  rtmp_server_onscript bytes time = receive h.onscript (media_frame Codec.script bytes time)

  -- `app` and `encoding` are fields of `connect`. The assertions are on the encoding and on the
  -- transaction, which must be 1.
  unfoldable pub greet : M ℤ
  unfolding rtmp_server_send_server_bandwidth rtmp_server_send_client_bandwidth
      rtmp_server_send_set_chunk_size
  greet = rtmp_server_send_server_bandwidth lib h >>= λ r1.
      and_then r1 (rtmp_server_send_client_bandwidth lib h) >>= λ r2.
      and_then r2 (rtmp_server_send_set_chunk_size lib h)

  unfoldable pub accept : ℕ → List ℕ → M ℤ
  unfolding greet
  accept transaction app c = if lib.is_one transaction then greet (record c { app = app }) else none

  unfoldable pub first : ℤ → ℕ → List ℕ → M ℤ
  unfolding accept
  first r transaction app = and_then r (accept transaction app)

  unfoldable pub rtmp_server_onconnect : ℤ → ℕ → List ℕ → ℕ → M ℤ
  unfolding first
  rtmp_server_onconnect r transaction app encoding c =
      if lib.is_amf_encoding encoding
      then (first r transaction app >>= λ r1.
            and_then r1 (rtmp_server_send_control lib h (lib.connect_reply transaction encoding) 0))
          c
      else none

  unfoldable pub rtmp_server_oncreate_stream : ℤ → ℕ → M ℤ
  rtmp_server_oncreate_stream r transaction = and_then r (
      modify (λ c. record c { stream_id = 1 })
      >> rtmp_server_send_control lib h (lib.create_stream_reply transaction 1) 0)

  unfoldable pub rtmp_server_ondelete_stream : ℤ → ℕ → M ℤ
  rtmp_server_ondelete_stream r transaction = and_then r (
      modify (λ c. record c { stream_id = 0 })
      >> rtmp_server_send_onstatus lib h transaction r "NetStream.DeleteStream.Suceess"
          "NetStream.DeleteStream.Failed" "")

  -- A callback that is not set leaves the question without an answer.
  unfoldable pub rtmp_server_onget_stream_length : ℤ → ℕ → List ℕ → M ℤ
  rtmp_server_onget_stream_length r transaction name c = elim h.ongetduration [
    | none ↦ some (r, c)
    | some f ↦
        and_then r
          (let (r1, duration) = f c.app name in
            and_then r1 (
              rtmp_server_send_control lib h (lib.get_stream_length_reply transaction duration)
                c.stream_id))
          c
  ]

  -- What follows the session's decision: it may answer later, by itself, or may have answered already.
  unfoldable pub after_decision : ℤ → M ℤ
  unfolding rtmp_server_start
  after_decision r c =
      if r ==ℤ async_start
      then some (pos 0, c)
      else elim c.play [ no_start ↦ some (r, c) | _ ↦ rtmp_server_start lib h r none c ]

  -- A name that is a null pointer cannot be made a std::string.
  unfoldable pub rtmp_server_onpublish : ℤ → ℕ → Option (List ℕ) → Option (List ℕ) → M ℤ
  unfolding after_decision
  rtmp_server_onpublish r transaction name type = and_then r (λ c.
      let d = record c {
        play = on_publish;
        transaction = transaction;
        stream_name = print_name 255 name;
        stream_type = print_name 17 type;
      } in
      elim h.onpublish [
        | none ↦ none
        | some f ↦ elim name [
          | none ↦ none
          | some n ↦ elim type [ none ↦ none | some t ↦ (f d.app n t >>= after_decision) d ]
        ]
      ])

  unfoldable pub rtmp_server_onplay : ℤ → ℕ → Option (List ℕ) → ℕ → ℕ → ℕ → M ℤ
  unfolding after_decision
  rtmp_server_onplay r transaction name start duration reset = and_then r (λ c.
      let d = record c {
        play = on_play;
        reset = reset;
        transaction = transaction;
        stream_name = print_name 255 name;
        stream_type =
            print_name 17
              (some (if lib.is_minus_one start then lib.stream_live else lib.stream_record));
      } in
      elim h.onplay [
        | none ↦ none
        | some f ↦ elim name [
          | none ↦ none
          | some n ↦ (f d.app n start duration reset >>= after_decision) d
        ]
      ])

  unfoldable pub rtmp_server_onpause : ℤ → ℕ → ℕ → ℕ → M ℤ
  rtmp_server_onpause r transaction pause time = and_then r (elim h.onpause [
    | none ↦ λ c. none
    | some f ↦
        rtmp_server_send_onstatus lib h transaction (f pause (lib.to_uint32 time))
          (if pause == 0 then "NetStream.Unpause.Notify" else "NetStream.Pause.Notify")
          "NetStream.Pause.Failed" ""
  ])

  unfoldable pub rtmp_server_onseek : ℤ → ℕ → ℕ → M ℤ
  rtmp_server_onseek r transaction time = and_then r (elim h.onseek [
    | none ↦ λ c. none
    | some f ↦
        rtmp_server_send_onstatus lib h transaction (f (lib.to_uint32 time)) "NetStream.Seek.Notify"
          "NetStream.Seek.Failed" ""
  ])

  -- The two notices after a medium is switched on: the second one says how the first one went.
  unfoldable pub notify_seek : ℕ → M ℤ
  notify_seek transaction =
      rtmp_server_send_onstatus lib h transaction (pos 0) "NetStream.Seek.Notify"
        "NetStream.Seek.Failed" ""
      >>= λ r.
          rtmp_server_send_onstatus lib h transaction r "NetStream.Play.Start"
            "NetStream.Play.Failed" ""

  unfoldable pub rtmp_server_onreceive_audio : ℤ → ℕ → ℕ → M ℤ
  unfolding notify_seek
  rtmp_server_onreceive_audio r transaction audio = and_then r (
      modify (λ c. record c { receive_audio = audio })
      >> (if audio == 0 then ret r else notify_seek transaction))

  unfoldable pub rtmp_server_onreceive_video : ℤ → ℕ → ℕ → M ℤ
  unfolding notify_seek
  rtmp_server_onreceive_video r transaction video = and_then r (
      modify (λ c. record c { receive_video = video })
      >> (if video == 0 then ret r else notify_seek transaction))
