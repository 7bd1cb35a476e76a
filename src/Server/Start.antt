-- ===== src/Server/Start.antt =====
-- rtmp_server_start, which answers a play or a publish once it is decided.
use simple_rtmp.Base.{Option, none, some, ◌==◌, if◌then◌else◌}
use simple_rtmp.Base.Int.{ℤ, pos, ◌==ℤ◌}
use simple_rtmp.Server.{no_start, on_play, on_publish, Library, Handler, M, ◌>>=◌, ret, and_then}
use simple_rtmp.Server.Messages.{
  rtmp_server_send_onstatus, rtmp_server_send_stream_begin, rtmp_server_send_stream_is_record,
  rtmp_server_rtmp_sample_access,
}
use Prim.Native.String.{String}

-- `!msg.empty() ? msg.data() : other`; `none` is the empty string.
abbrev pub or_text : Option String → String → String
or_text none other = other
or_text (some text) other = text

-- The end of the function, which an early return does not reach.
abbrev pub end_start : ℤ → M ℤ
end_start r c = some (r, record c { play = no_start })

module _ (lib : Library) (h : Handler) where
  abbrev pub on_status : ℤ → String → String → String → M ℤ
  on_status r success fail description c =
      rtmp_server_send_onstatus lib h c.transaction r success fail description c

  -- StreamBegin, and NetStream.Play.Reset where the player asked for it.
  unfoldable pub begin_play : M ℤ
  begin_play c =
      (rtmp_server_send_stream_begin lib h >>= λ r.
      if c.reset == 0
      then ret r
      else and_then r (on_status (pos 0) "NetStream.Play.Reset" "NetStream.Play.Failed" ""))
        c

  unfoldable pub finish_play : ℤ → Option String → M ℤ
  finish_play r msg =
      on_status r "NetStream.Play.Start" (or_text msg "NetStream.Play.Failed")
        "Start video on demand"
      >>= λ r1. and_then r1 (rtmp_server_send_stream_is_record lib h) >>= λ r2.
          and_then r2 (rtmp_server_rtmp_sample_access lib h) >>= λ r3. end_start r3

  unfoldable pub finish_publish : ℤ → Option String → M ℤ
  finish_publish r msg =
      on_status r "NetStream.Publish.Start" (or_text msg "NetStream.Publish.BadName") "" >>= λ r1.
      end_start r1

  unfoldable pub start_play : ℤ → Option String → M ℤ
  unfolding begin_play finish_play
  start_play r msg =
      if r ==ℤ pos 0
      then (begin_play >>= λ r1. if r1 ==ℤ pos 0 then finish_play r1 msg else ret r1)
      else finish_play r msg

  unfoldable pub start_publish : ℤ → Option String → M ℤ
  unfolding finish_publish
  start_publish r msg =
      if r ==ℤ pos 0
      then (rtmp_server_send_stream_begin lib h >>= λ r1.
          if r1 ==ℤ pos 0 then finish_publish r1 msg else ret r1)
      else finish_publish r msg

  unfoldable pub rtmp_server_start : ℤ → Option String → M ℤ
  unfolding start_play start_publish
  rtmp_server_start r msg c = elim c.play [
    | no_start ↦ end_start r c
    | on_play ↦ start_play r msg c
    | on_publish ↦ start_publish r msg c
  ]
