-- ===== src/Server/Replies.antt =====
-- A play or a publish is answered once.
use simple_rtmp.Base.{◌≡◌, Option, some, if◌then◌else◌, arith, Option-cases, inl, inr}
use simple_rtmp.Base.Int.{ℤ, pos, ◌==ℤ◌}
use simple_rtmp.Server.{no_start, Context, Library, Handler, M, ◌>>=◌, ret}
use simple_rtmp.Server.Start.{
  rtmp_server_start, start_play, start_publish, finish_play, finish_publish, end_start, begin_play,
}
use simple_rtmp.Server.Messages.{rtmp_server_send_stream_begin}
use Prim.Native.String.{String}

-- Where it returns 0, nothing is to be answered any more.
unfoldable Clears : M ℤ → Type 0
Clears m = (c d : Context) → m c ≡ some (pos 0, d) → d.play ≡ no_start

Clears-end : (r : ℤ) → Clears (end_start r)
unfolding Clears
Clears-end r c d e = ground (arith, e)

-- A result that is not 0 is returned, and so is not 0.
Clears-go_on :
    (m : M ℤ) (f : ℤ → M ℤ)
    → ((r : ℤ) → Clears (f r))
    → Clears (m >>= λ r. if r ==ℤ pos 0 then f r else ret r)
unfolding Clears
Clears-go_on m f p c d e = elim (Option-cases (m c)) [
  | inl failed ↦ ground (arith, failed, e)
  | inr ((r, c'), q) ↦ ground (arith, q, e, p r c' d)
]

module _ (lib : Library) (h : Handler) where
  Clears-finish_play : (r : ℤ) (msg : Option String) → Clears (finish_play lib h r msg)
  unfolding finish_play Clears
  Clears-finish_play r msg c d e = ground (arith, e)

  Clears-finish_publish : (r : ℤ) (msg : Option String) → Clears (finish_publish lib h r msg)
  unfolding finish_publish Clears
  Clears-finish_publish r msg c d e = ground (arith, e)

  Clears-start_play : (r : ℤ) (msg : Option String) → Clears (start_play lib h r msg)
  unfolding start_play Clears
  Clears-start_play r msg c d e = ground (
    arith,
    e,
    Clears-go_on (begin_play lib h) (λ r1. finish_play lib h r1 msg)
        (λ r1. Clears-finish_play r1 msg) c d,
    Clears-finish_play r msg c d,
  )

  Clears-start_publish : (r : ℤ) (msg : Option String) → Clears (start_publish lib h r msg)
  unfolding start_publish Clears
  Clears-start_publish r msg c d e = ground (
    arith,
    e,
    Clears-go_on (rtmp_server_send_stream_begin lib h) (λ r1. finish_publish lib h r1 msg)
        (λ r1. Clears-finish_publish r1 msg) c d,
    Clears-finish_publish r msg c d,
  )

  Clears-start : (r : ℤ) (msg : Option String) → Clears (rtmp_server_start lib h r msg)
  unfolding rtmp_server_start Clears
  Clears-start r msg c d e =
      ground
        (arith, e, Clears-start_play r msg c d, Clears-start_publish r msg c d, Clears-end r c d)

  -- Once a call of rtmp_server_start has returned 0, a further call, with any result and message,
  -- sends nothing: it returns its argument and leaves the context as it is.
  pub start-start :
      (r r' : ℤ) (msg msg' : Option String) (c d : Context)
      → rtmp_server_start lib h r msg c ≡ some (pos 0, d)
      → rtmp_server_start lib h r' msg' d ≡ some (r', d)
  unfolding rtmp_server_start Clears
  start-start r r' msg msg' c d e =
      let cleared = Clears-start r msg c d e in ground (arith, cleared)
