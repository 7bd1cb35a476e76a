-- ===== src/HttpSession.antt =====
-- The HTTP session, http_session.h and http_session.cc: it reads requests, and opens an FLV session or
-- calls what is registered for the target.
-- The parser and the stream of Boost.Beast are there or not. `none` is a null pointer that is used.
pub mod Targets
mod Runs
use simple_rtmp.Base.{
  List, [], ◌∷◌, ◌++◌, Bool, true, false, ◌||◌, Option, none, some, if◌then◌else◌,
}
use simple_rtmp.Rtsp.Parser.{Text}
use simple_rtmp.Rtsp.Transports.{starts_with}
use simple_rtmp.RtspSession.Requests.{ends_with}
use simple_rtmp.FlvSession.{dot_flv, slash_flv}

-- `/hls/` and `.hls`.
abbrev pub slash_hls : Text
slash_hls = 47 ∷ 104 ∷ 108 ∷ 115 ∷ 47 ∷ []

abbrev pub dot_hls : Text
dot_hls = 46 ∷ 104 ∷ 108 ∷ 115 ∷ []

-- What http_session makes of a request: a registered callback, an answer that opens an FLV session, the
-- empty handler for HLS, or nothing at all.
pub data Route : Type 0 where
  registered flv_session hls unanswered : Route

-- `known` says for which targets a callback is registered.
unfoldable pub route : (Text → Bool) → Text → Route
route known target =
    if known target
    then registered
    else if ends_with target (slash_flv ++ 47 ∷ []) || ends_with target dot_flv
    then flv_session
    else if starts_with target slash_hls || ends_with target dot_hls
    then hls
    else unanswered

-- What the session does outside.
pub data Output : Type 0 where
  read_started : Output
  callback_called : Text → Output
  flv_answered : Text → Output
  flv_started : Text → Output
  shutdown_posted : Output
  closed : Output

pub record HttpSession : Type 0 where
  pub stream : Bool
  pub parser : Bool
  pub outputs : List Output

abbrev pub new_session : HttpSession
new_session = record { stream = false; parser = false; outputs = [] }

abbrev pub output : Output → HttpSession → HttpSession
output o s = record s { outputs = s.outputs ++ o ∷ [] }

abbrev pub shutdown : HttpSession → HttpSession
shutdown s = output shutdown_posted s

unfoldable pub do_read : HttpSession → Option HttpSession
do_read s = if s.stream then some (output read_started (record s { parser = true })) else none

-- What start posts.
unfoldable pub safe_do_read : HttpSession → Option HttpSession
unfolding do_read
safe_do_read s = do_read (record s { stream = true })

-- What shutdown posts: both sockets are closed.
unfoldable pub safe_shutdown : HttpSession → HttpSession
safe_shutdown s = output closed s

-- A request for HLS, and one for any other target, is left without an answer.
unfoldable pub on_request : (Text → Bool) → Text → HttpSession → HttpSession
unfolding route
on_request known target s =
    if s.parser
    then elim (route known target) [
      | registered ↦ output (callback_called target) s
      | flv_session ↦ output (flv_answered target) s
      | hls ↦ s
      | unanswered ↦ s
    ]
    else shutdown s

-- `target` is the request that was read; without one the read has failed.
unfoldable pub on_read : (Text → Bool) → Option Text → HttpSession → HttpSession
unfolding on_request
on_read known none s = shutdown s
on_read known (some target) s = on_request known target s

-- The answer to an FLV request is out: the socket goes to a new FLV session.
unfoldable pub on_flv_write : Bool → Text → HttpSession → Option HttpSession
on_flv_write ok target s =
    if ok
    then (if s.stream
        then some (shutdown (output (flv_started target) (record s { stream = false })))
        else none)
    else some s

unfoldable pub on_write : Bool → Bool → HttpSession → Option HttpSession
unfolding do_read
on_write ok keep_alive s =
    if ok then (if keep_alive then do_read s else some (shutdown s)) else some s
