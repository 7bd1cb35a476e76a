-- ===== src/Rtsp.antt =====
-- The RTSP server context, rtsp_server_context.h and rtsp_server_context.cc: it cuts the bytes that it
-- gets into RTCP packets and requests.
-- Text is a list of bytes. The results of the callbacks are not used, so a handler says which callbacks
-- are set, and `calls` logs the calls. sscanf and atoi are parameters, as is the HTTP parser.
pub mod Parser
pub mod Transports
pub mod Headers
pub mod Rtcp
mod Runs
use simple_rtmp.Base.{
  ℕ, zero, suc, ◌+◌, ◌*◌, ◌/◌, ◌%◌, ◌^◌, List, [], ◌∷◌, ◌++◌, Bool, true, false, ◌&&◌, Option, none,
  some, length, get_or, ltb, leb, ◌==◌, if◌then◌else◌,
}
use simple_rtmp.Base.Int.{ℤ, pos, negsuc, ◌+ℤ◌, ◌==ℤ◌, ltb_ℤ}
use simple_rtmp.Frame.{FrameBuffer, create_ref, append_frame, bytes_of, size, empty, peek, erase}
use simple_rtmp.Rtsp.Parser.{
  Text, same_text, Method, options, describe, setup, play, teardown, other, Http, RtspParser, input,
  header, reset,
}
use simple_rtmp.Rtsp.Transports.{Transport, Scanner, parse_transport}

pub data Call : Type 0 where
  on_options : Text → Call
  on_describe : Text → Call
  on_setup : Text → Text → Transport → Call
  on_play : Text → Text → Call
  on_teardown : Text → Text → Call
  on_rtcp : ℕ → List ℕ → Call

pub record Handler : Type 0 where
  pub has_options : Bool
  pub has_describe : Bool
  pub has_setup : Bool
  pub has_play : Bool
  pub has_teardown : Bool
  pub has_rtcp : Bool

pub record RtspContext (P : Type 0) : Type 0 where
  pub seq : ℤ
  pub cache : FrameBuffer
  pub parser : RtspParser P
  pub calls : List Call

-- `CSeq`, `Session` and `Transport`.
abbrev pub cseq_text : Text
cseq_text = 67 ∷ 83 ∷ 101 ∷ 113 ∷ []

abbrev pub session_text : Text
session_text = 83 ∷ 101 ∷ 115 ∷ 115 ∷ 105 ∷ 111 ∷ 110 ∷ []

abbrev pub transport_text : Text
transport_text = 84 ∷ 114 ∷ 97 ∷ 110 ∷ 115 ∷ 112 ∷ 111 ∷ 114 ∷ 116 ∷ []

module _ {P : Type 0} (http : Http P) (scan : Scanner) (h : Handler) where
  abbrev pub call : Bool → Call → RtspContext P → RtspContext P
  call true what c = record c { calls = c.calls ++ what ∷ [] }
  call false what c = c

  abbrev pub options_request : RtspParser P → RtspContext P → RtspContext P
  options_request p = call h.has_options (on_options p.url)

  abbrev pub describe_request : RtspParser P → RtspContext P → RtspContext P
  describe_request p = call h.has_describe (on_describe p.url)

  unfoldable pub setup_request : RtspParser P → RtspContext P → RtspContext P
  unfolding parse_transport header
  setup_request p =
      call h.has_setup
        (on_setup p.url (header p session_text) (parse_transport scan (header p transport_text)))

  unfoldable pub play_request : RtspParser P → RtspContext P → RtspContext P
  unfolding header
  play_request p = call h.has_play (on_play p.url (header p session_text))

  unfoldable pub teardown_request : RtspParser P → RtspContext P → RtspContext P
  unfolding header
  teardown_request p = call h.has_teardown (on_teardown p.url (header p session_text))

  unfoldable pub request : Method → RtspParser P → RtspContext P → RtspContext P
  unfolding setup_request play_request teardown_request
  request options p = options_request p
  request describe p = describe_request p
  request setup p = setup_request p
  request play p = play_request p
  request teardown p = teardown_request p
  request other p = λ c. c

  unfoldable pub process_request : RtspContext P → RtspContext P
  unfolding request
  process_request c =
      request c.parser.method c.parser (record c { seq = scan.atoi (header c.parser cseq_text) })

  -- RTSP_PARSE_ERROR is -1 and RTSP_PARSE_CONTINUE is -2.
  unfoldable pub parse_rtsp_message : RtspContext P → ℤ × RtspContext P
  unfolding process_request input reset
  parse_rtsp_message c =
      let (r, p) = input http (bytes_of c.cache) c.parser in
      if r ==ℤ negsuc 0
      then (r, record c { parser = p })
      else if r ==ℤ negsuc 1
      then (r, record c { parser = reset http p })
      else (let d = process_request (record c { parser = p }) in
          (r, record d { parser = reset http d.parser }))

  abbrev pub rtcp_length : List ℕ → ℕ
  rtcp_length bytes = get_or bytes 2 0 * 256 + get_or bytes 3 0

  unfoldable pub parse_rtcp_message : RtspContext P → ℤ × RtspContext P
  unfolding size bytes_of
  parse_rtcp_message c =
      let bytes = bytes_of c.cache in
      let n = rtcp_length bytes in
      if ltb (size c.cache) 4
      then (negsuc 1, c)
      else if ltb n 12
      then (negsuc 0, c)
      else if ltb (size c.cache) (n + 4)
      then (negsuc 1, c)
      else (
        pos (n + 4),
        call h.has_rtcp (on_rtcp (get_or bytes 1 0) (bytes_of (create_ref 4 n c.cache))) c,
      )

  abbrev pub is_rtcp : FrameBuffer → Bool
  is_rtcp b = elim (peek b) [ none ↦ false | some c ↦ c == 36 ]

  unfoldable pub parse_one : RtspContext P → ℤ × RtspContext P
  unfolding parse_rtcp_message parse_rtsp_message peek
  parse_one c = if is_rtcp c.cache then parse_rtcp_message c else parse_rtsp_message c

  -- The loop, on fuel; `ret` is its variable. `none` is an assertion that fails, or no fuel.
  unfoldable pub input_loop : ℕ → ℤ → RtspContext P → Option (ℤ × RtspContext P)
  unfolding parse_one empty erase
  input_loop zero ret c = if empty c.cache then some (ret, c) else none
  input_loop (suc left) ret c = elim (empty c.cache) [
    | true ↦ some (ret, c)
    | false ↦
        let (r, d) = parse_one c in
        elim r [
          | pos n ↦
              let rest = input_loop left (pos n) (record d { cache = erase n d.cache }) in
              if n == 0 then none else rest
          | negsuc k ↦
              if k == 0 then some (negsuc 0, d) else if k == 1 then some (pos 0, d) else none
        ]
  ]

  unfoldable pub input_frame : FrameBuffer → RtspContext P → Option (ℤ × RtspContext P)
  unfolding input_loop append_frame
  input_frame frame c =
      let d : RtspContext P = record c { cache = append_frame (some frame) c.cache } in
      input_loop (length (bytes_of d.cache)) (pos 0) d
