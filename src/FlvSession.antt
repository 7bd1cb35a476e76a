-- ===== src/FlvSession.antt =====
-- The FLV session of a player, flv_forward_session.h and flv_forward_session.cc.
-- Text is a list of bytes. `none` is a null pointer that is used. The media-server library's writing of
-- the file header, of a tag's header and of the size behind a tag is a parameter.

pub mod Tags
pub mod Read
mod Runs
use simple_rtmp.Base.{
  ℕ, ◌+◌, ◌-◌, List, [], ◌∷◌, ◌++◌, Bool, true, false, ◌&&◌, ◌||◌, Option, none, some, length, take,
  get_or, ltb, ◌==◌, if◌then◌else◌,
}
use simple_rtmp.Base.Int.{to_u32}
use simple_rtmp.Codec.{audio}
use simple_rtmp.Frame.{FrameBuffer, create, size, media, pts}
use simple_rtmp.Sink.{Signal, frame, failed}
use simple_rtmp.Rtsp.Parser.{Text}
use simple_rtmp.Rtsp.Transports.{starts_with}
use simple_rtmp.RtspSession.Requests.{split, ends_with}

-- The library: the bytes of the file header, of a tag's header by size, type and time, and of the size
-- behind a tag; and the types of tags.
pub record Flv : Type 0 where
  pub file_header : List ℕ
  pub tag_header : ℕ → ℕ → ℕ → List ℕ
  pub tag_size : ℕ → List ℕ
  pub type_video : ℕ
  pub type_audio : ℕ

-- What the session does outside: frames on its connection, its channel's place in a sink, and what it
-- posts to its executor.
pub data Output : Type 0 where
  written : FrameBuffer → Output
  channel_added : ℕ → Output
  channel_deleted : ℕ → Output
  shutdown_posted : Output
  conn_started : Output
  conn_shutdown : Output

pub record FlvSession : Type 0 where
  pub first_frame : Bool
  pub id : Text
  pub target : Text
  pub sink : Option ℕ
  pub channel : Bool
  pub conn : Bool
  pub outputs : List Output

-- `.flv`, `/flv`, `rtmp_` and `flv_`.
abbrev pub dot_flv : Text
dot_flv = 46 ∷ 102 ∷ 108 ∷ 118 ∷ []

abbrev pub slash_flv : Text
slash_flv = 47 ∷ 102 ∷ 108 ∷ 118 ∷ []

abbrev pub rtmp_prefix : Text
rtmp_prefix = 114 ∷ 116 ∷ 109 ∷ 112 ∷ 95 ∷ []

abbrev pub flv_prefix : Text
flv_prefix = 102 ∷ 108 ∷ 118 ∷ 95 ∷ []

-- `prefix app_stream` of the last two pieces.
unfoldable pub last_two : Text → List Text → Text
last_two prefix pieces =
    prefix ++ (get_or pieces (length pieces - 2) [] ++ 95 ∷ get_or pieces (length pieces - 1) [])

unfoldable pub make_session_id_suffix : Text → Text
unfolding split last_two
make_session_id_suffix target =
    let pieces = split (take (length target - 4) target) in
    if ltb (length pieces) 2 then [] else last_two rtmp_prefix pieces

unfoldable pub make_session_id_prefix : Text → Text
unfolding split last_two
make_session_id_prefix target =
    if ltb (length (split target)) 3 then [] else last_two flv_prefix (split target)

abbrev pub output : Output → FlvSession → FlvSession
output o s = record s { outputs = s.outputs ++ o ∷ [] }

abbrev pub shutdown : FlvSession → FlvSession
shutdown s = output shutdown_posted s

unfoldable pub new_session : Text → FlvSession
new_session target = record {
  first_frame = false;
  id = [];
  target = target;
  sink = none;
  channel = false;
  conn = true;
  outputs = [];
}

-- `get` is sink::get.
unfoldable pub find_sink : (Text → Option ℕ) → FlvSession → FlvSession
find_sink get s = elim (get s.id) [
  | none ↦ shutdown s
  | some k ↦
      output (channel_added k) (output conn_started (record s { sink = some k; channel = true }))
]

unfoldable pub start : (Text → Option ℕ) → FlvSession → FlvSession
unfolding find_sink make_session_id_suffix make_session_id_prefix
start get s =
    if ends_with s.target dot_flv
    then find_sink get (record s { id = make_session_id_suffix s.target })
    else if starts_with s.target slash_flv
    then find_sink get (record s { id = make_session_id_prefix s.target })
    else shutdown s

unfoldable pub write : FrameBuffer → FlvSession → Option FlvSession
write f s = if s.conn then some (output (written f) s) else none

-- The file header, and a size of 0.
abbrev pub make_flv_header : Flv → FrameBuffer
make_flv_header flv = create (flv.file_header ++ flv.tag_size 0)

-- The tag of a frame: the header, the frame, and the size of both.
unfoldable pub write_tag : Flv → FrameBuffer → FlvSession → Option FlvSession
unfolding write
write_tag flv f s =
    let type = if media f == audio then flv.type_audio else flv.type_video in
    elim (write (create (flv.tag_header (size f) type (to_u32 (pts f)))) s) [
      | none ↦ none
      | some s1 ↦ elim (write f s1) [
        | none ↦ none
        | some s2 ↦ write (create (flv.tag_size (size f + 11))) s2
      ]
    ]

unfoldable pub channel_out : Flv → Signal → FlvSession → Option FlvSession
unfolding write_tag write
channel_out flv (failed ec) s = some (shutdown s)
channel_out flv (frame f) s =
    if s.first_frame
    then write_tag flv f s
    else elim (write (make_flv_header flv) (record s { first_frame = true })) [
      | none ↦ none
      | some s' ↦ write_tag flv f s'
    ]

unfoldable pub on_read : Bool → FlvSession → FlvSession
on_read ok s = if ok then s else shutdown s

unfoldable pub on_write : Bool → FlvSession → FlvSession
on_write ok s = if ok then s else shutdown s

-- What shutdown posts; `alive` says whether a sink is still there.
unfoldable pub safe_shutdown : (ℕ → Bool) → FlvSession → FlvSession
safe_shutdown alive s =
    let s' : FlvSession = elim s.sink [
      | none ↦ s
      | some k ↦ if alive k then output (channel_deleted k) s else s
    ] in
    let s'' : FlvSession = record s' { channel = false } in
    if s''.conn then record (output conn_shutdown s'') { conn = false } else s''
