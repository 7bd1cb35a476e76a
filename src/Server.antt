-- ===== src/Server.antt =====
-- The RTMP server context, rtmp_server_context.h and rtmp_server_context.cc: its state, what the
-- media-server library writes for it, and the messages that it sends.
-- A fault, `none`, is an assertion that fails or a call of a std::function that is not set, which
-- throws. A double is a number that stands for its bits; what the code asks of one is a function of
-- the library record. Outside the handshake `payload` is scratch space, and its content is not kept.
pub mod Messages
pub mod Start
pub mod Handlers
pub mod Input
pub mod Media
pub mod Handshake
pub mod Rounds
pub mod Answer
pub mod Splits
pub mod Acks
pub mod Replies
pub mod Connect
pub mod Example
mod Runs
use simple_rtmp.Base.{ℕ, List, Bool, Option, none, some, if◌then◌else◌}
use simple_rtmp.Base.Int.{ℤ, pos, ◌==ℤ◌}
use simple_rtmp.Frame.{FrameBuffer}
use simple_rtmp.Chunk.{Header, Packet, Writers}
use Prim.Native.String.{String}

pub data HandshakeState : Type 0 where
  uninit handshake_0 handshake_1 handshake_2 : HandshakeState

-- `start.play`: 0, RTMP_SERVER_ONPLAY or RTMP_SERVER_ONPUBLISH.
pub data Play : Type 0 where
  no_start on_play on_publish : Play

-- `struct rtmp_server_context_args` without the handler. `sent` logs the frames given to
-- `handler_.send`, and `received` those given to the three media callbacks.
pub record Context : Type 0 where
  pub recv_bytes_0 : ℕ
  pub recv_bytes_1 : ℕ
  pub payload : List ℕ
  pub handshake_bytes : ℕ
  pub handshake_state : HandshakeState
  pub app : List ℕ
  pub stream_name : List ℕ
  pub stream_type : List ℕ
  pub stream_id : ℕ
  pub receive_audio : ℕ
  pub receive_video : ℕ
  pub transaction : ℕ
  pub reset : ℕ
  pub play : Play
  pub out_chunk_size : ℕ
  pub window_size : ℕ
  pub peer_bandwidth : ℕ
  pub out_packets : List Packet
  pub sent : List FrameBuffer
  pub received : List FrameBuffer

pub data Level : Type 0 where
  status error : Level

-- The media-server library: the bytes that each function writes, its constants, and what the code
-- asks of doubles.
pub record Library : Type 0 where
  pub writers : Writers
  pub chunk_write :
      (List ℕ → List ℕ → Context → Option (ℤ × Context))
      → Header
      → List ℕ
      → Context
      → Option (ℤ × Context)
  pub chunk_read : List ℕ → Context → Option (ℤ × Context)
  pub handshake_size : ℕ
  pub version : ℕ
  pub handshake_reply : List ℕ → List ℕ
  pub set_chunk_size : ℕ → List ℕ
  pub acknowledgement : ℕ → List ℕ
  pub window_acknowledgement_size : ℕ → List ℕ
  pub set_peer_bandwidth : ℕ → List ℕ
  pub event_stream_is_record : ℕ → List ℕ
  pub event_stream_begin : ℕ → List ℕ
  pub sample_access : List ℕ
  pub onstatus : ℕ → Level → String → String → List ℕ
  pub stream_live : List ℕ
  pub stream_record : List ℕ
  pub connect_reply : ℕ → ℕ → List ℕ
  pub create_stream_reply : ℕ → ℕ → List ℕ
  pub get_stream_length_reply : ℕ → ℕ → List ℕ
  pub channel_invoke : ℕ
  pub channel_audio : ℕ
  pub channel_video : ℕ
  pub type_invoke : ℕ
  pub type_data : ℕ
  pub type_audio : ℕ
  pub type_video : ℕ
  pub is_one : ℕ → Bool
  pub is_amf_encoding : ℕ → Bool
  pub is_minus_one : ℕ → Bool
  pub to_uint32 : ℕ → ℕ

-- `struct rtmp_server_context_handler`: a callback that is not set is `none`. `onplay` and
-- `onpublish` may call the context themselves. `ongetduration` answers with its result and the
-- duration.
pub record Handler : Type 0 where
  pub send : Option (FrameBuffer → ℤ)
  pub onplay : Option (List ℕ → List ℕ → ℕ → ℕ → ℕ → Context → Option (ℤ × Context))
  pub onpause : Option (ℕ → ℕ → ℤ)
  pub onseek : Option (ℕ → ℤ)
  pub onpublish : Option (List ℕ → List ℕ → List ℕ → Context → Option (ℤ × Context))
  pub onvideo : Option (FrameBuffer → ℤ)
  pub onaudio : Option (FrameBuffer → ℤ)
  pub onscript : Option (FrameBuffer → ℤ)
  pub ongetduration : Option (List ℕ → List ℕ → ℤ × ℕ)

abbrev pub M : Type 0 → Type 0
M A = Context → Option (A × Context)

infixl 5 ◌>>=◌ ◌>>◌
abbrev pub ◌>>=◌ : {A B : Type 0} → M A → (A → M B) → M B
◌>>=◌ m f c = elim (m c) [ none ↦ none | some (a, c') ↦ f a c' ]

abbrev pub ◌>>◌ : {B : Type 0} → M (Unit {0}) → M B → M B
◌>>◌ m k = m >>= λ _. k

abbrev pub ret : {A : Type 0} → A → M A
ret a c = some (a, c)

abbrev pub fault : {A : Type 0} → M A
fault c = none

abbrev pub modify : (Context → Context) → M (Unit {0})
modify f c = some (tt, f c)

abbrev pub read : {A : Type 0} → (Context → A) → M A
read f c = some (f c, c)

-- `r = 0 == r ? k : r`.
abbrev pub and_then : ℤ → M ℤ → M ℤ
and_then r k = if r ==ℤ pos 0 then k else ret r
