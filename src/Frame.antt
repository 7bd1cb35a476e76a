-- ===== src/Frame.antt =====
-- Frame buffers, frame_buffer.h: `fixed_frame_buffer`, which owns its bytes, and `ref_frame_buffer`,
-- a window on the bytes of another buffer.
-- The int32_t fields hold enumeration codes and flags, which are never negative in this program;
-- the int64_t times are integers. A null pointer is `none`. A buffer is a value: of the windows on
-- one buffer, only the one through which it is changed is modelled.
pub mod Windows
mod Runs
use simple_rtmp.Base.{
  ℕ, zero, suc, ◌-◌, List, [], ◌∷◌, ◌++◌, Bool, true, false, Option, none, some, length, take, drop,
  replicate, is_empty, ltb, if◌then◌else◌,
}
use simple_rtmp.Base.Int.{ℤ, pos}

pub record Frame : Type 0 where
  pub media : ℕ
  pub codec : ℕ
  pub flag : ℕ
  pub pts : ℤ
  pub dts : ℤ
  pub payload : List ℕ

-- `ref start size of` is the window of `size` bytes that begins `start` bytes into the data of `of`.
pub data FrameBuffer : Type 0 where
  fixed : Frame → FrameBuffer
  ref : ℕ → ℕ → FrameBuffer → FrameBuffer

abbrev pub new_frame : List ℕ → Frame
new_frame bytes = record {
  media = 0;
  codec = 0;
  flag = 0;
  pts = pos 0;
  dts = pos 0;
  payload = bytes;
}

-- `fixed_frame_buffer::create(data, size)`; with no argument, or with a size to reserve, it is
-- `create []`.
abbrev pub create : List ℕ → FrameBuffer
create bytes = fixed (new_frame bytes)

-- `ref_frame_buffer::create(data + start, size, ref)`.
abbrev pub create_ref : ℕ → ℕ → FrameBuffer → FrameBuffer
create_ref start size buffer = ref start size buffer

-- What a method of `fixed_frame_buffer` does to its fields.
unfoldable pub on_base : (Frame → Frame) → FrameBuffer → FrameBuffer
on_base change (fixed f) = fixed (change f)
on_base change (ref start size buffer) = ref start size (on_base change buffer)

-- The frame at the end of the chain of windows, to which `ref_frame_buffer` hands its calls on.
unfoldable pub base : FrameBuffer → Frame
base (fixed f) = f
base (ref start size buffer) = base buffer

unfoldable pub bytes_of : FrameBuffer → List ℕ
bytes_of (fixed f) = f.payload
bytes_of (ref start size buffer) = take size (drop start (bytes_of buffer))

unfoldable pub size : FrameBuffer → ℕ
size (fixed f) = length f.payload
size (ref start n buffer) = n

-- A window's own bytes and size are not consulted.
unfoldable pub empty : FrameBuffer → Bool
unfolding base
empty b = is_empty (base b).payload

-- `front()` of an empty vector is undefined: `none`.
unfoldable pub peek : FrameBuffer → Option ℕ
unfolding base
peek b = elim (base b).payload [ [] ↦ none | x ∷ xs ↦ some x ]

unfoldable pub erase_bytes : ℕ → Frame → Frame
erase_bytes n f =
    if ltb (length f.payload) n
    then record f { payload = [] }
    else record f { payload = drop n f.payload }

unfoldable pub erase : ℕ → FrameBuffer → FrameBuffer
unfolding on_base erase_bytes
erase n b = on_base (erase_bytes n) b

unfoldable pub append_bytes : Option (List ℕ) → FrameBuffer → FrameBuffer
unfolding on_base
append_bytes none b = b
append_bytes (some bytes) b = on_base (λ f. record f { payload = f.payload ++ bytes }) b

-- `append(const std::vector<uint8_t>&)`.
unfoldable pub append_vector : List ℕ → FrameBuffer → FrameBuffer
unfolding append_bytes
append_vector [] b = b
append_vector (x ∷ xs) b = append_bytes (some (x ∷ xs)) b

abbrev pub media : FrameBuffer → ℕ
media b = (base b).media

abbrev pub codec : FrameBuffer → ℕ
codec b = (base b).codec

abbrev pub flag : FrameBuffer → ℕ
flag b = (base b).flag

abbrev pub pts : FrameBuffer → ℤ
pts b = (base b).pts

abbrev pub dts : FrameBuffer → ℤ
dts b = (base b).dts

abbrev pub set_media : ℕ → FrameBuffer → FrameBuffer
set_media v = on_base λ f. record f { media = v }

abbrev pub set_codec : ℕ → FrameBuffer → FrameBuffer
set_codec v = on_base λ f. record f { codec = v }

abbrev pub set_flag : ℕ → FrameBuffer → FrameBuffer
set_flag v = on_base λ f. record f { flag = v }

abbrev pub set_pts : ℤ → FrameBuffer → FrameBuffer
set_pts v = on_base λ f. record f { pts = v }

abbrev pub set_dts : ℤ → FrameBuffer → FrameBuffer
set_dts v = on_base λ f. record f { dts = v }

-- The metadata are overwritten, and the bytes that the other frame shows are added at the end.
unfoldable pub append_frame : Option FrameBuffer → FrameBuffer → FrameBuffer
unfolding on_base base bytes_of
append_frame none b = b
append_frame (some g) b =
    on_base
      (λ f. record {
        media = media g;
        codec = codec g;
        flag = flag g;
        pts = pts g;
        dts = dts g;
        payload = f.payload ++ bytes_of g;
      })
      b

-- `resize` of `fixed_frame_buffer` alone: bytes are cut off or zeros added.
unfoldable pub resize : ℕ → Frame → Frame
resize n f = record f { payload = take n f.payload ++ replicate (n - length f.payload) 0 }
