-- ===== src/Frame/Windows.antt =====
-- What the methods do to a buffer seen through its windows.
use simple_rtmp.Base.{
  ℕ, ◌≡◌, refl, List, [], ◌++◌, true, some, length, arith, length-append, drop-length_append,
  drop_all,
}
use simple_rtmp.Frame.{
  Frame, FrameBuffer, fixed, ref, on_base, base, bytes_of, size, empty, erase_bytes, erase,
  append_bytes, append_frame, media, codec, flag, pts, dts,
}

base-on_base :
    (change : Frame → Frame) (b : FrameBuffer) → base (on_base change b) ≡ change (base b)
unfolding base on_base
base-on_base change (fixed f) = refl
base-on_base change (ref start n b) = base-on_base change b

-- After `append` of a frame a buffer, also one seen through windows, has that frame's media, codec,
-- flag and times, and its own bytes followed by those that the frame shows.
append_frame-base :
    (g b : FrameBuffer)
    → base (append_frame (some g) b) ≡ record {
      media = media g;
      codec = codec g;
      flag = flag g;
      pts = pts g;
      dts = dts g;
      payload = (base b).payload ++ bytes_of g;
    }
unfolding append_frame
append_frame-base g b = base-on_base _ b

erase_bytes_all : (f : Frame) → (erase_bytes (length f.payload) f).payload ≡ []
unfolding erase_bytes
erase_bytes_all f = ground (arith, drop_all (length f.payload) f.payload)

-- Erasing all bytes through a window makes it empty and leaves its size as it was: the size of a
-- window and its emptiness are independent.
ref-erase :
    (start n : ℕ) (b : FrameBuffer)
    → let b' = erase (length (base b).payload) (ref start n b) in (size b' ≡ n) × (empty b' ≡ true)
unfolding erase empty size
ref-erase start n b =
    (refl, rw (base-on_base (erase_bytes (length (base b).payload)) b, erase_bytes_all) refl)

-- Erasing the bytes in front leaves what was appended behind them, in a buffer without a window.
erase-append :
    (front back : List ℕ) (f : Frame)
    → f.payload ≡ front
    → bytes_of (erase (length front) (append_bytes (some back) (fixed f))) ≡ back
unfolding bytes_of erase append_bytes
erase-append front back f e =
    rw e (ground (arith, length-append front back, drop-length_append front back))
