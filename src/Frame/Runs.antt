-- ===== src/Frame/Runs.antt =====
-- A concrete run of the methods of buffers.
use simple_rtmp.Base.{◌≡◌, refl, [], ◌∷◌, some}
use simple_rtmp.Base.Int.{pos}
use simple_rtmp.Frame.{
  on_base, FrameBuffer, create, create_ref, base, bytes_of, append_frame, set_media, set_pts,
}

abbrev header : FrameBuffer
unfolding on_base
header = set_pts (pos 40) (set_media 1 (create (1 ∷ 2 ∷ 3 ∷ 4 ∷ [])))

-- A window is appended to a buffer.
window_appended :
    base (append_frame (some (create_ref 1 2 header)) (create (9 ∷ [])))
    ≡ record { media = 1; codec = 0; flag = 0; pts = pos 40; dts = pos 0; payload = 9 ∷ 2 ∷ 3 ∷ [] }
unfolding append_frame base bytes_of on_base
window_appended = refl
