-- ===== src/FlvSession/Runs.antt =====
-- A concrete stream, and the theorem at it.
use simple_rtmp.Base.{ℕ, ◌≡◌, refl, List, [], ◌∷◌, some, true, false, arith, get_or}
use simple_rtmp.Base.Int.{pos}
use simple_rtmp.Codec.{video, audio}
use simple_rtmp.Frame.{FrameBuffer, fixed, new_frame, bytes_of, size, base}
use simple_rtmp.FlvSession.{Flv, FlvSession}
use simple_rtmp.FlvSession.Tags.{Fields, IsReader, read_stream, sent_bytes}
use simple_rtmp.FlvSession.Read.{channel_outs, channel_outs-read}

-- A library that puts each number into one place.
abbrev places : Flv
places = record {
  file_header = 70 ∷ 76 ∷ 86 ∷ 1 ∷ 5 ∷ 0 ∷ 0 ∷ 0 ∷ 9 ∷ [];
  tag_header = λ n type time. type ∷ n ∷ time ∷ 0 ∷ 0 ∷ 0 ∷ 0 ∷ 0 ∷ 0 ∷ 0 ∷ 0 ∷ [];
  tag_size = λ n. n ∷ 0 ∷ 0 ∷ 0 ∷ [];
  type_video = 9;
  type_audio = 8;
}

abbrev read_places : List ℕ → Fields
read_places bytes = (get_or bytes 1 0, get_or bytes 0 0, get_or bytes 2 0)

places-IsReader : IsReader places read_places
places-IsReader = record {
  file_len = refl;
  size_len = λ n. refl;
  header_len = λ n type time. refl;
  reads = λ n type time short early kind. refl;
}

abbrev started : FlvSession
started = record {
  first_frame = false;
  id = [];
  target = [];
  sink = some 6;
  channel = true;
  conn = true;
  outputs = [];
}

abbrev picture : FrameBuffer
picture = fixed (record (new_frame (23 ∷ 1 ∷ 0 ∷ [])) { media = video; pts = pos 40 })

abbrev sound : FrameBuffer
sound = fixed (record (new_frame (175 ∷ 1 ∷ [])) { media = audio; pts = pos 41 })

channel_outs-read_example :
    (s' : FlvSession) × (channel_outs places (picture ∷ sound ∷ []) started ≡ some s')
    × (read_stream places read_places (sent_bytes s'.outputs)
        ≡ some (
            record { type = 9; time = 40; body = 23 ∷ 1 ∷ 0 ∷ [] }
            ∷ record { type = 8; time = 41; body = 175 ∷ 1 ∷ [] }
            ∷ []))
unfolding base bytes_of size sent_bytes
channel_outs-read_example =
    channel_outs-read places read_places picture (sound ∷ []) started places-IsReader refl refl refl
      ((refl, omega arith), ((refl, omega arith), tt))
