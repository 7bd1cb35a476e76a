-- ===== src/Demuxer/Hevc/Runs.antt =====
-- A packet that is a unit of two bytes behind a length of four.
use simple_rtmp.Base.{ℕ, ◌≡◌, refl, [], ◌∷◌, some, arith}
use simple_rtmp.Base.Int.{pos}
use simple_rtmp.Frame.{FrameBuffer, create, fixed, pts, bytes_of}
use simple_rtmp.Sink.{frame}
use simple_rtmp.Demuxer.H264.{VideoTag, big_endian}
use simple_rtmp.Demuxer.Hevc.{
  Library, Args, HevcDecoder, behind_end, returned, out_of_fuel, video_frame, new_decoder, write,
}
use simple_rtmp.Demuxer.Hevc.Ends.{write-ends}
use simple_rtmp.Demuxer.Hevc.Single.{write-single}

abbrev tag : VideoTag
tag = record { read = 2; avpacket = 1; keyframe = 2; cts = pos 0 }

abbrev four_bytes : Library ℕ
four_bytes = record {
  zeroed = 0;
  read_tag = λ bytes. some tag;
  load = λ bytes a. 4;
  length_size = λ a. 4;
  nalu_bytes = λ a. 3 ∷ [];
  to_nalu = λ a bytes. (pos 0, bytes);
}

abbrev args : Args ℕ
args = record { hevc = 4; vps_sps_pps_flag = 1 }

abbrev decoder : HevcDecoder ℕ
decoder = record { ch = some 3; args = some args; sent = [] }

abbrev one_unit : FrameBuffer
one_unit = create (28 ∷ 1 ∷ 0 ∷ 0 ∷ 0 ∷ 2 ∷ 2 ∷ 1 ∷ [])

write-single_example :
    (d' : HevcDecoder ℕ) × (write four_bytes (frame one_unit) decoder ≡ behind_end d')
    × (d'.sent ≡ (3, frame (fixed (video_frame (pts one_unit) (pos 0) 0 (2 ∷ 1 ∷ [])))) ∷ [])
unfolding bytes_of big_endian
write-single_example =
    write-single four_bytes one_unit tag (0 ∷ 0 ∷ 0 ∷ 2 ∷ []) (2 ∷ 1 ∷ []) args decoder 3 refl refl
      refl refl (omega arith) refl refl refl (omega arith) (omega arith) (omega arith)

write-ends_example : ¬ (write four_bytes (frame one_unit) decoder ≡ out_of_fuel)
write-ends_example = write-ends four_bytes (frame one_unit) decoder (λ a. omega arith)

-- Before a configuration nothing is sent.
unconfigured : write four_bytes (frame one_unit) (new_decoder {A = ℕ}) ≡ returned new_decoder
unfolding write new_decoder
unconfigured = refl
