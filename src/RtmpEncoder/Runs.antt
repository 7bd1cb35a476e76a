-- ===== src/RtmpEncoder/Runs.antt =====
-- A concrete library with ADTS headers of seven bytes, and what the encoder makes of two frames.
use simple_rtmp.Base.{ℕ, ◌≡◌, refl, [], ◌∷◌, some, length, leb, drop, arith, if◌then◌else◌}
use simple_rtmp.Base.Int.{pos, negsuc}
use simple_rtmp.Frame.{FrameBuffer, create, base, bytes_of}
use simple_rtmp.Sink.{frame}
use simple_rtmp.Sink.Rtmp.Gop.{from_last_key}
use simple_rtmp.Sink.Rtmp.Join.{received}
use simple_rtmp.RtmpEncoder.Relay.{relay-late}
use simple_rtmp.RtmpEncoder.Aac.{Library, AacEncoder, new_encoder, set_output, write_all}
use simple_rtmp.RtmpEncoder.H264 as H264
use simple_rtmp.RtmpEncoder.Example.{
  two_kinds, slices_of, slice, is_converted, is_first, machine, relayed,
}
use simple_rtmp.RtmpEncoder.Tags.{config_frame, units_frame, all_tags, tags_of, kept_all}
use simple_rtmp.RtmpEncoder.Series.{made_of, raw, write_all-raw}

abbrev seven : Library ℕ
seven = record {
  zeroed = 0;
  adts_load = λ bytes k. if leb 7 (length bytes) then (pos 7, 1) else (negsuc 0, k);
  tag_write = λ p bytes. (pos 2, 175 ∷ p ∷ drop 2 bytes);
  config_save = λ k bytes. (pos 2, 18 ∷ 16 ∷ drop 2 bytes);
}

-- An ADTS header and two bytes.
abbrev adts : ℕ → FrameBuffer
adts n = create (255 ∷ 241 ∷ 80 ∷ 128 ∷ 1 ∷ 63 ∷ 252 ∷ n ∷ n ∷ [])

write_all-raw_example :
    (e : AacEncoder ℕ) × (write_all seven
        (adts 5 ∷ adts 6 ∷ [])
        (set_output (some 3) (new_encoder seven))
      ≡ some e)
    × (e.sent
        ≡ (3, frame (made_of (adts 5) (175 ∷ 0 ∷ 18 ∷ 16 ∷ [])))
          ∷ (3, frame (raw 175 2 (adts 5)))
          ∷ (3, frame (raw 175 7 (adts 6)))
          ∷ [])
unfolding bytes_of
write_all-raw_example =
    write_all-raw seven 3 175 (λ f. 7) (λ f. 1) (λ p n. refl) (adts 5) (adts 6 ∷ []) (18 ∷ 16 ∷ [])
      ((λ a. refl, omega arith, omega arith), ((λ a. refl, omega arith, omega arith), tt)) refl
      (omega arith)

relay-late_example :
    received 5 relayed.sent
    ≡ frame (config_frame (slice 4 7) (100 ∷ 31 ∷ []))
      ∷ frame (units_frame 1 (slice 3 8) (3 ∷ 8 ∷ []))
      ∷ frame (units_frame 2 (slice 2 4) (2 ∷ 4 ∷ []))
      ∷ frame (units_frame 2 (slice 2 6) (2 ∷ 6 ∷ []))
      ∷ []
unfolding bytes_of base from_last_key all_tags tags_of kept_all H264.new_encoder
relay-late_example =
    relay-late two_kinds 3 0 slices_of bytes_of (λ e. e) (H264.new_encoder two_kinds) machine
      (slice 4 7) (slice 3 8 ∷ slice 0 9 ∷ slice 2 4 ∷ []) (slice 2 6 ∷ []) (100 ∷ 31 ∷ []) 5
      (λ e e' s q. ground (arith, q)) (is_converted _ 4 7) is_first
      (is_converted _ 3 8, refl, (is_converted _ 0 9, refl, (is_converted _ 2 4, refl, tt)))
      (is_converted _ 2 6, refl, tt) (refl, (refl, (refl, (refl, tt)))) (refl, tt)
