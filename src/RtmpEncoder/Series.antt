-- ===== src/RtmpEncoder/Series.antt =====
-- What the AAC encoder of an RTMP sink makes of a series of frames, rtmp_aac_encoder.cc.
use simple_rtmp.Base.{
  ℕ, suc, ◌+◌, ◌-◌, ◌≤◌, ◌≡◌, refl, sym, ap, ◌∙◌, List, [], ◌∷◌, ◌++◌, map, append-nil,
  append_assoc, some, length, take, drop, replicate, arith, take-length_fill, All,
}
use simple_rtmp.Base.Int.{ℤ, pos, ◌+ℤ◌}
use simple_rtmp.Codec.{audio, aac}
use simple_rtmp.Frame.{FrameBuffer, fixed, new_frame, bytes_of, pts, dts, resize}
use simple_rtmp.Sink.{Signal, frame}
use simple_rtmp.RtmpEncoder.Aac.{
  Library, AacEncoder, write, write_config, write_raw, append_rest, resize_int, on_frame, write_all,
  set_output, new_encoder, reserved, write_loaded,
}

-- A frame of the encoder with the times of another.
abbrev pub made_of : FrameBuffer → List ℕ → FrameBuffer
made_of f bytes =
    fixed (record (new_frame bytes) { pts = pts f; dts = dts f; codec = aac; media = audio })

abbrev pub IsAdts :
    {K : Type 0} → Library K → (FrameBuffer → ℕ) → (FrameBuffer → K) → FrameBuffer → Type 0
IsAdts {K} lib header loaded f =
    ((a : K) → lib.adts_load (bytes_of f) a ≡ (pos (header f), loaded f))
    × (1 ≤ header f)
    × (header f ≤ length (bytes_of f))

-- The bytes of a frame from `n` on, behind the tag of a frame.
abbrev pub raw : ℕ → ℕ → FrameBuffer → FrameBuffer
raw first n f = made_of f (first ∷ 1 ∷ drop n (bytes_of f))

module _ {K : Type 0} (lib : Library K) (c first : ℕ) (header : FrameBuffer → ℕ)
    (loaded : FrameBuffer → K)
    (writes : (p n : ℕ)
      → lib.tag_write p (replicate (suc (suc n)) 0) ≡ (pos 2, first ∷ p ∷ replicate n 0)) where
  tag-reserved :
      (p n : ℕ)
      → lib.tag_write p (take (n + 4) [] ++ replicate (n + 4 - 0) 0)
        ≡ (pos 2, first ∷ p ∷ replicate (n + 2) 0)
  tag-reserved p n =
      let same : take (n + 4) [] ++ replicate (n + 4 - 0) 0 ≡ replicate (suc (suc (n + 2))) 0 =
        ground arith in
      ap (λ bytes. lib.tag_write p bytes) same ∙ writes p (n + 2)

  raw-sends :
      (n : ℕ) (f : FrameBuffer) (e : AacEncoder K)
      → e.ch ≡ some c
      → n ≤ length (bytes_of f)
      → write_raw lib (pos n) f e
        ≡ some (record e { sent = e.sent ++ (c, frame (raw first n f)) ∷ [] })
  unfolding write_raw append_rest on_frame resize
  raw-sends n f e out fits = ground (arith, out, fits, tag-reserved 1 (length (bytes_of f)))

  config-sends :
      (n : ℤ) (f : FrameBuffer) (config : List ℕ) (e : AacEncoder K)
      → e.ch ≡ some c
      → e.audio_sequence_header ≡ 0
      → lib.config_save e.aac (replicate (length (bytes_of f) + 2) 0)
        ≡ (pos (length config), config ++ replicate (length (bytes_of f) + 2 - length config) 0)
      → write_config lib n f e
        ≡ some (
          pos (length config),
          record e {
            audio_sequence_header = 1;
            sent = e.sent ++ (c, frame (made_of f (first ∷ 0 ∷ config))) ∷ [];
          },
        )
  unfolding write_config resize_int on_frame resize ◌+ℤ◌
  config-sends n f config e out no_header saves =
      let sum : pos (length config) +ℤ pos 2 ≡ pos (suc (suc (length config))) = ground arith in
      let size = length (bytes_of f) in
      let tag : lib.tag_write 0 (reserved f).payload ≡ (pos 2, first ∷ 0 ∷ replicate (size + 2) 0) =
        tag-reserved 0 size in
      let rest : List ℕ = replicate (size + 2 - length config) 0 in
      let saved : lib.config_save e.aac (drop 2 (lib.tag_write 0 (reserved f).payload).1)
          ≡ (pos (length config), config ++ rest) =
        ap (λ r. lib.config_save e.aac (drop 2 (r.1))) tag ∙ saves in
      let begun : take 2 (lib.tag_write 0 (reserved f).payload).1 ≡ first ∷ 0 ∷ [] =
        ap (λ r. take 2 (r.1)) tag in
      ground
        (arith, out, no_header, saved, begun, sum, take-length_fill (first ∷ 0 ∷ config) rest 0)

  write-first :
      (f : FrameBuffer) (config : List ℕ) (e : AacEncoder K)
      → IsAdts lib header loaded f
      → e.ch ≡ some c
      → e.audio_sequence_header ≡ 0
      → lib.config_save (loaded f) (replicate (length (bytes_of f) + 2) 0)
        ≡ (pos (length config), config ++ replicate (length (bytes_of f) + 2 - length config) 0)
      → length config ≤ length (bytes_of f)
      → write lib (frame f) e
        ≡ some (record e {
          aac = loaded f;
          audio_sequence_header = 1;
          sent =
              (e.sent ++ (c, frame (made_of f (first ∷ 0 ∷ config))) ∷ [])
              ++ (c, frame (raw first (length config) f)) ∷ [];
        })
  unfolding write write_loaded
  write-first f config e (load, some_header, fits) out no_header saves small =
      let e1 : AacEncoder K = record e { aac = loaded f } in
      let e2 : AacEncoder K = record e1 {
        audio_sequence_header = 1;
        sent = e.sent ++ (c, frame (made_of f (first ∷ 0 ∷ config))) ∷ [];
      } in
      ground (
        arith,
        load e.aac,
        some_header,
        config-sends (pos (header f)) f config e1 out no_header saves,
        raw-sends (length config) f e2 out small,
      )

  write-later :
      (f : FrameBuffer) (e : AacEncoder K)
      → IsAdts lib header loaded f
      → e.ch ≡ some c
      → e.audio_sequence_header ≡ 1
      → write lib (frame f) e
        ≡ some
            (record e { aac = loaded f; sent = e.sent ++ (c, frame (raw first (header f) f)) ∷ [] })
  unfolding write write_loaded write_config
  write-later f e (load, some_header, fits) out no_header = ground (
    arith,
    load e.aac,
    some_header,
    no_header,
    raw-sends (header f) f (record e { aac = loaded f }) out fits,
  )

  write_all-later :
      (fs : List FrameBuffer) (e : AacEncoder K)
      → All (IsAdts lib header loaded) fs
      → e.ch ≡ some c
      → e.audio_sequence_header ≡ 1
      → (e' : AacEncoder K) × (write_all lib fs e ≡ some e')
        × (e'.sent ≡ e.sent ++ map (λ f. (c, frame (raw first (header f) f))) fs)
  unfolding write_all
  write_all-later [] e loads out no_header = (e, refl, sym (append-nil e.sent))
  write_all-later (f ∷ fs) e (load, loads) out no_header =
      let out_f : ℕ × Signal = (c, frame (raw first (header f) f)) in
      let e1 : AacEncoder K = record e { aac = loaded f; sent = e.sent ++ out_f ∷ [] } in
      let (e', q, r) = write_all-later fs e1 loads out no_header in
      (
        e',
        ground (arith, write-later f e load out no_header, q),
        r ∙ append_assoc e.sent (out_f ∷ []) (map (λ g. (c, frame (raw first (header g) g))) fs),
      )

  -- What a new encoder makes of frames with ADTS headers, where the library writes tags of two bytes
  -- and the configuration of the first frame is not longer than this frame: first the configuration,
  -- then each frame once and in order. A frame's bytes go out from behind its ADTS header on, but
  -- those of the first frame from the length of the configuration on.
  pub write_all-raw :
      (f : FrameBuffer) (fs : List FrameBuffer) (config : List ℕ)
      → All (IsAdts lib header loaded) (f ∷ fs)
      → lib.config_save (loaded f) (replicate (length (bytes_of f) + 2) 0)
        ≡ (pos (length config), config ++ replicate (length (bytes_of f) + 2 - length config) 0)
      → length config ≤ length (bytes_of f)
      → (e : AacEncoder K) × (write_all lib (f ∷ fs) (set_output (some c) (new_encoder lib))
          ≡ some e)
        × (e.sent
            ≡ (c, frame (made_of f (first ∷ 0 ∷ config)))
              ∷ (c, frame (raw first (length config) f))
              ∷ map (λ g. (c, frame (raw first (header g) g))) fs)
  unfolding write_all set_output new_encoder
  write_all-raw f fs config (load, loads) saves small =
      let e = set_output (some c) (new_encoder lib) in
      let e1 : AacEncoder K = record e {
        aac = loaded f;
        audio_sequence_header = 1;
        sent =
            (c, frame (made_of f (first ∷ 0 ∷ config)))
            ∷ (c, frame (raw first (length config) f))
            ∷ [];
      } in
      let (e', q, r) = write_all-later fs e1 loads refl refl in
      (e', ground (arith, write-first f config e load refl refl saves small, q), r)
