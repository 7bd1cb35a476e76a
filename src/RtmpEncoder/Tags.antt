-- ===== src/RtmpEncoder/Tags.antt =====
-- What the H.264 encoder of an RTMP sink sends, rtmp_h264_encoder.cc, as the sink and a player read it.
use simple_rtmp.Base.{
  ℕ, ◌+◌, ◌≤◌, ◌≡◌, refl, sym, ap, ◌∙◌, List, [], ◌∷◌, ◌++◌, map, append-nil, append_assoc, some,
  length, take, replicate, ◌==◌, if◌then◌else◌, arith, length-append, take-length_append,
  take-length_fill, ◌-◌,
}
use simple_rtmp.Base.Int.{pos}
use mathlib.Core.List.{map-append}
use simple_rtmp.Frame.{FrameBuffer, fixed, resize, bytes_of, base, on_base, append_frame}
use simple_rtmp.Sink.{Signal, frame}
use simple_rtmp.RtmpEncoder.H264.{
  Converted, Library, H264Encoder, made_of, tag_bytes, keyframe_of, buffer_size, encode_frame,
  new_encoder, set_output, on_frame, send_config, send_frame, write_converted, write, write_all,
}

-- A tag with a configuration, and one with units, in one frame.
abbrev pub config_frame : FrameBuffer → List ℕ → FrameBuffer
config_frame f config = fixed (record (made_of f (23 ∷ 0 ∷ 0 ∷ 0 ∷ 0 ∷ config)) { flag = 1 })

abbrev pub units_frame : ℕ → FrameBuffer → List ℕ → FrameBuffer
units_frame vcl f units = fixed (record (made_of f (tag_bytes (keyframe_of vcl) 1 ++ units)) {
  flag = if vcl == 1 then 1 else 0;
})

encode_frame-units :
    (vcl : ℕ) (f : FrameBuffer) (units : List ℕ)
    → encode_frame (keyframe_of vcl) f (made_of f units) ≡ units_frame vcl f units
unfolding encode_frame bytes_of base on_base append_frame
encode_frame-units vcl f units = ground arith

-- What the encoder keeps for the library between two calls.
pub record Kept (K : Type 0) : Type 0 where
  pub avc : K
  pub vcl : ℕ
  pub update : ℕ

abbrev pub kept_of : {K : Type 0} → H264Encoder K → Kept K
kept_of e = record { avc = e.avc; vcl = e.vcl; update = e.update }

-- What the library makes of a frame and of what is kept, and what is kept then.
abbrev pub converted : {K : Type 0} → Library K → Kept K → FrameBuffer → Converted K
converted lib k f =
    lib.annexbtomp4 k.avc (bytes_of f) (replicate (length (bytes_of f) + lib.avc_size) 0) k.vcl
      k.update

abbrev pub kept_next : {K : Type 0} → Library K → Kept K → FrameBuffer → Kept K
kept_next lib k f =
    let r = converted lib k f in record { avc = r.avc; vcl = r.vcl; update = r.update }

unfoldable pub kept_all : {K : Type 0} → Library K → Kept K → List FrameBuffer → Kept K
kept_all lib k [] = k
kept_all lib k (f ∷ fs) = kept_all lib (kept_next lib k f) fs

-- `slices` is the number that the library gives a frame for its slices, 0 for none and 1 for those of a
-- key frame, and `units` are a frame's converted bytes.
module _ {K : Type 0} (lib : Library K) (c : ℕ) (slices : FrameBuffer → ℕ)
    (units : FrameBuffer → List ℕ) where
  -- The tag of a frame, if it has a slice of a picture.
  unfoldable pub tags_of : FrameBuffer → List FrameBuffer
  tags_of f = if slices f == 0 then [] else units_frame (slices f) f (units f) ∷ []

  unfoldable pub all_tags : List FrameBuffer → List FrameBuffer
  unfolding tags_of
  all_tags [] = []
  all_tags (f ∷ fs) = tags_of f ++ all_tags fs

  -- Frames on the channel.
  abbrev pub logged : List FrameBuffer → List (ℕ × Signal)
  logged fs = map (λ g. (c, frame g)) fs

  -- With what is kept the library converts the frame to its units.
  pub record IsConverted (k : Kept K) (f : FrameBuffer) : Type 0 where
    pub rest : List ℕ
    pub result : (converted lib k f).ret ≡ pos (length (units f))
    pub some_units : 1 ≤ length (units f)
    pub filled : (converted lib k f).bytes ≡ units f ++ rest
    pub counted : (converted lib k f).vcl ≡ slices f

  -- So it does with frames in a row, none of which changes the parameter sets that are kept.
  abbrev pub AreConverted : Kept K → List FrameBuffer → Type 0
  AreConverted k [] = Unit
  AreConverted k (f ∷ fs) =
      IsConverted k f × ((converted lib k f).update ≡ 0) × AreConverted (kept_next lib k f) fs

  abbrev pub state_after : FrameBuffer → H264Encoder K → H264Encoder K
  state_after f e =
      let r = converted lib (kept_of e) f in
      record e { avc = r.avc; vcl = r.vcl; update = r.update }

  resized :
      (k : Kept K) (f : FrameBuffer) (v : IsConverted k f)
      → resize (length (units f)) (made_of f (converted lib k f).bytes) ≡ made_of f (units f)
  unfolding resize
  resized k f v =
      ap
        (λ bytes.
          made_of f
            (take (length (units f)) bytes ++ replicate (length (units f) - length bytes) 0))
        v.filled
      ∙ ap (made_of f) (take-length_fill (units f) v.rest 0)

  write-converted :
      (f : FrameBuffer) (e : H264Encoder K)
      → IsConverted (kept_of e) f
      → write lib (frame f) e ≡ write_converted lib f (made_of f (units f)) (state_after f e)
  unfolding write
  write-converted f e v = ground (arith, v.result, v.some_units, resized (kept_of e) f v)

  send_frame-sends :
      (f : FrameBuffer) (e : H264Encoder K)
      → e.ch ≡ some c
      → e.vcl ≡ slices f
      → 1 ≤ e.video_sequence_header
      → send_frame f (made_of f (units f)) e ≡ record e { sent = e.sent ++ logged (tags_of f) }
  unfolding send_frame on_frame tags_of
  send_frame-sends f e there same configured = rw same (
      ground (
        arith,
        there,
        same,
        configured,
        append-nil e.sent,
        encode_frame-units (slices f) f (units f),
      ))

  pub write-later :
      (f : FrameBuffer) (e : H264Encoder K)
      → IsConverted (kept_of e) f
      → (converted lib (kept_of e) f).update ≡ 0
      → e.ch ≡ some c
      → 1 ≤ e.video_sequence_header
      → write lib (frame f) e
        ≡ some (record (state_after f e) { sent = e.sent ++ logged (tags_of f) })
  unfolding write_converted
  write-later f e v same there configured =
      write-converted f e v
      ∙ ground (arith, same, send_frame-sends f (state_after f e) there v.counted configured)

  write_all-later :
      (fs : List FrameBuffer) (e : H264Encoder K)
      → AreConverted (kept_of e) fs
      → e.ch ≡ some c
      → 1 ≤ e.video_sequence_header
      → (e' : H264Encoder K) × (write_all lib fs e ≡ some e')
        × (e'.sent ≡ e.sent ++ logged (all_tags fs))
  unfolding write_all all_tags
  write_all-later [] e vs there configured = (e, refl, sym (append-nil e.sent))
  write_all-later (f ∷ fs) e (v, same, vs) there configured =
      let e1 : H264Encoder K = record (state_after f e) { sent = e.sent ++ logged (tags_of f) } in
      let (e', q, r) = write_all-later fs e1 vs there configured in
      (
        e',
        ground (arith, write-later f e v same there configured, q),
        r
            ∙ append_assoc e.sent (logged (tags_of f)) (logged (all_tags fs))
            ∙ ap (λ log. e.sent ++ log)
                (sym (map-append (λ g. (c, frame g)) (tags_of f) (all_tags fs))),
      )

  -- A frame with which the library has parameter sets to save.
  pub record IsFirst (k : Kept K) (f : FrameBuffer) (config : List ℕ) : Type 0 where
    pub rest : List ℕ
    pub changed : 1 ≤ (converted lib k f).update
    pub sps : 1 ≤ lib.nb_sps (converted lib k f).avc
    pub pps : 1 ≤ lib.nb_pps (converted lib k f).avc
    pub saves :
        lib.config_save (converted lib k f).avc (replicate buffer_size 0)
        ≡ (pos (length config), config ++ rest)
    pub some_config : 1 ≤ length config

  send_config-sends :
      (f : FrameBuffer) (config rest : List ℕ) (e : H264Encoder K)
      → e.ch ≡ some c
      → send_config (length config) (config ++ rest) f e
        ≡ some (record e {
          video_sequence_header = 1;
          sent = e.sent ++ (c, frame (config_frame f config)) ∷ [];
        })
  unfolding send_config on_frame
  send_config-sends f config rest e there =
      let buf = tag_bytes 1 0 ++ config in
      let size : length config + 5 ≡ length buf = omega arith in
      let cut : take (length config + 5) (tag_bytes 1 0 ++ (config ++ rest)) ≡ buf =
        ap (λ n. take n (buf ++ rest)) size ∙ take-length_append buf rest in
      ground (arith, there, length-append config rest, cut)

  -- The first frame: the configuration and the frame itself.
  abbrev pub after_first : FrameBuffer → List ℕ → H264Encoder K → H264Encoder K
  after_first f config e = record (state_after f e) {
    video_sequence_header = 1;
    sent = (e.sent ++ (c, frame (config_frame f config)) ∷ []) ++ logged (tags_of f);
  }

  pub write-first :
      (f : FrameBuffer) (config : List ℕ) (e : H264Encoder K)
      → IsConverted (kept_of e) f
      → IsFirst (kept_of e) f config
      → e.ch ≡ some c
      → write lib (frame f) e ≡ some (after_first f config e)
  unfolding write_converted
  write-first f config e v first there =
      let e1 : H264Encoder K = record (state_after f e) {
        video_sequence_header = 1;
        sent = e.sent ++ (c, frame (config_frame f config)) ∷ [];
      } in
      ground (
        arith,
        write-converted f e v,
        first.changed,
        first.sps,
        first.pps,
        first.saves,
        first.some_config,
        send_config-sends f config first.rest (state_after f e) there,
        send_frame-sends f e1 there v.counted (omega arith),
      )

  -- What a new encoder with a channel makes of frames of which the first one brings the parameter sets
  -- and the others keep them: the configuration once, with the flag set, and then each frame that has a
  -- slice once and in order, as the tag for a key frame or for another behind it the converted units,
  -- with the flag set on key frames only. The library saves the sets.
  write_all-tags :
      (f : FrameBuffer) (fs : List FrameBuffer) (config : List ℕ)
      → IsConverted (kept_of (new_encoder lib)) f
      → IsFirst (kept_of (new_encoder lib)) f config
      → AreConverted (kept_next lib (kept_of (new_encoder lib)) f) fs
      → (e : H264Encoder K) × (write_all lib (f ∷ fs) (set_output (some c) (new_encoder lib))
          ≡ some e)
        × (e.sent ≡ (c, frame (config_frame f config)) ∷ logged (all_tags (f ∷ fs)))
  unfolding write_all set_output new_encoder all_tags
  write_all-tags f fs config v first vs =
      let e0 : H264Encoder K = set_output (some c) (new_encoder lib) in
      let (e', q, r) = write_all-later fs (after_first f config e0) vs refl (omega arith) in
      (
        e',
        ground (arith, write-first f config e0 v first refl, q),
        r
            ∙ ap (◌∷◌ (c, frame (config_frame f config)))
                (sym (map-append (λ g. (c, frame g)) (tags_of f) (all_tags fs))),
      )
