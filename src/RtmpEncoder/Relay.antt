-- ===== src/RtmpEncoder/Relay.antt =====
-- What an RTMP sink with its H.264 encoder hands to a channel that comes late, rtmp_sink.cc with
-- rtmp_h264_encoder.cc.
use simple_rtmp.Base.{
  ℕ, ◌≤◌, ◌≡◌, refl, sym, ap, subst, ◌∙◌, List, [], ◌∷◌, ◌++◌, map, Option, some, none, arith, All,
}
use mathlib.Core.Path.{ap₂}
use simple_rtmp.Codec.{video, h264, aac}
use simple_rtmp.Frame.{FrameBuffer, bytes_of, base, media}
use simple_rtmp.Sink.{Signal, frame}
use simple_rtmp.Sink.Rtmp
use simple_rtmp.Sink.Rtmp.{
  RtmpSink, new_sink, write_all, on_frame, on_frames, keep_frame, option_list, safe_add_channel,
}
use simple_rtmp.Sink.Rtmp.Gop.{from_last_key, latest, pictures, is_video_config, is_audio_config}
use simple_rtmp.Sink.Rtmp.Trace.{signals, run, frames_of}
use simple_rtmp.Sink.Rtmp.Join.{received, owed, join_lem}
use simple_rtmp.Sink.Rtmp.Series.{
  on_frames-encoders, on_frames-append, run-signals, unheard, frames_of-signals,
}
use simple_rtmp.RtmpEncoder.H264.{Library, H264Encoder, new_encoder, set_output, write}
use simple_rtmp.RtmpEncoder.Tags.{
  kept_of, kept_next, kept_all, IsConverted, AreConverted, IsFirst, config_frame, tags_of, all_tags,
  logged, state_after, after_first, write-first, write-later,
}

abbrev pub IsVideo : FrameBuffer → Type 0
IsVideo f = media f ≡ video

-- The encoder with the channel that the sink sets.
abbrev pub begun : {K : Type 0} → Library K → ℕ → H264Encoder K
begun lib c = set_output (some c) (new_encoder lib)

-- The sink's machine does what the encoder does, wherever this does not fault.
abbrev pub IsEncoder :
    {K E : Type 0} → Library K → (H264Encoder K → E) → (E → Signal → E × List Signal) → Type 0
IsEncoder {K} lib held encode =
    (e e' : H264Encoder K) (s : Signal)
    → write lib s (record e { sent = [] }) ≡ some e'
    → encode (held e) s ≡ (held e', map (λ p. p.1) e'.sent)

module _ {K : Type 0} (lib : Library K) (c stray : ℕ) (slices : FrameBuffer → ℕ)
    (units : FrameBuffer → List ℕ) where
  abbrev tags : List FrameBuffer → List FrameBuffer
  tags fs = all_tags lib c slices units fs

  pictures-tags : (fs : List FrameBuffer) → pictures stray (tags fs) ≡ tags fs
  unfolding pictures tags_of all_tags bytes_of base
  pictures-tags [] = refl
  pictures-tags (f ∷ fs) = ground (arith, pictures-tags fs)

  no_video_config : (fs : List FrameBuffer) → latest (is_video_config stray) (tags fs) ≡ none
  unfolding latest tags_of all_tags bytes_of base
  no_video_config [] = refl
  no_video_config (f ∷ fs) = ground (arith, no_video_config fs)

  no_audio_config : (fs : List FrameBuffer) → latest (is_audio_config stray) (tags fs) ≡ none
  unfolding latest tags_of all_tags bytes_of base
  no_audio_config [] = refl
  no_audio_config (f ∷ fs) = ground (arith, no_audio_config fs)

  owed-tags :
      (f : FrameBuffer) (config : List ℕ) (fs : List FrameBuffer)
      → owed stray (config_frame f config ∷ tags fs)
        ≡ config_frame f config ∷ from_last_key (tags fs)
  unfolding owed latest pictures bytes_of base
  owed-tags f config fs = ground (arith, no_video_config fs, no_audio_config fs, pictures-tags fs)

  signals-logged :
      (fs : List FrameBuffer) → map (λ p. p.1) (logged lib c slices units fs) ≡ map frame fs
  signals-logged [] = refl
  signals-logged (f ∷ fs) = ap (◌∷◌ (frame f)) (signals-logged fs)

  module _ {E : Type 0} (held : H264Encoder K → E) (new_aac : E)
      (encode : E → Signal → E × List Signal) where
    abbrev pub given : List FrameBuffer → RtmpSink E → RtmpSink E
    given fs k = Rtmp.writes stray (held (begun lib c)) new_aac encode (map frame fs) k

    write-video :
        (f : FrameBuffer) (x x' : E) (y : Option E) (ss : List Signal) (k : RtmpSink E)
        → IsVideo f
        → encode x (frame f) ≡ (x', ss)
        → Rtmp.write stray
            (held (begun lib c))
            new_aac
            encode
            (frame f)
            (record k { video_encoder = some x; audio_encoder = y })
          ≡ record (on_frames stray ss k) { video_encoder = some x'; audio_encoder = y }
    unfolding Rtmp.write Rtmp.write_video
    write-video f x x' y ss k is_video e =
        ground (arith, is_video, e, on_frames-encoders stray (some x') y ss k)

    writes-later :
        (fs : List FrameBuffer) (e : H264Encoder K) (y : Option E) (k : RtmpSink E)
        → IsEncoder lib held encode
        → AreConverted lib c slices units (kept_of e) fs
        → All IsVideo fs
        → e.ch ≡ some c
        → 1 ≤ e.video_sequence_header
        → (e' : H264Encoder K) × (given fs
              (record k { video_encoder = some (held e); audio_encoder = y })
            ≡ record (on_frames stray (map frame (tags fs)) k) {
              video_encoder = some (held e');
              audio_encoder = y;
            })
          × (e'.ch ≡ some c)
          × (1 ≤ e'.video_sequence_header)
          × (kept_of e' ≡ kept_all lib (kept_of e) fs)
    unfolding Rtmp.writes on_frames all_tags kept_all
    writes-later [] e y k agrees vs videos there configured = (e, refl, there, configured, refl)
    writes-later (f ∷ fs) e y k agrees (v, same, vs) (is_video, videos) there configured =
        let e0 : H264Encoder K = record e { sent = [] } in
        let e1 : H264Encoder K = record (state_after lib c slices units f e0) {
          sent = logged lib c slices units (tags_of lib c slices units f);
        } in
        let once =
          agrees e e1 (frame f) (write-later lib c slices units f e0 v same there configured) in
        let own = tags_of lib c slices units f in
        let step =
          write-video f (held e) (held e1) y (map frame own) k is_video
            (once ∙ ap (λ ss. (held e1, ss)) (signals-logged own)) in
        let (e', q, there', configured', kept') =
          writes-later fs e1 y (on_frames stray (map frame own) k) agrees vs videos there
            configured in
        (
          e',
          ap (given fs) step
              ∙ q
              ∙ ap
                  (λ (k' : RtmpSink E). record k' {
                    video_encoder = some (held e');
                    audio_encoder = y;
                  })
                  (sym (on_frames-append stray own (tags fs) k)),
          there',
          configured',
          kept',
        )

    -- A new sink that has been told of H.264 and AAC.
    abbrev pub both_codecs : RtmpSink E
    both_codecs =
        Rtmp.add_codec stray (held (begun lib c)) new_aac encode aac
          (Rtmp.add_codec stray (held (begun lib c)) new_aac encode h264 new_sink)

    writes-first :
        (f : FrameBuffer) (fs : List FrameBuffer) (config : List ℕ)
        → IsEncoder lib held encode
        → IsConverted lib c slices units (kept_of (new_encoder lib)) f
        → IsFirst lib c slices units (kept_of (new_encoder lib)) f config
        → AreConverted lib c slices units (kept_next lib (kept_of (new_encoder lib)) f) fs
        → All IsVideo (f ∷ fs)
        → (e : H264Encoder K) × (given (f ∷ fs) both_codecs
            ≡ record (on_frames stray
                (map frame (config_frame f config ∷ tags (f ∷ fs)))
                new_sink) { video_encoder = some (held e); audio_encoder = some new_aac })
          × (e.ch ≡ some c)
          × (1 ≤ e.video_sequence_header)
          × (kept_of e ≡ kept_all lib (kept_of (new_encoder lib)) (f ∷ fs))
    unfolding Rtmp.writes on_frames all_tags kept_all Rtmp.add_codec set_output new_encoder
    writes-first f fs config agrees v first vs (is_video, videos) =
        let e1 : H264Encoder K = after_first lib c slices units f config (begun lib c) in
        let once =
          agrees (begun lib c) e1 (frame f)
            (write-first lib c slices units f config (begun lib c) v first refl) in
        let own = config_frame f config ∷ tags_of lib c slices units f in
        let step =
          write-video f (held (begun lib c)) (held e1) (some new_aac) (map frame own) new_sink
            is_video (once ∙ ap (λ ss. (held e1, ss)) (signals-logged own)) in
        let (e', q, there, configured, kept) =
          writes-later fs e1 (some new_aac) (on_frames stray (map frame own) new_sink) agrees vs
            videos refl (omega arith) in
        (
          e',
          ap (given fs) step
              ∙ q
              ∙ ap
                  (λ (k' : RtmpSink E). record k' {
                    video_encoder = some (held e');
                    audio_encoder = some new_aac;
                  })
                  (sym (on_frames-append stray own (tags fs) new_sink)),
          there,
          configured,
          kept,
        )

    -- A new RTMP sink that has been told of H.264 and AAC is given video frames, of which the first one
    -- brings the parameter sets and the others keep them. A channel that joins after any of them is
    -- written the configuration, then the tags of the frames since the last key frame before it came, and
    -- then the tags of the frames that follow, in order; a frame has one tag if the library finds a slice
    -- of a picture in it, and none otherwise. With what it has kept of the frames before, the library
    -- converts each frame to its units, and it saves the sets of the first.
    pub relay-late :
        (f : FrameBuffer) (before after : List FrameBuffer) (config : List ℕ) (ch : ℕ)
        → IsEncoder lib held encode
        → IsConverted lib c slices units (kept_of (new_encoder lib)) f
        → IsFirst lib c slices units (kept_of (new_encoder lib)) f config
        → AreConverted lib c slices units (kept_next lib (kept_of (new_encoder lib)) f) before
        → AreConverted lib c slices units
            (kept_all lib (kept_of (new_encoder lib)) (f ∷ before))
            after
        → All IsVideo (f ∷ before)
        → All IsVideo after
        → received ch (given after (safe_add_channel ch (given (f ∷ before) both_codecs))).sent
          ≡ frame (config_frame f config)
            ∷ (map frame (from_last_key (tags (f ∷ before))) ++ map frame (tags after))
    unfolding safe_add_channel received new_sink
    relay-late f before after config ch agrees v first vs ws videos pictured =
        let handed = map frame (config_frame f config ∷ tags (f ∷ before)) in
        let held_back : RtmpSink E = run stray (map signals handed) new_sink in
        let (e, q, there, configured, kept) =
          writes-first f before config agrees v first vs videos in
        let (e', r, _, _, _) =
          writes-later after e (some new_aac) (safe_add_channel ch held_back) agrees
            (subst (λ k. AreConverted lib c slices units k after) (sym kept) ws) pictured there
            configured in
        let same : given (f ∷ before) _
            ≡ record held_back { video_encoder = some (held e); audio_encoder = some new_aac } =
          q
          ∙ ap
              (λ (k : RtmpSink E). record k {
                video_encoder = some (held e);
                audio_encoder = some new_aac;
              })
              (sym (run-signals stray handed new_sink)) in
        let silent : received ch held_back.sent ≡ [] = ap (received ch) (
          ap (λ (k : RtmpSink E). k.sent) (run-signals stray handed new_sink)
          ∙ unheard stray handed new_sink refl) in
        let due : owed stray (frames_of (map signals handed))
            ≡ config_frame f config ∷ from_last_key (tags (f ∷ before)) =
          ap (owed stray) (frames_of-signals (config_frame f config ∷ tags (f ∷ before)))
          ∙ owed-tags f config (f ∷ before) in
        ap (λ (k : RtmpSink E). received ch (given after (safe_add_channel ch k)).sent) same
        ∙ ap (λ (k : RtmpSink E). received ch k.sent) r
        ∙ join_lem E stray ch (map signals handed) (map frame (tags after))
        ∙ ap₂
            (λ (got : List Signal) (fs : List FrameBuffer).
              got ++ (map frame fs ++ map frame (tags after)))
            silent due
