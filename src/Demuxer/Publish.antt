-- ===== src/Demuxer/Publish.antt =====
-- What the demuxer makes of the beginning of a stream and of an error, rtmp_demuxer.cc.
use simple_rtmp.Base.{
  ℕ, suc, ◌≡◌, refl, ap, ◌∙◌, List, [], ◌∷◌, ◌++◌, map, append-nil, append_assoc, true, Option,
  none, some, drop, replicate, arith, All,
}
use simple_rtmp.Base.Int.{pos}
use simple_rtmp.Codec.{script, video, aac, h264}
use simple_rtmp.Frame.{FrameBuffer, fixed, bytes_of, pts, codec}
use simple_rtmp.Sink.{Signal, frame}
use simple_rtmp.Demuxer.{
  Demuxer, Amf, Output, to_channel, on_codec, outputs_of, write, demuxer_video, demuxer_script,
  amf_text, on_metadata, make_decoders, call_codec_cb, video_option, audio_option,
}
use simple_rtmp.Demuxer.H264.{Args, video_frame, h264_sps_pps_size}
use simple_rtmp.Demuxer.H264
use simple_rtmp.Demuxer.Aac
use simple_rtmp.Demuxer.Units.{Nalu, IsNalu, NoneFirst, is_idr, packet, frames}
use simple_rtmp.Demuxer.Packets.{key, write-key}

unfoldable pub write_all :
    {A B D : Type 0}
    → Amf D
    → H264.Library A
    → Aac.Library B
    → List Signal
    → Demuxer A B
    → Option (Demuxer A B)
unfolding write
write_all amf avc mpeg4 [] d = some d
write_all amf avc mpeg4 (s ∷ signals) d = elim (write amf avc mpeg4 s d) [
  | none ↦ none
  | some d' ↦ write_all amf avc mpeg4 signals d'
]

module _ {A B D : Type 0} (amf : Amf D) (avc : H264.Library A) (mpeg4 : Aac.Library B) where
  -- What a publisher's first message says: the two names, and then the metadata.
  pub record IsScript (f : FrameBuffer) (items : List ℕ) : Type 0 where
    pub is_script : codec f ≡ script
    pub behind : List ℕ
    pub behind_name : List ℕ
    pub begins : bytes_of f ≡ amf.amf_string ∷ behind
    pub first_name : amf.read_string behind ≡ some ("@setDataFrame", amf.amf_string ∷ behind_name)
    pub second_name : amf.read_string behind_name ≡ some ("onMetaData", items)

  pub write-script :
      (f : FrameBuffer) (items : List ℕ) (d : Demuxer A B)
      → IsScript f items
      → write amf avc mpeg4 (frame f) d
        ≡ some (
            call_codec_cb amf avc mpeg4
              (amf.read_items items)
              (make_decoders amf avc mpeg4 (amf.read_items items) d))
  unfolding write demuxer_script amf_text on_metadata
  write-script f items d h = ground (arith, h.is_script, h.begins, h.first_name, h.second_name)

  -- A video frame goes to the decoder, and what this writes goes out.
  write-video :
      (f : FrameBuffer) (v v' : H264.H264Decoder A) (d : Demuxer A B)
      → codec f ≡ video
      → d.video_decoder ≡ some v
      → H264.write avc (frame f) (record v { sent = [] }) ≡ some v'
      → write amf avc mpeg4 (frame f) d
        ≡ some (record d { video_decoder = some v'; outputs = d.outputs ++ outputs_of (v'.sent) })
  unfolding write demuxer_video
  write-video f v v' d kind has result = ground (arith, kind, has, result)

  outputs_of-map :
      (c : ℕ) (fs : List FrameBuffer)
      → outputs_of (map (λ f. (c, frame f)) fs) ≡ map (λ f. to_channel c (frame f)) fs
  unfolding outputs_of
  outputs_of-map c [] = refl
  outputs_of-map c (f ∷ fs) = ap (◌∷◌ (to_channel c (frame f))) (outputs_of-map c fs)

  -- The decoder that a sequence header leaves.
  abbrev pub configured : ℕ → List ℕ → H264.H264Decoder A
  configured c bytes = record {
    ch = some c;
    args = some (record { avc = avc.load bytes avc.zeroed; sps_pps_flag = 0 });
    sent = [];
  }

  abbrev pub codecs : List ℕ → List Output
  codecs items =
      on_codec h264 (some (video_option amf avc mpeg4 (amf.read_items items)))
      ∷ on_codec aac (some (audio_option amf avc mpeg4 (amf.read_items items)))
      ∷ []

  -- The demuxer behind a script that names both codecs.
  abbrev pub started : ℕ → List ℕ → Demuxer A B → Demuxer A B
  started c items d = record d {
    video_decoder = some (H264.set_output (some c) H264.new_decoder);
    audio_decoder = some (Aac.set_output (some c) (Aac.new_decoder mpeg4));
    outputs = d.outputs ++ codecs items;
  }

  pub script-started :
      (items : List ℕ) (c : ℕ) (d : Demuxer A B)
      → d.ch ≡ some c
      → d.codec_cb ≡ true
      → amf.equals (amf.read_items items).videocodecid h264 ≡ true
      → amf.to_int64 (amf.read_items items).videocodecid ≡ pos h264
      → amf.to_int64 (amf.read_items items).audiocodecid ≡ pos 10
      → call_codec_cb amf avc mpeg4
          (amf.read_items items)
          (make_decoders amf avc mpeg4 (amf.read_items items) d)
        ≡ started c items d
  unfolding call_codec_cb make_decoders
  script-started items c d has_ch has_cb named to_int audio_named =
      ground (arith, has_ch, has_cb, named, to_int, audio_named)

  pub write-header :
      (g : FrameBuffer) (c : ℕ) (header : H264.VideoTag) (d : Demuxer A B)
      → codec g ≡ video
      → d.video_decoder ≡ some (H264.set_output (some c) H264.new_decoder)
      → avc.read_tag (bytes_of g) ≡ some header
      → header.avpacket ≡ 0
      → write amf avc mpeg4 (frame g) d
        ≡ some (record d { video_decoder = some (configured c (drop header.read (bytes_of g))) })
  unfolding write demuxer_video H264.write H264.write_packet H264.set_output H264.new_decoder
      outputs_of
  write-header g c header d kind has is_tag seq =
      ground (arith, kind, has, is_tag, seq, append-nil d.outputs)

  -- What goes out of the first packet with an IDR unit.
  abbrev pub first_frames :
      FrameBuffer → H264.VideoTag → List Nalu → List Nalu → Nalu → List ℕ → List FrameBuffer
  first_frames f tag before after idr sets =
      frames (pts f) tag.cts (key tag) before
      ++ fixed (video_frame (pts f) tag.cts (key tag) sets)
        ∷ frames (pts f) tag.cts (key tag) (idr ∷ after)

  pub write-first :
      (f : FrameBuffer) (c : ℕ) (tag : H264.VideoTag) (bytes : List ℕ) (before after : List Nalu)
      (idr : Nalu) (n : ℕ) (sets : List ℕ) (d : Demuxer A B)
      → codec f ≡ video
      → d.video_decoder ≡ some (configured c bytes)
      → avc.read_tag (bytes_of f) ≡ some tag
      → tag.avpacket ≡ 1
      → drop tag.read (bytes_of f) ≡ packet (before ++ idr ∷ after) []
      → All (IsNalu (avc.nalu (avc.load bytes avc.zeroed))) before
      → All (IsNalu (avc.nalu (avc.load bytes avc.zeroed))) (idr ∷ after)
      → NoneFirst 0 before
      → is_idr idr ≡ true
      → avc.to_nalu
          (avc.load bytes avc.zeroed)
          (replicate (h264_sps_pps_size avc (avc.load bytes avc.zeroed)) 0)
        ≡ (pos (suc n), sets)
      → (v : H264.H264Decoder A) × (write amf avc mpeg4 (frame f) d
          ≡ some (record d {
            video_decoder = some v;
            outputs =
                d.outputs
                ++ map (λ u. to_channel c (frame u)) (first_frames f tag before after idr sets);
          }))
  write-first f c tag bytes before after idr n sets d kind has is_tag avp units vs ws plain first
        saved =
      let v : H264.H264Decoder A = record {
        ch = some c;
        args = some (record { avc = avc.load bytes avc.zeroed; sps_pps_flag = 1 });
        sent = map (λ u. (c, frame u)) (first_frames f tag before after idr sets);
      } in
      (
        v,
        write-video f (configured c bytes) v d kind has (
              write-key avc f tag c (record { avc = avc.load bytes avc.zeroed; sps_pps_flag = 0 })
                (configured c bytes) is_tag avp refl refl before after idr n sets units vs ws refl
                plain first saved)
            ∙ ap (λ os. some (record d { video_decoder = some v; outputs = d.outputs ++ os }))
                (outputs_of-map c (first_frames f tag before after idr sets)),
      )

  write_all-three :
      (s g f : Signal) (d d1 d2 d3 : Demuxer A B)
      → write amf avc mpeg4 s d ≡ some d1
      → write amf avc mpeg4 g d1 ≡ some d2
      → write amf avc mpeg4 f d2 ≡ some d3
      → write_all amf avc mpeg4 (s ∷ g ∷ f ∷ []) d ≡ some d3
  unfolding write_all
  write_all-three s g f d d1 d2 d3 one two three = ground (arith, one, two, three)

  -- The beginning of a stream: a script that names H.264 and AAC, a sequence header, and a packet of
  -- units with an IDR unit. The session is told of both codecs, video first, and then the channel is
  -- written the units in order, each behind a start code, with the parameter sets once before the IDR
  -- unit; nothing else goes out. The demuxer has a channel and a callback.
  pub write_all-start :
      (s g f : FrameBuffer) (items : List ℕ) (c : ℕ) (d : Demuxer A B) (header tag : H264.VideoTag)
      (before after : List Nalu) (idr : Nalu) (n : ℕ) (sets : List ℕ)
      → d.ch ≡ some c
      → d.codec_cb ≡ true
      → IsScript s items
      → amf.equals (amf.read_items items).videocodecid h264 ≡ true
      → amf.to_int64 (amf.read_items items).videocodecid ≡ pos h264
      → amf.to_int64 (amf.read_items items).audiocodecid ≡ pos 10
      → codec g ≡ video
      → avc.read_tag (bytes_of g) ≡ some header
      → header.avpacket ≡ 0
      → codec f ≡ video
      → avc.read_tag (bytes_of f) ≡ some tag
      → tag.avpacket ≡ 1
      → drop tag.read (bytes_of f) ≡ packet (before ++ idr ∷ after) []
      → All (IsNalu (avc.nalu (avc.load (drop header.read (bytes_of g)) avc.zeroed))) before
      → All (IsNalu (avc.nalu (avc.load (drop header.read (bytes_of g)) avc.zeroed))) (idr ∷ after)
      → NoneFirst 0 before
      → is_idr idr ≡ true
      → avc.to_nalu (avc.load (drop header.read (bytes_of g)) avc.zeroed) (
          replicate (h264_sps_pps_size avc (avc.load (drop header.read (bytes_of g)) avc.zeroed)) 0)
        ≡ (pos (suc n), sets)
      → (d' : Demuxer A B) × (write_all amf avc mpeg4 (frame s ∷ frame g ∷ frame f ∷ []) d
          ≡ some d')
        × (d'.outputs
            ≡ d.outputs
              ++ on_codec h264 (some (video_option amf avc mpeg4 (amf.read_items items)))
                ∷ on_codec aac (some (audio_option amf avc mpeg4 (amf.read_items items)))
                ∷ map (λ u. to_channel c (frame u)) (first_frames f tag before after idr sets))
  unfolding write_all
  write_all-start s g f items c d header tag before after idr n sets has_ch has_cb is_script named
        to_int audio_named kind_g tag_g seq kind_f tag_f avp units vs ws plain first saved =
      let bytes = drop header.read (bytes_of g) in
      let d1 = started c items d in
      let d2 : Demuxer A B = record d1 { video_decoder = some (configured c bytes) } in
      let one =
        write-script s items d is_script
        ∙ ap some (script-started items c d has_ch has_cb named to_int audio_named) in
      let two = write-header g c header d1 kind_g refl tag_g seq in
      let three =
        write-first f c tag bytes before after idr n sets d2 kind_f refl tag_f avp units vs ws plain
          first saved in
      (
        _,
        write_all-three (frame s) (frame g) (frame f) d d1 d2
            (record d2 {
              video_decoder = some (three.0);
              outputs =
                  d2.outputs
                  ++ map (λ u. to_channel c (frame u)) (first_frames f tag before after idr sets);
            })
            one two (three.1),
        append_assoc d.outputs (codecs items) _,
      )
