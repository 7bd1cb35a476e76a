-- ===== src/RtmpSource/Tracks.antt =====
-- What a player of RTSP finds of a stream that has begun, from rtmp_source.cc down to the RTSP encoder.
use simple_rtmp.Base.{
  ℕ, suc, ◌%◌, ◌≡◌, refl, ap, ◌∙◌, List, [], ◌∷◌, map, true, none, some, drop, replicate, arith,
  All, Option-cases, inl, inr,
}
use simple_rtmp.Base.Int.{pos}
use simple_rtmp.Codec.{video, h264, aac}
use simple_rtmp.Frame.{FrameBuffer, fixed, bytes_of, base, pts, codec}
use simple_rtmp.Sink.{Signal, frame}
use simple_rtmp.Sink.Rtmp
use simple_rtmp.Sink.Rtmp.{RtmpSink}
use simple_rtmp.RtspSink
use simple_rtmp.RtspSink.{RtspSink, tracks}
use simple_rtmp.RtspSink.Aac
use simple_rtmp.RtspSink.Track.{video_track, next_ssrc}
use simple_rtmp.RtspSink.Scan.{IsUnit, annex_b}
use simple_rtmp.Demuxer
use simple_rtmp.Demuxer.{Demuxer, Output, to_channel, on_codec}
use simple_rtmp.Demuxer.H264.{VideoTag, video_frame, h264_sps_pps_size}
use simple_rtmp.Demuxer.Units.{Nalu, IsNalu, is_idr, packet}
use simple_rtmp.Demuxer.Packets.{key}
use simple_rtmp.Demuxer.Publish.{
  IsScript, write-script, script-started, write-header, write-first, started, configured,
  first_frames,
}
use simple_rtmp.RtmpSource.Feed.{make_calls-units, make_calls-sets}
use simple_rtmp.RtmpSource.{
  Parts, RtmpSource, new_source, add_codec, make_calls, on_frame, write, write_all,
}

module _ {A B D E S K : Type 0} (p : Parts A B D E S K) where
  write-calls :
      (signal : Signal) (d : Demuxer A B) (s s' : RtmpSource A B E S)
      → Demuxer.write p.amf p.avc p.mpeg4 signal (record (s.demuxer) { outputs = [] }) ≡ some d
      → make_calls p d.outputs (record s { demuxer = d }) ≡ some s'
      → write p signal s ≡ some s'
  unfolding write
  write-calls signal d s s' q r = ground (arith, q, r)

  write_all-three :
      (a b c : Signal) (s s1 s2 s3 : RtmpSource A B E S)
      → write p a s ≡ some s1
      → write p b s1 ≡ some s2
      → write p c s2 ≡ some s3
      → write_all p (a ∷ b ∷ c ∷ []) s ≡ some s3
  unfolding write_all
  write_all-three a b c s s1 s2 s3 q r t = ground (arith, q, r, t)

  -- The source behind a script that names both codecs, and behind a sequence header.
  abbrev opened : ℕ → List ℕ → RtmpSource A B E S
  opened ch items =
      let d = started p.amf p.avc p.mpeg4 ch items (new_source p ch).demuxer in
      add_codec p aac (add_codec p h264 (record (new_source p ch) { demuxer = d }))

  write-opened :
      (f : FrameBuffer) (items : List ℕ) (ch : ℕ)
      → IsScript p.amf p.avc p.mpeg4 f items
      → p.amf.equals (p.amf.read_items items).videocodecid h264 ≡ true
      → p.amf.to_int64 (p.amf.read_items items).videocodecid ≡ pos h264
      → p.amf.to_int64 (p.amf.read_items items).audiocodecid ≡ pos 10
      → write p (frame f) (new_source p ch) ≡ some (opened ch items)
  unfolding new_source Demuxer.new_demuxer Demuxer.set_channel Demuxer.set_codec_cb make_calls
  write-opened f items ch is_script named to_int audio_named =
      let d0 = (new_source p ch).demuxer in
      write-calls (frame f) (started p.amf p.avc p.mpeg4 ch items d0) (new_source p ch)
        (opened ch items)
        (write-script p.amf p.avc p.mpeg4 f items d0 is_script
          ∙ ap some
              (script-started p.amf p.avc p.mpeg4 items ch d0 refl refl named to_int audio_named))
        refl

  -- The calls that the RTMP sink gets of them.
  abbrev pub opened_sink : RtmpSink E
  opened_sink =
      Rtmp.add_codec p.stray p.new_h264 p.new_aac p.encode aac
        (Rtmp.add_codec p.stray p.new_h264 p.new_aac p.encode h264 Rtmp.new_sink)

  abbrev pub rtmp_calls : List FrameBuffer → RtmpSink E → RtmpSink E
  rtmp_calls fs k = Rtmp.writes p.stray p.new_h264 p.new_aac p.encode (map frame fs) k

  on_frame-rtmp :
      (f : FrameBuffer) (s s' : RtmpSource A B E S)
      → on_frame p (frame f) s ≡ some s'
      → s'.rtmp_sink ≡ rtmp_calls (f ∷ []) s.rtmp_sink
  unfolding on_frame Rtmp.writes
  on_frame-rtmp f s s' q = elim (Option-cases (RtspSink.write p.rtp p.adts (frame f) s.rtsp_sink)) [
    | inl missing ↦ ground (arith, missing, q)
    | inr (r, done) ↦ ground (arith, done, q)
  ]

  make_calls-rtmp :
      (ch : ℕ) (fs : List FrameBuffer) (s s' : RtmpSource A B E S)
      → make_calls p (map (λ u. to_channel ch (frame u)) fs) s ≡ some s'
      → s'.rtmp_sink ≡ rtmp_calls fs s.rtmp_sink
  unfolding make_calls Rtmp.writes
  make_calls-rtmp ch [] s s' q = ground (arith, q)
  make_calls-rtmp ch (f ∷ fs) s s' q = elim (Option-cases (on_frame p (frame f) s)) [
    | inl missing ↦ ground (arith, missing, q)
    | inr (s1, done) ↦
        make_calls-rtmp ch fs s1 s' (ground (arith, done, q))
        ∙ ap (rtmp_calls fs) (on_frame-rtmp f s s1 done)
  ]

  -- A publisher's stream begins with a script that names H.264 and AAC, a sequence header and a packet
  -- that starts with an IDR unit. Where the library writes the parameter sets as an SPS and a PPS, each
  -- behind a start code of four bytes, and makes a packer, the source does not fault. Its RTSP sink then
  -- has a video track with these two sets, and an audio encoder whose track is not yet there; its RTMP
  -- sink, told of both codecs, has been given the parameter sets as one frame and then the packet's units,
  -- each as one, in order. No unit and no set ends in 0 or holds a start code.
  pub write_all-tracks :
      (s g f : FrameBuffer) (items : List ℕ) (ch : ℕ) (header tag : VideoTag) (idr : Nalu)
      (after : List Nalu) (n first_s first_p : ℕ) (sps pps : List ℕ) (packer : S)
      → IsScript p.amf p.avc p.mpeg4 s items
      → p.amf.equals (p.amf.read_items items).videocodecid h264 ≡ true
      → p.amf.to_int64 (p.amf.read_items items).videocodecid ≡ pos h264
      → p.amf.to_int64 (p.amf.read_items items).audiocodecid ≡ pos 10
      → codec g ≡ video
      → p.avc.read_tag (bytes_of g) ≡ some header
      → header.avpacket ≡ 0
      → codec f ≡ video
      → p.avc.read_tag (bytes_of f) ≡ some tag
      → tag.avpacket ≡ 1
      → drop tag.read (bytes_of f) ≡ packet (idr ∷ after) []
      → All
          (IsNalu (p.avc.nalu (p.avc.load (drop header.read (bytes_of g)) p.avc.zeroed)))
          (idr ∷ after)
      → is_idr idr ≡ true
      → p.avc.to_nalu (p.avc.load (drop header.read (bytes_of g)) p.avc.zeroed) (
          replicate
            (h264_sps_pps_size p.avc (p.avc.load (drop header.read (bytes_of g)) p.avc.zeroed))
            0)
        ≡ (pos (suc n), annex_b ((first_s ∷ sps) ∷ (first_p ∷ pps) ∷ []))
      → IsUnit (first_s ∷ sps)
      → IsUnit (first_p ∷ pps)
      → first_s % 32 ≡ 7
      → first_p % 32 ≡ 8
      → All (λ (u : Nalu). IsUnit (u.body)) (idr ∷ after)
      → p.rtp.create 96 "H264" (next_ssrc p.videos) ≡ some packer
      → (s' : RtmpSource A B E S) × (write_all p
            (frame s ∷ frame g ∷ frame f ∷ [])
            (new_source p ch)
          ≡ some s')
        × (tracks s'.rtsp_sink
            ≡ some (
                video_track (record {
                  track_sps = first_s ∷ sps;
                  track_pps = first_p ∷ pps;
                  ssrc = next_ssrc p.videos;
                }))
              ∷ none
              ∷ [])
        × (s'.rtmp_sink
            ≡ rtmp_calls
                (first_frames p.amf p.avc p.mpeg4 f tag [] after idr
                  (annex_b ((first_s ∷ sps) ∷ (first_p ∷ pps) ∷ [])))
                opened_sink)
  unfolding tracks Aac.new_encoder add_codec RtspSink.add_codec bytes_of base make_calls
      Rtmp.new_sink new_source
  write_all-tracks s g f items ch header tag idr after n first_s first_p sps pps packer is_script
        named to_int audio_named kind_g tag_g seq kind_f tag_f avp units ws first saved vs vp type_s
        type_p clean made =
      let bytes = drop header.read (bytes_of g) in
      let sets = annex_b ((first_s ∷ sps) ∷ (first_p ∷ pps) ∷ []) in
      let src1 = opened ch items in
      let d2 : Demuxer A B = record (src1.demuxer) {
        outputs = [];
        video_decoder = some (configured p.amf p.avc p.mpeg4 ch bytes);
      } in
      let src2 : RtmpSource A B E S = record src1 { demuxer = d2 } in
      let one = write-opened s items ch is_script named to_int audio_named in
      let two =
        write-calls (frame g) d2 src1 src2
          (write-header p.amf p.avc p.mpeg4 g ch header (record (src1.demuxer) { outputs = [] })
            kind_g refl tag_g seq)
          refl in
      let (v, q) =
        write-first p.amf p.avc p.mpeg4 f ch tag bytes [] after idr n sets d2 kind_f refl tag_f avp
          units tt ws tt first saved in
      let d3 : Demuxer A B = record d2 {
        video_decoder = some v;
        outputs =
            map (λ u. to_channel ch (frame u))
              (first_frames p.amf p.avc p.mpeg4 f tag [] after idr sets);
      } in
      let src3 : RtmpSource A B E S = record src2 { demuxer = d3 } in
      let (s4, r4, plays) =
        make_calls-sets p (fixed (video_frame (pts f) tag.cts (key tag) sets)) ch first_s first_p
          sps pps packer (Aac.new_encoder p.audios) src3 refl refl vs vp type_s type_p made refl
          refl in
      let (s5, r5, plays5) =
        make_calls-units p (pts f) tag.cts (key tag) ch (idr ∷ after)
          (record {
            track_sps = first_s ∷ sps;
            track_pps = first_p ∷ pps;
            ssrc = next_ssrc p.videos;
          })
          (Aac.new_encoder p.audios) s4 clean plays in
      let three = write-calls (frame f) d3 src2 s5 q (ground (arith, r4, r5)) in
      (
        s5,
        write_all-three (frame s) (frame g) (frame f) (new_source p ch) src1 src2 s5 one two three,
        ground (arith, plays5.has_encoder, plays5.has_track, plays5.has_audio),
        make_calls-rtmp ch (first_frames p.amf p.avc p.mpeg4 f tag [] after idr sets) src3 s5
            (ground (arith, r4, r5)),
      )
