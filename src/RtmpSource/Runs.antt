-- ===== src/RtmpSource/Runs.antt =====
-- A concrete stream, and the theorem at it.
use simple_rtmp.Base.{ℕ, ◌+◌, ◌≡◌, refl, [], ◌∷◌, none, some, arith, ◌==◌, get_or, if◌then◌else◌}
use simple_rtmp.Base.Int.{pos}
use simple_rtmp.Codec.{video}
use simple_rtmp.Frame.{FrameBuffer, fixed, new_frame, create, bytes_of, base}
use simple_rtmp.Sink.{frame}
use simple_rtmp.RtspSink.{tracks}
use simple_rtmp.RtspSink.Track.{video_track}
use simple_rtmp.RtspSink.Scan.{annex_b}
use simple_rtmp.Demuxer.{Metadata}
use simple_rtmp.Demuxer.H264.{big_endian}
use simple_rtmp.Demuxer.Units.{Nalu, IsNalu, packet}
use simple_rtmp.RtmpSource.{Parts, RtmpSource, new_source, write_all}
use simple_rtmp.Demuxer.Publish.{first_frames}
use simple_rtmp.RtmpSource.Tracks.{opened_sink, rtmp_calls, write_all-tracks}

abbrev metadata : Metadata ℕ
metadata = record {
  audiocodecid = 10;
  audiodatarate = 0;
  audiosamplesize = 0;
  videocodecid = 7;
  videodatarate = 0;
  framerate = 25;
  height = 0;
  width = 0;
  duration = 0;
  filesize = 0;
}

-- Libraries whose tags and lengths are short, and an RTMP encoder that does nothing.
abbrev parts : Parts ℕ ℕ ℕ ℕ ℕ ℕ
parts = record {
  amf = record {
    amf_string = 2;
    read_string = λ bytes. elim bytes [
      | [] ↦ none
      | a ∷ rest ↦ some ((if a == 64 then "@setDataFrame" else "onMetaData"), rest)
    ];
    read_items = λ bytes. metadata;
    equals = λ a b. a == b;
    to_int64 = λ a. pos a;
    to_string = λ a. "";
  };
  avc = record {
    zeroed = 0;
    read_tag = λ bytes. elim bytes [
      | [] ↦ none
      | a ∷ [] ↦ none
      | a ∷ (b ∷ rest) ↦ some (record { read = 2; avpacket = b; keyframe = a; cts = pos 0 })
    ];
    load = λ bytes a. get_or bytes 0 0;
    nalu = λ a. a;
    sps_bytes = λ a. 2 ∷ [];
    pps_bytes = λ a. 1 ∷ [];
    to_nalu = λ a bytes. (pos 11, 0 ∷ 0 ∷ 0 ∷ 1 ∷ 103 ∷ 1 ∷ 0 ∷ 0 ∷ 0 ∷ 1 ∷ 104 ∷ []);
  };
  mpeg4 = record {
    zeroed = 0;
    aac_lc = 2;
    aac_44100 = 4;
    read_tag = λ bytes. none;
    load = λ bytes a. a;
    adts_save = λ a n bytes. (pos 0, bytes);
  };
  stray = 0;
  new_h264 = 0;
  new_aac = 0;
  encode = λ e signal. (e, []);
  rtp = record { create = λ payload name ssrc. some 0; input = λ n bytes time. (n + 1, []) };
  adts = record {
    adts_load = λ bytes. none;
    sampling_frequency_index = λ k. k;
    channel_configuration = λ k. k;
    config_save = λ k. none;
    frequency_to = λ n. n;
  };
  videos = 4082;
  audios = 4081;
}

abbrev idr : Nalu
idr = record { prefix = 0 ∷ 2 ∷ []; body = 101 ∷ 9 ∷ [] }

idr-IsNalu : IsNalu 2 idr
idr-IsNalu = record {
  prefix_len = refl;
  counts = unfold big_endian in refl;
  some_body = omega arith;
  fits = omega arith;
}

abbrev script_frame : FrameBuffer
script_frame = create (2 ∷ 64 ∷ 2 ∷ 111 ∷ 3 ∷ [])

abbrev header_frame : FrameBuffer
header_frame = fixed (record (new_frame (1 ∷ 0 ∷ 2 ∷ [])) { codec = video })

abbrev key_frame : FrameBuffer
key_frame = fixed (record (new_frame (1 ∷ 1 ∷ 0 ∷ 2 ∷ 101 ∷ 9 ∷ [])) { codec = video })

write_all-tracks_example :
    (s' : RtmpSource ℕ ℕ ℕ ℕ) × (write_all parts
        (frame script_frame ∷ frame header_frame ∷ frame key_frame ∷ [])
        (new_source parts 1)
      ≡ some s')
    × (tracks s'.rtsp_sink
        ≡ some
            (video_track (record { track_sps = 103 ∷ 1 ∷ []; track_pps = 104 ∷ []; ssrc = 4084 }))
          ∷ none
          ∷ [])
    × (s'.rtmp_sink
        ≡ rtmp_calls parts
            (first_frames parts.amf parts.avc parts.mpeg4 key_frame
              (record { read = 2; avpacket = 1; keyframe = 1; cts = pos 0 })
              []
              []
              idr
              (0 ∷ 0 ∷ 0 ∷ 1 ∷ 103 ∷ 1 ∷ 0 ∷ 0 ∷ 0 ∷ 1 ∷ 104 ∷ []))
            (opened_sink parts))
unfolding base bytes_of packet annex_b
write_all-tracks_example =
    write_all-tracks parts script_frame header_frame key_frame (3 ∷ []) 1
      (record { read = 2; avpacket = 0; keyframe = 1; cts = pos 0 })
      (record { read = 2; avpacket = 1; keyframe = 1; cts = pos 0 }) idr [] 10 103 104 (1 ∷ []) [] 0
      (record {
        is_script = refl;
        behind = _;
        behind_name = _;
        begins = refl;
        first_name = refl;
        second_name = refl;
      })
      refl refl refl refl refl refl refl refl refl refl (idr-IsNalu, tt) refl refl (omega arith)
      (omega arith) refl refl (omega arith, tt) refl
