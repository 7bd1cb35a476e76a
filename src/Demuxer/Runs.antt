-- ===== src/Demuxer/Runs.antt =====
-- Concrete packets, and the theorems at concrete inputs.
use simple_rtmp.Base.{
  ℕ, ◌≡◌, refl, List, [], ◌∷◌, ◌++◌, none, some, true, map, get_or, ltb, arith, ◌==◌, if◌then◌else◌,
}
use simple_rtmp.Base.Int.{pos, negsuc}
use simple_rtmp.Frame.{FrameBuffer, fixed, new_frame, create, bytes_of, base}
use simple_rtmp.Sink.{frame}
use simple_rtmp.Codec.{video, aac, h264}
use simple_rtmp.Demuxer.{video_option, audio_option, Demuxer, Amf, Metadata, to_channel, on_codec}
use simple_rtmp.Demuxer.H264
use simple_rtmp.Demuxer.H264.{
  VideoTag, Args, H264Decoder, video_frame, big_endian, h264_sps_pps_size,
}
use simple_rtmp.Demuxer.Aac
use simple_rtmp.Demuxer.Units.{Nalu, IsNalu, frames, wrote, packet}
use simple_rtmp.Demuxer.Packets.{write-key}
use simple_rtmp.Demuxer.Media.{Tagged, adts_frame}
use simple_rtmp.Demuxer.Media
use simple_rtmp.Demuxer.Publish.{write_all-start, first_frames}
use simple_rtmp.Demuxer.Publish

-- A library whose tags are two bytes, and whose configuration is the number of bytes of a length.
abbrev avc : H264.Library ℕ
avc = record {
  zeroed = 0;
  read_tag = λ bytes. elim bytes [
    | [] ↦ none
    | a ∷ [] ↦ none
    | a ∷ (b ∷ rest) ↦ some (record { read = 2; avpacket = b; keyframe = a; cts = pos 0 })
  ];
  load = λ bytes a. get_or bytes 0 0;
  nalu = λ a. a;
  sps_bytes = λ a. 2 ∷ [];
  pps_bytes = λ a. 1 ∷ [];
  to_nalu = λ a bytes. (pos 11, 0 ∷ 0 ∷ 0 ∷ 1 ∷ 103 ∷ 1 ∷ 0 ∷ 0 ∷ 0 ∷ 1 ∷ 104 ∷ []);
}

abbrev sei : Nalu
sei = record { prefix = 0 ∷ 1 ∷ []; body = 6 ∷ [] }

abbrev idr : Nalu
idr = record { prefix = 0 ∷ 2 ∷ []; body = 101 ∷ 9 ∷ [] }

abbrev slice : Nalu
slice = record { prefix = 0 ∷ 3 ∷ []; body = 65 ∷ 7 ∷ 8 ∷ [] }

sei-IsNalu : IsNalu 2 sei
sei-IsNalu = record {
  prefix_len = refl;
  counts = unfold big_endian in refl;
  some_body = omega arith;
  fits = omega arith;
}

idr-IsNalu : IsNalu 2 idr
idr-IsNalu = record {
  prefix_len = refl;
  counts = unfold big_endian in refl;
  some_body = omega arith;
  fits = omega arith;
}

slice-IsNalu : IsNalu 2 slice
slice-IsNalu = record {
  prefix_len = refl;
  counts = unfold big_endian in refl;
  some_body = omega arith;
  fits = omega arith;
}

abbrev key_bytes : List ℕ
key_bytes = 1 ∷ 1 ∷ 0 ∷ 1 ∷ 6 ∷ 0 ∷ 2 ∷ 101 ∷ 9 ∷ 0 ∷ 3 ∷ 65 ∷ 7 ∷ 8 ∷ []

abbrev key_packet : FrameBuffer
key_packet = fixed (record (new_frame key_bytes) { codec = video })

abbrev torn_packet : FrameBuffer
torn_packet = fixed (new_frame (2 ∷ 1 ∷ 0 ∷ 3 ∷ 65 ∷ 7 ∷ 8 ∷ 0 ∷ 9 ∷ 65 ∷ []))

abbrev key_tag : VideoTag
key_tag = record { read = 2; avpacket = 1; keyframe = 1; cts = pos 0 }

abbrev later_tag : VideoTag
later_tag = record { read = 2; avpacket = 1; keyframe = 2; cts = pos 0 }

abbrev args : ℕ → Args ℕ
args flag = record { avc = 2; sps_pps_flag = flag }

abbrev decoder : ℕ → H264Decoder ℕ
decoder flag = record { ch = some 4; args = some (args flag); sent = [] }

abbrev sets : List ℕ
sets = 0 ∷ 0 ∷ 0 ∷ 1 ∷ 103 ∷ 1 ∷ 0 ∷ 0 ∷ 0 ∷ 1 ∷ 104 ∷ []

write-key_example :
    H264.write avc (frame key_packet) (decoder 0)
    ≡ some (
        wrote 4
          (frames (pos 0) (pos 0) 1 (sei ∷ [])
            ++ fixed (video_frame (pos 0) (pos 0) 1 sets)
              ∷ frames (pos 0) (pos 0) 1 (idr ∷ slice ∷ []))
          (record (decoder 0) { args = some (args 1) }))
unfolding base bytes_of packet
write-key_example =
    write-key avc key_packet key_tag 4 (args 0) (decoder 0) refl refl refl refl (sei ∷ [])
      (slice ∷ []) idr 10 sets refl (sei-IsNalu, tt) (idr-IsNalu, (slice-IsNalu, tt)) refl
      (refl, tt) refl refl

-- A library whose tags are two bytes, and whose headers tell sizes below 4.
abbrev mpeg4 : Aac.Library ℕ
mpeg4 = record {
  zeroed = 0;
  aac_lc = 2;
  aac_44100 = 4;
  read_tag = λ bytes. elim bytes [
    | [] ↦ none
    | a ∷ [] ↦ none
    | a ∷ (b ∷ rest) ↦ some (record { read = 2; avpacket = b })
  ];
  load = λ bytes a. a;
  adts_save = λ a n bytes.
      if ltb n 4 then (pos 7, 255 ∷ 241 ∷ 0 ∷ 0 ∷ n ∷ 0 ∷ 0 ∷ 0 ∷ []) else (negsuc 0, bytes);
}

abbrev adts_header : ℕ → List ℕ
adts_header n = 255 ∷ 241 ∷ 0 ∷ 0 ∷ n ∷ 0 ∷ 0 ∷ []

abbrev config_packet : Tagged
config_packet = record {
  tag = record { read = 2; avpacket = 0 };
  buffer = create (175 ∷ 0 ∷ 18 ∷ 16 ∷ []);
}

abbrev aac_packet : Tagged
aac_packet = record {
  tag = record { read = 2; avpacket = 1 };
  buffer = create (175 ∷ 1 ∷ 33 ∷ 34 ∷ 35 ∷ []);
}

abbrev long_packet : Tagged
long_packet = record {
  tag = record { read = 2; avpacket = 1 };
  buffer = create (175 ∷ 1 ∷ 33 ∷ 34 ∷ 35 ∷ 36 ∷ []);
}

abbrev aac_decoder : Aac.AacDecoder ℕ
aac_decoder = record {
  ch = some 4;
  args = Aac.defaults mpeg4 (record {
    profile = 0;
    sampling_frequency_index = 0;
    channel_configuration = 0;
    channels = 0;
    sampling_frequency = 0;
    extension_frequency = 0;
    npce = 0;
    others = 0;
  });
  sent = [];
}

-- A library with doubles that are naturals: a text is one byte, and the metadata are the codes.
abbrev metadata : Metadata ℕ
metadata = record {
  audiocodecid = 10;
  audiodatarate = 0;
  audiosamplesize = 0;
  videocodecid = 7;
  videodatarate = 0;
  framerate = 25;
  height = 0;
  width = 0;
  duration = 0;
  filesize = 0;
}

abbrev amf : Amf ℕ
amf = record {
  amf_string = 2;
  read_string = λ bytes. elim bytes [
    | [] ↦ none
    | a ∷ rest ↦ some ((if a == 64 then "@setDataFrame" else "onMetaData"), rest)
  ];
  read_items = λ bytes. metadata;
  equals = λ a b. a == b;
  to_int64 = λ a. pos a;
  to_string = λ a. "";
}

abbrev fresh : Demuxer ℕ ℕ
fresh = record {
  ch = some 4;
  codec_cb = true;
  audio_decoder = none;
  video_decoder = none;
  outputs = [];
}

abbrev script_frame : FrameBuffer
script_frame = create (2 ∷ 64 ∷ 2 ∷ 111 ∷ 3 ∷ [])

abbrev header_frame : FrameBuffer
header_frame = fixed (record (new_frame (1 ∷ 0 ∷ 2 ∷ [])) { codec = video })

write_all-start_example :
    (d' : Demuxer ℕ ℕ) × (Publish.write_all amf avc mpeg4
        (frame script_frame ∷ frame header_frame ∷ frame key_packet ∷ [])
        fresh
      ≡ some d')
    × (d'.outputs
        ≡ on_codec h264 (some (video_option amf avc mpeg4 metadata))
          ∷ on_codec aac (some (audio_option amf avc mpeg4 metadata))
          ∷ map
              (λ u. to_channel 4 (frame u))
              (first_frames amf avc mpeg4 key_packet key_tag (sei ∷ []) (slice ∷ []) idr sets))
unfolding base bytes_of packet
write_all-start_example =
    write_all-start amf avc mpeg4 script_frame header_frame key_packet (3 ∷ []) 4 fresh
      (record { read = 2; avpacket = 0; keyframe = 1; cts = pos 0 }) key_tag (sei ∷ []) (slice ∷ [])
      idr 10 sets refl refl
      (record {
        is_script = refl;
        behind = _;
        behind_name = _;
        begins = refl;
        first_name = refl;
        second_name = refl;
      })
      refl refl refl refl refl refl refl refl refl refl (sei-IsNalu, tt)
      (idr-IsNalu, (slice-IsNalu, tt)) (refl, tt) refl refl
