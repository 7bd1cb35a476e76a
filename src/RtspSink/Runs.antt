-- ===== src/RtspSink/Runs.antt =====
-- Concrete frames, and the theorems at concrete inputs.
use simple_rtmp.Base.{ℕ, ◌+◌, ◌≡◌, refl, List, [], ◌∷◌, none, some, arith, length}
use simple_rtmp.Codec.{video}
use simple_rtmp.Frame.{FrameBuffer, fixed, new_frame, bytes_of, base}
use simple_rtmp.Sink.{frame}
use simple_rtmp.Sink.Rtmp.Join.{received}
use simple_rtmp.RtspSink.Description.{
  audio_sdp, hex_6, hex_byte, hex_digit, profile_level_id, ascii,
}
use simple_rtmp.RtspSink.Read.{read_audio, read_audio-sdp}
use simple_rtmp.RtspSink.Track.{AudioTrack}
use simple_rtmp.RtspSink.{RtspSink, write}
use simple_rtmp.RtspSink.H264
use simple_rtmp.RtspSink.H264.{H264Encoder, RtpPacket, Rtp, h264_startcode, scan, new_encoder}
use simple_rtmp.RtspSink.Aac.{Mpeg4}
use simple_rtmp.RtspSink.Scan.{annex_b, remember_all, scan-annex_b}
use simple_rtmp.RtspSink.Pack.{to_signals}
use simple_rtmp.RtspSink.Fanout.{for_channel, write-fanout}

-- A packer that puts each frame into one packet and counts the frames.
abbrev one_packet : Rtp ℕ
one_packet = record {
  create = λ payload name ssrc. some 0;
  input = λ n bytes time.
      (n + 1, record { data_bytes = 128 ∷ bytes; timestamp = time; flags = 0 } ∷ []);
}

abbrev no_aac : Mpeg4 ℕ
no_aac = record {
  adts_load = λ bytes. none;
  sampling_frequency_index = λ k. k;
  channel_configuration = λ k. k;
  config_save = λ k. none;
  frequency_to = λ n. n;
}

abbrev sps : List ℕ
sps = 103 ∷ 66 ∷ 0 ∷ 30 ∷ []

abbrev pps : List ℕ
pps = 104 ∷ 206 ∷ []

abbrev sets_bytes : List ℕ
sets_bytes = 0 ∷ 0 ∷ 0 ∷ 1 ∷ 103 ∷ 66 ∷ 0 ∷ 30 ∷ 0 ∷ 0 ∷ 0 ∷ 1 ∷ 104 ∷ 206 ∷ []

abbrev sets_frame : FrameBuffer
sets_frame = fixed (record (new_frame sets_bytes) { media = video })

scan-annex_b_example :
    scan
      (length (annex_b (sps ∷ pps ∷ [])))
      (h264_startcode (annex_b (sps ∷ pps ∷ [])))
      (new_encoder {S = ℕ} 4082)
    ≡ some (record (new_encoder {S = ℕ} 4082) { sps = some sps; pps = some pps })
unfolding remember_all H264.remember new_encoder
scan-annex_b_example =
    scan-annex_b (sps ∷ pps ∷ []) (new_encoder {S = ℕ} 4082)
      ((refl, (refl, omega arith)), (omega arith, tt))

abbrev fresh : H264Encoder ℕ
fresh = record { sps = none; pps = none; track = none; ctx = none; counter = 4082; sent = [] }

abbrev running : H264Encoder ℕ
running = record fresh { ctx = some 5 }

abbrev playing : RtspSink ℕ
playing = record { chs = 3 ∷ 7 ∷ []; video_encoder = some running; audio_encoder = none; sent = [] }

write-fanout_example :
    (s' : RtspSink ℕ) × (write one_packet no_aac (frame sets_frame) playing ≡ some s')
    × (s'.chs ≡ 3 ∷ 7 ∷ [])
    × ((ch : ℕ)
        → received ch s'.sent
          ≡ for_channel ch (3 ∷ 7 ∷ []) (
              to_signals (record { data_bytes = 128 ∷ sets_bytes; timestamp = 0; flags = 0 } ∷ [])))
unfolding base bytes_of annex_b received
write-fanout_example =
    write-fanout one_packet no_aac sets_frame (sps ∷ pps ∷ []) 5 running playing refl
      ((refl, (refl, omega arith)), (omega arith, tt)) refl refl refl
      (omega arith, (omega arith, tt))

abbrev stereo : AudioTrack
stereo = record { cfg = 18 ∷ 16 ∷ []; sample_rate = 44100; channels = 2; ssrc = 4083 }

read_audio-sdp_example : read_audio (audio_sdp stereo) ≡ (44100, 2, 18 ∷ 16 ∷ [])
read_audio-sdp_example = read_audio-sdp stereo (omega arith)

-- The profile of a parameter set, and of one that is too short.
profile_printed : hex_6 (profile_level_id (103 ∷ 66 ∷ 192 ∷ 31 ∷ [])) ≡ ascii "42C01F"
unfolding hex_6 profile_level_id hex_byte hex_digit
profile_printed = refl

profile_short : hex_6 (profile_level_id (103 ∷ 66 ∷ [])) ≡ ascii "000000"
unfolding hex_6 profile_level_id hex_byte hex_digit
profile_short = refl
