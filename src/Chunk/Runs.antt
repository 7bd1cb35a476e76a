-- ===== src/Chunk/Runs.antt =====
-- Concrete messages as chunks, and the theorems at concrete inputs.
use simple_rtmp.Base.{ℕ, ◌≡◌, ◌≢◌, refl, List, [], ◌∷◌, map, some, set, take, arith}
use simple_rtmp.Base.Int.{pos}
use simple_rtmp.Frame.{FrameBuffer, create, bytes_of}
use simple_rtmp.Chunk.{
  type_0, type_1, type_2, type_3, Header, Packet, Writers, Written, first_header, next_header,
  minus_einval, write_zipped, rtmp_packet_find_help, rtmp_chunk_header_zip_help,
  rtmp_chunk_write_help,
}
use simple_rtmp.Chunk.Receiver.{message_of, receive, wire_of}
use simple_rtmp.Chunk.Refused.{refused_desync}
use simple_rtmp.Chunk.Stream.{zip_all, hear_all, fresh_slot, silent, fresh-InTune, hear_all-zip_all}
use simple_rtmp.Chunk.Pieces.{heads, sizes, joined, IsFilled, headed, write_help_sends}

-- Header bytes that show what they are made of.
abbrev plain : Writers
plain = record {
  basic_header = λ t cid. cid ∷ [];
  message_header = λ h. h.length ∷ h.type ∷ [];
  extended_timestamp = λ t. t ∷ [];
}

abbrev slots : List Packet
slots = map fresh_slot (0 ∷ 0 ∷ 2 ∷ 3 ∷ 4 ∷ 5 ∷ 0 ∷ 0 ∷ [])

abbrev audio_message : ℕ → ℕ → Header
audio_message time n = record {
  fmt = type_1;
  cid = 4;
  timestamp = time;
  length = n;
  type = 8;
  stream_id = 1;
}

abbrev video_message : ℕ → ℕ → Header
video_message time n = record {
  fmt = type_1;
  cid = 5;
  timestamp = time;
  length = n;
  type = 9;
  stream_id = 1;
}

-- The second audio message differs in time alone, and the third comes after the same difference.
abbrev four_messages : List Header
four_messages =
    audio_message 10 3 ∷ video_message 10 5 ∷ audio_message 30 3 ∷ audio_message 50 3 ∷ []

abbrev four_headers : List Header
four_headers =
    record (audio_message 10 3) { fmt = type_0 }
    ∷ record (video_message 10 5) { fmt = type_0 }
    ∷ record (audio_message 20 3) { fmt = type_2 }
    ∷ record (audio_message 20 3) { fmt = type_3 }
    ∷ []

four_sent : zip_all slots four_messages ≡ some four_headers
unfolding zip_all rtmp_chunk_header_zip_help
four_sent = refl

hear_all-zip_all_example : hear_all (λ _. silent) four_headers ≡ map message_of four_messages
hear_all-zip_all_example =
    hear_all-zip_all four_messages slots (λ _. silent) four_headers
      (fresh-InTune (0 ∷ 0 ∷ 2 ∷ 3 ∷ 4 ∷ 5 ∷ 0 ∷ 0 ∷ [])) (omega arith) four_sent

abbrev seven_bytes : FrameBuffer
seven_bytes = create (1 ∷ 2 ∷ 3 ∷ 4 ∷ 5 ∷ 6 ∷ 7 ∷ [])

abbrev sent_audio : Header
sent_audio = record (audio_message 10 7) { fmt = type_0 }

abbrev after_audio : List Packet
after_audio =
    fresh_slot 0
    ∷ fresh_slot 0
    ∷ fresh_slot 2
    ∷ fresh_slot 3
    ∷ record { header = sent_audio; clock = 10 }
    ∷ fresh_slot 5
    ∷ fresh_slot 0
    ∷ fresh_slot 0
    ∷ []

audio_zipped :
    rtmp_chunk_header_zip_help slots (audio_message 10 7) ≡ some (sent_audio, after_audio)
unfolding rtmp_chunk_header_zip_help
audio_zipped = refl

write_help_sends_example :
    (sent : List FrameBuffer) × (rtmp_chunk_write_help plain 3 slots
        (audio_message 10 7)
        seven_bytes
      ≡ some (record { result = pos 0; sent = sent; table = after_audio }))
    × (joined sent ≡ take 7 (bytes_of seven_bytes))
    × IsFilled 3 (sizes sent)
    × (heads sent
        ≡ headed (first_header plain sent_audio) (next_header plain sent_audio) (sizes sent))
write_help_sends_example =
    write_help_sends plain 3 slots (audio_message 10 7) seven_bytes sent_audio after_audio
      audio_zipped (omega arith) (omega arith)

abbrev huge_message : Header
huge_message = video_message 40 0x1000000

abbrev after_huge : List Packet
after_huge =
    fresh_slot 0
    ∷ fresh_slot 0
    ∷ fresh_slot 2
    ∷ fresh_slot 3
    ∷ fresh_slot 4
    ∷ record { header = record huge_message { fmt = type_0 }; clock = 40 }
    ∷ fresh_slot 0
    ∷ fresh_slot 0
    ∷ []

abbrev huge_written : Written
huge_written = record { result = minus_einval; sent = []; table = after_huge }

-- The refused call leaves the table as if the message had been sent.
huge_refused : rtmp_chunk_write_help plain 3 slots huge_message seven_bytes ≡ some huge_written
unfolding rtmp_chunk_write_help rtmp_chunk_header_zip_help write_zipped
huge_refused = refl

abbrev late_header : Header
late_header = record (video_message 20 5) { fmt = type_1 }

late_zipped :
    rtmp_chunk_header_zip_help after_huge (video_message 60 5)
    ≡ some (late_header, set after_huge 5 (record { header = late_header; clock = 60 }))
unfolding rtmp_chunk_header_zip_help
late_zipped = refl

refused_desync_example :
    (huge_written.result ≡ minus_einval)
    × (huge_written.sent ≡ [])
    × ((receive (wire_of late_header) silent).clock ≢ 60)
refused_desync_example =
    refused_desync plain 3 slots huge_message (video_message 60 5) seven_bytes 5 silent huge_written
      (late_header, set after_huge 5 (record { header = late_header; clock = 60 }))
      (unfold rtmp_packet_find_help in refl)
      (record { clock = refl; delta = refl; size = refl; type = refl; stream_id = refl })
      huge_refused late_zipped (omega arith) (omega arith) refl refl refl (omega arith)
      (omega arith) (omega arith) (omega arith)
