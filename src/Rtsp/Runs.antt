-- ===== src/Rtsp/Runs.antt =====
-- Concrete requests and packets, and the theorems at concrete inputs.
use simple_rtmp.Base.{ℕ, ◌≡◌, refl, List, [], ◌∷◌, ◌++◌, true, false, none, some, arith}
use simple_rtmp.Base.Int.{pos, ◌+ℤ◌}
use simple_rtmp.Rtsp.Parser.{
  header_field, header_value, headers_complete, Http, RtspParser, other, find, header, on_events,
}
use simple_rtmp.Rtsp.{Handler, RtspContext, input_frame}
use simple_rtmp.Rtsp.Transports.{Scanner, default_transport, parse_transport, rtp_avp_tcp}
use simple_rtmp.Rtsp.Rtcp.{Packet, encode_all, Leaves, input-packets}
use simple_rtmp.Frame.{FrameBuffer, create, new_frame, bytes_of}
use simple_rtmp.Rtsp.Headers.{Field, all_events, first_value, header-on_events}

-- An HTTP parser that has no state and reports nothing.
abbrev silent_http : Http ℕ
silent_http = record {
  init = 0;
  execute = λ s bytes. record { state = s; ok = true; events = []; consumed = 0 };
  parse_url = λ text. none;
}

abbrev idle : RtspParser ℕ
idle = record {
  complete = false;
  url_port = 0;
  field = [];
  value = [];
  url = [];
  url_schema = [];
  url_host = [];
  url_path = [];
  method = other;
  body = [];
  http = 0;
  headers = [];
}

-- Two fields, the first one in pieces, and the first one's name again.
abbrev three_fields : List Field
three_fields =
    record { start = 67 ∷ []; more = (83 ∷ []) ∷ []; values = (49 ∷ []) ∷ (50 ∷ []) ∷ [] }
    ∷ record { start = 65 ∷ []; more = []; values = (51 ∷ []) ∷ [] }
    ∷ record { start = 67 ∷ 83 ∷ []; more = []; values = (52 ∷ []) ∷ [] }
    ∷ []

header-on_events_example :
    header (on_events silent_http (all_events three_fields) idle) (67 ∷ 83 ∷ []) ≡ 49 ∷ 50 ∷ []
unfolding first_value
header-on_events_example =
    header-on_events silent_http three_fields idle (67 ∷ 83 ∷ []) refl refl refl
      ((refl, refl), ((refl, refl), ((refl, refl), tt)))

-- A field whose value is empty takes the next field's name into its own: neither is found.
merged :
    find
      (on_events silent_http
        (header_field (65 ∷ [])
          ∷ header_value []
          ∷ header_field (66 ∷ [])
          ∷ header_value (49 ∷ [])
          ∷ headers_complete
          ∷ [])
        idle).headers
      (66 ∷ [])
    ≡ none
unfolding find on_events
merged = refl

-- The numbers that sscanf would find are given.
abbrev fixed_scanner : Scanner
fixed_scanner = record { interleaved = λ t. pos 2 ∷ []; client_port = λ t. []; atoi = λ t. pos 0 }

tcp_transport :
    parse_transport fixed_scanner
      (rtp_avp_tcp ++ 59 ∷ 105 ∷ 110 ∷ 116 ∷ 101 ∷ 114 ∷ 108 ∷ 101 ∷ 97 ∷ 118 ∷ 101 ∷ 100 ∷ [])
    ≡ record default_transport { transport = 1; interleaved1 = pos 2; interleaved2 = pos 3 }
unfolding parse_transport ◌+ℤ◌
tcp_transport = refl

abbrev all_set : Handler
all_set = record {
  has_options = true;
  has_describe = true;
  has_setup = true;
  has_play = true;
  has_teardown = true;
  has_rtcp = true;
}

abbrev half_read : RtspContext ℕ
half_read = record { seq = pos 0; cache = create (36 ∷ 1 ∷ []); parser = idle; calls = [] }

abbrev twelve : List ℕ
twelve = 0 ∷ 1 ∷ 2 ∷ 3 ∷ 4 ∷ 5 ∷ 6 ∷ 7 ∷ 8 ∷ 9 ∷ 10 ∷ 11 ∷ []

abbrev two_packets : List Packet
two_packets =
    record { channel = 1; high = 0; low = 12; body = twelve }
    ∷ record { channel = 3; high = 0; low = 12; body = twelve }
    ∷ []

-- The first packet's length comes in the second read, which ends within a third packet.
abbrev second_read : FrameBuffer
second_read = create (0 ∷ 12 ∷ (twelve ++ 36 ∷ 3 ∷ 0 ∷ 12 ∷ (twelve ++ 36 ∷ 1 ∷ [])))

input-packets_example :
    (r : ℕ) × (d : RtspContext ℕ) × (input_frame silent_http fixed_scanner all_set second_read
        half_read
      ≡ some (pos r, d))
    × Leaves silent_http fixed_scanner all_set half_read d two_packets (36 ∷ 1 ∷ [])
input-packets_example =
    input-packets silent_http fixed_scanner all_set two_packets (36 ∷ 1 ∷ []) second_read half_read
      (new_frame (36 ∷ 1 ∷ [])) refl refl (unfold encode_all bytes_of in refl)
      ((refl, omega arith), ((refl, omega arith), tt)) refl
