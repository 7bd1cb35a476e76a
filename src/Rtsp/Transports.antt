-- ===== src/Rtsp/Transports.antt =====
-- parse_transport of rtsp_server_context.cc, which reads the value of a Transport header.
use simple_rtmp.Base.{
  ℕ, ◌+◌, ◌*◌, ◌/◌, ◌%◌, ◌^◌, List, [], ◌∷◌, Bool, true, false, ◌&&◌, ◌==◌, if◌then◌else◌,
}
use simple_rtmp.Base.Int.{ℤ, pos, negsuc, ◌+ℤ◌}
use simple_rtmp.Rtsp.Parser.{Text, same_text}

-- `struct rtsp_transport`: 0 is udp and unicast.
pub record Transport : Type 0 where
  pub transport : ℕ
  pub multicast : ℕ
  pub client_port1 : ℕ
  pub client_port2 : ℕ
  pub interleaved1 : ℤ
  pub interleaved2 : ℤ

abbrev pub default_transport : Transport
default_transport = record {
  transport = 0;
  multicast = 0;
  client_port1 = 0;
  client_port2 = 0;
  interleaved1 = negsuc 0;
  interleaved2 = negsuc 0;
}

-- The numbers that sscanf converts with `interleaved=%d-%d` and with `client_port=%hu-%hu`: none, the
-- first, or both; and atoi.
pub record Scanner : Type 0 where
  pub interleaved : Text → List ℤ
  pub client_port : Text → List ℕ
  pub atoi : Text → ℤ

-- The pieces between semicolons.
unfoldable pub split : Text → List Text
split [] = [] ∷ []
split (c ∷ text) =
    let rest = split text in
    if c == 59
    then [] ∷ rest
    else elim rest [ [] ↦ (c ∷ []) ∷ [] | token ∷ tokens ↦ (c ∷ token) ∷ tokens ]

abbrev pub starts_with : Text → Text → Bool
starts_with text [] = true
starts_with [] (p ∷ prefix) = false
starts_with (c ∷ text) (p ∷ prefix) = (c == p) && starts_with text prefix

-- `RTP/AVP/TCP`, `multicast`, `interleaved` and `client_port`.
abbrev pub rtp_avp_tcp : Text
rtp_avp_tcp = 82 ∷ 84 ∷ 80 ∷ 47 ∷ 65 ∷ 86 ∷ 80 ∷ 47 ∷ 84 ∷ 67 ∷ 80 ∷ []

abbrev pub multicast_text : Text
multicast_text = 109 ∷ 117 ∷ 108 ∷ 116 ∷ 105 ∷ 99 ∷ 97 ∷ 115 ∷ 116 ∷ []

abbrev pub interleaved_text : Text
interleaved_text = 105 ∷ 110 ∷ 116 ∷ 101 ∷ 114 ∷ 108 ∷ 101 ∷ 97 ∷ 118 ∷ 101 ∷ 100 ∷ []

abbrev pub client_port_text : Text
client_port_text = 99 ∷ 108 ∷ 105 ∷ 101 ∷ 110 ∷ 116 ∷ 95 ∷ 112 ∷ 111 ∷ 114 ∷ 116 ∷ []

unfoldable pub set_interleaved : List ℤ → Transport → Transport
set_interleaved (a ∷ (b ∷ rest)) t = record t { interleaved1 = a; interleaved2 = b }
set_interleaved (a ∷ []) t = record t { interleaved1 = a; interleaved2 = a +ℤ pos 1 }
set_interleaved [] t = t

-- A single port is made even.
unfoldable pub set_ports : List ℕ → Transport → Transport
set_ports (a ∷ (b ∷ rest)) t = record t { client_port1 = a; client_port2 = b }
set_ports (a ∷ []) t = record t {
  client_port1 = a / 2 * 2;
  client_port2 = (a / 2 * 2 + 1) % 2 ^ 16;
}
set_ports [] t = t

unfoldable pub read_token : Scanner → Text → Transport → Transport
unfolding set_interleaved set_ports
read_token scan token t =
    let t1 : Transport = if same_text token rtp_avp_tcp then record t { transport = 1 } else t in
    let t2 : Transport =
      if same_text token multicast_text then record t1 { multicast = 1 } else t1 in
    let t3 =
      if starts_with token interleaved_text
      then set_interleaved (scan.interleaved token) t2
      else t2 in
    if starts_with token client_port_text then set_ports (scan.client_port token) t3 else t3

unfoldable pub read_tokens : Scanner → List Text → Transport → Transport
unfolding read_token
read_tokens scan [] t = t
read_tokens scan (token ∷ tokens) t = read_tokens scan tokens (read_token scan token t)

unfoldable pub parse_transport : Scanner → Text → Transport
unfolding read_tokens split
parse_transport scan text = read_tokens scan (split text) default_transport
