-- ===== src/Rtsp/Parser.antt =====
-- rtsp_parser.h: what is kept of the events that the HTTP parser reports for the bytes it is given.
-- The HTTP parser's own state is P. A callback only changes the record.
use simple_rtmp.Base.{
  ℕ, List, [], ◌∷◌, ◌++◌, Bool, true, false, not, ◌&&◌, Option, none, some, is_empty, ◌==◌,
  if◌then◌else◌,
}
use simple_rtmp.Base.Int.{ℤ, pos, negsuc}

abbrev pub Text : Type 0
Text = List ℕ

abbrev pub same_text : Text → Text → Bool
same_text [] [] = true
same_text (a ∷ xs) (b ∷ ys) = (a == b) && same_text xs ys
same_text _ _ = false

-- What http_method_str names, as far as the server asks.
pub data Method : Type 0 where
  options describe setup play teardown other : Method

-- The parts of a URL that http_parser_parse_url finds; the port is a number already.
pub record Url : Type 0 where
  pub schema : Option Text
  pub host : Option Text
  pub path : Option Text
  pub port : Option ℕ

pub data Event : Type 0 where
  message_begin : Event
  on_url : Text → Event
  header_field : Text → Event
  header_value : Text → Event
  headers_complete : Event
  on_body : Text → Event
  message_complete : Method → Event

-- http_parser_execute: the new state, whether there was no error, the events and the bytes consumed.
pub record Executed (P : Type 0) : Type 0 where
  pub state : P
  pub ok : Bool
  pub events : List Event
  pub consumed : ℕ

pub record Http (P : Type 0) : Type 0 where
  pub init : P
  pub execute : P → List ℕ → Executed P
  pub parse_url : Text → Option Url

pub record RtspParser (P : Type 0) : Type 0 where
  pub complete : Bool
  pub url_port : ℕ
  pub field : Text
  pub value : Text
  pub url : Text
  pub url_schema : Text
  pub url_host : Text
  pub url_path : Text
  pub method : Method
  pub body : Text
  pub http : P
  pub headers : List (Text × Text)

unfoldable pub find : List (Text × Text) → Text → Option Text
find [] key = none
find ((k, v) ∷ rest) key = let found = find rest key in if same_text k key then some v else found

-- `emplace` keeps a value that is there.
unfoldable pub emplace : Text → Text → List (Text × Text) → List (Text × Text)
unfolding find
emplace key value headers = elim (find headers key) [
  | none ↦ headers ++ (key, value) ∷ []
  | some v ↦ headers
]

-- update_url_field.
abbrev pub update_url_field : {A : Type 0} → Option A → A → A
update_url_field none value = value
update_url_field (some new) value = new

module _ {P : Type 0} (http : Http P) where
  unfoldable pub on_url_text : Text → RtspParser P → RtspParser P
  on_url_text text p =
      let q : RtspParser P = record p { url = p.url ++ text } in
      elim (http.parse_url text) [
        | none ↦ q
        | some parts ↦ record q {
          url_schema = update_url_field parts.schema q.url_schema;
          url_host = update_url_field parts.host q.url_host;
          url_path = update_url_field parts.path q.url_path;
          url_port = update_url_field parts.port q.url_port;
        }
      ]

  unfoldable pub on_header_field : Text → RtspParser P → RtspParser P
  unfolding emplace
  on_header_field text p =
      if is_empty p.value
      then record p { field = p.field ++ text }
      else record p { headers = emplace p.field p.value p.headers; field = text; value = [] }

  unfoldable pub on_headers_complete : RtspParser P → RtspParser P
  unfolding emplace
  on_headers_complete p =
      if is_empty p.field then p else record p { headers = emplace p.field p.value p.headers }

  unfoldable pub on_event : Event → RtspParser P → RtspParser P
  unfolding on_url_text on_header_field on_headers_complete
  on_event message_begin p = p
  on_event (on_url text) p = on_url_text text p
  on_event (header_field text) p = on_header_field text p
  on_event (header_value text) p = record p { value = p.value ++ text }
  on_event headers_complete p = on_headers_complete p
  on_event (on_body text) p = record p { body = p.body ++ text }
  on_event (message_complete m) p = record p { complete = true; method = m }

  unfoldable pub on_events : List Event → RtspParser P → RtspParser P
  unfolding on_event
  on_events [] p = p
  on_events (e ∷ es) p = on_events es (on_event e p)

  -- -1 for an error and -2 for a message that is not complete.
  unfoldable pub input : List ℕ → RtspParser P → ℤ × RtspParser P
  unfolding on_events
  input bytes p =
      let x = http.execute p.http bytes in
      let q = on_events x.events (record p { http = x.state }) in
      if not x.ok
      then (negsuc 0, q)
      else if not q.complete
      then (negsuc 1, q)
      else (pos x.consumed, q)

  -- The body, the method and the parts of the URL stay.
  unfoldable pub reset : RtspParser P → RtspParser P
  reset p = record p {
    http = http.init;
    field = [];
    value = [];
    headers = [];
    url = [];
    complete = false;
  }

unfoldable pub header : {P : Type 0} → RtspParser P → Text → Text
unfolding find
header p key = elim (find p.headers key) [ none ↦ [] | some v ↦ v ]
