-- ===== src/Rtsp/Headers.antt =====
-- What rtsp_parser.h keeps of the header fields, whatever pieces they come in.
use simple_rtmp.Base.{
  ◌≡◌, refl, sym, ap, ◌∙◌, List, [], ◌∷◌, ◌++◌, map, append-nil, append_assoc, true, false, Option,
  none, some, is_empty, if◌then◌else◌, arith, All, Option-cases, Bool-cases, inl, inr,
}
use simple_rtmp.Rtsp.Parser.{
  Text, same_text, Event, header_field, header_value, headers_complete, Http, RtspParser, find,
  emplace, on_header_field, on_headers_complete, on_event, on_events, header,
}

abbrev pub join : List Text → Text
join [] = []
join (t ∷ ts) = t ++ join ts

-- A header field as the HTTP parser reports it: its name, one piece at least, and its value.
pub record Field : Type 0 where
  pub start : Text
  pub more : List Text
  pub values : List Text

abbrev pub name_of : Field → Text
name_of f = f.start ++ join f.more

abbrev pub value_of : Field → Text
value_of f = join f.values

unfoldable pub events_of : Field → List Event
events_of f = header_field f.start ∷ (map header_field f.more ++ map header_value f.values)

unfoldable pub all_events : List Field → List Event
unfolding events_of
all_events [] = headers_complete ∷ []
all_events (f ∷ fs) = events_of f ++ all_events fs

abbrev pub IsFull : Field → Type 0
IsFull f = (is_empty (name_of f) ≡ false) × (is_empty (value_of f) ≡ false)

-- The value of the first field with this name, or the empty text.
unfoldable pub first_value : List Field → Text → Text
first_value [] key = []
first_value (f ∷ fs) key =
    let rest = first_value fs key in if same_text (name_of f) key then value_of f else rest

unfoldable IsClean : {P : Type 0} → RtspParser P → Type 0
IsClean p = (p.field ≡ []) × (p.value ≡ [])

unfoldable stored : List Field → List (Text × Text) → List (Text × Text)
unfolding emplace
stored [] headers = headers
stored (f ∷ fs) headers = stored fs (emplace (name_of f) (value_of f) headers)

module _ {P : Type 0} (http : Http P) where
  on_events-append :
      (xs ys : List Event) (p : RtspParser P)
      → on_events http (xs ++ ys) p ≡ on_events http ys (on_events http xs p)
  unfolding on_events
  on_events-append [] ys p = refl
  on_events-append (x ∷ xs) ys p = on_events-append xs ys (on_event http x p)

  name_step :
      (n : Text) (p : RtspParser P)
      → p.value ≡ []
      → on_header_field http n p ≡ record p { field = p.field ++ n }
  unfolding on_header_field
  name_step n p e = ground (arith, e)

  names_lem :
      (names : List Text) (p : RtspParser P)
      → p.value ≡ []
      → on_events http (map header_field names) p ≡ record p { field = p.field ++ join names }
  unfolding on_events on_event on_header_field
  names_lem [] p e = ap (λ t. record p { field = t }) (sym (append-nil p.field))
  names_lem (n ∷ names) p e =
      ap (on_events http (map header_field names)) (name_step n p e)
      ∙ names_lem names (record p { field = p.field ++ n }) e
      ∙ ap (λ t. record p { field = t }) (append_assoc p.field n (join names))

  values_lem :
      (values : List Text) (p : RtspParser P)
      → on_events http (map header_value values) p ≡ record p { value = p.value ++ join values }
  unfolding on_events on_event
  values_lem [] p = ap (λ t. record p { value = t }) (sym (append-nil p.value))
  values_lem (v ∷ values) p =
      values_lem values (record p { value = p.value ++ v })
      ∙ ap (λ t. record p { value = t }) (append_assoc p.value v (join values))

  -- A field from a state that holds no name and no value.
  field_lem :
      (f : Field) (p : RtspParser P)
      → IsClean p
      → on_events http (events_of f) p ≡ record p { field = name_of f; value = value_of f }
  unfolding events_of IsClean
  field_lem f p c =
      let named : RtspParser P = record p { field = name_of f } in
      on_events-append (map header_field (f.start ∷ f.more)) (map header_value f.values) p
      ∙ ap (on_events http (map header_value f.values))
          (names_lem (f.start ∷ f.more) p c.1 ∙ ap (λ t. record p { field = t ++ name_of f }) c.0)
      ∙ values_lem f.values named
      ∙ ap (λ t. record named { value = t ++ value_of f }) c.1

  -- What is put into the headers when the next name begins.
  abbrev flush : RtspParser P → RtspParser P
  flush p = record p { headers = emplace p.field p.value p.headers; field = []; value = [] }

  flush_step :
      (n : Text) (p : RtspParser P)
      → is_empty p.value ≡ false
      → on_header_field http n p ≡ record (flush p) { field = n }
  unfolding on_header_field
  flush_step n p e = ground (arith, e)

  flush_lem :
      (f : Field) (p : RtspParser P)
      → is_empty p.value ≡ false
      → on_events http (events_of f) p ≡ on_events http (events_of f) (flush p)
  unfolding events_of on_events on_event on_header_field
  flush_lem f p e =
      ap (on_events http (map header_field f.more ++ map header_value f.values))
        (flush_step f.start p e)

  flush_all :
      (f : Field) (fs : List Field) (p : RtspParser P)
      → is_empty p.value ≡ false
      → on_events http (all_events (f ∷ fs)) p ≡ on_events http (all_events (f ∷ fs)) (flush p)
  unfolding all_events
  flush_all f fs p e =
      on_events-append (events_of f) (all_events fs) p
      ∙ ap (on_events http (all_events fs)) (flush_lem f p e)
      ∙ sym (on_events-append (events_of f) (all_events fs) (flush p))

  complete_lem :
      (p : RtspParser P)
      → is_empty p.field ≡ false
      → (on_events http (headers_complete ∷ []) p).headers ≡ emplace p.field p.value p.headers
  unfolding on_events on_event on_headers_complete
  complete_lem p e = ground (arith, e)

  all_lem :
      (fs : List Field) (p : RtspParser P)
      → IsClean p
      → All IsFull fs
      → (on_events http (all_events fs) p).headers ≡ stored fs p.headers
  unfolding all_events stored IsClean on_events on_event on_headers_complete
  all_lem [] p c full = ground (arith, c)
  all_lem (f ∷ []) p c (full, rest) =
      let q : RtspParser P = record p { field = name_of f; value = value_of f } in
      ap (λ r. r.headers)
        (on_events-append (events_of f) (all_events []) p
          ∙ ap (on_events http (all_events [])) (field_lem f p c))
      ∙ complete_lem q full.0
  all_lem (f ∷ (g ∷ gs)) p c (full, rest) =
      let q : RtspParser P = record p { field = name_of f; value = value_of f } in
      ap (λ r. r.headers)
        (on_events-append (events_of f) (all_events (g ∷ gs)) p
          ∙ ap (on_events http (all_events (g ∷ gs))) (field_lem f p c)
          ∙ flush_all g gs q full.1)
      ∙ all_lem (g ∷ gs) (flush q) (refl, refl) rest

same_text_lem : (k key : Text) → same_text k key ≡ true → k ≡ key
same_text_lem [] [] e = refl
same_text_lem [] (b ∷ ys) e = ground (arith, e)
same_text_lem (a ∷ xs) [] e = ground (arith, e)
same_text_lem (a ∷ xs) (b ∷ ys) e = ground (arith, e, same_text_lem xs ys)

abbrev text_or : Option Text → Text → Text
text_or none other = other
text_or (some v) other = v

find-append :
    (hs : List (Text × Text)) (k v key o : Text)
    → text_or (find (hs ++ (k, v) ∷ []) key) o
      ≡ text_or (find hs key) (if same_text k key then v else o)
unfolding find
find-append [] k v key o = ground arith
find-append ((a, b) ∷ hs) k v key o = ground (arith, find-append hs k v key o)

find-emplace :
    (hs : List (Text × Text)) (k v key o : Text)
    → text_or (find (emplace k v hs) key) o
      ≡ text_or (find hs key) (if same_text k key then v else o)
unfolding emplace
find-emplace hs k v key o = elim (Option-cases (find hs k)) [
  | inl missing ↦ ground (arith, missing, find-append hs k v key o)
  | inr (w, found) ↦ elim (Bool-cases (same_text k key)) [
    | inl same ↦ ground (arith, found, same, ap (find hs) (same_text_lem k key same))
    | inr differs ↦ ground (arith, found, differs)
  ]
]

find-stored :
    (fs : List Field) (hs : List (Text × Text)) (key : Text)
    → text_or (find (stored fs hs) key) [] ≡ text_or (find hs key) (first_value fs key)
unfolding stored first_value
find-stored [] hs key = refl
find-stored (f ∷ fs) hs key =
    find-stored fs (emplace (name_of f) (value_of f) hs) key
    ∙ find-emplace hs (name_of f) (value_of f) key (first_value fs key)

-- After the events of the header fields of a request, reported in any pieces, and of their end, a
-- parser that held no name, value or headers answers for each key the value of the first field with
-- that name, and the empty text where there is none; no name and no value may be empty.
pub header-on_events :
    {P : Type 0} (http : Http P) (fs : List Field) (p : RtspParser P) (key : Text)
    → p.field ≡ []
    → p.value ≡ []
    → p.headers ≡ []
    → All IsFull fs
    → header (on_events http (all_events fs) p) key ≡ first_value fs key
unfolding header IsClean find
header-on_events {P = P} http fs p key f v none_yet full =
    answer (on_events http (all_events fs) p)
    ∙ ap (λ hs. text_or (find hs key) []) (all_lem http fs p (f, v) full ∙ ap (stored fs) none_yet)
    ∙ find-stored fs [] key
  where
    answer : (q : RtspParser P) → header q key ≡ text_or (find q.headers key) []
    answer q = ground arith
