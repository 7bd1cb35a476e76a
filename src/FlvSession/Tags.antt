-- ===== src/FlvSession/Tags.antt =====
-- The bytes that a player's connection is written of a series of frames, channel_out in
-- flv_forward_session.cc, and a reader of them.
use simple_rtmp.Base.{
  ℕ, zero, suc, ◌+◌, ◌^◌, ◌≤◌, ◌<◌, ◌≡◌, ◌⊎◌, refl, sym, ap, ◌∙◌, subst, List, [], ◌∷◌, ◌++◌,
  append_assoc, true, Option, none, some, length, take, drop, ◌==◌, if◌then◌else◌, arith,
  length-append, take-length_append, drop-length_append, All,
}
use simple_rtmp.Base.Int.{to_u32}
use simple_rtmp.Codec.{audio}
use simple_rtmp.Frame.{FrameBuffer, bytes_of, media, pts}
use simple_rtmp.Rtsp.Parser.{same_text}
use simple_rtmp.FlvSession.{Flv, Output, written}

-- A tag of an FLV stream.
pub record Tag : Type 0 where
  pub type : ℕ
  pub time : ℕ
  pub body : List ℕ

-- The fields of a tag's header: size, type and time.
abbrev pub Fields : Type 0
Fields = ℕ × ℕ × ℕ

-- The tag at the head and the bytes behind it: a header of 11 bytes, as many bytes as it says, and the
-- size of both in 4 bytes.
unfoldable pub next_tag : Flv → (List ℕ → Fields) → List ℕ → Option (Tag × List ℕ)
next_tag flv fields bytes =
    let (n, type, time) = fields (take 11 bytes) in
    let behind = drop 11 bytes in
    if same_text (take 4 (drop n behind)) (flv.tag_size (n + 11))
    then some (record { type = type; time = time; body = take n behind }, drop 4 (drop n behind))
    else none

unfoldable pub read_tags : Flv → (List ℕ → Fields) → ℕ → List ℕ → Option (List Tag)
unfolding next_tag
read_tags flv fields fuel [] = some []
read_tags flv fields zero (b ∷ bytes) = none
read_tags flv fields (suc fuel) (b ∷ bytes) = elim (next_tag flv fields (b ∷ bytes)) [
  | none ↦ none
  | some (t, rest) ↦ elim (read_tags flv fields fuel rest) [ none ↦ none | some ts ↦ some (t ∷ ts) ]
]

-- A reader of a stream: the file header with a size of 0, and tags.
unfoldable pub read_stream : Flv → (List ℕ → Fields) → List ℕ → Option (List Tag)
unfolding read_tags
read_stream flv fields bytes =
    if same_text (take 13 bytes) (flv.file_header ++ flv.tag_size 0)
    then read_tags flv fields (length bytes) (drop 13 bytes)
    else none

-- What the library's functions write: a header of 11 bytes that the reader understands, a file header
-- of 9 bytes and a size of 4.
pub record IsReader (flv : Flv) (fields : List ℕ → Fields) : Type 0 where
  pub file_len : length flv.file_header ≡ 9
  pub size_len : (n : ℕ) → length (flv.tag_size n) ≡ 4
  pub header_len : (n type time : ℕ) → length (flv.tag_header n type time) ≡ 11
  pub reads :
      (n type time : ℕ)
      → n < 2 ^ 24
      → time < 2 ^ 32
      → (type ≡ flv.type_audio) ⊎ (type ≡ flv.type_video)
      → fields (flv.tag_header n type time) ≡ (n, type, time)

unfoldable pub sent_bytes : List Output → List ℕ
unfolding bytes_of
sent_bytes [] = []
sent_bytes (written f ∷ outputs) = bytes_of f ++ sent_bytes outputs
sent_bytes (o ∷ outputs) = sent_bytes outputs

pub sent_bytes-append :
    (xs ys : List Output) → sent_bytes (xs ++ ys) ≡ sent_bytes xs ++ sent_bytes ys
unfolding sent_bytes
sent_bytes-append [] ys = refl
sent_bytes-append (written f ∷ xs) ys =
    ap (◌++◌ (bytes_of f)) (sent_bytes-append xs ys)
    ∙ sym (append_assoc (bytes_of f) (sent_bytes xs) (sent_bytes ys))
sent_bytes-append (Output.channel_added k ∷ xs) ys = sent_bytes-append xs ys
sent_bytes-append (Output.channel_deleted k ∷ xs) ys = sent_bytes-append xs ys
sent_bytes-append (Output.shutdown_posted ∷ xs) ys = sent_bytes-append xs ys
sent_bytes-append (Output.conn_started ∷ xs) ys = sent_bytes-append xs ys
sent_bytes-append (Output.conn_shutdown ∷ xs) ys = sent_bytes-append xs ys

-- A frame's tag.
abbrev pub tag_of : Flv → FrameBuffer → Tag
tag_of flv f = record {
  type = if media f == audio then flv.type_audio else flv.type_video;
  time = to_u32 (pts f);
  body = bytes_of f;
}

-- The bytes of a tag in front of others.
unfoldable pub tag_bytes : Flv → Tag → List ℕ → List ℕ
tag_bytes flv t rest =
    flv.tag_header (length t.body) t.type t.time
    ++ (t.body ++ (flv.tag_size (length t.body + 11) ++ rest))

unfoldable pub all_bytes : Flv → List Tag → List ℕ
unfolding tag_bytes
all_bytes flv [] = []
all_bytes flv (t ∷ ts) = tag_bytes flv t (all_bytes flv ts)

pub same_text_refl : (xs : List ℕ) → same_text xs xs ≡ true
same_text_refl [] = refl
same_text_refl (x ∷ xs) = ground (arith, same_text_refl xs)

pub take-first : (n : ℕ) (xs ys : List ℕ) → length xs ≡ n → take n (xs ++ ys) ≡ xs
take-first n xs ys e = subst (λ k. take k (xs ++ ys) ≡ xs) e (take-length_append xs ys)

pub drop-first : (n : ℕ) (xs ys : List ℕ) → length xs ≡ n → drop n (xs ++ ys) ≡ ys
drop-first n xs ys e = subst (λ k. drop k (xs ++ ys) ≡ ys) e (drop-length_append xs ys)

-- A tag that its header can say.
abbrev pub IsTag : Flv → Tag → Type 0
IsTag flv t =
    (length t.body < 2 ^ 24)
    × (t.time < 2 ^ 32)
    × ((t.type ≡ flv.type_audio) ⊎ (t.type ≡ flv.type_video))

module _ (flv : Flv) (fields : List ℕ → Fields) (is_reader : IsReader flv fields) where
  long : (t : Tag) (rest : List ℕ) → 11 + length rest ≤ length (tag_bytes flv t rest)
  unfolding tag_bytes
  long t rest =
      let n = length t.body in
      omega (
        arith,
        is_reader.header_len n t.type t.time,
        length-append (flv.tag_header n t.type t.time) (t.body ++ (flv.tag_size (n + 11) ++ rest)),
        length-append t.body (flv.tag_size (n + 11) ++ rest),
        length-append (flv.tag_size (n + 11)) rest,
      )

  next_tag-tag :
      (t : Tag) (rest : List ℕ)
      → IsTag flv t
      → next_tag flv fields (tag_bytes flv t rest) ≡ some (t, rest)
  unfolding next_tag tag_bytes
  next_tag-tag t rest (short, early, kind) =
      let n = length t.body in
      let tail = flv.tag_size (n + 11) in
      let header = flv.tag_header n t.type t.time in
      let head : take 11 (header ++ (t.body ++ (tail ++ rest))) ≡ header =
        take-first 11 header (t.body ++ (tail ++ rest)) (is_reader.header_len n t.type t.time) in
      let behind : drop 11 (header ++ (t.body ++ (tail ++ rest))) ≡ t.body ++ (tail ++ rest) =
        drop-first 11 header (t.body ++ (tail ++ rest)) (is_reader.header_len n t.type t.time) in
      let said = ap fields head ∙ is_reader.reads n t.type t.time short early kind in
      ground (
        arith,
        said,
        behind,
        take-length_append t.body (tail ++ rest),
        drop-length_append t.body (tail ++ rest),
        take-first 4 tail rest (is_reader.size_len (n + 11)),
        drop-first 4 tail rest (is_reader.size_len (n + 11)),
        same_text_refl tail,
      )

  read_tags-next :
      (fuel : ℕ) (bytes rest : List ℕ) (t : Tag) (ts : List Tag)
      → 0 < length bytes
      → next_tag flv fields bytes ≡ some (t, rest)
      → read_tags flv fields fuel rest ≡ some ts
      → read_tags flv fields (suc fuel) bytes ≡ some (t ∷ ts)
  unfolding read_tags
  read_tags-next fuel [] rest t ts h q r = absurd (omega (arith, h))
  read_tags-next fuel (b ∷ bytes) rest t ts h q r = ground (arith, q, r)

  pub read_tags-bytes :
      (ts : List Tag) (fuel : ℕ)
      → All (IsTag flv) ts
      → length (all_bytes flv ts) ≤ fuel
      → read_tags flv fields fuel (all_bytes flv ts) ≡ some ts
  unfolding all_bytes tag_bytes read_tags
  read_tags-bytes [] fuel vs h = refl
  read_tags-bytes (t ∷ ts) zero (v, vs) h = absurd (omega (arith, h, long t (all_bytes flv ts)))
  read_tags-bytes (t ∷ ts) (suc fuel) (v, vs) h =
      read_tags-next fuel (tag_bytes flv t (all_bytes flv ts)) (all_bytes flv ts) t ts
        (omega (arith, long t (all_bytes flv ts))) (next_tag-tag t (all_bytes flv ts) v)
        (read_tags-bytes ts fuel vs (omega (arith, h, long t (all_bytes flv ts))))
