-- ===== src/FlvSession/Read.antt =====
-- What a reader of an FLV stream finds in what a player's connection is written, channel_out in
-- flv_forward_session.cc.
use simple_rtmp.Base.{
  ℕ, ◌+◌, ◌^◌, ◌<◌, ◌≡◌, refl, sym, ap, ◌∙◌, List, [], ◌∷◌, ◌++◌, map, append_assoc, append-nil,
  true, false, Option, none, some, length, arith, length-append, All,
}
use simple_rtmp.Base.Int.{ℤ, pos, negsuc, to_u32}
use simple_rtmp.Frame.{FrameBuffer, create, bytes_of, size, pts}
use simple_rtmp.Sink.{frame}
use simple_rtmp.FlvSession.{
  Flv, written, FlvSession, make_flv_header, write, write_tag, channel_out,
}
use simple_rtmp.FlvSession.Tags.{
  Tag, Fields, read_stream, IsReader, sent_bytes, sent_bytes-append, tag_of, tag_bytes, all_bytes,
  same_text_refl, take-first, drop-first, IsTag, read_tags-bytes,
}

-- A frame whose size is that of its bytes and fits three bytes.
abbrev pub Fits : FrameBuffer → Type 0
Fits f = (size f ≡ length (bytes_of f)) × (length (bytes_of f) < 2 ^ 24)

to_u32_bound : (a : ℤ) → to_u32 a < 2 ^ 32
to_u32_bound (pos n) = omega arith
to_u32_bound (negsuc n) = omega arith

tag_of-IsTag : (flv : Flv) (f : FrameBuffer) → Fits f → IsTag flv (tag_of flv f)
tag_of-IsTag flv f (e, h) = (h, to_u32_bound (pts f), ground arith)

tags-IsTag :
    (flv : Flv) (fs : List FrameBuffer) → All Fits fs → All (IsTag flv) (map (tag_of flv) fs)
tags-IsTag flv [] vs = tt
tags-IsTag flv (f ∷ fs) (v, vs) = (tag_of-IsTag flv f v, tags-IsTag flv fs vs)

unfoldable pub channel_outs : Flv → List FrameBuffer → FlvSession → Option FlvSession
unfolding channel_out
channel_outs flv [] s = some s
channel_outs flv (f ∷ fs) s = elim (channel_out flv (frame f) s) [
  | none ↦ none
  | some s' ↦ channel_outs flv fs s'
]

module _ (flv : Flv) where
  -- A session that has its first frame behind it, and has written these bytes since.
  record Wrote (bytes : List ℕ) (s s' : FlvSession) : Type 0 where
    on_wire : sent_bytes s'.outputs ≡ sent_bytes s.outputs ++ bytes
    still_open : s'.conn ≡ true
    begun : s'.first_frame ≡ true

  write_tag-Wrote :
      (f : FrameBuffer) (s : FlvSession)
      → s.conn ≡ true
      → s.first_frame ≡ true
      → size f ≡ length (bytes_of f)
      → (s' : FlvSession) × (write_tag flv f s ≡ some s')
        × Wrote (tag_bytes flv (tag_of flv f) []) s s'
  unfolding write_tag write sent_bytes tag_bytes bytes_of
  write_tag-Wrote f s is_open begun sized =
      let t = tag_of flv f in
      let header = create (flv.tag_header (size f) t.type t.time) in
      let tail = create (flv.tag_size (size f + 11)) in
      let outs = written header ∷ written f ∷ written tail ∷ [] in
      (
        record s {
          outputs = ((s.outputs ++ written header ∷ []) ++ written f ∷ []) ++ written tail ∷ [];
        },
        ground (arith, is_open),
        record {
          on_wire =
              ap sent_bytes (
                append_assoc (s.outputs ++ written header ∷ []) (written f ∷ []) (written tail ∷ [])
                ∙ append_assoc s.outputs (written header ∷ []) (written f ∷ written tail ∷ []))
              ∙ sent_bytes-append s.outputs outs
              ∙ ap
                  (λ n.
                    sent_bytes s.outputs
                    ++ (flv.tag_header n t.type t.time
                        ++ (bytes_of f ++ (flv.tag_size (n + 11) ++ []))))
                  sized;
          still_open = is_open;
          begun = begun;
        },
      )

  all_bytes-cons :
      (t : Tag) (ts : List Tag) → tag_bytes flv t [] ++ all_bytes flv ts ≡ all_bytes flv (t ∷ ts)
  unfolding all_bytes tag_bytes
  all_bytes-cons t ts =
      let header = flv.tag_header (length t.body) t.type t.time in
      let tail = flv.tag_size (length t.body + 11) in
      append_assoc header (t.body ++ (tail ++ [])) (all_bytes flv ts)
      ∙ ap (◌++◌ header) (
          append_assoc t.body (tail ++ []) (all_bytes flv ts)
          ∙ ap (◌++◌ t.body) (append_assoc tail [] (all_bytes flv ts)))

  channel_outs-Wrote :
      (fs : List FrameBuffer) (s : FlvSession)
      → s.conn ≡ true
      → s.first_frame ≡ true
      → All Fits fs
      → (s' : FlvSession) × (channel_outs flv fs s ≡ some s')
        × Wrote (all_bytes flv (map (tag_of flv) fs)) s s'
  unfolding channel_outs channel_out all_bytes
  channel_outs-Wrote [] s is_open begun vs = (
    s,
    refl,
    record {
      on_wire = sym (append-nil (sent_bytes s.outputs));
      still_open = is_open;
      begun = begun;
    },
  )
  channel_outs-Wrote (f ∷ fs) s is_open begun ((sized, short), vs) =
      let (s1, q, w) = write_tag-Wrote f s is_open begun sized in
      let (s2, r, v) = channel_outs-Wrote fs s1 w.still_open w.begun vs in
      (
        s2,
        ground (arith, begun, q, r),
        record {
          on_wire =
              v.on_wire
              ∙ ap (λ bytes. bytes ++ all_bytes flv (map (tag_of flv) fs)) w.on_wire
              ∙ append_assoc (sent_bytes s.outputs) (tag_bytes flv (tag_of flv f) [])
                  (all_bytes flv (map (tag_of flv) fs))
              ∙ ap (◌++◌ (sent_bytes s.outputs))
                  (all_bytes-cons (tag_of flv f) (map (tag_of flv) fs));
          still_open = v.still_open;
          begun = v.begun;
        },
      )

read_stream-bytes :
    (flv : Flv) (fields : List ℕ → Fields) (ts : List Tag)
    → IsReader flv fields
    → All (IsTag flv) ts
    → read_stream flv fields ((flv.file_header ++ flv.tag_size 0) ++ all_bytes flv ts) ≡ some ts
unfolding read_stream
read_stream-bytes flv fields ts is_reader vs =
    let header = flv.file_header ++ flv.tag_size 0 in
    let thirteen : length header ≡ 13 = omega (
      arith,
      is_reader.file_len,
      is_reader.size_len 0,
      length-append flv.file_header (flv.tag_size 0),
    ) in
    let bytes = header ++ all_bytes flv ts in
    ground (
      arith,
      take-first 13 header (all_bytes flv ts) thirteen,
      drop-first 13 header (all_bytes flv ts) thirteen,
      same_text_refl header,
      read_tags-bytes flv fields is_reader ts (length bytes) vs
          (omega (arith, length-append header (all_bytes flv ts))),
    )

-- What a new session writes of frames is an FLV stream: a reader finds the file header once, and then a
-- tag for each frame, in order, of its kind, with its time and bytes and the right size behind it; the
-- session does not fault. There is a frame, the connection is open, a frame's size is that of its bytes,
-- which are fewer than 2 ^ 24, and the reader understands the library's headers.
pub channel_outs-read :
    (flv : Flv) (fields : List ℕ → Fields) (f : FrameBuffer) (fs : List FrameBuffer)
    (s : FlvSession)
    → IsReader flv fields
    → s.conn ≡ true
    → s.first_frame ≡ false
    → sent_bytes s.outputs ≡ []
    → All Fits (f ∷ fs)
    → (s' : FlvSession) × (channel_outs flv (f ∷ fs) s ≡ some s')
      × (read_stream flv fields (sent_bytes s'.outputs) ≡ some (map (tag_of flv) (f ∷ fs)))
unfolding channel_outs channel_out write sent_bytes bytes_of
channel_outs-read flv fields f fs s is_reader is_open fresh nothing vs =
    let header = make_flv_header flv in
    let s1 : FlvSession = record s {
      first_frame = true;
      outputs = s.outputs ++ written header ∷ [];
    } in
    let (s2, q, w) = channel_outs-Wrote flv (f ∷ fs) s1 is_open refl vs in
    (
      s2,
      ground (arith, fresh, is_open, q),
      ap (read_stream flv fields) (
            w.on_wire
            ∙ ap (λ bytes. bytes ++ all_bytes flv (map (tag_of flv) (f ∷ fs)))
                (sent_bytes-append s.outputs (written header ∷ [])
                  ∙ ap (λ bytes. bytes ++ (bytes_of header ++ [])) nothing
                  ∙ append-nil (bytes_of header)))
          ∙ read_stream-bytes flv fields (map (tag_of flv) (f ∷ fs)) is_reader
              (tags-IsTag flv (f ∷ fs) vs),
    )
