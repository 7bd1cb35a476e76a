-- ===== src/Rtsp/Rtcp.antt =====
-- The framing of interleaved RTCP packets in rtsp_server_context.cc.
use simple_rtmp.Base.{
  ℕ, zero, suc, ◌+◌, ◌*◌, ◌≤◌, ◌<◌, ◌≡◌, refl, sym, ap, ◌∙◌, List, [], ◌∷◌, ◌++◌, map, append-nil,
  append_assoc, true, some, length, arith, length-append, take-length_append, drop-length_append,
  All,
}
use simple_rtmp.Base.Int.{ℤ, pos, negsuc}
use simple_rtmp.Frame.{
  Frame, FrameBuffer, fixed, bytes_of, size, base, on_base, empty, peek, erase, erase_bytes,
  append_frame,
}
use simple_rtmp.Rtsp.Parser.{Http}
use simple_rtmp.Rtsp.{
  RtspContext, Handler, Call, on_rtcp, parse_rtcp_message, parse_one, input_loop, input_frame,
}
use simple_rtmp.Rtsp.Transports.{Scanner}

-- An RTCP packet on an interleaved channel, its length in two bytes.
pub record Packet : Type 0 where
  pub channel : ℕ
  pub high : ℕ
  pub low : ℕ
  pub body : List ℕ

abbrev pub IsPacket : Packet → Type 0
IsPacket p = (length p.body ≡ p.high * 256 + p.low) × (12 ≤ length p.body)

abbrev pub encode : Packet → List ℕ
encode p = 36 ∷ p.channel ∷ p.high ∷ p.low ∷ p.body

unfoldable pub encode_all : List Packet → List ℕ
encode_all [] = []
encode_all (p ∷ ps) = encode p ++ encode_all ps

-- The beginning of a packet that is not all there.
abbrev pub IsPartial : List ℕ → Type 0
IsPartial [] = Unit
IsPartial (a ∷ []) = a ≡ 36
IsPartial (a ∷ (b ∷ [])) = a ≡ 36
IsPartial (a ∷ (b ∷ (x ∷ []))) = a ≡ 36
IsPartial (a ∷ (b ∷ (x ∷ (y ∷ bytes)))) =
    (a ≡ 36) × (12 ≤ x * 256 + y) × (length bytes < x * 256 + y)

abbrev pub call_of : Packet → Call
call_of p = on_rtcp p.channel p.body

module _ {P : Type 0} (http : Http P) (scan : Scanner) (h : Handler) where
  -- The context with these bytes in the cache.
  abbrev holding : RtspContext P → Frame → List ℕ → RtspContext P
  holding c fr bytes = record c { cache = fixed (record fr { payload = bytes }) }

  parse-packet :
      (p : Packet) (rest : List ℕ) (c : RtspContext P) (fr : Frame)
      → h.has_rtcp ≡ true
      → IsPacket p
      → parse_one http scan h (holding c fr (encode p ++ rest)) ≡ (
        pos (length p.body + 4),
        holding (record c { calls = c.calls ++ call_of p ∷ [] }) fr (encode p ++ rest),
      )
  unfolding parse_one parse_rtcp_message peek size base bytes_of
  parse-packet p rest c fr on (len, long) =
      ground (arith, on, len, long, length-append p.body rest, take-length_append p.body rest)

  parse-partial :
      (a : ℕ) (bytes : List ℕ) (c : RtspContext P) (fr : Frame)
      → IsPartial (a ∷ bytes)
      → parse_one http scan h (holding c fr (a ∷ bytes)) ≡ (negsuc 1, holding c fr (a ∷ bytes))
  unfolding parse_one parse_rtcp_message peek size base bytes_of
  parse-partial a [] c fr e = ground (arith, e)
  parse-partial a (b ∷ []) c fr e = ground (arith, e)
  parse-partial a (b ∷ (x ∷ [])) c fr e = ground (arith, e)
  parse-partial a (b ∷ (x ∷ (y ∷ bytes))) c fr (e, long, short) = ground (arith, e, long, short)

  loop-partial :
      (left : ℕ) (ret : ℤ) (a : ℕ) (bytes : List ℕ) (c : RtspContext P) (fr : Frame)
      → IsPartial (a ∷ bytes)
      → input_loop http scan h (suc left) ret (holding c fr (a ∷ bytes))
        ≡ some (pos 0, holding c fr (a ∷ bytes))
  unfolding input_loop empty base
  loop-partial left ret a bytes c fr part = ground (arith, parse-partial a bytes c fr part)

  loop-packet :
      (left : ℕ) (ret : ℤ) (p : Packet) (rest : List ℕ) (c : RtspContext P) (fr : Frame)
      → h.has_rtcp ≡ true
      → IsPacket p
      → input_loop http scan h (suc left) ret (holding c fr (encode p ++ rest))
        ≡ input_loop http scan h left
            (pos (length p.body + 4))
            (holding (record c { calls = c.calls ++ call_of p ∷ [] }) fr rest)
  unfolding input_loop empty base erase erase_bytes on_base
  loop-packet left ret p rest c fr on v = ground (
    arith,
    parse-packet p rest c fr on v,
    drop-length_append p.body rest,
    length-append p.body rest,
  )

  -- What a run over these packets and a beginning of a packet leaves.
  pub record Leaves (c d : RtspContext P) (ps : List Packet) (part : List ℕ) : Type 0 where
    pub calls_made : d.calls ≡ c.calls ++ map call_of ps
    pub cached : bytes_of d.cache ≡ part
    pub whole : (fr : Frame) × (d.cache ≡ fixed fr)

  loop-Leaves :
      (ps : List Packet) (part : List ℕ) (fuel k : ℕ) (c : RtspContext P) (fr : Frame)
      → h.has_rtcp ≡ true
      → All IsPacket ps
      → IsPartial part
      → length (encode_all ps ++ part) ≤ fuel
      → (r : ℕ) × (d : RtspContext P) × (input_loop http scan h fuel
            (pos k)
            (holding c fr (encode_all ps ++ part))
          ≡ some (pos r, d))
        × Leaves c d ps part
  unfolding input_loop empty base encode_all bytes_of
  loop-Leaves [] [] zero k c fr on vs part f = (
    k,
    holding c fr [],
    refl,
    record { calls_made = sym (append-nil c.calls); cached = refl; whole = (_, refl) },
  )
  loop-Leaves [] [] (suc fuel) k c fr on vs part f = (
    k,
    holding c fr [],
    refl,
    record { calls_made = sym (append-nil c.calls); cached = refl; whole = (_, refl) },
  )
  loop-Leaves [] (a ∷ bytes) zero k c fr on vs part f = absurd (omega arith)
  loop-Leaves [] (a ∷ bytes) (suc fuel) k c fr on vs part f = (
    0,
    holding c fr (a ∷ bytes),
    loop-partial fuel (pos k) a bytes c fr part,
    record { calls_made = sym (append-nil c.calls); cached = refl; whole = (_, refl) },
  )
  loop-Leaves (p ∷ ps) part zero k c fr on vs part_ok f = absurd (omega arith)
  loop-Leaves (p ∷ ps) part (suc fuel) k c fr on (v, vs) part_ok f =
      let next : RtspContext P = record c { calls = c.calls ++ call_of p ∷ [] } in
      let (r, d, q, l) = loop-Leaves ps part fuel (length p.body + 4) next fr on vs part_ok (
        omega (
          arith,
          f,
          length-append (encode_all ps) part,
          length-append p.body (encode_all ps),
          length-append (p.body ++ encode_all ps) part,
        )) in
      (
        r,
        d,
        ap (λ bytes. input_loop http scan h (suc fuel) (pos k) (holding c fr bytes))
              (append_assoc (encode p) (encode_all ps) part)
            ∙ loop-packet fuel (pos k) p (encode_all ps ++ part) c fr on v
            ∙ q,
        record {
          calls_made = l.calls_made ∙ append_assoc c.calls (call_of p ∷ []) (map call_of ps);
          cached = l.cached;
          whole = l.whole;
        },
      )

  -- Whatever reads RTCP packets come in: where the bytes kept from earlier reads and those of a frame
  -- are whole packets and perhaps the beginning of one, each of 12 bytes at least, a call of input does
  -- not fail, calls on_rtcp with each packet's channel and content, in order, and keeps the beginning.
  pub input-packets :
      (ps : List Packet) (part : List ℕ) (frame : FrameBuffer) (c : RtspContext P) (fr : Frame)
      → h.has_rtcp ≡ true
      → c.cache ≡ fixed fr
      → fr.payload ++ bytes_of frame ≡ encode_all ps ++ part
      → All IsPacket ps
      → IsPartial part
      → (r : ℕ) × (d : RtspContext P) × (input_frame http scan h frame c ≡ some (pos r, d))
        × Leaves c d ps part
  unfolding input_frame append_frame on_base base bytes_of
  input-packets ps part frame c fr on cached e vs part_ok =
      let joined = base (append_frame (some frame) (fixed fr)) in
      let (r, d, q, l) =
        loop-Leaves ps part (length (encode_all ps ++ part)) 0 c joined on vs part_ok
          (omega arith) in
      (
        r,
        d,
        ap
              (λ b.
                let x : RtspContext P = record c { cache = append_frame (some frame) b } in
                input_loop http scan h (length (bytes_of x.cache)) (pos 0) x)
              cached
            ∙ ap (λ bytes. input_loop http scan h (length bytes) (pos 0) (holding c joined bytes)) e
            ∙ q,
        l,
      )
