-- ===== src/RtspSink/Scan.antt =====
-- The search for the units of a frame, rtsp_h264_encoder.cc.
use simple_rtmp.Base.{
  ℕ, zero, suc, ◌+◌, ◌-◌, ◌≤◌, ◌<◌, ◌≡◌, refl, ap, ◌∙◌, List, [], ◌∷◌, ◌++◌, false, ◌&&◌, none,
  some, length, take, ◌==◌, arith, All, length-append, append-nil,
}
use simple_rtmp.RtspSink.H264.{H264Encoder, h264_startcode, strip_zeros, unit_at, remember, scan}

-- A unit: bytes that do not end in 0 and have no start code among them.
abbrev pub IsUnit : List ℕ → Type 0
IsUnit [] = 1 ≤ 0
IsUnit (a ∷ []) = 0 < a
IsUnit (a ∷ (b ∷ [])) = 0 < b
IsUnit (a ∷ (b ∷ (c ∷ u))) = ((c == 1 && (b == 0 && a == 0)) ≡ false) × IsUnit (b ∷ (c ∷ u))

-- Units, each behind a start code of four bytes.
unfoldable pub annex_b : List (List ℕ) → List ℕ
annex_b [] = []
annex_b (u ∷ us) = 0 ∷ (0 ∷ (0 ∷ (1 ∷ (u ++ annex_b us))))

startcode-behind :
    (u : List ℕ) (d : ℕ) (rest : List ℕ)
    → IsUnit u
    → h264_startcode (u ++ 0 ∷ (0 ∷ (0 ∷ (1 ∷ (d ∷ rest))))) ≡ some (d ∷ rest)
unfolding h264_startcode
startcode-behind [] d rest v = absurd (omega (arith, v))
startcode-behind (a ∷ []) d rest v = refl
startcode-behind (a ∷ (b ∷ [])) d rest v = refl
startcode-behind (a ∷ (b ∷ (c ∷ u))) d rest (none_here, v) =
    ground (arith, none_here, startcode-behind (b ∷ (c ∷ u)) d rest v)

startcode-none : (u : List ℕ) → IsUnit u → h264_startcode u ≡ none
unfolding h264_startcode
startcode-none [] v = refl
startcode-none (a ∷ []) v = refl
startcode-none (a ∷ (b ∷ [])) v = refl
startcode-none (a ∷ (b ∷ (c ∷ u))) (none_here, v) =
    ground (arith, none_here, startcode-none (b ∷ (c ∷ u)) v)

strip-unit : (u : List ℕ) → IsUnit u → strip_zeros u ≡ u
unfolding strip_zeros
strip-unit [] v = refl
strip-unit (a ∷ []) v = ground (arith, v)
strip-unit (a ∷ (b ∷ [])) v = ground (arith, v)
strip-unit (a ∷ (b ∷ (c ∷ u))) (none_here, v) = ground (arith, strip-unit (b ∷ (c ∷ u)) v)

strip-zero : (u : List ℕ) → IsUnit u → strip_zeros (u ++ 0 ∷ []) ≡ u
unfolding strip_zeros
strip-zero [] v = absurd (omega (arith, v))
strip-zero (a ∷ []) v = ground (arith, v)
strip-zero (a ∷ (b ∷ [])) v = ground (arith, v)
strip-zero (a ∷ (b ∷ (c ∷ u))) (none_here, v) = ground (arith, strip-zero (b ∷ (c ∷ u)) v)

unit_at-last : (u : List ℕ) → IsUnit u → unit_at u ≡ u
unfolding unit_at
unit_at-last u v = ground (arith, startcode-none u v, strip-unit u v)

take-past : (u xs : List ℕ) (n : ℕ) → n ≡ length u + 1 → take n (u ++ 0 ∷ xs) ≡ u ++ 0 ∷ []
take-past [] xs (suc zero) e = refl
take-past [] xs zero e = absurd (omega arith)
take-past [] xs (suc (suc n)) e = absurd (omega arith)
take-past (x ∷ u) xs zero e = absurd (omega arith)
take-past (x ∷ u) xs (suc n) e = ap (◌∷◌ x) (take-past u xs n (omega arith))

unit_at-next :
    (u : List ℕ) (d : ℕ) (rest : List ℕ)
    → IsUnit u
    → unit_at (u ++ 0 ∷ (0 ∷ (0 ∷ (1 ∷ (d ∷ rest))))) ≡ u
unfolding unit_at
unit_at-next u d rest v =
    let n = length (u ++ 0 ∷ (0 ∷ (0 ∷ (1 ∷ (d ∷ rest))))) - length (d ∷ rest) - 3 in
    let cut =
      take-past u (0 ∷ (0 ∷ (1 ∷ (d ∷ rest)))) n
        (omega (arith, length-append u (0 ∷ (0 ∷ (0 ∷ (1 ∷ (d ∷ rest))))))) in
    ground (arith, startcode-behind u d rest v, cut, strip-zero u v)

startcode-first :
    (u bytes : List ℕ)
    → IsUnit u
    → h264_startcode (0 ∷ (0 ∷ (0 ∷ (1 ∷ (u ++ bytes))))) ≡ some (u ++ bytes)
unfolding h264_startcode
startcode-first [] bytes v = absurd (omega (arith, v))
startcode-first (a ∷ u) bytes v = refl

length-annex_b : (us : List (List ℕ)) → length us ≤ length (annex_b us)
unfolding annex_b
length-annex_b [] = omega arith
length-annex_b (u ∷ us) = omega (arith, length-annex_b us, length-append u (annex_b us))

module _ {S : Type 0} where
  abbrev pub remember_unit : List ℕ → H264Encoder S → H264Encoder S
  remember_unit [] e = e
  remember_unit (first ∷ u) e = remember first (first ∷ u) e

  unfoldable pub remember_all : List (List ℕ) → H264Encoder S → H264Encoder S
  remember_all [] e = e
  remember_all (u ∷ us) e = remember_all us (remember_unit u e)

  scan-step :
      (fuel : ℕ) (p u : List ℕ) (e : H264Encoder S)
      → IsUnit u
      → unit_at p ≡ u
      → scan (suc fuel) (some p) e ≡ scan fuel (h264_startcode p) (remember_unit u e)
  unfolding scan
  scan-step fuel p [] e v q = absurd (omega (arith, v))
  scan-step fuel p (first ∷ u) e v q = ground (arith, q)

  scan-units :
      (u : List ℕ) (us : List (List ℕ)) (fuel : ℕ) (e : H264Encoder S)
      → All IsUnit (u ∷ us)
      → length us < fuel
      → scan fuel (some (u ++ annex_b us)) e ≡ some (remember_all (u ∷ us) e)
  unfolding remember_all annex_b scan
  scan-units u us zero e vs f = absurd (omega arith)
  scan-units u [] (suc fuel) e (v, vs) f =
      ap (λ p. scan (suc fuel) (some p) e) (append-nil u)
      ∙ scan-step fuel u u e v (unit_at-last u v)
      ∙ ap (λ p. scan fuel p (remember_unit u e)) (startcode-none u v)
  scan-units u ([] ∷ us) (suc fuel) e (v, (w, vs)) f = absurd (omega (arith, w))
  scan-units u ((d ∷ w) ∷ us) (suc fuel) e (v, ws) f =
      scan-step fuel (u ++ annex_b ((d ∷ w) ∷ us)) u e v (unit_at-next u d (w ++ annex_b us) v)
      ∙ ap (λ p. scan fuel p (remember_unit u e)) (startcode-behind u d (w ++ annex_b us) v)
      ∙ scan-units (d ∷ w) us fuel (remember_unit u e) ws (omega arith)

  -- In a frame that consists of units, each behind a start code of four bytes, the encoder finds these
  -- units and no others, in order, where no unit ends in 0 or holds a start code.
  pub scan-annex_b :
      (us : List (List ℕ)) (e : H264Encoder S)
      → All IsUnit us
      → scan (length (annex_b us)) (h264_startcode (annex_b us)) e ≡ some (remember_all us e)
  unfolding annex_b remember_all scan h264_startcode
  scan-annex_b [] e vs = refl
  scan-annex_b (u ∷ us) e (v, vs) =
      ap (λ p. scan (length (annex_b (u ∷ us))) p e) (startcode-first u (annex_b us) v)
      ∙ scan-units u us (length (annex_b (u ∷ us))) e (v, vs)
          (omega (arith, length-annex_b us, length-append u (annex_b us)))
