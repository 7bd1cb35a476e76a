-- ===== src/Chunk/Lookup.antt =====
-- The search for a slot, and what a write to a slot does to later searches.
use simple_rtmp.Base.{
  ℕ, zero, suc, ◌+◌, ◌-◌, ◌%◌, ◌≤◌, ◌<◌, ◌≡◌, refl, sym, ap, ◌∙◌, List, [], ◌∷◌, none, some, length,
  set, ◌==◌, arith, length-set, Bool-cases, inl, inr, ◌≢◌, subst, ==_iff,
}
use native.Mathlib.Decide.{ℕ_discrete}
use native.Mathlib.Nat.{mod-add-mod, add-mod-mod, add-mod_right, mod-eq_of_lt}
use simple_rtmp.Chunk.{Packet, at, find_loop, rtmp_packet_find_help}

find_loop_sound :
    (left i cid : ℕ) (table : List Packet) (j : ℕ)
    → 0 < length table
    → find_loop left i cid table ≡ some j
    → (j < length table) × ((at table j).header.cid ≡ cid)
unfolding find_loop
find_loop_sound zero i cid table j pos e = cc
find_loop_sound (suc left) i cid table j pos e =
    elim (Bool-cases ((at table ((i + cid) % length table)).header.cid == cid)) [
      | inl hit ↦
          let q : (i + cid) % length table ≡ j = cc (rw hit at e) in
          (
            subst (λ m. m < length table) q (omega arith),
            subst (λ m. (at table m).header.cid ≡ cid) q ((==_iff _ cid).0 hit),
          )
      | inr miss ↦ find_loop_sound left (i + 1) cid table j pos (rw miss at e)
    ]

-- The search looks at the ids alone.
find_loop_ids :
    (left i cid : ℕ) (xs ys : List Packet)
    → length xs ≡ length ys
    → ((j : ℕ) → (at xs j).header.cid ≡ (at ys j).header.cid)
    → find_loop left i cid xs ≡ find_loop left i cid ys
unfolding find_loop
find_loop_ids zero i cid xs ys l same = refl
find_loop_ids (suc left) i cid xs ys l same =
    rw (l, same _, find_loop_ids left (i + 1) cid xs ys l same)

pub at-set_self : (xs : List Packet) (i : ℕ) (p : Packet) → i < length xs → at (set xs i p) i ≡ p
at-set_self [] i p h = elim h [ ]
at-set_self (x ∷ xs) zero p h = refl
at-set_self (x ∷ xs) (suc i) p h = at-set_self xs i p (omega arith)

pub at-set_ne : (xs : List Packet) (i j : ℕ) (p : Packet) → i ≢ j → at (set xs i p) j ≡ at xs j
at-set_ne [] i j p h = refl
at-set_ne (x ∷ xs) zero zero p h = absurd (h refl)
at-set_ne (x ∷ xs) zero (suc j) p h = refl
at-set_ne (x ∷ xs) (suc i) zero p h = refl
at-set_ne (x ∷ xs) (suc i) (suc j) p h = at-set_ne xs i j p (λ e. h (ap suc e))

at-set_ids :
    (xs : List Packet) (i : ℕ) (p : Packet)
    → p.header.cid ≡ (at xs i).header.cid
    → (j : ℕ) → (at (set xs i p) j).header.cid ≡ (at xs j).header.cid
at-set_ids [] i p e j = refl
at-set_ids (x ∷ xs) zero p e zero = e
at-set_ids (x ∷ xs) zero p e (suc j) = refl
at-set_ids (x ∷ xs) (suc i) p e zero = refl
at-set_ids (x ∷ xs) (suc i) p e (suc j) = at-set_ids xs i p e j

-- A slot that is found exists and has the id.
pub find_sound :
    (table : List Packet) (cid j : ℕ)
    → rtmp_packet_find_help table cid ≡ some j
    → (j < length table) × ((at table j).header.cid ≡ cid)
unfolding rtmp_packet_find_help
find_sound [] cid j e = cc
find_sound (p ∷ table) cid j e =
    find_loop_sound (length (p ∷ table)) 0 cid (p ∷ table) j (omega arith) e

-- Writing a packet of the same id to a slot changes no search.
pub find-set :
    (table : List Packet) (i : ℕ) (p : Packet) (cid : ℕ)
    → p.header.cid ≡ (at table i).header.cid
    → rtmp_packet_find_help (set table i p) cid ≡ rtmp_packet_find_help table cid
unfolding rtmp_packet_find_help
find-set table i p cid e = rw (length-set table i p) (
    find_loop_ids (length table) 0 cid (set table i p) table (length-set table i p)
      (at-set_ids table i p e))

-- A slot that the search visits: the rounds left reach it.
find_loop_complete :
    (left i cid : ℕ) (table : List Packet)
    → find_loop left i cid table ≡ none
    → (k : ℕ) → i ≤ k
    → k < i + left
    → (at table ((k + cid) % length table)).header.cid ≢ cid
unfolding find_loop
find_loop_complete zero i cid table e k lo hi = absurd (omega arith)
find_loop_complete (suc left) i cid table e k lo hi =
    elim (Bool-cases ((at table ((i + cid) % length table)).header.cid == cid)) [
      | inl hit ↦ cc (rw hit at e)
      | inr miss ↦ elim (ℕ_discrete i k) [
        | yes same ↦
            subst (λ m. (at table ((m + cid) % length table)).header.cid ≢ cid) same
              (λ q. cc ((==_iff _ cid).1 q, miss))
        | no other ↦
            find_loop_complete left (i + 1) cid table (rw miss at e) k (omega arith) (omega arith)
      ]
    ]

-- The round of the search in which it comes to the slot `j`.
round_of : ℕ → ℕ → ℕ → ℕ
round_of n cid j = (j + (n - cid % n)) % n

round_of_lem : (n cid j : ℕ) → j < n → (round_of n cid j + cid) % n ≡ j
unfolding round_of
round_of_lem n cid j h =
    mod-add-mod (j + (n - cid % n)) n cid
    ∙ sym (add-mod-mod (j + (n - cid % n)) cid n)
    ∙ ap (λ t. t % n) around
    ∙ add-mod_right j n
    ∙ mod-eq_of_lt h
  where
    around : j + (n - cid % n) + cid % n ≡ j + n
    around = omega arith

-- Where the search finds nothing, no slot has the id: the probing order comes to every slot.
pub find_complete :
    (table : List Packet) (cid j : ℕ)
    → rtmp_packet_find_help table cid ≡ none
    → j < length table
    → (at table j).header.cid ≢ cid
unfolding rtmp_packet_find_help round_of
find_complete table cid j e h =
    subst (λ m. (at table m).header.cid ≢ cid) (round_of_lem (length table) cid j h)
      (find_loop_complete (length table) 0 cid table e (round_of (length table) cid j) (omega arith)
        (omega arith))
