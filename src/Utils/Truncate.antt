-- ===== src/Utils/Truncate.antt =====
-- What truncateRunes of internal/utils/utils.go keeps of a text.
use Prim.Native.Char.{Char, code}
use Prim.Native.String.{count}
use autovpa.Common.{
  ℕ, suc, String, Bool, arith, ◌≡◌, ◌≤◌, ◌+◌, refl, ap, sym, ◌∙◌, zero, ◌-◌, Bool-cases, inl, inr,
  ltb, leb, nat_eq,
}
use text.Mathlib.TextLemmas.{length-cons}
use autovpa.Utils.Names.{truncate_runes, truncate_from, rune_len}
use autovpa.Utils.Dns.{AllRunes}

-- The first `n` runes
unfoldable first_runes : ℕ → String → String
first_runes n String.[] = ""
first_runes zero (String.◌∷◌ c s) = ""
first_runes (suc n) (String.◌∷◌ c s) = String.◌∷◌ c (first_runes n s)

abbrev is_ascii : Char → Bool
is_ascii c = ltb (code c) 0x80

rune_len_positive : (c : Char) → 1 ≤ rune_len c
rune_len_positive c = ground arith

truncate_from-count : (i n : ℕ) (s : String) → count (truncate_from i n s) ≤ n - i
unfolding truncate_from
truncate_from-count i n String.[] = ground arith
truncate_from-count i n (String.◌∷◌ c s) =
    let rest = truncate_from-count (i + rune_len c) n s in
    let moved = rune_len_positive c in
    elim (Bool-cases (leb n i)) [
      | inl full ↦ rw full (omega arith)
      | inr room ↦
          rw (room, length-cons c (truncate_from (i + rune_len c) n s))
            (ground (arith, rest, moved, room))
    ]

truncate_from-ascii :
    (i n : ℕ) (s : String) → AllRunes is_ascii s → truncate_from i n s ≡ first_runes (n - i) s
unfolding truncate_from first_runes
truncate_from-ascii i n String.[] h = refl
truncate_from-ascii i n (String.◌∷◌ c s) h =
    let one : rune_len c ≡ 1 = ground (arith, h.0) in
    let rest = truncate_from-ascii (i + rune_len c) n s h.1 in
    elim (Bool-cases (leb n i)) [
      | inl full ↦ let none_left : n - i ≡ zero = ground (arith, full) in rw (full, none_left) refl
      | inr room ↦
          let left : n - i ≡ suc (n - (i + rune_len c)) = ground (arith, room, one) in
          rw (room, left) (ap (λ t. String.◌∷◌ c t) rest)
    ]

first_runes-all : (n : ℕ) (s : String) → count s ≤ n → first_runes n s ≡ s
unfolding first_runes
first_runes-all n String.[] h = refl
first_runes-all zero (String.◌∷◌ c s) h = absurd (omega (arith, h, length-cons c s))
first_runes-all (suc n) (String.◌∷◌ c s) h =
    ap (λ t. String.◌∷◌ c t) (first_runes-all n s (omega (arith, h, length-cons c s)))

first_runes-none : (s : String) → first_runes zero s ≡ ""
unfolding first_runes
first_runes-none String.[] = refl
first_runes-none (String.◌∷◌ c s) = refl

truncate_runes-count : (s : String) (n : ℕ) → count (truncate_runes s n) ≤ n
unfolding truncate_runes
truncate_runes-count s n = elim (Bool-cases (nat_eq n 0)) [
  | inl nothing ↦ rw nothing (omega arith)
  | inr positive ↦ elim (Bool-cases (leb (count s) n)) [
    | inl fits ↦ rw (positive, fits) (ground (arith, fits))
    | inr longer ↦ rw (positive, longer) (ground (arith, truncate_from-count 0 n s))
  ]
]

truncate_runes-ascii :
    (s : String) (n : ℕ) → AllRunes is_ascii s → truncate_runes s n ≡ first_runes n s
unfolding truncate_runes
truncate_runes-ascii s n ascii = elim (Bool-cases (nat_eq n 0)) [
  | inl nothing ↦
      let zero_runes : n ≡ zero = ground (arith, nothing) in
      rw zero_runes (sym (first_runes-none s))
  | inr positive ↦ elim (Bool-cases (leb (count s) n)) [
    | inl fits ↦ rw (positive, fits) (sym (first_runes-all n s (ground (arith, fits))))
    | inr longer ↦
        let all : n - 0 ≡ n = omega arith in
        rw (positive, longer) (truncate_from-ascii 0 n s ascii ∙ ap (λ m. first_runes m s) all)
  ]
]

-- truncateRunes keeps at most `n` runes of any text, and of an ASCII text exactly its first `n`.
truncate_runes-first_runes :
    (s : String) (n : ℕ)
    → (count (truncate_runes s n) ≤ n)
      × (AllRunes is_ascii s → truncate_runes s n ≡ first_runes n s)
truncate_runes-first_runes s n = (truncate_runes-count s n, truncate_runes-ascii s n)
