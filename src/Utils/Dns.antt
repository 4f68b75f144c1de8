-- ===== src/Utils/Dns.antt =====
-- What dnsLabel and truncateRunes of internal/utils/utils.go give.
use Prim.Native.Char.{Char}
use autovpa.Common.{
  String, Bool, true, false, arith, ◌≡◌, ◌≢◌, refl, inl, inr, Bool-cases, ◌==◌, eq_iff,
}
use autovpa.Utils.Strings.{trim_left, drop_last, trim_right, trim, map_runes}
use autovpa.Utils.Names.{is_dns_char, is_dns_edge, dns_rune, dns_label, to_lower}

-- Every rune satisfies `p`.
abbrev pub AllRunes : (Char → Bool) → String → Type 0
AllRunes p String.[] = Unit
AllRunes p (String.◌∷◌ c s) = (p c ≡ true) × AllRunes p s

module _ (cut : Char → Bool) where
  -- The first rune is not in the cutset.
  abbrev pub StartsUncut : String → Type 0
  StartsUncut String.[] = Unit
  StartsUncut (String.◌∷◌ c s) = cut c ≡ false

  -- The last rune is not in the cutset.
  abbrev pub EndsUncut : String → Type 0
  EndsUncut String.[] = Unit
  EndsUncut (String.◌∷◌ c String.[]) = cut c ≡ false
  EndsUncut (String.◌∷◌ c (String.◌∷◌ d s)) = EndsUncut (String.◌∷◌ d s)

  trim_left-StartsUncut : (s : String) → StartsUncut (trim_left cut s)
  unfolding trim_left
  trim_left-StartsUncut String.[] = tt
  trim_left-StartsUncut (String.◌∷◌ c s) = elim (Bool-cases (cut c)) [
    | inl drop ↦ rw drop (trim_left-StartsUncut s)
    | inr keep ↦ rw keep keep
  ]

  drop_last-StartsUncut : (c : Char) (s : String) → cut c ≡ false → StartsUncut (drop_last cut c s)
  drop_last-StartsUncut c String.[] h = rw h h
  drop_last-StartsUncut c (String.◌∷◌ d s) h = h

  trim_right-StartsUncut : (s : String) → StartsUncut s → StartsUncut (trim_right cut s)
  unfolding trim_right
  trim_right-StartsUncut String.[] h = tt
  trim_right-StartsUncut (String.◌∷◌ c s) h = drop_last-StartsUncut c (trim_right cut s) h

  drop_last-EndsUncut : (c : Char) (s : String) → EndsUncut s → EndsUncut (drop_last cut c s)
  drop_last-EndsUncut c String.[] h = elim (Bool-cases (cut c)) [
    | inl drop ↦ rw drop tt
    | inr keep ↦ rw keep keep
  ]
  drop_last-EndsUncut c (String.◌∷◌ d s) h = h

  trim_right-EndsUncut : (s : String) → EndsUncut (trim_right cut s)
  unfolding trim_right
  trim_right-EndsUncut String.[] = tt
  trim_right-EndsUncut (String.◌∷◌ c s) =
      drop_last-EndsUncut c (trim_right cut s) (trim_right-EndsUncut s)

  module _ (p : Char → Bool) where
    trim_left-AllRunes : (s : String) → AllRunes p s → AllRunes p (trim_left cut s)
    unfolding trim_left
    trim_left-AllRunes String.[] h = tt
    trim_left-AllRunes (String.◌∷◌ c s) h = elim (Bool-cases (cut c)) [
      | inl drop ↦ rw drop (trim_left-AllRunes s h.1)
      | inr keep ↦ rw keep h
    ]

    drop_last-AllRunes :
        (c : Char) (s : String) → p c ≡ true → AllRunes p s → AllRunes p (drop_last cut c s)
    drop_last-AllRunes c String.[] hc h = elim (Bool-cases (cut c)) [
      | inl drop ↦ rw drop tt
      | inr keep ↦ rw keep (hc, tt)
    ]
    drop_last-AllRunes c (String.◌∷◌ d s) hc h = (hc, h)

    trim_right-AllRunes : (s : String) → AllRunes p s → AllRunes p (trim_right cut s)
    unfolding trim_right
    trim_right-AllRunes String.[] h = tt
    trim_right-AllRunes (String.◌∷◌ c s) h =
        drop_last-AllRunes c (trim_right cut s) h.0 (trim_right-AllRunes s h.1)

dns_rune-IsDnsChar : (c : Char) → is_dns_char (dns_rune c) ≡ true
dns_rune-IsDnsChar c = elim (Bool-cases (is_dns_char c)) [
  | inl ok ↦ rw ok ok
  | inr bad ↦ rw bad (unfold is_dns_char in refl)
]

map_runes-AllRunes : (s : String) → AllRunes is_dns_char (map_runes dns_rune s)
unfolding map_runes
map_runes-AllRunes String.[] = tt
map_runes-AllRunes (String.◌∷◌ c s) = (dns_rune-IsDnsChar c, map_runes-AllRunes s)

-- A token for a DNS name: lower-case letters, digits, '-' and '.', not empty, and with neither '-'
-- nor '.' at its ends.
pub record IsDnsToken (s : String) : Type 0 where
  pub runes : AllRunes is_dns_char s
  pub starts : StartsUncut is_dns_edge s
  pub ends : EndsUncut is_dns_edge s
  pub some_rune : s ≢ ""

vpa-IsDnsToken : IsDnsToken "vpa"
unfolding is_dns_char is_dns_edge
vpa-IsDnsToken = record {
  runes = (refl, (refl, (refl, tt)));
  starts = refl;
  ends = refl;
  some_rune = ground (arith, eq_iff "vpa" "");
}

-- dnsLabel gives, for every text, a text that is not empty, whose runes are lower-case letters,
-- digits, '-' or '.', and that neither starts nor ends with '-' or '.', whatever unicode.ToLower does
-- beyond ASCII.
pub dns_label-IsDnsToken : (lower : Char → Char) (s : String) → IsDnsToken (dns_label lower s)
unfolding dns_label trim
dns_label-IsDnsToken lower s =
    let mapped = map_runes dns_rune (to_lower lower s) in
    let left = trim_left is_dns_edge mapped in
    let runes =
      trim_right-AllRunes is_dns_edge is_dns_char left (
        trim_left-AllRunes is_dns_edge is_dns_char mapped
          (map_runes-AllRunes (to_lower lower s))) in
    let starts =
      trim_right-StartsUncut is_dns_edge left (trim_left-StartsUncut is_dns_edge mapped) in
    let ends = trim_right-EndsUncut is_dns_edge left in
    elim (Bool-cases (trim_right is_dns_edge left == "")) [
      | inl empty ↦ rw empty vpa-IsDnsToken
      | inr filled ↦ rw filled (record {
        runes = runes;
        starts = starts;
        ends = ends;
        some_rune = ground (arith, filled, eq_iff (trim_right is_dns_edge left) "");
      })
    ]
