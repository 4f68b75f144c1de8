-- ===== src/Utils/Strings.antt =====
-- The functions of Go's `strings` and `unicode` packages that internal/utils/utils.go uses, over the
-- characters of a text.
use Prim.Native.Char.{Char, code}
use Prim.Native.String.{count, ◌++◌}
use text.Mathlib.Text.{starts_with}
use autovpa.Common.{
  ℕ, zero, suc, ◌-◌, String, Bool, ◌&&◌, ◌||◌, leb, nat_eq, if◌then◌else◌, ◌==◌, ◌≡◌, refl,
}

infixr 67 ◌∷◌
abbrev ◌∷◌ : Char → String → String
c ∷ s = String.◌∷◌ c s

-- unicode.IsSpace
unfoldable pub is_space : Char → Bool
is_space c =
    let n = code c in
    (leb 9 n && leb n 13)
    || nat_eq n 0x20
    || nat_eq n 0x85
    || nat_eq n 0xa0
    || nat_eq n 0x1680
    || (leb 0x2000 n && leb n 0x200a)
    || nat_eq n 0x2028
    || nat_eq n 0x2029
    || nat_eq n 0x202f
    || nat_eq n 0x205f
    || nat_eq n 0x3000

module _ (cut : Char → Bool) where
  -- strings.TrimLeftFunc
  unfoldable pub trim_left : String → String
  trim_left String.[] = ""
  trim_left (String.◌∷◌ c s) = let rest = trim_left s in if cut c then rest else c ∷ s

  -- strings.TrimRightFunc: a character goes if it is in the cutset and nothing is left behind it.
  abbrev pub drop_last : Char → String → String
  drop_last c String.[] = if cut c then "" else c ∷ ""
  drop_last c (String.◌∷◌ d s) = c ∷ (d ∷ s)

  unfoldable pub trim_right : String → String
  trim_right String.[] = ""
  trim_right (String.◌∷◌ c s) = drop_last c (trim_right s)

  -- strings.TrimFunc, and strings.Trim with the test for a cutset
  unfoldable pub trim : String → String
  unfolding trim_left trim_right
  trim s = trim_right (trim_left s)

-- strings.TrimSpace
unfoldable pub trim_space : String → String
unfolding trim is_space
trim_space = trim is_space

-- strings.Map, with a function that drops no rune
unfoldable pub map_runes : (Char → Char) → String → String
map_runes f String.[] = ""
map_runes f (String.◌∷◌ c s) = f c ∷ map_runes f s

-- The loop of strings.ReplaceAll. `skip` characters belong to a match that is already replaced.
replace_from : (old new : String) → ℕ → String → String
replace_from old new skip String.[] = ""
replace_from old new (suc skip) (String.◌∷◌ c s) = replace_from old new skip s
replace_from old new zero (String.◌∷◌ c s) =
    let matched = new ++ replace_from old new (count old - 1) s in
    let kept = c ∷ replace_from old new zero s in if starts_with (c ∷ s) old then matched else kept

-- An empty `old` matches before every rune and at the end.
replace_empty : (new : String) → String → String
replace_empty new String.[] = new
replace_empty new (String.◌∷◌ c s) = new ++ (c ∷ replace_empty new s)

-- strings.ReplaceAll
unfoldable pub replace_all : (s old new : String) → String
unfolding replace_from replace_empty
replace_all s old new = if old == "" then replace_empty new s else replace_from old new zero s

replace_all_runs : replace_all "api--dev-x" "-" "." ≡ "api..dev.x"
unfolding replace_all
replace_all_runs = refl

trim_space_runs : trim_space "  a b  " ≡ "a b"
unfolding trim_space
trim_space_runs = refl
