-- ===== src/Config/Modes.antt =====
-- normalizeUpdateMode of internal/config/loader.go.
use Prim.Native.Char.{Char}
use mathlib.Core.Path.{subst}
use autovpa.Common.{
  String, Bool, true, false, ◌||◌, ◌≡◌, refl, ap, sym, ◌∙◌, ◌⊎◌, inl, inr, ◌==◌, if◌then◌else◌,
  arith,
}
use autovpa.Kube.{ok}
use autovpa.Kube.Json.{Value, null, boolean, number, text, array, object}
use autovpa.Utils.Strings.{trim_space}
use autovpa.Utils.Names.{to_lower}
use autovpa.Config.{mode_of, normalize_update_mode}

-- One of the explicit modes
abbrev pub IsMode : String → Type 0
IsMode m = (m ≡ "Recreate") ⊎ ((m ≡ "Off") ⊎ ((m ≡ "Initial") ⊎ (m ≡ "InPlaceOrRecreate")))

either :
    (b : Bool) (x y v : String)
    → IsMode x
    → IsMode y ⊎ (y ≡ v)
    → IsMode (if b then x else y) ⊎ ((if b then x else y) ≡ v)
either true x y v hx hy = inl hx
either false x y v hx hy = hy

mode_of-cases : (folded v : String) → IsMode (mode_of folded v) ⊎ (mode_of folded v ≡ v)
unfolding mode_of
mode_of-cases folded v =
    either ((folded == "true") || (folded == "on") || (folded == "auto")) _ _ v (inl refl) (
      either ((folded == "false") || (folded == "off")) _ _ v (inr (inl refl)) (
        either (folded == "initial") _ _ v (inr (inr (inl refl))) (
          either (folded == "recreate") _ _ v (inl refl)
            (either (folded == "inplaceorrecreate") _ v v (inr (inr (inr refl))) (inr refl)))))

module _ (lower : Char → Char) where
  explicit_mode-kept : (m : String) → IsMode m → normalize_update_mode lower (text m) ≡ ok m
  unfolding normalize_update_mode mode_of to_lower trim_space
  explicit_mode-kept m (inl e) = rw e refl
  explicit_mode-kept m (inr (inl e)) = rw e refl
  explicit_mode-kept m (inr (inr (inl e))) = rw e refl
  explicit_mode-kept m (inr (inr (inr e))) = rw e refl

  -- A mode that normalizeUpdateMode gave is one that it keeps, whatever it was given and whatever
  -- unicode.ToLower does beyond ASCII.
  pub normalize_update_mode_again :
      (value : Value) (m : String)
      → normalize_update_mode lower value ≡ ok m
      → normalize_update_mode lower (text m) ≡ ok m
  unfolding normalize_update_mode
  normalize_update_mode_again (boolean true) m h = explicit_mode-kept m (inl (cc h))
  normalize_update_mode_again (boolean false) m h = explicit_mode-kept m (inr (inl (cc h)))
  normalize_update_mode_again (text v) m h =
      let same : mode_of (to_lower lower (trim_space v)) v ≡ m = cc h in
      elim (mode_of-cases (to_lower lower (trim_space v)) v) [
        | inl mode ↦ explicit_mode-kept m (subst IsMode same mode)
        | inr kept ↦ let given : m ≡ v = sym same ∙ kept in rw given (h ∙ ap ok given)
      ]
  normalize_update_mode_again null m h = ground arith
  normalize_update_mode_again (number _) m h = ground arith
  normalize_update_mode_again (array _) m h = ground arith
  normalize_update_mode_again (object _) m h = ground arith
