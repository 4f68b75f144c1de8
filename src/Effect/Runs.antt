-- ===== src/Effect/Runs.antt =====
-- What an action does from one state: the calls that it makes and, when it succeeds, what it answers and
-- leaves.
use mathlib.Core.Path.{subst}
use autovpa.Common.{◌≡◌, All, All-append, refl, sym, ap, ◌∙◌}
use autovpa.Kube.{Error, Result, ok, err}
use autovpa.Effect.{Call, Outcome, Action, pure, throw, lift, continue, ◌>>=◌}

-- From `w` every call of `m` satisfies `P`, and a success leaves `Q` of the answer and the state.
pub record Runs {W A : Type 0} (P : Call → Type 0) (Q : A → W → Type 0) (m : Action W A) (w : W)
    : Type 0 where
  pub calls : All P (m w).calls
  pub ends : (a : A) → (m w).result ≡ ok a → Q a (m w).world

pub ok-injective : {A : Type 0} {a b : A} → ok a ≡ ok b → a ≡ b
ok-injective e = cc e

module _ {W A : Type 0} {P : Call → Type 0} where
  pub Runs-pure : (Q : A → W → Type 0) (a : A) (w : W) → Q a w → Runs P Q (pure a) w
  Runs-pure Q a w q = record { calls = tt; ends = λ x e. subst (λ y. Q y w) (ok-injective e) q }

  pub Runs-throw : (Q : A → W → Type 0) (e : Error) (w : W) → Runs P Q (throw e) w
  Runs-throw Q e w = record { calls = tt; ends = λ x p. cc p }

  pub Runs-lift : (r : Result A) (w : W) → Runs P (λ a w'. (r ≡ ok a) × (w' ≡ w)) (lift r) w
  Runs-lift r w = record { calls = tt; ends = λ a e. (e, refl) }

  -- Two actions that do the same from `w`.
  pub Runs-same :
      (Q : A → W → Type 0) (m n : Action W A) (w : W) → m w ≡ n w → Runs P Q n w → Runs P Q m w
  Runs-same Q m n w same r = record {
    calls = subst (λ (o : Outcome W A). All P o.calls) (sym same) r.calls;
    ends = λ a e.
        subst (λ (o : Outcome W A). Q a o.world) (sym same)
          (r.ends a (ap (λ (o : Outcome W A). o.result) (sym same) ∙ e));
  }

module _ {W A B : Type 0} {P : Call → Type 0} (Q : A → W → Type 0) (R : B → W → Type 0) where
  continue-Runs :
      (o : Outcome W A) (r : Result A) (f : A → Action W B)
      → All P o.calls
      → ((a : A) → r ≡ ok a → Q a o.world)
      → ((a : A) (w : W) → Q a w → Runs P R (f a) w)
      → All P (continue o r f).calls
        × ((b : B) → (continue o r f).result ≡ ok b → R b (continue o r f).world)
  continue-Runs o (ok a) f calls ends next =
      let rest = next a o.world (ends a refl) in
      (All-append P o.calls (f a o.world).calls calls rest.calls, rest.ends)
  continue-Runs o (err e) f calls ends next = (calls, λ b p. cc p)

  pub Runs-bind :
      (m : Action W A) (f : A → Action W B) (w : W)
      → Runs P Q m w
      → ((a : A) (w' : W) → Q a w' → Runs P R (f a) w')
      → Runs P R (m >>= f) w
  unfolding ◌>>=◌
  Runs-bind m f w first next =
      let both = continue-Runs (m w) (m w).result f first.calls first.ends next in
      record { calls = both.0; ends = both.1 }
