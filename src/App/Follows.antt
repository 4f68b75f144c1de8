-- ===== src/App/Follows.antt =====
-- Which calls a chain of start-up steps of internal/app/run.go makes, wherever it ends.
use autovpa.Common.{List, [], ◌∷◌, ◌++◌, ◌≡◌, refl, ap}
use autovpa.Kube.{Result, ok, err}
use autovpa.App.Steps.{StartCall, Startup, lift, call, continue, ◌>>=◌}

-- The first list is an initial part of the second.
abbrev pub Initial : List StartCall → List StartCall → Type 0
Initial [] plan = Unit
Initial (c ∷ calls) [] = ⊥
Initial (c ∷ calls) (d ∷ plan) = (c ≡ d) × Initial calls plan

Initial-append : (l m plan : List StartCall) → Initial m plan → Initial (l ++ m) (l ++ plan)
Initial-append [] m plan h = h
Initial-append (c ∷ l) m plan h = (refl, Initial-append l m plan h)

Initial-longer : (l m plan : List StartCall) → Initial l m → Initial l (m ++ plan)
Initial-longer [] m plan h = tt
Initial-longer (c ∷ l) [] plan h = absurd h
Initial-longer (c ∷ l) (d ∷ m) plan h = (h.0, Initial-longer l m plan h.1)

-- The calls are an initial part of the plan, and all of it when the chain succeeds.
pub record Follows {A : Type 0} (m : Startup A) (plan : List StartCall) : Type 0 where
  pub initial : Initial m.calls plan
  pub complete : (a : A) → m.result ≡ ok a → m.calls ≡ plan

pub Follows-lift : {A : Type 0} (r : Result A) → Follows (lift r) []
Follows-lift r = record { initial = tt; complete = λ a e. refl }

pub Follows-call : {A : Type 0} (c : StartCall) (r : Result A) → Follows (call c r) (c ∷ [])
Follows-call c r = record { initial = (refl, tt); complete = λ a e. refl }

module _ {A B : Type 0} (f : A → Startup B) (first rest : List StartCall) where
  continue-Follows :
      (calls : List StartCall) (r : Result A)
      → Initial calls first
      → ((a : A) → r ≡ ok a → calls ≡ first)
      → ((a : A) → r ≡ ok a → Follows (f a) rest)
      → Follows (continue calls r f) (first ++ rest)
  continue-Follows calls (ok a) initial complete next =
      let all = complete a refl in
      let after = next a refl in
      rw all (record {
        initial = Initial-append first (f a).calls rest after.initial;
        complete = λ b e. ap (λ l. first ++ l) (after.complete b e);
      })
  continue-Follows calls (err e) initial complete next = record {
    initial = Initial-longer calls first rest initial;
    complete = λ b p. cc p;
  }

  pub Follows-bind :
      (m : Startup A)
      → Follows m first
      → ((a : A) → m.result ≡ ok a → Follows (f a) rest)
      → Follows (m >>= f) (first ++ rest)
  unfolding ◌>>=◌
  Follows-bind m h next = continue-Follows m.calls m.result h.initial h.complete next
