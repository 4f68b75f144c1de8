-- ===== src/Effect/Keeps.antt =====
-- What an action leaves true of the state of the cluster, and what it answers: one rule for each
-- way to build one.
use mathlib.Core.Path.{subst}
use autovpa.Common.{Bool, true, false, ◌≡◌, refl, if◌then◌else◌}
use autovpa.Kube.{Error, Result, ok, err}
use autovpa.Effect.{Call, Outcome, Action, pure, throw, lift, attempt, continue, ◌>>=◌, emit}

-- From a state with `I`, the action `m` leaves a state with `I`, and a result of it satisfies `Q`.
pub record Keeps {W A : Type 0} (I : W → Type 0) (Q : A → Type 0) (m : Action W A) : Type 0 where
  pub state : (w : W) → I w → I (m w).world
  pub answer : (w : W) → I w → (a : A) → (m w).result ≡ ok a → Q a

-- A result satisfies `Q` if there is one.
abbrev pub OfResult : {A : Type 0} → (A → Type 0) → Result A → Type 0
OfResult Q (ok a) = Q a
OfResult Q (err e) = Unit

abbrev pub Anything : {A : Type 0} → A → Type 0
Anything a = Unit

OfResult-intro :
    {A : Type 0} (Q : A → Type 0) (r : Result A) → ((a : A) → r ≡ ok a → Q a) → OfResult Q r
OfResult-intro Q (ok a) h = h a refl
OfResult-intro Q (err e) h = tt

ok-injective : {A : Type 0} {a b : A} → ok a ≡ ok b → a ≡ b
ok-injective e = cc e

module _ {W A : Type 0} {I : W → Type 0} where
  pub Keeps-pure : {Q : A → Type 0} (a : A) → Q a → Keeps I Q (pure a)
  Keeps-pure {Q} a q = record { state = λ w h. h; answer = λ w h x e. subst Q (ok-injective e) q }

  pub Keeps-throw : {Q : A → Type 0} (e : Error) → Keeps I Q (throw e)
  Keeps-throw e = record { state = λ w h. h; answer = λ w h x p. cc p }

  pub Keeps-lift : {Q : A → Type 0} (r : Result A) → ((a : A) → r ≡ ok a → Q a) → Keeps I Q (lift r)
  Keeps-lift r q = record { state = λ w h. h; answer = λ w h. q }

  pub Keeps-attempt :
      {Q : A → Type 0} (m : Action W A) → Keeps I Q m → Keeps I (OfResult Q) (attempt m)
  Keeps-attempt {Q} m k = record {
    state = k.state;
    answer = λ w h r e.
        subst (OfResult Q) (ok-injective e) (OfResult-intro Q (m w).result (k.answer w h));
  }

  pub Keeps-if :
      {Q : A → Type 0} (b : Bool) (m n : Action W A)
      → (b ≡ true → Keeps I Q m)
      → (b ≡ false → Keeps I Q n)
      → Keeps I Q (if b then m else n)
  Keeps-if true m n hm hn = hm refl
  Keeps-if false m n hm hn = hn refl

  pub Keeps-any : {Q : A → Type 0} {m : Action W A} → Keeps I Q m → Keeps I Anything m
  Keeps-any k = record { state = k.state; answer = λ w h a e. tt }

module _ {W A B : Type 0} {I : W → Type 0} {R : B → Type 0} where
  continue_state :
      (o : Outcome W A) (r : Result A) (f : A → Action W B)
      → I o.world
      → ((a : A) → r ≡ ok a → Keeps I R (f a))
      → I (continue o r f).world
  continue_state o (ok a) f h k = (k a refl).state o.world h
  continue_state o (err e) f h k = h

  continue_answer :
      (o : Outcome W A) (r : Result A) (f : A → Action W B)
      → I o.world
      → ((a : A) → r ≡ ok a → Keeps I R (f a))
      → (x : B) → (continue o r f).result ≡ ok x
      → R x
  continue_answer o (ok a) f h k x e = (k a refl).answer o.world h x e
  continue_answer o (err e) f h k x p = cc p

  pub Keeps-bind :
      {Q : A → Type 0} (m : Action W A) (f : A → Action W B)
      → Keeps I Q m
      → ((a : A) → Q a → Keeps I R (f a))
      → Keeps I R (m >>= f)
  unfolding ◌>>=◌
  Keeps-bind m f k next = record {
    state =
        λ w h. continue_state (m w) (m w).result f (k.state w h) (λ a e. next a (k.answer w h a e));
    answer = λ w h.
        continue_answer (m w) (m w).result f (k.state w h) (λ a e. next a (k.answer w h a e));
  }

pub Keeps-emit : {W : Type 0} {I : W → Type 0} (c : Call) → Keeps {W = W} I Anything (emit c)
unfolding emit
Keeps-emit c = record { state = λ w h. h; answer = λ w h a e. tt }

-- A bind whose first part need not be remembered.
pub Keeps-then :
    {W A B : Type 0} {I : W → Type 0} {Q : A → Type 0} {R : B → Type 0} (m : Action W A)
    (f : A → Action W B)
    → Keeps I Q m
    → ((a : A) → Keeps I R (f a))
    → Keeps I R (m >>= f)
Keeps-then m f k next = Keeps-bind m f k (λ a _. next a)

pub Keeps-done : {W : Type 0} {I : W → Type 0} → Keeps I Anything (pure {W = W} {A = Unit {0}} tt)
Keeps-done = Keeps-pure tt tt

pub ruleset keeps_rules = (Keeps-done, Keeps-throw, Keeps-if, Keeps-emit)
