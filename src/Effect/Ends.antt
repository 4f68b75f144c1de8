-- ===== src/Effect/Ends.antt =====
-- What holds of the state of the cluster when an action succeeds.
use autovpa.Common.{◌≡◌, ◌≢◌, refl}
use autovpa.Kube.{Error, Result, ok, err}
use autovpa.Effect.{Outcome, Action, attempt, continue, ◌>>=◌}
use autovpa.Effect.Keeps.{Keeps, Anything}

-- If `m` succeeds in the state `w`, it leaves a state with `I`.
abbrev pub Ends : {W A : Type 0} → (W → Type 0) → Action W A → W → Type 0
Ends {W} {A} I m w = (a : A) → (m w).result ≡ ok a → I (m w).world

module _ {W A B : Type 0} (I : W → Type 0) (m : Action W A) (f : A → Action W B) where
  continue-first :
      (o : Outcome W A) (r : Result A)
      → ((a : A) → r ≡ ok a → I o.world)
      → ((a : A) → Keeps I Anything (f a))
      → (x : B) → (continue o r f).result ≡ ok x
      → I (continue o r f).world
  continue-first o (ok a) done keeps x e = (keeps a).state o.world (done a refl)
  continue-first o (err e) done keeps x p = cc p

  -- What the first part reaches, the second keeps.
  pub Ends-first : (w : W) → Ends I m w → ((a : A) → Keeps I Anything (f a)) → Ends I (m >>= f) w
  unfolding ◌>>=◌
  Ends-first w done keeps = continue-first (m w) (m w).result done keeps

  continue-last :
      (o : Outcome W A) (r : Result A)
      → ((a : A) → r ≡ ok a → Ends I (f a) o.world)
      → (x : B) → (continue o r f).result ≡ ok x
      → I (continue o r f).world
  continue-last o (ok a) done x e = done a refl x e
  continue-last o (err e) done x p = cc p

  -- What the second part reaches.
  pub Ends-last :
      (w : W) → ((a : A) → (m w).result ≡ ok a → Ends I (f a) (m w).world) → Ends I (m >>= f) w
  unfolding ◌>>=◌
  Ends-last w done = continue-last (m w) (m w).result done

module _ {W A B : Type 0} (I : W → Type 0) (m : Action W A) (f : Result A → Action W B) where
  continue-attempt :
      (o : Outcome W A) (r : Result A)
      → ((a : A) → r ≡ ok a → I o.world)
      → ((r : Result A) → Keeps I Anything (f r))
      → ((e : Error) (w : W) (b : B) → (f (err e) w).result ≢ ok b)
      → (b : B) → (f r o.world).result ≡ ok b
      → I (f r o.world).world
  continue-attempt o (ok a) done keeps stops b p = (keeps (ok a)).state o.world (done a refl)
  continue-attempt o (err e) done keeps stops b p = absurd (stops e o.world b p)

  -- What an action reaches whose error is an error of the whole.
  pub Ends-attempt :
      (w : W)
      → Ends I m w
      → ((r : Result A) → Keeps I Anything (f r))
      → ((e : Error) (w' : W) (b : B) → (f (err e) w').result ≢ ok b)
      → Ends I (attempt m >>= f) w
  unfolding ◌>>=◌
  Ends-attempt w done keeps stops = continue-attempt (m w) (m w).result done keeps stops
