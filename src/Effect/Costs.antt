-- ===== src/Effect/Costs.antt =====
-- How many requests an action sends to the API server, by what the server has listed for it.
use autovpa.Common.{
  false, ℕ, suc, ◌+◌, ◌≤◌, Bool, true, false, List, [], ◌∷◌, ◌++◌, ◌≡◌, length, count_if,
  count_if-append, if◌then◌else◌, arith,
}
use autovpa.Kube.{GroupVersionKind, NamespacedName, Client, Object, Error, Result, ok, err}
use autovpa.Effect.{
  Call, list_objects, pure, throw, lift, attempt, emit, get, Outcome, Action, continue, ◌>>=◌,
}
use autovpa.Effect.Counts.{is_request}

-- What VPAs weigh: one for each, and one for each of their owner references.
abbrev pub weight : List Object → ℕ
weight [] = 0
weight (vpa ∷ vpas) = suc (length vpa.owner_references) + weight vpas

abbrev answered : Result (List Object) → ℕ
answered (ok vpas) = weight vpas
answered (err e) = 0

abbrev pub listed_by : Call → ℕ
listed_by (list_objects _ _ _ _ r) = answered r
listed_by _ = 0

-- What `g` gives for the calls together. For `listed_by` it is the weight of the lists that the server
-- has answered with.
abbrev pub total : (Call → ℕ) → List Call → ℕ
total g [] = 0
total g (c ∷ cs) = g c + total g cs

total-append : (g : Call → ℕ) (xs ys : List Call) → total g (xs ++ ys) ≡ total g xs + total g ys
total-append g [] ys = omega arith
total-append g (x ∷ xs) ys = omega (arith, total-append g xs ys)

pub total_of_nothing : (cs : List Call) → total (λ _. 0) cs ≡ 0
total_of_nothing [] = omega arith
total_of_nothing (c ∷ cs) = omega (arith, total_of_nothing cs)

abbrev worth : {A : Type 0} → (A → ℕ) → Result A → ℕ
worth v (ok a) = v a
worth v (err e) = 0

-- The requests of `m`, and those that its answer `a` still allows, `v a`, are at most `n` and the
-- total of what `g` gives for its calls.
pub record Costs {W A : Type 0} (g : Call → ℕ) (n : ℕ) (v : A → ℕ) (m : Action W A) : Type 0 where
  pub at :
      (w : W) → count_if is_request (m w).calls + worth v (m w).result ≤ n + total g (m w).calls

abbrev pub nothing : {A : Type 0} → A → ℕ
nothing a = 0

module _ {g : Call → ℕ} {W A B : Type 0} (v : A → ℕ) (u : B → ℕ) where
  continue-Costs :
      (n k : ℕ) (o : Outcome W A) (r : Result A) (f : A → Action W B)
      → count_if is_request o.calls + worth v r ≤ n + total g o.calls
      → ((a : A) → Costs g (k + v a) u (f a))
      → count_if is_request (continue o r f).calls + worth u (continue o r f).result
        ≤ (n + k) + total g (continue o r f).calls
  continue-Costs n k o (ok a) f h hf = omega (
    arith,
    h,
    (hf a).at o.world,
    count_if-append is_request o.calls (f a o.world).calls,
    total-append g o.calls (f a o.world).calls,
  )
  continue-Costs n k o (err e) f h hf = omega (arith, h)

  Costs-bind :
      (n k : ℕ) (m : Action W A) (f : A → Action W B)
      → Costs g n v m
      → ((a : A) → Costs g (k + v a) u (f a))
      → Costs g (n + k) u (m >>= f)
  unfolding ◌>>=◌
  Costs-bind n k m f hm hf = record {
    at = λ w. continue-Costs n k (m w) (m w).result f (hm.at w) hf;
  }

pub Costs-weaken :
    {g : Call → ℕ} {W A : Type 0} (n k : ℕ) (v : A → ℕ) (m : Action W A)
    → n ≤ k
    → Costs g n v m
    → Costs g k v m
Costs-weaken n k v m le h = record { at = λ w. omega (arith, le, h.at w) }

-- A part whose answer allows nothing, before another such part.
pub Costs-then :
    {g : Call → ℕ} {W A B : Type 0} (n k : ℕ) (m : Action W A) (f : A → Action W B)
    → Costs g n nothing m
    → ((a : A) → Costs g k nothing (f a))
    → Costs g (n + k) nothing (m >>= f)
Costs-then n k m f hm hf =
    Costs-bind nothing nothing n k m f hm
      (λ a. Costs-weaken k (k + 0) nothing (f a) (omega arith) (hf a))

-- A part whose answer allows what the rest asks for.
pub Costs-spend :
    {g : Call → ℕ} {W A B : Type 0} (n : ℕ) (v : A → ℕ) (m : Action W A) (f : A → Action W B)
    → Costs g n v m
    → ((a : A) → Costs g (v a) nothing (f a))
    → Costs g n nothing (m >>= f)
Costs-spend n v m f hm hf = Costs-weaken (n + 0) n nothing (m >>= f) (omega arith) (
    Costs-bind v nothing n 0 m f hm
      (λ a. Costs-weaken (v a) (0 + v a) nothing (f a) (omega arith) (hf a)))

pub Costs-if :
    {g : Call → ℕ} {W A : Type 0} (n : ℕ) (v : A → ℕ) (b : Bool) (m k : Action W A)
    → Costs g n v m
    → Costs g n v k
    → Costs g n v (if b then m else k)
Costs-if n v true m k hm hk = hm
Costs-if n v false m k hm hk = hk

pub Costs-lift : {g : Call → ℕ} {W A : Type 0} (r : Result A) → Costs g 0 nothing (lift {W = W} r)
Costs-lift (ok a) = record { at = λ w. omega arith }
Costs-lift (err e) = record { at = λ w. omega arith }

pub Costs-pure : {g : Call → ℕ} {W A : Type 0} (n : ℕ) (a : A) → Costs g n nothing (pure {W = W} a)
Costs-pure n a = record { at = λ w. omega arith }

pub Costs-throw :
    {g : Call → ℕ} {W A : Type 0} (n : ℕ) (e : Error) → Costs g n nothing (throw {W = W} {A = A} e)
Costs-throw n e = record { at = λ w. omega arith }

pub Costs-emit :
    {g : Call → ℕ} {W : Type 0} (c : Call)
    → is_request c ≡ false
    → Costs g 0 nothing (emit {W = W} c)
unfolding emit
Costs-emit c other = record { at = λ w. rw other (omega arith) }

pub Costs-attempt :
    {g : Call → ℕ} {W A : Type 0} (n : ℕ) (m : Action W A)
    → Costs g n nothing m
    → Costs g n nothing (attempt m)
Costs-attempt n m h = record { at = λ w. omega (arith, h.at w) }

-- A Get, and its error as a value.
pub Costs-get :
    {g : Call → ℕ} {W : Type 0} (client : Client W) (gvk : GroupVersionKind) (key : NamespacedName)
    → Costs g 1 nothing (attempt (get client gvk key))
unfolding get
Costs-get client gvk key = record { at = λ w. omega arith }
