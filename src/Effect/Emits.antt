-- ===== src/Effect/Emits.antt =====
-- Which calls an action makes, whatever the client answers: one rule for each way to build one.
use autovpa.Common.{
  Bool, true, false, ◌≡◌, refl, All, All-append, All-map, if◌then◌else◌, String, List,
}
use autovpa.Kube.{
  Object, GroupVersionKind, NamespacedName, Error, Result, ok, err, PatchOptions, Client,
}
use autovpa.Effect.{
  Call, get_object, list_objects, delete_object, patch_object, Outcome, Action, pure, throw, lift,
  attempt, continue, ◌>>=◌, emit, get, list, delete, patch,
}

-- Every call of `m` satisfies `P`.
pub record Emits {W A : Type 0} (P : Call → Type 0) (m : Action W A) : Type 0 where
  pub at : (w : W) → All P (m w).calls

module _ {W A : Type 0} {P : Call → Type 0} where
  pub Emits-pure : (a : A) → Emits P (pure {W = W} a)
  Emits-pure a = record { at = λ w. tt }

  pub Emits-throw : (e : Error) → Emits P (throw {W = W} {A = A} e)
  Emits-throw e = record { at = λ w. tt }

  pub Emits-lift : (r : Result A) → Emits P (lift {W = W} r)
  Emits-lift r = record { at = λ w. tt }

  pub Emits-attempt : (m : Action W A) → Emits P m → Emits P (attempt m)
  Emits-attempt m h = record { at = h.at }

  pub Emits-if :
      (b : Bool) (m n : Action W A)
      → (b ≡ true → Emits P m)
      → (b ≡ false → Emits P n)
      → Emits P (if b then m else n)
  Emits-if true m n hm hn = hm refl
  Emits-if false m n hm hn = hn refl

-- What every call satisfies may be weakened.
pub Emits-weaken :
    {W A : Type 0} {P Q : Call → Type 0} {m : Action W A}
    → ((c : Call) → P c → Q c)
    → Emits P m
    → Emits Q m
Emits-weaken {P} {Q} {m} f h = record { at = λ w. All-map P Q (m w).calls f (h.at w) }

module _ {W A B : Type 0} {P : Call → Type 0} where
  continue-Emits :
      (o : Outcome W A) (r : Result A) (f : A → Action W B)
      → All P o.calls
      → ((a : A) → r ≡ ok a → Emits P (f a))
      → All P (continue o r f).calls
  continue-Emits o (ok a) f h hf =
      All-append P o.calls (f a o.world).calls h ((hf a refl).at o.world)
  continue-Emits o (err e) f h hf = h

  pub Emits-bind :
      (m : Action W A) (f : A → Action W B)
      → Emits P m
      → ((a : A) → Emits P (f a))
      → Emits P (m >>= f)
  unfolding ◌>>=◌
  Emits-bind m f hm hf = record {
    at = λ w. continue-Emits (m w) (m w).result f (hm.at w) (λ a _. hf a);
  }

  -- The rest of the action may use what is known of the results of its first part.
  pub Emits-bind-post :
      (Q : A → Type 0) (m : Action W A) (f : A → Action W B)
      → Emits P m
      → ((w : W) (a : A) → (m w).result ≡ ok a → Q a)
      → ((a : A) → Q a → Emits P (f a))
      → Emits P (m >>= f)
  unfolding ◌>>=◌
  Emits-bind-post Q m f hm post hf = record {
    at = λ w. continue-Emits (m w) (m w).result f (hm.at w) (λ a e. hf a (post w a e));
  }

  -- The same for a function that does no call.
  pub Emits-bind-lift :
      (r : Result A) (f : A → Action W B)
      → ((a : A) → r ≡ ok a → Emits P (f a))
      → Emits P (lift r >>= f)
  unfolding ◌>>=◌
  Emits-bind-lift r f hf = record { at = λ w. continue-Emits (lift r w) r f tt hf }

module _ {W : Type 0} {P : Call → Type 0} where
  pub Emits-emit : (c : Call) → P c → Emits P (emit {W = W} c)
  unfolding emit
  Emits-emit c h = record { at = λ w. (h, tt) }

  module _ (client : Client W) where
    pub Emits-get :
        (gvk : GroupVersionKind) (key : NamespacedName)
        → ((r : Result Object) → P (get_object gvk key r))
        → Emits P (get client gvk key)
    unfolding get
    Emits-get gvk key h = record { at = λ w. (h (client.get gvk key w).0, tt) }

    pub Emits-list :
        (gvk : GroupVersionKind) (ns key value : String)
        → ((r : Result (List Object)) → P (list_objects gvk ns key value r))
        → Emits P (list client gvk ns key value)
    unfolding list
    Emits-list gvk ns key value h = record { at = λ w. (h (client.list gvk ns key value w).0, tt) }

    pub Emits-delete :
        (o : Object) → ((r : Result Unit) → P (delete_object o r)) → Emits P (delete client o)
    unfolding delete
    Emits-delete o h = record { at = λ w. (h (client.delete o w).0, tt) }

    pub Emits-patch :
        (o : Object) (options : PatchOptions)
        → ((r : Result Unit) → P (patch_object o options r))
        → Emits P (patch client o options)
    unfolding patch
    Emits-patch o options h = record { at = λ w. (h (client.patch o options w).0, tt) }

pub ruleset emits_rules = (
  Emits-pure, Emits-throw, Emits-lift, Emits-attempt, Emits-if, Emits-bind, Emits-emit, Emits-get,
  Emits-list, Emits-delete, Emits-patch,
)
