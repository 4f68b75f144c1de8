-- ===== src/Effect.antt =====
-- What a reconciler does: it calls the client, the event recorder and the metrics, and returns a
-- result or an error. An action takes the state of the outside world and gives back, beside the
-- result and the new state, the calls that it made, in order. Calls made before an error stay made.
-- Log lines are not modelled.
pub mod Emits
pub mod Counts
pub mod Keeps
pub mod Ends
pub mod Runs
pub mod Costs
use autovpa.Common.{String, Option, List, [], ◌∷◌, ◌++◌}
use autovpa.Kube.{
  Object, GroupVersionKind, NamespacedName, Error, Result, ok, err, PatchOptions, Client,
}

pub data EventType : Type 0 where
  normal warning : EventType

-- Eventf(regarding, related, type, reason, action, note, args...). The note is its arguments.
pub record Event : Type 0 where
  pub regarding : String
  pub related : Option String
  pub type : EventType
  pub reason : String
  pub action : String
  pub args : List String

-- The counters of metrics.Registry. There is one gauge, `autovpa_managed_vpa`.
pub data Counter : Type 0 where
  vpa_created vpa_updated vpa_skipped : Counter
  vpa_deleted_obsolete vpa_deleted_opt_out vpa_deleted_workload_gone : Counter
  vpa_deleted_owner_gone vpa_deleted_orphaned : Counter
  vpa_reconcile_errors : Counter

-- A call with what it was given, and for the client's calls what came back.
pub data Call : Type 0 where
  get_object : GroupVersionKind → NamespacedName → Result Object → Call
  list_objects : GroupVersionKind → (namespace key value : String) → Result (List Object) → Call
  delete_object : Object → Result (Unit {0}) → Call
  patch_object : Object → PatchOptions → Result (Unit {0}) → Call
  record_event : Event → Call
  counter_inc : Counter → (labels : List String) → Call
  gauge_inc : (labels : List String) → Call
  gauge_dec : (labels : List String) → Call

pub record Outcome (W A : Type 0) : Type 0 where
  pub result : Result A
  pub world : W
  pub calls : List Call

abbrev pub Action : Type 0 → Type 0 → Type 0
Action W A = W → Outcome W A

module _ {W A : Type 0} where
  abbrev pub pure : A → Action W A
  pure a w = record { result = ok a; world = w; calls = [] }

  abbrev pub throw : Error → Action W A
  throw e w = record { result = err e; world = w; calls = [] }

  -- A function that may fail, with no effect on the world.
  abbrev pub lift : Result A → Action W A
  lift r w = record { result = r; world = w; calls = [] }

  -- Whether an action failed, as a value: `x, err := m()`.
  abbrev pub attempt : Action W A → Action W (Result A)
  attempt m w = let o = m w in record { result = ok o.result; world = o.world; calls = o.calls }

  -- Puts calls in front of those of an outcome.
  abbrev pub after_calls : List Call → Outcome W A → Outcome W A
  after_calls cs o = record { result = o.result; world = o.world; calls = cs ++ o.calls }

module _ {W A B : Type 0} where
  abbrev pub continue : Outcome W A → Result A → (A → Action W B) → Outcome W B
  continue o (ok a) f = after_calls o.calls (f a o.world)
  continue o (err e) f = record { result = err e; world = o.world; calls = o.calls }

  infixl 10 ◌>>=◌ ◌>>◌
  unfoldable pub ◌>>=◌ : Action W A → (A → Action W B) → Action W B
  ◌>>=◌ m f w = let o = m w in continue o o.result f

  abbrev pub ◌>>◌ : Action W A → Action W B → Action W B
  m >> n = m >>= λ _. n

module _ {W : Type 0} where
  -- A call that gives nothing back.
  unfoldable pub emit : Call → Action W (Unit {0})
  emit c w = record { result = ok tt; world = w; calls = c ∷ [] }

  module _ (client : Client W) where
    unfoldable pub get : GroupVersionKind → NamespacedName → Action W Object
    get gvk key w =
        let (r, w') = client.get gvk key w in
        record { result = r; world = w'; calls = get_object gvk key r ∷ [] }

    unfoldable pub list : GroupVersionKind → String → String → String → Action W (List Object)
    list gvk ns key value w =
        let (r, w') = client.list gvk ns key value w in
        record { result = r; world = w'; calls = list_objects gvk ns key value r ∷ [] }

    unfoldable pub delete : Object → Action W (Unit {0})
    delete o w =
        let (r, w') = client.delete o w in
        record { result = r; world = w'; calls = delete_object o r ∷ [] }

    unfoldable pub patch : Object → PatchOptions → Action W (Unit {0})
    patch o options w =
        let (r, w') = client.patch o options w in
        record { result = r; world = w'; calls = patch_object o options r ∷ [] }
