-- ===== src/Metrics/Labels.antt =====
-- How an action keeps to the labels of internal/metrics/metrics.go: rules beside those of Effect/Emits.
use autovpa.Common.{String}
use autovpa.Kube.{Object, GroupVersionKind, NamespacedName, Client, PatchOptions}
use autovpa.Effect.{Event, record_event, emit, get, list, delete, patch}
use autovpa.Effect.Emits.{
  Emits, emits_rules, Emits-get, Emits-list, Emits-delete, Emits-patch, Emits-emit,
}
use autovpa.Metrics.Registry.{HasItsLabels}

-- The client's calls are no metrics.
module _ {W : Type 0} (client : Client W) where
  pub get-HasItsLabels :
      (gvk : GroupVersionKind) (key : NamespacedName) → Emits HasItsLabels (get client gvk key)
  get-HasItsLabels gvk key = Emits-get client gvk key (λ r. tt)

  pub list-HasItsLabels :
      (gvk : GroupVersionKind) (ns key value : String)
      → Emits HasItsLabels (list client gvk ns key value)
  list-HasItsLabels gvk ns key value = Emits-list client gvk ns key value (λ r. tt)

  pub delete-HasItsLabels : (o : Object) → Emits HasItsLabels (delete client o)
  delete-HasItsLabels o = Emits-delete client o (λ r. tt)

  pub patch-HasItsLabels : (o : Object) (p : PatchOptions) → Emits HasItsLabels (patch client o p)
  patch-HasItsLabels o p = Emits-patch client o p (λ r. tt)

pub event-HasItsLabels :
    {W : Type 0} (e : Event) → Emits HasItsLabels (emit {W = W} (record_event e))
event-HasItsLabels e = Emits-emit (record_event e) tt

pub ruleset labels_rules = (
  get-HasItsLabels, list-HasItsLabels, delete-HasItsLabels, patch-HasItsLabels, event-HasItsLabels,
  emits_rules,
)
