-- ===== src/System/Calls.antt =====
-- What the calls of the client leave of one VPA of a cluster that is read without delay.
use autovpa.Common.{String, Option, some, List, [], ◌∷◌, ◌≡◌, ◌≢◌, sym, ◌∙◌, All, index, ap}
use autovpa.Kube.{Object, GroupVersionKind, NamespacedName, Client, PatchOptions}
use autovpa.Effect.{get, list, delete, patch}
use autovpa.Effect.Keeps.{Keeps, Anything}
use autovpa.Controller.{vpa_gvk, vpa_list_gvk}
use autovpa.System.{key_of, IsFresh}

pub some-injective : {a b : Object} → some a ≡ some b → a ≡ b
some-injective e = cc e

module _ {W : Type 0} (client : Client W) (stored : W → NamespacedName → Option Object)
    (fresh : IsFresh client stored) (k : NamespacedName) (o : Object) where
  -- The VPA `k` is still `o`.
  abbrev pub Still : W → Type 0
  Still w = stored w k ≡ some o

  pub get-Still :
      (gvk : GroupVersionKind) (key : NamespacedName) → Keeps Still Anything (get client gvk key)
  unfolding get
  get-Still gvk key = record {
    state = λ w h. fresh.get_keeps gvk key k w ∙ h;
    answer = λ w h a e. tt;
  }

  -- A read of `k` answers with `o`.
  pub get_vpa-Still :
      (key : NamespacedName) → Keeps Still (λ x. key ≡ k → x ≡ o) (get client vpa_gvk key)
  unfolding get
  get_vpa-Still key = record {
    state = λ w h. fresh.get_keeps vpa_gvk key k w ∙ h;
    answer =
        λ w h a e same. some-injective (sym (fresh.get_fresh key w a e) ∙ (ap (stored w) same ∙ h));
  }

  pub delete-Still : (x : Object) → key_of x ≢ k → Keeps Still Anything (delete client x)
  unfolding delete
  delete-Still x other = record {
    state = λ w h. fresh.delete_only x k w other ∙ h;
    answer = λ w h a e. tt;
  }

  pub patch-Still :
      (x : Object) (options : PatchOptions)
      → key_of x ≢ k
      → Keeps Still Anything (patch client x options)
  unfolding patch
  patch-Still x options other = record {
    state = λ w h. fresh.patch_only x options k w other ∙ h;
    answer = λ w h a e. tt;
  }

  module _ (label : String) (unmanaged : index o.labels label ≢ "true") where
    others :
        (w : W) (l : List Object)
        → Still w
        → All (λ x. (stored w (key_of x) ≡ some x) × (index x.labels label ≡ "true")) l
        → All (λ x. key_of x ≢ k) l
    others w [] h all = tt
    others w (x ∷ l) h all = (
      λ same.
          let e : x ≡ o = some-injective (sym all.0.0 ∙ (ap (stored w) same ∙ h)) in
          unmanaged (ap (λ (y : Object). index y.labels label) (sym e) ∙ all.0.1),
      others w l h all.1,
    )

    -- A list of the VPAs with a label that `o` has not does not contain it.
    pub list-Still :
        (ns : String)
        → Keeps Still (All (λ x. key_of x ≢ k)) (list client vpa_list_gvk ns label "true")
    unfolding list
    list-Still ns = record {
      state = λ w h. fresh.list_keeps ns label "true" k w ∙ h;
      answer = λ w h l e. others w l h (fresh.list_fresh ns label "true" w l e);
    }
