-- ===== src/Kube.antt =====
-- The Kubernetes data that the program handles (`client.Object`, `unstructured.Unstructured`,
-- `metav1.OwnerReference`, errors), and the libraries that it calls, as parameters.
pub mod Json
pub mod Laws
use autovpa.Common.{
  String, Bool, true, false, ℕ, Option, none, some, Map, List, [], nat_eq, ◌≡◌, ◌≢◌, refl, ◌⊎◌, inl,
  inr,
}
use Json.{Value}

-- metav1.OwnerReference; `*bool` is an optional flag.
pub record OwnerReference : Type 0 where
  pub api_version : String
  pub kind : String
  pub name : String
  pub uid : String
  pub controller : Option Bool
  pub block_owner_deletion : Option Bool

-- A typed API object, or an `*unstructured.Unstructured` with its `Object["spec"]` (`null` if the
-- key is missing).
pub data Body : Type 0 where
  typed : Body
  unstructured : (spec : Value) → Body

-- What the program reads and writes of a client.Object. `deletion_timestamp` is a `*metav1.Time`,
-- whose number 0 stands for the zero time.
pub record Object : Type 0 where
  pub name : String
  pub namespace : String
  pub uid : String
  pub labels : Map String
  pub annotations : Map String
  pub owner_references : List OwnerReference
  pub deletion_timestamp : Option ℕ
  pub managed_fields : List Value
  pub body : Body

-- `Object["spec"]` of an unstructured object
unfoldable pub spec_of : Body → Value
spec_of typed = Value.null
spec_of (unstructured spec) = spec

-- metav1.Time.IsZero on a pointer
unfoldable pub is_zero_time : Option ℕ → Bool
is_zero_time none = true
is_zero_time (some t) = nat_eq t 0

pub record GroupVersionKind : Type 0 where
  pub group : String
  pub version : String
  pub kind : String

-- types.NamespacedName, and ctrl.Request
pub record NamespacedName : Type 0 where
  pub namespace : String
  pub name : String

-- An API status error with the reason NotFound, any other error, and fmt.Errorf with `%w`.
pub data Error : Type 0 where
  not_found : Error
  failure : String → Error
  wrapped : String → Error → Error

-- apierrors.IsNotFound looks through wrapped errors.
unfoldable pub is_not_found : Error → Bool
is_not_found not_found = true
is_not_found (failure _) = false
is_not_found (wrapped _ e) = is_not_found e

pub data Result (A : Type 0) : Type 0 where
  ok : A → Result A
  err : Error → Result A

pub Result-cases :
    {A : Type 0} (r : Result A) → ((a : A) × (r ≡ ok a)) ⊎ ((e : Error) × (r ≡ err e))
Result-cases (ok a) = inl (a, refl)
Result-cases (err e) = inr (e, refl)

pub ok≢err : {A : Type 0} {a : A} {e : Error} → ok a ≢ err e
ok≢err h = cc h

-- client.PatchOptions, as far as the program sets it
pub record PatchOptions : Type 0 where
  pub field_manager : String
  pub force : Bool

-- controller-runtime's client.Client: the operations that the program calls, over whatever state
-- the cache, the API server and everybody else who writes to it have. `patch` is a server-side
-- apply. No law is assumed here.
pub record Client (World : Type 0) : Type 0 where
  pub get : GroupVersionKind → NamespacedName → World → Result Object × World
  pub list : GroupVersionKind → String → String → String → World → Result (List Object) × World
  pub delete : Object → World → Result (Unit {0}) × World
  pub patch : Object → PatchOptions → World → Result (Unit {0}) × World

-- autoscaling/v1 CrossVersionObjectReference
pub record TargetRef : Type 0 where
  pub api_version : String
  pub kind : String
  pub name : String

-- VerticalPodAutoscalerSpec: its targetRef, and the other fields as decoded from JSON, which the
-- program only passes on.
pub record VpaSpec : Type 0 where
  pub target_ref : Option TargetRef
  pub fields : Value

-- The pure functions of apimachinery and controller-runtime that the program calls.
pub record Platform : Type 0 where
  -- apiequality.Semantic.DeepEqual on specs and on owner references
  pub deep_equal : Value → Value → Bool
  pub deep_equal_refs : List OwnerReference → List OwnerReference → Bool
  -- runtime.DefaultUnstructuredConverter.ToUnstructured
  pub to_unstructured : VpaSpec → Result Value
  -- GroupVersion().String()
  pub group_version : GroupVersionKind → String
  -- ctrl.SetControllerReference(owner, obj, scheme)
  pub set_controller_reference : (owner object : Object) → Result Object
  -- metav1.IsControlledBy(obj, owner)
  pub is_controlled_by : (object owner : Object) → Bool
