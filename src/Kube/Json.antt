-- ===== src/Kube/Json.antt =====
-- The content of an unstructured object: what JSON decodes to in Go (`any`, `map[string]any`).
use autovpa.Common.{
  Bool, true, false, String, ◌≡◌, ◌==◌, eq_iff, arith, ◌↔◌, ◌&&◌, eq_self, and_true,
}

-- A number is kept as the text that prints it. The members of an object stand in key order, so
-- that two objects are the same map when they are the same list.
mutual
  pub data Value : Type 0 where
    null : Value
    boolean : Bool → Value
    number : String → Value
    text : String → Value
    array : Elements → Value
    object : Members → Value

  pub data Elements : Type 0 where
    nil : Elements
    cons : Value → Elements → Elements

  pub data Members : Type 0 where
    end : Members
    member : String → Value → Members → Members

same_bool : Bool → Bool → Bool
same_bool true b = b
same_bool false true = false
same_bool false false = true

-- reflect.DeepEqual on such values
unfoldable mutual
  unfolding same_bool

  pub value_equal : Value → Value → Bool
  value_equal null null = true
  value_equal (boolean a) (boolean b) = same_bool a b
  value_equal (number a) (number b) = a == b
  value_equal (text a) (text b) = a == b
  value_equal (array a) (array b) = elements_equal a b
  value_equal (object a) (object b) = members_equal a b
  value_equal _ _ = false

  pub elements_equal : Elements → Elements → Bool
  elements_equal nil nil = true
  elements_equal (cons a as') (cons b bs) = value_equal a b && elements_equal as' bs
  elements_equal _ _ = false

  pub members_equal : Members → Members → Bool
  members_equal end end = true
  members_equal (member j a as') (member k b bs) =
      (j == k) && (value_equal a b && members_equal as' bs)
  members_equal _ _ = false

mutual
  unfolding value_equal elements_equal members_equal same_bool

  value_sound : (a b : Value) → value_equal a b ≡ true → a ≡ b
  value_sound null b h = ground arith
  value_sound (boolean x) b h = ground arith
  value_sound (number x) (number y) h = ground (arith, eq_iff x y)
  value_sound (text x) (text y) h = ground (arith, eq_iff x y)
  value_sound (array x) (array y) h = ground (arith, elements_sound x y)
  value_sound (object x) (object y) h = ground (arith, members_sound x y)
  value_sound _ _ h = ground arith

  elements_sound : (a b : Elements) → elements_equal a b ≡ true → a ≡ b
  elements_sound nil b h = ground arith
  elements_sound (cons x xs) (cons y ys) h =
      let (p, q) = and_true (value_equal x y) (elements_equal xs ys) h in
      cc (value_sound x y p, elements_sound xs ys q)
  elements_sound (cons x xs) nil h = ground arith

  members_sound : (a b : Members) → members_equal a b ≡ true → a ≡ b
  members_sound end b h = ground arith
  members_sound (member j x xs) (member k y ys) h =
      let (p, r) = and_true (j == k) (value_equal x y && members_equal xs ys) h in
      let (q, t) = and_true (value_equal x y) (members_equal xs ys) r in
      cc ((eq_iff j k).0 p, value_sound x y q, members_sound xs ys t)
  members_sound (member j x xs) end h = ground arith

mutual
  unfolding value_equal elements_equal members_equal same_bool

  value_self : (a : Value) → value_equal a a ≡ true
  value_self null = ground arith
  value_self (boolean x) = ground arith
  value_self (number x) = eq_self x
  value_self (text x) = eq_self x
  value_self (array x) = elements_self x
  value_self (object x) = members_self x

  elements_self : (a : Elements) → elements_equal a a ≡ true
  elements_self nil = ground arith
  elements_self (cons x xs) = ground (arith, value_self x, elements_self xs)

  members_self : (a : Members) → members_equal a a ≡ true
  members_self end = ground arith
  members_self (member j x xs) = ground (arith, eq_self j, value_self x, members_self xs)

-- `value_equal` decides equality.
pub value_equal_iff : (a b : Value) → (value_equal a b ≡ true) ↔ (a ≡ b)
value_equal_iff a b = (value_sound a b, λ e. rw e (value_self b))
