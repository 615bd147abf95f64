-- ===== src/Samples.antt =====
-- Stand-ins for the libraries that the models take as parameters, to run the models with.
use mathlib.Core.Bool.{false≢true}
use libxayagame.Base.{
  ap, ◌≢◌, sym, ◌∙◌, ℕ, ◌+◌, String, ◌≡◌, refl, Bool, true, false, ◌&&◌, Option, some, List, [],
  ◌∷◌, if◌then◌else◌, Bool-cases, inl, inr,
}
use libxayagame.Base.Eq.{HasEquality, ◌==◌, number_equality, text_equality}
use libxayagame.Base.Json.{Json}
use libxayagame.Base.Codec.{Codec}

mutual
  pub data Value : Type 0 where
    null : Value
    string : String → Value
    number : ℕ → Value
    object : Fields → Value
    array : Items → Value

  pub data Fields : Type 0 where
    end : Fields
    field : String → Value → Fields → Fields

  pub data Items : Type 0 where
    nil : Items
    cons : Value → Items → Items

abbrev pub find_field : String → Fields → Option Value
find_field k end = Option.none
find_field k (field j v fs) = if j == k then some v else find_field k fs

abbrev pub fields_of : Value → Fields
fields_of (object fs) = fs
fields_of _ = end

abbrev pub count_fields : Fields → ℕ
count_fields end = 0
count_fields (field j v fs) = 1 + count_fields fs

abbrev pub items : Items → List Value
items nil = []
items (cons v vs) = v ∷ items vs

abbrev mutual
  pub same_value : Value → Value → Bool
  same_value null null = true
  same_value (string s) (string t) = s == t
  same_value (number m) (number n) = m == n
  same_value (object fs) (object gs) = same_fields fs gs
  same_value (array vs) (array ws) = same_items vs ws
  same_value _ _ = false

  pub same_fields : Fields → Fields → Bool
  same_fields end end = true
  same_fields (field j v fs) (field k w gs) =
      (if j == k then true else false) && same_value v w && same_fields fs gs
  same_fields _ _ = false

  pub same_items : Items → Items → Bool
  same_items nil nil = true
  same_items (cons v vs) (cons w ws) = same_value v w && same_items vs ws
  same_items _ _ = false

abbrev pub sample_json : Json
sample_json = record {
  Value = Value;
  is_object = elim [ object fs ↦ true | _ ↦ false ];
  is_array = elim [ array vs ↦ true | _ ↦ false ];
  equals = same_value;
  is_string = elim [ string s ↦ true | _ ↦ false ];
  is_uint = elim [ number n ↦ true | _ ↦ false ];
  is_member = λ v k. elim (find_field k (fields_of v)) [ Option.none ↦ false | _ ↦ true ];
  size = λ v. count_fields (fields_of v);
  at = λ v k. elim (find_field k (fields_of v)) [ Option.none ↦ null | some w ↦ w ];
  elements = elim [ array vs ↦ items vs | _ ↦ [] ];
  as_string = elim [ string s ↦ s | _ ↦ "" ];
  as_uint = elim [ number n ↦ n | _ ↦ 0 ];
}

-- A codec that can encode two values only.
module _ {A : Type 0} (same : (a b : A) → Dec (a ≡ b)) (x y : A) where
  abbrev encode_by : (a : A) → Dec (a ≡ x) → Dec (a ≡ y) → Option String
  encode_by a (yes p) _ = some "x"
  encode_by a (no p) (yes q) = some "y"
  encode_by a (no p) (no q) = Option.none

  abbrev encode : A → Option String
  encode a = encode_by a (same a x) (same a y)

  abbrev decode : String → Option A
  decode s = if s == "x" then some x else if s == "y" then some y else Option.none

  decode-encode_by :
      (a : A) (s : String) (d : Dec (a ≡ x)) (e : Dec (a ≡ y))
      → encode_by a d e ≡ some s
      → decode s ≡ some a
  decode-encode_by a s (yes p) e h = let this : "x" ≡ s = cc in rw (← this) (ap some (sym p))
  decode-encode_by a s (no p) (yes q) h = let this : "y" ≡ s = cc in rw (← this) (ap some (sym q))
  decode-encode_by a s (no p) (no q) h = cc

  pub decode-encode : (a : A) (s : String) → encode a ≡ some s → decode s ≡ some a
  decode-encode a s = decode-encode_by a s (same a x) (same a y)

  first_by : (d : Dec (x ≡ x)) (e : Dec (x ≡ y)) → encode_by x d e ≡ some "x"
  first_by (yes p) e = refl
  first_by (no p) e = absurd (p refl)

  pub encode_first : encode x ≡ some "x"
  encode_first = first_by (same x x) (same x y)

  second_by : (d : Dec (y ≡ x)) (e : Dec (y ≡ y)) → y ≢ x → encode_by y d e ≡ some "y"
  second_by (yes p) e h = absurd (h p)
  second_by (no p) (yes q) h = refl
  second_by (no p) (no q) h = absurd (q refl)

  pub encode_second : y ≢ x → encode y ≡ some "y"
  encode_second = second_by (same y x) (same y y)

  abbrev pub two_values : Codec A
  two_values = record { serialize = encode; parse = decode; parse-serialize = decode-encode }

pub discrete_of {ℓ} : {A : Type ℓ} ⦃e : HasEquality A⦄ → Discrete A
discrete_of ⦃e⦄ a b = elim (Bool-cases (e.same a b)) [
  | inl h ↦ yes ((e.same_iff a b).0 h)
  | inr h ↦ no (λ p. false≢true (sym h ∙ (e.same_iff a b).1 p))
]
