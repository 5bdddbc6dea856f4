-- ===== src/Json/Standard.antt =====
-- What the JSON library promises of the values that it makes.
use claw.Base.{
  String, ◌≡◌, Bool, true, Option, none, some, List, [], ◌∷◌, ◌==◌, string_eq, if◌then◌else◌,
}
use claw.Base.Int.{ℤ}
use claw.Json.{JsonLib, value}

-- The first member of a name.
abbrev pub first_of : {J : Type 0} → List (String × J) → String → Option J
first_of [] key = none
first_of ((k, j) ∷ rest) key = if k == key then some j else first_of rest key

pub record IsStandard (json : JsonLib) : Type 0 where
  pub is_object-of_items :
      (items : List (String × json.Json)) → json.is_object (json.of_items items) ≡ true
  pub at-of_items :
      (items : List (String × json.Json)) (key : String)
      → json.at (json.of_items items) key ≡ first_of items key
  pub get_string-of_string : (s : String) → json.get_string (json.of_string s) ≡ some s
  pub get_int-of_int : (n : ℤ) → json.get_int (json.of_int n) ≡ some n
  pub get_bool-of_bool : (b : Bool) → json.get_bool (json.of_bool b) ≡ some b
  pub is_array-of_elements : (l : List json.Json) → json.is_array (json.of_elements l) ≡ true
  pub elements-of_elements : (l : List json.Json) → json.elements (json.of_elements l) ≡ l

module _ (json : JsonLib) (standard : IsStandard json) where
  open json use {Json, at, get_string, of_items}
  open standard use {is_object-of_items, at-of_items}

  pub value-of_items :
      {A : Type 0} (convert : Json → Option A) (items : List (String × Json)) (key : String)
      (d a : A) (j : Json)
      → first_of items key ≡ some j
      → convert j ≡ some a
      → value json convert (of_items items) key d ≡ some a
  value-of_items convert items key d a j found h =
      rw (is_object-of_items items, at-of_items items key, found) h
