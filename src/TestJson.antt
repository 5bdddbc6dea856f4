-- ===== src/TestJson.antt =====
-- A concrete JSON library for the tests and the witnesses of the other modules.
use claw.Base.{
  String, ◌≡◌, refl, ap, ◌⧺◌, to_string, Bool, true, false, Option, none, some, List, [], ◌∷◌, ◌==◌,
  string_eq, if◌then◌else◌,
}
use claw.Base.Int.{ℤ}
use claw.Json.{JsonLib}
use claw.Json.Standard.{IsStandard, first_of}

mutual
  pub data Fields : Type 0 where
    field : String → Value → Fields → Fields
    end : Fields

  pub data Items : Type 0 where
    cons : Value → Items → Items
    nil : Items

  pub data Value : Type 0 where
    str : String → Value
    num : ℤ → Value
    bool : Bool → Value
    obj : Fields → Value
    arr : Items → Value
    null : Value

abbrev of_items : List (String × Value) → Fields
of_items [] = end
of_items ((k, v) ∷ r) = field k v (of_items r)

abbrev of_elements : List Value → Items
of_elements [] = nil
of_elements (v ∷ r) = cons v (of_elements r)

abbrev to_items : Fields → List (String × Value)
to_items end = []
to_items (field k v r) = (k, v) ∷ to_items r

abbrev to_elements : Items → List Value
to_elements nil = []
to_elements (cons v r) = v ∷ to_elements r

abbrev at : List (String × Value) → String → Option Value
at [] key = none
at ((k, v) ∷ r) key = if k == key then some v else at r key

abbrev items : Value → List (String × Value)
items (obj f) = to_items f
items _ = []

abbrev elements : Value → List Value
elements (arr xs) = to_elements xs
elements _ = []

abbrev get_string : Value → Option String
get_string (str s) = some s
get_string _ = none

abbrev get_int : Value → Option ℤ
get_int (num n) = some n
get_int _ = none

abbrev get_bool : Value → Option Bool
get_bool (bool b) = some b
get_bool _ = none

abbrev is_null : Value → Bool
is_null null = true
is_null _ = false

abbrev is_object : Value → Bool
is_object (obj f) = true
is_object _ = false

abbrev is_array : Value → Bool
is_array (arr xs) = true
is_array _ = false

abbrev is_string : Value → Bool
is_string (str s) = true
is_string _ = false

abbrev is_empty : Value → Bool
is_empty null = true
is_empty (obj end) = true
is_empty (arr nil) = true
is_empty _ = false

-- Scalars print in full, the rest by their kind alone.
abbrev dump : Value → String
dump null = "null"
dump (bool true) = "true"
dump (bool false) = "false"
dump (num n) = to_string n
dump (str s) = "\"" ⧺ (s ⧺ "\"")
dump (arr xs) = "[]"
dump (obj f) = "{}"

abbrev parse : String → Option Value
parse s =
    if s == "null"
    then some null
    else if s == "true"
    then some (bool true)
    else if s == "false"
    then some (bool false)
    else none

abbrev pub test_json : JsonLib
test_json = record {
  Json = Value;
  is_null = is_null;
  is_object = is_object;
  is_array = is_array;
  is_string = is_string;
  is_empty = is_empty;
  at = λ j key. at (items j) key;
  get_string = get_string;
  get_int = get_int;
  get_bool = get_bool;
  elements = elements;
  items = items;
  parse = parse;
  dump = dump;
  equal = λ a b. dump a == dump b;
  of_string = str;
  of_bool = bool;
  of_int = num;
  null = null;
  of_items = λ l. obj (of_items l);
  of_elements = λ l. arr (of_elements l);
}

pub at-of_items :
    (items : List (String × Value)) (key : String)
    → test_json.at (test_json.of_items items) key ≡ first_of items key
at-of_items [] key = refl
at-of_items ((k, j) ∷ items) key =
    ap (λ later. if k == key then some j else later) (at-of_items items key)

pub elements-of_elements : (l : List Value) → test_json.elements (test_json.of_elements l) ≡ l
elements-of_elements [] = refl
elements-of_elements (v ∷ l) = ap (◌∷◌ v) (elements-of_elements l)

pub test_json-IsStandard : IsStandard test_json
test_json-IsStandard = record {
  is_object-of_items = λ items. refl;
  at-of_items = at-of_items;
  get_string-of_string = λ s. refl;
  get_int-of_int = λ n. refl;
  get_bool-of_bool = λ b. refl;
  is_array-of_elements = λ l. refl;
  elements-of_elements = elements-of_elements;
}
