-- ===== src/Json.antt =====
-- What the program calls of the JSON library that it vendors (common/nlohmann): a parameter.
-- A conversion that throws type_error, and a parse that throws, are `none`.
pub mod Standard
use claw.Base.{String, Bool, Option, none, some, List, if◌then◌else◌}
use claw.Base.Int.{ℤ}

pub record JsonLib : Type 1 where
  pub Json : Type 0
  pub is_null : Json → Bool
  pub is_object : Json → Bool
  pub is_array : Json → Bool
  pub is_string : Json → Bool
  -- j.empty()
  pub is_empty : Json → Bool
  -- j.contains(key) together with j[key]
  pub at : Json → String → Option Json
  -- j.get<std::string>(), j.get<int>(), j.get<bool>()
  pub get_string : Json → Option String
  -- get<int64_t>() too: the number is not cut to a width
  pub get_int : Json → Option ℤ
  pub get_bool : Json → Option Bool
  -- what a range-for over j visits, and j.items()
  pub elements : Json → List Json
  pub items : Json → List (String × Json)
  -- nlohmann::json::parse, dump, operator==, and the conversions to a value
  pub parse : String → Option Json
  pub dump : Json → String
  pub equal : Json → Json → Bool
  pub of_string : String → Json
  pub of_bool : Bool → Json
  pub of_int : ℤ → Json
  pub null : Json
  pub of_items : List (String × Json) → Json
  pub of_elements : List Json → Json

-- A configuration file as a loader meets it.
pub data ConfigFile (J : Type 0) : Type 0 where
  missing : ConfigFile J
  malformed : ConfigFile J
  holds : J → ConfigFile J

module _ (json : JsonLib) where
  open json use {Json, is_object, at}

  -- j.value(key, d): the default where the key is absent; throws where j is no object or the value
  -- has another type.
  abbrev pub value {ℓ} : {A : Type ℓ} → (Json → Option A) → Json → String → A → Option A
  value convert j key d =
      if is_object j then (elim (at j key) [ none ↦ some d | some v ↦ convert v ]) else none
