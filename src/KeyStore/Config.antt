-- ===== src/KeyStore/Config.antt =====
-- KeyStore::EncryptConfig (infra/key_store.cc): the API keys of a configuration file. A key is a
-- text whose characters are bytes. Writes into the parsed value are operations of the JSON library.
mod Kept
mod Tests
use claw.Base.{
  ℕ, suc, String, Bool, true, false, not, ◌&&◌, Option, none, some, List, [], ◌∷◌, if◌then◌else◌,
  length, ltb,
}
use claw.Base.Bytes.{Bytes, codes, text_of}
use claw.Json.{JsonLib, ConfigFile, missing, malformed, holds}
use claw.KeyStore.Defs.{Glib, is_encrypted, encrypt}

-- What is written through references: j[key] = v for a key that is present, and j after its values
-- have been changed in a loop over j.items().
pub record References (json : JsonLib) : Type 0 where
  pub set : json.Json → String → json.Json → json.Json
  pub with_items : json.Json → List (String × json.Json) → json.Json

-- What becomes of the file, and what is returned.
pub data ConfigOutcome (J : Type 0) : Type 0 where
  returns : Bool → ConfigOutcome J
  -- the new content, and `return true`
  writes : J → ConfigOutcome J
  -- a key that is no string: type_error leaves the function
  throws : ConfigOutcome J

-- A backend after its turn, whether its key was encrypted, and the nonces that are left. The i-th
-- call of Encrypt draws the i-th nonce.
abbrev pub Turn : Type 0 → Type 0
Turn J = J × Bool × ℕ

module _ (json : JsonLib) (refs : References json) (glib : Glib) (key_file : Option Bytes)
    (nonces : ℕ → Bytes) where
  open json use {Json, at, items, get_string, of_string}
  open refs use {set, with_items}

  abbrev pub encrypt_key : ℕ → Json → Bytes → Turn Json
  encrypt_key drawn backend api_key =
      if ltb 0 (length api_key) && not (is_encrypted api_key)
      then (
        set backend "api_key" (of_string (text_of (encrypt glib api_key key_file (nonces drawn)))),
        true,
        suc drawn,
      )
      else (backend, false, drawn)

  abbrev pub encrypt_text : ℕ → Json → Option String → Option (Turn Json)
  encrypt_text drawn backend none = none
  encrypt_text drawn backend (some api_key) = some (encrypt_key drawn backend (codes api_key))

  abbrev pub encrypt_field : ℕ → Json → Option Json → Option (Turn Json)
  encrypt_field drawn backend none = some (backend, false, drawn)
  encrypt_field drawn backend (some field) = encrypt_text drawn backend (get_string field)

  -- The body of the loop.
  unfoldable pub encrypt_backend : ℕ → Json → Option (Turn Json)
  encrypt_backend drawn backend = encrypt_field drawn backend (at backend "api_key")

  abbrev pub put_backend :
      String
      → Json
      → Bool
      → Option (List (String × Json) × Bool)
      → Option (List (String × Json) × Bool)
  put_backend name backend changed none = none
  put_backend name backend changed (some (rest, later)) =
      some ((name, backend) ∷ rest, if changed then true else later)

  -- The loop, with `changed`.
  unfoldable pub encrypt_backends : ℕ → List (String × Json) → Option (List (String × Json) × Bool)
  encrypt_backends drawn [] = some ([], false)
  encrypt_backends drawn ((name, backend) ∷ rest) = elim (encrypt_backend drawn backend) [
    | none ↦ none
    | some (backend', changed, drawn') ↦
        put_backend name backend' changed (encrypt_backends drawn' rest)
  ]

  abbrev pub write_config :
      Bool → Json → Json → Option (List (String × Json) × Bool) → ConfigOutcome Json
  write_config writable config backends none = throws
  write_config writable config backends (some (_, false)) = returns true
  write_config writable config backends (some (changed, true)) =
      if writable
      then writes (set config "backends" (with_items backends changed))
      else returns false

  abbrev pub encrypt_in : Bool → Json → Option Json → ConfigOutcome Json
  encrypt_in writable config none = returns true
  encrypt_in writable config (some backends) =
      write_config writable config backends (encrypt_backends 0 (items backends))

  unfoldable pub encrypt_config : Bool → ConfigFile Json → ConfigOutcome Json
  encrypt_config writable missing = returns false
  encrypt_config writable malformed = returns false
  encrypt_config writable (holds config) = encrypt_in writable config (at config "backends")
