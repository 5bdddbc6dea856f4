-- ===== src/KeyStore/Config/Tests.antt =====
-- EncryptConfig on a configuration with a plain key and a backend that has none.
use claw.Base.{
  ℕ, String, ◌≡◌, refl, ap, true, false, none, some, List, [], ◌∷◌, arith, inl, inr, Bool-cases,
  map, any, ◌==◌, string_eq, eq_iff, if◌then◌else◌,
}
use claw.Base.Bytes.{Bytes}
use claw.Json.{holds}
use claw.TestJson.{Value, Fields, obj, arr, str, num, bool, null, field, end, test_json}
use claw.KeyStore.Tests.{glib, glib-IsGlib, nonce}
use claw.KeyStore.Config.{References, returns, writes, encrypt_config}
use claw.KeyStore.Config.Kept.{
  AreReferences, absent, present, plain_backend, AreSealed, encrypt_config-AreSealed,
}

abbrev set_in : Fields → String → Value → Fields
set_in end key v = end
set_in (field k w r) key v = if k == key then field k v r else field k w (set_in r key v)

abbrev set : Value → String → Value → Value
set (obj f) key v = obj (set_in f key v)
set j key v = j

abbrev with_items : Value → List (String × Value) → Value
with_items (obj f) l = test_json.of_items l
with_items j l = j

abbrev refs : References test_json
refs = record { set = set; with_items = with_items }

at-set_in :
    (f : Fields) (v old : Value) (key k : String)
    → test_json.at (obj f) key ≡ some old
    → test_json.at (obj (set_in f key v)) k ≡ (if key == k then some v else test_json.at (obj f) k)
at-set_in end v old key k h = cc
at-set_in (field n w r) v old key k h = elim (Bool-cases (n == key)) [
  | inl e ↦ rw e (ground (arith, eq_iff n key, eq_iff n k, eq_iff key k, e))
  | inr e ↦ rw e (
      ground
        (arith, eq_iff n key, eq_iff n k, eq_iff key k, e, at-set_in r v old key k (rw e at h)))
]

at-set :
    (j v old : Value) (key k : String)
    → test_json.at j key ≡ some old
    → test_json.at (set j key v) k ≡ (if key == k then some v else test_json.at j k)
at-set (obj f) v old key k h = at-set_in f v old key k h
at-set (arr l) v old key k h = cc
at-set (str s) v old key k h = cc
at-set (num n) v old key k h = cc
at-set (bool b) v old key k h = cc
at-set null v old key k h = cc

items-of_items : (l : List (String × Value)) → test_json.items (test_json.of_items l) ≡ l
items-of_items [] = refl
items-of_items ((k, v) ∷ l) = ap (◌∷◌ (k, v)) (items-of_items l)

no_names : (l : List (String × Value)) → map (λ p. p.0) l ≡ [] → [] ≡ l
no_names [] h = refl
no_names (p ∷ l) h = cc

items-with_items :
    (j : Value) (l : List (String × Value))
    → map (λ p. p.0) l ≡ map (λ p. p.0) (test_json.items j)
    → test_json.items (with_items j l) ≡ l
items-with_items (obj f) l h = items-of_items l
items-with_items (arr _) l h = no_names l h
items-with_items (str s) l h = no_names l h
items-with_items (num n) l h = no_names l h
items-with_items (bool b) l h = no_names l h
items-with_items null l h = no_names l h

refs-AreReferences : AreReferences test_json refs
refs-AreReferences = record {
  at-set = at-set;
  items-with_items = items-with_items;
  get_string-of_string = λ s. refl;
}

abbrev openai : Value
openai = obj (field "url" (str "u") (field "api_key" (str "sk-1") end))

abbrev backends : Value
backends = obj (field "openai" openai (field "ollama" (obj end) end))

abbrev config : Value
config = obj (field "active" (str "openai") (field "backends" backends end))

abbrev nonces : ℕ → Bytes
nonces i = nonce

encrypt_config-AreSealed_example :
    (config' : Value) × (backends' : Value) × (encrypt_config test_json refs glib none nonces true
        (holds config)
      ≡ (if any (λ p. plain_backend test_json p.1) (test_json.items backends)
          then if true then writes config' else returns false
          else returns true))
    × (test_json.at config' "backends" ≡ some backends')
    × AreSealed test_json glib none (test_json.items backends) (test_json.items backends')
    × ((k : String) → ("backends" == k) ≡ false → test_json.at config' k ≡ test_json.at config k)
    × (encrypt_config test_json refs glib none nonces true (holds config') ≡ returns true)
encrypt_config-AreSealed_example =
    encrypt_config-AreSealed test_json refs refs-AreReferences glib glib-IsGlib none nonces
      (λ i. (ground arith, refl)) true config backends refl
      (present (str "sk-1") "sk-1" refl refl (ground arith), (absent refl, tt))

plain_test : any (λ p. plain_backend test_json p.1) (test_json.items backends) ≡ true
unfolding claw.KeyStore.Defs.is_encrypted
plain_test = refl
