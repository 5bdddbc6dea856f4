-- ===== src/KeyStore/Config/Kept.antt =====
-- What EncryptConfig changes in a configuration, and that a second run changes nothing.
use claw.Base.{
  ℕ, String, ◌≡◌, refl, sym, subst, ◌∙◌, Bool, true, false, not, ◌&&◌, Option, none, some, List, [],
  ◌∷◌, map, any, arith, inl, inr, suc, All, Bool-cases, length, ltb, ◌==◌, string_eq, if◌then◌else◌,
}
use claw.Base.Bytes.{Bytes, codes, text_of, codes-text_of}
use claw.Json.{JsonLib, holds}
use claw.KeyStore.Defs.{Glib, is_encrypted, encrypt, decrypt}
use claw.KeyStore.RoundTrip.{IsBytes, IsGlib, encrypt-IsBytes, decrypt-encrypt}
use claw.KeyStore.Config.{
  References, returns, writes, encrypt_backend, encrypt_backends, encrypt_config,
}

-- What a write through a reference changes, and nothing else.
pub record AreReferences (json : JsonLib) (refs : References json) : Type 0 where
  pub at-set :
      (j v old : json.Json) (key k : String)
      → json.at j key ≡ some old
      → json.at (refs.set j key v) k ≡ (if key == k then some v else json.at j k)
  pub items-with_items :
      (j : json.Json) (l : List (String × json.Json))
      → map (λ p. p.0) l ≡ map (λ p. p.0) (json.items j)
      → json.items (refs.with_items j l) ≡ l
  pub get_string-of_string : (s : String) → json.get_string (json.of_string s) ≡ some s

-- A key that EncryptConfig encrypts.
abbrev pub is_plain : Bytes → Bool
is_plain api_key = ltb 0 (length api_key) && not (is_encrypted api_key)

module _ (json : JsonLib) where
  open json use {Json, at, get_string}

  abbrev plain_text : Option String → Bool
  plain_text none = false
  plain_text (some s) = is_plain (codes s)

  abbrev plain_field : Option Json → Bool
  plain_field none = false
  plain_field (some f) = plain_text (get_string f)

  abbrev pub plain_backend : Json → Bool
  plain_backend backend = plain_field (at backend "api_key")

  -- The key is absent, or a string of bytes.
  pub data HasKey (b : Json) : Type 0 where
    absent : at b "api_key" ≡ none → HasKey b
    present :
        (f : Json) (s : String)
        → at b "api_key" ≡ some f
        → get_string f ≡ some s
        → IsBytes (codes s)
        → HasKey b

module _ (json : JsonLib) (glib : Glib) (key_file : Option Bytes) where
  open json use {Json, at, get_string}

  -- The same key in both, once decrypted, and not plain in the second.
  pub data SameKey (b b' : Json) : Type 0 where
    no_key : at b "api_key" ≡ none → at b' "api_key" ≡ none → SameKey b b'
    same_key :
        (f f' : Json) (s s' : String)
        → at b "api_key" ≡ some f
        → get_string f ≡ some s
        → at b' "api_key" ≡ some f'
        → get_string f' ≡ some s'
        → decrypt glib (codes s') key_file ≡ decrypt glib (codes s) key_file
        → is_plain (codes s') ≡ false
        → SameKey b b'

  pub record IsSealed (b b' : Json) : Type 0 where
    pub others : (k : String) → ("api_key" == k) ≡ false → at b' k ≡ at b k
    pub key : SameKey b b'

  -- The same names in the same order, and every backend sealed.
  abbrev pub AreSealed : List (String × Json) → List (String × Json) → Type 0
  AreSealed [] [] = Unit
  AreSealed [] (_ ∷ _) = ⊥
  AreSealed (_ ∷ _) [] = ⊥
  AreSealed ((name, b) ∷ l) ((name', b') ∷ l') = (name' ≡ name) × IsSealed b b' × AreSealed l l'

  AreSealed-names :
      (l l' : List (String × Json)) → AreSealed l l' → map (λ p. p.0) l' ≡ map (λ p. p.0) l
  AreSealed-names [] [] h = refl
  AreSealed-names [] (_ ∷ _) h = absurd h
  AreSealed-names (_ ∷ _) [] h = absurd h
  AreSealed-names ((name, b) ∷ l) ((name', b') ∷ l') h = rw (h.0, AreSealed-names l l' h.2) refl

decrypt-plain :
    (glib : Glib) (t : Bytes) (key_file : Option Bytes)
    → is_encrypted t ≡ false
    → decrypt glib t key_file ≡ t
unfolding decrypt
decrypt-plain glib t key_file h = rw h refl

module _ (json : JsonLib) (refs : References json) (r : AreReferences json refs) (glib : Glib)
    (g : IsGlib glib) (key_file : Option Bytes) (nonces : ℕ → Bytes)
    (drawn : (i : ℕ) → IsBytes (nonces i) × (length (nonces i) ≡ 16)) where
  open json use {Json, at, items, get_string, of_string}
  open refs use {set, with_items}

  abbrev Turned : ℕ → Json → Type 0
  Turned d b =
      (b' : Json) × (d' : ℕ) × (encrypt_backend json refs glib key_file nonces d b
        ≡ some (b', plain_backend json b, d'))
      × IsSealed json glib key_file b b'

  turn : (d : ℕ) (b : Json) → HasKey json b → Turned d b
  unfolding encrypt_backend
  turn d b (absent e) = (b, d, rw e refl, record { others = λ k h. refl; key = no_key e e })
  turn d b (present f s e es hs) = elim (Bool-cases (is_plain (codes s))) [
    | inl plain ↦
        let sealed = encrypt glib (codes s) key_file (nonces d) in
        let v = of_string (text_of sealed) in
        let written = r.at-set b v f in
        let (back, marked) =
          decrypt-encrypt glib g (codes s) (nonces d) key_file hs (drawn d).0 (drawn d).1 in
        let bytes =
          codes-text_of sealed
            (encrypt-IsBytes glib g (codes s) (nonces d) key_file hs (drawn d).0) in
        (
          set b "api_key" v,
          suc d,
          rw (e, es, plain) refl,
          record {
            others = λ k h. written "api_key" k e ∙ rw h refl;
            key =
                same_key f v s (text_of sealed) e es (written "api_key" "api_key" e)
                  (r.get_string-of_string (text_of sealed))
                  (rw bytes
                    (back ∙ sym (decrypt-plain glib (codes s) key_file (ground (arith, plain)))))
                  (rw bytes (ground (arith, plain, marked)));
          },
        )
    | inr kept ↦ (
      b,
      d,
      rw (e, es, kept) refl,
      record { others = λ k h. refl; key = same_key f f s s e es e es refl kept },
    )
  ]

  loop_lem :
      (d : ℕ) (l : List (String × Json))
      → All (λ p. HasKey json p.1) l
      → (l' : List (String × Json)) × (encrypt_backends json refs glib key_file nonces d l
          ≡ some (l', any (λ p. plain_backend json p.1) l))
        × AreSealed json glib key_file l l'
  unfolding encrypt_backends
  loop_lem d [] h = ([], refl, tt)
  loop_lem d ((name, b) ∷ l) h =
      let (b', d', e, sealed) = turn d b h.0 in
      let (l', es, all) = loop_lem d' l h.1 in
      ((name, b') ∷ l', ground (arith, e, es), (refl, sealed, all))

  again :
      (d : ℕ) (b b' : Json)
      → SameKey json glib key_file b b'
      → encrypt_backend json refs glib key_file nonces d b' ≡ some (b', false, d)
  unfolding encrypt_backend
  again d b b' (no_key e e') = rw e' refl
  again d b b' (same_key f f' s s' e es e' es' hd hp) = rw (e', es', hp) refl

  again_all :
      (d : ℕ) (l l' : List (String × Json))
      → AreSealed json glib key_file l l'
      → encrypt_backends json refs glib key_file nonces d l' ≡ some (l', false)
  unfolding encrypt_backends
  again_all d [] [] h = refl
  again_all d [] (_ ∷ _) h = absurd h
  again_all d (_ ∷ _) [] h = absurd h
  again_all d ((name, b) ∷ l) ((name', b') ∷ l') h =
      ground (arith, again d b b' h.1.key, again_all d l l' h.2)

  -- If the writes through references change what they name and nothing else, GLib keeps its promises,
  -- nonces have 16 bytes, and every API key below "backends" is absent or a string of bytes:
  -- EncryptConfig writes the file exactly if some key is plain and the file can be opened, fails if one
  -- is plain and it cannot, and succeeds without writing if none is. The new content has the same
  -- backends in the same order, in each of them the same key once it is decrypted, no plain key, and
  -- everything else unchanged; and another run on it writes nothing.
  pub encrypt_config-AreSealed :
      (writable : Bool) (config backends : Json)
      → at config "backends" ≡ some backends
      → All (λ p. HasKey json p.1) (items backends)
      → (config' : Json) × (backends' : Json) × (encrypt_config json refs glib key_file nonces
            writable
            (holds config)
          ≡ (if any (λ p. plain_backend json p.1) (items backends)
              then if writable then writes config' else returns false
              else returns true))
        × (at config' "backends" ≡ some backends')
        × AreSealed json glib key_file (items backends) (items backends')
        × ((k : String) → ("backends" == k) ≡ false → at config' k ≡ at config k)
        × (encrypt_config json refs glib key_file nonces writable (holds config') ≡ returns true)
  unfolding encrypt_config
  encrypt_config-AreSealed writable config backends e h =
      let (l', es, all) = loop_lem 0 (items backends) h in
      let names = AreSealed-names json glib key_file (items backends) l' all in
      let backends' = with_items backends l' in
      let listed = r.items-with_items backends l' names in
      let written = r.at-set config backends' backends in
      let found = written "backends" "backends" e in
      (
        set config "backends" backends',
        backends',
        rw (e, es) (ground arith),
        found,
        subst (AreSealed json glib key_file (items backends)) (sym listed) all,
        (λ k other. written "backends" k e ∙ rw other refl),
        rw (found, listed, again_all 0 (items backends) l' all) refl,
      )
