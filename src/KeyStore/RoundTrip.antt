-- ===== src/KeyStore/RoundTrip.antt =====
-- What is encrypted can be decrypted.
use claw.Base.{
  ℕ, zero, suc, ◌+◌, ◌≤◌, ◌<◌, ◌≡◌, refl, ap, subst, ◌∙◌, true, false, Option, [], ◌∷◌, ◌++◌, arith,
  All, All-append, length, length-append, take, take-length, drop, drop-length, ltb, decimal,
  if_cases,
}
use claw.Base.Bytes.{Bytes, codes, bytes_eq}
use claw.KeyStore.Defs.{
  Glib, enc_prefix, is_encrypted, derive_key, extend_keystream, xor_bytes, keystream, xor_cipher,
  encrypt, decrypt,
}
use claw.KeyStore.Xor.{xor_twice, xor_lt}

abbrev pub IsBytes : Bytes → Type 0
IsBytes = All (λ b. b < 256)

-- What GLib promises: a digest has 32 bytes, base64 text consists of bytes, decodes to what was
-- encoded, and is not shorter than that.
pub record IsGlib (glib : Glib) : Type 0 where
  pub length-sha256 : (b : Bytes) → length (glib.sha256 b) ≡ 32
  pub sha256-IsBytes : (b : Bytes) → IsBytes (glib.sha256 b)
  pub decode-encode : (b : Bytes) → IsBytes b → glib.base64_decode (glib.base64_encode b) ≡ b
  pub encode-IsBytes : (b : Bytes) → IsBytes b → IsBytes (glib.base64_encode b)
  pub length-encode : (b : Bytes) → length b ≤ length (glib.base64_encode b)

length-xor_bytes : (d k : Bytes) → length d ≤ length k → length (xor_bytes d k) ≡ length d
length-xor_bytes [] k h = refl
length-xor_bytes (x ∷ d) [] h = absurd (omega (arith, h))
length-xor_bytes (x ∷ d) (y ∷ k) h = ap suc (length-xor_bytes d k (omega (arith, h)))

xor_bytes-IsBytes : (d k : Bytes) → IsBytes d → IsBytes k → IsBytes (xor_bytes d k)
xor_bytes-IsBytes [] k hd hk = tt
xor_bytes-IsBytes (x ∷ d) [] hd hk = tt
xor_bytes-IsBytes (x ∷ d) (y ∷ k) hd hk = (xor_lt x y hd.0 hk.0, xor_bytes-IsBytes d k hd.1 hk.1)

xor_bytes-twice :
    (d k : Bytes) → length d ≤ length k → IsBytes d → IsBytes k → xor_bytes (xor_bytes d k) k ≡ d
xor_bytes-twice [] k h hd hk = refl
xor_bytes-twice (x ∷ d) [] h hd hk = absurd (omega (arith, h))
xor_bytes-twice (x ∷ d) (y ∷ k) h hd hk =
    rw (xor_twice x y hd.0 hk.0, xor_bytes-twice d k (omega (arith, h)) hd.1 hk.1) refl

is_encrypted-prefix : (e : Bytes) → 0 < length e → is_encrypted (enc_prefix ++ e) ≡ true
unfolding is_encrypted
is_encrypted-prefix e h = ground (arith, h)

module _ (glib : Glib) (g : IsGlib glib) where
  extend_keystream-long :
      (fuel : ℕ) (key : Bytes) (size : ℕ) (stream : Bytes)
      → size ≤ length stream + fuel
      → size ≤ length (extend_keystream glib fuel key size stream)
  extend_keystream-long zero key size stream h = omega (arith, h)
  extend_keystream-long (suc fuel) key size stream h =
      let block = glib.sha256 (key ++ codes (decimal (length stream))) in
      let longer = extend_keystream-long fuel key size (stream ++ block) (
        omega (
          arith,
          h,
          length-append stream block,
          g.length-sha256 (key ++ codes (decimal (length stream))),
        )) in
      if_cases (λ s. size ≤ length s) (ltb (length stream) size)
        (extend_keystream glib fuel key size (stream ++ block)) stream (λ _. longer)
        (λ e. ground (arith, e))

  extend_keystream-IsBytes :
      (fuel : ℕ) (key : Bytes) (size : ℕ) (stream : Bytes)
      → IsBytes stream
      → IsBytes (extend_keystream glib fuel key size stream)
  extend_keystream-IsBytes zero key size stream h = h
  extend_keystream-IsBytes (suc fuel) key size stream h =
      let text = key ++ codes (decimal (length stream)) in
      let more =
        extend_keystream-IsBytes fuel key size (stream ++ glib.sha256 text)
          (All-append (λ b. b < 256) stream (glib.sha256 text) h (g.sha256-IsBytes text)) in
      if_cases IsBytes (ltb (length stream) size)
        (extend_keystream glib fuel key size (stream ++ glib.sha256 text)) stream (λ _. more)
        (λ _. h)

  xor_cipher-twice :
      (text key : Bytes)
      → IsBytes text
      → IsBytes key
      → xor_cipher glib (xor_cipher glib text key) key ≡ text
  unfolding xor_cipher keystream
  xor_cipher-twice text key ht hk =
      let stream = extend_keystream glib (length text) key (length text) key in
      let long : length text ≤ length stream =
        extend_keystream-long (length text) key (length text) key (omega arith) in
      let bytes = extend_keystream-IsBytes (length text) key (length text) key hk in
      rw (length-xor_bytes text stream long) (xor_bytes-twice text stream long ht bytes)

  length-xor_cipher : (text key : Bytes) → length (xor_cipher glib text key) ≡ length text
  unfolding xor_cipher keystream
  length-xor_cipher text key =
      length-xor_bytes text (extend_keystream glib (length text) key (length text) key)
        (extend_keystream-long (length text) key (length text) key (omega arith))

  xor_cipher-IsBytes :
      (text key : Bytes) → IsBytes text → IsBytes key → IsBytes (xor_cipher glib text key)
  unfolding xor_cipher keystream
  xor_cipher-IsBytes text key ht hk =
      xor_bytes-IsBytes text (extend_keystream glib (length text) key (length text) key) ht
        (extend_keystream-IsBytes (length text) key (length text) key hk)

  pub encrypt-IsBytes :
      (text nonce : Bytes) (key_file : Option Bytes)
      → IsBytes text
      → IsBytes nonce
      → IsBytes (encrypt glib text key_file nonce)
  unfolding encrypt
  encrypt-IsBytes [] nonce key_file ht hn = tt
  encrypt-IsBytes (c ∷ text) nonce key_file ht hn =
      let subkey = glib.sha256 (derive_key glib key_file ++ nonce) in
      let body = xor_cipher glib (c ∷ text) subkey in
      All-append (λ b. b < 256) enc_prefix (glib.base64_encode (nonce ++ body)) (omega arith)
        (g.encode-IsBytes (nonce ++ body) (
          All-append (λ b. b < 256) nonce body hn
            (xor_cipher-IsBytes (c ∷ text) subkey ht
              (g.sha256-IsBytes (derive_key glib key_file ++ nonce)))))

  decrypt-prefix :
      (e nonce body : Bytes) (key_file : Option Bytes)
      → 0 < length e
      → glib.base64_decode e ≡ nonce ++ body
      → length nonce ≡ 16
      → 0 < length body
      → decrypt glib (enc_prefix ++ e) key_file
        ≡ xor_cipher glib body (glib.sha256 (derive_key glib key_file ++ nonce))
  unfolding decrypt
  decrypt-prefix e nonce body key_file he decoded h16 hb =
      let first : take 16 (nonce ++ body) ≡ nonce =
        subst (λ n. take n (nonce ++ body) ≡ nonce) h16 (take-length nonce body) in
      let rest : drop 16 (nonce ++ body) ≡ body =
        subst (λ n. drop n (nonce ++ body) ≡ body) h16 (drop-length nonce body) in
      let long : ltb (length (nonce ++ body)) 17 ≡ false =
        ground (arith, length-append nonce body, h16, hb) in
      simp (is_encrypted-prefix e he, decoded, long, first, rest) refl

  -- If GLib keeps its promises: whatever the machine's key and the random nonce of 16 bytes, Encrypt
  -- gives a text that Decrypt, with the same key, turns back into the plain text, the empty one
  -- included; and IsEncrypted holds of it unless it is empty.
  pub decrypt-encrypt :
      (text nonce : Bytes) (key_file : Option Bytes)
      → IsBytes text
      → IsBytes nonce
      → length nonce ≡ 16
      → (decrypt glib (encrypt glib text key_file nonce) key_file ≡ text)
        × (is_encrypted (encrypt glib text key_file nonce) ≡ ltb 0 (length text))
  unfolding decrypt encrypt is_encrypted
  decrypt-encrypt [] nonce key_file ht hn h16 = (refl, refl)
  decrypt-encrypt (c ∷ text) nonce key_file ht hn h16 =
      let subkey = glib.sha256 (derive_key glib key_file ++ nonce) in
      let body = xor_cipher glib (c ∷ text) subkey in
      let e = glib.base64_encode (nonce ++ body) in
      let key_bytes = g.sha256-IsBytes (derive_key glib key_file ++ nonce) in
      let long : length body ≡ suc (length text) = length-xor_cipher (c ∷ text) subkey in
      let filled : 0 < length e =
        omega (arith, g.length-encode (nonce ++ body), length-append nonce body, h16) in
      let decoded = g.decode-encode (nonce ++ body) (
        All-append (λ b. b < 256) nonce body hn
          (xor_cipher-IsBytes (c ∷ text) subkey ht key_bytes)) in
      (
        decrypt-prefix e nonce body key_file filled decoded h16 (omega (arith, long))
            ∙ xor_cipher-twice (c ∷ text) subkey ht key_bytes,
        is_encrypted-prefix e filled ∙ ground arith,
      )
