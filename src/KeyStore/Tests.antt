-- ===== src/KeyStore/Tests.antt =====
-- KeyStore at a concrete input, with a simple hash and a simple encoding in place of those of GLib.
use claw.Base.{
  ℕ, zero, suc, ◌+◌, ◌-◌, ◌*◌, ◌/◌, ◌%◌, ◌≤◌, ◌<◌, ◌≡◌, refl, some, [], ◌∷◌, arith, length,
  length-replicate, replicate, ltb,
}
use claw.Base.Bytes.{Bytes, codes}
use claw.KeyStore.Defs.{Glib, is_encrypted, encrypt, decrypt}
use claw.KeyStore.RoundTrip.{IsBytes, IsGlib, decrypt-encrypt}

abbrev pub hash : Bytes → Bytes
hash text = replicate 32 (length text % 256)

-- Two letters to a byte.
abbrev pub encode : Bytes → Bytes
encode [] = []
encode (b ∷ text) = (b / 16 + 65) ∷ (b % 16 + 65) ∷ encode text

abbrev pub decode : Bytes → Bytes
decode [] = []
decode (a ∷ []) = []
decode (a ∷ b ∷ text) = ((a - 65) * 16 + (b - 65)) ∷ decode text

abbrev pub glib : Glib
glib = record { sha256 = hash; base64_encode = encode; base64_decode = decode }

replicate-IsBytes : (n b : ℕ) → b < 256 → IsBytes (replicate n b)
replicate-IsBytes zero b h = tt
replicate-IsBytes (suc n) b h = (h, replicate-IsBytes n b h)

decode-encode : (text : Bytes) → decode (encode text) ≡ text
decode-encode [] = refl
decode-encode (b ∷ text) =
    let byte : (b / 16 + 65 - 65) * 16 + (b % 16 + 65 - 65) ≡ b = omega arith in
    rw (byte, decode-encode text) refl

encode-IsBytes : (text : Bytes) → IsBytes text → IsBytes (encode text)
encode-IsBytes [] h = tt
encode-IsBytes (b ∷ text) h = (omega (arith, h.0), (omega (arith, h.0), encode-IsBytes text h.1))

length-encode : (text : Bytes) → length text ≤ length (encode text)
length-encode [] = omega arith
length-encode (b ∷ text) = omega (arith, length-encode text)

pub glib-IsGlib : IsGlib glib
glib-IsGlib = record {
  length-sha256 = λ text. length-replicate {A = ℕ} 32 (length text % 256);
  sha256-IsBytes = λ text. replicate-IsBytes 32 (length text % 256) (omega arith);
  decode-encode = λ text h. decode-encode text;
  encode-IsBytes = encode-IsBytes;
  length-encode = length-encode;
}

abbrev pub nonce : Bytes
nonce = 1 ∷ 2 ∷ 3 ∷ 4 ∷ 5 ∷ 6 ∷ 7 ∷ 8 ∷ 9 ∷ 10 ∷ 11 ∷ 12 ∷ 13 ∷ 14 ∷ 15 ∷ 255 ∷ []

decrypt-encrypt_example :
    (decrypt glib (encrypt glib (codes "sk-1") (some (codes "a1b2")) nonce) (some (codes "a1b2"))
      ≡ codes "sk-1")
    × (is_encrypted (encrypt glib (codes "sk-1") (some (codes "a1b2")) nonce)
        ≡ ltb 0 (length (codes "sk-1")))
decrypt-encrypt_example =
    decrypt-encrypt glib glib-IsGlib (codes "sk-1") nonce (some (codes "a1b2")) (ground arith)
      (ground arith) refl
