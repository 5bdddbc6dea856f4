-- ===== src/KeyStore/Defs.antt =====
-- The methods of KeyStore. A text is its bytes here. What the C++ code calls of GLib is a parameter,
-- and the random nonce and the first line of the key file are arguments.
use Prim.Native.Nat.{bit_xor}
use claw.Base.{
  ℕ, zero, suc, Bool, not, ◌&&◌, Option, none, some, [], ◌∷◌, ◌++◌, length, take, drop, ltb,
  decimal, ◌==◌, if◌then◌else◌,
}
use claw.Base.Bytes.{Bytes, codes, bytes_eq}

pub record Glib : Type 0 where
  pub sha256 : Bytes → Bytes
  pub base64_encode : Bytes → Bytes
  pub base64_decode : Bytes → Bytes

abbrev pub enc_prefix : Bytes
enc_prefix = codes "ENC:"

abbrev pub salt : Bytes
salt = codes "TizenClaw_KeyStore_v1"

unfoldable pub is_encrypted : Bytes → Bool
is_encrypted value = ltb 4 (length value) && take 4 value == enc_prefix

abbrev pub xor_bytes : Bytes → Bytes → Bytes
xor_bytes [] keystream = []
xor_bytes (d ∷ data_) [] = []
xor_bytes (d ∷ data_) (k ∷ keystream) = bit_xor d k ∷ xor_bytes data_ keystream

module _ (glib : Glib) where
  open glib use {sha256, base64_encode, base64_decode}

  -- `none` where the key file cannot be opened.
  unfoldable pub derive_key : Option Bytes → Bytes
  derive_key none = sha256 (codes "tizenclaw-default-key" ++ salt)
  derive_key (some []) = sha256 (codes "tizenclaw-default-key" ++ salt)
  derive_key (some (c ∷ machine_id)) = sha256 ((c ∷ machine_id) ++ salt)

  -- The loop that extends the keystream: each turn adds bytes, so that as many turns as there are bytes
  -- of data are enough.
  abbrev pub extend_keystream : ℕ → Bytes → ℕ → Bytes → Bytes
  extend_keystream zero key size keystream = keystream
  extend_keystream (suc fuel) key size keystream =
      let longer =
        extend_keystream fuel key size
          (keystream ++ sha256 (key ++ codes (decimal (length keystream)))) in
      if ltb (length keystream) size then longer else keystream

  unfoldable pub keystream : ℕ → Bytes → Bytes
  keystream size key = extend_keystream size key size key

  unfoldable pub xor_cipher : Bytes → Bytes → Bytes
  xor_cipher text key = xor_bytes text (keystream (length text) key)

  unfoldable pub encrypt : Bytes → Option Bytes → Bytes → Bytes
  encrypt [] key_file nonce = []
  encrypt (c ∷ text) key_file nonce =
      let subkey = sha256 (derive_key key_file ++ nonce) in
      enc_prefix ++ base64_encode (nonce ++ xor_cipher (c ∷ text) subkey)

  unfoldable pub decrypt : Bytes → Option Bytes → Bytes
  decrypt ciphertext key_file =
      let decoded = base64_decode (drop 4 ciphertext) in
      let subkey = sha256 (derive_key key_file ++ take 16 decoded) in
      if not (is_encrypted ciphertext)
      then ciphertext
      else if ltb (length decoded) 17
      then []
      else xor_cipher (drop 16 decoded) subkey
