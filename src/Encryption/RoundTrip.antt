-- ===== src/Encryption/RoundTrip.antt =====
-- What was encrypted is decrypted to what it was.
use Prim.Native.String.{◌++◌, len, slice}
use mathlib.Core.List
use polykit_rust.Prelude.Text.{starts_with}
use text.Mathlib.TextPositions.{len-append, slice-append_right, starts_with-append}
use polykit_rust.Prelude.{
  ℕ, String, ◌==◌, ◌≡◌, refl, false, [], ◌∷◌, arith, length, length-append, ltb, eq_iff, Bool-cases,
  inl, inr,
}
use polykit_rust.Prelude.Result.{ok, Result-cases}
use polykit_rust.Encryption.{
  Bytes, Primitives, nonce_len, take, drop, string_encryption_prefix, binary_encryption_header,
  encrypt, decrypt, encrypt_data, decrypt_data,
}

-- What the code relies on: a sealed text is unsealed under the key and nonce that it was sealed
-- with, and base64 and UTF-8 texts are decoded to what was encoded.
pub record Laws (p : Primitives) : Type 0 where
  pub unseal-seal :
      (key : p.Key) (nonce bytes sealed : Bytes)
      → p.seal key nonce bytes ≡ ok sealed
      → p.unseal key nonce sealed ≡ ok bytes
  pub decode-encode : (bytes : Bytes) → p.decode (p.encode bytes) ≡ ok bytes
  pub from_utf8-as_bytes : (s : String) → p.from_utf8 (p.as_bytes s) ≡ ok s

take-append : (xs ys : Bytes) → take (length xs) (List.◌++◌ xs ys) ≡ xs
take-append [] ys = refl
take-append (x ∷ xs) ys = rw (take-append xs ys)

drop-append : (xs ys : Bytes) → drop (length xs) (List.◌++◌ xs ys) ≡ ys
drop-append [] ys = refl
drop-append (x ∷ xs) ys = drop-append xs ys

slice-prefix : (s t : String) → slice (s ++ t) (len s) (len (s ++ t)) ≡ t
slice-prefix s t = rw (len-append s t) (slice-append_right s t)

take-prefix : (n : ℕ) (xs ys : Bytes) → length xs ≡ n → take n (List.◌++◌ xs ys) ≡ xs
take-prefix n xs ys h = rw (← h) (take-append xs ys)

drop-prefix : (n : ℕ) (xs ys : Bytes) → length xs ≡ n → drop n (List.◌++◌ xs ys) ≡ ys
drop-prefix n xs ys h = rw (← h) (drop-append xs ys)

long_enough :
    (nonce sealed : Bytes)
    → length nonce ≡ nonce_len
    → ltb (length (List.◌++◌ nonce sealed)) nonce_len ≡ false
long_enough nonce sealed n = ground (arith, length-append nonce sealed)

module _ (p : Primitives) (laws : Laws p) (app_secret nonce : Bytes) (user : String) where
  decrypt-empty : decrypt p app_secret "" user ≡ ok ""
  unfolding decrypt
  decrypt-empty = refl

  decrypt-sealed :
      (plaintext : String) (key : p.Key) (sealed : Bytes)
      → length nonce ≡ nonce_len
      → p.expand (p.uuid_salt user) app_secret "supabase-encryption" ≡ ok key
      → p.seal key nonce (p.as_bytes plaintext) ≡ ok sealed
      → decrypt p app_secret (string_encryption_prefix ++ p.encode (List.◌++◌ nonce sealed)) user
        ≡ ok plaintext
  unfolding decrypt
  decrypt-sealed plaintext key sealed n some_key some_seal = rw (
    starts_with-append string_encryption_prefix (p.encode (List.◌++◌ nonce sealed)),
    some_key,
    slice-prefix string_encryption_prefix (p.encode (List.◌++◌ nonce sealed)),
    laws.decode-encode (List.◌++◌ nonce sealed),
    long_enough nonce sealed n,
    take-prefix nonce_len nonce sealed n,
    drop-prefix nonce_len nonce sealed n,
    laws.unseal-seal key nonce (p.as_bytes plaintext) sealed some_seal,
    laws.from_utf8-as_bytes plaintext,
    decrypt,
  )

  -- A text that was encrypted with a nonce of twelve bytes is decrypted to what it was.
  pub decrypt-encrypt :
      (plaintext ciphertext : String)
      → length nonce ≡ nonce_len
      → encrypt p app_secret nonce plaintext user ≡ ok ciphertext
      → decrypt p app_secret ciphertext user ≡ ok plaintext
  unfolding encrypt
  decrypt-encrypt plaintext ciphertext n h = elim (Bool-cases (plaintext == "")) [
    | inl empty ↦ ground (arith, eq_iff plaintext "", decrypt-empty)
    | inr some_text ↦
        elim (Result-cases (p.expand (p.uuid_salt user) app_secret "supabase-encryption")) [
          | inr (e, no_key) ↦ ground (arith, no_key)
          | inl (key, some_key) ↦ elim (Result-cases (p.seal key nonce (p.as_bytes plaintext))) [
            | inr (e, no_seal) ↦ ground (arith, some_key, no_seal)
            | inl (sealed, some_seal) ↦ ground (
              arith,
              some_key,
              some_seal,
              decrypt-sealed plaintext key sealed n some_key some_seal,
            )
          ]
        ]
  ]

  decrypt_data-sealed :
      (bytes : Bytes) (key : p.Key) (sealed : Bytes)
      → length nonce ≡ nonce_len
      → p.expand (p.uuid_salt user) app_secret "supabase-encryption" ≡ ok key
      → p.seal key nonce bytes ≡ ok sealed
      → decrypt_data p app_secret (List.◌++◌ binary_encryption_header (List.◌++◌ nonce sealed)) user
        ≡ ok bytes
  unfolding decrypt_data starts_with
  decrypt_data-sealed bytes key sealed n some_key some_seal = rw (
    some_key,
    long_enough nonce sealed n,
    take-prefix nonce_len nonce sealed n,
    drop-prefix nonce_len nonce sealed n,
    laws.unseal-seal key nonce bytes sealed some_seal,
    decrypt_data,
  )

  decrypt_data-empty : decrypt_data p app_secret [] user ≡ ok []
  unfolding decrypt_data starts_with
  decrypt_data-empty = refl

  -- A blob that was encrypted with a nonce of twelve bytes is decrypted to what it was.
  pub decrypt_data-encrypt_data :
      (bytes ciphertext : Bytes)
      → length nonce ≡ nonce_len
      → encrypt_data p app_secret nonce bytes user ≡ ok ciphertext
      → decrypt_data p app_secret ciphertext user ≡ ok bytes
  unfolding encrypt_data
  decrypt_data-encrypt_data [] ciphertext n h = ground (arith, decrypt_data-empty)
  decrypt_data-encrypt_data (b ∷ bs) ciphertext n h =
      elim (Result-cases (p.expand (p.uuid_salt user) app_secret "supabase-encryption")) [
        | inr (e, no_key) ↦ ground (arith, no_key)
        | inl (key, some_key) ↦ elim (Result-cases (p.seal key nonce (b ∷ bs))) [
          | inr (e, no_seal) ↦ ground (arith, some_key, no_seal)
          | inl (sealed, some_seal) ↦ ground (
            arith,
            some_key,
            some_seal,
            decrypt_data-sealed (b ∷ bs) key sealed n some_key some_seal,
          )
        ]
      ]
