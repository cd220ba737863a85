-- ===== src/Encryption.antt =====
-- crates/polybase/src/encryption.rs: the wire format of encrypted texts and blobs. The primitives
-- of other crates (AES-GCM, HKDF, base64, UUIDs) and the UTF-8 conversions are parameters.
pub mod RoundTrip
pub mod Codec
use Prim.Native.String.{◌++◌, len, slice}
use mathlib.Core.List
use text.Mathlib.Text.{starts_with}
use polykit_rust.Prelude.{
  ℕ, zero, suc, String, ◌==◌, Bool, true, false, not, Option, none, some, List, [], ◌∷◌, length,
  ltb, num_eq, if◌then◌else◌,
}
use polykit_rust.Prelude.Text
use polykit_rust.Prelude.Result.{Result, ok, err, ◌>>=◌, map_err}
use polykit_rust.Errors.{EncryptionError, operation_failed, empty_secret}

abbrev pub Bytes : Type 0
Bytes = List ℕ

abbrev pub string_encryption_prefix : String
string_encryption_prefix = "enc:"

abbrev pub binary_encryption_header : Bytes
binary_encryption_header = 69 ∷ 78 ∷ 67 ∷ 0 ∷ []

abbrev pub hkdf_info : String
hkdf_info = "supabase-encryption"

abbrev pub nonce_len : ℕ
nonce_len = 12

abbrev pub take : ℕ → Bytes → Bytes
take zero bs = []
take (suc n) [] = []
take (suc n) (b ∷ bs) = b ∷ take n bs

abbrev pub drop : ℕ → Bytes → Bytes
drop zero bs = bs
drop (suc n) [] = []
drop (suc n) (b ∷ bs) = drop n bs

-- What the code calls of other crates. A failure is the text that it displays as.
pub record Primitives : Type 1 where
  pub Key : Type 0
  pub parse_uuid : String → Option String
  pub new_v5 : String → String
  pub uuid_salt : String → Bytes  -- the uppercased text
  pub expand : Bytes → Bytes → String → Result String Key
  pub seal : Key → Bytes → Bytes → Result String Bytes
  pub unseal : Key → Bytes → Bytes → Result String Bytes
  pub encode : Bytes → String
  pub decode : String → Result String Bytes
  pub as_bytes : String → Bytes
  pub from_utf8 : Bytes → Result String String

abbrev pub failure : String → String → EncryptionError
failure what message = operation_failed (what ++ message)

module _ (p : Primitives) where
  -- `Encryption`, by its secret
  abbrev pub new : String → Result EncryptionError Bytes
  new secret = if secret == "" then err empty_secret else ok (p.as_bytes secret)

  abbrev pub key_user_uuid : String → String
  key_user_uuid user_id = elim (p.parse_uuid user_id) [
    | some uuid ↦ uuid
    | none ↦ p.new_v5 ("polybase:" ++ user_id)
  ]

  abbrev pub derive_key : Bytes → String → Result EncryptionError p.Key
  derive_key app_secret user =
      map_err (failure "hkdf expand: ") (p.expand (p.uuid_salt user) app_secret hkdf_info)

abbrev pub is_encrypted : String → Bool
is_encrypted text = starts_with text string_encryption_prefix

abbrev pub is_data_encrypted : Bytes → Bool
is_data_encrypted bytes = Text.starts_with bytes binary_encryption_header

module _ (p : Primitives) (app_secret : Bytes) where
  unfoldable pub encrypt : Bytes → String → String → Result EncryptionError String
  encrypt nonce plaintext user = if plaintext == "" then ok plaintext else do
    key ← derive_key p app_secret user
    ciphertext ← map_err (failure "encrypt: ") (p.seal key nonce (p.as_bytes plaintext))
    ok (string_encryption_prefix ++ p.encode (List.◌++◌ nonce ciphertext))

  abbrev unseal_text : p.Key → Bytes → Result EncryptionError String
  unseal_text key combined =
      if ltb (length combined) nonce_len then err (operation_failed "ciphertext too short") else do
        decrypted ←
            map_err (failure "decrypt: ")
              (p.unseal key (take nonce_len combined) (drop nonce_len combined))
        map_err (failure "utf8: ") (p.from_utf8 decrypted)

  unfoldable pub decrypt : String → String → Result EncryptionError String
  decrypt ciphertext user = if not (is_encrypted ciphertext) then ok ciphertext else do
    key ← derive_key p app_secret user
    combined ←
        map_err (failure "base64: ")
          (p.decode (slice ciphertext (len string_encryption_prefix) (len ciphertext)))
    unseal_text key combined

  abbrev pub decrypt_with_healing : String → String → Result EncryptionError (String × Bool)
  decrypt_with_healing ciphertext user = do
    decrypted ← decrypt ciphertext user
    ok (decrypted, is_encrypted ciphertext)

  unfoldable pub encrypt_data : Bytes → Bytes → String → Result EncryptionError Bytes
  encrypt_data nonce bytes user = elim bytes [
    | [] ↦ ok []
    | b ∷ bs ↦ do
      key ← derive_key p app_secret user
      ciphertext ← map_err (failure "encrypt_data: ") (p.seal key nonce (b ∷ bs))
      ok (List.◌++◌ binary_encryption_header (List.◌++◌ nonce ciphertext))
  ]

  abbrev unseal_data : p.Key → Bytes → Result EncryptionError Bytes
  unseal_data key combined =
      if ltb (length combined) nonce_len
      then err (operation_failed "encrypted data too short")
      else map_err (failure "decrypt_data: ")
          (p.unseal key (take nonce_len combined) (drop nonce_len combined))

  unfoldable pub decrypt_data : Bytes → String → Result EncryptionError Bytes
  decrypt_data bytes user = if not (is_data_encrypted bytes) then ok bytes else do
    key ← derive_key p app_secret user
    unseal_data key (drop (length binary_encryption_header) bytes)
