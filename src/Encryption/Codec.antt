-- ===== src/Encryption/Codec.antt =====
-- Encryption as the registry uses it: of texts, for a user, with the nonces that are drawn.
use polykit_rust.Prelude.{ℕ, String, ◌≡◌, false, length}
use polykit_rust.Prelude.Result.{Result, ok}
use polykit_rust.Errors.{EncryptionError}
use polykit_rust.Encryption.{
  Bytes, Primitives, nonce_len, is_encrypted, key_user_uuid, encrypt, decrypt,
}
use polykit_rust.Encryption.RoundTrip.{Laws, decrypt-encrypt}

-- A text is encrypted with the nonce of a draw, for a user id.
pub record Codec : Type 0 where
  pub encrypt : ℕ → String → String → Result EncryptionError String
  pub decrypt : String → String → Result EncryptionError String

pub record CodecLaws (c : Codec) : Type 0 where
  pub decrypt-encrypt :
      (draw : ℕ) (plaintext ciphertext user_id : String)
      → c.encrypt draw plaintext user_id ≡ ok ciphertext
      → c.decrypt ciphertext user_id ≡ ok plaintext
  pub decrypt_plain :
      (text user_id : String) → is_encrypted text ≡ false → c.decrypt text user_id ≡ ok text

module _ (p : Primitives) (app_secret : Bytes) (nonces : ℕ → Bytes) where
  abbrev pub codec : Codec
  codec = record {
    encrypt = λ draw plaintext user_id.
        encrypt p app_secret (nonces draw) plaintext (key_user_uuid p user_id);
    decrypt = λ ciphertext user_id. decrypt p app_secret ciphertext (key_user_uuid p user_id);
  }

  -- With nonces of twelve bytes, and primitives that keep their laws, encryption is a codec.
  pub codec-CodecLaws : Laws p → ((n : ℕ) → length (nonces n) ≡ nonce_len) → CodecLaws codec
  unfolding decrypt
  codec-CodecLaws laws n = record {
    decrypt-encrypt = λ draw plaintext ciphertext user_id h.
        decrypt-encrypt p laws app_secret (nonces draw) (key_user_uuid p user_id) plaintext
          ciphertext (n draw) h;
    decrypt_plain = λ text user_id h. rw h;
  }
