-- ===== src/Storage/Transfer.antt =====
-- What is downloaded of what was uploaded.
use polykit_rust.Prelude.{
  String, Bool, true, false, ◌≡◌, refl, Option, none, some, List, arith, length, Bool-cases, inl,
  inr,
}
use polykit_rust.Prelude.Assoc
use polykit_rust.Prelude.Result.{ok, Result-cases}
use polykit_rust.Client.{is_success}
use polykit_rust.Encryption.{
  Bytes, Primitives, nonce_len, encrypt_data, decrypt_data, is_data_encrypted,
}
use polykit_rust.Encryption.RoundTrip.{Laws, decrypt_data-encrypt_data}
use polykit_rust.Storage.{
  Bucket, Service, ObjectResponse, get, post, no_body, raw, maybe_encrypt, maybe_decrypt,
  upload_outcome, object_outcome, upload, download, upload_request, bare_request,
}

-- What the code relies on: an object that the service has taken is the reply to the next request
-- for its address that has the same authorization.
unfoldable pub KeepsObjects : {σ : Type 0} → Service σ → Type 0
KeepsObjects service =
    (s : _) (url : String) (sent asked : List (String × String)) (bytes : Bytes)
    (reply : ObjectResponse)
    → Assoc.get "Authorization" asked ≡ Assoc.get "Authorization" sent
    → (service s (record { method = post; url = url; headers = sent; body = raw bytes })).1
      ≡ ok reply
    → is_success reply.status ≡ true
    → (service (service s (record { method = post; url = url; headers = sent; body = raw bytes })).0
        (record { method = get; url = url; headers = asked; body = no_body })).1
      ≡ ok (record { status = 200; body = ok bytes })

-- `decrypt_data` leaves a blob without the header as it is, so the test before it changes nothing.
decrypt_data-plain :
    (p : Primitives) (secret : Bytes) (user : String) (bytes : Bytes)
    → is_data_encrypted bytes ≡ false
    → decrypt_data p secret bytes user ≡ ok bytes
unfolding decrypt_data
decrypt_data-plain p secret user bytes h = rw (h)

maybe_decrypt-opened :
    (p : Primitives) (b : Bucket) (secret : Bytes) (user path : String) (bytes plain : Bytes)
    → b.encryption ≡ some (secret, user)
    → decrypt_data p secret bytes user ≡ ok plain
    → maybe_decrypt p b path bytes ≡ ok plain
unfolding maybe_decrypt
maybe_decrypt-opened p b secret user path bytes plain e h =
    elim (Bool-cases (is_data_encrypted bytes)) [
      | inl marked ↦ rw (e, marked, h)
      | inr plain_bytes ↦
          ground (arith, e, plain_bytes, h, decrypt_data-plain p secret user bytes plain_bytes)
    ]

maybe_encrypt-opened :
    (p : Primitives) (laws : Laws p) (b : Bucket) (nonce : Bytes) (path : String)
    (bytes body : Bytes) (engine : Option (Bytes × String))
    → length nonce ≡ nonce_len
    → b.encryption ≡ engine
    → maybe_encrypt p b nonce path bytes ≡ ok body
    → maybe_decrypt p b path body ≡ ok bytes
unfolding maybe_encrypt maybe_decrypt
maybe_encrypt-opened p laws b nonce path bytes body none n e h = ground (arith, e, h)
maybe_encrypt-opened p laws b nonce path bytes body (some (secret, user)) n e h =
    elim (Result-cases (encrypt_data p secret nonce bytes user)) [
      | inr (e', failed) ↦ ground (arith, e, failed, h)
      | inl (ciphertext, sealed) ↦
          let same : ciphertext ≡ body = ground (arith, e, sealed, h) in
          maybe_decrypt-opened p b secret user path body bytes e
            (decrypt_data-encrypt_data p laws secret nonce user bytes body n (rw (← same) sealed))
    ]

module _ {σ : Type 0} (p : Primitives) (text : Bytes → String) (service : Service σ) where
  upload-sent :
      (b : Bucket) (nonce : Bytes) (path : String) (bytes : Bytes) (content_type token : String)
      (upsert : Bool) (s : σ)
      → (upload p text service b nonce path bytes content_type token upsert s).1 ≡ ok tt
      → (body : Bytes) × (reply : ObjectResponse) × (maybe_encrypt p b nonce path bytes ≡ ok body)
        × ((upload p text service b nonce path bytes content_type token upsert s).0
            ≡ (service s (upload_request b path body content_type token upsert)).0)
        × ((service s (upload_request b path body content_type token upsert)).1 ≡ ok reply)
        × (is_success reply.status ≡ true)
  unfolding upload upload_outcome
  upload-sent b nonce path bytes content_type token upsert s h =
      elim (Result-cases (maybe_encrypt p b nonce path bytes)) [
        | inr (e, failed) ↦ ground (arith, failed)
        | inl (body, encrypted) ↦
            elim (Result-cases
              (service s (upload_request b path body content_type token upsert)).1) [
                | inr (e, failed) ↦ ground (arith, encrypted, failed)
                | inl (reply, replied) ↦ (
                  body,
                  reply,
                  encrypted,
                  ground (arith, encrypted),
                  replied,
                  ground (arith, encrypted, replied),
                )
              ]
      ]

  download-found :
      (b : Bucket) (path token : String) (s : σ) (body bytes : Bytes)
      → (service s (bare_request get b path token)).1 ≡ ok (record { status = 200; body = ok body })
      → maybe_decrypt p b path body ≡ ok bytes
      → (download p text service b path token s).1 ≡ ok bytes
  unfolding download object_outcome
  download-found b path token s body bytes found opened = rw (found, opened)

  -- An upload that succeeds, with a nonce of twelve bytes, is downloaded as the bytes that were
  -- uploaded, over a service that keeps the objects it takes.
  pub download-upload :
      (laws : Laws p) (keeps : KeepsObjects service) (b : Bucket) (nonce : Bytes) (path : String)
      (bytes : Bytes) (content_type token : String) (upsert : Bool) (s : σ)
      → length nonce ≡ nonce_len
      → (upload p text service b nonce path bytes content_type token upsert s).1 ≡ ok tt
      → (download p text service b path token
          (upload p text service b nonce path bytes content_type token upsert s).0).1
        ≡ ok bytes
  unfolding Assoc.get KeepsObjects
  download-upload laws keeps b nonce path bytes content_type token upsert s n h =
      let (body, reply, encrypted, kept, replied, success) =
        upload-sent b nonce path bytes content_type token upsert s h in
      rw (kept) (
        download-found b path token
          (service s (upload_request b path body content_type token upsert)).0 body bytes
          (keeps s _ _ _ body reply refl replied success)
          (maybe_encrypt-opened p laws b nonce path bytes body b.encryption n refl encrypted))
