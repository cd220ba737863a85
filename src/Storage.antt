-- ===== src/Storage.antt =====
-- crates/polybase/src/storage.rs: the adapter of a storage bucket. The service is a parameter: it
-- takes its state and a request to a new state and a reply, or to the failure of the transport.
-- `text` is what a failed reply's body reads as, and the `from_str` of a method is the decoder of
-- the body that it expects.
pub mod Transfer
use Prim.Native.String.{◌++◌}
use mathlib.Core.List
use polykit_rust.Prelude.{
  ℕ, String, Bool, true, false, not, num_eq, ◌||◌, Option, none, some, List, [], ◌∷◌, if◌then◌else◌,
}
use polykit_rust.Prelude.Int.{pos}
use polykit_rust.Prelude.Text.{is_char, trim_start_if}
use polykit_rust.Prelude.Result.{Result, ok, err, map_err}
use polykit_rust.Json.{Value, Record, to_fields, object}
use polykit_rust.Errors.{PolyError, http, storage, StorageError, not_found, EncryptionError}
use polykit_rust.Errors.Show.{encryption_error}
use polykit_rust.Client.{
  ClientConfig, base_url, storage_object_url, storage_bucket_or_default, is_success, status_text,
}
use polykit_rust.Encryption.{Bytes, Primitives, encrypt_data, decrypt_data, is_data_encrypted}

-- a `u64` of the reply
pub record ObjectMetadata : Type 0 where
  pub size : Option ℕ
  pub mimetype : Option String

pub record ObjectEntry : Type 0 where
  pub name : String
  pub id : Option String
  pub metadata : Option ObjectMetadata
  pub created_at : Option String
  pub updated_at : Option String

pub record ListSort : Type 0 where
  pub column : String
  pub order : String

-- the numbers are each a `u32`
pub record ListOptions : Type 0 where
  pub limit : Option ℕ
  pub offset : Option ℕ
  pub search : Option String
  pub sort_by : Option ListSort

-- `encryption`: the secret of the engine, and the user that it is bound to
pub record Bucket : Type 0 where
  pub client : ClientConfig
  pub bucket : String
  pub encryption : Option (Bytes × String)

abbrev pub new : ClientConfig → String → Bucket
new client bucket = record { client = client; bucket = bucket; encryption = none }

abbrev pub with_encryption : Bytes → String → Bucket → Bucket
with_encryption secret user_id b = record b { encryption = some (secret, user_id) }

abbrev pub is_encrypted : Bucket → Bool
is_encrypted b = elim b.encryption [ none ↦ false | some e ↦ true ]

pub data Verb : Type 0 where
  get post delete : Verb

pub data Payload : Type 0 where
  no_body : Payload
  raw : Bytes → Payload
  json : Value → Payload

pub record ObjectRequest : Type 0 where
  pub method : Verb
  pub url : String
  pub headers : List (String × String)
  pub body : Payload

pub record ObjectResponse : Type 0 where
  pub status : ℕ
  pub body : Result String Bytes

abbrev pub Service : Type 0 → Type 0
Service σ = σ → ObjectRequest → σ × Result String ObjectResponse

-- the `apikey` and `Authorization` headers of every request, and what follows them
abbrev pub with_auth : ClientConfig → String → List (String × String) → List (String × String)
with_auth client access_token more =
    ("apikey", client.supabase_anon_key) ∷ ("Authorization", "Bearer " ++ access_token) ∷ more

abbrev pub upload_request : Bucket → String → Bytes → String → String → Bool → ObjectRequest
upload_request b path body content_type access_token upsert = record {
  method = post;
  url = storage_object_url b.client b.bucket path;
  headers =
      with_auth b.client access_token
        (("Content-Type", content_type) ∷ ("x-upsert", if upsert then "true" else "false") ∷ []);
  body = raw body;
}

-- the request of `download` and of `delete`, which carry no body
abbrev pub bare_request : Verb → Bucket → String → String → ObjectRequest
bare_request method b path access_token = record {
  method = method;
  url = storage_object_url b.client b.bucket path;
  headers = with_auth b.client access_token [];
  body = no_body;
}

abbrev pub json_request : Bucket → String → Record → String → ObjectRequest
json_request b url body access_token = record {
  method = post;
  url = url;
  headers = with_auth b.client access_token (("Content-Type", "application/json") ∷ []);
  body = json (object (to_fields body));
}

abbrev pub failed_at {ℓ} : {A : Type ℓ} → Bucket → String → String → Result PolyError A
failed_at b path message = err (storage (StorageError.failed b.bucket path message))

abbrev pub missing_at {ℓ} : {A : Type ℓ} → Bucket → String → Result PolyError A
missing_at b path = err (storage (not_found b.bucket path))

-- `bytes()` or `json()` of a reply
abbrev pub body_as {ℓ} :
    {A : Type ℓ} → (Bytes → Result String A) → ObjectResponse → Result PolyError A
body_as from_str resp = elim resp.body [ err e ↦ err (http e) | ok bs ↦ map_err http (from_str bs) ]

module _ (p : Primitives) where
  unfoldable pub maybe_encrypt : Bucket → Bytes → String → Bytes → Result PolyError Bytes
  maybe_encrypt b nonce path bytes = elim b.encryption [
    | none ↦ ok bytes
    | some (secret, user) ↦ elim (encrypt_data p secret nonce bytes user) [
      | err e ↦ failed_at b path ("encrypt: " ++ encryption_error e)
      | ok ciphertext ↦ ok ciphertext
    ]
  ]

  unfoldable pub maybe_decrypt : Bucket → String → Bytes → Result PolyError Bytes
  maybe_decrypt b path bytes = elim b.encryption [
    | none ↦ ok bytes
    | some (secret, user) ↦
        if not (is_data_encrypted bytes)
        then ok bytes
        else (elim (decrypt_data p secret bytes user) [
          | err e ↦ failed_at b path ("decrypt: " ++ encryption_error e)
          | ok plaintext ↦ ok plaintext
        ])
  ]

module _ (text : Bytes → String) where
  -- `text().await.unwrap_or_default()` in the message of a failure
  abbrev pub http_failure : ObjectResponse → String
  http_failure resp =
      "HTTP "
      ++ (status_text resp.status ++ (": " ++ (elim resp.body [ err e ↦ "" | ok bs ↦ text bs ])))

  -- what an `upload` and a `list` make of a reply that is not a success
  unfoldable pub upload_outcome :
      Bucket → String → Result String ObjectResponse → Result PolyError (Unit {0})
  upload_outcome b path (err transport) = err (http transport)
  upload_outcome b path (ok resp) =
      if is_success resp.status then ok tt else failed_at b path (http_failure resp)

  unfoldable pub delete_outcome :
      Bucket → String → Result String ObjectResponse → Result PolyError (Unit {0})
  delete_outcome b path (err transport) = err (http transport)
  delete_outcome b path (ok resp) =
      if is_success resp.status || num_eq resp.status 404
      then ok tt
      else failed_at b path (http_failure resp)

  -- a reply for one object, by what is made of a success
  unfoldable pub object_outcome {ℓ} :
      {A : Type ℓ}
      → (ObjectResponse → Result PolyError A)
      → Bucket
      → String
      → Result String ObjectResponse
      → Result PolyError A
  object_outcome on_success b path (err transport) = err (http transport)
  object_outcome on_success b path (ok resp) =
      if num_eq resp.status 404
      then missing_at b path
      else if is_success resp.status
      then on_success resp
      else failed_at b path (http_failure resp)

-- the insertion of a key where there is a value
abbrev pub insert_some {ℓ} : {A : Type ℓ} → String → (A → Value) → Option A → Record → Record
insert_some key to_value none rest = rest
insert_some key to_value (some a) rest = (key, to_value a) ∷ rest

abbrev pub sort_json : ListSort → Value
sort_json sort =
    object
      (to_fields (("column", Value.string sort.column) ∷ ("order", Value.string sort.order) ∷ []))

abbrev pub list_body : String → ListOptions → Record
list_body prefix options =
    ("prefix", Value.string prefix)
    ∷ insert_some "limit" (λ n. Value.int (pos n)) options.limit
        (insert_some "offset" (λ n. Value.int (pos n)) options.offset
          (insert_some "search" Value.string options.search
            (insert_some "sortBy" sort_json options.sort_by [])))

module _ {σ : Type 0} (p : Primitives) (text : Bytes → String) (service : Service σ) where
  unfoldable pub upload :
      Bucket → Bytes → String → Bytes → String → String → Bool → σ → σ × Result PolyError (Unit {0})
  unfolding maybe_encrypt upload_outcome
  upload b nonce path bytes content_type access_token upsert s =
      elim (maybe_encrypt p b nonce path bytes) [
        | err e ↦ (s, err e)
        | ok body ↦
            let reply = service s (upload_request b path body content_type access_token upsert) in
            (reply.0, upload_outcome text b path reply.1)
      ]

  unfoldable pub download : Bucket → String → String → σ → σ × Result PolyError Bytes
  unfolding maybe_decrypt object_outcome
  download b path access_token s =
      let reply = service s (bare_request get b path access_token) in
      (
        reply.0,
        object_outcome text
            (λ resp. elim (body_as ok resp) [
              | err e ↦ err e
              | ok bytes ↦ maybe_decrypt p b path bytes
            ])
            b path reply.1,
      )

  unfoldable pub delete_object : Bucket → String → String → σ → σ × Result PolyError (Unit {0})
  unfolding delete_outcome
  delete_object b path access_token s =
      let reply = service s (bare_request Verb.delete b path access_token) in
      (reply.0, delete_outcome text b path reply.1)

  unfoldable pub list :
      (Bytes → Result String (List ObjectEntry))
      → Bucket
      → String
      → ListOptions
      → String
      → σ
      → σ × Result PolyError (List ObjectEntry)
  list from_str b prefix options access_token s =
      let reply = service s (
        json_request b (base_url b.client ++ ("/storage/v1/object/list/" ++ b.bucket))
          (list_body prefix options) access_token) in
      (
        reply.0,
        elim reply.1 [
          | err transport ↦ err (http transport)
          | ok resp ↦
              if is_success resp.status
              then body_as from_str resp
              else failed_at b prefix (http_failure text resp)
        ],
      )

  -- `signed.url` is the text of `signedURL` that `from_str` reads.
  unfoldable pub create_signed_url :
      (Bytes → Result String String)
      → Bucket
      → String
      → ℕ
      → String
      → σ
      → σ × Result PolyError String
  unfolding object_outcome trim_start_if
  create_signed_url from_str b path expires_in_seconds access_token s =
      let trimmed = trim_start_if (is_char b'/') path in
      let reply = service s (
        json_request b
          (base_url b.client ++ ("/storage/v1/object/sign/" ++ (b.bucket ++ ("/" ++ trimmed))))
          (("expiresIn", Value.int (pos expires_in_seconds)) ∷ []) access_token) in
      (
        reply.0,
        object_outcome text
            (λ resp. elim (body_as from_str resp) [
              | err e ↦ err e
              | ok url ↦
                  ok (base_url b.client ++ ("/storage/v1/" ++ trim_start_if (is_char b'/') url))
            ])
            b path reply.1,
      )
