-- ===== src/Tests/Storage.antt =====
-- An upload and its download over a service that keeps objects in a map.
use polykit_rust.Prelude.{String, ◌≡◌, refl, true, Option, none, some, [], ◌∷◌, eq_refl}
use polykit_rust.Prelude.Assoc
use polykit_rust.Prelude.Assoc.{Assoc}
use polykit_rust.Prelude.Result.{Result, ok, err}
use polykit_rust.Encryption.{Bytes}
use polykit_rust.Storage.{
  Bucket, Service, ObjectResponse, Payload, get, post, delete, raw, upload, download,
}
use polykit_rust.Storage.Transfer.{KeepsObjects, download-upload}
use polykit_rust.Tests.Toy.{primitives, primitives-Laws, nonce, secret}

abbrev no_text : Bytes → String
no_text bs = ""

abbrev found : Option Bytes → Result String ObjectResponse
found none = ok (record { status = 404; body = ok [] })
found (some bytes) = ok (record { status = 200; body = ok bytes })

abbrev on_post : Assoc Bytes → String → Payload → Assoc Bytes × Result String ObjectResponse
on_post s url (raw bytes) = (Assoc.insert url bytes s, ok (record { status = 200; body = ok [] }))
on_post s url _ = (s, err "no such route")

abbrev toy_service : Service (Assoc Bytes)
toy_service s request = elim request.method [
  | post ↦ on_post s request.url request.body
  | get ↦ (s, found (Assoc.get request.url s))
  | delete ↦ (Assoc.remove request.url s, ok (record { status = 200; body = ok [] }))
]

toy_service-KeepsObjects : KeepsObjects toy_service
unfolding KeepsObjects on_post Assoc.insert Assoc.get
toy_service-KeepsObjects s url sent asked bytes reply same_token replied success =
    rw (Assoc.get-insert url url bytes s, eq_refl url)

abbrev toy_bucket : Bucket
toy_bucket = record {
  client = record {
    supabase_url = "https://x.co/";
    supabase_anon_key = "anon";
    encryption_secret = none;
    storage_bucket = none;
  };
  bucket = "files";
  encryption = some (secret, "ann");
}

download-upload_example :
    (download primitives no_text toy_service toy_bucket "a.bin" "t"
      (upload primitives no_text toy_service toy_bucket nonce "a.bin"
        (7 ∷ [])
        "text/plain"
        "t"
        true
        []).0).1
    ≡ ok (7 ∷ [])
unfolding upload polykit_rust.Encryption.encrypt_data on_post
download-upload_example =
    download-upload primitives no_text toy_service primitives-Laws toy_service-KeepsObjects
      toy_bucket nonce "a.bin" (7 ∷ []) "text/plain" "t" true [] refl refl
