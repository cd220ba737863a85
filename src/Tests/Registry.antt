-- ===== src/Tests/Registry.antt =====
-- The theorems on encryption and on the registry at concrete inputs.
use polykit_rust.Prelude.{
  String, ◌≡◌, ◌⊎◌, inl, inr, refl, ap, true, false, none, some, [], ◌∷◌, arith, if◌then◌else◌,
}
use polykit_rust.Prelude.Assoc
use polykit_rust.Prelude.Sorting.{mem, IsNodup}
use polykit_rust.Prelude.Result.{ok}
use polykit_rust.Json.{Record, string}
use polykit_rust.Encryption.{encrypt, decrypt, is_encrypted}
use polykit_rust.Encryption.RoundTrip.{decrypt-encrypt}
use polykit_rust.Encryption.Codec.{Codec, CodecLaws, codec, codec-CodecLaws}
use polykit_rust.Registry.{
  EntityConfig, synced_column, local_only_column, synced_entity, map_remote_to_local,
  map_local_to_remote,
}
use polykit_rust.Registry.Mapping.{locals, remotes, mapping_round_trip}
use polykit_rust.Registry.Serialize.{serialize_for_remote, decrypt_record_columns, inject_user}
use polykit_rust.Registry.Serialize.Cover.{IsPlain}
use polykit_rust.Registry.Serialize.RoundTrip.{serialize_round_trip}
use polykit_rust.Registry.Catalog
use polykit_rust.Registry.Catalog.{
  Registry, register_all, last_for, config_for_table, config_for_table-register_all,
}
use polykit_rust.Tests.Toy.{primitives, primitives-Laws, nonce, secret}

abbrev sealed_text : String
sealed_text = "enc:aa"

toy_encrypt : (c : String) × (encrypt primitives secret nonce "hi" "ann" ≡ ok c)
unfolding encrypt
toy_encrypt = (_, refl)

decrypt-encrypt_example : decrypt primitives secret toy_encrypt.0 "ann" ≡ ok "hi"
decrypt-encrypt_example =
    decrypt-encrypt primitives primitives-Laws secret nonce "ann" "hi" toy_encrypt.0 refl
      toy_encrypt.1

toy-CodecLaws : CodecLaws (codec primitives secret (λ draw. nonce))
toy-CodecLaws = codec-CodecLaws primitives secret (λ draw. nonce) primitives-Laws (λ n. refl)

abbrev notes : EntityConfig
notes = record (synced_entity "notes" "Note") {
  columns =
      synced_column "id" "id" "id" "TEXT" "string" false
      ∷ synced_column "content" "body" "content" "TEXT" "string" true
      ∷ local_only_column "draft" "TEXT"
      ∷ [];
}

abbrev note : Record
note = ("id", string "n1") ∷ ("content", string "hi") ∷ []

distinct : IsNodup (locals notes.columns) × IsNodup (remotes notes.columns)
unfolding locals remotes mem
distinct = ((refl, (refl, tt)), (refl, (refl, tt)))

mapping_round_trip_example :
    Assoc.get "content" (map_local_to_remote notes (map_remote_to_local notes note))
    ≡ (if mem "content" (remotes notes.columns) then Assoc.get "content" note else none)
mapping_round_trip_example = mapping_round_trip notes note "content" distinct.0 distinct.1

note-texts :
    (k text : String) → Assoc.get k note ≡ some (string text) → (text ≡ "n1") ⊎ (text ≡ "hi")
unfolding Assoc.get
note-texts k text h = ground arith

note-IsPlain : IsPlain note
note-IsPlain k text h = elim (note-texts k text h) [
  | inl id ↦ ap is_encrypted id
  | inr content ↦ ap is_encrypted content
]

abbrev toy : Codec
toy = codec primitives secret (λ draw. nonce)

toy_wire : (wire : Record) × (serialize_for_remote (some toy) "ann" notes note ≡ ok wire)
unfolding serialize_for_remote encrypt
toy_wire = (_, refl)

serialize_round_trip_example :
    (row : Record) × (decrypt_record_columns notes toy "ann" toy_wire.0 ≡ ok row)
    × ((k : String) → Assoc.get k row ≡ Assoc.get k (inject_user notes "ann" note))
serialize_round_trip_example =
    serialize_round_trip toy toy-CodecLaws "ann" notes note toy_wire.0 note-IsPlain refl toy_wire.1

toy_registry : (inner : Registry) × (register_all (notes ∷ notes ∷ []) Catalog.new ≡ some inner)
unfolding register_all
toy_registry = (_, refl)
