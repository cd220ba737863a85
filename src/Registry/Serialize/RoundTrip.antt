-- ===== src/Registry/Serialize/RoundTrip.antt =====
-- A payload that was prepared for the wire is decrypted to what it was.
use mathlib.Core.Bool.{false≢true}
use polykit_rust.Prelude.{
  ℕ, ◌+◌, String, ◌==◌, eq_refl, ◌&&◌, ◌≡◌, refl, sym, ap, ◌∙◌, inl, inr, Bool, true, false, none,
  some, List, [], ◌∷◌, arith, if◌then◌else◌, Bool-cases, Option-cases,
}
use polykit_rust.Prelude.Assoc
use polykit_rust.Prelude.Assoc.{get-insert}
use polykit_rust.Prelude.Result.{ok, Result-cases}
use polykit_rust.Json.{Record, string}
use polykit_rust.Encryption.{is_encrypted}
use polykit_rust.Encryption.Codec.{Codec, CodecLaws}
use polykit_rust.Registry.{ColumnDef, EntityConfig, effective_remote_name}
use polykit_rust.Registry.Serialize.{
  encrypt_column, encrypt_columns, inject_user, serialize_for_remote, decrypt_columns,
  decrypt_record_columns,
}
use polykit_rust.Registry.Serialize.Cover.{
  IsPlain, is_key, Covers, Covers-congr, encrypt_column-Covers, decrypt_column-Covers,
}

-- whether a user id is put under a key
injects : EntityConfig → String → Bool
injects config k =
    config.include_user_id
    && elim config.user_id_column [ none ↦ false | some column ↦ column == k ]

get-inject_user :
    (config : EntityConfig) (user_id k : String) (r : Record)
    → Assoc.get k (inject_user config user_id r)
      ≡ (if injects config k then some (string user_id) else Assoc.get k r)
unfolding inject_user injects
get-inject_user config user_id k r = elim (Option-cases config.user_id_column) [
  | inl no_column ↦ ground (arith, no_column)
  | inr (column, has) ↦ ground (arith, has, get-insert column k (string user_id) r)
]

module _ (enc : Codec) (laws : CodecLaws enc) (user_id : String) where
  encrypt_columns-Covers :
      (table : String) (draw : ℕ) (cs columns : List ColumnDef) (r s s' : Record)
      → ((k : String) → is_key cs k ≡ true → is_key columns k ≡ true)
      → ((k : String) → Covers enc laws user_id columns r s k)
      → encrypt_columns enc user_id table draw cs s ≡ ok s'
      → (k : String) → Covers enc laws user_id columns r s' k
  unfolding encrypt_columns is_key
  encrypt_columns-Covers table draw [] columns r s s' part cov h k =
      Covers-congr enc laws user_id columns r s s' k (ground (arith, h)) (cov k)
  encrypt_columns-Covers table draw (c ∷ cs) columns r s s' part cov h k =
      elim (Result-cases (encrypt_column enc user_id table draw c s)) [
        | inr (e, failed) ↦ ground (arith, h, failed)
        | inl (s1, encrypted) ↦
            encrypt_columns-Covers table (draw + 1) cs columns r s1 s'
              (λ j m. part j (ground (arith, m)))
              (encrypt_column-Covers enc laws user_id table draw c columns r s s1
                (λ secret.
                  part (effective_remote_name c)
                    (ground (arith, secret, eq_refl (effective_remote_name c))))
                cov encrypted)
              (ground (arith, h, encrypted)) k
      ]

  decrypt_columns-Covers :
      (cs : List ColumnDef) (r s : Record)
      → IsPlain r
      → ((k : String) → Covers enc laws user_id cs r s k)
      → (row : Record) × (decrypt_columns enc user_id cs s ≡ ok row)
        × ((k : String) → Assoc.get k row ≡ Assoc.get k r)
  unfolding decrypt_columns Covers is_key
  decrypt_columns-Covers [] r s clean cov = (
    s,
    refl,
    λ k. elim (cov k) [ inl same ↦ same | inr (p, y, a, b, d, e) ↦ absurd (false≢true e) ],
  )
  decrypt_columns-Covers (c ∷ cs) r s clean cov =
      let (s1, step, cov1) = decrypt_column-Covers enc laws user_id c cs r s clean cov in
      let (row, rest, same) = decrypt_columns-Covers cs r s1 clean cov1 in
      (row, ground (arith, step, rest), same)

  inject_user-Covers :
      (config : EntityConfig) (r s : Record)
      → ((k : String) → Covers enc laws user_id config.columns r s k)
      → (k : String)
      → Covers enc laws user_id config.columns
          (inject_user config user_id r)
          (inject_user config user_id s)
          k
  unfolding Covers
  inject_user-Covers config r s cov k =
      let gr = get-inject_user config user_id k r in
      let gs = get-inject_user config user_id k s in
      elim (Bool-cases (injects config k)) [
        | inl injected ↦ inl (ground (arith, gr, gs, injected))
        | inr other ↦ elim (cov k) [
          | inl same ↦ inl (ground (arith, gr, gs, other, same))
          | inr (p, y, a, b, d, e) ↦
              inr (p, y, ground (arith, gr, other, a), ground (arith, gs, other, b), d, e)
        ]
      ]

  inject_user-IsPlain :
      (config : EntityConfig) (r : Record)
      → IsPlain r
      → is_encrypted user_id ≡ false
      → IsPlain (inject_user config user_id r)
  inject_user-IsPlain config r clean u k text h =
      let g = get-inject_user config user_id k r in
      elim (Bool-cases (injects config k)) [
        | inl injected ↦
            let same : user_id ≡ text = ground (arith, g, injected, h) in
            ap is_encrypted (sym same) ∙ u
        | inr other ↦ clean k text (ground (arith, g, other, h))
      ]

  -- What is prepared for the wire is decrypted to the payload with the user's id, key by key, if
  -- neither a text of the payload nor the user's id has the prefix of encrypted texts.
  pub serialize_round_trip :
      (config : EntityConfig) (payload wire : Record)
      → IsPlain payload
      → is_encrypted user_id ≡ false
      → serialize_for_remote (some enc) user_id config payload ≡ ok wire
      → (row : Record) × (decrypt_record_columns config enc user_id wire ≡ ok row)
        × ((k : String) → Assoc.get k row ≡ Assoc.get k (inject_user config user_id payload))
  unfolding serialize_for_remote Covers
  serialize_round_trip config payload wire clean u h =
      elim (Result-cases (encrypt_columns enc user_id config.table_name 0 config.columns payload)) [
        | inr (e, failed) ↦ ground (arith, h, failed)
        | inl (s, encrypted) ↦
            decrypt_columns-Covers config.columns (inject_user config user_id payload) wire
              (inject_user-IsPlain config payload clean u)
              (λ k.
                Covers-congr enc laws user_id config.columns (inject_user config user_id payload)
                  (inject_user config user_id s) wire k (ground (arith, h, encrypted))
                  (inject_user-Covers config payload s
                    (encrypt_columns-Covers config.table_name 0 config.columns config.columns
                      payload payload s (λ j m. m) (λ j. inl refl) encrypted)
                    k))
      ]
