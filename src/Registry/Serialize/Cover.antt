-- ===== src/Registry/Serialize/Cover.antt =====
-- How a record that is encrypted or decrypted column by column stands to what it was.
use mathlib.Core.Bool.{false≢true}
use polykit_rust.Prelude.{
  ℕ, String, ◌==◌, eq_iff, ◌≡◌, ◌⊎◌, sym, ◌∙◌, inl, inr, Bool, true, false, ◌&&◌, ◌||◌, some, List,
  [], ◌∷◌, arith, Bool-cases, Option-cases,
}
use polykit_rust.Prelude.Assoc
use polykit_rust.Prelude.Assoc.{get-insert}
use polykit_rust.Prelude.Result.{ok, Result-cases}
use polykit_rust.Json.{Record, string}
use polykit_rust.Encryption.{is_encrypted}
use polykit_rust.Encryption.Codec.{Codec, CodecLaws}
use polykit_rust.Registry.{ColumnDef, effective_remote_name}
use polykit_rust.Registry.Serialize.{string_at, encrypt_column, decrypt_column}

-- No text of a row has the prefix of encrypted texts.
abbrev pub IsPlain : Record → Type 0
IsPlain r = (k text : String) → Assoc.get k r ≡ some (string text) → is_encrypted text ≡ false

-- whether an encrypted column has a key
unfoldable pub is_key : List ColumnDef → String → Bool
is_key [] k = false
is_key (c ∷ cs) k = (c.encrypted && effective_remote_name c == k) || is_key cs k

string_at-some :
    (k text : String) (r : Record) → string_at k r ≡ some text → Assoc.get k r ≡ some (string text)
unfolding string_at
string_at-some k text r h = ground arith

string_at-get :
    (k text : String) (r : Record) → Assoc.get k r ≡ some (string text) → string_at k r ≡ some text
unfolding string_at
string_at-get k text r h = rw (h, string_at)

module _ (enc : Codec) (laws : CodecLaws enc) (user_id : String) where
  -- What stands under a key is what stood there at first, or encrypts it in one of some columns.
  unfoldable pub Covers : List ColumnDef → Record → Record → String → Type 0
  unfolding is_key
  Covers cs r s k =
      (Assoc.get k s ≡ Assoc.get k r)
      ⊎ ((plain text : String) × (Assoc.get k r ≡ some (string plain))
          × (Assoc.get k s ≡ some (string text))
          × (enc.decrypt text user_id ≡ ok plain)
          × (is_key cs k ≡ true))

  pub Covers-congr :
      (cs : List ColumnDef) (r s s' : Record) (k : String)
      → Assoc.get k s' ≡ Assoc.get k s
      → Covers cs r s k
      → Covers cs r s' k
  unfolding Covers
  Covers-congr cs r s s' k untouched (inl same) = inl (untouched ∙ same)
  Covers-congr cs r s s' k untouched (inr (p, y, a, b, d, e)) = inr (p, y, a, untouched ∙ b, d, e)

  Covers-tail :
      (c : ColumnDef) (cs : List ColumnDef) (r s : Record) (k : String)
      → (c.encrypted && effective_remote_name c == k) ≡ false
      → Covers (c ∷ cs) r s k
      → Covers cs r s k
  unfolding Covers is_key
  Covers-tail c cs r s k other (inl same) = inl same
  Covers-tail c cs r s k other (inr (p, y, a, b, d, e)) =
      inr (p, y, a, b, d, ground (arith, other, e))

  -- A covered text without the prefix is what stood there at first.
  Covers-unencrypted :
      (cs : List ColumnDef) (r s : Record) (k text : String)
      → Covers cs r s k
      → Assoc.get k s ≡ some (string text)
      → is_encrypted text ≡ false
      → Assoc.get k r ≡ some (string text)
  unfolding Covers
  Covers-unencrypted cs r s k text (inl same) g h = cc
  Covers-unencrypted cs r s k text (inr (plain, text', was, is, back, key)) g h =
      ground (arith, laws.decrypt_plain text user_id h)

  -- A column is left as it is, or its text is encrypted.
  encrypt_column-cases :
      (table : String) (draw : ℕ) (c : ColumnDef) (s s' : Record)
      → encrypt_column enc user_id table draw c s ≡ ok s'
      → (s' ≡ s)
        ⊎ ((plain text : String) × (c.encrypted ≡ true)
            × (Assoc.get (effective_remote_name c) s ≡ some (string plain))
            × (is_encrypted plain ≡ false)
            × (enc.decrypt text user_id ≡ ok plain)
            × (s' ≡ Assoc.insert (effective_remote_name c) (string text) s))
  unfolding encrypt_column
  encrypt_column-cases table draw c s s' h =
      let key = effective_remote_name c in
      elim (Bool-cases c.encrypted) [
        | inr plain ↦ inl (ground (arith, plain))
        | inl secret ↦ elim (Option-cases (string_at key s)) [
          | inl no_text ↦ inl (ground (arith, secret, no_text))
          | inr (v, has_text) ↦ elim (Bool-cases (is_encrypted v)) [
            | inl done ↦ inl (ground (arith, secret, has_text, done))
            | inr open_ ↦ elim (Result-cases (enc.encrypt draw v user_id)) [
              | inr (e, failed) ↦ inl (ground (arith, secret, has_text, open_, failed))
              | inl (x, encrypted) ↦ inr (
                v,
                x,
                secret,
                string_at-some key v s has_text,
                open_,
                laws.decrypt-encrypt draw v x user_id encrypted,
                ground (arith, secret, has_text, open_, encrypted),
              )
            ]
          ]
        ]
      ]

  pub encrypt_column-Covers :
      (table : String) (draw : ℕ) (c : ColumnDef) (cs : List ColumnDef) (r s s' : Record)
      → (c.encrypted ≡ true → is_key cs (effective_remote_name c) ≡ true)
      → ((k : String) → Covers cs r s k)
      → encrypt_column enc user_id table draw c s ≡ ok s'
      → (k : String) → Covers cs r s' k
  unfolding Covers
  encrypt_column-Covers table draw c cs r s s' is cov h k =
      let key = effective_remote_name c in
      elim (encrypt_column-cases table draw c s s' h) [
        | inl same ↦ Covers-congr cs r s s' k (ground (arith, same)) (cov k)
        | inr (v, x, secret, has, open_, back, changed) ↦ elim (Bool-cases (key == k)) [
          | inr other ↦
              let untouched : Assoc.get k s' ≡ Assoc.get k s =
                ground (arith, changed, get-insert key k (string x) s) in
              Covers-congr cs r s s' k untouched (cov k)
          | inl here ↦ inr (
            v,
            x,
            ground (arith, eq_iff key k, Covers-unencrypted cs r s key v (cov key) has open_),
            ground (arith, changed, get-insert key k (string x) s),
            back,
            ground (arith, eq_iff key k, is secret),
          )
        ]
      ]

  -- An encrypted column whose value needs no decryption holds what stood there at first.
  settled :
      (cs : List ColumnDef) (r s : Record) (k : String)
      → ((text : String) → string_at k s ≡ some text → is_encrypted text ≡ false)
      → Covers cs r s k
      → Assoc.get k s ≡ Assoc.get k r
  unfolding Covers
  settled cs r s k open_ (inl same) = same
  settled cs r s k open_ (inr (p, y, a, b, d, e)) =
      let same : Assoc.get k r ≡ some (string y) =
        Covers-unencrypted cs r s k y (inr (p, y, a, b, d, e)) b
          (open_ y (string_at-get k y s b)) in
      b ∙ sym same

  Covers-settled :
      (c : ColumnDef) (cs : List ColumnDef) (r s : Record)
      → ((text : String)
          → string_at (effective_remote_name c) s ≡ some text
          → is_encrypted text ≡ false)
      → ((k : String) → Covers (c ∷ cs) r s k)
      → (k : String) → Covers cs r s k
  unfolding Covers
  Covers-settled c cs r s open_ cov k = elim (Bool-cases (effective_remote_name c == k)) [
    | inr other ↦ Covers-tail c cs r s k (ground (arith, other)) (cov k)
    | inl here ↦
        let same =
          settled (c ∷ cs) r s (effective_remote_name c) open_ (cov (effective_remote_name c)) in
        inl (ground (arith, same, eq_iff (effective_remote_name c) k))
  ]

  Covers-decrypted :
      (c : ColumnDef) (cs : List ColumnDef) (r s : Record) (text : String)
      → IsPlain r
      → ((k : String) → Covers (c ∷ cs) r s k)
      → Assoc.get (effective_remote_name c) s ≡ some (string text)
      → is_encrypted text ≡ true
      → (plain : String) × (enc.decrypt text user_id ≡ ok plain)
        × (Assoc.get (effective_remote_name c) r ≡ some (string plain))
  unfolding Covers
  Covers-decrypted c cs r s text clean cov has secret = elim (cov (effective_remote_name c)) [
    | inl same ↦
        absurd (false≢true (sym (clean (effective_remote_name c) text (sym same ∙ has)) ∙ secret))
    | inr (p, y, a, b, d, e) ↦ (p, ground (arith, b, has, d), a)
  ]

  pub decrypt_column-Covers :
      (c : ColumnDef) (cs : List ColumnDef) (r s : Record)
      → IsPlain r
      → ((k : String) → Covers (c ∷ cs) r s k)
      → (s' : Record) × (decrypt_column enc user_id c s ≡ ok s') × ((k : String) → Covers cs r s' k)
  unfolding decrypt_column Covers
  decrypt_column-Covers c cs r s clean cov =
      let key = effective_remote_name c in
      elim (Bool-cases c.encrypted) [
        | inr plain ↦
            (s, ground (arith, plain), λ k. Covers-tail c cs r s k (ground (arith, plain)) (cov k))
        | inl secret ↦ elim (Option-cases (string_at key s)) [
          | inl no_text ↦ (
            s,
            ground (arith, secret, no_text),
            Covers-settled c cs r s (λ text h. ground (arith, no_text, h)) cov,
          )
          | inr (t, has_text) ↦ elim (Bool-cases (is_encrypted t)) [
            | inr open_ ↦ (
              s,
              ground (arith, secret, has_text, open_),
              Covers-settled c cs r s (λ text h. ground (arith, has_text, open_, h)) cov,
            )
            | inl sealed ↦
                let (p, back, was) =
                  Covers-decrypted c cs r s t clean cov (string_at-some key t s has_text) sealed in
                let s' : Record = Assoc.insert key (string p) s in
                (
                  s',
                  ground (arith, secret, has_text, sealed, back),
                  λ k. elim (Bool-cases (key == k)) [
                    | inl here ↦
                        inl (ground (arith, was, eq_iff key k, get-insert key k (string p) s))
                    | inr other ↦
                        Covers-congr cs r s s' k (ground (arith, get-insert key k (string p) s))
                          (Covers-tail c cs r s k (ground (arith, other)) (cov k))
                  ],
                )
          ]
        ]
      ]
