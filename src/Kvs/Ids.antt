-- ===== src/Kvs/Ids.antt =====
-- Reading an id back.
use Prim.Native.Char.{Char, code}
use Prim.Native.String
use Prim.Native.String.append
use polykit_rust.Prelude.{String, ◌≡◌, false, some, All, num_eq}
use polykit_rust.Prelude.Text.{codes}
use polykit_rust.Kvs.{encode_id, decode_id}

-- A text without colons.
abbrev pub HasNoColon : String → Type 0
HasNoColon s = All (λ c. num_eq c b':' ≡ false) (codes s)

decode_separator : (key : String) → decode_id (String.◌++◌ "::" key) ≡ some ("", key)
unfolding decode_id
decode_separator key = rw (append.cons _ ":" key, append.cons _ "" key, append.nil key)

decode_skip :
    (c : Char) (t a b : String)
    → num_eq (code c) b':' ≡ false
    → decode_id t ≡ some (a, b)
    → decode_id (String.◌∷◌ c t) ≡ some (String.◌∷◌ c a, b)
unfolding decode_id
decode_skip c String.[] a b n h = cc
decode_skip c (String.◌∷◌ d s) a b n h = rw (n, h, decode_id)

-- The id of a namespace without colons and any key is read back as both.
pub decode_id-encode_id :
    (namespace key : String)
    → HasNoColon namespace
    → decode_id (encode_id namespace key) ≡ some (namespace, key)
unfolding encode_id
decode_id-encode_id String.[] key h = rw (append.nil (String.◌++◌ "::" key)) (decode_separator key)
decode_id-encode_id (String.◌∷◌ c s) key h =
    rw (append.cons c s (String.◌++◌ "::" key))
      (decode_skip c (encode_id s key) s key h.0 (decode_id-encode_id s key h.1))
