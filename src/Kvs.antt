-- ===== src/Kvs.antt =====
-- crates/polybase/src/kvs.rs: the ids of the rows of the key-value table; its children hold the rest.
pub mod Ids
pub mod Api
pub mod ReadBack
use Prim.Native.Char.{code}
use Prim.Native.String.{◌++◌}
use polykit_rust.Prelude.{String, ◌&&◌, Option, none, some, num_eq, if◌then◌else◌}

abbrev pub kvs_table : String
kvs_table = "kvs"

unfoldable pub encode_id : String → String → String
encode_id namespace key = namespace ++ ("::" ++ key)

-- `split_once("::")`
unfoldable pub decode_id : String → Option (String × String)
decode_id String.[] = none
decode_id (String.◌∷◌ c String.[]) = none
decode_id (String.◌∷◌ c (String.◌∷◌ d s)) =
    let rest = decode_id (String.◌∷◌ d s) in
    if num_eq (code c) b':' && num_eq (code d) b':'
    then some ("", s)
    else elim rest [ none ↦ none | some (a, b) ↦ some (String.◌∷◌ c a, b) ]
