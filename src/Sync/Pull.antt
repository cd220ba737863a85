-- ===== src/Sync/Pull.antt =====
-- crates/polybase/src/sync/pull.rs: the reads of a reconcile pass.
use Prim.Native.String.{◌++◌}
use polykit_rust.Prelude.{String, List, [], ◌∷◌}
use polykit_rust.Prelude.Result.{Result, ok, err}
use polykit_rust.Json.{Value, Items, nil}
use polykit_rust.Errors.{PolyError}
use polykit_rust.Client.{ClientConfig, Send, rest_url}
use polykit_rust.Sync.Remote.{read_request, read_outcome, as_array}

-- `join(",")`
abbrev pub join_comma : List String → String
join_comma [] = ""
join_comma (s ∷ []) = s
join_comma (s ∷ t ∷ rest) = s ++ ("," ++ join_comma (t ∷ rest))

abbrev pub read_array :
    ClientConfig
    → Send
    → (String → Result String Value)
    → String
    → List (String × String)
    → String
    → Result PolyError Items
unfolding read_outcome rest_url
read_array config send from_str table query access_token =
    elim (read_outcome from_str table (send (read_request config table query access_token))) [
      | err e ↦ err e
      | ok value ↦ ok (as_array value)
    ]

unfoldable pub read_by_ids :
    ClientConfig
    → Send
    → (String → Result String Value)
    → String
    → List String
    → String
    → Result PolyError Items
unfolding read_outcome rest_url
read_by_ids config send from_str table [] access_token = ok nil
read_by_ids config send from_str table (id ∷ ids) access_token =
    let in_clause = "in.(" ++ (join_comma (id ∷ ids) ++ ")") in
    read_array config send from_str table (("id", in_clause) ∷ ("select", "*") ∷ []) access_token

unfoldable pub read_versions :
    ClientConfig → Send → (String → Result String Value) → String → String → Result PolyError Items
unfolding read_outcome rest_url
read_versions config send from_str table access_token =
    read_array config send from_str table (("select", "id,version,deleted") ∷ []) access_token
