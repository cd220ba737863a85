-- ===== src/Registry/Schema/Collected.antt =====
-- What a map holds that was collected of pairs.
use polykit_rust.Prelude.{String, ◌≡◌, refl, none, some, List, [], ◌∷◌, arith, eq_iff, eq_refl}
use polykit_rust.Prelude.Assoc
use polykit_rust.Prelude.Assoc.{Assoc, get-insert}
use polykit_rust.Registry.Schema.{collect}

module _ {V : Type 0} where
  -- no key occurs twice
  unfoldable pub HasDistinct : List (String × V) → Type 0
  HasDistinct [] = Unit
  HasDistinct (e ∷ es) = (Assoc.get e.0 es ≡ none) × HasDistinct es

  -- every pair is in the map
  unfoldable pub IsWithin : Assoc V → List (String × V) → Type 0
  IsWithin m [] = Unit
  IsWithin m (e ∷ es) = (Assoc.get e.0 m ≡ some e.1) × IsWithin m es

  collect-absent :
      (k : String) (es : List (String × V)) (m : Assoc V)
      → Assoc.get k es ≡ none
      → Assoc.get k (collect es m) ≡ Assoc.get k m
  unfolding collect Assoc.get
  collect-absent k [] m h = refl
  collect-absent k (e ∷ es) m h =
      ground (
        arith,
        h,
        eq_iff e.0 k,
        get-insert e.0 k e.1 m,
        collect-absent k es (Assoc.insert e.0 e.1 m),
      )

  pub collect-IsWithin :
      (es : List (String × V)) (m : Assoc V) → HasDistinct es → IsWithin (collect es m) es
  unfolding collect HasDistinct IsWithin
  collect-IsWithin [] m h = tt
  collect-IsWithin (e ∷ es) m h = (
    rw (collect-absent e.0 es (Assoc.insert e.0 e.1 m) h.0, get-insert e.0 e.0 e.1 m, eq_refl e.0),
    collect-IsWithin es (Assoc.insert e.0 e.1 m) h.1,
  )
