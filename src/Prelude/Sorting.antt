-- ===== src/Prelude/Sorting.antt =====
-- `sort_unstable` on texts, membership in a list of texts, and the lists that sorting makes.
use polykit_rust.Prelude.Tests.{if◌then◌else◌, Bool-cases}
use polykit_rust.Prelude.Lists.{All, any, retain}
use polykit_rust.Prelude.Order.{str_ltb, str_ltb_trans, str_ltb_total, str_ltb-ne, str_ltb_asym}
use Prim.Native.String.{String}
use mathlib.Core.Path.{◌≡◌, refl, ap₂, subst, sym}
use mathlib.Core.Logic.{inl, inr}
use mathlib.Core.Bool.{Bool, true, false, ◌&&◌, ◌||◌}
use mathlib.Core.List.{List, [], ◌∷◌}
use native.Mathlib.Omega.{arith}
use text.Mathlib.Text.{◌==◌}
use text.Mathlib.TextEquality.{eq_iff}
use text.Mathlib.TextPositions.{eq_refl}

insert_sorted : String → List String → List String
insert_sorted x [] = x ∷ []
insert_sorted x (y ∷ ys) = if str_ltb y x then y ∷ insert_sorted x ys else x ∷ y ∷ ys

unfoldable pub sort_unstable : List String → List String
unfolding insert_sorted
sort_unstable [] = []
sort_unstable (x ∷ xs) = insert_sorted x (sort_unstable xs)

unfoldable pub mem : String → List String → Bool
unfolding any
mem k = any (λ j. j == k)

abbrev pub IsNodup : List String → Type 0
IsNodup [] = Unit
IsNodup (x ∷ xs) = (mem x xs ≡ false) × IsNodup xs

-- strictly increasing
abbrev pub IsSorted : List String → Type 0
IsSorted [] = Unit
IsSorted (x ∷ xs) = All (λ y. str_ltb x y ≡ true) xs × IsSorted xs

mem-insert_sorted :
    (k x : String) (xs : List String) → mem k (insert_sorted x xs) ≡ (x == k || mem k xs)
unfolding mem insert_sorted
mem-insert_sorted k x [] = refl
mem-insert_sorted k x (y ∷ ys) = ground (arith, mem-insert_sorted k x ys)

pub mem-sort_unstable : (k : String) (xs : List String) → mem k (sort_unstable xs) ≡ mem k xs
unfolding mem sort_unstable
mem-sort_unstable k [] = refl
mem-sort_unstable k (x ∷ xs) =
    ground (arith, mem-sort_unstable k xs, mem-insert_sorted k x (sort_unstable xs))

pub mem-retain :
    (k : String) (p : String → Bool) (xs : List String) → mem k (retain p xs) ≡ (p k && mem k xs)
unfolding mem retain
mem-retain k p [] = ground arith
mem-retain k p (x ∷ xs) = ground (arith, mem-retain k p xs, eq_iff x k)

pub retain-IsNodup : (p : String → Bool) (xs : List String) → IsNodup xs → IsNodup (retain p xs)
unfolding retain
retain-IsNodup p [] h = tt
retain-IsNodup p (x ∷ xs) h = ground (arith, retain-IsNodup p xs h.1, mem-retain x p xs)

All-above :
    (x y : String) (xs : List String)
    → str_ltb x y ≡ true
    → All (λ z. str_ltb y z ≡ true) xs
    → All (λ z. str_ltb x z ≡ true) xs
All-above x y [] h all = tt
All-above x y (z ∷ xs) h all = (str_ltb_trans x y z h all.0, All-above x y xs h all.1)

All-insert_sorted :
    (y x : String) (xs : List String)
    → str_ltb y x ≡ true
    → All (λ z. str_ltb y z ≡ true) xs
    → All (λ z. str_ltb y z ≡ true) (insert_sorted x xs)
unfolding insert_sorted
All-insert_sorted y x [] h all = (h, tt)
All-insert_sorted y x (z ∷ xs) h all = elim (Bool-cases (str_ltb z x)) [
  | inl below ↦ rw below (all.0, All-insert_sorted y x xs h all.1)
  | inr above ↦ rw above (h, all)
]

insert_sorted-IsSorted :
    (x : String) (xs : List String) → mem x xs ≡ false → IsSorted xs → IsSorted (insert_sorted x xs)
unfolding insert_sorted mem
insert_sorted-IsSorted x [] n h = (tt, tt)
insert_sorted-IsSorted x (y ∷ ys) n h = elim (Bool-cases (str_ltb y x)) [
  | inl below ↦
      rw below (All-insert_sorted y x ys below h.0, insert_sorted-IsSorted x ys (ground arith) h.1)
  | inr above ↦
      let x_lt_y : str_ltb x y ≡ true = ground (arith, str_ltb_total y x) in
      rw above ((x_lt_y, All-above x y ys x_lt_y h.0), h)
]

-- Sorting a list with no repetition makes a strictly increasing one.
pub sort_unstable-IsSorted : (xs : List String) → IsNodup xs → IsSorted (sort_unstable xs)
unfolding sort_unstable
sort_unstable-IsSorted [] h = tt
sort_unstable-IsSorted (x ∷ xs) h =
    insert_sorted-IsSorted x (sort_unstable xs) (ground (arith, mem-sort_unstable x xs, h.0))
      (sort_unstable-IsSorted xs h.1)

All-retain :
    (x : String) (p : String → Bool) (xs : List String)
    → All (λ z. str_ltb x z ≡ true) xs
    → All (λ z. str_ltb x z ≡ true) (retain p xs)
unfolding retain
All-retain x p [] h = tt
All-retain x p (y ∷ ys) h = ground (arith, All-retain x p ys h.1)

pub retain-IsSorted : (p : String → Bool) (xs : List String) → IsSorted xs → IsSorted (retain p xs)
unfolding retain
retain-IsSorted p [] h = tt
retain-IsSorted p (x ∷ xs) h = ground (arith, retain-IsSorted p xs h.1, All-retain x p xs h.0)

not-mem-above :
    (x : String) (xs : List String) → All (λ z. str_ltb x z ≡ true) xs → mem x xs ≡ false
unfolding mem
not-mem-above x [] h = refl
not-mem-above x (y ∷ ys) h =
    ground (arith, not-mem-above x ys h.1, str_ltb-ne x y h.0, eq_iff x y, eq_iff y x)

mem-above :
    (x k : String) (xs : List String)
    → All (λ z. str_ltb x z ≡ true) xs
    → mem k xs ≡ true
    → str_ltb x k ≡ true
unfolding mem
mem-above x k [] h m = cc
mem-above x k (y ∷ ys) h m = ground (arith, mem-above x k ys h.1, eq_iff y k)

heads_agree :
    (x y : String) (xs ys : List String)
    → IsSorted (x ∷ xs)
    → IsSorted (y ∷ ys)
    → ((k : String) → mem k (x ∷ xs) ≡ mem k (y ∷ ys))
    → x ≡ y
unfolding mem
heads_agree x y xs ys sx sy h = ground (
  arith,
  h x,
  h y,
  mem-above x y xs sx.0,
  mem-above y x ys sy.0,
  str_ltb_asym x y,
  eq_iff x y,
  eq_iff y x,
  eq_refl x,
  eq_refl y,
)

tails_agree :
    (x : String) (xs ys : List String)
    → IsSorted (x ∷ xs)
    → IsSorted (x ∷ ys)
    → (k : String) → mem k (x ∷ xs) ≡ mem k (x ∷ ys)
    → mem k xs ≡ mem k ys
unfolding mem
tails_agree x xs ys sx sy k h =
    ground (arith, not-mem-above x xs sx.0, not-mem-above x ys sy.0, eq_iff x k)

-- A strictly increasing list is determined by its members.
pub IsSorted-unique :
    (xs ys : List String)
    → IsSorted xs
    → IsSorted ys
    → ((k : String) → mem k xs ≡ mem k ys)
    → xs ≡ ys
unfolding mem
IsSorted-unique [] [] sx sy h = refl
IsSorted-unique [] (y ∷ ys) sx sy h = ground (arith, h y, eq_refl y)
IsSorted-unique (x ∷ xs) [] sx sy h = ground (arith, h x, eq_refl x)
IsSorted-unique (x ∷ xs) (y ∷ ys) sx sy h =
    let e : x ≡ y = heads_agree x y xs ys sx sy h in
    let sy' : IsSorted (x ∷ ys) = subst (λ z. IsSorted (z ∷ ys)) (sym e) sy in
    let h' : (k : String) → mem k (x ∷ xs) ≡ mem k (x ∷ ys) =
      subst (λ z. (k : String) → mem k (x ∷ xs) ≡ mem k (z ∷ ys)) (sym e) h in
    ap₂ ◌∷◌ e (IsSorted-unique xs ys sx.1 sy'.1 (λ k. tails_agree x xs ys sx sy' k (h' k)))
