-- ===== src/Prelude/Order.antt =====
-- The order of texts, by which `sort_unstable` sorts `&str`.
use Prim.Native.Nat.{Ordering}
use Prim.Native.String.{String, compare}
use Prim.Native.String.compare
use mathlib.Core.Path.{◌≡◌, refl}
use mathlib.Core.Bool.{Bool, true, false, not}
use native.Mathlib.Omega.{arith}
use text.Mathlib.Text.{is_lt, ◌==◌}

abbrev pub str_ltb : String → String → Bool
str_ltb s t = is_lt (compare s t)

compare_trans :
    (s t u : String)
    → compare s t ≡ Ordering.lt
    → compare t u ≡ Ordering.lt
    → compare s u ≡ Ordering.lt
compare_trans String.[] String.[] u p q = cc
compare_trans String.[] (String.◌∷◌ d t) String.[] p q = cc (compare.cons-nil d t)
compare_trans String.[] (String.◌∷◌ d t) (String.◌∷◌ e u) p q = compare.nil-cons e u
compare_trans (String.◌∷◌ c s) String.[] u p q = cc (compare.cons-nil c s)
compare_trans (String.◌∷◌ c s) (String.◌∷◌ d t) String.[] p q = cc (compare.cons-nil d t)
compare_trans (String.◌∷◌ c s) (String.◌∷◌ d t) (String.◌∷◌ e u) p q =
    rw compare.cons-cons
      (ground (arith, compare_trans s t u, compare.cons-cons c d s t, compare.cons-cons d e t u))

abbrev flip : Ordering → Ordering
flip Ordering.lt = Ordering.gt
flip Ordering.eq = Ordering.eq
flip Ordering.gt = Ordering.lt

compare-flip : (s t : String) → compare t s ≡ flip (compare s t)
compare-flip String.[] String.[] = refl
compare-flip String.[] (String.◌∷◌ d t) = rw (compare.cons-nil d t, compare.nil-cons d t)
compare-flip (String.◌∷◌ c s) String.[] = rw (compare.cons-nil c s, compare.nil-cons c s)
compare-flip (String.◌∷◌ c s) (String.◌∷◌ d t) =
    rw (compare.cons-cons c d s t, compare.cons-cons d c t s) (ground (arith, compare-flip s t))

pub str_ltb_trans : (s t u : String) → str_ltb s t ≡ true → str_ltb t u ≡ true → str_ltb s u ≡ true
str_ltb_trans s t u p q = ground (arith, compare_trans s t u)

-- Of two texts one is smaller, unless they are equal.
pub str_ltb_total : (s t : String) → (s == t) ≡ false → str_ltb s t ≡ not (str_ltb t s)
str_ltb_total s t h = ground (arith, compare-flip s t)

pub str_ltb-ne : (s t : String) → str_ltb s t ≡ true → (s == t) ≡ false
str_ltb-ne s t h = ground arith

pub str_ltb_asym : (s t : String) → str_ltb s t ≡ true → str_ltb t s ≡ false
str_ltb_asym s t h = ground (arith, compare-flip s t)
