-- ===== src/Polylog/Clean.antt =====
-- crates/polylog/src/clean.rs: the wrappers `Some(…)` around a debug value. A text is the list of its
-- code points, and an index is the text before it with the text after it.
use polykit_rust.Prelude.{
  ℕ, zero, suc, ◌+◌, ◌-◌, ◌≤◌, ◌≡◌, refl, Option, none, some, List, [], ◌∷◌, num_eq, length, arith,
  Option-cases, inl, inr, if◌then◌else◌,
}
use polykit_rust.Prelude.Text.{codes}

abbrev pub Text : Type 0
Text = List ℕ

-- where the scan for the closing parenthesis stands: in a string literal or not
pub data Place : Type 0 where
  outside inside escaped : Place

-- The step over one character, with the depth: `none` at the parenthesis that closes.
unfoldable pub step_over : Place → ℕ → ℕ → Option (Place × ℕ)
step_over outside depth c =
    if num_eq c b'"'
    then some (inside, depth)
    else if num_eq c b'('
    then some (outside, depth + 1)
    else if num_eq c b')'
    then (if num_eq (depth - 1) 0 then none else some (outside, depth - 1))
    else some (outside, depth)
step_over inside depth c =
    if num_eq c b'\\'
    then some (escaped, depth)
    else if num_eq c b'"'
    then some (outside, depth)
    else some (inside, depth)
step_over escaped depth c = some (inside, depth)

abbrev pub before : ℕ → Option (Text × Text) → Option (Text × Text)
before c none = none
before c (some (prefix, rest)) = some (c ∷ prefix, rest)

unfoldable pub scan : Place → ℕ → Text → Option (Text × Text)
unfolding step_over
scan place depth [] = none
scan place depth (c ∷ s) = elim (step_over place depth c) [
  | none ↦ some ([], s)
  | some (place', depth') ↦ before c (scan place' depth' s)
]

abbrev pub find_matching_close_paren : Text → Option (Text × Text)
find_matching_close_paren s = scan outside 1 s

abbrev pub strip_prefix : Text → Text → Option Text
strip_prefix [] s = some s
strip_prefix (p ∷ ps) [] = none
strip_prefix (p ∷ ps) (c ∷ s) = if num_eq p c then strip_prefix ps s else none

abbrev pub whole : Text × Text → Option Text
whole (prefix, []) = some prefix
whole (prefix, c ∷ rest) = none

unfoldable pub try_strip_some : Text → Option Text
unfolding scan
try_strip_some s = elim (strip_prefix (codes "Some(") s) [
  | none ↦ none
  | some inner ↦ elim (find_matching_close_paren inner) [ none ↦ none | some split ↦ whole split ]
]

-- the `while let` on fuel
unfoldable pub strip_with : ℕ → Text → Text
unfolding try_strip_some
strip_with zero current = current
strip_with (suc fuel) current = elim (try_strip_some current) [
  | none ↦ current
  | some inner ↦ strip_with fuel inner
]

abbrev pub strip_some_wrappers : Text → Text
strip_some_wrappers s = strip_with (length s) s

length-before :
    (c : ℕ) (r : Option (Text × Text)) (split : Text × Text)
    → before c r ≡ some split
    → (inner : Text × Text) × (r ≡ some inner) × (length split.0 ≡ suc (length inner.0))
length-before c none split h = ground (arith, h)
length-before c (some (prefix, rest)) split h = ((prefix, rest), refl, ground (arith, h))

length-scan :
    (place : Place) (depth : ℕ) (s : Text) (split : Text × Text)
    → scan place depth s ≡ some split
    → suc (length split.0) ≤ length s
unfolding scan
length-scan place depth [] split h = ground (arith, h)
length-scan place depth (c ∷ s) split h = elim (Option-cases (step_over place depth c)) [
  | inl closes ↦ ground (arith, h, closes)
  | inr (next, moves) ↦
      let (inner, found, longer) =
        length-before c (scan next.0 next.1 s) split (ground (arith, h, moves)) in
      ground (arith, longer, length-scan next.0 next.1 s inner found)
]

length-strip_prefix : (p s inner : Text) → strip_prefix p s ≡ some inner → length inner ≤ length s
length-strip_prefix [] s inner h = ground (arith, h)
length-strip_prefix (p ∷ ps) [] inner h = ground (arith, h)
length-strip_prefix (p ∷ ps) (c ∷ s) inner h = ground (arith, h, length-strip_prefix ps s inner)

whole-prefix : (split : Text × Text) (inner : Text) → whole split ≡ some inner → split.0 ≡ inner
whole-prefix (prefix, []) inner h = ground (arith, h)
whole-prefix (prefix, c ∷ rest) inner h = ground (arith, h)

length-try_strip_some :
    (s inner : Text) → try_strip_some s ≡ some inner → suc (length inner) ≤ length s
unfolding try_strip_some
length-try_strip_some s inner h = elim (Option-cases (strip_prefix (codes "Some(") s)) [
  | inl other ↦ ground (arith, h, other)
  | inr (opened, opens) ↦ elim (Option-cases (find_matching_close_paren opened)) [
    | inl unclosed ↦ ground (arith, h, opens, unclosed)
    | inr (split, closed) ↦
        let same : split.0 ≡ inner = whole-prefix split inner (ground (arith, h, opens, closed)) in
        rw (← same) (
          ground (
            arith,
            length-scan outside 1 opened split closed,
            length-strip_prefix (codes "Some(") s opened opens,
          ))
  ]
]

try_strip_some-empty : try_strip_some [] ≡ none
unfolding try_strip_some
try_strip_some-empty = refl

strip_with-done : (fuel : ℕ) (s : Text) → try_strip_some s ≡ none → strip_with fuel s ≡ s
unfolding strip_with
strip_with-done zero s h = refl
strip_with-done (suc fuel) s h = rw (h, strip_with)

strip_with-step :
    (fuel : ℕ) (s inner : Text)
    → try_strip_some s ≡ some inner
    → strip_with (suc fuel) s ≡ strip_with fuel inner
unfolding strip_with
strip_with-step fuel s inner h = rw (h, strip_with)

strip_with_settled :
    (n m : ℕ) (s : Text)
    → length s ≤ n
    → length s ≤ m
    → (strip_with n s ≡ strip_with m s) × (try_strip_some (strip_with n s) ≡ none)
strip_with_settled n m [] h g =
    rw (strip_with-done n [] try_strip_some-empty, strip_with-done m [] try_strip_some-empty)
      (refl, try_strip_some-empty)
strip_with_settled zero m (c ∷ s) h g = ground (arith, h)
strip_with_settled (suc n) zero (c ∷ s) h g = ground (arith, g)
strip_with_settled (suc n) (suc m) (c ∷ s) h g = elim (Option-cases (try_strip_some (c ∷ s))) [
  | inl ends ↦
      rw (strip_with-done (suc n) (c ∷ s) ends, strip_with-done (suc m) (c ∷ s) ends) (refl, ends)
  | inr (inner, strips) ↦
      let shorter = length-try_strip_some (c ∷ s) inner strips in
      rw (strip_with-step n (c ∷ s) inner strips, strip_with-step m (c ∷ s) inner strips)
        (strip_with_settled n m inner (ground (arith, shorter, h)) (ground (arith, shorter, g)))
]

-- The loop ends: as many rounds as the text has characters leave no wrapper to strip, and any
-- greater number of rounds leaves the same text.
pub strip_with_enough_fuel :
    (fuel : ℕ) (s : Text)
    → length s ≤ fuel
    → (strip_with fuel s ≡ strip_some_wrappers s) × (try_strip_some (strip_with fuel s) ≡ none)
strip_with_enough_fuel fuel s h = strip_with_settled fuel (length s) s h (omega arith)
