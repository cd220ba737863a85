-- ===== src/Tests/Polylog.antt =====
-- The wrappers of debug values at concrete inputs.
use polykit_rust.Prelude.{◌≡◌, refl, none, arith}
use polykit_rust.Prelude.Text.{codes}
use polykit_rust.Polylog.Clean.{
  strip_with, strip_some_wrappers, try_strip_some, strip_with_enough_fuel,
}

nested-unwrapped : strip_some_wrappers (codes "Some(Some(3))") ≡ codes "3"
unfolding strip_with
nested-unwrapped = refl

trailing-kept : strip_some_wrappers (codes "Some(x) trailing") ≡ codes "Some(x) trailing"
unfolding strip_with
trailing-kept = refl

quoted-unwrapped : strip_some_wrappers (codes "Some(\")\")") ≡ codes "\")\""
unfolding strip_with
quoted-unwrapped = refl

strip_with_enough_fuel_example :
    (strip_with 20 (codes "Some(Some(3))") ≡ strip_some_wrappers (codes "Some(Some(3))"))
    × (try_strip_some (strip_with 20 (codes "Some(Some(3))")) ≡ none)
strip_with_enough_fuel_example = strip_with_enough_fuel 20 (codes "Some(Some(3))") (omega arith)
