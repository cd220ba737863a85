-- ===== src/Prelude/Parse.antt =====
-- `str::parse::<i64>`.
use Prim.Native.Nat.{ℕ, zero, suc, ◌+◌, ◌-◌, ◌*◌, ◌^◌}
use Prim.Native.Char.{code}
use Prim.Native.String.{String}
use mathlib.Core.Bool.{◌&&◌}
use mathlib.Core.Option.{Option, none, some}
use polykit_rust.Prelude.Tests.{leb, num_eq, if◌then◌else◌}
use polykit_rust.Prelude.Int.{ℤ, pos, negsuc, leb_ℤ, i64_max}

-- the number of decimal digits, after those of `acc`
abbrev pub parse_digits : String → ℕ → Option ℕ
parse_digits String.[] acc = some acc
parse_digits (String.◌∷◌ c s) acc =
    let rest = parse_digits s (acc * 10 + (code c - b'0')) in
    if leb b'0' (code c) && leb (code c) b'9' then rest else none

-- at least one digit
abbrev pub parse_number : String → Option ℕ
parse_number String.[] = none
parse_number (String.◌∷◌ c s) = parse_digits (String.◌∷◌ c s) 0

abbrev pub negated : ℕ → ℤ
negated zero = pos 0
negated (suc n) = negsuc n

abbrev pub in_i64 : ℤ → Option ℤ
in_i64 z = if leb_ℤ (negsuc (2 ^ 63 - 1)) z && leb_ℤ z i64_max then some z else none

unfoldable pub parse_i64 : String → Option ℤ
parse_i64 String.[] = none
parse_i64 (String.◌∷◌ c s) =
    if num_eq (code c) b'-'
    then (elim (parse_number s) [ none ↦ none | some n ↦ in_i64 (negated n) ])
    else if num_eq (code c) b'+'
    then (elim (parse_number s) [ none ↦ none | some n ↦ in_i64 (pos n) ])
    else (elim (parse_number (String.◌∷◌ c s)) [ none ↦ none | some n ↦ in_i64 (pos n) ])
