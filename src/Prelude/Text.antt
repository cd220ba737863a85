-- ===== src/Prelude/Text.antt =====
-- Texts as the sources inspect them: `to_ascii_lowercase` and `contains` over the code points of
-- a native `String`, trimming, and `format!` by the native append.
use Prim.Native.Nat.{ℕ, zero, suc, ◌+◌, ◌-◌, ◌/◌, ◌%◌}
use Prim.Native.Char.{code}
use Prim.Native.String.{String, ◌++◌}
use text.Mathlib.Text.{◌==◌}
use polykit_rust.Prelude.Lists.{get_or}
use mathlib.Core.Bool.{Bool, true, false, ◌&&◌, ◌||◌}
use mathlib.Core.List.{List, [], ◌∷◌, map}
use polykit_rust.Prelude.Tests.{leb, num_eq, if◌then◌else◌}

abbrev pub codes : String → List ℕ
codes String.[] = []
codes (String.◌∷◌ c s) = code c ∷ codes s

unfoldable pub to_lower : ℕ → ℕ
to_lower c = if leb b'A' c && leb c b'Z' then c + 32 else c

-- `str::to_ascii_lowercase`
unfoldable pub to_ascii_lowercase : List ℕ → List ℕ
unfolding to_lower
to_ascii_lowercase = map to_lower

unfoldable pub to_upper : ℕ → ℕ
to_upper c = if leb b'a' c && leb c b'z' then c - 32 else c

-- `str::to_ascii_uppercase`
unfoldable pub to_ascii_uppercase : List ℕ → List ℕ
unfolding to_upper
to_ascii_uppercase = map to_upper

-- `==` of texts
abbrev pub codes_eq : List ℕ → List ℕ → Bool
codes_eq [] [] = true
codes_eq (c ∷ cs) (d ∷ ds) = num_eq c d && codes_eq cs ds
codes_eq _ _ = false

-- `str::starts_with`
unfoldable pub starts_with : List ℕ → List ℕ → Bool
starts_with s [] = true
starts_with [] (p ∷ ps) = false
starts_with (c ∷ s) (p ∷ ps) = num_eq c p && starts_with s ps

-- `str::contains`
unfoldable pub contains : List ℕ → List ℕ → Bool
unfolding starts_with
contains [] pattern = starts_with [] pattern
contains (c ∷ s) pattern = starts_with (c ∷ s) pattern || contains s pattern

-- `str::trim_end_matches` of one test on characters
unfoldable pub trim_end_if : (ℕ → Bool) → String → String
trim_end_if p String.[] = ""
trim_end_if p (String.◌∷◌ d s) =
    let rest = trim_end_if p s in if (rest == "") && p (code d) then "" else String.◌∷◌ d rest

-- `str::trim_start_matches` of one test on characters
unfoldable pub trim_start_if : (ℕ → Bool) → String → String
trim_start_if p String.[] = ""
trim_start_if p (String.◌∷◌ d s) =
    let rest = trim_start_if p s in if p (code d) then rest else String.◌∷◌ d s

abbrev pub is_char : ℕ → ℕ → Bool
is_char c d = num_eq d c

-- the property White_Space of Unicode
abbrev pub is_whitespace : ℕ → Bool
is_whitespace c =
    (leb 9 c && leb c 13)
    || (num_eq c 32
        || (num_eq c 133
            || (num_eq c 160
                || (num_eq c 5760
                    || ((leb 8192 c && leb c 8202)
                        || (num_eq c 8232
                            || (num_eq c 8233
                                || (num_eq c 8239 || (num_eq c 8287 || num_eq c 12288)))))))))

-- `str::trim`
unfoldable pub trim : String → String
unfolding trim_end_if trim_start_if
trim s = trim_end_if is_whitespace (trim_start_if is_whitespace s)

abbrev pub digits : List String
digits = "0" ∷ "1" ∷ "2" ∷ "3" ∷ "4" ∷ "5" ∷ "6" ∷ "7" ∷ "8" ∷ "9" ∷ []

abbrev pub digit : ℕ → String
digit n = get_or digits n ""

-- the last `k` decimal digits of a number, without leading zeros
unfoldable pub decimal_digits : ℕ → ℕ → String
decimal_digits zero n = ""
decimal_digits (suc k) n =
    let high = decimal_digits k (n / 10) in
    if num_eq (n / 10) 0 then digit (n % 10) else high ++ digit (n % 10)

-- `Display` of a number below 10^39, as every `u128` is
unfoldable pub decimal : ℕ → String
unfolding decimal_digits
decimal n = decimal_digits 39 n
