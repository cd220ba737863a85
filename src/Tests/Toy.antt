-- ===== src/Tests/Toy.antt =====
-- Primitives that keep their laws: a cipher that hides nothing, and texts of bytes in unary.
use Prim.Native.Nat
use Prim.Native.Nat.{Ordering}
use Prim.Native.Char.{Char, char, code, IsScalar, IsLt}
use text.Mathlib.TextEquality.{Char-path}
use polykit_rust.Prelude.{
  ℕ, zero, suc, ◌+◌, String, ◌≡◌, refl, sym, ap, ◌⊎◌, inl, inr, some, [], ◌∷◌, ◌++◌, num_eq, arith,
  if◌then◌else◌,
}
use polykit_rust.Prelude.Result.{Result, ok, err, ◌>>=◌}
use polykit_rust.Encryption.{Bytes, Primitives}
use polykit_rust.Encryption.RoundTrip.{Laws}

abbrev Both : Ordering → Ordering → Type 0
Both Ordering.lt o = IsLt o
Both Ordering.eq _ = ⊥
Both Ordering.gt _ = ⊥

abbrev Scalar : Ordering → Ordering → Ordering → Type 0
Scalar Ordering.lt _ _ = Unit
Scalar Ordering.eq o p = Both o p
Scalar Ordering.gt o p = Both o p

IsLt-cases : (o : Ordering) → IsLt o ⊎ (IsLt o → ⊥)
IsLt-cases Ordering.lt = inl tt
IsLt-cases Ordering.eq = inr (λ h. h)
IsLt-cases Ordering.gt = inr (λ h. h)

Both-cases : (o p : Ordering) → Both o p ⊎ (Both o p → ⊥)
Both-cases Ordering.lt p = IsLt-cases p
Both-cases Ordering.eq p = inr (λ h. h)
Both-cases Ordering.gt p = inr (λ h. h)

Scalar-cases : (o p q : Ordering) → Scalar o p q ⊎ (Scalar o p q → ⊥)
Scalar-cases Ordering.lt p q = inl tt
Scalar-cases Ordering.eq p q = Both-cases p q
Scalar-cases Ordering.gt p q = Both-cases p q

pub IsScalar-cases : (n : ℕ) → IsScalar n ⊎ (IsScalar n → ⊥)
IsScalar-cases n = Scalar-cases (Nat.compare n 55296) (Nat.compare 57343 n) (Nat.compare n 1114112)

unfoldable pub to_char : ℕ → Result String Char
to_char n = elim (IsScalar-cases n) [ inl h ↦ ok (char n h) | inr other ↦ err "no character" ]

to_char-code : (c : Char) → to_char (code c) ≡ ok c
unfolding to_char
to_char-code (char n h) = go (IsScalar-cases n)
  where
    go :
        (d : IsScalar n ⊎ (IsScalar n → ⊥))
        → elim d as (λ _. Result String Char) [
          | inl h ↦ ok (char n h)
          | inr other ↦ err "no character"
        ]
          ≡ ok (char n h)
    go (inl h') = ap ok (Char-path (char n h') (char n h) refl)
    go (inr other) = absurd (other h)

abbrev pub as_bytes : String → Bytes
as_bytes String.[] = []
as_bytes (String.◌∷◌ c s) = code c ∷ as_bytes s

unfoldable pub from_utf8 : Bytes → Result String String
unfolding to_char
from_utf8 [] = ok ""
from_utf8 (b ∷ bs) = do c ← to_char b; s ← from_utf8 bs; ok (String.◌∷◌ c s)

from_utf8-as_bytes : (s : String) → from_utf8 (as_bytes s) ≡ ok s
unfolding from_utf8
from_utf8-as_bytes String.[] = refl
from_utf8-as_bytes (String.◌∷◌ c s) = rw (to_char-code c, from_utf8-as_bytes s)

unfoldable pub unary : ℕ → String → String
unary zero rest = String.◌∷◌ (char 44 tt) rest
unary (suc n) rest = String.◌∷◌ (char 97 tt) (unary n rest)

unfoldable pub encode : Bytes → String
unfolding unary
encode [] = ""
encode (b ∷ bs) = unary b (encode bs)

unfoldable pub decode_from : ℕ → String → Result String Bytes
decode_from n String.[] = ok []
decode_from n (String.◌∷◌ c s) =
    let more = decode_from (n + 1) s in
    let next = decode_from 0 s in if num_eq (code c) 97 then more else next >>= λ bs. ok (n ∷ bs)

decode_from-unary :
    (n b : ℕ) (rest : String) (bs : Bytes)
    → decode_from 0 rest ≡ ok bs
    → decode_from n (unary b rest) ≡ ok ((n + b) ∷ bs)
unfolding decode_from unary
decode_from-unary n zero rest bs h = ground (arith, h)
decode_from-unary n (suc b) rest bs h = ground (arith, decode_from-unary (n + 1) b rest bs h)

decode_from-encode : (bs : Bytes) → decode_from 0 (encode bs) ≡ ok bs
unfolding encode decode_from
decode_from-encode [] = refl
decode_from-encode (b ∷ bs) =
    ground (arith, decode_from-unary 0 b (encode bs) bs (decode_from-encode bs))

abbrev pub primitives : Primitives
primitives = record {
  Key = Bytes;
  parse_uuid = λ s. some s;
  new_v5 = λ s. s;
  uuid_salt = λ s. as_bytes s;
  expand = λ salt secret info. ok (secret ++ salt);
  seal = λ key nonce bytes. ok bytes;
  unseal = λ key nonce bytes. ok bytes;
  encode = encode;
  decode = decode_from 0;
  as_bytes = as_bytes;
  from_utf8 = from_utf8;
}

pub primitives-Laws : Laws primitives
primitives-Laws = record {
  unseal-seal = λ key nonce bytes sealed h. sym h;
  decode-encode = decode_from-encode;
  from_utf8-as_bytes = from_utf8-as_bytes;
}

abbrev pub nonce : Bytes
nonce = 0 ∷ 1 ∷ 2 ∷ 3 ∷ 4 ∷ 5 ∷ 6 ∷ 7 ∷ 8 ∷ 9 ∷ 10 ∷ 11 ∷ []

abbrev pub secret : Bytes
secret = as_bytes "secret"
