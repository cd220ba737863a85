-- ===== src/Sync/Push/Classify.antt =====
-- How a rejected push is classified.
use Prim.Native.Nat.{zero, suc}
use Prim.Native.Char.{code}
use Prim.Native.String
use Prim.Native.String.append
use polykit_rust.Prelude.{
  ℕ, String, ◌≡◌, refl, Bool, true, false, ◌||◌, List, [], ◌∷◌, ◌++◌, arith, All, All-append, any,
  get_or, num_eq, ap, ◌∙◌, ◌/◌, ◌%◌,
}
use polykit_rust.Prelude.Text.{codes, to_ascii_lowercase, contains}
use polykit_rust.Prelude.Result.{ok, err}
use polykit_rust.Contract.Message.{is_same_version_mutation_message, is_version_regression_message}
use polykit_rust.Errors.{push, PushError, same_version_mutation_ignored}
use polykit_rust.Errors.Push
use polykit_rust.Client.{Response, is_success, text_or_default, status_text}
use polykit_rust.Prelude.Text.{digits, digit}
use polykit_rust.Sync.Push.{
  permanent_push_error_patterns, is_permanent_push_error_message, classify_push_error_message,
  http_message, upsert_outcome, tombstone_outcome,
}

codes-append : (s t : String) → codes (String.◌++◌ s t) ≡ codes s ++ codes t
codes-append String.[] t = ap codes (append.nil t)
codes-append (String.◌∷◌ c s) t =
    ap codes (append.cons c s t) ∙ ap (λ r. code c ∷ r) (codes-append s t)

abbrev lower : String → List ℕ
lower s = to_ascii_lowercase (codes s)

map-append :
    (xs ys : List ℕ)
    → to_ascii_lowercase (xs ++ ys) ≡ to_ascii_lowercase xs ++ to_ascii_lowercase ys
unfolding to_ascii_lowercase
map-append [] ys = refl
map-append (x ∷ xs) ys = rw (map-append xs ys)

lower-append : (s t : String) → lower (String.◌++◌ s t) ≡ lower s ++ lower t
lower-append s t = rw (codes-append s t) (map-append (codes s) (codes t))

-- The letters that the markers and patterns begin with.
abbrev begins : ℕ → Bool
begins c = num_eq c b'v' || num_eq c b'i' || num_eq c b's' || num_eq c b'u'

abbrev IsMarker : List ℕ → Type 0
IsMarker [] = ⊥
IsMarker (c ∷ cs) = begins c ≡ true

abbrev IsPlain : List ℕ → Type 0
IsPlain cs = All (λ c. begins c ≡ false) cs

contains-skip :
    (plain text marker : List ℕ)
    → IsPlain plain
    → IsMarker marker
    → contains (plain ++ text) marker ≡ contains text marker
unfolding contains
contains-skip [] text marker h m = refl
contains-skip (c ∷ cs) text [] h m = absurd m
contains-skip (c ∷ cs) text (d ∷ ds) h m = ground (arith, contains-skip cs text (d ∷ ds) h.1 m)

get_or-All :
    (P : String → Type 0) (xs : List String) (n : ℕ) (d : String)
    → All P xs
    → P d
    → P (get_or xs n d)
get_or-All P [] n d h k = k
get_or-All P (x ∷ xs) zero d h k = h.0
get_or-All P (x ∷ xs) (suc n) d h k = get_or-All P xs n d h.1 k

digit-IsPlain : (n : ℕ) → IsPlain (lower (digit n))
unfolding to_ascii_lowercase
digit-IsPlain n =
    get_or-All (λ s. IsPlain (lower s)) digits n ""
      (
        (refl, tt),
        (
          (refl, tt),
          (
            (refl, tt),
            (
              (refl, tt),
              (
                (refl, tt),
                ((refl, tt), ((refl, tt), ((refl, tt), ((refl, tt), ((refl, tt), tt))))),
              ),
            ),
          ),
        ),
      )
      tt

contains-plain :
    (s t : String) (marker : List ℕ)
    → IsPlain (lower s)
    → IsMarker marker
    → contains (lower (String.◌++◌ s t)) marker ≡ contains (lower t) marker
contains-plain s t marker h m = rw (lower-append s t) (contains-skip (lower s) (lower t) marker h m)

status_text-IsPlain : (status : ℕ) → IsPlain (lower (status_text status))
unfolding status_text
status_text-IsPlain status =
    let d = digit (status / 10 % 10) in
    let e = digit (status % 10) in
    rw (lower-append (digit (status / 100)) (String.◌++◌ d e), lower-append d e)
      (All-append _ (lower (digit (status / 100))) (lower d ++ lower e)
        (digit-IsPlain (status / 100))
        (All-append _ (lower d) (lower e) (digit-IsPlain (status / 10 % 10))
          (digit-IsPlain (status % 10))))

-- The status does not hide or add a marker of the body.
contains-http_message :
    (status : ℕ) (body : String) (marker : List ℕ)
    → IsMarker marker
    → contains (lower (http_message status body)) marker ≡ contains (lower body) marker
unfolding to_ascii_lowercase
contains-http_message status body marker m =
    let tail = String.◌++◌ ": " body in
    contains-plain "HTTP " (String.◌++◌ (status_text status) tail) marker
      (refl, (refl, (refl, (refl, (refl, tt))))) m
    ∙ contains-plain (status_text status) tail marker (status_text-IsPlain status) m
    ∙ contains-plain ": " body marker (refl, (refl, tt)) m

any-congr :
    (f g : String → Bool) (P : String → Type 0) (xs : List String)
    → All P xs
    → ((x : String) → P x → f x ≡ g x)
    → any f xs ≡ any g xs
unfolding any
any-congr f g P [] h e = refl
any-congr f g P (x ∷ xs) h e = rw (e x h.0, any-congr f g P xs h.1 e)

-- Whether a rejection is permanent depends on the body of the reply alone, and not on its status.
pub permanent_by_body :
    (status : ℕ) (body : String)
    → is_permanent_push_error_message (http_message status body)
      ≡ is_permanent_push_error_message body
unfolding is_permanent_push_error_message
permanent_by_body status body =
    any-congr (λ p. contains (lower (http_message status body)) (codes p))
      (λ p. contains (lower body) (codes p)) (λ p. IsMarker (codes p)) permanent_push_error_patterns
      (refl, (refl, (refl, (refl, (refl, (refl, (refl, (refl, (refl, (refl, tt))))))))))
      (λ p m. contains-http_message status body (codes p) m)

version_regression-http_message :
    (status : ℕ) (body : String)
    → is_version_regression_message (http_message status body) ≡ is_version_regression_message body
unfolding is_version_regression_message
version_regression-http_message status body =
    contains-http_message status body (codes "version regression") refl

marked_permanent :
    (message : String)
    → (is_version_regression_message message || is_same_version_mutation_message message) ≡ true
    → is_permanent_push_error_message message ≡ true
unfolding is_permanent_push_error_message is_version_regression_message
    is_same_version_mutation_message any
marked_permanent message h = ground arith

-- A rejection of either push whose body tells of a version regression, and of no same-version
-- mutation, is a permanent error that is recognised as a version regression.
pub regression_recognised :
    (table : String) (resp : Response)
    → is_success resp.status ≡ false
    → is_version_regression_message (text_or_default resp) ≡ true
    → is_same_version_mutation_message (text_or_default resp) ≡ false
    → (e : PushError) × (upsert_outcome table (ok resp) ≡ err (push e))
      × (tombstone_outcome table (ok resp) ≡ err (push e))
      × (Push.is_version_regression e ≡ true)
      × (Push.is_transient e ≡ false)
unfolding upsert_outcome tombstone_outcome classify_push_error_message
regression_recognised table resp fail reg other =
    let body = text_or_default resp in
    (
      PushError.permanent table (http_message resp.status body),
      ground (arith, permanent_by_body resp.status body, marked_permanent body),
      ground (arith, permanent_by_body resp.status body, marked_permanent body),
      ground (arith, version_regression-http_message resp.status body),
      refl,
    )

-- A rejection whose body tells of a same-version mutation is benign for an upsert, and a permanent
-- error for a tombstone.
pub same_version_outcomes :
    (table : String) (resp : Response)
    → is_success resp.status ≡ false
    → is_same_version_mutation_message (text_or_default resp) ≡ true
    → (upsert_outcome table (ok resp) ≡ err (push (same_version_mutation_ignored table)))
      × (tombstone_outcome table (ok resp)
          ≡ err
              (push (PushError.permanent table (http_message resp.status (text_or_default resp)))))
unfolding upsert_outcome tombstone_outcome classify_push_error_message
same_version_outcomes table resp fail same = ground (
  arith,
  permanent_by_body resp.status (text_or_default resp),
  marked_permanent (text_or_default resp),
)
