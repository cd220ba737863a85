-- ===== src/Contract/Version.antt =====
-- Versions and queue timestamps of contract.rs. Both are `i64`; sums wrap, as in a release build.
use polykit_rust.Prelude.{ℕ, ◌-◌, ◌^◌, ◌≡◌, Option, none, some, arith, if◌then◌else◌}
use polykit_rust.Prelude.Int.{
  ℤ, pos, ◌+ℤ◌, ◌≤ℤ◌, ◌<ℤ◌, leb_ℤ, InI64, add_i64, add_i64_exact, +ℤ_parts,
}

abbrev pub initial_version : ℤ
initial_version = pos 1

abbrev pub standard_mutation_version_step : ℕ
standard_mutation_version_step = 1

abbrev pub undelete_version_delta : ℕ
undelete_version_delta = 1000

abbrev pub monotonic_queue_timestamp_bump_micros : ℕ
monotonic_queue_timestamp_bump_micros = 1

unfoldable pub undelete_minimum_version : ℤ → ℤ
undelete_minimum_version remote_version = add_i64 remote_version undelete_version_delta

unfoldable pub local_winner_merged_version : ℤ → ℤ → ℤ
local_winner_merged_version local_version remote_version =
    if leb_ℤ remote_version local_version
    then add_i64 local_version standard_mutation_version_step
    else add_i64 remote_version standard_mutation_version_step

unfoldable pub next_queued_at_micros : Option ℤ → ℤ → ℤ
next_queued_at_micros none candidate_micros = candidate_micros
next_queued_at_micros (some last) candidate_micros =
    if leb_ℤ candidate_micros last
    then add_i64 last monotonic_queue_timestamp_bump_micros
    else candidate_micros

abbrev max_i64 : ℤ
max_i64 = pos (2 ^ 63 - 1)

-- One step above an `i64` that is not the largest.
add_i64_one : (a : ℤ) → InI64 a → a <ℤ max_i64 → add_i64 a 1 ≡ a +ℤ pos 1
add_i64_one a h b = add_i64_exact a 1 h (omega (arith, +ℤ_parts a (pos 1)))

-- When the local row wins a merge of versions below the largest `i64`, the merged version is
-- greater than both, and no smaller version is.
pub local_winner_merged_version_lem :
    (l r : ℤ)
    → InI64 l
    → InI64 r
    → l <ℤ pos (2 ^ 63 - 1)
    → r <ℤ pos (2 ^ 63 - 1)
    → (l <ℤ local_winner_merged_version l r)
      × (r <ℤ local_winner_merged_version l r)
      × ((v : ℤ) → l <ℤ v → r <ℤ v → local_winner_merged_version l r ≤ℤ v)
unfolding local_winner_merged_version
local_winner_merged_version_lem l r hl hr bl br =
    let el = add_i64_one l hl bl in
    let er = add_i64_one r hr br in
    let pl = +ℤ_parts l (pos 1) in
    let pr = +ℤ_parts r (pos 1) in
    (
      ground (arith, el, er, pl, pr),
      ground (arith, el, er, pl, pr),
      λ v p q. ground (arith, el, er, pl, pr),
    )
