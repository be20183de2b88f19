-- ===== src/Node/Stats/Outcomes.antt =====
-- A history of requests to the control plane in the counters of node-core/src/state.rs.
use cll.Base.{ℕ, suc, ◌%◌, ◌^◌, ◌≡◌, refl, Option, none, some, List, [], ◌∷◌, arith}
use cll.Text.{Text}
use cll.Node.Stats.{ControlStats, no_control_stats, success, failure}

-- How one request ends, at a time.
pub data Outcome : Type 0 where
  succeeds : ℕ → ℕ → Outcome
  fails : ℕ → Option ℕ → Text → Outcome

unfoldable pub record_outcome : Outcome → ControlStats → ControlStats
unfolding success failure
record_outcome (succeeds now http_status) stats = success now http_status stats
record_outcome (fails now http_status error) stats = failure now http_status error stats

-- The outcomes, the latest one first.
unfoldable pub record_outcomes : List Outcome → ControlStats
unfolding record_outcome
record_outcomes [] = no_control_stats
record_outcomes (outcome ∷ earlier) = record_outcome outcome (record_outcomes earlier)

abbrev pub successes : List Outcome → ℕ
successes [] = 0
successes (succeeds now http_status ∷ earlier) = suc (successes earlier)
successes (fails now http_status error ∷ earlier) = successes earlier

abbrev pub failures : List Outcome → ℕ
failures [] = 0
failures (succeeds now http_status ∷ earlier) = failures earlier
failures (fails now http_status error ∷ earlier) = suc (failures earlier)

-- The last status that came, the last error unless a success followed, the times of the last success
-- and failure.
abbrev pub last_status : List Outcome → ℕ
last_status [] = 0
last_status (succeeds now http_status ∷ earlier) = http_status
last_status (fails now none error ∷ earlier) = last_status earlier
last_status (fails now (some http_status) error ∷ earlier) = http_status

abbrev pub open_error : List Outcome → Option Text
open_error [] = none
open_error (succeeds now http_status ∷ earlier) = none
open_error (fails now http_status error ∷ earlier) = some error

-- After any history of one kind of request: both counts, up to 2 ^ 64; the last status that an answer
-- had; and the error of the last request, if it failed.
pub record_outcomes_lem :
    (outcomes : List Outcome)
    → ((record_outcomes outcomes).succeeded ≡ successes outcomes % 2 ^ 64)
      × ((record_outcomes outcomes).failed ≡ failures outcomes % 2 ^ 64)
      × ((record_outcomes outcomes).last_http_status ≡ last_status outcomes)
      × ((record_outcomes outcomes).last_error ≡ open_error outcomes)
unfolding record_outcomes
record_outcomes_lem [] = (omega arith, omega arith, refl, refl)
record_outcomes_lem (succeeds now http_status ∷ earlier) =
    let (s, f, l, e) = record_outcomes_lem earlier in (omega (arith, s), f, refl, refl)
record_outcomes_lem (fails now none error ∷ earlier) =
    let (s, f, l, e) = record_outcomes_lem earlier in (s, omega (arith, f), l, refl)
record_outcomes_lem (fails now (some http_status) error ∷ earlier) =
    let (s, f, l, e) = record_outcomes_lem earlier in (s, omega (arith, f), refl, refl)
