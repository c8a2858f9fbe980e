-- ===== src/Server/Store/Monitor.antt =====
-- volodbserver/Store/Store.cpp: the test by which requests would be ignored while transactions fail;
-- its only call is commented out. The time and the value of rand() are arguments.
use native.Mathlib.Nat.{div-eq_of_lt, div_self}
use volo_db.Prelude.{
  ℕ, ◌+◌, ◌/◌, ◌%◌, ◌≤◌, ◌<◌, ◌≡◌, Bool, true, false, arith, ltb, if◌then◌else◌, ltb→lt, Bool-cases,
  inl, inr,
}

-- The static counters of NDBMessageProcessor.
pub record Monitor : Type 0 where
  pub no_recent_transactions : ℕ
  pub no_recent_failed_transactions : ℕ
  pub last_failed_transactions_start_time : ℕ

unfoldable pub reset_transaction_monitor_counter_if_required : ℕ → Monitor → Monitor
reset_transaction_monitor_counter_if_required current_time m =
    if ltb (m.last_failed_transactions_start_time + 3) current_time
    then record {
      no_recent_transactions = 0;
      no_recent_failed_transactions = 0;
      last_failed_transactions_start_time = current_time;
    }
    else m

-- The quotient of two `int`s, which is then stored in a `double`.
unfoldable pub percent_failed : Monitor → ℕ
percent_failed m =
    if ltb 0 m.no_recent_transactions
    then m.no_recent_failed_transactions / m.no_recent_transactions
    else 0

unfoldable pub should_ignore_request : ℕ → ℕ → Monitor → Bool × Monitor
unfolding reset_transaction_monitor_counter_if_required percent_failed
should_ignore_request current_time rand m =
    let m' = reset_transaction_monitor_counter_if_required current_time m in
    let percent = percent_failed m' in
    ((if ltb 0 percent then ltb (rand % 100) percent else false), m')

quotient_lem :
    (failed started : ℕ)
    → failed ≤ started
    → 0 < started
    → 0 < failed / started
    → (failed ≡ started) × (failed / started ≡ 1)
quotient_lem failed started h p q = elim (Bool-cases (ltb failed started)) [
  | inl less ↦ let none_left = div-eq_of_lt (ltb→lt failed started less) in absurd (omega arith)
  | inr equal ↦ let same : failed ≡ started = ground arith in (same, rw same (div_self p))
]

-- As long as not more transactions fail than are started, a request is ignored only if all of the
-- recent ones have failed and the counters are not older than three seconds, and then only for one
-- of a hundred random numbers: the share of failures is rounded down to 0 or 1, and is no percentage.
pub should_ignore_request_lem :
    (current_time rand : ℕ) (m : Monitor)
    → m.no_recent_failed_transactions ≤ m.no_recent_transactions
    → (should_ignore_request current_time rand m).0 ≡ true
    → (m.no_recent_failed_transactions ≡ m.no_recent_transactions)
      × (0 < m.no_recent_transactions)
      × (current_time ≤ m.last_failed_transactions_start_time + 3)
      × (rand % 100 ≡ 0)
unfolding should_ignore_request
should_ignore_request_lem current_time rand m h e =
    let m' = reset_transaction_monitor_counter_if_required current_time m in
    elim (Bool-cases (ltb (m.last_failed_transactions_start_time + 3) current_time)) [
      | inl old ↦ absurd (ground arith)
      | inr recent ↦ elim (Bool-cases (ltb 0 m.no_recent_transactions)) [
        | inl started ↦
            elim (Bool-cases (ltb 0 (m.no_recent_failed_transactions / m.no_recent_transactions))) [
              | inl positive ↦
                  let q =
                    quotient_lem m.no_recent_failed_transactions m.no_recent_transactions h
                      (ltb→lt _ _ started) (ltb→lt _ _ positive) in
                  ground arith
              | inr zero_percent ↦ absurd (ground arith)
            ]
        | inr not_started ↦ absurd (ground arith)
      ]
    ]
