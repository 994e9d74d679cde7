-- ===== src/Recalc/Backoff.antt =====
-- NewRecalcFailure of domain/burger_stats.go: when to try again, and what reason to keep.
use hamburger_evaluation.Base.{
  ℕ, zero, suc, ◌+◌, ◌-◌, ◌*◌, ◌%◌, ◌^◌, ◌≤◌, ◌≡◌, ◌≢◌, ◌&&◌, not, Option, none, some, List, [],
  ◌∷◌, arith, leb, ltb, ◌==◌, if◌then◌else◌, length, take, keep, All, min, length-take,
}
use native.Mathlib.Nat.{pow-le-pow_right}

-- Nanoseconds.
abbrev pub recalc_retry_base_delay : ℕ
recalc_retry_base_delay = 2000000000

abbrev pub recalc_retry_max_delay : ℕ
recalc_retry_max_delay = 300000000000

abbrev pub max_recalc_failure_reason_chars : ℕ
max_recalc_failure_reason_chars = 500

-- A reason is given by its code points.
pub record RecalcFailure : Type 0 where
  pub next_attempt_at : ℕ
  pub reason : List ℕ

-- `<<` on an int64.
delay_of : ℕ → ℕ
delay_of failures =
    if leb 1 failures && leb failures 20
    then (let d = recalc_retry_base_delay * 2 ^ (failures - 1) % 2 ^ 64 in
        if ltb d recalc_retry_max_delay then d else recalc_retry_max_delay)
    else recalc_retry_max_delay

-- The text of the error without NUL, at most 500 characters of it.
reason_of : Option (List ℕ) → List ℕ
reason_of none = []
reason_of (some text) = take max_recalc_failure_reason_chars (keep (λ c. not (c == 0)) text)

unfoldable pub new_recalc_failure : ℕ → Option (List ℕ) → ℕ → RecalcFailure
unfolding delay_of reason_of
new_recalc_failure failures cause now = record {
  next_attempt_at = now + delay_of failures;
  reason = reason_of cause;
}

-- 2 to the `k`, as far as the range of the shift and beyond it.
pow_below : (k : ℕ) → k ≤ 19 → 2 ^ k ≤ 524288
pow_below k h = pow-le-pow_right {n = 2} (omega arith) h

pow_above : (k : ℕ) → 20 ≤ k → 1048576 ≤ 2 ^ k
pow_above k h = pow-le-pow_right {n = 2} (omega arith) h

delay_of-suc :
    (k : ℕ) → delay_of (suc k) ≡ min (recalc_retry_base_delay * 2 ^ k) recalc_retry_max_delay
unfolding delay_of
delay_of-suc k =
    let same : suc k - 1 ≡ k = omega arith in rw same (ground (arith, pow_below k, pow_above k))

-- After the failure number `k + 1` the request waits for 2 s doubled `k` times, 5 minutes at most;
-- the shift never overflows, however often the request failed.
pub new_recalc_failure-delay :
    (k : ℕ) (cause : Option (List ℕ)) (now : ℕ)
    → (new_recalc_failure (suc k) cause now).next_attempt_at
      ≡ now + min (recalc_retry_base_delay * 2 ^ k) recalc_retry_max_delay
unfolding new_recalc_failure
new_recalc_failure-delay k cause now = rw (delay_of-suc k)

keep-All : (xs : List ℕ) → All (λ c. c ≢ 0) (keep (λ c. not (c == 0)) xs)
keep-All [] = tt
keep-All (x ∷ xs) = ground (arith, keep-All xs)

take-All : (P : ℕ → Type 0) (n : ℕ) (xs : List ℕ) → All P xs → All P (take n xs)
take-All P zero xs h = tt
take-All P (suc n) [] h = tt
take-All P (suc n) (x ∷ xs) h = (h.0, take-All P n xs h.1)

-- The reason that is kept fits into its column and into a text of the database: at most 500
-- characters, none of them NUL.
pub new_recalc_failure-reason :
    (failures : ℕ) (cause : Option (List ℕ)) (now : ℕ)
    → let r = (new_recalc_failure failures cause now).reason in
      (length r ≤ max_recalc_failure_reason_chars) × All (λ c. c ≢ 0) r
unfolding new_recalc_failure reason_of
new_recalc_failure-reason failures none now = (omega arith, tt)
new_recalc_failure-reason failures (some text) now =
    let clean : List ℕ = keep (λ c. not (c == 0)) text in
    (
      omega (arith, length-take max_recalc_failure_reason_chars clean),
      take-All (λ c. c ≢ 0) max_recalc_failure_reason_chars clean (keep-All text),
    )
