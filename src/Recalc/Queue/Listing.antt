-- ===== src/Recalc/Queue/Listing.antt =====
-- What the listing of due requests returns.
use hamburger_evaluation.Base.{
  ℕ, zero, suc, ◌≤◌, ◌≡◌, Bool, true, String, List, [], ◌∷◌, arith, keep, take, map, All,
  Bool-cases, inl, inr,
}
use hamburger_evaluation.Recalc.Queue.{
  Row, Queue, RecalcRequest, is_due, is_sooner, to_request, insert_row, sort_rows,
  list_due_recalc_requests,
}
use hamburger_evaluation.Recalc.Queue.Laws.{IsQueue, AreRows}

module _ (before : String → String → Bool) (P : Row → Type 0) where
  insert_row-All : (r : Row) (rows : List Row) → P r → All P rows → All P (insert_row before r rows)
  unfolding insert_row
  insert_row-All r [] h hs = (h, tt)
  insert_row-All r (x ∷ xs) h hs =
      elim (Bool-cases
        (is_sooner r.next_attempt_at x.next_attempt_at (before r.subject x.subject))) [
          | inl e ↦ rw e (h, hs)
          | inr e ↦ rw e (hs.0, insert_row-All r xs h hs.1)
        ]

  sort_rows-All : (rows : List Row) → All P rows → All P (sort_rows before rows)
  unfolding sort_rows
  sort_rows-All [] h = tt
  sort_rows-All (r ∷ rows) h = insert_row-All r (sort_rows before rows) h.0 (sort_rows-All rows h.1)

module _ {A : Type 0} (P : A → Type 0) where
  take-All : (n : ℕ) (xs : List A) → All P xs → All P (take n xs)
  take-All zero xs h = tt
  take-All (suc n) [] h = tt
  take-All (suc n) (x ∷ xs) h = (h.0, take-All n xs h.1)

module _ (P : Row → Type 0) (Q : RecalcRequest → Type 0)
    (to : (r : Row) → P r → Q (to_request r)) where
  map-All : (rows : List Row) → All P rows → All Q (map to_request rows)
  map-All [] h = tt
  map-All (r ∷ rows) h = (to r h.0, map-All rows h.1)

-- What holds of the rows that are due holds of the requests that are listed.
module _ (before : String → String → Bool) (now max_attempts batch : ℕ) (P : Row → Type 0)
    (Q : RecalcRequest → Type 0) (to : (r : Row) → P r → Q (to_request r)) where
  list-All :
      (q : Queue)
      → All P (keep (is_due now max_attempts) q.rows)
      → All Q (list_due_recalc_requests before now max_attempts batch q)
  unfolding list_due_recalc_requests
  list-All q h =
      map-All P Q to (take batch (sort_rows before (keep (is_due now max_attempts) q.rows))) (
        take-All P batch (sort_rows before (keep (is_due now max_attempts) q.rows))
          (sort_rows-All before P (keep (is_due now max_attempts) q.rows) h))

keep-known :
    (p : Row → Bool) (seq : ℕ) (rows : List Row)
    → AreRows seq rows
    → All (λ r. r.version ≤ seq) (keep p rows)
keep-known p seq [] a = tt
keep-known p seq (r ∷ rows) a = ground (arith, keep-known p seq rows a.2)

-- Every listed version was given out by the sequence.
pub list_due-le :
    (before : String → String → Bool) (now max_attempts batch : ℕ) (q : Queue)
    → IsQueue q
    → All (λ r. r.version ≤ q.seq) (list_due_recalc_requests before now max_attempts batch q)
list_due-le before now max_attempts batch q h =
    list-All before now max_attempts batch (λ r. r.version ≤ q.seq) (λ r. r.version ≤ q.seq)
      (λ r k. k) q (keep-known (is_due now max_attempts) q.seq q.rows h)

keep-due :
    (now max_attempts : ℕ) (rows : List Row)
    → All (λ r. is_due now max_attempts r ≡ true) (keep (is_due now max_attempts) rows)
keep-due now max_attempts [] = tt
keep-due now max_attempts (r ∷ rows) = ground (arith, keep-due now max_attempts rows)

-- A listed request has failed fewer times than the limit, so a request that was given up is not
-- tried again.
list_due-attempts :
    (before : String → String → Bool) (now max_attempts batch : ℕ) (q : Queue)
    → All
        (λ r. suc r.attempts ≤ max_attempts)
        (list_due_recalc_requests before now max_attempts batch q)
unfolding is_due
list_due-attempts before now max_attempts batch q =
    list-All before now max_attempts batch (λ r. is_due now max_attempts r ≡ true)
      (λ r. suc r.attempts ≤ max_attempts) (λ r k. ground arith) q
      (keep-due now max_attempts q.rows)
