-- ===== src/Recalc/Queue/Laws.antt =====
-- The queue of requests seen as a map from subjects to versions, and what each statement does to
-- it.
use hamburger_evaluation.Base.{
  ℕ, suc, ◌≤◌, ◌<◌, ◌≡◌, refl, Bool, not, ◌&&◌, Option, none, some, String, List, [], ◌∷◌, arith,
  str_eq, eq_iff, ◌==◌, if◌then◌else◌, keep, map, Option-cases, Bool-cases, inl, inr,
}
use hamburger_evaluation.Recalc.Backoff.{RecalcFailure}
use hamburger_evaluation.Recalc.Queue.{
  Row, Queue, is_row_of, is_request, renew, request_recalc, complete_recalc, failed_row,
  record_recalc_failure,
}

abbrev pub version_in : String → List Row → Option ℕ
version_in b [] = none
version_in b (r ∷ rows) =
    let rest = version_in b rows in if is_row_of b r then some r.version else rest

-- The version of the request that waits for `b`, if one does.
abbrev pub version_of : String → Queue → Option ℕ
version_of b q = version_in b q.rows

-- One row for a subject (the primary key), with a version that the sequence gave out.
abbrev pub AreRows : ℕ → List Row → Type 0
AreRows seq [] = Unit
AreRows seq (r ∷ rows) = (r.version ≤ seq) × (version_in r.subject rows ≡ none) × AreRows seq rows

abbrev pub IsQueue : Queue → Type 0
IsQueue q = AreRows q.seq q.rows

AreRows-le : (s t : ℕ) (rows : List Row) → s ≤ t → AreRows s rows → AreRows t rows
AreRows-le s t [] h a = tt
AreRows-le s t (r ∷ rows) h a = (omega arith, a.1, AreRows-le s t rows h a.2)

version_in-le :
    (b : String) (seq v : ℕ) (rows : List Row)
    → AreRows seq rows
    → version_in b rows ≡ some v
    → v ≤ seq
version_in-le b seq v [] a e = cc
version_in-le b seq v (r ∷ rows) a e = ground (arith, version_in-le b seq v rows a.2)

-- The version of a waiting request was given out by the sequence.
pub version_of-le :
    (b : String) (v : ℕ) (q : Queue) → IsQueue q → version_of b q ≡ some v → v ≤ q.seq
version_of-le b v q a e = version_in-le b q.seq v q.rows a e

-- Renewing finds a row exactly where the map has one, and changes the version of that row only.
module _ (b : String) (v : ℕ) where
  renew-none : (rows : List Row) → renew b v rows ≡ none → version_in b rows ≡ none
  unfolding renew
  renew-none [] e = refl
  renew-none (r ∷ rows) e = ground (arith, renew-none rows)

  version_in-renew :
      (c : String) (rows rows' : List Row)
      → renew b v rows ≡ some rows'
      → version_in c rows' ≡ (if str_eq b c then some v else version_in c rows)
  unfolding renew
  version_in-renew c [] rows' e = cc
  version_in-renew c (r ∷ rows) rows' e = elim (Bool-cases (is_row_of b r)) [
    | inl here ↦ ground (arith, eq_iff r.subject b, eq_iff r.subject c, eq_iff b c)
    | inr there ↦ elim (Option-cases (renew b v rows)) [
      | inl missing ↦ absurd (ground arith)
      | inr (more, found) ↦ ground (
        arith,
        version_in-renew c rows more found,
        eq_iff r.subject b,
        eq_iff r.subject c,
        eq_iff b c,
      )
    ]
  ]

  renew-AreRows :
      (rows rows' : List Row) → AreRows v rows → renew b v rows ≡ some rows' → AreRows v rows'
  unfolding renew
  renew-AreRows [] rows' a e = cc
  renew-AreRows (r ∷ rows) rows' a e = elim (Bool-cases (is_row_of b r)) [
    | inl here ↦ ground (arith, eq_iff r.subject b)
    | inr there ↦ elim (Option-cases (renew b v rows)) [
      | inl missing ↦ absurd (ground arith)
      | inr (more, found) ↦ ground (
        arith,
        renew-AreRows rows more,
        version_in-renew r.subject rows more found,
        eq_iff r.subject b,
        eq_iff b r.subject,
      )
    ]
  ]

-- A request for `b` takes the last version of the sequence, and leaves the other subjects alone.
pub version_of-request_recalc :
    (b c : String) (q : Queue)
    → version_of c (request_recalc b q)
      ≡ (if str_eq b c then some (request_recalc b q).seq else version_of c q)
unfolding request_recalc
version_of-request_recalc b c q = elim (Option-cases (renew b (suc (suc q.seq)) q.rows)) [
  | inl none_yet ↦ rw none_yet refl
  | inr (rows, found) ↦ rw found (version_in-renew b (suc (suc q.seq)) c q.rows rows found)
]

pub seq-request_recalc : (b : String) (q : Queue) → q.seq < (request_recalc b q).seq
unfolding request_recalc
seq-request_recalc b q = ground arith

-- A request for `b` takes a version above all that the sequence gave out before, and within what it
-- has given out now, and leaves the other subjects alone.
pub request_recalc-renews :
    (b c : String) (q : Queue)
    → (v : ℕ) × (q.seq < v)
      × (v ≤ (request_recalc b q).seq)
      × (version_of c (request_recalc b q) ≡ (if str_eq b c then some v else version_of c q))
request_recalc-renews b c q =
    ((request_recalc b q).seq, seq-request_recalc b q, omega arith, version_of-request_recalc b c q)

pub request_recalc-IsQueue : (b : String) (q : Queue) → IsQueue q → IsQueue (request_recalc b q)
unfolding request_recalc
request_recalc-IsQueue b q h = elim (Option-cases (renew b (suc (suc q.seq)) q.rows)) [
  | inl none_yet ↦ rw none_yet (
    omega arith,
    renew-none b (suc (suc q.seq)) q.rows none_yet,
    AreRows-le q.seq (suc q.seq) q.rows (omega arith) h,
  )
  | inr (rows, found) ↦ rw found (
      renew-AreRows b (suc (suc q.seq)) q.rows rows
        (AreRows-le q.seq (suc (suc q.seq)) q.rows (omega arith) h) found)
]

module _ (b : String) (v : ℕ) where
  abbrev stays : Row → Bool
  stays r = not (is_request b v r)

  abbrev dropped : String → Option ℕ → Option ℕ
  dropped c none = none
  dropped c (some w) = if str_eq b c && w == v then none else some w

  version_in-keep :
      (c : String) (seq : ℕ) (rows : List Row)
      → AreRows seq rows
      → version_in c (keep stays rows) ≡ dropped c (version_in c rows)
  version_in-keep c seq [] a = refl
  version_in-keep c seq (r ∷ rows) a =
      ground
        (arith, version_in-keep c seq rows a.2, eq_iff r.subject b, eq_iff r.subject c, eq_iff b c)

  keep-AreRows : (seq : ℕ) (rows : List Row) → AreRows seq rows → AreRows seq (keep stays rows)
  keep-AreRows seq [] a = tt
  keep-AreRows seq (r ∷ rows) a =
      ground (arith, keep-AreRows seq rows a.2, version_in-keep r.subject seq rows a.2)

  -- A finished request goes only if it still has the version that the worker saw.
  pub version_of-complete_recalc :
      (c : String) (q : Queue)
      → IsQueue q
      → version_of c (complete_recalc b v q).0 ≡ dropped c (version_of c q)
  unfolding complete_recalc
  version_of-complete_recalc c q h = version_in-keep c q.seq q.rows h

  pub complete_recalc-IsQueue : (q : Queue) → IsQueue q → IsQueue (complete_recalc b v q).0
  unfolding complete_recalc
  complete_recalc-IsQueue q h = keep-AreRows q.seq q.rows h

  pub seq-complete_recalc : (q : Queue) → (complete_recalc b v q).0.seq ≡ q.seq
  unfolding complete_recalc
  seq-complete_recalc q = refl

  module _ (f : RecalcFailure) where
    version_in-failed :
        (c : String) (rows : List Row)
        → version_in c (map (failed_row b v f) rows) ≡ version_in c rows
    unfolding failed_row
    version_in-failed c [] = refl
    version_in-failed c (r ∷ rows) = ground (arith, version_in-failed c rows)

    failed-AreRows :
        (seq : ℕ) (rows : List Row) → AreRows seq rows → AreRows seq (map (failed_row b v f) rows)
    unfolding failed_row
    failed-AreRows seq [] a = tt
    failed-AreRows seq (r ∷ rows) a =
        ground (arith, failed-AreRows seq rows a.2, version_in-failed r.subject rows)

    pub seq-record_recalc_failure : (q : Queue) → (record_recalc_failure b v f q).0.seq ≡ q.seq
    unfolding record_recalc_failure
    seq-record_recalc_failure q = refl

    -- Recording a failure keeps every request and its version.
    pub version_of-record_recalc_failure :
        (c : String) (q : Queue) → version_of c (record_recalc_failure b v f q).0 ≡ version_of c q
    unfolding record_recalc_failure
    version_of-record_recalc_failure c q = version_in-failed c q.rows

    pub record_recalc_failure-IsQueue :
        (q : Queue) → IsQueue q → IsQueue (record_recalc_failure b v f q).0
    unfolding record_recalc_failure
    record_recalc_failure-IsQueue q h = failed-AreRows q.seq q.rows h
