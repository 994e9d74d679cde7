-- ===== src/Recalc/Queue.antt =====
-- The table of recalculation requests and the statements on it
-- (sqlcgen/burger_stats_recalc_requests.sql.go, sqlcgen/shop_stats_recalc_requests.sql.go and the
-- methods of the two repositories around them). Both tables have the same columns and statements,
-- for a burger's id and for a shop's. The times that only people read (created_at, updated_at) are
-- left out.
pub mod Laws
pub mod Listing
use hamburger_evaluation.Base.{
  ℕ, zero, suc, ◌+◌, ◌≤◌, ◌<◌, ◌≡◌, refl, Bool, true, false, not, ◌&&◌, ◌||◌, Option, none, some,
  String, List, [], ◌∷◌, arith, str_eq, leb, ltb, ◌==◌, if◌then◌else◌, keep, take, map, find, any,
}
use hamburger_evaluation.Recalc.Backoff.{RecalcFailure}

pub record Row : Type 0 where
  pub subject : String
  pub version : ℕ
  pub attempts : ℕ
  pub next_attempt_at : Option ℕ
  pub last_error : Option (List ℕ)

-- `seq` is the last number that the sequence of versions gave out. The subject is the table's
-- primary key.
pub record Queue : Type 0 where
  pub rows : List Row
  pub seq : ℕ

-- domain.RecalcRequest and domain.ShopRecalcRequest
pub record RecalcRequest : Type 0 where
  pub subject : String
  pub version : ℕ
  pub attempts : ℕ

abbrev pub is_row_of : String → Row → Bool
is_row_of b r = str_eq r.subject b

abbrev pub is_request : String → ℕ → Row → Bool
is_request b v r = str_eq r.subject b && r.version == v

abbrev fresh_row : String → ℕ → Row
fresh_row b v = record {
  subject = b;
  version = v;
  attempts = 0;
  next_attempt_at = none;
  last_error = none;
}

-- ON CONFLICT (burger_id) DO UPDATE: the row of `b`, where there is one.
renew : String → ℕ → List Row → Option (List Row)
renew b v [] = none
renew b v (r ∷ rows) =
    let rest = renew b v rows in
    if is_row_of b r
    then some (fresh_row b v ∷ rows)
    else (elim rest [ none ↦ none | some rows' ↦ some (r ∷ rows') ])

-- The default of `version` takes a number of the sequence also where the insertion meets a row.
upsert_into : Option (List Row) → String → Queue → Queue
upsert_into none b q = record { rows = fresh_row b (suc q.seq) ∷ q.rows; seq = suc q.seq }
upsert_into (some rows) b q = record { rows = rows; seq = suc (suc q.seq) }

-- UpsertBurgerStatsRecalcRequest, CreateBurgerStatRecalcRequest
unfoldable pub request_recalc : String → Queue → Queue
unfolding renew upsert_into
request_recalc b q = upsert_into (renew b (suc (suc q.seq)) q.rows) b q

-- DeleteBurgerStatsRecalcRequestIfVersion, DiscardBurgerStatRecalcRequest: whether a row went.
unfoldable pub complete_recalc : String → ℕ → Queue → Queue × Bool
complete_recalc b v q =
    (record q { rows = keep (λ r. not (is_request b v r)) q.rows }, any (is_request b v) q.rows)

failed_row : String → ℕ → RecalcFailure → Row → Row
failed_row b v f r =
    if is_request b v r
    then record r {
      attempts = r.attempts + 1;
      next_attempt_at = some f.next_attempt_at;
      last_error = some f.reason;
    }
    else r

-- RecordBurgerStatsRecalcRequestFailure, UpdateBurgerStatRecalcFailure
unfoldable pub record_recalc_failure : String → ℕ → RecalcFailure → Queue → Queue × Bool
unfolding failed_row
record_recalc_failure b v f q =
    (record q { rows = map (failed_row b v f) q.rows }, any (is_request b v) q.rows)

abbrev is_due_at : Option ℕ → ℕ → Bool
is_due_at none now = true
is_due_at (some at) now = leb at now

is_due : ℕ → ℕ → Row → Bool
is_due now max_attempts r = ltb r.attempts max_attempts && is_due_at r.next_attempt_at now

abbrev to_request : Row → RecalcRequest
to_request r = record { subject = r.subject; version = r.version; attempts = r.attempts }

-- next_attempt_at NULLS FIRST, then the subject; `before` compares two ids as the database does.
abbrev is_sooner : Option ℕ → Option ℕ → Bool → Bool
is_sooner none none tie = tie
is_sooner none (some b) tie = true
is_sooner (some a) none tie = false
is_sooner (some a) (some b) tie = ltb a b || a == b && tie

module _ (before : String → String → Bool) where
  insert_row : Row → List Row → List Row
  insert_row r [] = r ∷ []
  insert_row r (x ∷ xs) =
      let rest = x ∷ insert_row r xs in
      if is_sooner r.next_attempt_at x.next_attempt_at (before r.subject x.subject)
      then r ∷ x ∷ xs
      else rest

  sort_rows : List Row → List Row
  sort_rows [] = []
  sort_rows (r ∷ rows) = insert_row r (sort_rows rows)

  -- ListDueBurgerStatsRecalcRequests
  unfoldable pub list_due_recalc_requests : ℕ → ℕ → ℕ → Queue → List RecalcRequest
  unfolding is_due insert_row sort_rows
  list_due_recalc_requests now max_attempts batch q =
      map to_request (take batch (sort_rows (keep (is_due now max_attempts) q.rows)))
