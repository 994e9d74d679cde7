-- ===== src/Recalc/System.antt =====
-- Writers and workers on one database, as interleavings of what each of them commits:
-- RequestRecalculation and Recalculate of usecase/unit_of_work.go and usecase/shop_stats.go, and
-- RunOnce, recalculate and recordFailure of usecase/stats_worker.go and
-- usecase/shop_stats_worker.go, for any number of workers. The statistics of burgers and those of
-- shops have the same protocol; `calculate` stands for CalculateBurgerStat or CalculateShopStat.
--
-- The facts of a subject are its own reviews. The statistics are calculated from them and from the
-- histories of their reviewers, which are the ratings that these gave to all burgers
-- (ListReviewerRatings), so that `calculate` takes both.
--
-- A write is one transaction: it changes the facts of some subjects and requests those subjects. It
-- may change the histories, and requests nothing for the other subjects on which these bear. The transaction of a worker is three steps, since it does not see a
-- fixed snapshot: the lock of the subject's row, the reading of the facts, and the commit with the
-- new statistics and the deletion of the request. The deletion holds the request's row until the
-- commit, so that no write of the same subject can commit in between.
pub mod Invariant
pub mod Workers
pub mod NoLostUpdate
use hamburger_evaluation.Base.{
  ℕ, ◌≡◌, ◌≢◌, refl, Bool, true, false, Option, none, some, String, List, [], ◌∷◌, str_eq, ◌==◌,
  if◌then◌else◌, any, Any,
}
use hamburger_evaluation.Recalc.Backoff.{RecalcFailure}
use hamburger_evaluation.Recalc.Queue.{
  Queue, RecalcRequest, request_recalc, complete_recalc, record_recalc_failure,
  list_due_recalc_requests,
}

-- RequestRecalculationReviewedBy, RequestRecalculationForBurgers: one request for each subject.
unfoldable pub request_all : List String → Queue → Queue
request_all [] q = q
request_all (b ∷ bs) q = request_all bs (request_recalc b q)

module _ (Fact Past Stat : Type 0) where
  -- What a worker is doing with the request that it took from its list.
  pub data Work : Type 0 where
    idle : Work
    locked : RecalcRequest → Work
    loaded : RecalcRequest → List Fact → Work
    failing : RecalcRequest → Work

  -- `batch` is what is left of the requests that the cycle took out.
  pub record Worker : Type 0 where
    pub batch : List RecalcRequest
    pub work : Work

  -- `histories` are those that the database had so far, the present ones first. `lock b` is the
  -- worker that holds the row of `b`.
  pub record State : Type 0 where
    pub facts : String → List Fact
    pub histories : List Past
    pub stats : String → Option Stat
    pub queue : Queue
    pub lock : String → Option ℕ
    pub workers : ℕ → Worker

abbrev pub put {ℓ} : {A : Type ℓ} → String → A → (String → A) → String → A
put b x f c = if str_eq b c then x else f c

abbrev pub set_worker {ℓ} : {A : Type ℓ} → ℕ → A → (ℕ → A) → ℕ → A
set_worker w x f i = if w == i then x else f i

abbrev pub is_in : String → List String → Bool
is_in c = any (λ b. str_eq b c)

module _ (Fact Past Stat : Type 0) (calculate : String → List Fact → Past → ℕ → Stat)
    (before : String → String → Bool) where
  -- The worker `w` with its new work.
  abbrev pub working :
      ℕ
      → List RecalcRequest
      → Work Fact Past Stat
      → State Fact Past Stat
      → ℕ
      → Worker Fact Past Stat
  working w rs k s = set_worker w (record { batch = rs; work = k }) s.workers

  pub data Step (s : State Fact Past Stat) : State Fact Past Stat → Type 0 where
    write :
        (bs : List String) (facts' : String → List Fact)
        → ((c : String) → is_in c bs ≡ false → facts' c ≡ s.facts c)
        → (history : Past)
        → Step s (record s {
          facts = facts';
          histories = history ∷ s.histories;
          queue = request_all bs s.queue;
        })
    list :
        (w now max_attempts batch : ℕ)
        → (s.workers w).work ≡ idle
        → Step s (record s {
          workers =
              working w (list_due_recalc_requests before now max_attempts batch s.queue) idle s;
        })
    take_lock :
        (w : ℕ) (r : RecalcRequest) (rs : List RecalcRequest)
        → s.workers w ≡ record { batch = r ∷ rs; work = idle }
        → s.lock r.subject ≡ none
        → Step s
            (record s { lock = put r.subject (some w) s.lock; workers = working w rs (locked r) s })
    load :
        (w : ℕ) (r : RecalcRequest) (rs : List RecalcRequest)
        → s.workers w ≡ record { batch = rs; work = locked r }
        → Step s (record s { workers = working w rs (loaded r (s.facts r.subject)) s })
    -- The histories are read after the facts, and their commits are not held up.
    commit :
        (w now : ℕ) (past : Past) (r : RecalcRequest) (fs : List Fact) (rs : List RecalcRequest)
        → s.workers w ≡ record { batch = rs; work = loaded r fs }
        → Any (λ h. h ≡ past) s.histories
        → Step s (record s {
          stats = put r.subject (some (calculate r.subject fs past now)) s.stats;
          queue = (complete_recalc r.subject r.version s.queue).0;
          lock = put r.subject none s.lock;
          workers = working w rs idle s;
        })
    -- ErrShopNotFound: a shop that is gone, with its reviews and its statistics.
    skip :
        (w : ℕ) (r : RecalcRequest) (rs : List RecalcRequest)
        → s.workers w ≡ record { batch = r ∷ rs; work = idle }
        → s.facts r.subject ≡ []
        → s.stats r.subject ≡ none
        → s.lock r.subject ≡ none
        → Step s (record s {
          queue = (complete_recalc r.subject r.version s.queue).0;
          workers = working w rs idle s;
        })
    roll_back_locked :
        (w : ℕ) (r : RecalcRequest) (rs : List RecalcRequest)
        → s.workers w ≡ record { batch = rs; work = locked r }
        → Step s
            (record s { lock = put r.subject none s.lock; workers = working w rs (failing r) s })
    roll_back_loaded :
        (w : ℕ) (r : RecalcRequest) (fs : List Fact) (rs : List RecalcRequest)
        → s.workers w ≡ record { batch = rs; work = loaded r fs }
        → Step s
            (record s { lock = put r.subject none s.lock; workers = working w rs (failing r) s })
    record_failure :
        (w : ℕ) (f : RecalcFailure) (r : RecalcRequest) (rs : List RecalcRequest)
        → s.workers w ≡ record { batch = rs; work = failing r }
        → Step s (record s {
          queue = (record_recalc_failure r.subject r.version f s.queue).0;
          workers = working w rs idle s;
        })
    -- The lock was not granted, or the transaction could not begin.
    fail_early :
        (w : ℕ) (r : RecalcRequest) (rs : List RecalcRequest)
        → s.workers w ≡ record { batch = r ∷ rs; work = idle }
        → Step s (record s { workers = working w rs (failing r) s })
    -- The failure could not be recorded, and the worker goes on with its list.
    give_up :
        (w : ℕ) (r : RecalcRequest) (rs : List RecalcRequest)
        → s.workers w ≡ record { batch = rs; work = failing r }
        → Step s (record s { workers = working w rs idle s })

  pub data Reach (s : State Fact Past Stat) : State Fact Past Stat → Type 0 where
    here : Reach s s
    next : {t u : State Fact Past Stat} → Reach s t → Step t u → Reach s u
