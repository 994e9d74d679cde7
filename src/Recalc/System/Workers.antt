-- ===== src/Recalc/System/Workers.antt =====
-- The steps of the workers keep the invariant.
use hamburger_evaluation.Base.{
  ℕ, ◌≤◌, ◌≡◌, ◌≢◌, refl, ◌⊎◌, inl, inr, Bool, false, Option, none, some, String, List, ◌∷◌, arith,
  str_eq, eq_iff, eq_refl, ◌==◌, ==_iff, All, Bool-cases,
}
use mathlib.Core.Path.{subst}
use hamburger_evaluation.Recalc.Queue.{Queue, RecalcRequest, list_due_recalc_requests}
use hamburger_evaluation.Recalc.Queue.Laws.{IsQueue}
use hamburger_evaluation.Recalc.Queue.Listing.{list_due-le}
use hamburger_evaluation.Recalc.System.{
  Work, idle, locked, loaded, failing, Worker, State, put, set_worker, working,
}
use hamburger_evaluation.Recalc.System.Invariant.{
  IsFresh, IsWaiting, Moved, IsKnown, IsWorking, IsWorker, Inv, All-IsKnown,
}

module _ (Fact Past Stat : Type 0) (calculate : String → List Fact → Past → ℕ → Stat) where
  abbrev pub Facts : Type 0
  Facts = String → List Fact

  abbrev pub Locks : Type 0
  Locks = String → Option ℕ

  -- The other workers: what they hold stays theirs, and what moved for them stays moved.
  frame :
      (facts : Facts) (q q' : Queue) (lock lock' : Locks) (i : ℕ) (k : Work Fact Past Stat)
      → q.seq ≤ q'.seq
      → ((r : RecalcRequest)
          → lock r.subject ≡ some i
          → (lock' r.subject ≡ some i)
            × (Moved Fact Past Stat calculate q r → Moved Fact Past Stat calculate q' r))
      → IsWorking Fact Past Stat calculate facts q lock i k
      → IsWorking Fact Past Stat calculate facts q' lock' i k
  frame facts q q' lock lock' i idle le keeps h = tt
  frame facts q q' lock lock' i (locked r) le keeps h = (omega arith, (keeps r h.1).0)
  frame facts q q' lock lock' i (failing r) le keeps h = omega arith
  frame facts q q' lock lock' i (loaded r fs) le keeps h =
      (omega arith, (keeps r h.1).0, elim h.2 [ inl e ↦ inl e | inr m ↦ inr ((keeps r h.1).1 m) ])

  set_worker-IsWorker :
      (facts : Facts) (q : Queue) (lock : Locks) (w : ℕ) (x : Worker Fact Past Stat)
      (f : ℕ → Worker Fact Past Stat)
      → IsWorker Fact Past Stat calculate facts q lock w x
      → ((i : ℕ) → w ≢ i → IsWorker Fact Past Stat calculate facts q lock i (f i))
      → (i : ℕ) → IsWorker Fact Past Stat calculate facts q lock i (set_worker w x f i)
  set_worker-IsWorker facts q lock w x f mine others i = elim (Bool-cases (w == i)) [
    | inl e ↦
        rw e
          (subst (λ j. IsWorker Fact Past Stat calculate facts q lock j x) ((==_iff w i).0 e) mine)
    | inr e ↦ rw e (others i (λ p. ground arith))
  ]

  module _ (s : State Fact Past Stat) (inv : Inv Fact Past Stat calculate s) where
    -- A step of `w` that changes queue and locks, with its four obligations.
    pub step-Inv :
        (w : ℕ) (rs : List RecalcRequest) (k : Work Fact Past Stat) (q' : Queue) (lock' : Locks)
        (stats' : String → Option Stat)
        → IsQueue q'
        → s.queue.seq ≤ q'.seq
        → ((b : String)
            → IsWaiting Fact Past Stat calculate q' b
              ⊎ IsFresh Fact Past Stat calculate s.facts s.histories stats' b)
        → All (IsKnown Fact Past Stat calculate q') rs
        → IsWorking Fact Past Stat calculate s.facts q' lock' w k
        → ((i : ℕ) (r : RecalcRequest)
            → w ≢ i
            → s.lock r.subject ≡ some i
            → (lock' r.subject ≡ some i)
              × (Moved Fact Past Stat calculate s.queue r → Moved Fact Past Stat calculate q' r))
        → Inv Fact Past Stat calculate (record {
          facts = s.facts;
          histories = s.histories;
          stats = stats';
          queue = q';
          lock = lock';
          workers = set_worker w (record { batch = rs; work = k }) s.workers;
        })
    step-Inv w rs k q' lock' stats' queue le cover known mine keeps = record {
      is_queue = queue;
      covered = cover;
      worker =
          set_worker-IsWorker s.facts q' lock' w (record { batch = rs; work = k }) s.workers
            (known, mine)
            (λ i apart. (
              All-IsKnown Fact Past Stat calculate s.queue q' le (s.workers i).batch
                  (inv.worker i).0,
              frame s.facts s.queue q' s.lock lock' i (s.workers i).work le
                  (λ r h. keeps i r apart h) (inv.worker i).1,
            ));
    }

    -- What the invariant says of a worker whose state is known.
    pub known_worker :
        (w : ℕ) (k : Worker Fact Past Stat)
        → s.workers w ≡ k
        → IsWorker Fact Past Stat calculate s.facts s.queue s.lock w k
    known_worker w k e = rw e at (inv.worker w)

    pub list-Inv :
        (before : String → String → Bool) (w now max_attempts batch : ℕ)
        → Inv Fact Past Stat calculate (record s {
          workers =
              working Fact Past Stat calculate before w
                (list_due_recalc_requests before now max_attempts batch s.queue)
                idle
                s;
        })
    list-Inv before w now max_attempts batch =
        step-Inv w (list_due_recalc_requests before now max_attempts batch s.queue) idle s.queue
          s.lock s.stats inv.is_queue (omega arith) inv.covered
          (list_due-le before now max_attempts batch s.queue inv.is_queue) tt
          (λ i r apart h. (h, λ m. m))

    pub take_lock-Inv :
        (w : ℕ) (r : RecalcRequest) (rs : List RecalcRequest)
        → s.workers w ≡ record { batch = r ∷ rs; work = idle }
        → s.lock r.subject ≡ none
        → Inv Fact Past Stat calculate (record s {
          lock = put r.subject (some w) s.lock;
          workers = set_worker w (record { batch = rs; work = locked r }) s.workers;
        })
    take_lock-Inv w r rs e free =
        let (known, _) = known_worker w (record { batch = r ∷ rs; work = idle }) e in
        step-Inv w rs (locked r) s.queue (put r.subject (some w) s.lock) s.stats inv.is_queue
          (omega arith) inv.covered known.1 (known.0, ground (arith, eq_refl r.subject))
          (λ i r' apart h. (ground (arith, eq_iff r.subject r'.subject), λ m. m))

    pub load-Inv :
        (w : ℕ) (r : RecalcRequest) (rs : List RecalcRequest)
        → s.workers w ≡ record { batch = rs; work = locked r }
        → Inv Fact Past Stat calculate (record s {
          workers =
              set_worker w (record { batch = rs; work = loaded r (s.facts r.subject) }) s.workers;
        })
    load-Inv w r rs e =
        let (known, mine) = known_worker w (record { batch = rs; work = locked r }) e in
        step-Inv w rs (loaded r (s.facts r.subject)) s.queue s.lock s.stats inv.is_queue
          (omega arith) inv.covered known (mine.0, mine.1, inl refl) (λ i r' apart h. (h, λ m. m))

    -- Only the worker that holds a lock releases it.
    pub released :
        (w i : ℕ) (b c : String)
        → s.lock b ≡ some w
        → w ≢ i
        → s.lock c ≡ some i
        → (str_eq b c ≡ false) × (put b none s.lock c ≡ some i)
    released w i b c mine apart h = elim (Bool-cases (str_eq b c)) [
      | inl same ↦ absurd (ground (arith, eq_iff b c))
      | inr other ↦ (other, rw other h)
    ]

    pub roll_back-Inv :
        (w : ℕ) (r : RecalcRequest) (rs : List RecalcRequest)
        → All (IsKnown Fact Past Stat calculate s.queue) rs
        → IsKnown Fact Past Stat calculate s.queue r
        → s.lock r.subject ≡ some w
        → Inv Fact Past Stat calculate (record s {
          lock = put r.subject none s.lock;
          workers = set_worker w (record { batch = rs; work = failing r }) s.workers;
        })
    roll_back-Inv w r rs known here mine =
        step-Inv w rs (failing r) s.queue (put r.subject none s.lock) s.stats inv.is_queue
          (omega arith) inv.covered known here
          (λ i r' apart h. ((released w i r.subject r'.subject mine apart h).1, λ m. m))
