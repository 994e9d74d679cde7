-- ===== src/Recalc/System/Invariant.antt =====
-- No update is lost: whatever the writers and workers do, and in whatever order, a subject whose
-- statistics are not those of its present facts has a request that waits.
use hamburger_evaluation.Base.{
  ℕ, ◌≤◌, ◌<◌, ◌≡◌, ◌≢◌, refl, ◌∙◌, ◌⊎◌, inl, inr, true, false, Option, none, some, String, List,
  [], ◌∷◌, arith, All, Any, Bool-cases,
}
use hamburger_evaluation.Recalc.Queue.{Queue, RecalcRequest, request_recalc}
use hamburger_evaluation.Recalc.Queue.Laws.{
  version_of, IsQueue, version_of-request_recalc, seq-request_recalc, request_recalc-IsQueue,
}
use hamburger_evaluation.Recalc.System.{
  request_all, Work, idle, locked, loaded, failing, Worker, State, is_in,
}

request_all-IsQueue : (bs : List String) (q : Queue) → IsQueue q → IsQueue (request_all bs q)
unfolding request_all
request_all-IsQueue [] q h = h
request_all-IsQueue (b ∷ bs) q h =
    request_all-IsQueue bs (request_recalc b q) (request_recalc-IsQueue b q h)

seq-request_all : (bs : List String) (q : Queue) → q.seq ≤ (request_all bs q).seq
unfolding request_all
seq-request_all [] q = omega arith
seq-request_all (b ∷ bs) q =
    omega (arith, seq-request_recalc b q, seq-request_all bs (request_recalc b q))

-- A subject that is not asked for keeps its version.
pub version_of-request_all_out :
    (c : String) (bs : List String) (q : Queue)
    → is_in c bs ≡ false
    → version_of c (request_all bs q) ≡ version_of c q
unfolding request_all
version_of-request_all_out c [] q h = refl
version_of-request_all_out c (b ∷ bs) q h =
    ground
      (arith, version_of-request_all_out c bs (request_recalc b q), version_of-request_recalc b c q)

-- A subject that is asked for gets a version above all that the sequence gave out.
pub version_of-request_all_in :
    (c : String) (bs : List String) (q : Queue)
    → is_in c bs ≡ true
    → (v : ℕ) × (version_of c (request_all bs q) ≡ some v) × (q.seq < v)
unfolding request_all
version_of-request_all_in c [] q h = cc
version_of-request_all_in c (b ∷ bs) q h = elim (Bool-cases (is_in c bs)) [
  | inl later ↦
      let (v, e, above) = version_of-request_all_in c bs (request_recalc b q) later in
      (v, e, omega (arith, seq-request_recalc b q))
  | inr not_later ↦ (
    (request_recalc b q).seq,
    version_of-request_all_out c bs (request_recalc b q) not_later
        ∙ version_of-request_recalc b c q
        ∙ ground arith,
    seq-request_recalc b q,
  )
]

module _ (Fact Past Stat : Type 0) (calculate : String → List Fact → Past → ℕ → Stat) where
  -- The stored statistics are those of the present facts, as of some time and with histories that
  -- the database had; a subject without facts may have none.
  abbrev pub IsFresh : (String → List Fact) → List Past → (String → Option Stat) → String → Type 0
  IsFresh facts histories stats b =
      ((now : ℕ) × (past : Past) × Any (λ h. h ≡ past) histories
        × (stats b ≡ some (calculate b (facts b) past now)))
      ⊎ ((facts b ≡ []) × (stats b ≡ none))

  abbrev pub IsWaiting : Queue → String → Type 0
  IsWaiting q b = (v : ℕ) × (version_of b q ≡ some v)

  -- Since a worker took the request out, the subject was asked for again.
  abbrev pub Moved : Queue → RecalcRequest → Type 0
  Moved q r = (v : ℕ) × (version_of r.subject q ≡ some v) × (v ≢ r.version)

  abbrev pub IsKnown : Queue → RecalcRequest → Type 0
  IsKnown q r = r.version ≤ q.seq

  abbrev pub IsWorking :
      (String → List Fact) → Queue → (String → Option ℕ) → ℕ → Work Fact Past Stat → Type 0
  IsWorking facts q lock w idle = Unit
  IsWorking facts q lock w (locked r) = IsKnown q r × (lock r.subject ≡ some w)
  IsWorking facts q lock w (loaded r fs) =
      IsKnown q r × (lock r.subject ≡ some w) × ((fs ≡ facts r.subject) ⊎ Moved q r)
  IsWorking facts q lock w (failing r) = IsKnown q r

  abbrev pub IsWorker :
      (String → List Fact) → Queue → (String → Option ℕ) → ℕ → Worker Fact Past Stat → Type 0
  IsWorker facts q lock w k = All (IsKnown q) k.batch × IsWorking facts q lock w k.work

  pub record Inv (s : State Fact Past Stat) : Type 0 where
    pub is_queue : IsQueue s.queue
    pub covered : (b : String) → IsWaiting s.queue b ⊎ IsFresh s.facts s.histories s.stats b
    pub worker : (w : ℕ) → IsWorker s.facts s.queue s.lock w (s.workers w)

  pub All-IsKnown :
      (q q' : Queue)
      → q.seq ≤ q'.seq
      → (rs : List RecalcRequest) → All (IsKnown q) rs
      → All (IsKnown q') rs
  All-IsKnown q q' le [] h = tt
  All-IsKnown q q' le (r ∷ rs) h = (omega arith, All-IsKnown q q' le rs h.1)

  module _ (s : State Fact Past Stat) (inv : Inv s) where
    -- A write.
    module _ (bs : List String) (facts' : String → List Fact)
        (same : (c : String) → is_in c bs ≡ false → facts' c ≡ s.facts c) (history : Past) where
      write-covered :
          (b : String)
          → IsWaiting (request_all bs s.queue) b ⊎ IsFresh facts' (history ∷ s.histories) s.stats b
      write-covered b = elim (Bool-cases (is_in b bs)) [
        | inl asked ↦ let (v, e, above) = version_of-request_all_in b bs s.queue asked in inl (v, e)
        | inr not_asked ↦
            rw (version_of-request_all_out b bs s.queue not_asked, same b not_asked)
              (elim (inv.covered b) [
                | inl waiting ↦ inl waiting
                | inr (inl (now, past, seen, e)) ↦ inr (inl (now, past, inr seen, e))
                | inr (inr nothing) ↦ inr (inr nothing)
              ])
      ]

      write-IsWorking :
          (w : ℕ) (k : Work Fact Past Stat)
          → IsWorking s.facts s.queue s.lock w k
          → IsWorking facts' (request_all bs s.queue) s.lock w k
      write-IsWorking w idle h = tt
      write-IsWorking w (locked r) h = (omega (arith, seq-request_all bs s.queue), h.1)
      write-IsWorking w (failing r) h = omega (arith, seq-request_all bs s.queue)
      write-IsWorking w (loaded r fs) h = (
        omega (arith, seq-request_all bs s.queue),
        h.1,
        elim (Bool-cases (is_in r.subject bs)) [
          | inl asked ↦
              let (v, e, above) = version_of-request_all_in r.subject bs s.queue asked in
              inr (v, e, omega arith)
          | inr not_asked ↦
              rw
                (
                  version_of-request_all_out r.subject bs s.queue not_asked,
                  same r.subject not_asked,
                )
                (h.2)
        ],
      )

      -- A write keeps the invariant.
      pub write-Inv : Inv (record s {
        facts = facts';
        histories = history ∷ s.histories;
        queue = request_all bs s.queue;
      })
      write-Inv = record {
        is_queue = request_all-IsQueue bs s.queue inv.is_queue;
        covered = write-covered;
        worker = λ w. (
          All-IsKnown s.queue (request_all bs s.queue) (seq-request_all bs s.queue)
              (s.workers w).batch (inv.worker w).0,
          write-IsWorking w (s.workers w).work (inv.worker w).1,
        );
      }
