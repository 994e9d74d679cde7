-- ===== src/Recalc/System/NoLostUpdate.antt =====
-- The commits of the workers keep the invariant, and with it no update is lost.
use hamburger_evaluation.Base.{
  ℕ, ◌≡◌, ◌≢◌, ◌∙◌, ◌⊎◌, inl, inr, Bool, false, none, some, String, List, [], ◌∷◌, arith, Any,
  str_eq, eq_iff, Bool-cases, Option-cases,
}
use hamburger_evaluation.Recalc.Backoff.{RecalcFailure}
use hamburger_evaluation.Recalc.Queue.{Queue, RecalcRequest, complete_recalc, record_recalc_failure}
use hamburger_evaluation.Recalc.Queue.Laws.{
  version_of, IsQueue, version_of-complete_recalc, complete_recalc-IsQueue, seq-complete_recalc,
  version_of-record_recalc_failure, record_recalc_failure-IsQueue, seq-record_recalc_failure,
}
use hamburger_evaluation.Recalc.System.{
  idle, locked, loaded, failing, State, put, set_worker, Step, write, list, take_lock, load, commit,
  skip, roll_back_locked, roll_back_loaded, record_failure, fail_early, give_up, here,
}
use hamburger_evaluation.Recalc.System.Invariant.{
  IsFresh, IsWaiting, Moved, IsWorker, Inv, write-Inv,
}
use hamburger_evaluation.Recalc.System.Workers.{
  step-Inv, known_worker, released, list-Inv, take_lock-Inv, load-Inv, roll_back-Inv,
}

version_of-other :
    (r : RecalcRequest) (c : String) (q : Queue)
    → IsQueue q
    → str_eq r.subject c ≡ false
    → version_of c (complete_recalc r.subject r.version q).0 ≡ version_of c q
version_of-other r c q is_queue other =
    version_of-complete_recalc r.subject r.version c q is_queue
    ∙ elim (Option-cases (version_of c q)) [
      | inl absent ↦ rw absent
      | inr (v, there) ↦ rw (there, other)
    ]

module _ (Fact Past Stat : Type 0) (calculate : String → List Fact → Past → ℕ → Stat) where
  module _ (s : State Fact Past Stat) (inv : Inv Fact Past Stat calculate s) where
    module _ (w now : ℕ) (past : Past) (r : RecalcRequest) (fs : List Fact)
        (rs : List RecalcRequest) (e : s.workers w ≡ record { batch = rs; work = loaded r fs })
        (seen : Any (λ h. h ≡ past) s.histories) where
      version_of-after :
          (c : String)
          → str_eq r.subject c ≡ false
          → version_of c (complete_recalc r.subject r.version s.queue).0 ≡ version_of c s.queue
      version_of-after c other = version_of-other r c s.queue inv.is_queue other

      Moved-after :
          (r' : RecalcRequest)
          → str_eq r.subject r'.subject ≡ false
          → Moved Fact Past Stat calculate s.queue r'
          → Moved Fact Past Stat calculate (complete_recalc r.subject r.version s.queue).0 r'
      Moved-after r' other (v, there, moved) = (v, version_of-after r'.subject other ∙ there, moved)

      version_of-moved :
          (b : String) (v : ℕ)
          → r.subject ≡ b
          → version_of r.subject s.queue ≡ some v
          → v ≢ r.version
          → version_of b (complete_recalc r.subject r.version s.queue).0 ≡ some v
      version_of-moved b v p there moved =
          let here : version_of b s.queue ≡ some v = rw (← p) there in
          version_of-complete_recalc r.subject r.version b s.queue inv.is_queue ∙ ground arith

      mine :
          IsWorker Fact Past Stat calculate s.facts s.queue s.lock w
            (record { batch = rs; work = loaded r fs })
      mine =
          known_worker Fact Past Stat calculate s inv w (record { batch = rs; work = loaded r fs })
            e

      commit-covered :
          (b : String)
          → IsWaiting Fact Past Stat calculate (complete_recalc r.subject r.version s.queue).0 b
            ⊎ IsFresh Fact Past Stat calculate s.facts s.histories
                (put r.subject (some (calculate r.subject fs past now)) s.stats)
                b
      commit-covered b = elim (Bool-cases (str_eq r.subject b)) [
        | inl same ↦
            let p : r.subject ≡ b = (eq_iff r.subject b).0 same in
            elim mine.1.2 [
              | inl current ↦ inr (inl (now, past, seen, rw same (rw (current, p))))
              | inr (v, there, moved) ↦ inl (v, version_of-moved b v p there moved)
            ]
        | inr other ↦ rw (version_of-after b other, other) (inv.covered b)
      ]

      commit-Inv : Inv Fact Past Stat calculate (record s {
        stats = put r.subject (some (calculate r.subject fs past now)) s.stats;
        queue = (complete_recalc r.subject r.version s.queue).0;
        lock = put r.subject none s.lock;
        workers = set_worker w (record { batch = rs; work = idle }) s.workers;
      })
      commit-Inv =
          step-Inv Fact Past Stat calculate s inv w rs idle
            (complete_recalc r.subject r.version s.queue).0 (put r.subject none s.lock)
            (put r.subject (some (calculate r.subject fs past now)) s.stats)
            (complete_recalc-IsQueue r.subject r.version s.queue inv.is_queue)
            (omega (arith, seq-complete_recalc r.subject r.version s.queue)) commit-covered
            (unfold complete_recalc in mine.0) tt
            (λ i r' apart h.
              let (other, kept) =
                released Fact Past Stat calculate s inv w i r.subject r'.subject mine.1.1 apart h in
              (kept, Moved-after r' other))

    -- A subject that is gone loses its request, and nothing else changes.
    module _ (w : ℕ) (r : RecalcRequest) (rs : List RecalcRequest)
        (e : s.workers w ≡ record { batch = r ∷ rs; work = idle })
        (no_facts : s.facts r.subject ≡ []) (no_stats : s.stats r.subject ≡ none)
        (free : s.lock r.subject ≡ none) where
      abbrev after_skip : Queue
      after_skip = (complete_recalc r.subject r.version s.queue).0

      version_of-skip :
          (c : String) → str_eq r.subject c ≡ false → version_of c after_skip ≡ version_of c s.queue
      version_of-skip c other = version_of-other r c s.queue inv.is_queue other

      skip-covered :
          (b : String)
          → IsWaiting Fact Past Stat calculate after_skip b
            ⊎ IsFresh Fact Past Stat calculate s.facts s.histories s.stats b
      skip-covered b = elim (Bool-cases (str_eq r.subject b)) [
        | inl same ↦
            let p : r.subject ≡ b = (eq_iff r.subject b).0 same in
            inr (inr (rw (← p) no_facts, rw (← p) no_stats))
        | inr other ↦ rw (version_of-skip b other) (inv.covered b)
      ]

      unlocked : (i : ℕ) (c : String) → s.lock c ≡ some i → str_eq r.subject c ≡ false
      unlocked i c h = elim (Bool-cases (str_eq r.subject c)) [
        | inl same ↦ absurd (ground (arith, eq_iff r.subject c))
        | inr other ↦ other
      ]

      Moved-skip :
          (i : ℕ) (r' : RecalcRequest)
          → s.lock r'.subject ≡ some i
          → Moved Fact Past Stat calculate s.queue r'
          → Moved Fact Past Stat calculate after_skip r'
      Moved-skip i r' h (v, there, moved) =
          (v, version_of-skip r'.subject (unlocked i r'.subject h) ∙ there, moved)

      skip-Inv : Inv Fact Past Stat calculate (record s {
        queue = after_skip;
        workers = set_worker w (record { batch = rs; work = idle }) s.workers;
      })
      skip-Inv =
          let (known, _) =
            known_worker Fact Past Stat calculate s inv w (record { batch = r ∷ rs; work = idle })
              e in
          step-Inv Fact Past Stat calculate s inv w rs idle after_skip s.lock s.stats
            (complete_recalc-IsQueue r.subject r.version s.queue inv.is_queue)
            (omega (arith, seq-complete_recalc r.subject r.version s.queue)) skip-covered
            (unfold complete_recalc in known.1) tt (λ i r' apart h. (h, Moved-skip i r' h))

    -- A failure is recorded, and nothing else changes.
    module _ (w : ℕ) (f : RecalcFailure) (r : RecalcRequest) (rs : List RecalcRequest)
        (e : s.workers w ≡ record { batch = rs; work = failing r }) where
      record_failure-Inv : Inv Fact Past Stat calculate (record s {
        queue = (record_recalc_failure r.subject r.version f s.queue).0;
        workers = set_worker w (record { batch = rs; work = idle }) s.workers;
      })
      record_failure-Inv =
          let same = version_of-record_recalc_failure r.subject r.version f in
          step-Inv Fact Past Stat calculate s inv w rs idle
            (record_recalc_failure r.subject r.version f s.queue).0 s.lock s.stats
            (record_recalc_failure-IsQueue r.subject r.version f s.queue inv.is_queue)
            (omega (arith, seq-record_recalc_failure r.subject r.version f s.queue))
            (λ b. rw (same b s.queue) (inv.covered b))
            (unfold record_recalc_failure in
              (known_worker Fact Past Stat calculate s inv w
                (record { batch = rs; work = failing r }) e).0)
            tt (λ i r' apart h. (h, λ m. rw (same r'.subject s.queue) m))

    module _ (before : String → String → Bool) where
      -- Every step of a writer or a worker keeps the invariant.
      pub Step-Inv :
          {t : State Fact Past Stat}
          → Step Fact Past Stat calculate before s t
          → Inv Fact Past Stat calculate t
      Step-Inv (write bs facts' same history) =
          write-Inv Fact Past Stat calculate s inv bs facts' same history
      Step-Inv (list w now max_attempts batch e) =
          list-Inv Fact Past Stat calculate s inv before w now max_attempts batch
      Step-Inv (take_lock w r rs e free) =
          take_lock-Inv Fact Past Stat calculate s inv w r rs e free
      Step-Inv (load w r rs e) = load-Inv Fact Past Stat calculate s inv w r rs e
      Step-Inv (commit w now past r fs rs e seen) = commit-Inv w now past r fs rs e seen
      Step-Inv (skip w r rs e no_facts no_stats free) = skip-Inv w r rs e no_facts no_stats free
      Step-Inv (roll_back_locked w r rs e) =
          let (known, mine) =
            known_worker Fact Past Stat calculate s inv w (record { batch = rs; work = locked r })
              e in
          roll_back-Inv Fact Past Stat calculate s inv w r rs known mine.0 mine.1
      Step-Inv (roll_back_loaded w r fs rs e) =
          let (known, mine) =
            known_worker Fact Past Stat calculate s inv w
              (record { batch = rs; work = loaded r fs }) e in
          roll_back-Inv Fact Past Stat calculate s inv w r rs known mine.0 mine.1
      Step-Inv (record_failure w f r rs e) = record_failure-Inv w f r rs e
      Step-Inv (fail_early w r rs e) =
          let (known, _) =
            known_worker Fact Past Stat calculate s inv w (record { batch = r ∷ rs; work = idle })
              e in
          step-Inv Fact Past Stat calculate s inv w rs (failing r) s.queue s.lock s.stats
            inv.is_queue (omega arith) inv.covered known.1 known.0 (λ i r' apart h. (h, λ m. m))
      Step-Inv (give_up w r rs e) =
          let (known, _) =
            known_worker Fact Past Stat calculate s inv w (record { batch = rs; work = failing r })
              e in
          step-Inv Fact Past Stat calculate s inv w rs idle s.queue s.lock s.stats inv.is_queue
            (omega arith) inv.covered known tt (λ i r' apart h. (h, λ m. m))

-- No review yet, no statistics, no request, no lock, and workers at rest.
abbrev pub start : (Fact Past Stat : Type 0) → Past → State Fact Past Stat
start Fact Past Stat history = record {
  facts = λ b. [];
  histories = history ∷ [];
  stats = λ b. none;
  queue = record { rows = []; seq = 0 };
  lock = λ b. none;
  workers = λ w. record { batch = []; work = idle };
}
