-- ===== src/Login/Runs.antt =====
-- What is known of a run of an action from what it returned: the statements, the sequence of two
-- actions and UnitOfWork.Do of adapter/uow/uow.go.
use hamburger_evaluation.Base.{
  ◌≡◌, refl, sym, ap, ◌∙◌, Bool, true, false, Option, none, some, List, [], ◌∷◌, arith,
  if◌then◌else◌, ◌⊎◌, inl, inr,
}
use hamburger_evaluation.Domain.Errors.{Error, Result, ok, err, failure}
use hamburger_evaluation.Login.{
  Db, Action, succeed, fail, attempt, caught, statement_at, statement, continue, committed,
  finished, begun, unit_of_work, found_or,
}

-- The tables, and the time of the transaction, are the same.
abbrev pub Keeps : Db → Db → Type 0
Keeps a b =
    (b.users ≡ a.users)
    × (b.identities ≡ a.identities)
    × (b.handoffs ≡ a.handoffs)
    × (b.now ≡ a.now)

pub Keeps-trans : (a b c : Db) → Keeps a b → Keeps b c → Keeps a c
Keeps-trans a b c h k = (k.0 ∙ h.0, k.1 ∙ h.1, k.2 ∙ h.2, k.3 ∙ h.3)

pub continue-ok {ℓ κ} :
    {A : Type ℓ} {B : Type κ} (f : A → Action B) (r : Result A × Db) {b : B} {db : Db}
    → continue f r ≡ (ok b, db)
    → (a : A) × (d : Db) × (r ≡ (ok a, d)) × (f a d ≡ (ok b, db))
continue-ok f (ok a, d) h = (a, d, refl, h)
continue-ok f (err e, d) h = absurd (ground arith)

statement_at-tt : (fs : List Bool) (db : Db) → Keeps db (statement_at {0} fs (succeed tt) db).1
statement_at-tt [] db = (refl, refl, refl, refl)
statement_at-tt (true ∷ fs) db = (refl, refl, refl, refl)
statement_at-tt (false ∷ fs) db = (refl, refl, refl, refl)

pub guard-ok :
    (b : Bool) (e : Error) (db : Db) {u : Unit {0}} {db' : Db}
    → (if b then succeed tt else fail e) db ≡ (ok u, db')
    → (b ≡ true) × (db ≡ db')
guard-ok true e db h = (refl, ap (λ p. p.1) h)
guard-ok false e db h = absurd (ground arith)

pub result-eq {ℓ} : {A : Type ℓ} {a b : A} → ok a ≡ ok b → a ≡ b
result-eq h = cc

module _ {ℓ} {A : Type ℓ} where
  statement_at-ok :
      (fs : List Bool) (m : Action A) (db : Db) {a : A} {db' : Db}
      → statement_at fs m db ≡ (ok a, db')
      → (d : Db) × Keeps db d × (m d ≡ (ok a, db'))
  statement_at-ok [] m db h = (db, (refl, refl, refl, refl), h)
  statement_at-ok (true ∷ fs) m db h = absurd (ground arith)
  statement_at-ok (false ∷ fs) m db h = (record db { faults = fs }, (refl, refl, refl, refl), h)

  pub statement-ok :
      (m : Action A) (db : Db) {a : A} {db' : Db}
      → statement m db ≡ (ok a, db')
      → (d : Db) × Keeps db d × (m d ≡ (ok a, db'))
  statement-ok m db h = statement_at-ok db.faults m db h

  -- A statement that only reads.
  pub read-ok :
      (f : Db → Result A) (db : Db) {a : A} {db' : Db}
      → statement (λ d. (f d, d)) db ≡ (ok a, db')
      → Keeps db db' × (f db' ≡ ok a)
  read-ok f db h =
      let s = statement-ok (λ d. (f d, d)) db h in
      rw (← ap (λ p. p.1) s.2) ((s.1, ap (λ p. p.0) s.2))

  attempt_at-read :
      (fs : List Bool) (f : Db → Result A) (db : Db) {r : Result A} {db' : Db}
      → caught (statement_at fs (λ d. (f d, d)) db) ≡ (ok r, db')
      → Keeps db db' × ((f db' ≡ r) ⊎ (r ≡ err (failure "database")))
  attempt_at-read [] f db h =
      rw (← ap (λ p. p.1) h) (((refl, refl, refl, refl), inl (result-eq (ap (λ p. p.0) h))))
  attempt_at-read (true ∷ fs) f db h =
      rw (← ap (λ p. p.1) h) (((refl, refl, refl, refl), inr (sym (result-eq (ap (λ p. p.0) h)))))
  attempt_at-read (false ∷ fs) f db h =
      rw (← ap (λ p. p.1) h) (((refl, refl, refl, refl), inl (result-eq (ap (λ p. p.0) h))))

  -- A read whose error is looked at: its answer, or that the database refused it.
  pub attempt-read :
      (f : Db → Result A) (db : Db) {r : Result A} {db' : Db}
      → attempt (statement (λ d. (f d, d))) db ≡ (ok r, db')
      → Keeps db db' × ((f db' ≡ r) ⊎ (r ≡ err (failure "database")))
  attempt-read f db h = attempt_at-read db.faults f db h

  pub found_or-ok : (e : Error) (o : Option A) {a : A} → found_or e o ≡ ok a → o ≡ some a
  found_or-ok e none h = cc
  found_or-ok e (some x) h = cc

  committed-err :
      (start : Db) (a : A) (r : Result (Unit {0}) × Db) {e : Error}
      → (committed start a r).0 ≡ err e
      → Keeps start (committed start a r).1
  committed-err start a (ok x, db) h = cc
  committed-err start a (err f, db) h = (refl, refl, refl, refl)

  finished-err :
      (start : Db) (r : Result A × Db) {e : Error}
      → (finished start r).0 ≡ err e
      → Keeps start (finished start r).1
  finished-err start (ok a, db) h = committed-err start a (statement (succeed tt) db) h
  finished-err start (err f, db) h = (refl, refl, refl, refl)

  begun-err :
      (body : Action A) (start : Db) (r : Result (Unit {0}) × Db) {e : Error}
      → Keeps start r.1
      → (begun body r).0 ≡ err e
      → Keeps start (begun body r).1
  begun-err body start (err f, db) k h = k
  begun-err body start (ok x, db) k h =
      Keeps-trans start db (begun body (ok x, db)).1 k (finished-err db (body db) h)

  -- A unit of work that returns an error leaves every table as it was, whatever its body did and
  -- wherever the database refused a statement, the commit included.
  pub unit_of_work-err :
      (body : Action A) (db : Db) (e : Error)
      → (unit_of_work body db).0 ≡ err e
      → Keeps db (unit_of_work body db).1
  unfolding unit_of_work
  unit_of_work-err body db e h =
      begun-err body db (statement (succeed tt) db) (statement_at-tt db.faults db) h

  committed-ok :
      (start : Db) (x : A) (r : Result (Unit {0}) × Db) {a : A} {db' : Db}
      → committed start x r ≡ (ok a, db')
      → (x ≡ a) × (r.1 ≡ db')
  committed-ok start x (ok y, db) h = (cc, ap (λ p. p.1) h)
  committed-ok start x (err f, db) h = absurd (ground arith)

  finished-ok :
      (start : Db) (r : Result A × Db) {a : A} {db' : Db}
      → finished start r ≡ (ok a, db')
      → (d : Db) × (r ≡ (ok a, d)) × Keeps d db'
  finished-ok start (ok x, db) h =
      let k = committed-ok start x (statement (succeed tt) db) h in
      (db, ap (λ y. (ok y, db)) k.0, rw (← k.1) (statement_at-tt db.faults db))
  finished-ok start (err f, db) h = absurd (ground arith)

  begun-ok :
      (body : Action A) (start : Db) (r : Result (Unit {0}) × Db) {a : A} {db' : Db}
      → Keeps start r.1
      → begun body r ≡ (ok a, db')
      → (d d' : Db) × Keeps start d × (body d ≡ (ok a, d')) × Keeps d' db'
  begun-ok body start (err f, db) k h = absurd (ground arith)
  begun-ok body start (ok x, db) k h = let f = finished-ok db (body db) h in (db, f.0, k, f.1, f.2)

  -- A unit of work that succeeds has run its body on the tables that it found.
  pub unit_of_work-ok :
      (body : Action A) (db : Db) {a : A} {db' : Db}
      → unit_of_work body db ≡ (ok a, db')
      → (d d' : Db) × Keeps db d × (body d ≡ (ok a, d')) × Keeps d' db'
  unfolding unit_of_work
  unit_of_work-ok body db h =
      begun-ok body db (statement (succeed tt) db) (statement_at-tt db.faults db) h
