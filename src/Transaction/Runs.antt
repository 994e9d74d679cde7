-- ===== src/Transaction/Runs.antt =====
-- What is known of the tables, and of what is outside, after a run.
use hamburger_evaluation.Base.{
  ◌≡◌, refl, sym, ap, ◌∙◌, ◌⊎◌, inl, inr, Bool, true, false, List, [], ◌∷◌, arith,
}
use hamburger_evaluation.Domain.Errors.{Error, Result, ok, err}
use hamburger_evaluation.Transaction.{
  Session, Action, succeed, call_at, call, put_tables, statement, continue, committed, finished,
  begun, transaction,
}

abbrev pub Same : {T W : Type 0} → Session T W → Session T W → Type 0
Same s s' = (s'.tables ≡ s.tables) × (s'.outside ≡ s.outside)

pub ok-injective : {A : Type 0} {a b : A} → ok a ≡ ok b → a ≡ b
ok-injective h = cc

module _ {T W A : Type 0} where
  call_at-ok :
      (fs : List Bool) (m : Action T W A) (s : Session T W) {a : A} {s' : Session T W}
      → call_at fs m s ≡ (ok a, s')
      → (d : Session T W) × Same s d × (m d ≡ (ok a, s'))
  call_at-ok [] m s h = (s, (refl, refl), h)
  call_at-ok (true ∷ fs) m s h = absurd (ground arith)
  call_at-ok (false ∷ fs) m s h = (record s { faults = fs }, (refl, refl), h)

  pub call-ok :
      (m : Action T W A) (s : Session T W) {a : A} {s' : Session T W}
      → call m s ≡ (ok a, s')
      → (d : Session T W) × Same s d × (m d ≡ (ok a, s'))
  call-ok m s h = call_at-ok s.faults m s h

  -- A statement that succeeded has done its work on the tables that it found.
  pub statement-ok :
      (f : T → Result A × T) (s : Session T W) {a : A} {s' : Session T W}
      → statement f s ≡ (ok a, s')
      → ((f s.tables).0 ≡ ok a) × (s'.tables ≡ (f s.tables).1) × (s'.outside ≡ s.outside)
  unfolding statement
  statement-ok f s h =
      let c = call-ok (λ s. put_tables s (f s.tables)) s h in
      rw (← ap (λ p. p.1) c.2)
        (ap (λ t. (f t).0) (sym c.1.0) ∙ ap (λ p. p.0) c.2, ap (λ t. (f t).1) c.1.0, c.1.1)

module _ {T W A B : Type 0} where
  pub continue-ok :
      (f : A → Action T W B) (r : Result A × Session T W) {b : B} {s' : Session T W}
      → continue f r ≡ (ok b, s')
      → (a : A) × (d : Session T W) × (r ≡ (ok a, d)) × (f a d ≡ (ok b, s'))
  continue-ok f (ok a, d) h = (a, d, refl, h)
  continue-ok f (err e, d) h = absurd (ground arith)

  -- An error is that of the first part, or that of the second.
  pub continue-err :
      (f : A → Action T W B) (r : Result A × Session T W) {e : Error}
      → (continue f r).0 ≡ err e
      → ((continue f r).1 ≡ r.1)
        ⊎ ((a : A) × (r.0 ≡ ok a) × ((f a r.1).0 ≡ err e) × ((continue f r).1 ≡ (f a r.1).1))
  continue-err f (ok a, d) h = inr (a, refl, h, refl)
  continue-err f (err e, d) h = inl refl

-- Code that leaves what is outside of the database alone, whatever it returns.
abbrev pub StaysInside : {T W A : Type 0} → Action T W A → Type 0
StaysInside {T} {W} m = (s : Session T W) → (m s).1.outside ≡ s.outside

module _ {T W : Type 0} where
  call_at-outside :
      {A : Type 0} (fs : List Bool) (m : Action T W A) (s : Session T W)
      → StaysInside m
      → (call_at fs m s).1.outside ≡ s.outside
  call_at-outside [] m s k = k s
  call_at-outside (true ∷ fs) m s k = refl
  call_at-outside (false ∷ fs) m s k = k (record s { faults = fs })

  pub call-StaysInside : {A : Type 0} (m : Action T W A) → StaysInside m → StaysInside (call m)
  call-StaysInside m k s = call_at-outside s.faults m s k

  pub statement-StaysInside :
      {A : Type 0} (f : T → Result A × T) → StaysInside {T = T} {W = W} (statement f)
  unfolding statement
  statement-StaysInside f = call-StaysInside (λ s. put_tables s (f s.tables)) (λ s. refl)

  commit_tables :
      (fs : List Bool) (s : Session T W)
      → (call_at {T = T} {W = W} fs (succeed tt) s).1.tables ≡ s.tables
  commit_tables [] s = refl
  commit_tables (true ∷ fs) s = refl
  commit_tables (false ∷ fs) s = refl

  continue-outside :
      {A B : Type 0} (f : A → Action T W B) (r : Result A × Session T W)
      → ((a : A) → StaysInside (f a))
      → (continue f r).1.outside ≡ r.1.outside
  continue-outside f (ok a, s) k = k a s
  continue-outside f (err e, s) k = refl

  pub >>=-StaysInside :
      {A B : Type 0} (m : Action T W A) (f : A → Action T W B)
      → StaysInside m
      → ((a : A) → StaysInside (f a))
      → StaysInside (λ s. continue f (m s))
  >>=-StaysInside m f k l s = continue-outside f (m s) l ∙ k s

-- Code that only reads, whatever it returns.
abbrev pub Reads : {T W A : Type 0} → Action T W A → Type 0
Reads {T} {W} m = (s : Session T W) → Same s (m s).1

module _ {T W : Type 0} where
  read_at-Same :
      {A : Type 0} (fs : List Bool) (f : T → Result A) (s : Session T W)
      → Same s (call_at fs (λ s. put_tables s (f s.tables, s.tables)) s).1
  read_at-Same [] f s = (refl, refl)
  read_at-Same (true ∷ fs) f s = (refl, refl)
  read_at-Same (false ∷ fs) f s = (refl, refl)

  pub query-Reads :
      {A : Type 0} (f : T → Result A) → Reads {T = T} {W = W} (statement (λ t. (f t, t)))
  unfolding statement
  query-Reads f s = read_at-Same s.faults f s

  continue-Same :
      {A B : Type 0} (f : A → Action T W B) (s : Session T W) (r : Result A × Session T W)
      → ((a : A) → Reads (f a))
      → Same s r.1
      → Same s (continue f r).1
  continue-Same f s (ok a, d) k h = let l = k a d in (l.0 ∙ h.0, l.1 ∙ h.1)
  continue-Same f s (err e, d) k h = h

  pub >>=-Reads :
      {A B : Type 0} (m : Action T W A) (f : A → Action T W B)
      → Reads m
      → ((a : A) → Reads (f a))
      → Reads (λ s. continue f (m s))
  >>=-Reads m f k l s = continue-Same f s (m s) l (k s)

module _ {T W A : Type 0} where
  committed-outside :
      (start : T) (a : A) (r : Result (Unit {0}) × Session T W)
      → (committed start a r).1.outside ≡ r.1.outside
  committed-outside start a (ok x, s) = refl
  committed-outside start a (err e, s) = refl

  finished-outside :
      (start : T) (r : Result A × Session T W) → (finished start r).1.outside ≡ r.1.outside
  finished-outside start (err e, s) = refl
  finished-outside start (ok a, s) =
      committed-outside start a (call (succeed tt) s) ∙ call-StaysInside (succeed tt) (λ d. refl) s

  begun-outside :
      (body : Action T W A) (r : Result (Unit {0}) × Session T W)
      → StaysInside body
      → (begun body r).1.outside ≡ r.1.outside
  begun-outside body (err e, s) k = refl
  begun-outside body (ok x, s) k = finished-outside s.tables (body s) ∙ k s

  pub transaction-StaysInside :
      (body : Action T W A) → StaysInside body → StaysInside (transaction body)
  unfolding transaction
  transaction-StaysInside body k s =
      begun-outside body (call (succeed tt) s) k ∙ call-StaysInside (succeed tt) (λ d. refl) s

  committed-err :
      (start : T) (a : A) (r : Result (Unit {0}) × Session T W) {e : Error}
      → (committed start a r).0 ≡ err e
      → (committed start a r).1.tables ≡ start
  committed-err start a (ok x, s) h = cc
  committed-err start a (err f, s) h = refl

  finished-err :
      (start : T) (r : Result A × Session T W) {e : Error}
      → (finished start r).0 ≡ err e
      → (finished start r).1.tables ≡ start
  finished-err start (err f, s) h = refl
  finished-err start (ok a, s) h = committed-err start a (call (succeed tt) s) h

  begun-err :
      (body : Action T W A) (t : T) (r : Result (Unit {0}) × Session T W) {e : Error}
      → r.1.tables ≡ t
      → (begun body r).0 ≡ err e
      → (begun body r).1.tables ≡ t
  begun-err body t (err f, s) k h = k
  begun-err body t (ok x, s) k h = finished-err s.tables (body s) h ∙ k

  -- A transaction that returns an error leaves the tables as they were, whatever its body did and
  -- wherever the database refused a statement, the commit included.
  pub transaction-err :
      (body : Action T W A) (s : Session T W) (e : Error)
      → (transaction body s).0 ≡ err e
      → (transaction body s).1.tables ≡ s.tables
  unfolding transaction
  transaction-err body s e h =
      begun-err body s.tables (call (succeed tt) s) (commit_tables s.faults s) h

  committed-ok :
      (start : T) (x : A) (r : Result (Unit {0}) × Session T W) {a : A} {s' : Session T W}
      → committed start x r ≡ (ok a, s')
      → (x ≡ a) × (r.1 ≡ s')
  committed-ok start x (ok y, s) h = (ok-injective (ap (λ p. p.0) h), ap (λ p. p.1) h)
  committed-ok start x (err f, s) h = absurd (ground arith)

  finished-ok :
      (start : T) (r : Result A × Session T W) {a : A} {s' : Session T W}
      → finished start r ≡ (ok a, s')
      → (d : Session T W) × (r ≡ (ok a, d)) × (s'.tables ≡ d.tables)
  finished-ok start (ok x, s) h =
      let k = committed-ok start x (call (succeed tt) s) h in
      (s, ap (λ y. (ok y, s)) k.0, rw (← k.1) (commit_tables s.faults s))
  finished-ok start (err f, s) h = absurd (ground arith)

  begun-ok :
      (body : Action T W A) (t : T) (r : Result (Unit {0}) × Session T W) {a : A} {s' : Session T W}
      → r.1.tables ≡ t
      → begun body r ≡ (ok a, s')
      → (d d' : Session T W) × (d.tables ≡ t) × (body d ≡ (ok a, d')) × (s'.tables ≡ d'.tables)
  begun-ok body t (err f, s) k h = absurd (ground arith)
  begun-ok body t (ok x, s) k h = let f = finished-ok s.tables (body s) h in (s, f.0, k, f.1, f.2)

  -- A transaction that succeeds has run its body on the tables that it found.
  pub transaction-ok :
      (body : Action T W A) (s : Session T W) {a : A} {s' : Session T W}
      → transaction body s ≡ (ok a, s')
      → (d d' : Session T W) × (d.tables ≡ s.tables)
        × (body d ≡ (ok a, d'))
        × (s'.tables ≡ d'.tables)
  unfolding transaction
  transaction-ok body s h =
      begun-ok body s.tables (call (succeed tt) s) (commit_tables s.faults s) h
