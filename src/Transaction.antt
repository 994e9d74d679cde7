-- ===== src/Transaction.antt =====
-- Code on the database, for the use cases that keep something outside of it too: one statement,
-- the sequence of two, and UnitOfWork.Do of adapter/uow/uow.go, which is also withTx of
-- adapter/repository/tx.go (there the transaction within a transaction is a savepoint).
pub mod Runs
pub mod Triples
use hamburger_evaluation.Base.{◌≡◌, refl, Bool, true, false, String, List, [], ◌∷◌, if◌then◌else◌}
use hamburger_evaluation.Domain.Errors.{Error, Result, ok, err, failure}

-- A rollback restores the tables, and not what is `outside`. `faults` says, call by call, whether
-- the database or the storage refuses it; after the list's end none is refused. A commit that is
-- refused has not taken place: one that takes place and whose answer is lost is not modelled.
pub record Session (T W : Type 0) : Type 0 where
  pub tables : T
  pub outside : W
  pub faults : List Bool

abbrev pub Action : Type 0 → Type 0 → Type 0 → Type 0
Action T W A = Session T W → Result A × Session T W

module _ {T W A : Type 0} where
  abbrev pub succeed : A → Action T W A
  succeed a s = (ok a, s)

  abbrev pub fail : Error → Action T W A
  fail e s = (err e, s)

  abbrev pub lift : Result A → Action T W A
  lift r s = (r, s)

  abbrev pub caught : Result A × Session T W → Result (Result A) × Session T W
  caught (r, s) = (ok r, s)

  -- The error as a value, for code that goes on after it.
  abbrev pub attempt : Action T W A → Action T W (Result A)
  attempt m s = caught (m s)

  abbrev pub call_at : List Bool → Action T W A → Action T W A
  call_at [] m s = m s
  call_at (true ∷ fs) m s = (err (failure "refused"), record s { faults = fs })
  call_at (false ∷ fs) m s = m (record s { faults = fs })

  -- A call that may be refused, and then does nothing.
  abbrev pub call : Action T W A → Action T W A
  call m s = call_at s.faults m s

  abbrev pub put_tables : Session T W → Result A × T → Result A × Session T W
  put_tables s (r, t) = (r, record s { tables = t })

  -- One statement.
  unfoldable pub statement : (T → Result A × T) → Action T W A
  statement f = call (λ s. put_tables s (f s.tables))

  -- A statement that only reads.
  abbrev pub query : (T → Result A) → Action T W A
  query f = statement (λ t. (f t, t))

module _ {T W A B : Type 0} where
  abbrev pub continue : (A → Action T W B) → Result A × Session T W → Result B × Session T W
  continue f (ok a, s) = f a s
  continue f (err e, s) = (err e, s)

infixl 5 ◌>>=◌ ◌>>◌
abbrev pub ◌>>=◌ : {T W A B : Type 0} → Action T W A → (A → Action T W B) → Action T W B
(m >>= f) s = continue f (m s)

abbrev pub ◌>>◌ : {T W B : Type 0} → Action T W (Unit {0}) → Action T W B → Action T W B
m >> k = m >>= λ _. k

module _ {T W A : Type 0} where
  abbrev pub committed : T → A → Result (Unit {0}) × Session T W → Result A × Session T W
  committed start a (ok _, s) = (ok a, s)
  committed start a (err e, s) = (err e, record s { tables = start })

  abbrev pub finished : T → Result A × Session T W → Result A × Session T W
  finished start (err e, s) = (err e, record s { tables = start })
  finished start (ok a, s) = committed start a (call (succeed tt) s)

  abbrev pub begun : Action T W A → Result (Unit {0}) × Session T W → Result A × Session T W
  begun body (err e, s) = (err e, s)
  begun body (ok _, s) = finished s.tables (body s)

  -- UnitOfWork.Do, withTx
  unfoldable pub transaction : Action T W A → Action T W A
  transaction body s = begun body (call (succeed tt) s)
