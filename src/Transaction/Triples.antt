-- ===== src/Transaction/Triples.antt =====
-- What an action keeps, whatever it returns and whatever is refused: a precondition that an error
-- leaves true, and a condition on a value and the state that it comes with.
use hamburger_evaluation.Base.{sym, Bool, true, false, List, [], ◌∷◌}
use mathlib.Core.Path.{subst}
use hamburger_evaluation.Domain.Errors.{Result, ok, err}
use hamburger_evaluation.Transaction.{
  Session, Action, caught, attempt, call_at, call, put_tables, statement, continue,
}
use hamburger_evaluation.Transaction.Runs.{Reads}

module _ {T W : Type 0} (P : T → W → Type 0) where
  abbrev pub Holds : {A : Type 0} → (A → T → W → Type 0) → Result A × Session T W → Type 0
  Holds Q (ok a, s) = Q a s.tables s.outside
  Holds Q (err e, s) = P s.tables s.outside

  abbrev pub Ensures : {A : Type 0} → Action T W A → (A → T → W → Type 0) → Type 0
  Ensures m Q = (s : Session T W) → P s.tables s.outside → Holds Q (m s)

  -- The precondition itself, on a value and on an error.
  abbrev pub Keeps : {A : Type 0} → Action T W A → Type 0
  Keeps m = Ensures m (λ _. P)

  pub Holds-state :
      {A : Type 0} (r : Result A × Session T W) → Holds (λ _. P) r → P r.1.tables r.1.outside
  Holds-state (ok a, s) h = h
  Holds-state (err e, s) h = h

  call_at-Ensures :
      {A : Type 0} (fs : List Bool) (m : Action T W A) (Q : A → T → W → Type 0)
      → Ensures m Q
      → (s : Session T W) → P s.tables s.outside
      → Holds Q (call_at fs m s)
  call_at-Ensures [] m Q k s p = k s p
  call_at-Ensures (true ∷ fs) m Q k s p = p
  call_at-Ensures (false ∷ fs) m Q k s p = k (record s { faults = fs }) p

  pub call-Ensures :
      {A : Type 0} (m : Action T W A) (Q : A → T → W → Type 0) → Ensures m Q → Ensures (call m) Q
  call-Ensures m Q k s p = call_at-Ensures s.faults m Q k s p

  put_tables-Keeps :
      {A : Type 0} (s : Session T W) (r : Result A × T)
      → P r.1 s.outside
      → Holds (λ _. P) (put_tables s r)
  put_tables-Keeps s (ok a, t) p = p
  put_tables-Keeps s (err e, t) p = p

  call_at-Holds :
      {A : Type 0} (fs : List Bool) (m : Action T W A) (Q : A → T → W → Type 0) (s : Session T W)
      → P s.tables s.outside
      → ((fs' : List Bool) → Holds Q (m (record s { faults = fs' })))
      → Holds Q (call_at fs m s)
  call_at-Holds [] m Q s p k = k s.faults
  call_at-Holds (true ∷ fs) m Q s p k = p
  call_at-Holds (false ∷ fs) m Q s p k = k fs

  pub statement-Holds :
      {A : Type 0} (f : T → Result A × T) (s : Session T W)
      → P s.tables s.outside
      → P (f s.tables).1 s.outside
      → Holds (λ _. P) (statement f s)
  unfolding statement
  statement-Holds f s p k =
      call_at-Holds s.faults (λ s. put_tables s (f s.tables)) (λ _. P) s p
        (λ fs. put_tables-Keeps (record s { faults = fs }) (f s.tables) k)

  pub statement-Keeps :
      {A : Type 0} (f : T → Result A × T)
      → ((t : T) (w : W) → P t w → P (f t).1 w)
      → Keeps (statement f)
  statement-Keeps f k s p = statement-Holds f s p (k s.tables s.outside p)

  Reads-Holds :
      {A : Type 0} (r : Result A × Session T W) → P r.1.tables r.1.outside → Holds (λ _. P) r
  Reads-Holds (ok a, s) p = p
  Reads-Holds (err e, s) p = p

  pub Reads-Keeps : {A : Type 0} (m : Action T W A) → Reads m → Keeps m
  Reads-Keeps m k s p =
      Reads-Holds (m s)
        (subst (λ t. P t (m s).1.outside) (sym (k s).0) (subst (P s.tables) (sym (k s).1) p))

  pub continue-Holds :
      {A B : Type 0} (f : A → Action T W B) (Q : A → T → W → Type 0) (R : B → T → W → Type 0)
      (r : Result A × Session T W)
      → ((a : A) (s : Session T W) → Q a s.tables s.outside → Holds R (f a s))
      → Holds Q r
      → Holds R (continue f r)
  continue-Holds f Q R (ok a, s) k h = k a s h
  continue-Holds f Q R (err e, s) k h = h

  pub >>=-Ensures :
      {A B : Type 0} (m : Action T W A) (f : A → Action T W B) (Q : A → T → W → Type 0)
      (R : B → T → W → Type 0)
      → Ensures m Q
      → ((a : A) (s : Session T W) → Q a s.tables s.outside → Holds R (f a s))
      → Ensures (λ s. continue f (m s)) R
  >>=-Ensures m f Q R k l s p = continue-Holds f Q R (m s) l (k s p)

  caught-Keeps :
      {A : Type 0} (r : Result A × Session T W)
      → Holds (λ _. P) r
      → Holds {A = Result A} (λ _. P) (caught r)
  caught-Keeps (ok a, s) h = h
  caught-Keeps (err e, s) h = h

  pub attempt-Keeps : {A : Type 0} (m : Action T W A) → Keeps m → Keeps (attempt m)
  attempt-Keeps m k s p = caught-Keeps (m s) (k s p)
