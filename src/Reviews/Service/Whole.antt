-- ===== src/Reviews/Service/Whole.antt =====
-- A request of usecase/reviews.go as a whole: its first part, what follows, and its answer.
use hamburger_evaluation.Base.{
  ℕ, ◌≡◌, refl, sym, ap, ◌∙◌, Option, none, some, String, inl, inr, arith,
}
use mathlib.Core.Path.{subst}
use hamburger_evaluation.Domain.Errors.{Error, Result, ok, err}
use hamburger_evaluation.Transaction.{Session, continue, lift, succeed}
use hamburger_evaluation.Transaction.Runs.{Reads, continue-ok, continue-err, ok-injective}
use hamburger_evaluation.Reviews.{Run, Tables, Storage, ReviewDetail}
use hamburger_evaluation.Reviews.Service.{
  Job, put_photo, save, leftover, delete_photo_best_effort, serve,
}
use hamburger_evaluation.Reviews.Service.Written.{IsKey}
use hamburger_evaluation.Reviews.Service.Effects.{Saves}
use hamburger_evaluation.Reviews.Service.Effects.Saved.{save-Saves, save-err}
use hamburger_evaluation.Reviews.Service.Effects.Outside.{
  PutResult, nothing, stored, failed, put_photo-PutResult, delete_photo-keeps,
}

PutResult-tables :
    (random : ℕ → String) (upload : Option String) (s : Session Tables Storage)
    (p : Result (Option String) × Session Tables Storage)
    → PutResult random upload s p
    → p.1.tables ≡ s.tables
PutResult-tables random upload s p (nothing e) = refl
PutResult-tables random upload s p (stored ext s' e t q) = t
PutResult-tables random upload s p (failed e s' t q) = t

-- The key that a storage returns is the one that was drawn.
PutResult-IsKey :
    (random : ℕ → String) (upload : Option String) (s : Session Tables Storage)
    (p : Result (Option String) × Session Tables Storage) (key : Option String)
    → PutResult random upload s p
    → p.0 ≡ ok key
    → IsKey upload (random s.outside.drawn) none key
PutResult-IsKey random upload s p key (nothing e) h =
    subst (λ u. IsKey u (random s.outside.drawn) none key) (sym e) (sym (ok-injective h))
PutResult-IsKey random upload s p key (stored ext s' e t q) h =
    subst (λ u. IsKey u (random s.outside.drawn) none key) (sym e) (sym (ok-injective h))
PutResult-IsKey random upload s p key (failed e s' t q) h = absurd (ground arith)

-- The deletion of a photo never fails the request.
lift-after_delete :
    (key : Option String) (r : Result ReviewDetail) (s : Session Tables Storage)
    → continue (λ _. lift r) (delete_photo_best_effort key s)
      ≡ (r, (delete_photo_best_effort key s).1)
unfolding delete_photo_best_effort
lift-after_delete none r s = refl
lift-after_delete (some key) r s = refl

module _ (random new_id : ℕ → String) (job : Job) (upload : Option String)
    (s : Session Tables Storage) where
  put_tables_same : (put_photo random upload s).1.tables ≡ s.tables
  put_tables_same =
      PutResult-tables random upload s (put_photo random upload s)
        (put_photo-PutResult random upload s)

  -- What follows the storage of the photo.
  abbrev answered :
      Option String → Session Tables Storage → Result ReviewDetail × Session Tables Storage
  answered key m =
      let p = save new_id job key m in
      (p.0, (delete_photo_best_effort (leftover job key p.0) p.1).1)

  answered-tables :
      (key : Option String) (m : Session Tables Storage)
      → (answered key m).1.tables ≡ (save new_id job key m).1.tables
  answered-tables key m =
      let p = save new_id job key m in (delete_photo-keeps (leftover job key p.0) p.1).0

  -- A request that succeeds has saved what its job says.
  pub serve-Saves :
      {d : ReviewDetail} {s' : Session Tables Storage}
      → serve random new_id job upload s ≡ (ok d, s')
      → (key : Option String) × Saves job key d s.tables s'.tables
        × IsKey upload (random s.outside.drawn) none key
  unfolding serve
  serve-Saves {d} {s'} h =
      let (key, m, put, rest) = continue-ok _ (put_photo random upload s) h in
      let p = save new_id job key m in
      let last : answered key m ≡ (ok d, s') =
        sym (lift-after_delete (leftover job key p.0) p.0 p.1) ∙ rest in
      let start : m.tables ≡ s.tables = sym (ap (λ q. q.1.tables) put) ∙ put_tables_same in
      let end : p.1.tables ≡ s'.tables = sym (answered-tables key m) ∙ ap (λ q. q.1.tables) last in
      let saved : save new_id job key m ≡ (ok d, p.1) = ap (λ x. (x, p.1)) (ap (λ q. q.0) last) in
      (
        key,
        subst (λ t. Saves job key d t s'.tables) start
            (subst (Saves job key d m.tables) end (save-Saves new_id job key m saved)),
        PutResult-IsKey random upload s (put_photo random upload s) key
            (put_photo-PutResult random upload s) (ap (λ q. q.0) put),
      )

  -- A request that fails leaves the tables as they were.
  pub serve-err :
      {e : Error}
      → (serve random new_id job upload s).0 ≡ err e
      → (serve random new_id job upload s).1.tables ≡ s.tables
  unfolding serve
  serve-err {e} h = elim (continue-err _ (put_photo random upload s) h) [
    | inl same ↦ ap (λ (d : Session Tables Storage). d.tables) same ∙ put_tables_same
    | inr (key, _, h', same) ↦
        let m = (put_photo random upload s).1 in
        let p = save new_id job key m in
        let last = lift-after_delete (leftover job key p.0) p.0 p.1 in
        ap (λ (d : Session Tables Storage). d.tables) same
        ∙ ap (λ q. q.1.tables) last
        ∙ answered-tables key m
        ∙ save-err new_id job key m e (sym (ap (λ q. q.0) last) ∙ h')
        ∙ put_tables_same
  ]

answered-err :
    {A : Type 0} (answer : ReviewDetail → A) (r : Result ReviewDetail × Session Tables Storage)
    {e : Error}
    → (continue (λ d. succeed (answer d)) r).0 ≡ err e
    → r.0 ≡ err e
answered-err answer (ok d, s) h = absurd (ground arith)
answered-err answer (err f, s) h = ground arith

-- The whole of a request: its first part, `serve`, and what the answer shows.
module _ (random new_id : ℕ → String) (upload : Option String) (s : Session Tables Storage)
    {A : Type 0} (answer : ReviewDetail → A) (first : Run Job) (only_reads : Reads first) where
  abbrev pub whole : Result A × Session Tables Storage
  whole =
      continue (λ job m. continue (λ d. succeed (answer d)) (serve random new_id job upload m))
        (first s)

  pub whole-ok :
      {a : A} {s' : Session Tables Storage}
      → whole ≡ (ok a, s')
      → (job : Job) × (m : Session Tables Storage) × (d : ReviewDetail) × (key : Option String)
        × (first s ≡ (ok job, m))
        × (answer d ≡ a)
        × Saves job key d s.tables s'.tables
        × IsKey upload (random s.outside.drawn) none key
  whole-ok {s' = s'} h =
      let (job, m, opened, rest) = continue-ok _ (first s) h in
      let (d, m', served, last) = continue-ok _ (serve random new_id job upload m) rest in
      let (key, saves, drawn) = serve-Saves random new_id job upload m served in
      let start : m.tables ≡ s.tables = sym (ap (λ p. p.1.tables) opened) ∙ (only_reads s).0 in
      (
        job,
        m,
        d,
        key,
        opened,
        ok-injective (ap (λ p. p.0) last),
        subst (λ t. Saves job key d t s'.tables) start
            (subst (Saves job key d m.tables) (ap (λ p. p.1.tables) last) saves),
        subst (λ (w : Storage). IsKey upload (random w.drawn) none key)
            (sym (ap (λ p. p.1.outside) opened) ∙ (only_reads s).1) drawn,
      )

  pub whole-err : {e : Error} → whole.0 ≡ err e → whole.1.tables ≡ s.tables
  whole-err {e} h = elim (continue-err _ (first s) h) [
    | inl same ↦ ap (λ (d : Session Tables Storage). d.tables) same ∙ (only_reads s).0
    | inr (job, _, h', same) ↦
        let m = (first s).1 in
        ap (λ (d : Session Tables Storage). d.tables) same
        ∙ elim (continue-err (λ d. succeed (answer d)) (serve random new_id job upload m) h') [
          | inl same' ↦
              ap (λ (d : Session Tables Storage). d.tables) same'
              ∙ serve-err random new_id job upload m
                  (answered-err answer (serve random new_id job upload m) h')
              ∙ (only_reads s).0
          | inr (d, _, bad, _) ↦ absurd (ground arith)
        ]
  ]
