-- ===== src/Reviews/Photos/Invariant/Moves.antt =====
-- The parts of a request that change no row of reviews keep the invariant.
use hamburger_evaluation.Base.{
  ℕ, ◌≡◌, ◌≢◌, refl, sym, false, Option, none, some, String, List, ◌∷◌, inl, inr, arith, eq_iff,
}
use mathlib.Core.Path.{subst}
use hamburger_evaluation.Domain.Errors.{Error, err}
use hamburger_evaluation.Recalc.System.{set_worker, is_in}
use hamburger_evaluation.Reviews.{ReviewRow}
use hamburger_evaluation.Reviews.Service.{Job, creating, editing, deleting, leftover}
use hamburger_evaluation.Reviews.Photos.{Flight, idle, opened, uploaded, leaving}
use hamburger_evaluation.Reviews.Photos.Keys.{Shown}
use hamburger_evaluation.Reviews.Photos.Invariant.{
  fresh_of, old_key, job_id, old_of, Issued, IsFlight, Apart, Inv, move-Inv, Shown-Shows,
  Issued-issue, IsRows-more, IsFlight-more, idle-IsFlight, bare-Apart, less-Apart,
}

leftover-err :
    (job : Job) (key : Option String) (e : Error) (k : String)
    → leftover job key (err e) ≡ some k
    → key ≡ some k
leftover-err (creating viewer place review) key e k h = h
leftover-err (editing d rating comment visited_at) none e k h = h
leftover-err (editing d rating comment visited_at) (some key) e k h = h
leftover-err (deleting d) key e k h = absurd (ground arith)

module _ (rows : List ReviewRow) (photos issued : List String) (flights : ℕ → Flight)
    (inv : Inv rows photos issued flights) (i : ℕ) where
  -- The request ends, or its server stops.
  pub idle-Inv : Inv rows photos issued (set_worker i idle flights)
  idle-Inv =
      move-Inv rows rows photos photos issued issued flights inv i idle inv.is_rows
        (idle-IsFlight rows photos issued) (λ j d. inv.is_flight j)
        (λ j d. (
          bare-Apart idle (flights j) refl,
          less-Apart (flights j) (flights i) idle (λ k e. absurd (ground arith)) refl refl
              (inv.apart j i (λ e. d (sym e))),
        ))

  -- A request has read the review of its job.
  pub opened-Inv :
      (job : Job) (upload : Option String)
      → ((k : String) → old_key job ≡ some k → Shown (λ j. j ≡ job_id job) k rows)
      → Inv rows photos issued (set_worker i (opened job upload) flights)
  opened-Inv job upload seen =
      let shows = λ (k : String) (e : old_key job ≡ some k).
        Shown-Shows (λ j. j ≡ job_id job) k rows (seen k e) in
      move-Inv rows rows photos photos issued issued flights inv i (opened job upload) inv.is_rows
        (record {
          fresh_given = λ k e. absurd (ground arith);
          fresh_unseen = λ k e. absurd (ground arith);
          fresh_held = λ k e. absurd (ground arith);
          fresh_old = λ k e. absurd (ground arith);
          doomed_given = λ k e. absurd (ground arith);
          doomed_unseen = λ k e. absurd (ground arith);
          old_given = λ k e. inv.is_rows.given k (shows k e);
          old_mine = λ k e. inv.is_rows.alone (job_id job) k (seen k e);
        })
        (λ j d. inv.is_flight j)
        (λ j d. (
          bare-Apart (opened job upload) (flights j) refl,
          record {
            not_old = λ k e h. (inv.is_flight j).fresh_unseen k e (shows k h);
            not_doomed = λ k e h. absurd (ground arith);
            not_fresh = λ k e h. absurd (ground arith);
          },
        ))

  -- A request without a photo.
  pub uploaded-Inv :
      (job : Job) (upload : Option String)
      → flights i ≡ opened job upload
      → Inv rows photos issued (set_worker i (uploaded job none) flights)
  uploaded-Inv job upload at =
      let mine = subst (IsFlight rows photos issued) at (inv.is_flight i) in
      move-Inv rows rows photos photos issued issued flights inv i (uploaded job none) inv.is_rows
        (record {
          fresh_given = λ k e. absurd (ground arith);
          fresh_unseen = λ k e. absurd (ground arith);
          fresh_held = λ k e. absurd (ground arith);
          fresh_old = λ k e. absurd (ground arith);
          doomed_given = λ k e. absurd (ground arith);
          doomed_unseen = λ k e. absurd (ground arith);
          old_given = mine.old_given;
          old_mine = mine.old_mine;
        })
        (λ j d. inv.is_flight j)
        (λ j d. (
          bare-Apart (uploaded job none) (flights j) refl,
          less-Apart (flights j) (opened job upload) (uploaded job none) (λ k e. e) refl refl
              (subst (Apart (flights j)) at (inv.apart j i (λ e. d (sym e)))),
        ))

  -- A photo is stored under a key that was not issued before.
  pub stored-Inv :
      (job : Job) (upload : Option String) (key : String)
      → flights i ≡ opened job upload
      → is_in key issued ≡ false
      → Inv rows (key ∷ photos) (key ∷ issued) (set_worker i (uploaded job (some key)) flights)
  stored-Inv job upload key at unissued =
      let mine = subst (IsFlight rows photos issued) at (inv.is_flight i) in
      let other : (k : String) → some key ≡ some k → Issued issued k → ⊥ = λ k e g. ground arith in
      let later = λ (k : String) (g : Issued issued k). Issued-issue (some key) issued k g in
      move-Inv rows rows photos (key ∷ photos) issued (key ∷ issued) flights inv i
        (uploaded job (some key))
        (IsRows-more rows photos (key ∷ photos) issued (key ∷ issued) (λ k h. inr h) later
          inv.is_rows)
        (record {
          fresh_given = λ k e. ground (arith, eq_iff key k);
          fresh_unseen = λ k e h. other k e (inv.is_rows.given k h);
          fresh_held = λ k e. inl (ground arith);
          fresh_old = λ k e o. other k e (mine.old_given k o);
          doomed_given = λ k e. absurd (ground arith);
          doomed_unseen = λ k e. absurd (ground arith);
          old_given = λ k e. later k (mine.old_given k e);
          old_mine = mine.old_mine;
        })
        (λ j d.
          IsFlight-more rows photos (key ∷ photos) issued (key ∷ issued) (λ k h. inr h) later
            (flights j) (inv.is_flight j))
        (λ j d. (
          record {
            not_old = λ k e h. other k e ((inv.is_flight j).old_given k h);
            not_doomed = λ k e h. other k e ((inv.is_flight j).doomed_given k h);
            not_fresh = λ k e h. other k e ((inv.is_flight j).fresh_given k h);
          },
          record {
            not_old =
                subst (λ f. (k : String) → fresh_of (flights j) ≡ some k → old_of f ≢ some k) at
                  (inv.apart j i (λ e. d (sym e))).not_old;
            not_doomed = λ k e h. absurd (ground arith);
            not_fresh = λ k e h. other k h ((inv.is_flight j).fresh_given k e);
          },
        ))

  -- A transaction that failed: the new photo is left over.
  pub failed-Inv :
      (job : Job) (key : Option String) (e : Error)
      → flights i ≡ uploaded job key
      → Inv rows photos issued (set_worker i (leaving (leftover job key (err e))) flights)
  failed-Inv job key e at =
      let mine = subst (IsFlight rows photos issued) at (inv.is_flight i) in
      let f = leaving (leftover job key (err e)) in
      move-Inv rows rows photos photos issued issued flights inv i f inv.is_rows
        (record {
          fresh_given = λ k h. absurd (ground arith);
          fresh_unseen = λ k h. absurd (ground arith);
          fresh_held = λ k h. absurd (ground arith);
          fresh_old = λ k h. absurd (ground arith);
          doomed_given = λ k h. mine.fresh_given k (leftover-err job key e k h);
          doomed_unseen = λ k h. mine.fresh_unseen k (leftover-err job key e k h);
          old_given = λ k h. absurd (ground arith);
          old_mine = λ k h. absurd (ground arith);
        })
        (λ j d. inv.is_flight j)
        (λ j d.
          let away = subst (Apart (flights j)) at (inv.apart j i (λ e. d (sym e))) in
          (
            bare-Apart f (flights j) refl,
            record {
              not_old = λ k h o. absurd (ground arith);
              not_doomed = λ k h o. away.not_fresh k h (leftover-err job key e k o);
              not_fresh = λ k h o. absurd (ground arith);
            },
          ))
