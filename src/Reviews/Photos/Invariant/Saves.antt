-- ===== src/Reviews/Photos/Invariant/Saves.antt =====
-- A transaction that succeeds, and the deletion of what it leaves over, keep the invariant.
use hamburger_evaluation.Base.{
  ℕ, ◌≡◌, ◌≢◌, refl, sym, Option, none, some, String, List, ◌⊎◌, inl, inr, arith,
}
use mathlib.Core.Path.{subst}
use hamburger_evaluation.Domain.Errors.{ok}
use hamburger_evaluation.Recalc.System.{set_worker}
use hamburger_evaluation.Reviews.{ReviewRow, ReviewDetail}
use hamburger_evaluation.Reviews.Service.{Job, creating, editing, deleting, leftover}
use hamburger_evaluation.Reviews.Service.Effects.{Changed}
use hamburger_evaluation.Reviews.Photos.{Flight, idle, uploaded, leaving}
use hamburger_evaluation.Reviews.Photos.Keys.{
  Shows, Elsewhere, Shown-Changed, Shows-replaced, Shows-discarded, Shown-written,
}
use hamburger_evaluation.Reviews.Photos.Invariant.{
  Stored, old_key, job_id, id_of, IsRows, IsFlight, Apart, Inv, move-Inv, idle-IsFlight, bare-Apart,
  less-Apart,
}

leftover-ok :
    (job : Job) (key : Option String) (saved : ReviewDetail) (k : String)
    (rows rows' : List ReviewRow)
    → Changed job key rows rows'
    → leftover job key (ok saved) ≡ some k
    → (old_key job ≡ some k) × (Shows k rows' → Elsewhere (job_id job) k rows ⊎ (key ≡ some k))
leftover-ok (creating viewer place review) key saved k rows rows' c h = absurd (ground arith)
leftover-ok (editing d rating comment visited_at) none saved k rows rows' c h =
    absurd (ground arith)
leftover-ok (editing d rating comment visited_at) (some key) saved k rows rows' c h =
    (h, Shows-replaced k d rating comment visited_at key rows rows' c)
leftover-ok (deleting d) key saved k rows rows' c h =
    (h, λ s. elim (Shows-discarded k d key rows rows' c s) [ inl p ↦ inl p | inr b ↦ absurd b ])

module _ (rows : List ReviewRow) (photos issued : List String) (flights : ℕ → Flight)
    (inv : Inv rows photos issued flights) (i : ℕ) where
  -- A transaction that succeeded: the photo that was replaced is left over.
  module _ (job : Job) (key : Option String) (saved : ReviewDetail) (rows' : List ReviewRow)
      (c : Changed job key rows rows') (at : flights i ≡ uploaded job key) where
    mine : IsFlight rows photos issued (uploaded job key)
    mine = subst (IsFlight rows photos issued) at (inv.is_flight i)

    saved-IsRows : IsRows rows' photos issued
    saved-IsRows = record {
      held = λ k h. elim (Shown-Changed (λ _. Unit) k job key rows rows' c h) [
        | inl p ↦ inv.is_rows.held k p
        | inr e ↦ mine.fresh_held k e
      ];
      given = λ k h. elim (Shown-Changed (λ _. Unit) k job key rows rows' c h) [
        | inl p ↦ inv.is_rows.given k p
        | inr e ↦ mine.fresh_given k e
      ];
      alone = λ id k h l.
          let written = λ (e : key ≡ some k).
            Shown-written (λ j. j ≢ id) k job key rows rows' c (mine.fresh_unseen k e) l
              (Shown-written (λ j. j ≡ id) k job key rows rows' c (mine.fresh_unseen k e) h) in
          elim (Shown-Changed (λ j. j ≡ id) k job key rows rows' c h) [
            | inl p ↦ elim (Shown-Changed (λ j. j ≢ id) k job key rows rows' c l) [
              | inl q ↦ inv.is_rows.alone id k p q
              | inr e ↦ written e
            ]
            | inr e ↦ written e
          ];
    }

    -- What another request relies on is still so.
    saved-others : (j : ℕ) → i ≢ j → IsFlight rows' photos issued (flights j)
    saved-others j d =
        let v = inv.is_flight j in
        let from = subst (λ f. Apart f (flights j)) at (inv.apart i j d) in
        let to = subst (Apart (flights j)) at (inv.apart j i (λ e. d (sym e))) in
        record {
          fresh_given = v.fresh_given;
          fresh_unseen = λ k h s. elim (Shown-Changed (λ _. Unit) k job key rows rows' c s) [
            | inl p ↦ v.fresh_unseen k h p
            | inr e ↦ to.not_fresh k h e
          ];
          fresh_held = v.fresh_held;
          fresh_old = v.fresh_old;
          doomed_given = v.doomed_given;
          doomed_unseen = λ k h s. elim (Shown-Changed (λ _. Unit) k job key rows rows' c s) [
            | inl p ↦ v.doomed_unseen k h p
            | inr e ↦ from.not_doomed k e h
          ];
          old_given = v.old_given;
          old_mine = λ k h s.
              elim (Shown-Changed (λ l. l ≢ id_of (flights j)) k job key rows rows' c s) [
                | inl p ↦ v.old_mine k h p
                | inr e ↦ from.not_old k e h
              ];
        }

    pub saved-Inv :
        Inv rows' photos issued (set_worker i (leaving (leftover job key (ok saved))) flights)
    saved-Inv =
        let f = leaving (leftover job key (ok saved)) in
        move-Inv rows rows' photos photos issued issued flights inv i f saved-IsRows
          (record {
            fresh_given = λ k h. absurd (ground arith);
            fresh_unseen = λ k h. absurd (ground arith);
            fresh_held = λ k h. absurd (ground arith);
            fresh_old = λ k h. absurd (ground arith);
            doomed_given = λ k h. mine.old_given k (leftover-ok job key saved k rows rows' c h).0;
            doomed_unseen = λ k h s.
                let (old, back) = leftover-ok job key saved k rows rows' c h in
                elim (back s) [ inl p ↦ mine.old_mine k old p | inr e ↦ mine.fresh_old k e old ];
            old_given = λ k h. absurd (ground arith);
            old_mine = λ k h. absurd (ground arith);
          })
          saved-others
          (λ j d.
            let away = subst (Apart (flights j)) at (inv.apart j i (λ e. d (sym e))) in
            (
              bare-Apart f (flights j) refl,
              record {
                not_old = λ k h o. absurd (ground arith);
                not_doomed =
                    λ k h o. away.not_old k h (leftover-ok job key saved k rows rows' c o).0;
                not_fresh = λ k h o. absurd (ground arith);
              },
            ))

  -- The photo that was left over is deleted, and no other.
  pub cleaned-Inv :
      (key : Option String) (photos' : List String)
      → flights i ≡ leaving key
      → ((k : String) → key ≢ some k → Stored k photos → Stored k photos')
      → Inv rows photos' issued (set_worker i idle flights)
  cleaned-Inv key photos' at keeps =
      let mine = subst (IsFlight rows photos issued) at (inv.is_flight i) in
      move-Inv rows rows photos photos' issued issued flights inv i idle
        (record {
          held = λ k h. keeps k (λ e. mine.doomed_unseen k e h) (inv.is_rows.held k h);
          given = inv.is_rows.given;
          alone = inv.is_rows.alone;
        })
        (idle-IsFlight rows photos' issued)
        (λ j d.
          let v = inv.is_flight j in
          let to = subst (Apart (flights j)) at (inv.apart j i (λ e. d (sym e))) in
          record {
            fresh_given = v.fresh_given;
            fresh_unseen = v.fresh_unseen;
            fresh_held = λ k h. keeps k (to.not_doomed k h) (v.fresh_held k h);
            fresh_old = v.fresh_old;
            doomed_given = v.doomed_given;
            doomed_unseen = v.doomed_unseen;
            old_given = v.old_given;
            old_mine = v.old_mine;
          })
        (λ j d. (
          bare-Apart idle (flights j) refl,
          less-Apart (flights j) (flights i) idle (λ k e. absurd (ground arith)) refl refl
              (inv.apart j i (λ e. d (sym e))),
        ))
