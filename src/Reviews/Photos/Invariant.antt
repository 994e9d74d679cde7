-- ===== src/Reviews/Photos/Invariant.antt =====
-- What the requests in flight rely on, so that no kept review loses its photo.
pub mod Moves
pub mod Saves
pub mod NoLostPhoto
use hamburger_evaluation.Base.{
  ℕ, suc, ◌≤◌, ◌≡◌, ◌≢◌, refl, sym, ap, ◌∙◌, Bool, true, false, not, Option, none, some, String,
  List, [], ◌∷◌, map, Any, Any-weaken, All, ◌⊎◌, inl, inr, arith, str_eq, eq_iff, ◌==◌, ==_iff,
  if◌then◌else◌, Bool-cases, keep, find, ℤ,
}
use mathlib.Core.Path.{subst}
use hamburger_evaluation.Domain.Errors.{Error, Result, ok, err}
use hamburger_evaluation.Transaction.{Session}
use hamburger_evaluation.Recalc.System.{set_worker, is_in}
use hamburger_evaluation.Reviews.{Tables, Storage, ReviewRow, ReviewDetail}
use hamburger_evaluation.Reviews.Service.{
  Job, creating, editing, deleting, put_photo, save, leftover, delete_photo_best_effort, photo_key,
}
use hamburger_evaluation.Reviews.Service.Effects.{Changed}
use hamburger_evaluation.Reviews.Photos.{
  Order, open_order, Flight, idle, opened, uploaded, leaving, after_open, after_put, State, moved,
  issue, IsNew, next_key, Step, begin, store, write, clean, cut_off, other, Reach, here, next,
}
use hamburger_evaluation.Reviews.Photos.Keys.{
  HasPhoto, Shown, Shows, Elsewhere, Shown-Changed, Shows-replaced, Shows-discarded, written_id,
  Shown-written,
}

abbrev pub Stored : String → List String → Type 0
Stored k photos = Any (λ p. p ≡ k) photos

-- The photo that was stored and that no transaction has committed yet.
abbrev pub fresh_of : Flight → Option String
fresh_of (uploaded job key) = key
fresh_of _ = none

-- The photo of the review as it was read, and the review.
abbrev pub old_key : Job → Option String
old_key (creating viewer place review) = none
old_key (editing d rating comment visited_at) = d.review.photo_key
old_key (deleting d) = d.review.photo_key

abbrev pub job_id : Job → String
job_id (creating viewer place review) = ""
job_id (editing d rating comment visited_at) = d.review.id
job_id (deleting d) = d.review.id

abbrev pub old_of : Flight → Option String
old_of idle = none
old_of (opened job upload) = old_key job
old_of (uploaded job key) = old_key job
old_of (leaving key) = none

abbrev pub id_of : Flight → String
id_of idle = ""
id_of (opened job upload) = job_id job
id_of (uploaded job key) = job_id job
id_of (leaving key) = ""

-- The photo that is about to be deleted.
abbrev pub doomed_of : Flight → Option String
doomed_of (leaving key) = key
doomed_of _ = none

abbrev pub Issued : List String → String → Type 0
Issued issued k = is_in k issued ≡ true

module _ (rows : List ReviewRow) (photos issued : List String) where
  pub record IsRows : Type 0 where
    pub held : (k : String) → Shows k rows → Stored k photos
    pub given : (k : String) → Shows k rows → Issued issued k
    pub alone : (id k : String) → Shown (λ j. j ≡ id) k rows → Elsewhere id k rows → ⊥

  pub record IsFlight (f : Flight) : Type 0 where
    pub fresh_given : (k : String) → fresh_of f ≡ some k → Issued issued k
    pub fresh_unseen : (k : String) → fresh_of f ≡ some k → Shows k rows → ⊥
    pub fresh_held : (k : String) → fresh_of f ≡ some k → Stored k photos
    pub fresh_old : (k : String) → fresh_of f ≡ some k → old_of f ≢ some k
    pub doomed_given : (k : String) → doomed_of f ≡ some k → Issued issued k
    pub doomed_unseen : (k : String) → doomed_of f ≡ some k → Shows k rows → ⊥
    pub old_given : (k : String) → old_of f ≡ some k → Issued issued k
    pub old_mine : (k : String) → old_of f ≡ some k → Elsewhere (id_of f) k rows → ⊥

-- The stored photo of one request is no business of another.
pub record Apart (f g : Flight) : Type 0 where
  pub not_old : (k : String) → fresh_of f ≡ some k → old_of g ≢ some k
  pub not_doomed : (k : String) → fresh_of f ≡ some k → doomed_of g ≢ some k
  pub not_fresh : (k : String) → fresh_of f ≡ some k → fresh_of g ≢ some k

pub record Inv (rows : List ReviewRow) (photos issued : List String) (flights : ℕ → Flight)
    : Type 0 where
  pub is_rows : IsRows rows photos issued
  pub is_flight : (i : ℕ) → IsFlight rows photos issued (flights i)
  pub apart : (i j : ℕ) → i ≢ j → Apart (flights i) (flights j)

-- A step of the request `i`: what it must show to keep the invariant.
module _ (rows rows' : List ReviewRow) (photos photos' issued issued' : List String)
    (flights : ℕ → Flight) (inv : Inv rows photos issued flights) (i : ℕ) (f : Flight) where
  pub move-Inv :
      IsRows rows' photos' issued'
      → IsFlight rows' photos' issued' f
      → ((j : ℕ) → i ≢ j → IsFlight rows' photos' issued' (flights j))
      → ((j : ℕ) → i ≢ j → Apart f (flights j) × Apart (flights j) f)
      → Inv rows' photos' issued' (set_worker i f flights)
  move-Inv r mine others away = record {
    is_rows = r;
    is_flight = λ j. elim (Bool-cases (i == j)) [
      | inl e ↦ rw e mine
      | inr e ↦ rw e (others j (ground arith))
    ];
    apart = λ j l d. elim (Bool-cases (i == j)) [
      | inl e ↦ elim (Bool-cases (i == l)) [
        | inl e' ↦ absurd (d (ground arith))
        | inr e' ↦ rw (e, e') ((away l (ground arith)).0)
      ]
      | inr e ↦ elim (Bool-cases (i == l)) [
        | inl e' ↦ rw (e, e') ((away j (ground arith)).1)
        | inr e' ↦ rw (e, e') (inv.apart j l d)
      ]
    ];
  }

pub Shown-Shows :
    (P : String → Type 0) (k : String) (rows : List ReviewRow) → Shown P k rows → Shows k rows
Shown-Shows P k rows h = Any-weaken _ _ (λ r p. (p.0, tt)) rows h

pub Issued-issue :
    (key : Option String) (issued : List String) (k : String)
    → Issued issued k
    → Issued (issue key issued) k
Issued-issue none issued k h = h
Issued-issue (some key) issued k h = ground arith

-- More photos and more keys.
module _ (rows : List ReviewRow) (photos photos' issued issued' : List String)
    (more : (k : String) → Stored k photos → Stored k photos')
    (later : (k : String) → Issued issued k → Issued issued' k) where
  pub IsRows-more : IsRows rows photos issued → IsRows rows photos' issued'
  IsRows-more r = record {
    held = λ k h. more k (r.held k h);
    given = λ k h. later k (r.given k h);
    alone = r.alone;
  }

  pub IsFlight-more : (f : Flight) → IsFlight rows photos issued f → IsFlight rows photos' issued' f
  IsFlight-more f v = record {
    fresh_given = λ k e. later k (v.fresh_given k e);
    fresh_unseen = v.fresh_unseen;
    fresh_held = λ k e. more k (v.fresh_held k e);
    fresh_old = v.fresh_old;
    doomed_given = λ k e. later k (v.doomed_given k e);
    doomed_unseen = v.doomed_unseen;
    old_given = λ k e. later k (v.old_given k e);
    old_mine = v.old_mine;
  }

pub idle-IsFlight :
    (rows : List ReviewRow) (photos issued : List String) → IsFlight rows photos issued idle
idle-IsFlight rows photos issued = record {
  fresh_given = λ k e. absurd (ground arith);
  fresh_unseen = λ k e. absurd (ground arith);
  fresh_held = λ k e. absurd (ground arith);
  fresh_old = λ k e. absurd (ground arith);
  doomed_given = λ k e. absurd (ground arith);
  doomed_unseen = λ k e. absurd (ground arith);
  old_given = λ k e. absurd (ground arith);
  old_mine = λ k e. absurd (ground arith);
}

-- A request that has stored no photo is apart from the others.
pub bare-Apart : (f g : Flight) → fresh_of f ≡ none → Apart f g
bare-Apart f g n = record {
  not_old = λ k e. absurd (ground arith);
  not_doomed = λ k e. absurd (ground arith);
  not_fresh = λ k e. absurd (ground arith);
}

-- The others are apart from a request that holds no more keys than before.
pub less-Apart :
    (g f f' : Flight)
    → ((k : String) → old_of f' ≡ some k → old_of f ≡ some k)
    → doomed_of f' ≡ none
    → fresh_of f' ≡ none
    → Apart g f
    → Apart g f'
less-Apart g f f' o d n a = record {
  not_old = λ k e h. a.not_old k e (o k h);
  not_doomed = λ k e h. absurd (ground arith);
  not_fresh = λ k e h. absurd (ground arith);
}

pub issued-Inv :
    (rows : List ReviewRow) (photos issued : List String) (flights : ℕ → Flight)
    (key : Option String)
    → Inv rows photos issued flights
    → Inv rows photos (issue key issued) flights
issued-Inv rows photos issued flights key inv = record {
  is_rows =
      IsRows-more rows photos photos issued (issue key issued) (λ k h. h) (Issued-issue key issued)
        inv.is_rows;
  is_flight = λ i.
      IsFlight-more rows photos photos issued (issue key issued) (λ k h. h)
        (Issued-issue key issued) (flights i) (inv.is_flight i);
  apart = inv.apart;
}
