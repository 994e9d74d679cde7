-- ===== src/Reviews/Service/Written.antt =====
-- What Create and Update of usecase/reviews.go leave in the tables, told without their code.
use hamburger_evaluation.Base.{
  ℕ, ◌+◌, ◌*◌, ◌/◌, ◌≤◌, ◌<◌, ◌≡◌, ◌≢◌, ◌⊎◌, refl, sym, ap, ◌∙◌, true, false, Option, none, some,
  String, List, [], ◌∷◌, inl, inr, arith, eq_iff, find, find-Any, Any-weaken, ℤ, Bool-cases,
  Option-cases,
}
use Prim.Native.String.{◌++◌}
use mathlib.Core.Path.{subst}
use hamburger_evaluation.Domain.Errors.{ok, err, review_not_found}
use hamburger_evaluation.Domain.Review.{Review, day}
use hamburger_evaluation.Transaction.Runs.{ok-injective}
use hamburger_evaluation.Reviews.{
  Tables, ReviewRow, ReviewDetail, edit_kept, edit_content, edit_photo_key, row_review, is_kept,
  date_or_null,
}
use hamburger_evaluation.Reviews.Service.{Place}
use hamburger_evaluation.Reviews.Service.Opened.{IsRead, kept_row}
use hamburger_evaluation.Reviews.Service.Burgers.{IsPlaced}

-- The midnight, in UTC, before a time.
abbrev pub IsDay : Option ℕ → Option ℕ → Type 0
IsDay none date = date ≡ none
IsDay (some t) date =
    (n : ℕ) × (date ≡ some (n * 86400000000000))
    × (n * 86400000000000 ≤ t)
    × (t < n * 86400000000000 + 86400000000000)

pub date_or_null-IsDay : (visited_at : Option ℕ) → IsDay visited_at (date_or_null visited_at)
date_or_null-IsDay none = refl
date_or_null-IsDay (some t) = (t / day, ap some (omega arith), omega arith, omega arith)

-- The key of a photo: `old` without an upload, else from `hex`, the text that was drawn.
abbrev pub IsKey : Option String → String → Option String → Option String → Type 0
IsKey none hex old key = key ≡ old
IsKey (some ext) hex old key = key ≡ some (("reviews/" ++ hex) ++ ext)

-- A row with the new content, and all else as before.
abbrev pub IsEdited :
    ℤ → String → Option ℕ → Option String → String → ReviewRow → ReviewRow → Type 0
IsEdited rating comment visited_at upload hex old new =
    (new.review.rating ≡ rating)
    × (new.review.comment ≡ some comment)
    × IsDay visited_at new.review.visited_at
    × IsKey upload hex old.review.photo_key new.review.photo_key
    × (new.review.id ≡ old.review.id)
    × (new.review.author_id ≡ old.review.author_id)
    × (new.review.burger_id ≡ old.review.burger_id)
    × (new.review.created_at ≡ old.review.created_at)
    × (new.discarded ≡ false)

-- The rows of the review `id` that are not deleted are edited, the others stay.
abbrev pub Edits :
    String
    → ℤ
    → String
    → Option ℕ
    → Option String
    → String
    → List ReviewRow
    → List ReviewRow
    → Type 0
Edits id rating comment visited_at upload hex [] [] = Unit
Edits id rating comment visited_at upload hex [] (q ∷ qs) = ⊥
Edits id rating comment visited_at upload hex (r ∷ rs) [] = ⊥
Edits id rating comment visited_at upload hex (r ∷ rs) (q ∷ qs) =
    (((r.review.id ≡ id)
        × (r.discarded ≡ false)
        × IsEdited rating comment visited_at upload hex r q)
      ⊎ (((r.review.id ≢ id) ⊎ (r.discarded ≡ true)) × (q ≡ r)))
    × Edits id rating comment visited_at upload hex rs qs

-- The row of a new review, which the answer shows.
abbrev pub Posted : Place → Review → Option String → ReviewDetail → List ReviewRow → Tables → Type 0
Posted place review key shown rows t =
    (r : ReviewRow) × (t.reviews ≡ r ∷ rows)
    × (r.review ≡ shown.review)
    × (r.review.rating ≡ review.rating)
    × (r.review.comment ≡ review.comment)
    × IsDay review.visited_at r.review.visited_at
    × (r.review.photo_key ≡ key)
    × (r.review.author_id ≡ review.author_id)
    × (r.discarded ≡ false)
    × IsPlaced place review.burger_id r.review.burger_id t

pub row_review-IsRead :
    (id : String) (rows : List ReviewRow) (shown : ReviewDetail)
    → row_review (find (is_kept id) rows) ≡ ok shown.review
    → IsRead id shown rows
row_review-IsRead id rows shown h = elim (Option-cases (find (is_kept id) rows)) [
  | inl none_there ↦
      let e : err review_not_found ≡ ok shown.review = sym (ap row_review none_there) ∙ h in cc
  | inr (r, there) ↦
      let e : r.review ≡ shown.review = ok-injective (sym (ap row_review there) ∙ h) in
      Any-weaken _ _ (λ x p. kept_row id shown r x e p) rows (find-Any (is_kept id) rows there)
]

-- The edit of one row, with the key of its photo if there is a new one.
abbrev edit_by : Option String → ℤ → String → Option ℕ → ReviewRow → ReviewRow
edit_by none rating comment visited_at r = edit_content rating comment visited_at r
edit_by (some key) rating comment visited_at r =
    edit_photo_key (some key) (edit_content rating comment visited_at r)

edit_by-IsEdited :
    (upload : Option String) (hex : String) (key : Option String) (rating : ℤ) (comment : String)
    (visited_at : Option ℕ) (r : ReviewRow)
    → r.discarded ≡ false
    → IsKey upload hex none key
    → IsEdited rating comment visited_at upload hex r (edit_by key rating comment visited_at r)
edit_by-IsEdited none hex none rating comment visited_at r d k =
    (refl, refl, date_or_null-IsDay visited_at, refl, refl, refl, refl, refl, d)
edit_by-IsEdited none hex (some key) rating comment visited_at r d k = absurd (ground arith)
edit_by-IsEdited (some ext) hex none rating comment visited_at r d k = absurd (ground arith)
edit_by-IsEdited (some ext) hex (some key) rating comment visited_at r d k =
    (refl, refl, date_or_null-IsDay visited_at, k, refl, refl, refl, refl, d)

other_row :
    (id : String) (r : ReviewRow) → is_kept id r ≡ false → (r.review.id ≢ id) ⊎ (r.discarded ≡ true)
other_row id r h = elim (Bool-cases r.discarded) [
  | inl e ↦ inr e
  | inr e ↦ inl (λ same. absurd (ground (arith, eq_iff r.review.id id)))
]

-- An edit of all rows, row by row.
edit_by-Edits :
    (id : String) (upload : Option String) (hex : String) (key : Option String) (rating : ℤ)
    (comment : String) (visited_at : Option ℕ) (rows : List ReviewRow)
    → IsKey upload hex none key
    → Edits id rating comment visited_at upload hex rows
        (edit_kept (edit_by key rating comment visited_at) id rows)
edit_by-Edits id upload hex key rating comment visited_at [] k = tt
edit_by-Edits id upload hex key rating comment visited_at (r ∷ rows) k =
    let rest = edit_by-Edits id upload hex key rating comment visited_at rows k in
    elim (Bool-cases (is_kept id r)) [
      | inl e ↦
          let live : r.discarded ≡ false = ground arith in
          rw e (
            inl (
              ground (arith, eq_iff r.review.id id),
              live,
              edit_by-IsEdited upload hex key rating comment visited_at r live k,
            ),
            rest,
          )
      | inr e ↦ rw e (inr (other_row id r e, refl), rest)
    ]

-- Two edits of the same rows in turn are one.
edit_kept-twice :
    (id key : String) (rating : ℤ) (comment : String) (visited_at : Option ℕ)
    (rows : List ReviewRow)
    → edit_kept
        (edit_photo_key (some key))
        id
        (edit_kept (edit_content rating comment visited_at) id rows)
      ≡ edit_kept (edit_by (some key) rating comment visited_at) id rows
edit_kept-twice id key rating comment visited_at [] = refl
edit_kept-twice id key rating comment visited_at (r ∷ rows) =
    let rest = edit_kept-twice id key rating comment visited_at rows in
    elim (Bool-cases (is_kept id r)) [
      | inl e ↦ rw e (rw e (rw rest refl))
      | inr e ↦ rw e (rw e (rw rest refl))
    ]

-- What the statements of Update do is what it is told to.
pub content-Edits :
    (id : String) (upload : Option String) (hex : String) (rating : ℤ) (comment : String)
    (visited_at : Option ℕ) (rows : List ReviewRow)
    → IsKey upload hex none none
    → Edits id rating comment visited_at upload hex rows
        (edit_kept (edit_content rating comment visited_at) id rows)
content-Edits id upload hex rating comment visited_at rows k =
    edit_by-Edits id upload hex none rating comment visited_at rows k

pub content_and_photo-Edits :
    (id : String) (upload : Option String) (hex key : String) (rating : ℤ) (comment : String)
    (visited_at : Option ℕ) (rows : List ReviewRow)
    → IsKey upload hex none (some key)
    → Edits id rating comment visited_at upload hex rows (
        edit_kept
          (edit_photo_key (some key))
          id
          (edit_kept (edit_content rating comment visited_at) id rows))
content_and_photo-Edits id upload hex key rating comment visited_at rows k =
    subst (Edits id rating comment visited_at upload hex rows)
      (sym (edit_kept-twice id key rating comment visited_at rows))
      (edit_by-Edits id upload hex (some key) rating comment visited_at rows k)
