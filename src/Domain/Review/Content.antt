-- ===== src/Domain/Review/Content.antt =====
-- What content a review may have, and who may change it.
use hamburger_evaluation.Base.{
  ℕ, ◌%◌, ◌≤◌, ◌≡◌, refl, ◌↔◌, true, Option, none, some, String, arith, ℤ, pos, negsuc, ◌/◌, eq_iff,
}
use hamburger_evaluation.Base.Text.{rune_count}
use hamburger_evaluation.Domain.Errors.{ok}
use hamburger_evaluation.Domain.Account.{User}
use hamburger_evaluation.Domain.Review.{
  Review, max_comment_chars, day, validate_review_content, new_review, can_be_modified_by_viewer,
}

-- A rating from 1 to 5.
abbrev pub IsRating : ℤ → Type 0
IsRating (pos n) = (1 ≤ n) × (n ≤ 5)
IsRating (negsuc n) = ⊥

-- A date without a time of day, if any was given.
abbrev pub IsDate : Option ℕ → Type 0
IsDate none = Unit
IsDate (some visited) = visited % day ≡ 0

-- No date was given, or one whose day, counted from the zero time, is not after that of `now`.
abbrev pub IsPast : Option ℕ → ℕ → Type 0
IsPast none now = Unit
IsPast (some visited) now = visited / day ≤ now / day

-- A review's content is accepted exactly when the rating is 1 to 5, the comment has at most 2000
-- characters and the date of the visit, where one is given as a date without a time of day, is not
-- after the day of `now` in UTC.
pub validate_review_content-eq-ok_iff :
    (rating : ℤ) (comment : String) (visited_at : Option ℕ) (now : ℕ)
    → IsDate visited_at
    → (validate_review_content rating comment visited_at now ≡ ok tt)
      ↔ (IsRating rating × (rune_count comment ≤ max_comment_chars) × IsPast visited_at now)
unfolding validate_review_content
validate_review_content-eq-ok_iff (pos n) comment none now d = ground arith
validate_review_content-eq-ok_iff (pos n) comment (some v) now d = ground arith
validate_review_content-eq-ok_iff rating comment visited_at now d = ground arith

-- A new review has valid content, the text as it was sent, and the given author and burger.
pub new_review_sound :
    (rating : ℤ) (comment author burger : String) (visited_at : Option ℕ) (now : ℕ) (r : Review)
    → new_review rating comment author burger visited_at now ≡ ok r
    → (validate_review_content rating comment visited_at now ≡ ok tt)
      × (r.rating ≡ rating)
      × (r.comment ≡ some comment)
      × (r.author_id ≡ author)
      × (r.burger_id ≡ burger)
      × (r.visited_at ≡ visited_at)
unfolding new_review
new_review_sound rating comment author burger visited_at now r h = ground arith

-- Only the author may change a review: no exception for an admin.
pub can_be_modified_by_viewer_iff :
    (r : Review) (viewer : Option User)
    → (can_be_modified_by_viewer r viewer ≡ true)
      ↔ ((u : User) × (viewer ≡ some u) × (u.id ≡ r.author_id))
unfolding can_be_modified_by_viewer
can_be_modified_by_viewer_iff r none = (λ h. absurd (ground arith), λ h. absurd (ground arith))
can_be_modified_by_viewer_iff r (some u) = (
  λ h. (u, refl, ground (arith, eq_iff r.author_id u.id)),
  λ h. ground (arith, eq_iff r.author_id u.id),
)
