-- ===== src/Domain/Review.antt =====
-- domain/review.go: reviews, their content rules, their owner, and the shop that a viewer is shown.
pub mod Content
pub mod ShopChoice
use hamburger_evaluation.Base.{
  ℕ, ◌-◌, ◌%◌, ◌≡◌, refl, Bool, true, false, ◌&&◌, ◌||◌, not, Option, none, some, String, List, [],
  ◌∷◌, ◌++◌, arith, str_eq, ltb, if◌then◌else◌, ℤ, pos,
}
use hamburger_evaluation.Base.Int.{ltb_ℤ}
use hamburger_evaluation.Domain.Errors.{Message, msg, Result, ok, err, validation, ◌>>=◌, ◌>>◌}
use hamburger_evaluation.Domain.Rules.Chars.{exceeds_chars}
use hamburger_evaluation.Domain.Account.{User}
use hamburger_evaluation.Domain.Shop.{
  Shop, ShopRef, ref, is_some, can_be_reviewed_by_viewer, shop_visibility_for, can_view,
}

-- `id` and `created_at` are given by the database.
pub record Review : Type 0 where
  pub id : String
  pub rating : ℤ
  pub comment : Option String
  pub photo_key : Option String
  pub author_id : String
  pub burger_id : String
  pub created_at : ℕ
  pub visited_at : Option ℕ

abbrev pub min_rating : ℕ
min_rating = 1

abbrev pub max_rating : ℕ
max_rating = 5

abbrev pub max_comment_chars : ℕ
max_comment_chars = 2000

-- The nanoseconds of a day. The zero time is a midnight of UTC.
abbrev pub day : ℕ
day = 86400000000000

-- Midnight, UTC, of the day of `now`.
abbrev pub today : ℕ → ℕ
today now = now - now % day

is_future : Option ℕ → ℕ → Bool
is_future none now = false
is_future (some visited) now = ltb (today now) visited

content_issues : ℤ → String → Option ℕ → ℕ → List Message
unfolding exceeds_chars is_future
content_issues rating comment visited_at now =
    (if ltb_ℤ rating (pos min_rating) || ltb_ℤ (pos max_rating) rating
      then msg "review.rating_range" (min_rating ∷ max_rating ∷ []) ∷ []
      else [])
    ++ (if exceeds_chars comment max_comment_chars
        then msg "review.comment_too_long" (max_comment_chars ∷ []) ∷ []
        else [])
    ++ (if is_future visited_at now then msg "review.visited_at_future" [] ∷ [] else [])

-- `len(issues) > 0`
abbrev pub reject_if : List Message → Result (Unit {0})
reject_if [] = ok tt
reject_if (i ∷ issues) = err (validation (i ∷ issues))

unfoldable pub validate_review_content : ℤ → String → Option ℕ → ℕ → Result (Unit {0})
unfolding content_issues
validate_review_content rating comment visited_at now =
    reject_if (content_issues rating comment visited_at now)

unfoldable pub new_review : ℤ → String → String → String → Option ℕ → ℕ → Result Review
unfolding validate_review_content
new_review rating comment author_id burger_id visited_at now = do
  validate_review_content rating comment visited_at now
  ok (record {
    id = "";
    rating = rating;
    comment = some comment;
    photo_key = none;
    author_id = author_id;
    burger_id = burger_id;
    created_at = 0;
    visited_at = visited_at;
  })

unfoldable pub can_be_modified_by : Review → User → Bool
can_be_modified_by r viewer = str_eq r.author_id viewer.id

unfoldable pub can_be_modified_by_viewer : Review → Option User → Bool
unfolding can_be_modified_by
can_be_modified_by_viewer r none = false
can_be_modified_by_viewer r (some viewer) = can_be_modified_by r viewer

abbrev ref_of : Option Shop → Option ShopRef
ref_of none = none
ref_of (some s) = some (ref s)

-- The loop over the shops; `visible` is the first shop seen so far that the viewer may see.
choose_shop : Option User → Option Shop → List Shop → Option ShopRef × Bool
choose_shop viewer visible [] = (ref_of visible, false)
choose_shop viewer visible (s ∷ shops) =
    let seen =
      if not (is_some visible) && can_view (shop_visibility_for viewer) s
      then some s
      else visible in
    let rest = choose_shop viewer seen shops in
    if can_be_reviewed_by_viewer s viewer then (some (ref s), true) else rest

unfoldable pub review_shop_for : List Shop → Option User → Option ShopRef × Bool
unfolding choose_shop
review_shop_for shops viewer = choose_shop viewer none shops
