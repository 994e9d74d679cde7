-- ===== src/Reviews/Service.antt =====
-- Create, Update and Delete of usecase/reviews.go. Each reads and checks (`open`), stores the photo
-- (`put_photo`), writes in one transaction (`save`) and deletes the photo that nothing refers to
-- (`leftover`); a `Job` is what the first part hands to the others.
pub mod Effects
pub mod Opened
pub mod Burgers
pub mod Written
pub mod Whole
pub mod Outcomes
use hamburger_evaluation.Base.{
  ℕ, suc, ◌≡◌, refl, Bool, true, false, not, Option, none, some, String, List, [], ◌∷◌, str_eq,
  if◌then◌else◌, keep, ℤ,
}
use Prim.Native.String.{◌++◌}
use hamburger_evaluation.Domain.Errors.{Error, Result, ok, err, forbidden}
use hamburger_evaluation.Domain.Rules.Chars.{is_empty}
use hamburger_evaluation.Domain.Rules.Names.{validate_burger_name}
use hamburger_evaluation.Domain.Account.{User}
use hamburger_evaluation.Domain.Shop.{can_be_reviewed_by}
use hamburger_evaluation.Domain.Review.{
  Review, new_review, validate_review_content, can_be_modified_by, can_be_modified_by_viewer,
}
use hamburger_evaluation.Transaction.{
  Session, Action, succeed, fail, lift, attempt, call, transaction, continue, ◌>>=◌, ◌>>◌,
}
use hamburger_evaluation.Reviews.{
  Tables, Storage, Run, Burger, UserRef, ReviewDetail, get_review, get_shop, get_shop_burger,
  create_shop_burger, create_review, update_review_content, update_review_content_and_photo_key,
  discard_review, request_recalculation, request_recalculation_for_burger,
}

-- The burger of a new review: found by its id, or to be found or made by its name.
pub data Place : Type 0 where
  known : Burger → Place
  named : String → String → Place

pub data Job : Type 0 where
  creating : User → Place → Review → Job
  editing : ReviewDetail → ℤ → String → Option ℕ → Job
  deleting : ReviewDetail → Job

abbrev check : Bool → Error → Run (Unit {0})
check b e = if b then succeed tt else fail e

-- `burger_id != ""` decides how the burger is given.
pub resolve_place : Bool → String → String → String → Run Place
resolve_place true shop_id burger_id burger_name = do
  lift (validate_burger_name burger_name)
  succeed (named shop_id burger_name)
resolve_place false shop_id burger_id burger_name = do
  burger ← get_shop_burger shop_id burger_id
  succeed (known burger)

-- Create, up to the review that is ready to be saved.
unfoldable pub open_create : User → ℕ → String → String → String → ℤ → String → Option ℕ → Run Job
unfolding resolve_place
open_create viewer now shop_id burger_id burger_name rating comment visited_at = do
  shop ← get_shop shop_id
  check (can_be_reviewed_by shop viewer) forbidden
  place ← resolve_place (is_empty burger_id) shop_id burger_id burger_name
  review ← lift (new_review rating comment viewer.id burger_id visited_at now)
  succeed (creating viewer place review)

unfoldable pub open_update : User → ℕ → String → ℤ → String → Option ℕ → Run Job
open_update viewer now id rating comment visited_at = do
  detail ← get_review id
  check (can_be_modified_by detail.review viewer) forbidden
  lift (validate_review_content rating comment visited_at now)
  succeed (editing detail rating comment visited_at)

unfoldable pub open_delete : User → String → Run Job
open_delete viewer id = do
  detail ← get_review id
  check (can_be_modified_by detail.review viewer) forbidden
  succeed (deleting detail)

abbrev of_viewer : User → Burger → Review → ReviewDetail
of_viewer viewer burger review = record {
  review = review;
  user = record { id = viewer.id; username = viewer.username };
  burger = burger;
  photo_url = none;
  can_edit = false;
}

update_by : Option String → String → ℤ → String → Option ℕ → Run Review
update_by none id rating comment visited_at = update_review_content id rating comment visited_at
update_by (some key) id rating comment visited_at =
    update_review_content_and_photo_key id rating comment visited_at (some key)

abbrev request_both : String → Run (Unit {0})
request_both burger_id = do
  request_recalculation burger_id
  request_recalculation_for_burger burger_id

module _ (new_id : ℕ → String) where
  pub find_place : Place → Run Burger
  find_place (known burger) = succeed burger
  find_place (named shop_id burger_name) = create_shop_burger new_id shop_id burger_name

  pub placed : Place → Burger → Review → Review
  placed (known b) burger review = review
  placed (named shop_id burger_name) burger review = record review { burger_id = burger.id }

  -- The body of each transaction.
  save_body : Job → Option String → Run ReviewDetail
  unfolding find_place placed update_by
  save_body (creating viewer place review) key = do
    burger ← find_place place
    created ← create_review new_id (record (placed place burger review) { photo_key = key })
    request_both created.burger_id
    succeed (of_viewer viewer burger created)
  save_body (editing detail rating comment visited_at) key = do
    updated ← update_by key detail.review.id rating comment visited_at
    request_both updated.burger_id
    succeed (record detail { review = updated })
  save_body (deleting detail) key = do
    discard_review detail.review.id
    request_both detail.review.burger_id
    succeed detail

  unfoldable pub save : Job → Option String → Run ReviewDetail
  unfolding save_body
  save job key = transaction (save_body job key)

-- The photo to delete once the transaction is over: the new one after a failure, the one that was
-- replaced or whose review was deleted after a success.
abbrev pub leftover : Job → Option String → Result ReviewDetail → Option String
leftover (creating viewer place review) key (ok saved) = none
leftover (creating viewer place review) key (err e) = key
leftover (editing detail rating comment visited_at) none r = none
leftover (editing detail rating comment visited_at) (some key) (ok saved) = detail.review.photo_key
leftover (editing detail rating comment visited_at) (some key) (err e) = some key
leftover (deleting detail) key (ok saved) = detail.review.photo_key
leftover (deleting detail) key (err e) = none

abbrev pub store_photo :
    String → Session Tables Storage → Result (Unit {0}) × Session Tables Storage
store_photo key s =
    (ok tt, record s { outside = record s.outside { photos = key ∷ s.outside.photos } })

abbrev pub drop_photo : String → Session Tables Storage → Result (Unit {0}) × Session Tables Storage
drop_photo key s = (
  ok tt,
  record s {
    outside = record s.outside { photos = keep (λ k. not (str_eq k key)) s.outside.photos };
  },
)

abbrev pub best_effort : Run (Unit {0}) → Run (Unit {0})
best_effort m = attempt m >>= λ _. succeed tt

unfoldable pub delete_photo_best_effort : Option String → Run (Unit {0})
delete_photo_best_effort none = succeed tt
delete_photo_best_effort (some key) = best_effort (call (drop_photo key))

abbrev pub photo_key : String → String → String
photo_key hex ext = ("reviews/" ++ hex) ++ ext

-- `random` is the n-th draw of 16 random bytes, in hexadecimal. An upload is given by its `Ext`.
module _ (random : ℕ → String) where
  abbrev pub draw : Session Tables Storage → Result String × Session Tables Storage
  draw s = (
    ok (random s.outside.drawn),
    record s { outside = record s.outside { drawn = suc s.outside.drawn } },
  )

  unfoldable pub put_photo : Option String → Run (Option String)
  put_photo none = succeed none
  put_photo (some ext) = do
    hex ← call draw
    call (store_photo (photo_key hex ext))
    succeed (some (photo_key hex ext))

  module _ (new_id : ℕ → String) where
    -- What follows the checks.
    unfoldable pub serve : Job → Option String → Run ReviewDetail
    serve job upload = do
      key ← put_photo upload
      result ← attempt (save new_id job key)
      delete_photo_best_effort (leftover job key result)
      lift result

    -- `url` is PhotoStorage.URL.
    module _ (url : String → String) where
      abbrev url_of : Option String → Option String
      url_of none = none
      url_of (some key) = some (url key)

      abbrev shown : User → ReviewDetail → ReviewDetail
      shown viewer d = record d {
        photo_url = url_of d.review.photo_key;
        can_edit = can_be_modified_by_viewer d.review (some viewer);
      }

      unfoldable pub create :
          User
          → ℕ
          → String
          → String
          → String
          → ℤ
          → String
          → Option ℕ
          → Option String
          → Run ReviewDetail
      create viewer now shop_id burger_id burger_name rating comment visited_at upload = do
        job ← open_create viewer now shop_id burger_id burger_name rating comment visited_at
        saved ← serve job upload
        succeed (shown viewer saved)

      unfoldable pub update :
          User → ℕ → String → ℤ → String → Option ℕ → Option String → Run ReviewDetail
      update viewer now id rating comment visited_at upload = do
        job ← open_update viewer now id rating comment visited_at
        saved ← serve job upload
        succeed (shown viewer saved)

    unfoldable pub delete : User → String → Run (Unit {0})
    delete viewer id = do job ← open_delete viewer id; _ ← serve job none; succeed tt
