-- ===== src/Reviews.antt =====
-- The tables that writing a review reads and writes, the storage of photos beside them, and their
-- statements: adapter/repository/review_repository.go, adapter/query/review_query.go, the reading
-- of a burger's shops in adapter/query/shop_stats_query.go, and RequestRecalculation of
-- usecase/unit_of_work.go and usecase/shop_stats.go. The figures that a response shows with a
-- burger (average, count, score, confidence) are left out.
pub mod Service
pub mod Photos
use hamburger_evaluation.Base.{
  ℕ, suc, ◌-◌, ◌%◌, ◌≡◌, refl, Bool, true, false, not, ◌&&◌, ◌||◌, Option, none, some, String, List,
  [], ◌∷◌, ◌++◌, map, arith, str_eq, if◌then◌else◌, keep, find, any, ℤ,
}
use Prim.Native.Nat.{Ordering}
use Prim.Native.String.{compare}
use hamburger_evaluation.Domain.Errors.{
  Error, Result, ok, err, review_not_found, shop_not_found, burger_not_found,
}
use hamburger_evaluation.Domain.Shop.{Shop}
use hamburger_evaluation.Domain.Review.{Review, day}
use hamburger_evaluation.Login.{UserRow, is_active_user, found_or}
use hamburger_evaluation.Recalc.Queue.{Queue, request_recalc}
use hamburger_evaluation.Transaction.{
  Action, succeed, statement, query, transaction, continue, ◌>>=◌, ◌>>◌,
}

pub record Burger : Type 0 where
  pub id : String
  pub name : String

-- `discarded` is `discarded_at IS NOT NULL`.
pub record ReviewRow : Type 0 where
  pub review : Review
  pub discarded : Bool

-- A row of shops_burgers.
pub record Link : Type 0 where
  pub shop_id : String
  pub burger_id : String

-- Burgers stand in the order of their creation. `now` is the database's now(), `serial` counts the
-- ids given out.
pub record Tables : Type 0 where
  pub shops : List Shop
  pub users : List UserRow
  pub burgers : List Burger
  pub links : List Link
  pub reviews : List ReviewRow
  pub burger_requests : Queue
  pub shop_requests : Queue
  pub now : ℕ
  pub serial : ℕ

-- The keys of the photos that are stored, and how many random keys were drawn.
pub record Storage : Type 0 where
  pub photos : List String
  pub drawn : ℕ

abbrev pub Run : Type 0 → Type 0
Run A = Action Tables Storage A

pub record UserRef : Type 0 where
  pub id : String
  pub username : String

-- domain.ReviewDetail; `photo_url` and `can_edit` are not set by the database.
pub record ReviewDetail : Type 0 where
  pub review : Review
  pub user : UserRef
  pub burger : Burger
  pub photo_url : Option String
  pub can_edit : Bool

abbrev pub is_kept : String → ReviewRow → Bool
is_kept id r = str_eq r.review.id id && not r.discarded

abbrev joined : ReviewRow → Option UserRow → Option Burger → Result ReviewDetail
joined r none b = err review_not_found
joined r (some u) none = err review_not_found
joined r (some u) (some b) = ok (record {
  review = r.review;
  user = record { id = u.user.id; username = u.user.username };
  burger = b;
  photo_url = none;
  can_edit = false;
})

abbrev pub review_detail : Tables → Option ReviewRow → Result ReviewDetail
review_detail t none = err review_not_found
review_detail t (some r) =
    joined r (find (is_active_user r.review.author_id) t.users)
      (find (λ b. str_eq b.id r.review.burger_id) t.burgers)

-- ReviewQuery.GetReview
unfoldable pub get_review : String → Run ReviewDetail
get_review id = query (λ t. review_detail t (find (is_kept id) t.reviews))

-- ReviewQuery.GetShop
unfoldable pub get_shop : String → Run Shop
get_shop id = query (λ t. found_or shop_not_found (find (λ s. str_eq s.id id) t.shops))

abbrev pub is_link : String → String → Link → Bool
is_link shop_id burger_id l = str_eq l.shop_id shop_id && str_eq l.burger_id burger_id

-- ReviewQuery.GetShopBurger
unfoldable pub get_shop_burger : String → String → Run Burger
get_shop_burger shop_id burger_id = query (λ t.
    found_or burger_not_found
      (find (λ b. str_eq b.id burger_id && any (is_link shop_id b.id) t.links) t.burgers))

-- dateOrNull: the column holds a date.
abbrev pub date_or_null : Option ℕ → Option ℕ
date_or_null none = none
date_or_null (some t) = some (t - t % day)

abbrev pub edit_content : ℤ → String → Option ℕ → ReviewRow → ReviewRow
edit_content rating comment visited_at r = record r {
  review = record r.review {
    rating = rating;
    comment = some comment;
    visited_at = date_or_null visited_at;
  };
}

abbrev pub edit_photo_key : Option String → ReviewRow → ReviewRow
edit_photo_key key r = record r { review = record r.review { photo_key = key } }

abbrev pub discard_row : ReviewRow → ReviewRow
discard_row r = record r { discarded = true }

abbrev pub row_review : Option ReviewRow → Result Review
row_review none = err review_not_found
row_review (some r) = ok r.review

-- UPDATE ... WHERE id = $1 AND discarded_at IS NULL RETURNING ...
abbrev pub edit_kept : (ReviewRow → ReviewRow) → String → List ReviewRow → List ReviewRow
edit_kept edit id = map (λ r. if is_kept id r then edit r else r)

update_review : (ReviewRow → ReviewRow) → String → Tables → Result Review × Tables
update_review edit id t = (
  row_review (find (is_kept id) (edit_kept edit id t.reviews)),
  record t { reviews = edit_kept edit id t.reviews },
)

-- UpdateReviewContent
unfoldable pub update_review_content : String → ℤ → String → Option ℕ → Run Review
unfolding update_review
update_review_content id rating comment visited_at =
    statement (update_review (edit_content rating comment visited_at) id)

-- UpdateReviewPhotoKey
unfoldable pub update_review_photo_key : String → Option String → Run Review
unfolding update_review
update_review_photo_key id key = statement (update_review (edit_photo_key key) id)

-- UpdateReviewContentAndPhotoKey
unfoldable pub update_review_content_and_photo_key :
    String → ℤ → String → Option ℕ → Option String → Run Review
update_review_content_and_photo_key id rating comment visited_at key =
    transaction
      (do _ ← update_review_content id rating comment visited_at; update_review_photo_key id key)

-- The row is gone from the view of the others once it is discarded, found before it is.
discard_in : String → Tables → Result (Unit {0}) × Tables
discard_in id t = (
  if any (is_kept id) t.reviews then ok tt else err review_not_found,
  record t { reviews = edit_kept discard_row id t.reviews },
)

-- DiscardReview
unfoldable pub discard_review : String → Run (Unit {0})
unfolding discard_in
discard_review id = statement (discard_in id)

-- RequestRecalculation
request_in : String → Tables → Result (Unit {0}) × Tables
request_in burger_id t =
    (ok tt, record t { burger_requests = request_recalc burger_id t.burger_requests })

unfoldable pub request_recalculation : String → Run (Unit {0})
unfolding request_in
request_recalculation burger_id = statement (request_in burger_id)

abbrev pub shop_ids_of : String → List Link → List String
shop_ids_of burger_id links =
    map (λ (l : Link). l.shop_id) (keep (λ l. str_eq l.burger_id burger_id) links)

-- ListBurgerShopIDs; the caller sorts.
unfoldable pub list_burger_shop_ids : String → Run (List String)
list_burger_shop_ids burger_id = query (λ t. ok (shop_ids_of burger_id t.links))

-- The map `seen` and the list `shopIDs`, which holds the same ids.
add_unseen : List String → List String → List String
add_unseen seen [] = seen
add_unseen seen (id ∷ ids) =
    add_unseen (if any (λ s. str_eq s id) seen then seen else seen ++ (id ∷ [])) ids

unfoldable pub collect_shop_ids : List String → List String → Run (List String)
unfolding add_unseen
collect_shop_ids [] seen = succeed seen
collect_shop_ids (b ∷ bs) seen = do
  ids ← list_burger_shop_ids b
  collect_shop_ids bs (add_unseen seen ids)

-- slices.Sort: the order of the bytes is that of the code points.
insert_id : String → List String → List String
insert_id a [] = a ∷ []
insert_id a (b ∷ bs) =
    let rest = b ∷ insert_id a bs in (elim (compare a b) [ Ordering.gt ↦ rest | _ ↦ a ∷ b ∷ bs ])

sort_ids : List String → List String
sort_ids [] = []
sort_ids (a ∷ rest) = insert_id a (sort_ids rest)

request_shop_in : String → Tables → Result (Unit {0}) × Tables
request_shop_in shop_id t =
    (ok tt, record t { shop_requests = request_recalc shop_id t.shop_requests })

unfoldable pub request_shops : List String → Run (Unit {0})
unfolding request_shop_in
request_shops [] = succeed tt
request_shops (id ∷ ids) = do statement (request_shop_in id); request_shops ids

-- RequestRecalculationForBurgers
unfoldable pub request_recalculation_for_burgers : List String → Run (Unit {0})
unfolding collect_shop_ids request_shops insert_id sort_ids
request_recalculation_for_burgers burger_ids = do
  shop_ids ← collect_shop_ids burger_ids []
  request_shops (sort_ids shop_ids)

-- RequestRecalculationForBurger
unfoldable pub request_recalculation_for_burger : String → Run (Unit {0})
request_recalculation_for_burger burger_id = request_recalculation_for_burgers (burger_id ∷ [])

-- `new_id` gives the database's n-th random id.
module _ (new_id : ℕ → String) where
  abbrev pub new_row : Tables → Review → ReviewRow
  new_row t r = record {
    review = record r {
      id = new_id t.serial;
      created_at = t.now;
      visited_at = date_or_null r.visited_at;
    };
    discarded = false;
  }

  insert_review : Review → Tables → Result Review × Tables
  insert_review r t = (
    ok (new_row t r).review,
    record t { reviews = new_row t r ∷ t.reviews; serial = suc t.serial },
  )

  -- CreateReview
  unfoldable pub create_review : Review → Run Review
  unfolding insert_review
  create_review r = statement (insert_review r)

  abbrev new_burger : Tables → String → Burger
  new_burger t name = record { id = new_id t.serial; name = name }

  insert_burger : String → Tables → Result Burger × Tables
  insert_burger name t = (
    ok (new_burger t name),
    record t { burgers = t.burgers ++ (new_burger t name ∷ []); serial = suc t.serial },
  )

  insert_link : String → String → Tables → Result (Unit {0}) × Tables
  insert_link shop_id burger_id t =
      (ok tt, record t { links = record { shop_id = shop_id; burger_id = burger_id } ∷ t.links })

  create_linked : String → String → Option Burger → Run Burger
  unfolding insert_burger insert_link
  create_linked shop_id name (some b) = succeed b
  create_linked shop_id name none = do
    created ← statement (insert_burger name)
    statement (insert_link shop_id created.id)
    succeed created

  abbrev is_named : String → String → Tables → Burger → Bool
  is_named shop_id name t b = str_eq b.name name && any (is_link shop_id b.id) t.links

  -- CreateShopBurger
  unfoldable pub create_shop_burger : String → String → Run Burger
  unfolding create_linked
  create_shop_burger shop_id name = transaction (do
    found ← query (λ t. ok (find (is_named shop_id name t) t.burgers))
    create_linked shop_id name found)
