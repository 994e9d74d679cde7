-- ===== src/Examples/Reviews.antt =====
-- Writing reviews at concrete inputs.
use hamburger_evaluation.Base.{
  ℕ, ◌≡◌, refl, true, false, some, none, String, [], ◌∷◌, find, str_eq, pos, inl,
}
use hamburger_evaluation.Domain.Errors.{Result, ok, err, failure}
use hamburger_evaluation.Domain.Account.{User}
use hamburger_evaluation.Domain.Shop.{Shop, active, can_be_reviewed_by}
use hamburger_evaluation.Domain.Review.{
  Review, validate_review_content, new_review, can_be_modified_by, can_be_modified_by_viewer,
}
use hamburger_evaluation.Domain.Rules.Names.{validate_burger_name}
use hamburger_evaluation.Recalc.Queue.{Queue, request_recalc}
use hamburger_evaluation.Transaction.{Session, statement, transaction}
use hamburger_evaluation.Reviews.{
  Tables, Storage, Burger, ReviewRow, ReviewDetail, edit_kept, discard_row, get_review, get_shop,
  get_shop_burger, create_review, update_review_content, discard_review, request_recalculation,
  request_recalculation_for_burger, request_recalculation_for_burgers, collect_shop_ids,
  request_shops, list_burger_shop_ids,
}
use hamburger_evaluation.Reviews.Service.Burgers.{IsAt}
use hamburger_evaluation.Reviews.Service.Written.{IsKey, Edits}
use hamburger_evaluation.Reviews.Service.{
  Job, known, creating, open_create, open_update, open_delete, put_photo, save,
  delete_photo_best_effort, serve, create, update, delete,
}
use hamburger_evaluation.Reviews.Service.Effects.Saved.{Requested}
use hamburger_evaluation.Reviews.Service.Opened.{IsRead}
use hamburger_evaluation.Reviews.Photos.{
  Order, create_order, open_order, idle, opened, uploaded, leaving, State, moved, begin, store,
  write, Reach, here, next,
}
use hamburger_evaluation.Reviews.Photos.Invariant.{Stored}
use hamburger_evaluation.Reviews.Photos.Invariant.NoLostPhoto.{no_lost_photo}
use hamburger_evaluation.Reviews.Service.Outcomes.{
  create_exact, update_exact, delete_exact, writes-err,
}

abbrev author : User
author = record { id = "u1"; username = "patty"; bio = ""; email = "p@b.jp"; admin = false }

abbrev shop : Shop
shop = record {
  id = "s1";
  name = "Grill";
  status = active;
  moderation_note = none;
  map_url = none;
  creator_id = none;
  closed_at = none;
}

abbrev burger : Burger
burger = record { id = "b1"; name = "Cheese" }

abbrev no_requests : Queue
no_requests = record { rows = []; seq = 0 }

abbrev tables : Tables
tables = record {
  shops = shop ∷ [];
  users = record { user = author; password_digest = some "x"; discarded = false } ∷ [];
  burgers = burger ∷ [];
  links = record { shop_id = "s1"; burger_id = "b1" } ∷ [];
  reviews = [];
  burger_requests = no_requests;
  shop_requests = no_requests;
  now = 7;
  serial = 0;
}

abbrev start : Session Tables Storage
start = record { tables = tables; outside = record { photos = []; drawn = 0 }; faults = [] }

abbrev random : ℕ → String
random n = "00ff"

abbrev new_id : ℕ → String
new_id n = "r1"

abbrev url : String → String
url key = key

abbrev review : Review
review = record {
  id = "r1";
  rating = pos 4;
  comment = some "good";
  photo_key = some "reviews/00ff.jpg";
  author_id = "u1";
  burger_id = "b1";
  created_at = 7;
  visited_at = none;
}

abbrev detail : ReviewDetail
detail = record {
  review = review;
  user = record { id = "u1"; username = "patty" };
  burger = burger;
  photo_url = some "reviews/00ff.jpg";
  can_edit = true;
}

abbrev after_post : Session Tables Storage
after_post = record start {
  tables = record tables {
    reviews = record { review = review; discarded = false } ∷ [];
    burger_requests = request_recalc "b1" no_requests;
    shop_requests = request_recalc "s1" no_requests;
    serial = 1;
  };
  outside = record { photos = "reviews/00ff.jpg" ∷ []; drawn = 1 };
}

posted :
    create random new_id url author 9 "s1" "b1" "" (pos 4) "good" none (some ".jpg") start
    ≡ (ok detail, after_post)
unfolding create open_create serve put_photo save delete_photo_best_effort get_shop get_shop_burger
    create_review request_recalculation request_recalculation_for_burger
    request_recalculation_for_burgers collect_shop_ids request_shops list_burger_shop_ids
    can_be_reviewed_by new_review validate_review_content transaction statement request_recalc
    can_be_modified_by_viewer validate_burger_name
posted = refl

create_exact_example :
    (shop : Shop) × (r : ReviewRow) × (find (λ s. str_eq s.id "s1") tables.shops ≡ some shop)
    × (can_be_reviewed_by shop author ≡ true)
    × (validate_review_content (pos 4) "good" none 9 ≡ ok tt)
    × (after_post.tables.reviews ≡ r ∷ [])
    × (r.review ≡ review)
    × (r.review.author_id ≡ "u1")
    × (r.discarded ≡ false)
    × (r.review.rating ≡ pos 4)
    × (r.review.comment ≡ some "good")
    × (r.review.visited_at ≡ none)
    × IsKey (some ".jpg") (random 0) none r.review.photo_key
    × IsAt "s1" "b1" "" r.review.burger_id tables after_post.tables
    × Requested r.review.burger_id tables after_post.tables
create_exact_example =
    create_exact random new_id author start url 9 (pos 4) "good" none (some ".jpg") "s1" "b1" ""
      posted

abbrev edited : ReviewDetail
edited = record detail { review = record review { rating = pos 2; comment = some "cold" } }

abbrev after_edit : Session Tables Storage
after_edit = record after_post {
  tables = record after_post.tables {
    reviews = record { review = edited.review; discarded = false } ∷ [];
    burger_requests = request_recalc "b1" after_post.tables.burger_requests;
    shop_requests = request_recalc "s1" after_post.tables.shop_requests;
  };
}

changed :
    update random new_id url author 9 "r1" (pos 2) "cold" none none after_post
    ≡ (ok edited, after_edit)
unfolding update open_update serve put_photo save delete_photo_best_effort get_review
    update_review_content request_recalculation request_recalculation_for_burger
    request_recalculation_for_burgers collect_shop_ids request_shops list_burger_shop_ids
    can_be_modified_by validate_review_content transaction statement request_recalc
    can_be_modified_by_viewer
changed = refl

update_exact_example :
    (d : ReviewDetail) × IsRead "r1" d after_post.tables.reviews
    × (d.review.author_id ≡ "u1")
    × (validate_review_content (pos 2) "cold" none 9 ≡ ok tt)
    × Edits "r1"
        (pos 2)
        "cold"
        none
        none
        (random 1)
        after_post.tables.reviews
        after_edit.tables.reviews
    × IsRead "r1" edited after_edit.tables.reviews
    × Requested "b1" after_post.tables after_edit.tables
update_exact_example =
    update_exact random new_id author after_post url 9 (pos 2) "cold" none none "r1" changed

abbrev after_delete : Session Tables Storage
after_delete = record after_post {
  tables = record after_post.tables {
    reviews = record { review = review; discarded = true } ∷ [];
    burger_requests = request_recalc "b1" after_post.tables.burger_requests;
    shop_requests = request_recalc "s1" after_post.tables.shop_requests;
  };
  outside = record { photos = []; drawn = 1 };
}

deleted : delete random new_id author "r1" after_post ≡ (ok tt, after_delete)
unfolding delete open_delete serve put_photo save delete_photo_best_effort get_review discard_review
    request_recalculation request_recalculation_for_burger request_recalculation_for_burgers
    collect_shop_ids request_shops list_burger_shop_ids can_be_modified_by transaction statement
    request_recalc
deleted = refl

delete_exact_example :
    (d : ReviewDetail) × IsRead "r1" d after_post.tables.reviews
    × (d.review.author_id ≡ "u1")
    × (after_delete.tables.reviews ≡ edit_kept discard_row "r1" after_post.tables.reviews)
    × Requested d.review.burger_id after_post.tables after_delete.tables
delete_exact_example = delete_exact random new_id author after_post "r1" deleted

-- The storage refuses the photo of a new review.
abbrev shaky : Session Tables Storage
shaky = record start { faults = false ∷ false ∷ false ∷ true ∷ [] }

abbrev post : Result ReviewDetail × Session Tables Storage
post = create random new_id url author 9 "s1" "b1" "" (pos 4) "good" none (some ".jpg") shaky

writes-err_example :
    (post.0 ≡ err (failure "refused") → post.1.tables ≡ tables)
    × ((update random new_id url author 9 "r1" (pos 4) "good" none (some ".jpg") shaky).0
          ≡ err (failure "refused")
        → (update random new_id url author 9 "r1" (pos 4) "good" none (some ".jpg") shaky).1.tables
          ≡ tables)
    × ((delete random new_id author "r1" shaky).0 ≡ err (failure "refused")
        → (delete random new_id author "r1" shaky).1.tables ≡ tables)
writes-err_example =
    writes-err random new_id author shaky url 9 (pos 4) "good" none (some ".jpg") "s1" "b1" "" "r1"
      (failure "refused")

-- One request posts a review, and another that posts one has stored its photo.
abbrev order : Order
order = create_order author 9 "s1" "b1" "" (pos 4) "good" none

abbrev job : Job
job = creating author (known burger) (record review { id = ""; photo_key = none; created_at = 0 })

abbrev at_rest : State
at_rest = record { session = start; flights = λ i. idle; issued = [] }

abbrev begun_state : State
begun_state = moved 0 (opened job (some ".jpg")) start at_rest

abbrev stored_state : State
stored_state =
    record (moved 0 (uploaded job (some "reviews/00ff.jpg"))
      (record start { outside = record { photos = "reviews/00ff.jpg" ∷ []; drawn = 1 } })
      begun_state) { issued = "reviews/00ff.jpg" ∷ [] }

abbrev posted_state : State
posted_state = moved 0 (leaving none) after_post stored_state

posted_Reach : Reach random new_id at_rest posted_state
unfolding open_order open_create serve put_photo save delete_photo_best_effort get_shop
    get_shop_burger create_review request_recalculation request_recalculation_for_burger
    request_recalculation_for_burgers collect_shop_ids request_shops list_burger_shop_ids
    can_be_reviewed_by new_review validate_review_content transaction statement request_recalc
posted_Reach =
    next (next (next here (begin 0 order (some ".jpg") refl)) (store 0 job (some ".jpg") refl refl))
      (write 0 job (some "reviews/00ff.jpg") refl)

no_lost_photo_example : Stored "reviews/00ff.jpg" posted_state.session.outside.photos
no_lost_photo_example =
    no_lost_photo random new_id at_rest posted_state refl (λ i. refl) posted_Reach
      "reviews/00ff.jpg" (inl (refl, refl))
