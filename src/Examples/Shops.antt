-- ===== src/Examples/Shops.antt =====
-- Accounts, shops and reviews at concrete inputs.
use hamburger_evaluation.Base.{
  ℕ, ◌≤◌, ◌≡◌, ◌≢◌, refl, ◌↔◌, ◌⊎◌, inr, true, false, none, some, List, [], ◌∷◌, find, arith, pos,
  str_eq, eq_iff,
}
use hamburger_evaluation.Base.Text.{rune_count}
use hamburger_evaluation.Domain.Errors.{ok}
use hamburger_evaluation.Domain.Rules.Chars.{exceeds_chars}
use hamburger_evaluation.Domain.Account.{User, IsOwner}
use hamburger_evaluation.Domain.Shop.{
  Shop, can_be_reviewed_by_viewer, shop_visibility_for, can_view, pending, active,
}
use hamburger_evaluation.Domain.Shop.Visibility.{
  IsInsider, can_view_iff, can_be_reviewed_by_viewer_iff,
}
use hamburger_evaluation.Domain.Review.{
  Review, validate_review_content, new_review, review_shop_for, can_be_modified_by_viewer,
}
use hamburger_evaluation.Domain.Review.Content.{
  IsRating, IsPast, validate_review_content-eq-ok_iff, can_be_modified_by_viewer_iff,
}
use hamburger_evaluation.Domain.Review.ShopChoice.{
  may_review, may_see, choice, review_shop_for-eq-choice,
}

abbrev owner : User
owner = record { id = "u1"; username = "patty"; bio = ""; email = "p@b.jp"; admin = false }

abbrev guest : User
guest = record { id = "u2"; username = "bun"; bio = ""; email = "b@b.jp"; admin = false }

abbrev pending_shop : Shop
pending_shop = record {
  id = "s1";
  name = "Grill";
  status = pending;
  moderation_note = none;
  map_url = none;
  creator_id = some "u1";
  closed_at = none;
}

abbrev open_shop : Shop
open_shop = record pending_shop { id = "s2"; status = active }

not_owner : IsOwner owner (some guest) → ⊥
not_owner h = let k : str_eq "u2" "u1" ≡ true = (eq_iff "u2" "u1").1 h in cc

can_view_iff_example :
    (can_view (shop_visibility_for (some owner)) pending_shop ≡ true)
    ↔ ((pending ≡ active) ⊎ IsInsider (some owner) pending_shop)
can_view_iff_example = can_view_iff (some owner) pending_shop

can_be_reviewed_by_viewer_iff_example :
    (can_be_reviewed_by_viewer pending_shop (some owner) ≡ true) ↔ (
      (some owner ≢ none)
      × (pending_shop.closed_at ≡ none)
      × ((pending ≡ active) ⊎ ((pending ≡ pending) × IsInsider (some owner) pending_shop)))
can_be_reviewed_by_viewer_iff_example = can_be_reviewed_by_viewer_iff (some owner) pending_shop

may_review_pending : can_be_reviewed_by_viewer pending_shop (some owner) ≡ true
may_review_pending =
    (can_be_reviewed_by_viewer_iff (some owner) pending_shop).1
      ((λ h. cc), refl, inr (refl, inr refl))

abbrev shops : List Shop
shops = pending_shop ∷ open_shop ∷ []

review_shop_for-eq-choice_example :
    review_shop_for shops (some guest)
    ≡ choice (some guest) (find (may_review (some guest)) shops) (find (may_see (some guest)) shops)
review_shop_for-eq-choice_example = review_shop_for-eq-choice (some guest) shops

abbrev visited : ℕ
visited = 86400000000000

validate_review_content-eq-ok_iff_example :
    (validate_review_content (pos 4) "Juicy" (some visited) 90000000000000 ≡ ok tt)
    ↔ (IsRating (pos 4) × (rune_count "Juicy" ≤ 2000) × IsPast (some visited) 90000000000000)
validate_review_content-eq-ok_iff_example =
    validate_review_content-eq-ok_iff (pos 4) "Juicy" (some visited) 90000000000000 refl

accepted : validate_review_content (pos 4) "Juicy" none 5 ≡ ok tt
accepted =
    (validate_review_content-eq-ok_iff (pos 4) "Juicy" none 5 tt).1
      ((ground arith, ground arith), ground arith, tt)

abbrev juicy : Review
juicy = record {
  id = "";
  rating = pos 4;
  comment = some "Juicy";
  photo_key = none;
  author_id = "u1";
  burger_id = "b1";
  created_at = 0;
  visited_at = none;
}

created : new_review (pos 4) "Juicy" "u1" "b1" none 5 ≡ ok juicy
unfolding new_review validate_review_content exceeds_chars
created = refl

can_be_modified_by_viewer_iff_example :
    (can_be_modified_by_viewer juicy (some owner) ≡ true)
    ↔ ((u : User) × (some owner ≡ some u) × (u.id ≡ "u1"))
can_be_modified_by_viewer_iff_example = can_be_modified_by_viewer_iff juicy (some owner)
