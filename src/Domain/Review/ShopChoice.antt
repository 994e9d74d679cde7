-- ===== src/Domain/Review/ShopChoice.antt =====
-- The shop of a review, as one viewer is shown it.
use hamburger_evaluation.Base.{
  ◌≡◌, refl, Bool, true, false, Option, none, some, List, [], ◌∷◌, arith, find, keep,
}
use hamburger_evaluation.Domain.Account.{User}
use hamburger_evaluation.Domain.Shop.{
  Shop, ShopRef, ref, can_be_reviewed_by_viewer, shop_visibility_for, can_view,
}
use hamburger_evaluation.Domain.Shop.Visibility.{can_view-can_be_reviewed}
use hamburger_evaluation.Domain.Review.{choose_shop, review_shop_for, ref_of}

module _ (viewer : Option User) where
  abbrev pub may_review : Shop → Bool
  may_review s = can_be_reviewed_by_viewer s viewer

  abbrev pub may_see : Shop → Bool
  may_see s = can_view (shop_visibility_for viewer) s

  -- The choice as the rule states it: the first shop that takes the viewer's reviews, else the
  -- first that the viewer sees.
  abbrev pub choice : Option Shop → Option Shop → Option ShopRef × Bool
  choice (some s) seen = (some (ref s), true)
  choice none seen = (ref_of seen, false)

  abbrev or_first : Option Shop → List Shop → Option Shop
  or_first none shops = find may_see shops
  or_first (some s) shops = some s

  choose_shop-eq-choice :
      (visible : Option Shop) (shops : List Shop)
      → choose_shop viewer visible shops ≡ choice (find may_review shops) (or_first visible shops)
  unfolding choose_shop
  choose_shop-eq-choice none [] = refl
  choose_shop-eq-choice (some v) [] = refl
  choose_shop-eq-choice none (s ∷ shops) =
      ground (arith, choose_shop-eq-choice none shops, choose_shop-eq-choice (some s) shops)
  choose_shop-eq-choice (some v) (s ∷ shops) = ground (arith, choose_shop-eq-choice (some v) shops)

  -- The loop returns the first shop that takes the viewer's reviews, with `true`, and where there
  -- is none the first that the viewer sees, with `false`.
  pub review_shop_for-eq-choice :
      (shops : List Shop)
      → review_shop_for shops viewer ≡ choice (find may_review shops) (find may_see shops)
  unfolding review_shop_for
  review_shop_for-eq-choice shops = choose_shop-eq-choice none shops

  find-may_review-keep :
      (shops : List Shop) → find may_review (keep may_see shops) ≡ find may_review shops
  find-may_review-keep [] = refl
  find-may_review-keep (s ∷ shops) =
      ground (arith, find-may_review-keep shops, can_view-can_be_reviewed viewer s)

  find-may_see-keep : (shops : List Shop) → find may_see (keep may_see shops) ≡ find may_see shops
  find-may_see-keep [] = refl
  find-may_see-keep (s ∷ shops) = ground (arith, find-may_see-keep shops)

  -- Shops that the viewer may not see have no influence on the answer, so it cannot give them away.
  pub review_shop_for-hidden :
      (shops : List Shop)
      → review_shop_for (keep may_see shops) viewer ≡ review_shop_for shops viewer
  review_shop_for-hidden shops = ground (
    arith,
    review_shop_for-eq-choice (keep may_see shops),
    review_shop_for-eq-choice shops,
    find-may_review-keep shops,
    find-may_see-keep shops,
  )
