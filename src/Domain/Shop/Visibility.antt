-- ===== src/Domain/Shop/Visibility.antt =====
-- Who may see a shop and who may review it.
use hamburger_evaluation.Base.{◌≡◌, ◌≢◌, ◌↔◌, ◌⊎◌, true, Option, none, some, String, arith, eq_iff}
use hamburger_evaluation.Domain.Account.{User}
use hamburger_evaluation.Domain.Shop.{
  Shop, pending, active, is_id, can_be_reviewed_by, can_be_reviewed_by_viewer, shop_visibility_for,
  can_view,
}

-- The viewer is signed in, and an admin or the shop's creator.
abbrev pub IsInsider : Option User → Shop → Type 0
IsInsider none s = ⊥
IsInsider (some v) s = (v.admin ≡ true) ⊎ (s.creator_id ≡ some v.id)

is_id_iff : (o : Option String) (id : String) → (is_id o id ≡ true) ↔ (o ≡ some id)
is_id_iff none id = ground arith
is_id_iff (some c) id = ground (arith, eq_iff c id)

-- A shop is visible exactly when it is active or the viewer is an admin or its creator, whether it
-- is closed or not.
pub can_view_iff :
    (viewer : Option User) (s : Shop)
    → (can_view (shop_visibility_for viewer) s ≡ true) ↔ ((s.status ≡ active) ⊎ IsInsider viewer s)
unfolding can_view shop_visibility_for
can_view_iff none s = ground arith
can_view_iff (some v) s = ground (arith, is_id_iff s.creator_id v.id)

-- A shop takes reviews of a viewer exactly when the viewer is signed in, the shop is not closed,
-- and it is active, or pending with the viewer an admin or its creator. A rejected or a closed shop
-- takes none, not even of an admin.
pub can_be_reviewed_by_viewer_iff :
    (viewer : Option User) (s : Shop)
    → (can_be_reviewed_by_viewer s viewer ≡ true) ↔ (
        (viewer ≢ none)
        × (s.closed_at ≡ none)
        × ((s.status ≡ active) ⊎ ((s.status ≡ pending) × IsInsider viewer s)))
unfolding can_be_reviewed_by_viewer can_be_reviewed_by
can_be_reviewed_by_viewer_iff none s = ground arith
can_be_reviewed_by_viewer_iff (some v) s = ground (arith, is_id_iff s.creator_id v.id)

-- Whoever may review a shop may see it.
pub can_view-can_be_reviewed :
    (viewer : Option User) (s : Shop)
    → can_be_reviewed_by_viewer s viewer ≡ true
    → can_view (shop_visibility_for viewer) s ≡ true
can_view-can_be_reviewed viewer s h =
    ground (arith, can_view_iff viewer s, can_be_reviewed_by_viewer_iff viewer s)
