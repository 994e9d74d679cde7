-- ===== src/Domain/Shop.antt =====
-- domain/shop.go: shops, their moderation and closing, and who may see and review them.
pub mod Visibility
use hamburger_evaluation.Base.{
  ℕ, ◌≡◌, refl, Bool, true, false, not, ◌&&◌, ◌||◌, Option, none, some, String, List, [], ◌∷◌,
  arith, str_eq, if◌then◌else◌,
}
use hamburger_evaluation.Domain.Errors.{Result, ok, err, ◌>>=◌, ◌>>◌}
use hamburger_evaluation.Domain.Rules.Names.{validate_shop_name}
use hamburger_evaluation.Domain.Url.{Url, validate_map_url}
use hamburger_evaluation.Domain.Account.{User}

pub data ShopStatus : Type 0 where
  pending active rejected : ShopStatus

-- A time is a number of nanoseconds since the zero time; a nil pointer is `none`.
pub record Shop : Type 0 where
  pub id : String
  pub name : String
  pub status : ShopStatus
  pub moderation_note : Option String
  pub map_url : Option String
  pub creator_id : Option String
  pub closed_at : Option ℕ

abbrev pub is_some {ℓ} : {A : Type ℓ} → Option A → Bool
is_some none = false
is_some (some a) = true

-- `s.CreatorID != nil && *s.CreatorID == id`
abbrev pub is_id : Option String → String → Bool
is_id none id = false
is_id (some creator) id = str_eq creator id

unfoldable pub new_shop_submission : (String → Option Url) → String → String → String → Result Shop
new_shop_submission parse name creator_id map_url = do
  validate_shop_name name
  normalized ← validate_map_url parse map_url
  ok (record {
    id = "";
    name = name;
    status = pending;
    moderation_note = none;
    map_url = normalized;
    creator_id = some creator_id;
    closed_at = none;
  })

unfoldable pub approve : Shop → Shop
approve s = record s { status = active; moderation_note = none }

unfoldable pub reject : Option String → Shop → Shop
reject note s = record s { status = rejected; moderation_note = note }

abbrev pub is_active : ShopStatus → Bool
is_active active = true
is_active _ = false

abbrev pub is_rejected : ShopStatus → Bool
is_rejected rejected = true
is_rejected _ = false

unfoldable pub can_be_approved : Shop → Bool
can_be_approved s = not (is_active s.status)

unfoldable pub can_be_rejected : Shop → Bool
can_be_rejected s = not (is_rejected s.status)

unfoldable pub can_be_closed : Shop → Bool
can_be_closed s = is_active s.status && not (is_some s.closed_at)

unfoldable pub can_be_reopened : Shop → Bool
can_be_reopened s = is_some s.closed_at

unfoldable pub close : ℕ → Shop → Shop
close t s = record s { closed_at = some t }

unfoldable pub reopen : Shop → Shop
reopen s = record s { closed_at = none }

-- The `switch` on the status.
reviewable : ShopStatus → Shop → User → Bool
reviewable active s viewer = true
reviewable pending s viewer = viewer.admin || is_id s.creator_id viewer.id
reviewable rejected s viewer = false

unfoldable pub can_be_reviewed_by : Shop → User → Bool
unfolding reviewable
can_be_reviewed_by s viewer = if is_some s.closed_at then false else reviewable s.status s viewer

unfoldable pub can_be_reviewed_by_viewer : Shop → Option User → Bool
unfolding can_be_reviewed_by
can_be_reviewed_by_viewer s none = false
can_be_reviewed_by_viewer s (some viewer) = can_be_reviewed_by s viewer

pub record ShopVisibility : Type 0 where
  pub view_all : Bool
  pub viewer_id : Option String

unfoldable pub shop_visibility_for : Option User → ShopVisibility
shop_visibility_for none = record { view_all = false; viewer_id = none }
shop_visibility_for (some viewer) =
    if viewer.admin
    then record { view_all = true; viewer_id = none }
    else record { view_all = false; viewer_id = some viewer.id }

abbrev same_id : Option String → Option String → Bool
same_id none creator = false
same_id (some id) creator = is_id creator id

unfoldable pub can_view : ShopVisibility → Shop → Bool
can_view v shop =
    if v.view_all || is_active shop.status then true else same_id v.viewer_id shop.creator_id

pub record ShopRef : Type 0 where
  pub id : String
  pub name : String

abbrev pub ref : Shop → ShopRef
ref s = record { id = s.id; name = s.name }
