-- ===== src/Moderation.antt =====
-- The use cases around a shop, usecase/shops.go, over the columns that each write of
-- adapter/repository/shop_repository.go touches. A shop is read in one statement and written in
-- another, so that requests of other moderators may come in between.
pub mod Flight
pub mod Writes
pub mod Lifecycle
use hamburger_evaluation.Base.{
  ℕ, ◌≡◌, refl, Bool, true, false, not, Option, none, some, String, List, [], ◌∷◌, str_eq,
  if◌then◌else◌, find, map, any,
}
use hamburger_evaluation.Domain.Errors.{
  Result, ok, err, forbidden, shop_not_found, validation, msg, ◌>>=◌, ◌>>◌,
}
use hamburger_evaluation.Domain.Rules.Names.{validate_shop_name, validate_moderation_note}
use hamburger_evaluation.Domain.Url.{Url, validate_map_url}
use hamburger_evaluation.Domain.Account.{User, can_moderate}
use hamburger_evaluation.Domain.Shop.{
  Shop, ShopStatus, new_shop_submission, approve, reject, can_be_closed, can_be_reopened, close,
  reopen,
}

-- The table of shops.
abbrev pub Shops : Type 0
Shops = List Shop

abbrev pub is_shop : String → Shop → Bool
is_shop id s = str_eq s.id id

abbrev found : Option Shop → Result Shop
found none = err shop_not_found
found (some s) = ok s

-- ShopQuery.GetShopWithCreator
unfoldable pub get_shop : String → Shops → Result Shop
get_shop id shops = found (find (is_shop id) shops)

-- UPDATE shops SET ... WHERE id = ...
change : (Shop → Shop) → String → Shops → Shops
change f id [] = []
change f id (s ∷ shops) = let rest = change f id shops in (if is_shop id s then f s else s) ∷ rest

-- UpdateShopStatus: the status and the note, and no other column.
unfoldable pub update_shop_status : String → Shop → Shops → Shops
unfolding change
update_shop_status id next =
    change (λ s. record s { status = next.status; moderation_note = next.moderation_note }) id

-- UpdateShopClosedAt
unfoldable pub update_shop_closed_at : String → Option ℕ → Shops → Shops
unfolding change
update_shop_closed_at id closed_at = change (λ s. record s { closed_at = closed_at }) id

-- UpdateShopName
unfoldable pub update_shop_name : String → String → Option String → Shops → Shops
unfolding change
update_shop_name id name map_url = change (λ s. record s { name = name; map_url = map_url }) id

abbrev moderator : User → Result (Unit {0})
moderator viewer = if can_moderate viewer then ok tt else err forbidden

-- What a request does after its checks: one write, or none.
pub data Write : Type 0 where
  insert : Shop → Write
  status : String → Shop → Write
  closed_at : String → Option ℕ → Write
  name : String → String → Option String → Write

-- The part of each request up to its write; `shops` is what it reads.
unfoldable pub approve_shop : User → String → Shops → Result Write
approve_shop viewer id shops = do
  moderator viewer
  s ← get_shop id shops
  ok (status id (approve s))

unfoldable pub reject_shop : User → String → Option String → Shops → Result Write
reject_shop viewer id note shops = do
  moderator viewer
  validate_moderation_note note
  s ← get_shop id shops
  ok (status id (reject note s))

abbrev require : Bool → String → Result (Unit {0})
require b key = if b then ok tt else err (validation (msg key [] ∷ []))

unfoldable pub close_shop : User → String → ℕ → Shops → Result Write
close_shop viewer id now shops = do
  moderator viewer
  s ← get_shop id shops
  require (can_be_closed s) "shop.cannot_close"
  ok (closed_at id (close now s).closed_at)

unfoldable pub reopen_shop : User → String → Shops → Result Write
reopen_shop viewer id shops = do
  moderator viewer
  s ← get_shop id shops
  require (can_be_reopened s) "shop.cannot_reopen"
  ok (closed_at id (reopen s).closed_at)

module _ (parse : String → Option Url) where
  unfoldable pub create_shop : User → String → String → Result Write
  create_shop viewer shop_name map_url = do
    s ← new_shop_submission parse shop_name viewer.id map_url
    ok (insert s)

  unfoldable pub admin_update_name : User → String → String → String → Shops → Result Write
  admin_update_name viewer id shop_name map_url shops = do
    moderator viewer
    validate_shop_name shop_name
    link ← validate_map_url parse map_url
    s ← get_shop id shops
    ok (name id shop_name link)

-- The write, with the id that the database gives to a new shop.
unfoldable pub perform : String → Write → Shops → Shops
perform new_id (insert s) shops = record s { id = new_id } ∷ shops
perform new_id (status id next) shops = update_shop_status id next shops
perform new_id (closed_at id at) shops = update_shop_closed_at id at shops
perform new_id (name id shop_name link) shops = update_shop_name id shop_name link shops
