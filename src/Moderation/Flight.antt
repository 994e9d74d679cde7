-- ===== src/Moderation/Flight.antt =====
-- Requests on shops in flight at the same time (usecase/shops.go): each reads, decides and writes,
-- and others may write in between.
use hamburger_evaluation.Base.{ℕ, ◌≡◌, Bool, true, false, Option, String, List, [], ◌∷◌, ◌++◌, any}
use hamburger_evaluation.Domain.Errors.{Result, ok}
use hamburger_evaluation.Domain.Url.{Url}
use hamburger_evaluation.Domain.Account.{User}
use hamburger_evaluation.Domain.Shop.{ShopStatus, pending}
use hamburger_evaluation.Moderation.{
  Shops, is_shop, Write, approve_shop, reject_shop, close_shop, reopen_shop, create_shop,
  admin_update_name, perform,
}

pub data Request : Type 0 where
  creating : User → String → String → Request
  renaming : User → String → String → String → Request
  approving : User → String → Request
  rejecting : User → String → Option String → Request
  closing : User → String → ℕ → Request
  reopening : User → String → Request

abbrev pub is_creating : Request → Bool
is_creating (Request.creating viewer n link) = true
is_creating _ = false

abbrev pub requester : Request → User
requester (Request.creating viewer n link) = viewer
requester (Request.renaming viewer id n link) = viewer
requester (Request.approving viewer id) = viewer
requester (Request.rejecting viewer id text) = viewer
requester (Request.closing viewer id now) = viewer
requester (Request.reopening viewer id) = viewer

abbrev pub is_pending : ShopStatus → Bool
is_pending pending = true
is_pending _ = false

-- `flight` are the writes that were decided and not performed yet.
pub record State : Type 0 where
  pub shops : Shops
  pub flight : List Write

module _ (parse : String → Option Url) where
  abbrev pub decide_write : Request → Shops → Result Write
  decide_write (Request.creating viewer n link) shops = create_shop parse viewer n link
  decide_write (Request.renaming viewer id n link) shops =
      admin_update_name parse viewer id n link shops
  decide_write (Request.approving viewer id) shops = approve_shop viewer id shops
  decide_write (Request.rejecting viewer id text) shops = reject_shop viewer id text shops
  decide_write (Request.closing viewer id now) shops = close_shop viewer id now shops
  decide_write (Request.reopening viewer id) shops = reopen_shop viewer id shops

  -- The id of a new shop is new.
  pub data Step (s : State) : State → Type 0 where
    read :
        (r : Request) (w : Write)
        → decide_write r s.shops ≡ ok w
        → Step s (record s { flight = w ∷ s.flight })
    write :
        (new_id : String) (w : Write) (before after : List Write)
        → any (is_shop new_id) s.shops ≡ false
        → s.flight ≡ before ++ (w ∷ after)
        → Step s (record { shops = perform new_id w s.shops; flight = before ++ after })

  pub data Reach : State → Type 0 where
    here : Reach (record { shops = []; flight = [] })
    next : {s t : State} → Reach s → Step s t → Reach t
