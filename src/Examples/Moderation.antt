-- ===== src/Examples/Moderation.antt =====
-- The moderation of a shop at concrete inputs.
use hamburger_evaluation.Base.{◌≡◌, refl, true, Option, none, some, String, [], ◌∷◌, All, ◌⊎◌}
use hamburger_evaluation.Domain.Errors.{ok}
use hamburger_evaluation.Domain.Rules.Chars.{trim_space, is_space, exceeds_chars}
use hamburger_evaluation.Domain.Rules.Names.{validate_shop_name}
use hamburger_evaluation.Domain.Url.{Url, validate_map_url}
use hamburger_evaluation.Domain.Account.{User, can_moderate}
use hamburger_evaluation.Domain.Shop.{Shop, pending, new_shop_submission, approve}
use hamburger_evaluation.Moderation.{Write, get_shop, create_shop, approve_shop, perform}
use hamburger_evaluation.Moderation.Flight.{Request, State, Step, Reach, decide_write, is_creating}
use hamburger_evaluation.Moderation.Writes.{IsSound}
use hamburger_evaluation.Moderation.Lifecycle.{Reach-IsSound, decide_write-allowed}

abbrev parse : String → Option Url
parse s = none

abbrev admin : User
admin = record { id = "u1"; username = "patty"; bio = ""; email = "p@b.jp"; admin = true }

abbrev grill : Shop
grill = record {
  id = "";
  name = "Grill";
  status = pending;
  moderation_note = none;
  map_url = none;
  creator_id = some "u1";
  closed_at = none;
}

submitted : decide_write parse (Request.creating admin "Grill" "") [] ≡ ok (Write.insert grill)
unfolding create_shop new_shop_submission validate_shop_name validate_map_url trim_space is_space
    exceeds_chars
submitted = refl

abbrev stored : State
stored = record { shops = record grill { id = "s1" } ∷ []; flight = [] }

inserted : perform "s1" (Write.insert grill) [] ≡ stored.shops
unfolding perform
inserted = refl

reached_submission :
    Reach parse (record { shops = perform "s1" (Write.insert grill) []; flight = [] })
reached_submission =
    Reach.next
      (Reach.next Reach.here
        (Step.read (Request.creating admin "Grill" "") (Write.insert grill) submitted))
      (Step.write "s1" (Write.insert grill) [] [] refl refl)

approved :
    decide_write parse (Request.approving admin "s1") stored.shops
    ≡ ok (Write.status "s1" (approve (record grill { id = "s1" })))
unfolding approve_shop can_moderate get_shop
approved = refl

abbrev approval : Write
approval = Write.status "s1" (approve (record grill { id = "s1" }))

reached : Reach parse (record { shops = perform "s2" approval stored.shops; flight = [] })
unfolding perform
reached =
    Reach.next
      (Reach.next reached_submission (Step.read (Request.approving admin "s1") approval approved))
      (Step.write "s2" approval [] [] refl refl)

Reach-IsSound_example : All IsSound (perform "s2" approval stored.shops)
Reach-IsSound_example =
    Reach-IsSound parse (record { shops = perform "s2" approval stored.shops; flight = [] }) reached

decide_write-allowed_example :
    (is_creating (Request.approving admin "s1") ≡ true) ⊎ (admin.admin ≡ true)
decide_write-allowed_example =
    decide_write-allowed parse (Request.approving admin "s1") stored.shops approval approved
