-- ===== src/Moderation/Lifecycle.antt =====
-- What holds of every shop, however the requests of moderators interleave.
use hamburger_evaluation.Base.{
  ◌≡◌, refl, sym, ap, ◌∙◌, Bool, true, false, Option, none, some, String, List, [], ◌∷◌, ◌++◌, any,
  All, arith, Bool-cases, inl, inr, ◌⊎◌, eq_iff,
}
use hamburger_evaluation.Domain.Errors.{ok, >>=-eq-ok}
use hamburger_evaluation.Domain.Rules.Names.{
  validate_shop_name, validate_moderation_note, validate_shop_name-eq-ok_iff,
}
use hamburger_evaluation.Domain.Url.{Url, validate_map_url}
use hamburger_evaluation.Domain.Account.{User, can_moderate}
use hamburger_evaluation.Domain.Shop.{
  Shop, ShopStatus, pending, active, rejected, is_active, new_shop_submission, approve, reject,
  can_be_closed, can_be_reopened, close, reopen,
}
use hamburger_evaluation.Moderation.{
  Shops, is_shop, found, get_shop, moderator, require, Write, approve_shop, reject_shop, close_shop,
  reopen_shop, create_shop, admin_update_name, perform,
}
use hamburger_evaluation.Moderation.Flight.{
  Request, is_pending, State, decide_write, Step, read, write, Reach, here, next, is_creating,
  requester,
}
use hamburger_evaluation.Moderation.Writes.{
  IsSound, IsDecided, IsSafe, perform-IsSound, perform-IsSafe, IsKeyed, perform-IsKeyed,
}

get_shop-found :
    (id : String) (shops : Shops) (s : Shop)
    → get_shop id shops ≡ ok s
    → any (is_shop id) shops ≡ true
unfolding get_shop
get_shop-found id [] s h = absurd (ground arith)
get_shop-found id (x ∷ shops) s h = elim (Bool-cases (is_shop id x)) [
  | inl e ↦ ground arith
  | inr e ↦ ground (arith, get_shop-found id shops s)
]

absent-IsDecided :
    (id : String) (shops : Shops) → any (is_shop id) shops ≡ false → All (IsDecided id) shops
absent-IsDecided id [] h = tt
absent-IsDecided id (s ∷ shops) h =
    (λ e. absurd (ground arith), absent-IsDecided id shops (ground arith))

get_shop-IsDecided :
    (id : String) (shops : Shops) (s : Shop)
    → IsKeyed shops
    → get_shop id shops ≡ ok s
    → is_pending s.status ≡ false
    → All (IsDecided id) shops
unfolding get_shop IsKeyed
get_shop-IsDecided id [] s k h a = tt
get_shop-IsDecided id (x ∷ shops) s k h a = elim (Bool-cases (is_shop id x)) [
  | inl e ↦
      let f : found (some x) ≡ ok s = ground arith in
      let same : x ≡ s = cc in
      let name : x.id ≡ id = (eq_iff x.id id).0 e in
      (
        λ _. ap (λ (y : Shop). is_pending y.status) same ∙ a,
        absent-IsDecided id shops (ap (λ i. any (is_shop i) shops) (sym name) ∙ k.0),
      )
  | inr e ↦
      let f : get_shop id shops ≡ ok s = ground arith in
      (λ c. absurd (ground arith), get_shop-IsDecided id shops s k.1 f a)
]

ok-eq : {a b : Shop} → ok a ≡ ok b → a ≡ b
ok-eq h = cc

require-ok : (b : Bool) (key : String) {u : Unit {0}} → require b key ≡ ok u → b ≡ true
require-ok true key h = refl
require-ok false key h = cc

active-decided : (st : ShopStatus) → is_active st ≡ true → is_pending st ≡ false
active-decided pending h = cc
active-decided active h = refl
active-decided rejected h = refl

can_be_closed-decided : (s : Shop) → can_be_closed s ≡ true → is_pending s.status ≡ false
unfolding can_be_closed
can_be_closed-decided s h = active-decided s.status (ground arith)

module _ (parse : String → Option Url) where
  new_shop_submission-IsSound :
      (n creator link : String) (s : Shop)
      → new_shop_submission parse n creator link ≡ ok s
      → IsSound s
  unfolding new_shop_submission
  new_shop_submission-IsSound n creator link s h =
      let a = >>=-eq-ok (validate_shop_name n) _ h in
      let b = >>=-eq-ok (validate_map_url parse link) _ a.2 in
      let named = (validate_shop_name-eq-ok_iff n).0 a.1 in
      rw (← ok-eq b.2) (record { noted = λ x. cc; once_active = λ x. cc; named = named })

  decide_write-IsSafe :
      (r : Request) (shops : Shops) (w : Write)
      → IsKeyed shops
      → decide_write parse r shops ≡ ok w
      → IsSafe shops w
  unfolding create_shop admin_update_name approve_shop reject_shop close_shop reopen_shop approve
      reject close reopen
  decide_write-IsSafe (Request.creating viewer n link) shops w k h =
      let a = >>=-eq-ok (new_shop_submission parse n viewer.id link) _ h in
      let e : Write.insert a.0 ≡ w = (let q = a.2 in cc) in
      rw (← e) (new_shop_submission-IsSound n viewer.id link a.0 a.1)
  decide_write-IsSafe (Request.renaming viewer id n link) shops w k h =
      let a = >>=-eq-ok (moderator viewer) _ h in
      let b = >>=-eq-ok (validate_shop_name n) _ a.2 in
      let c = >>=-eq-ok (validate_map_url parse link) _ b.2 in
      let d = >>=-eq-ok (get_shop id shops) _ c.2 in
      let e : Write.name id n c.0 ≡ w = (let q = d.2 in cc) in
      rw (← e) ((validate_shop_name-eq-ok_iff n).0 b.1)
  decide_write-IsSafe (Request.approving viewer id) shops w k h =
      let a = >>=-eq-ok (moderator viewer) _ h in
      let d = >>=-eq-ok (get_shop id shops) _ a.2 in
      let e : Write.status id (approve d.0) ≡ w = (let q = d.2 in cc) in rw (← e) ((λ x. cc, refl))
  decide_write-IsSafe (Request.rejecting viewer id text) shops w k h =
      let a = >>=-eq-ok (moderator viewer) _ h in
      let b = >>=-eq-ok (validate_moderation_note text) _ a.2 in
      let d = >>=-eq-ok (get_shop id shops) _ b.2 in
      let e : Write.status id (reject text d.0) ≡ w = (let q = d.2 in cc) in
      rw (← e) ((λ x. refl, refl))
  decide_write-IsSafe (Request.closing viewer id now) shops w k h =
      let a = >>=-eq-ok (moderator viewer) _ h in
      let d = >>=-eq-ok (get_shop id shops) _ a.2 in
      let r = >>=-eq-ok (require (can_be_closed d.0) "shop.cannot_close") _ d.2 in
      let e : Write.closed_at id (some now) ≡ w = (let q = r.2 in cc) in
      let free =
        can_be_closed-decided d.0 (require-ok (can_be_closed d.0) "shop.cannot_close" r.1) in
      rw (← e) ((get_shop-found id shops d.0 d.1, get_shop-IsDecided id shops d.0 k d.1 free))
  decide_write-IsSafe (Request.reopening viewer id) shops w k h =
      let a = >>=-eq-ok (moderator viewer) _ h in
      let d = >>=-eq-ok (get_shop id shops) _ a.2 in
      let r = >>=-eq-ok (require (can_be_reopened d.0) "shop.cannot_reopen") _ d.2 in
      let e : Write.closed_at id none ≡ w = (let q = r.2 in cc) in rw (← e) tt

  All-IsSafe :
      (new_id : String) (w : Write) (shops : Shops)
      → any (is_shop new_id) shops ≡ false
      → IsSafe shops w
      → (ws : List Write) → All (IsSafe shops) ws
      → All (IsSafe (perform new_id w shops)) ws
  All-IsSafe new_id w shops n k [] h = tt
  All-IsSafe new_id w shops n k (v ∷ ws) h =
      (perform-IsSafe new_id w shops n k v h.0, All-IsSafe new_id w shops n k ws h.1)

  All-without :
      (P : Write → Type 0) (before : List Write) (w : Write) (after : List Write)
      → All P (before ++ (w ∷ after))
      → P w × All P (before ++ after)
  All-without P [] w after h = h
  All-without P (v ∷ before) w after h =
      let r = All-without P before w after h.1 in (r.0, (h.0, r.1))

  record Inv (s : State) : Type 0 where
    keyed : IsKeyed s.shops
    sound : All IsSound s.shops
    safe : All (IsSafe s.shops) s.flight

  Step-Inv : (s t : State) → Inv s → Step parse s t → Inv t
  Step-Inv s t i (read r w e) = record {
    keyed = i.keyed;
    sound = i.sound;
    safe = (decide_write-IsSafe r s.shops w i.keyed e, i.safe);
  }
  Step-Inv s t i (write new_id w before after n e) =
      let all : All (IsSafe s.shops) (before ++ (w ∷ after)) = rw (← e) i.safe in
      let parts = All-without (IsSafe s.shops) before w after all in
      record {
        keyed = perform-IsKeyed new_id w s.shops n i.keyed;
        sound = perform-IsSound new_id w s.shops parts.0 i.sound;
        safe = All-IsSafe new_id w s.shops n parts.0 (before ++ after) parts.1;
      }

  Reach-Inv : (s : State) → Reach parse s → Inv s
  unfolding IsKeyed
  Reach-Inv s here = record { keyed = tt; sound = tt; safe = tt }
  Reach-Inv t (next {s = m} r st) = Step-Inv m t (Reach-Inv m r) st

  -- In every state that requests of any number of users and moderators reach together, however
  -- their readings and writes interleave, each shop has a valid name, a note of moderation only if
  -- it is rejected, and is closed only if it is not pending.
  pub Reach-IsSound : (s : State) → Reach parse s → All IsSound s.shops
  Reach-IsSound s r = (Reach-Inv s r).sound

  moderator-ok : (viewer : User) {u : Unit {0}} → moderator viewer ≡ ok u → viewer.admin ≡ true
  unfolding can_moderate
  moderator-ok viewer h = elim (Bool-cases viewer.admin) [
    | inl e ↦ e
    | inr e ↦ absurd (ground arith)
  ]

  -- Apart from the submission of a new shop, a write on a shop is decided on for an admin only.
  pub decide_write-allowed :
      (r : Request) (shops : Shops) (w : Write)
      → decide_write parse r shops ≡ ok w
      → (is_creating r ≡ true) ⊎ ((requester r).admin ≡ true)
  unfolding admin_update_name approve_shop reject_shop close_shop reopen_shop
  decide_write-allowed (Request.creating viewer n link) shops w h = inl refl
  decide_write-allowed (Request.renaming viewer id n link) shops w h =
      inr (moderator-ok viewer (>>=-eq-ok (moderator viewer) _ h).1)
  decide_write-allowed (Request.approving viewer id) shops w h =
      inr (moderator-ok viewer (>>=-eq-ok (moderator viewer) _ h).1)
  decide_write-allowed (Request.rejecting viewer id text) shops w h =
      inr (moderator-ok viewer (>>=-eq-ok (moderator viewer) _ h).1)
  decide_write-allowed (Request.closing viewer id now) shops w h =
      inr (moderator-ok viewer (>>=-eq-ok (moderator viewer) _ h).1)
  decide_write-allowed (Request.reopening viewer id) shops w h =
      inr (moderator-ok viewer (>>=-eq-ok (moderator viewer) _ h).1)
