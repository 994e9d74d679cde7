-- ===== src/Reviews/Service/Opened.antt =====
-- What the first part of each request has read and checked (open_create, open_update, open_delete).
use hamburger_evaluation.Base.{
  find-Any, Any-weaken, ℕ, ◌≡◌, refl, sym, ap, ◌∙◌, Bool, true, false, Option, none, some, String,
  List, [], ◌∷◌, Any, inl, inr, arith, str_eq, eq_iff, Option-cases, find, ℤ,
}
use mathlib.Core.Path.{subst}
use hamburger_evaluation.Domain.Errors.{Error, ok, err, forbidden, review_not_found, shop_not_found}
use hamburger_evaluation.Domain.Rules.Names.{validate_burger_name}
use hamburger_evaluation.Domain.Rules.Chars.{is_empty}
use hamburger_evaluation.Domain.Account.{User}
use hamburger_evaluation.Domain.Shop.{Shop, can_be_reviewed_by}
use hamburger_evaluation.Domain.Review.{
  Review, new_review, validate_review_content, can_be_modified_by,
}
use hamburger_evaluation.Login.{found_or}
use hamburger_evaluation.Login.Runs.{found_or-ok}
use hamburger_evaluation.Transaction.{Session, lift}
use hamburger_evaluation.Transaction.Runs.{
  Reads, query-Reads, >>=-Reads, statement-ok, continue-ok, ok-injective,
}
use hamburger_evaluation.Reviews.{
  Tables, Storage, ReviewRow, ReviewDetail, Burger, is_kept, review_detail, get_review, get_shop,
  get_shop_burger, joined,
}
use hamburger_evaluation.Reviews.Service.{
  Place, Job, creating, editing, deleting, resolve_place, open_create, open_update, open_delete,
  check,
}
use hamburger_evaluation.Reviews.Service.Burgers.{IsGiven, resolve_place-IsGiven}

joined-review :
    (r : ReviewRow) (u : Option _) (b : Option Burger) {d : ReviewDetail}
    → joined r u b ≡ ok d
    → r.review ≡ d.review
joined-review r none b h = cc
joined-review r (some u) none h = cc
joined-review r (some u) (some b) h = ap (λ (d : ReviewDetail). d.review) (ok-injective h)

-- A kept row of the review `id`, as `d` shows it.
abbrev pub IsRead : String → ReviewDetail → List ReviewRow → Type 0
IsRead id d rows =
    Any (λ r. (r.discarded ≡ false) × (r.review ≡ d.review) × (d.review.id ≡ id)) rows

pub IsRead-id :
    (id : String) (d : ReviewDetail) (rows : List ReviewRow) → IsRead id d rows → d.review.id ≡ id
IsRead-id id d [] h = absurd h
IsRead-id id d (r ∷ rows) (inl h) = h.2
IsRead-id id d (r ∷ rows) (inr h) = IsRead-id id d rows h

check-Reads : (b : Bool) (e : Error) → Reads {T = Tables} {W = Storage} (check b e)
check-Reads true e = λ s. (refl, refl)
check-Reads false e = λ s. (refl, refl)

pub kept_row :
    (id : String) (d : ReviewDetail) (r x : ReviewRow)
    → r.review ≡ d.review
    → (x ≡ r) × (is_kept id r ≡ true)
    → (x.discarded ≡ false) × (x.review ≡ d.review) × (d.review.id ≡ id)
kept_row id d r x e (same, kept) = (
  ap (λ (y : ReviewRow). y.discarded) same ∙ ground arith,
  ap (λ (y : ReviewRow). y.review) same ∙ e,
  sym (ap (λ (v : Review). v.id) e) ∙ ground (arith, eq_iff r.review.id id),
)

pub get_review-IsRead :
    (id : String) (s : Session Tables Storage) {d : ReviewDetail} {s' : Session Tables Storage}
    → get_review id s ≡ (ok d, s')
    → IsRead id d s.tables.reviews
unfolding get_review
get_review-IsRead id s {d} h =
    let read = statement-ok (λ t. (review_detail t (find (is_kept id) t.reviews), t)) s h in
    elim (Option-cases (find (is_kept id) s.tables.reviews)) [
      | inl none_there ↦
          let e : err review_not_found ≡ ok d =
            sym (ap (review_detail s.tables) none_there) ∙ read.0 in
          cc
      | inr (r, there) ↦
          let e = joined-review r _ _ (sym (ap (review_detail s.tables) there) ∙ read.0) in
          Any-weaken _ _ (λ x p. kept_row id d r x e p) s.tables.reviews
            (find-Any (is_kept id) s.tables.reviews there)
    ]

check-ok :
    (b : Bool) (e : Error) (s : Session Tables Storage) {u : Unit {0}} {s' : Session Tables Storage}
    → check b e s ≡ (ok u, s')
    → (b ≡ true) × (s' ≡ s)
check-ok true e s h = (refl, sym (ap (λ p. p.1) h))
check-ok false e s h = absurd (ground arith)

pub open_update-job :
    (viewer : User) (now : ℕ) (id : String) (rating : ℤ) (comment : String) (visited_at : Option ℕ)
    (s : Session Tables Storage) {job : Job} {s' : Session Tables Storage}
    → open_update viewer now id rating comment visited_at s ≡ (ok job, s')
    → (d : ReviewDetail) × (job ≡ editing d rating comment visited_at)
      × IsRead id d s.tables.reviews
      × (d.review.author_id ≡ viewer.id)
      × (validate_review_content rating comment visited_at now ≡ ok tt)
unfolding open_update can_be_modified_by
open_update-job viewer now id rating comment visited_at s h =
    let (d, m, found, rest) = continue-ok _ (get_review id s) h in
    let (_, m', checked, rest') =
      continue-ok _ (check (can_be_modified_by d.review viewer) forbidden m) rest in
    let owned = check-ok (can_be_modified_by d.review viewer) forbidden m checked in
    let (_, m'', valid, last) = continue-ok _ _ rest' in
    (
      d,
      sym (ok-injective (ap (λ p. p.0) last)),
      get_review-IsRead id s found,
      ground (arith, owned.0, eq_iff d.review.author_id viewer.id),
      ap (λ p. p.0) valid,
    )

pub open_delete-job :
    (viewer : User) (id : String) (s : Session Tables Storage) {job : Job}
    {s' : Session Tables Storage}
    → open_delete viewer id s ≡ (ok job, s')
    → (d : ReviewDetail) × (job ≡ deleting d)
      × IsRead id d s.tables.reviews
      × (d.review.author_id ≡ viewer.id)
unfolding open_delete can_be_modified_by
open_delete-job viewer id s h =
    let (d, m, found, rest) = continue-ok _ (get_review id s) h in
    let (_, m', checked, last) =
      continue-ok _ (check (can_be_modified_by d.review viewer) forbidden m) rest in
    let owned = check-ok (can_be_modified_by d.review viewer) forbidden m checked in
    (
      d,
      sym (ok-injective (ap (λ p. p.0) last)),
      get_review-IsRead id s found,
      ground (arith, owned.0, eq_iff d.review.author_id viewer.id),
    )

-- A new review is the viewer's, at a shop that the viewer may review.
pub open_create-job :
    (viewer : User) (now : ℕ) (shop_id burger_id burger_name : String) (rating : ℤ)
    (comment : String) (visited_at : Option ℕ) (s : Session Tables Storage) {job : Job}
    {s' : Session Tables Storage}
    → open_create viewer now shop_id burger_id burger_name rating comment visited_at s
      ≡ (ok job, s')
    → (place : Place) × (review : Review) × (shop : Shop) × (find
          (λ s. str_eq s.id shop_id)
          s.tables.shops
        ≡ some shop)
      × (can_be_reviewed_by shop viewer ≡ true)
      × (job ≡ creating viewer place review)
      × (new_review rating comment viewer.id burger_id visited_at now ≡ ok review)
      × IsGiven place shop_id burger_id burger_name s.tables
unfolding open_create get_shop
open_create-job viewer now shop_id burger_id burger_name rating comment visited_at s h =
    let (shop, m, found, rest) = continue-ok _ (get_shop shop_id s) h in
    let (_, m', checked, rest') =
      continue-ok _ (check (can_be_reviewed_by shop viewer) forbidden m) rest in
    let (place, m'', resolved, rest'') =
      continue-ok _ (resolve_place (is_empty burger_id) shop_id burger_id burger_name m') rest' in
    let (review, m3, made, last) = continue-ok _ _ rest'' in
    let unchanged = check-ok (can_be_reviewed_by shop viewer) forbidden m checked in
    let read =
      statement-ok (λ t. (found_or shop_not_found (find (λ s. str_eq s.id shop_id) t.shops), t)) s
        found in
    (
      place,
      review,
      shop,
      found_or-ok shop_not_found (find (λ s. str_eq s.id shop_id) s.tables.shops) read.0,
      unchanged.0,
      sym (ok-injective (ap (λ p. p.0) last)),
      ap (λ p. p.0) made,
      subst (IsGiven place shop_id burger_id burger_name)
          (ap (λ (x : Session Tables Storage). x.tables) unchanged.1 ∙ read.1)
          (resolve_place-IsGiven (is_empty burger_id) shop_id burger_id burger_name m' refl
            resolved),
    )

-- The first part changes nothing, whatever it returns.
resolve_place-Reads :
    (by_name : Bool) (shop_id burger_id burger_name : String)
    → Reads {T = Tables} {W = Storage} (resolve_place by_name shop_id burger_id burger_name)
unfolding resolve_place get_shop_burger
resolve_place-Reads true shop_id burger_id burger_name =
    >>=-Reads (lift (validate_burger_name burger_name)) _ (λ s. (refl, refl)) (λ _ s. (refl, refl))
resolve_place-Reads false shop_id burger_id burger_name =
    >>=-Reads (get_shop_burger shop_id burger_id) _ (query-Reads _) (λ _ s. (refl, refl))

pub open_create-Reads :
    (viewer : User) (now : ℕ) (shop_id burger_id burger_name : String) (rating : ℤ)
    (comment : String) (visited_at : Option ℕ)
    → Reads {T = Tables} {W = Storage}
        (open_create viewer now shop_id burger_id burger_name rating comment visited_at)
unfolding open_create get_shop
open_create-Reads viewer now shop_id burger_id burger_name rating comment visited_at =
    >>=-Reads (get_shop shop_id) _ (query-Reads _) (λ shop.
      >>=-Reads (check (can_be_reviewed_by shop viewer) forbidden) _
        (check-Reads (can_be_reviewed_by shop viewer) forbidden)
        (λ _.
          >>=-Reads (resolve_place (is_empty burger_id) shop_id burger_id burger_name) _
            (resolve_place-Reads (is_empty burger_id) shop_id burger_id burger_name)
            (λ place.
              >>=-Reads (lift (new_review rating comment viewer.id burger_id visited_at now)) _
                (λ s. (refl, refl)) (λ _ s. (refl, refl)))))

pub open_update-Reads :
    (viewer : User) (now : ℕ) (id : String) (rating : ℤ) (comment : String) (visited_at : Option ℕ)
    → Reads {T = Tables} {W = Storage} (open_update viewer now id rating comment visited_at)
unfolding open_update get_review
open_update-Reads viewer now id rating comment visited_at =
    >>=-Reads (get_review id) _ (query-Reads _) (λ d.
      >>=-Reads (check (can_be_modified_by d.review viewer) forbidden) _
        (check-Reads (can_be_modified_by d.review viewer) forbidden)
        (λ _.
          >>=-Reads (lift (validate_review_content rating comment visited_at now)) _
            (λ s. (refl, refl)) (λ _ s. (refl, refl))))

pub open_delete-Reads :
    (viewer : User) (id : String) → Reads {T = Tables} {W = Storage} (open_delete viewer id)
unfolding open_delete get_review
open_delete-Reads viewer id = >>=-Reads (get_review id) _ (query-Reads _) (λ d.
    >>=-Reads (check (can_be_modified_by d.review viewer) forbidden) _
      (check-Reads (can_be_modified_by d.review viewer) forbidden) (λ _ s. (refl, refl)))
