-- ===== src/Reviews/Service/Effects.antt =====
-- What the statements of a write do to the tables, from the parts to the whole.
pub mod Saved
pub mod Outside
use hamburger_evaluation.Base.{
  ℕ, ◌<◌, ◌≡◌, refl, sym, ap, ◌∙◌, Bool, true, false, ◌||◌, Option, none, some, String, List, [],
  ◌∷◌, ◌++◌, arith, str_eq, eq_iff, if◌then◌else◌, any, find, ℤ, Bool-cases, inl, inr,
}
use Prim.Native.Nat.{Ordering}
use Prim.Native.String.{compare}
use hamburger_evaluation.Domain.Errors.{Error, Result, ok, err}
use hamburger_evaluation.Domain.Account.{User}
use hamburger_evaluation.Domain.Review.{Review}
use hamburger_evaluation.Recalc.Queue.{Queue, request_recalc}
use hamburger_evaluation.Recalc.Queue.Laws.{version_of}
use hamburger_evaluation.Recalc.System.{request_all, is_in}
use hamburger_evaluation.Recalc.System.Invariant.{version_of-request_all_in}
use hamburger_evaluation.Transaction.{Session, succeed, continue, transaction}
use hamburger_evaluation.Transaction.Runs.{
  continue-ok, statement-ok, transaction-ok, transaction-err, ok-injective,
}
use hamburger_evaluation.Reviews.{
  Tables, Storage, Burger, Link, ReviewRow, ReviewDetail, edit_kept, edit_content, edit_photo_key,
  discard_row, row_review, is_kept, update_review, update_review_content, update_review_photo_key,
  update_review_content_and_photo_key, discard_in, discard_review, request_in,
  request_recalculation, shop_ids_of, list_burger_shop_ids, add_unseen, collect_shop_ids, insert_id,
  sort_ids, request_shop_in, request_shops, request_recalculation_for_burgers,
  request_recalculation_for_burger, new_row, insert_review, create_review, create_linked,
  create_shop_burger, is_named, insert_burger, insert_link,
}
use hamburger_evaluation.Reviews.Service.{
  Place, known, named, Job, creating, editing, deleting, update_by, request_both, find_place,
  placed, save_body, save,
}
use hamburger_evaluation.Reviews.Service.Opened.{IsRead}
use hamburger_evaluation.Reviews.Service.Written.{Posted, row_review-IsRead}

-- The requests that a write of a review of the burger `b` registers.
abbrev pub ids_to_ask : String → List Link → List String
unfolding sort_ids add_unseen
ids_to_ask b links = sort_ids (add_unseen [] (shop_ids_of b links))

abbrev pub asked : String → Tables → Tables
asked b t = record t {
  burger_requests = request_recalc b t.burger_requests;
  shop_requests = request_all (ids_to_ask b t.links) t.shop_requests;
}

-- A loop of requests is request_all of Recalc/System.
request_shops-ok :
    (ids : List String) (s : Session Tables Storage) {u : Unit {0}} {s' : Session Tables Storage}
    → request_shops ids s ≡ (ok u, s')
    → s'.tables ≡ record s.tables { shop_requests = request_all ids s.tables.shop_requests }
unfolding request_shops request_all request_shop_in
request_shops-ok [] s h = ap (λ p. p.1.tables) (sym h)
request_shops-ok (id ∷ ids) s h =
    let c = continue-ok (λ _. request_shops ids) _ h in
    let st = statement-ok (request_shop_in id) s c.2 in
    request_shops-ok ids c.1 c.3
    ∙ ap (λ (t : Tables). record t { shop_requests = request_all ids t.shop_requests }) st.1

abbrev asked_shops : List String → Tables → Tables
asked_shops ids t = record t { shop_requests = request_all ids t.shop_requests }

collect_one-ok :
    (b : String) (s : Session Tables Storage) {ids : List String} {s' : Session Tables Storage}
    → collect_shop_ids (b ∷ []) [] s ≡ (ok ids, s')
    → (add_unseen [] (shop_ids_of b s.tables.links) ≡ ids) × (s'.tables ≡ s.tables)
unfolding collect_shop_ids list_burger_shop_ids
collect_one-ok b s h =
    let (found, d, read, rest) = continue-ok _ (list_burger_shop_ids b s) h in
    let (same, kept, _) = statement-ok (λ t. (ok (shop_ids_of b t.links), t)) s read in
    (
      ap (add_unseen []) (ok-injective same) ∙ ok-injective (ap (λ p. p.0) rest),
      ap (λ p. p.1.tables) (sym rest) ∙ kept,
    )

request_for_burger-ok :
    (b : String) (s : Session Tables Storage) {u : Unit {0}} {s' : Session Tables Storage}
    → request_recalculation_for_burger b s ≡ (ok u, s')
    → s'.tables ≡ asked_shops (ids_to_ask b s.tables.links) s.tables
unfolding request_recalculation_for_burger request_recalculation_for_burgers
request_for_burger-ok b s h =
    let (ids, d, collected, rest) = continue-ok _ (collect_shop_ids (b ∷ []) [] s) h in
    let (same, kept) = collect_one-ok b s collected in
    request_shops-ok (sort_ids ids) d rest
    ∙ ap (λ l. asked_shops (sort_ids l) d.tables) (sym same)
    ∙ ap (asked_shops (ids_to_ask b s.tables.links)) kept

request_both-ok :
    (b : String) (s : Session Tables Storage) {u : Unit {0}} {s' : Session Tables Storage}
    → request_both b s ≡ (ok u, s')
    → s'.tables ≡ asked b s.tables
unfolding request_recalculation request_in
request_both-ok b s h =
    let (_, d, requested, rest) = continue-ok _ (request_recalculation b s) h in
    let (_, t, _) = statement-ok (request_in b) s requested in
    request_for_burger-ok b d rest ∙ ap (λ t. asked_shops (ids_to_ask b t.links) t) t

-- How a write changes the rows of reviews.
abbrev pub Changed : Job → Option String → List ReviewRow → List ReviewRow → Type 0
Changed (creating viewer place review) key rows rows' =
    (r : ReviewRow) × (rows' ≡ r ∷ rows)
    × (r.review.photo_key ≡ key)
    × (r.review.author_id ≡ review.author_id)
    × (r.discarded ≡ false)
Changed (editing detail rating comment visited_at) none rows rows' =
    rows' ≡ edit_kept (edit_content rating comment visited_at) detail.review.id rows
Changed (editing detail rating comment visited_at) (some key) rows rows' =
    rows'
    ≡ edit_kept (edit_photo_key (some key)) detail.review.id
        (edit_kept (edit_content rating comment visited_at) detail.review.id rows)
Changed (deleting detail) key rows rows' = rows' ≡ edit_kept discard_row detail.review.id rows

-- What the answer of a write shows: the row that is there, or the review that was given.
abbrev pub Returned : Job → Option String → ReviewDetail → List ReviewRow → Tables → Type 0
Returned (creating viewer place review) key detail rows t = Posted place review key detail rows t
Returned (editing d rating comment visited_at) key detail rows t =
    IsRead d.review.id detail t.reviews
Returned (deleting d) key detail rows t = d ≡ detail

-- What a write leaves: the rows changed as its job says, and requests for the burger of the review
-- that it returns and for all shops of that burger, on the tables without them.
abbrev pub Saves : Job → Option String → ReviewDetail → Tables → Tables → Type 0
Saves job key detail t t' =
    (m : Tables) × Changed job key t.reviews m.reviews
    × (m.burger_requests ≡ t.burger_requests)
    × (m.shop_requests ≡ t.shop_requests)
    × (t' ≡ asked detail.review.burger_id m)
    × Returned job key detail t.reviews m

-- The reviews and the requests are the same.
abbrev Untouched : Tables → Tables → Type 0
Untouched t t' =
    (t'.reviews ≡ t.reviews)
    × (t'.burger_requests ≡ t.burger_requests)
    × (t'.shop_requests ≡ t.shop_requests)

Untouched-eq : (t u : Tables) → u ≡ t → Untouched t u
Untouched-eq t u e = (
  ap (λ (t : Tables). t.reviews) e,
  ap (λ (t : Tables). t.burger_requests) e,
  ap (λ (t : Tables). t.shop_requests) e,
)

Untouched-trans : (t u v : Tables) → Untouched t u → Untouched u v → Untouched t v
Untouched-trans t u v h k = (k.0 ∙ h.0, k.1 ∙ h.1, k.2 ∙ h.2)

module _ (new_id : ℕ → String) where
  create_linked-Untouched :
      (shop_id name : String) (found : Option Burger) (s : Session Tables Storage) {b : Burger}
      {s' : Session Tables Storage}
      → create_linked new_id shop_id name found s ≡ (ok b, s')
      → Untouched s.tables s'.tables
  unfolding create_linked insert_burger insert_link
  create_linked-Untouched shop_id name (some b) s {s' = s'} h =
      Untouched-eq s.tables s'.tables (ap (λ p. p.1.tables) (sym h))
  create_linked-Untouched shop_id name none s {s' = s'} h =
      let (b, d, made, rest) = continue-ok _ _ h in
      let (_, t, _) = statement-ok (insert_burger new_id name) s made in
      let (_, d', linked, last) = continue-ok _ _ rest in
      let (_, t', _) = statement-ok (insert_link new_id shop_id b.id) d linked in
      let e = ap (λ p. p.1.tables) (sym last) ∙ t' in
      (
        ap (λ (t : Tables). t.reviews) e ∙ ap (λ (t : Tables). t.reviews) t,
        ap (λ (t : Tables). t.burger_requests) e ∙ ap (λ (t : Tables). t.burger_requests) t,
        ap (λ (t : Tables). t.shop_requests) e ∙ ap (λ (t : Tables). t.shop_requests) t,
      )

  find_place-Untouched :
      (place : Place) (s : Session Tables Storage) {b : Burger} {s' : Session Tables Storage}
      → find_place new_id place s ≡ (ok b, s')
      → Untouched s.tables s'.tables
  unfolding find_place create_shop_burger
  find_place-Untouched (known burger) s {s' = s'} h =
      Untouched-eq s.tables s'.tables (ap (λ p. p.1.tables) (sym h))
  find_place-Untouched (named shop_id name) s {s' = s'} h =
      let (d, d', start, ran, end) = transaction-ok _ s h in
      let (found, m, read, rest) = continue-ok _ _ ran in
      let (_, t, _) =
        statement-ok (λ t. (ok (find (is_named new_id shop_id name t) t.burgers), t)) d read in
      Untouched-trans s.tables m.tables s'.tables (Untouched-eq s.tables m.tables (t ∙ start)) (
        Untouched-trans m.tables d'.tables s'.tables
          (create_linked-Untouched shop_id name found m rest)
          (Untouched-eq d'.tables s'.tables end))

  placed-author :
      (place : Place) (b : Burger) (review : Review)
      → (placed new_id place b review).author_id ≡ review.author_id
  unfolding placed
  placed-author (known burger) b review = refl
  placed-author (named shop_id name) b review = refl

update_by-ok :
    (key : Option String) (detail : ReviewDetail) (rating : ℤ) (comment : String)
    (visited_at : Option ℕ) (s : Session Tables Storage) {r : Review} {s' : Session Tables Storage}
    → update_by key detail.review.id rating comment visited_at s ≡ (ok r, s')
    → Changed (editing detail rating comment visited_at) key s.tables.reviews s'.tables.reviews
      × (s'.tables.burger_requests ≡ s.tables.burger_requests)
      × (s'.tables.shop_requests ≡ s.tables.shop_requests)
      × (row_review (find (is_kept detail.review.id) s'.tables.reviews) ≡ ok r)
unfolding update_by update_review_content update_review_content_and_photo_key
    update_review_photo_key update_review
update_by-ok none detail rating comment visited_at s h =
    let (e, t, _) =
      statement-ok (update_review (edit_content rating comment visited_at) detail.review.id) s h in
    (
      ap (λ (t : Tables). t.reviews) t,
      ap (λ (t : Tables). t.burger_requests) t,
      ap (λ (t : Tables). t.shop_requests) t,
      ap (λ (t : Tables). row_review (find (is_kept detail.review.id) t.reviews)) t ∙ e,
    )
update_by-ok (some key) detail rating comment visited_at s h =
    let (d, d', start, ran, end) = transaction-ok _ s h in
    let (_, m, edited, rest) = continue-ok _ _ ran in
    let (_, t, _) =
      statement-ok (update_review (edit_content rating comment visited_at) detail.review.id) d
        edited in
    let (e, u, _) =
      statement-ok (update_review (edit_photo_key (some key)) detail.review.id) m rest in
    (
      ap (λ (t : Tables). t.reviews) (end ∙ u)
          ∙ ap (edit_kept (edit_photo_key (some key)) detail.review.id)
              (ap (λ (t : Tables). t.reviews) t)
          ∙ ap
              (λ (t : Tables).
                edit_kept (edit_photo_key (some key)) detail.review.id
                  (edit_kept (edit_content rating comment visited_at) detail.review.id t.reviews))
              start,
      ap (λ (t : Tables). t.burger_requests) (end ∙ u)
          ∙ ap (λ (t : Tables). t.burger_requests) t
          ∙ ap (λ (t : Tables). t.burger_requests) start,
      ap (λ (t : Tables). t.shop_requests) (end ∙ u)
          ∙ ap (λ (t : Tables). t.shop_requests) t
          ∙ ap (λ (t : Tables). t.shop_requests) start,
      ap (λ (t : Tables). row_review (find (is_kept detail.review.id) t.reviews)) (end ∙ u) ∙ e,
    )

-- The end of each body: the requests, and what the response shows.
finish-ok :
    (b : String) (shown : ReviewDetail) (s : Session Tables Storage) {detail : ReviewDetail}
    {s' : Session Tables Storage}
    → continue (λ _. succeed shown) (request_both b s) ≡ (ok detail, s')
    → (shown ≡ detail) × (s'.tables ≡ asked b s.tables)
finish-ok b shown s h =
    let (_, d, requested, rest) = continue-ok _ (request_both b s) h in
    (
      ok-injective (ap (λ p. p.0) rest),
      ap (λ p. p.1.tables) (sym rest) ∙ request_both-ok b s requested,
    )
