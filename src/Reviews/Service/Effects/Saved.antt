-- ===== src/Reviews/Service/Effects/Saved.antt =====
-- The transaction of each write, as a whole.
use hamburger_evaluation.Base.{
  ℕ, ◌<◌, ◌≡◌, refl, sym, ap, ◌∙◌, true, ◌||◌, Option, some, String, List, [], ◌∷◌, ◌++◌, arith,
  str_eq, eq_iff, Bool-cases, inl, inr,
}
use mathlib.Core.Path.{subst}
use hamburger_evaluation.Domain.Errors.{Error, ok, err}
use hamburger_evaluation.Recalc.Queue.{Queue}
use hamburger_evaluation.Recalc.Queue.Laws.{version_of}
use hamburger_evaluation.Recalc.System.{request_all, is_in}
use hamburger_evaluation.Recalc.System.Invariant.{version_of-request_all_in}
use hamburger_evaluation.Transaction.{Session}
use hamburger_evaluation.Transaction.Runs.{
  continue-ok, statement-ok, transaction-ok, transaction-err, ok-injective,
}
use hamburger_evaluation.Reviews.{
  Tables, Storage, Burger, Link, ReviewDetail, date_or_null, discard_in, discard_review,
  shop_ids_of, add_unseen, insert_id, sort_ids, new_row, insert_review, create_review,
}
use hamburger_evaluation.Reviews.Service.{
  Job, Place, known, named, creating, editing, deleting, placed, save_body, save,
}
use hamburger_evaluation.Domain.Review.{Review}
use hamburger_evaluation.Reviews.Service.Burgers.{IsPlaced-moves, find_place-IsPlaced}
use hamburger_evaluation.Reviews.Service.Written.{IsDay, date_or_null-IsDay, row_review-IsRead}
use hamburger_evaluation.Reviews.Service.Effects.{
  ids_to_ask, asked, Saves, find_place-Untouched, placed-author, update_by-ok, finish-ok,
}

-- Sorting and removing duplicates keep the same ids.
is_in-insert_id :
    (c a : String) (ids : List String) → is_in c (insert_id a ids) ≡ (str_eq a c || is_in c ids)
unfolding insert_id
is_in-insert_id c a [] = refl
is_in-insert_id c a (b ∷ bs) = ground (arith, is_in-insert_id c a bs)

is_in-sort_ids : (c : String) (ids : List String) → is_in c (sort_ids ids) ≡ is_in c ids
unfolding sort_ids
is_in-sort_ids c [] = refl
is_in-sort_ids c (a ∷ ids) =
    is_in-insert_id c a (sort_ids ids) ∙ ap (λ b. str_eq a c || b) (is_in-sort_ids c ids)

is_in-append :
    (c a : String) (ids : List String) → is_in c (ids ++ (a ∷ [])) ≡ (is_in c ids || str_eq a c)
is_in-append c a [] = ground arith
is_in-append c a (b ∷ ids) = ground (arith, is_in-append c a ids)

is_in-add_unseen :
    (c : String) (seen ids : List String)
    → is_in c (add_unseen seen ids) ≡ (is_in c seen || is_in c ids)
unfolding add_unseen
is_in-add_unseen c seen [] = ground arith
is_in-add_unseen c seen (a ∷ ids) = elim (Bool-cases (is_in a seen)) [
  | inl old ↦ rw old (ground (arith, is_in-add_unseen c seen ids, eq_iff a c))
  | inr new ↦
      rw new (ground (arith, is_in-add_unseen c (seen ++ (a ∷ [])) ids, is_in-append c a seen))
]

is_in-ids_to_ask :
    (c b : String) (links : List Link)
    → is_in c (shop_ids_of b links) ≡ true
    → is_in c (ids_to_ask b links) ≡ true
unfolding ids_to_ask sort_ids add_unseen
is_in-ids_to_ask c b links h =
    is_in-sort_ids c (add_unseen [] (shop_ids_of b links))
    ∙ is_in-add_unseen c [] (shop_ids_of b links)
    ∙ h

-- A request waits for the subject that was not there before.
abbrev pub IsRequested : String → Queue → Queue → Type 0
IsRequested c q q' = (v : ℕ) × (version_of c q' ≡ some v) × (q.seq < v)

-- New requests for a burger and for every shop that has it.
abbrev pub Requested : String → Tables → Tables → Type 0
Requested b t t' =
    IsRequested b t.burger_requests t'.burger_requests
    × ((shop : String)
        → is_in shop (shop_ids_of b t'.links) ≡ true
        → IsRequested shop t.shop_requests t'.shop_requests)

asked-Requested : (b : String) (t : Tables) → Requested b t (asked b t)
unfolding request_all
asked-Requested b t = (
  version_of-request_all_in b (b ∷ []) t.burger_requests (ground (arith, eq_iff b b)),
  λ shop h.
      version_of-request_all_in shop (ids_to_ask b t.links) t.shop_requests
        (is_in-ids_to_ask shop b t.links h),
)

pub Saves-Requested :
    (job : Job) (key : Option String) (detail : ReviewDetail) (t t' : Tables)
    → Saves job key detail t t'
    → Requested detail.review.burger_id t t'
Saves-Requested job key detail t t' (m, c, b, q, a, _) =
    let r = asked-Requested detail.review.burger_id m in
    subst (λ u. Requested detail.review.burger_id t u) (sym a)
      (
        (r.0.0, r.0.1, omega (arith, r.0.2, ap (λ (x : Queue). x.seq) b)),
        λ shop h. let n = r.1 shop h in (n.0, n.1, omega (arith, n.2, ap (λ (x : Queue). x.seq) q)),
      )

placed-content :
    (new_id : ℕ → String) (place : Place) (b : Burger) (review : Review)
    → ((placed new_id place b review).rating ≡ review.rating)
      × ((placed new_id place b review).comment ≡ review.comment)
      × IsDay review.visited_at (date_or_null (placed new_id place b review).visited_at)
unfolding placed
placed-content new_id (known c) b review = (refl, refl, date_or_null-IsDay review.visited_at)
placed-content new_id (named shop_id name) b review =
    (refl, refl, date_or_null-IsDay review.visited_at)

module _ (new_id : ℕ → String) where
  save_body-Saves :
      (job : Job) (key : Option String) (s : Session Tables Storage) {detail : ReviewDetail}
      {s' : Session Tables Storage}
      → save_body new_id job key s ≡ (ok detail, s')
      → Saves job key detail s.tables s'.tables
  unfolding save_body create_review insert_review discard_review discard_in
  save_body-Saves (creating viewer place review) key s {detail} {s'} h =
      let (b, d, here, rest) = continue-ok _ _ h in
      let (made, d', inserted, last) = continue-ok _ _ rest in
      let r = record (placed new_id place b review) { photo_key = key } in
      let (same, t, _) = statement-ok (insert_review new_id r) d inserted in
      let (e, a) = finish-ok made.burger_id _ d' last in
      let u = find_place-Untouched new_id place s here in
      let content = placed-content new_id place b review in
      (
        d'.tables,
        (
          new_row new_id d.tables r,
          ap (λ (t : Tables). t.reviews) t ∙ ap (λ l. new_row new_id d.tables r ∷ l) u.0,
          refl,
          placed-author new_id place b review,
          refl,
        ),
        ap (λ (t : Tables). t.burger_requests) t ∙ u.1,
        ap (λ (t : Tables). t.shop_requests) t ∙ u.2,
        a ∙ ap (λ (d : ReviewDetail). asked d.review.burger_id d'.tables) e,
        (
          new_row new_id d.tables r,
          ap (λ (t : Tables). t.reviews) t ∙ ap (λ l. new_row new_id d.tables r ∷ l) u.0,
          ok-injective same ∙ ap (λ (x : ReviewDetail). x.review) e,
          content.0,
          content.1,
          content.2,
          refl,
          placed-author new_id place b review,
          refl,
          IsPlaced-moves place review.burger_id _ d.tables d'.tables
              (ap (λ (t : Tables). t.burgers) t) (ap (λ (t : Tables). t.links) t)
              (find_place-IsPlaced new_id place review s here),
        ),
      )
  save_body-Saves (editing detail rating comment visited_at) key s {detail = shown} {s'} h =
      let (r, d, edited, rest) = continue-ok _ _ h in
      let (c, b, q, w) = update_by-ok key detail rating comment visited_at s edited in
      let (e, a) = finish-ok r.burger_id _ d rest in
      let same : r ≡ shown.review = ap (λ (x : ReviewDetail). x.review) e in
      (
        d.tables,
        c,
        b,
        q,
        a ∙ ap (λ (x : ReviewDetail). asked x.review.burger_id d.tables) e,
        row_review-IsRead detail.review.id d.tables.reviews shown (w ∙ ap ok same),
      )
  save_body-Saves (deleting detail) key s {detail = shown} {s'} h =
      let (_, d, gone, rest) = continue-ok _ _ h in
      let (_, t, _) = statement-ok (discard_in detail.review.id) s gone in
      let (e, a) = finish-ok detail.review.burger_id _ d rest in
      (
        d.tables,
        ap (λ (t : Tables). t.reviews) t,
        ap (λ (t : Tables). t.burger_requests) t,
        ap (λ (t : Tables). t.shop_requests) t,
        a ∙ ap (λ (x : ReviewDetail). asked x.review.burger_id d.tables) e,
        e,
      )

  -- A write that succeeds changes the rows of reviews as its job says, and has registered the
  -- requests.
  pub save-Saves :
      (job : Job) (key : Option String) (s : Session Tables Storage) {detail : ReviewDetail}
      {s' : Session Tables Storage}
      → save new_id job key s ≡ (ok detail, s')
      → Saves job key detail s.tables s'.tables
  unfolding save
  save-Saves job key s {detail} {s'} h =
      let (d, d', start, ran, end) = transaction-ok _ s h in
      let r = save_body-Saves job key d ran in
      subst (λ t. Saves job key detail t s'.tables) start
        (subst (λ t. Saves job key detail d.tables t) (sym end) r)

  -- A write that fails leaves the tables as they were.
  pub save-err :
      (job : Job) (key : Option String) (s : Session Tables Storage) (e : Error)
      → (save new_id job key s).0 ≡ err e
      → (save new_id job key s).1.tables ≡ s.tables
  unfolding save
  save-err job key s e h = transaction-err (save_body new_id job key) s e h
