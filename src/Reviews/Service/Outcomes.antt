-- ===== src/Reviews/Service/Outcomes.antt =====
-- What Create, Update and Delete of usecase/reviews.go leave behind, as wholes.
use hamburger_evaluation.Base.{
  ℕ, ◌≡◌, sym, ap, ◌∙◌, true, false, Option, none, some, String, List, ◌∷◌, Any, str_eq, find, ℤ,
}
use mathlib.Core.Path.{subst}
use hamburger_evaluation.Domain.Errors.{Error, ok, err, >>=-eq-ok}
use hamburger_evaluation.Domain.Account.{User}
use hamburger_evaluation.Domain.Shop.{Shop, can_be_reviewed_by}
use hamburger_evaluation.Domain.Review.{Review, new_review, validate_review_content}
use hamburger_evaluation.Transaction.{Session}
use hamburger_evaluation.Transaction.Runs.{ok-injective}
use hamburger_evaluation.Reviews.{Tables, Storage, ReviewRow, ReviewDetail, edit_kept, discard_row}
use hamburger_evaluation.Reviews.Service
use hamburger_evaluation.Reviews.Service.{
  Place, Job, creating, editing, deleting, open_create, open_update, open_delete, put_photo, save,
  leftover, delete_photo_best_effort, serve, create, update, delete,
}
use hamburger_evaluation.Reviews.Service.Effects.{asked, Changed, Saves}
use hamburger_evaluation.Reviews.Service.Effects.Saved.{Requested, Saves-Requested}
use hamburger_evaluation.Reviews.Service.Burgers.{IsPlaced, IsAt, IsPlaced-IsAt, IsPlaced-moves}
use hamburger_evaluation.Reviews.Service.Written.{
  IsDay, IsKey, Edits, content-Edits, content_and_photo-Edits,
}
use hamburger_evaluation.Reviews.Service.Opened.{
  IsRead, IsRead-id, open_create-job, open_update-job, open_delete-job, open_create-Reads,
  open_update-Reads, open_delete-Reads,
}
use hamburger_evaluation.Reviews.Service.Whole.{whole-ok, whole-err}

-- A new review has what it was made of.
new_review-content :
    (rating : ℤ) (comment author_id burger_id : String) (visited_at : Option ℕ) (now : ℕ)
    {review : Review}
    → new_review rating comment author_id burger_id visited_at now ≡ ok review
    → (review.author_id ≡ author_id)
      × (review.burger_id ≡ burger_id)
      × (review.rating ≡ rating)
      × (review.comment ≡ some comment)
      × (review.visited_at ≡ visited_at)
unfolding new_review
new_review-content rating comment author_id burger_id visited_at now h =
    let (_, _, made) = >>=-eq-ok (validate_review_content rating comment visited_at now) _ h in
    let same = sym (ok-injective made) in
    (
      ap (λ (r : Review). r.author_id) same,
      ap (λ (r : Review). r.burger_id) same,
      ap (λ (r : Review). r.rating) same,
      ap (λ (r : Review). r.comment) same,
      ap (λ (r : Review). r.visited_at) same,
    )

reviews-asked : (b : String) (m t' : Tables) → t' ≡ asked b m → t'.reviews ≡ m.reviews
reviews-asked b m t' e = ap (λ (t : Tables). t.reviews) e

deleted-exact :
    (viewer : User) (id : String) (key : Option String) (job : Job) (d shown : ReviewDetail)
    (t t' : Tables)
    → job ≡ deleting d
    → IsRead id d t.reviews
    → Saves job key shown t t'
    → (t'.reviews ≡ edit_kept discard_row id t.reviews) × Requested d.review.burger_id t t'
deleted-exact viewer id key job d shown t t' is read saves =
    let saves' : Saves (deleting d) key shown t t' = subst (λ j. Saves j key shown t t') is saves in
    let (m, c, _, _, a, same) = saves' in
    (
      reviews-asked shown.review.burger_id m t' a
          ∙ c
          ∙ ap (λ i. edit_kept discard_row i t.reviews) (IsRead-id id d t.reviews read),
      subst (λ (x : ReviewDetail). Requested x.review.burger_id t t') (sym same)
          (Saves-Requested job key shown t t' saves),
    )

-- The rows after an edit, with the key that was drawn for its upload.
Changed-Edits :
    (d : ReviewDetail) (rating : ℤ) (comment : String) (visited_at : Option ℕ)
    (upload : Option String) (hex : String) (key : Option String) (rows rows' : List ReviewRow)
    → IsKey upload hex none key
    → Changed (editing d rating comment visited_at) key rows rows'
    → Edits d.review.id rating comment visited_at upload hex rows rows'
Changed-Edits d rating comment visited_at upload hex none rows rows' k c =
    subst (Edits d.review.id rating comment visited_at upload hex rows) (sym c)
      (content-Edits d.review.id upload hex rating comment visited_at rows k)
Changed-Edits d rating comment visited_at upload hex (some key) rows rows' k c =
    subst (Edits d.review.id rating comment visited_at upload hex rows) (sym c)
      (content_and_photo-Edits d.review.id upload hex key rating comment visited_at rows k)

-- The row that a read finds is the row of the review, whatever else is shown with it.
IsRead-same :
    (id id' : String) (d d' : ReviewDetail) (rows rows' : List ReviewRow)
    → id ≡ id'
    → d.review ≡ d'.review
    → rows' ≡ rows
    → IsRead id d rows
    → IsRead id' d' rows'
IsRead-same id id' d d' rows rows' i e w h =
    subst (λ x. IsRead x d' rows') i
      (subst (IsRead id d') (sym w) (
        subst (λ (v : Review). Any (λ r. (r.discarded ≡ false) × (r.review ≡ v) × (v.id ≡ id)) rows)
          e h))

module _ (random new_id : ℕ → String) (viewer : User) (s : Session Tables Storage) where
  -- Whoever deletes a review is its author, and the review was there and not deleted. Exactly the
  -- review is marked as deleted, and the recalculation of its burger and of all shops that have
  -- the burger is requested anew.
  pub delete_exact :
      (id : String) {u : Unit {0}} {s' : Session Tables Storage}
      → delete random new_id viewer id s ≡ (ok u, s')
      → (d : ReviewDetail) × IsRead id d s.tables.reviews
        × (d.review.author_id ≡ viewer.id)
        × (s'.tables.reviews ≡ edit_kept discard_row id s.tables.reviews)
        × Requested d.review.burger_id s.tables s'.tables
  unfolding delete
  delete_exact id {s' = s'} h =
      let (job, m, shown, key, opened, _, saves, _) =
        whole-ok random new_id none s (λ _. tt) (open_delete viewer id)
          (open_delete-Reads viewer id) h in
      let (d, is, read, owned) = open_delete-job viewer id s opened in
      let (rows, asked) =
        deleted-exact viewer id key job d shown s.tables s'.tables is read saves in
      (d, read, owned, rows, asked)

  module _ (url : String → String) (now : ℕ) (rating : ℤ) (comment : String) (visited_at : Option ℕ)
      (upload : Option String) where
    -- Whoever edits a review is its author, the review was there and not deleted, and the new
    -- content is valid. Row by row, the review gets the new rating, the new comment, the midnight
    -- (UTC) of the visit, and with an upload the key that was drawn for it, and nothing else of it
    -- changes; all other rows stay. The review that the answer shows is the row that was saved,
    -- and the recalculation of its burger and of all shops that have the burger is requested anew.
    pub update_exact :
        (id : String) {shown : ReviewDetail} {s' : Session Tables Storage}
        → update random new_id url viewer now id rating comment visited_at upload s ≡ (ok shown, s')
        → (d : ReviewDetail) × IsRead id d s.tables.reviews
          × (d.review.author_id ≡ viewer.id)
          × (validate_review_content rating comment visited_at now ≡ ok tt)
          × Edits id rating comment visited_at upload
              (random s.outside.drawn)
              s.tables.reviews
              s'.tables.reviews
          × IsRead id shown s'.tables.reviews
          × Requested shown.review.burger_id s.tables s'.tables
    unfolding update
    update_exact id {shown} {s'} h =
        let (job, m, saved, key, opened, same, saves, drawn) =
          whole-ok random new_id upload s (Service.shown random new_id url viewer)
            (open_update viewer now id rating comment visited_at)
            (open_update-Reads viewer now id rating comment visited_at) h in
        let (d, is, read, owned, valid) =
          open_update-job viewer now id rating comment visited_at s opened in
        let saves' : Saves (editing d rating comment visited_at) key saved s.tables s'.tables =
          subst (λ j. Saves j key saved s.tables s'.tables) is saves in
        let (t, c, _, _, a, w) = saves' in
        let rows = reviews-asked saved.review.burger_id t s'.tables a in
        let there = IsRead-id id d s.tables.reviews read in
        let review = ap (λ (x : ReviewDetail). x.review) same in
        let hex = random s.outside.drawn in
        (
          d,
          read,
          owned,
          valid,
          subst
              (λ i. Edits i rating comment visited_at upload hex s.tables.reviews s'.tables.reviews)
              there
              (Changed-Edits d rating comment visited_at upload hex key s.tables.reviews
                s'.tables.reviews drawn
                (subst (Changed (editing d rating comment visited_at) key s.tables.reviews)
                  (sym rows) c)),
          IsRead-same d.review.id id saved shown t.reviews s'.tables.reviews there review rows w,
          subst (λ b. Requested b s.tables s'.tables) (ap (λ (v : Review). v.burger_id) review)
              (Saves-Requested job key saved s.tables s'.tables saves),
        )

    -- Whoever posts a review may review the shop, and the content is valid. Exactly one row is
    -- added, which the answer shows: the viewer's, not deleted, with the given rating and comment,
    -- the midnight (UTC) of the visit, and with an upload the key that was drawn for it, else no
    -- photo. It is about the burger with the given id, which the shop had, or, without an id, about
    -- a burger of the given name that the shop has now. The recalculation of this burger and of all
    -- shops that have it is requested anew.
    pub create_exact :
        (shop_id burger_id burger_name : String) {shown : ReviewDetail}
        {s' : Session Tables Storage}
        → create random new_id url viewer now shop_id burger_id burger_name rating comment
            visited_at upload s
          ≡ (ok shown, s')
        → (shop : Shop) × (r : ReviewRow) × (find (λ s. str_eq s.id shop_id) s.tables.shops
            ≡ some shop)
          × (can_be_reviewed_by shop viewer ≡ true)
          × (validate_review_content rating comment visited_at now ≡ ok tt)
          × (s'.tables.reviews ≡ r ∷ s.tables.reviews)
          × (r.review ≡ shown.review)
          × (r.review.author_id ≡ viewer.id)
          × (r.discarded ≡ false)
          × (r.review.rating ≡ rating)
          × (r.review.comment ≡ some comment)
          × IsDay visited_at r.review.visited_at
          × IsKey upload (random s.outside.drawn) none r.review.photo_key
          × IsAt shop_id burger_id burger_name r.review.burger_id s.tables s'.tables
          × Requested r.review.burger_id s.tables s'.tables
    unfolding create new_review
    create_exact shop_id burger_id burger_name {shown} {s'} h =
        let (job, m, saved, key, opened, same, saves, drawn) =
          whole-ok random new_id upload s (Service.shown random new_id url viewer)
            (open_create viewer now shop_id burger_id burger_name rating comment visited_at)
            (open_create-Reads viewer now shop_id burger_id burger_name rating comment visited_at)
            h in
        let (place, review, shop, found, allowed, is, made, given) =
          open_create-job viewer now shop_id burger_id burger_name rating comment visited_at s
            opened in
        let (_, valid, _) =
          >>=-eq-ok (validate_review_content rating comment visited_at now) _ made in
        let (author, about, rated, said, visited) =
          new_review-content rating comment viewer.id burger_id visited_at now made in
        let saves' : Saves (creating viewer place review) key saved s.tables s'.tables =
          subst (λ j. Saves j key saved s.tables s'.tables) is saves in
        let (t, _, _, _, a, posted) = saves' in
        let (r, rows, as_saved, rating', comment', day', key', author', kept, placed) = posted in
        (
          shop,
          r,
          found,
          allowed,
          valid,
          reviews-asked saved.review.burger_id t s'.tables a ∙ rows,
          as_saved ∙ ap (λ (x : ReviewDetail). x.review) same,
          author' ∙ author,
          kept,
          rating' ∙ rated,
          comment' ∙ said,
          subst (λ v. IsDay v r.review.visited_at) visited day',
          subst (IsKey upload (random s.outside.drawn) none) (sym key') drawn,
          IsPlaced-IsAt place shop_id burger_id burger_name r.review.burger_id s.tables s'.tables
              given
              (subst (λ g. IsPlaced place g r.review.burger_id s'.tables) about
                (IsPlaced-moves place review.burger_id r.review.burger_id t s'.tables
                  (ap (λ (x : Tables). x.burgers) a) (ap (λ (x : Tables). x.links) a) placed)),
          subst (λ b. Requested b s.tables s'.tables)
              (sym (ap (λ (v : Review). v.burger_id) as_saved))
              (Saves-Requested job key saved s.tables s'.tables saves),
        )

    -- A request to post, to edit or to delete a review that returns an error has changed no table,
    -- whichever check refuses it, and whichever statement or call of the storage is refused. A
    -- refused commit is one that did not take place: a commit that takes place and whose answer is
    -- lost is not an outcome of this model.
    pub writes-err :
        (shop_id burger_id burger_name id : String) (e : Error)
        → ((create random new_id url viewer now shop_id burger_id burger_name rating comment
                visited_at upload s).0
              ≡ err e
            → (create random new_id url viewer now shop_id burger_id burger_name rating comment
                visited_at upload s).1.tables
              ≡ s.tables)
          × ((update random new_id url viewer now id rating comment visited_at upload s).0 ≡ err e
              → (update random new_id url viewer now id rating comment visited_at upload s).1.tables
                ≡ s.tables)
          × ((delete random new_id viewer id s).0 ≡ err e
              → (delete random new_id viewer id s).1.tables ≡ s.tables)
    unfolding create update delete
    writes-err shop_id burger_id burger_name id e = (
      λ h.
          whole-err random new_id upload s (Service.shown random new_id url viewer)
            (open_create viewer now shop_id burger_id burger_name rating comment visited_at)
            (open_create-Reads viewer now shop_id burger_id burger_name rating comment visited_at)
            h,
      λ h.
          whole-err random new_id upload s (Service.shown random new_id url viewer)
            (open_update viewer now id rating comment visited_at)
            (open_update-Reads viewer now id rating comment visited_at) h,
      λ h.
          whole-err random new_id none s (λ _. tt) (open_delete viewer id)
            (open_delete-Reads viewer id) h,
    )
