-- ===== src/Reviews/Service/Effects/Outside.antt =====
-- What the parts of a request do outside of the tables, whatever they return.
use hamburger_evaluation.Base.{
  ℕ, ◌≡◌, ◌≢◌, refl, sym, ap, Bool, true, false, not, Option, none, some, String, List, [], ◌∷◌,
  Any, inl, inr, arith, str_eq, eq_iff, keep, find, ℤ,
}
use hamburger_evaluation.Domain.Errors.{Error, Result, ok, err}
use hamburger_evaluation.Transaction.{Session, succeed, caught, call_at, call, continue, statement}
use hamburger_evaluation.Transaction.Runs.{
  StaysInside, statement-StaysInside, >>=-StaysInside, transaction-StaysInside,
}
use hamburger_evaluation.Reviews.{
  Tables, Storage, Burger, ReviewDetail, is_named, insert_burger, insert_link, insert_review,
  create_linked, create_shop_burger, create_review, update_review, edit_content, edit_photo_key,
  update_review_content, update_review_photo_key, update_review_content_and_photo_key, discard_in,
  discard_review, request_in, request_recalculation, shop_ids_of, list_burger_shop_ids, add_unseen,
  collect_shop_ids, sort_ids, request_shop_in, request_shops, request_recalculation_for_burgers,
  request_recalculation_for_burger,
}
use hamburger_evaluation.Reviews.Service.{
  Place, known, named, Job, creating, editing, deleting, update_by, request_both, find_place,
  placed, save_body, save, put_photo, photo_key, store_photo, drop_photo, draw,
  delete_photo_best_effort,
}

-- The transaction touches no photo.
request_shops-StaysInside :
    (ids : List String) → StaysInside {T = Tables} {W = Storage} (request_shops ids)
unfolding request_shops
request_shops-StaysInside [] = λ s. refl
request_shops-StaysInside (id ∷ ids) =
    >>=-StaysInside (statement (request_shop_in id)) (λ _. request_shops ids)
      (statement-StaysInside (request_shop_in id)) (λ _. request_shops-StaysInside ids)

collect_shop_ids-StaysInside :
    (bs seen : List String) → StaysInside {T = Tables} {W = Storage} (collect_shop_ids bs seen)
unfolding collect_shop_ids list_burger_shop_ids
collect_shop_ids-StaysInside [] seen = λ s. refl
collect_shop_ids-StaysInside (b ∷ bs) seen =
    >>=-StaysInside (list_burger_shop_ids b) (λ ids. collect_shop_ids bs (add_unseen seen ids))
      (statement-StaysInside (λ t. (ok (shop_ids_of b t.links), t)))
      (λ ids. collect_shop_ids-StaysInside bs (add_unseen seen ids))

finish-StaysInside :
    (b : String) (shown : ReviewDetail)
    → StaysInside {T = Tables} {W = Storage} (λ s. continue (λ _. succeed shown) (request_both b s))
unfolding request_recalculation request_recalculation_for_burger request_recalculation_for_burgers
finish-StaysInside b shown =
    >>=-StaysInside (request_both b) (λ _. succeed shown)
      (>>=-StaysInside (request_recalculation b) (λ _. request_recalculation_for_burger b)
        (statement-StaysInside (request_in b))
        (λ _.
          >>=-StaysInside (collect_shop_ids (b ∷ []) []) (λ ids. request_shops (sort_ids ids))
            (collect_shop_ids-StaysInside (b ∷ []) [])
            (λ ids. request_shops-StaysInside (sort_ids ids))))
      (λ _ s. refl)

update_by-StaysInside :
    (key : Option String) (id : String) (rating : ℤ) (comment : String) (visited_at : Option ℕ)
    → StaysInside {T = Tables} {W = Storage} (update_by key id rating comment visited_at)
unfolding update_by update_review_content update_review_photo_key
    update_review_content_and_photo_key update_review
update_by-StaysInside none id rating comment visited_at =
    statement-StaysInside (update_review (edit_content rating comment visited_at) id)
update_by-StaysInside (some key) id rating comment visited_at = transaction-StaysInside _ (
    >>=-StaysInside (update_review_content id rating comment visited_at)
      (λ _. update_review_photo_key id (some key))
      (statement-StaysInside (update_review (edit_content rating comment visited_at) id))
      (λ _. statement-StaysInside (update_review (edit_photo_key (some key)) id)))

module _ (new_id : ℕ → String) where
  create_linked-StaysInside :
      (shop_id name : String) (found : Option Burger)
      → StaysInside {T = Tables} {W = Storage} (create_linked new_id shop_id name found)
  unfolding create_linked
  create_linked-StaysInside shop_id name (some b) = λ s. refl
  create_linked-StaysInside shop_id name none =
      >>=-StaysInside (statement (insert_burger new_id name)) _
        (statement-StaysInside (insert_burger new_id name))
        (λ b.
          >>=-StaysInside (statement (insert_link new_id shop_id b.id)) (λ _. succeed b)
            (statement-StaysInside (insert_link new_id shop_id b.id)) (λ _ s. refl))

  find_place-StaysInside :
      (place : Place) → StaysInside {T = Tables} {W = Storage} (find_place new_id place)
  unfolding find_place create_shop_burger
  find_place-StaysInside (known b) = λ s. refl
  find_place-StaysInside (named shop_id name) = transaction-StaysInside _ (
      >>=-StaysInside (statement (λ t. (ok (find (is_named new_id shop_id name t) t.burgers), t))) _
        (statement-StaysInside (λ t. (ok (find (is_named new_id shop_id name t) t.burgers), t)))
        (create_linked-StaysInside shop_id name))

  save_body-StaysInside :
      (job : Job) (key : Option String)
      → StaysInside {T = Tables} {W = Storage} (save_body new_id job key)
  unfolding save_body create_review discard_review
  save_body-StaysInside (creating viewer place review) key =
      >>=-StaysInside (find_place new_id place) _ (find_place-StaysInside place) (λ b.
        >>=-StaysInside
          (create_review new_id (record (placed new_id place b review) { photo_key = key })) _
          (statement-StaysInside
            (insert_review new_id (record (placed new_id place b review) { photo_key = key })))
          (λ r. finish-StaysInside r.burger_id _))
  save_body-StaysInside (editing d rating comment visited_at) key =
      >>=-StaysInside (update_by key d.review.id rating comment visited_at) _
        (update_by-StaysInside key d.review.id rating comment visited_at)
        (λ r. finish-StaysInside r.burger_id _)
  save_body-StaysInside (deleting d) key =
      >>=-StaysInside (discard_review d.review.id) _
        (statement-StaysInside (discard_in d.review.id))
        (λ _. finish-StaysInside d.review.burger_id d)

  pub save-StaysInside :
      (job : Job) (key : Option String)
      → StaysInside {T = Tables} {W = Storage} (save new_id job key)
  unfolding save
  save-StaysInside job key =
      transaction-StaysInside (save_body new_id job key) (save_body-StaysInside job key)

-- The storage of a photo: none asked, the key stored, or a failure that stores none.
pub data PutResult (random : ℕ → String) (upload : Option String) (s : Session Tables Storage)
    : Result (Option String) × Session Tables Storage → Type 0 where
  nothing : upload ≡ none → PutResult random upload s (ok none, s)
  stored :
      (ext : String) (s' : Session Tables Storage)
      → upload ≡ some ext
      → s'.tables ≡ s.tables
      → s'.outside.photos ≡ photo_key (random s.outside.drawn) ext ∷ s.outside.photos
      → PutResult random upload s (ok (some (photo_key (random s.outside.drawn) ext)), s')
  failed :
      (e : Error) (s' : Session Tables Storage)
      → s'.tables ≡ s.tables
      → s'.outside.photos ≡ s.outside.photos
      → PutResult random upload s (err e, s')

module _ (random : ℕ → String) (ext : String) where
  put_at :
      (fs : List Bool) (s d : Session Tables Storage)
      → d.tables ≡ s.tables
      → d.outside.photos ≡ s.outside.photos
      → PutResult random (some ext) s (
          continue
            (λ _. succeed (some (photo_key (random s.outside.drawn) ext)))
            (call_at fs (store_photo (photo_key (random s.outside.drawn) ext)) d))
  put_at [] s d t p = stored ext _ refl t (ap (λ l. photo_key (random s.outside.drawn) ext ∷ l) p)
  put_at (true ∷ fs) s d t p = failed _ _ t p
  put_at (false ∷ fs) s d t p =
      stored ext _ refl t (ap (λ l. photo_key (random s.outside.drawn) ext ∷ l) p)

  draw_at :
      (fs : List Bool) (s : Session Tables Storage)
      → PutResult random (some ext) s (
          continue
            (λ hex d.
              continue
                (λ _. succeed (some (photo_key hex ext)))
                (call (store_photo (photo_key hex ext)) d))
            (call_at fs (draw random) s))
  draw_at [] s = put_at s.faults s _ refl refl
  draw_at (true ∷ fs) s = failed _ _ refl refl
  draw_at (false ∷ fs) s = put_at fs s _ refl refl

pub put_photo-PutResult :
    (random : ℕ → String) (upload : Option String) (s : Session Tables Storage)
    → PutResult random upload s (put_photo random upload s)
unfolding put_photo
put_photo-PutResult random none s = nothing refl
put_photo-PutResult random (some ext) s = draw_at random ext s.faults s

Any-keep :
    (k key : String) (photos : List String)
    → k ≢ key
    → Any (λ p. p ≡ k) photos
    → Any (λ p. p ≡ k) (keep (λ p. not (str_eq p key)) photos)
Any-keep k key [] n h = h
Any-keep k key (p ∷ photos) n (inl e) = ground (arith, eq_iff p key)
Any-keep k key (p ∷ photos) n (inr h) = ground (arith, Any-keep k key photos n h)

module _ (key : String) where
  drop_at :
      (fs : List Bool) (s : Session Tables Storage)
      → ((continue (λ _. succeed tt) (caught (call_at fs (drop_photo key) s))).1.tables ≡ s.tables)
        × ((k : String)
            → k ≢ key
            → Any (λ p. p ≡ k) s.outside.photos
            → Any
                (λ p. p ≡ k)
                (continue
                  (λ _. succeed tt)
                  (caught (call_at fs (drop_photo key) s))).1.outside.photos)
  drop_at [] s = (refl, λ k n h. Any-keep k key s.outside.photos n h)
  drop_at (true ∷ fs) s = (refl, λ k n h. h)
  drop_at (false ∷ fs) s = (refl, λ k n h. Any-keep k key s.outside.photos n h)

-- The deletion of a photo leaves the tables and all other photos.
pub delete_photo-keeps :
    (key : Option String) (s : Session Tables Storage)
    → ((delete_photo_best_effort key s).1.tables ≡ s.tables)
      × ((k : String)
          → key ≢ some k
          → Any (λ p. p ≡ k) s.outside.photos
          → Any (λ p. p ≡ k) (delete_photo_best_effort key s).1.outside.photos)
unfolding delete_photo_best_effort
delete_photo-keeps none s = (refl, λ k n h. h)
delete_photo-keeps (some key) s =
    let d = drop_at key s.faults s in (d.0, λ k n h. d.1 k (λ e. n (ap some (sym e))) h)
