-- ===== src/Reviews/Photos/Invariant/NoLostPhoto.antt =====
-- No kept review loses its photo.
use hamburger_evaluation.Base.{
  ℕ, ◌≡◌, refl, sym, ap, ◌∙◌, Option, none, some, String, List, [], ◌∷◌, Any, Any-weaken, arith,
}
use mathlib.Core.Path.{subst}
use hamburger_evaluation.Domain.Errors.{Result, ok, err}
use hamburger_evaluation.Transaction.{Session}
use hamburger_evaluation.Transaction.Runs.{Reads}
use hamburger_evaluation.Recalc.System.{set_worker}
use hamburger_evaluation.Reviews.{Tables, Storage, ReviewRow, ReviewDetail}
use hamburger_evaluation.Reviews.Service.{
  Job, put_photo, save, leftover, delete_photo_best_effort, photo_key,
}
use hamburger_evaluation.Reviews.Service.Effects.Saved.{save-Saves, save-err}
use hamburger_evaluation.Reviews.Service.Effects.Outside.{
  save-StaysInside, PutResult, nothing, stored, failed, put_photo-PutResult, delete_photo-keeps,
}
use hamburger_evaluation.Reviews.Service.Opened.{
  IsRead, open_create-job, open_update-job, open_delete-job, open_create-Reads, open_update-Reads,
  open_delete-Reads,
}
use hamburger_evaluation.Reviews.Photos.{
  Order, create_order, update_order, delete_order, open_order, Flight, idle, opened, uploaded,
  leaving, after_open, after_put, State, issue, IsNew, next_key, Step, begin, store, write, clean,
  cut_off, other, Reach, here, next,
}
use hamburger_evaluation.Reviews.Photos.Keys.{HasPhoto, Shown}
use hamburger_evaluation.Reviews.Photos.Invariant.{
  Stored, old_key, job_id, Inv, issued-Inv, IsFlight, idle-IsFlight, Apart, bare-Apart,
}
use hamburger_evaluation.Reviews.Photos.Invariant.Moves.{
  idle-Inv, opened-Inv, uploaded-Inv, stored-Inv, failed-Inv,
}
use hamburger_evaluation.Reviews.Photos.Invariant.Saves.{saved-Inv, cleaned-Inv}

-- The photo that a request has read is that of a kept row.
IsRead-Shown :
    (id : String) (d : ReviewDetail) (rows : List ReviewRow) (k : String)
    → IsRead id d rows
    → d.review.photo_key ≡ some k
    → Shown (λ j. j ≡ d.review.id) k rows
IsRead-Shown id d rows k h e =
    Any-weaken _ _ (λ r p. ((p.0, ap (λ v. v.photo_key) p.1 ∙ e), ap (λ v. v.id) p.1)) rows h

open_order-Shown :
    (order : Order) (s : Session Tables Storage) {job : Job} {s' : Session Tables Storage}
    → open_order order s ≡ (ok job, s')
    → (k : String) → old_key job ≡ some k
    → Shown (λ j. j ≡ job_id job) k s.tables.reviews
unfolding open_order
open_order-Shown (create_order viewer now shop_id burger_id burger_name rating comment visited_at) s
      {job} h k e =
    let (place, review, _, _, _, same, _, _) =
      open_create-job viewer now shop_id burger_id burger_name rating comment visited_at s h in
    let none_old : none ≡ some k = ap old_key (sym same) ∙ e in absurd (ground arith)
open_order-Shown (update_order viewer now id rating comment visited_at) s {job} h k e =
    let (d, same, read, _, _) = open_update-job viewer now id rating comment visited_at s h in
    subst (λ i. Shown (λ j. j ≡ i) k s.tables.reviews) (ap job_id (sym same))
      (IsRead-Shown id d s.tables.reviews k read (ap old_key (sym same) ∙ e))
open_order-Shown (delete_order viewer id) s {job} h k e =
    let (d, same, read, _) = open_delete-job viewer id s h in
    subst (λ i. Shown (λ j. j ≡ i) k s.tables.reviews) (ap job_id (sym same))
      (IsRead-Shown id d s.tables.reviews k read (ap old_key (sym same) ∙ e))

open_order-Reads : (order : Order) → Reads {T = Tables} {W = Storage} (open_order order)
unfolding open_order
open_order-Reads (create_order viewer now shop_id burger_id burger_name rating comment visited_at) =
    open_create-Reads viewer now shop_id burger_id burger_name rating comment visited_at
open_order-Reads (update_order viewer now id rating comment visited_at) =
    open_update-Reads viewer now id rating comment visited_at
open_order-Reads (delete_order viewer id) = open_delete-Reads viewer id

abbrev IsSafe : State → Type 0
IsSafe s = Inv s.session.tables.reviews s.session.outside.photos s.issued s.flights

module _ (random new_id : ℕ → String) (s : State) (inv : IsSafe s) where
  -- The tables and the photos of the session after a part, as those before or as given.
  abbrev After : Session Tables Storage → List String → (ℕ → Flight) → Type 0
  After s' issued flights = Inv s'.tables.reviews s'.outside.photos issued flights

  moved-After :
      (rows : List ReviewRow) (photos issued : List String) (flights : ℕ → Flight)
      (s' : Session Tables Storage)
      → s'.tables.reviews ≡ rows
      → s'.outside.photos ≡ photos
      → Inv rows photos issued flights
      → After s' issued flights
  moved-After rows photos issued flights s' r p h =
      subst (λ l. Inv s'.tables.reviews l issued flights) (sym p)
        (subst (λ l. Inv l photos issued flights) (sym r) h)

  begin-IsSafe :
      (i : ℕ) (order : Order) (upload : Option String) (r : Result Job)
      (s' : Session Tables Storage)
      → open_order order s.session ≡ (r, s')
      → Inv s.session.tables.reviews s.session.outside.photos s.issued
          (set_worker i (after_open upload r) s.flights)
  begin-IsSafe i order upload (ok job) s' h =
      opened-Inv s.session.tables.reviews s.session.outside.photos s.issued s.flights inv i job
        upload (open_order-Shown order s.session h)
  begin-IsSafe i order upload (err e) s' h =
      idle-Inv s.session.tables.reviews s.session.outside.photos s.issued s.flights inv i

  store-IsSafe :
      (i : ℕ) (job : Job) (upload : Option String)
      (p : Result (Option String) × Session Tables Storage)
      → s.flights i ≡ opened job upload
      → IsNew (next_key random upload s.session.outside.drawn) s.issued
      → PutResult random upload s.session p
      → After p.1
          (issue (next_key random upload s.session.outside.drawn) s.issued)
          (set_worker i (after_put job p.0) s.flights)
  store-IsSafe i job upload p at new (nothing none_asked) =
      issued-Inv s.session.tables.reviews s.session.outside.photos s.issued
        (set_worker i (uploaded job none) s.flights)
        (next_key random upload s.session.outside.drawn)
        (uploaded-Inv s.session.tables.reviews s.session.outside.photos s.issued s.flights inv i job
          upload at)
  store-IsSafe i job upload p at new (stored ext s' e t q) =
      let key = photo_key (random s.session.outside.drawn) ext in
      let named : next_key random upload s.session.outside.drawn ≡ some key =
        ap (λ u. next_key random u s.session.outside.drawn) e in
      subst (λ n. After s' (issue n s.issued) (set_worker i (uploaded job (some key)) s.flights))
        (sym named)
        (moved-After s.session.tables.reviews (key ∷ s.session.outside.photos) (key ∷ s.issued)
          (set_worker i (uploaded job (some key)) s.flights) s' (ap (λ (t : Tables). t.reviews) t) q
          (stored-Inv s.session.tables.reviews s.session.outside.photos s.issued s.flights inv i job
            upload key at (subst (λ n. IsNew n s.issued) named new)))
  store-IsSafe i job upload p at new (failed e s' t q) =
      moved-After s.session.tables.reviews s.session.outside.photos
        (issue (next_key random upload s.session.outside.drawn) s.issued)
        (set_worker i idle s.flights) s' (ap (λ (t : Tables). t.reviews) t) q
        (issued-Inv s.session.tables.reviews s.session.outside.photos s.issued
          (set_worker i idle s.flights) (next_key random upload s.session.outside.drawn)
          (idle-Inv s.session.tables.reviews s.session.outside.photos s.issued s.flights inv i))

  write-IsSafe :
      (i : ℕ) (job : Job) (key : Option String) (r : Result ReviewDetail)
      (s' : Session Tables Storage)
      → s.flights i ≡ uploaded job key
      → save new_id job key s.session ≡ (r, s')
      → After s' s.issued (set_worker i (leaving (leftover job key r)) s.flights)
  write-IsSafe i job key (err e) s' at h =
      moved-After s.session.tables.reviews s.session.outside.photos s.issued
        (set_worker i (leaving (leftover job key (err e))) s.flights) s'
        (sym (ap (λ p. p.1.tables.reviews) h)
          ∙ ap (λ (t : Tables). t.reviews) (save-err new_id job key s.session e (ap (λ p. p.0) h)))
        (sym (ap (λ p. p.1.outside.photos) h)
          ∙ ap (λ (o : Storage). o.photos) (save-StaysInside new_id job key s.session))
        (failed-Inv s.session.tables.reviews s.session.outside.photos s.issued s.flights inv i job
          key e at)
  write-IsSafe i job key (ok saved) s' at h =
      let (m, c, _, _, t, _) = save-Saves new_id job key s.session h in
      moved-After m.reviews s.session.outside.photos s.issued
        (set_worker i (leaving (leftover job key (ok saved))) s.flights) s'
        (ap (λ (t : Tables). t.reviews) t)
        (sym (ap (λ p. p.1.outside.photos) h)
          ∙ ap (λ (o : Storage). o.photos) (save-StaysInside new_id job key s.session))
        (saved-Inv s.session.tables.reviews s.session.outside.photos s.issued s.flights inv i job
          key saved m.reviews c at)

  Step-IsSafe : {t : State} → Step random new_id s t → IsSafe t
  Step-IsSafe (begin i order upload at) =
      let same = open_order-Reads order s.session in
      moved-After s.session.tables.reviews s.session.outside.photos s.issued
        (set_worker i (after_open upload (open_order order s.session).0) s.flights)
        (open_order order s.session).1 (ap (λ (t : Tables). t.reviews) same.0)
        (ap (λ (o : Storage). o.photos) same.1)
        (begin-IsSafe i order upload (open_order order s.session).0 (open_order order s.session).1
          refl)
  Step-IsSafe (store i job upload at new) =
      store-IsSafe i job upload (put_photo random upload s.session) at new
        (put_photo-PutResult random upload s.session)
  Step-IsSafe (write i job key at) =
      write-IsSafe i job key (save new_id job key s.session).0 (save new_id job key s.session).1 at
        refl
  Step-IsSafe (clean i key at) =
      let d = delete_photo-keeps key s.session in
      subst
        (λ l.
          Inv l (delete_photo_best_effort key s.session).1.outside.photos s.issued
            (set_worker i idle s.flights))
        (ap (λ (t : Tables). t.reviews) (sym d.0))
        (cleaned-Inv s.session.tables.reviews s.session.outside.photos s.issued s.flights inv i key
          (delete_photo_best_effort key s.session).1.outside.photos at d.1)
  Step-IsSafe (cut_off i) =
      idle-Inv s.session.tables.reviews s.session.outside.photos s.issued s.flights inv i
  Step-IsSafe (other t faults same) =
      subst (λ l. Inv l s.session.outside.photos s.issued s.flights) (sym same) inv

Reach-IsSafe :
    (random new_id : ℕ → String) {s t : State} → IsSafe s → Reach random new_id s t → IsSafe t
Reach-IsSafe random new_id h here = h
Reach-IsSafe random new_id h (next {t = m} r st) =
    Step-IsSafe random new_id m (Reach-IsSafe random new_id h r) st

-- Before any review: nothing to lose.
start-IsSafe :
    (s : State) → s.session.tables.reviews ≡ [] → ((i : ℕ) → s.flights i ≡ idle) → IsSafe s
start-IsSafe s empty rest =
    subst (λ l. Inv l s.session.outside.photos s.issued s.flights) (sym empty)
      (record {
        is_rows = record {
          held = λ k h. absurd h;
          given = λ k h. absurd h;
          alone = λ id k h. absurd h;
        };
        is_flight = λ i.
            subst (IsFlight [] s.session.outside.photos s.issued) (sym (rest i))
              (idle-IsFlight [] s.session.outside.photos s.issued);
        apart = λ i j d.
            subst (λ f. Apart f (s.flights j)) (sym (rest i)) (bare-Apart idle (s.flights j) refl);
      })

-- From a start without reviews, whatever requests then create, edit and delete reviews, however
-- their parts interleave, and wherever the database or the storage refuses a call or a server
-- stops: the photo of every review that is not deleted is in the storage. A key that is drawn is
-- taken not to have been drawn before.
pub no_lost_photo :
    (random new_id : ℕ → String) (start s : State)
    → start.session.tables.reviews ≡ []
    → ((i : ℕ) → start.flights i ≡ idle)
    → Reach random new_id start s
    → (k : String) → Any (HasPhoto k) s.session.tables.reviews
    → Stored k s.session.outside.photos
no_lost_photo random new_id start s empty rest r k h =
    (Reach-IsSafe random new_id (start-IsSafe start empty rest) r).is_rows.held k
      (Any-weaken _ _ (λ x p. (p, tt)) s.session.tables.reviews h)
