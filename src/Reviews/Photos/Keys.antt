-- ===== src/Reviews/Photos/Keys.antt =====
-- The keys of photos that rows refer to, and how a write changes them.
use hamburger_evaluation.Base.{
  ℕ, ◌≡◌, ◌≢◌, refl, sym, ◌∙◌, false, Option, none, some, String, List, [], ◌∷◌, map, Any,
  Any-weaken, ◌⊎◌, inl, inr, arith, eq_iff, if◌then◌else◌, ℤ,
}
use mathlib.Core.Path.{subst}
use hamburger_evaluation.Reviews.{
  ReviewRow, ReviewDetail, is_kept, edit_kept, edit_content, edit_photo_key, discard_row,
}
use hamburger_evaluation.Reviews.Service.{Job, creating, editing, deleting}
use hamburger_evaluation.Reviews.Service.Effects.{Changed}

-- A kept review has the photo `k`.
abbrev pub HasPhoto : String → ReviewRow → Type 0
HasPhoto k r = (r.discarded ≡ false) × (r.review.photo_key ≡ some k)

-- One with an id that has a property.
abbrev pub Shown : (String → Type 0) → String → List ReviewRow → Type 0
Shown P k rows = Any (λ r. HasPhoto k r × P r.review.id) rows

abbrev pub Shows : String → List ReviewRow → Type 0
Shows k rows = Shown (λ _. Unit) k rows

abbrev pub Elsewhere : String → String → List ReviewRow → Type 0
Elsewhere id k rows = Shown (λ j. j ≢ id) k rows

Any-map :
    (P Q : ReviewRow → Type 0) (C : Type 0) (f : ReviewRow → ReviewRow)
    → ((r : ReviewRow) → Q (f r) → P r ⊎ C)
    → (rows : List ReviewRow) → Any Q (map f rows)
    → Any P rows ⊎ C
Any-map P Q C f back [] h = absurd h
Any-map P Q C f back (r ∷ rows) (inl h) = elim (back r h) [ inl p ↦ inl (inl p) | inr c ↦ inr c ]
Any-map P Q C f back (r ∷ rows) (inr h) = elim (Any-map P Q C f back rows h) [
  | inl p ↦ inl (inr p)
  | inr c ↦ inr c
]

abbrev edited : (ReviewRow → ReviewRow) → String → ReviewRow → ReviewRow
edited edit id r = if is_kept id r then edit r else r

-- Back from an edited row: what it shows it showed before, or it is the new key.
content-back :
    (k id : String) (rating : ℤ) (comment : String) (visited_at : Option ℕ) (r : ReviewRow)
    → HasPhoto k (edited (edit_content rating comment visited_at) id r)
    → HasPhoto k r
content-back k id rating comment visited_at r h = ground arith

key-back :
    (k id : String) (key : Option String) (r : ReviewRow)
    → HasPhoto k (edited (edit_photo_key key) id r)
    → HasPhoto k r ⊎ (key ≡ some k)
key-back k id key r h = ground arith

discard-back : (k id : String) (r : ReviewRow) → HasPhoto k (edited discard_row id r) → HasPhoto k r
discard-back k id r h = ground arith

edited-id :
    (id : String) (edit : ReviewRow → ReviewRow) (r : ReviewRow)
    → ((x : ReviewRow) → (edit x).review.id ≡ x.review.id)
    → (edited edit id r).review.id ≡ r.review.id
edited-id id edit r same = ground (arith, same r)

-- The row with the id shows the old key no more.
key-gone :
    (k id : String) (key : Option String) (r : ReviewRow)
    → HasPhoto k (edited (edit_photo_key key) id r)
    → (HasPhoto k r × (r.review.id ≢ id)) ⊎ (key ≡ some k)
key-gone k id key r h = ground (arith, eq_iff r.review.id id)

discard-gone :
    (k id : String) (r : ReviewRow)
    → HasPhoto k (edited discard_row id r)
    → HasPhoto k r × (r.review.id ≢ id)
discard-gone k id r h = (ground arith, ground (arith, eq_iff r.review.id id))

module _ (P : String → Type 0) (k : String) where
  content-Shown :
      (C : Type 0) (id : String) (rating : ℤ) (comment : String) (visited_at : Option ℕ)
      (rows : List ReviewRow)
      → Shown P k (edit_kept (edit_content rating comment visited_at) id rows)
      → Shown P k rows ⊎ C
  content-Shown C id rating comment visited_at rows h =
      Any-map (λ r. HasPhoto k r × P r.review.id) (λ r. HasPhoto k r × P r.review.id) C
        (edited (edit_content rating comment visited_at) id)
        (λ r p. inl (
          content-back k id rating comment visited_at r p.0,
          subst P (edited-id id (edit_content rating comment visited_at) r (λ x. refl)) p.1,
        ))
        rows h

  key-Shown :
      (id : String) (key : Option String) (rows : List ReviewRow)
      → Shown P k (edit_kept (edit_photo_key key) id rows)
      → Shown P k rows ⊎ (key ≡ some k)
  key-Shown id key rows h =
      Any-map (λ r. HasPhoto k r × P r.review.id) (λ r. HasPhoto k r × P r.review.id) (key ≡ some k)
        (edited (edit_photo_key key) id)
        (λ r p. elim (key-back k id key r p.0) [
          | inl q ↦ inl (q, subst P (edited-id id (edit_photo_key key) r (λ x. refl)) p.1)
          | inr e ↦ inr e
        ])
        rows h

  discard-Shown :
      (C : Type 0) (id : String) (rows : List ReviewRow)
      → Shown P k (edit_kept discard_row id rows)
      → Shown P k rows ⊎ C
  discard-Shown C id rows h =
      Any-map (λ r. HasPhoto k r × P r.review.id) (λ r. HasPhoto k r × P r.review.id) C
        (edited discard_row id)
        (λ r p. inl (discard-back k id r p.0, subst P (edited-id id discard_row r (λ x. refl)) p.1))
        rows h

  -- After a write, what rows show they showed before, or it is the key that was written.
  pub Shown-Changed :
      (job : Job) (key : Option String) (rows rows' : List ReviewRow)
      → Changed job key rows rows'
      → Shown P k rows'
      → Shown P k rows ⊎ (key ≡ some k)
  Shown-Changed (creating viewer place review) key rows rows' (r, e, same, _, _) h =
      elim (subst (Shown P k) e h) [ inl p ↦ inr (sym same ∙ p.0.1) | inr rest ↦ inl rest ]
  Shown-Changed (editing d rating comment visited_at) none rows rows' e h =
      content-Shown (none ≡ some k) d.review.id rating comment visited_at rows
        (subst (Shown P k) e h)
  Shown-Changed (editing d rating comment visited_at) (some key) rows rows' e h =
      elim (key-Shown d.review.id (some key)
        (edit_kept (edit_content rating comment visited_at) d.review.id rows)
        (subst (Shown P k) e h)) [
          | inl p ↦ content-Shown (some key ≡ some k) d.review.id rating comment visited_at rows p
          | inr same ↦ inr same
        ]
  Shown-Changed (deleting d) key rows rows' e h =
      discard-Shown (key ≡ some k) d.review.id rows (subst (Shown P k) e h)

-- The photo of `d.review` that a write leaves over is shown by other reviews only, if at all.
module _ (k : String) where
  pub Shows-replaced :
      (d : ReviewDetail) (rating : ℤ) (comment : String) (visited_at : Option ℕ) (key : String)
      (rows rows' : List ReviewRow)
      → Changed (editing d rating comment visited_at) (some key) rows rows'
      → Shows k rows'
      → Elsewhere d.review.id k rows ⊎ (some key ≡ some k)
  Shows-replaced d rating comment visited_at key rows rows' e h =
      elim (Any-map (λ r. HasPhoto k r × (r.review.id ≢ d.review.id)) (λ r. HasPhoto k r × Unit)
        (some key ≡ some k) (edited (edit_photo_key (some key)) d.review.id)
        (λ r p. key-gone k d.review.id (some key) r p.0)
        (edit_kept (edit_content rating comment visited_at) d.review.id rows)
        (subst (Shows k) e h)) [
          | inl p ↦
              content-Shown (λ j. j ≢ d.review.id) k (some key ≡ some k) d.review.id rating comment
                visited_at rows p
          | inr same ↦ inr same
        ]

  pub Shows-discarded :
      (d : ReviewDetail) (key : Option String) (rows rows' : List ReviewRow)
      → Changed (deleting d) key rows rows'
      → Shows k rows'
      → Elsewhere d.review.id k rows ⊎ ⊥
  Shows-discarded d key rows rows' e h =
      Any-map (λ r. HasPhoto k r × (r.review.id ≢ d.review.id)) (λ r. HasPhoto k r × Unit) ⊥
        (edited discard_row d.review.id) (λ r p. inl (discard-gone k d.review.id r p.0)) rows
        (subst (Shows k) e h)

-- The review that a write gives its key to.
pub written_id :
    (job : Job) (key : Option String) (rows rows' : List ReviewRow)
    → Changed job key rows rows'
    → String
written_id (creating viewer place review) key rows rows' (r, _, _, _, _) = r.review.id
written_id (editing d rating comment visited_at) key rows rows' e = d.review.id
written_id (deleting d) key rows rows' e = d.review.id

key-at :
    (k id : String) (key : Option String) (r : ReviewRow)
    → HasPhoto k (edited (edit_photo_key key) id r)
    → HasPhoto k r ⊎ (r.review.id ≡ id)
key-at k id key r h = ground (arith, eq_iff r.review.id id)

module _ (P : String → Type 0) (k : String) where
  -- A key that was shown by no row is afterwards shown by the written review alone.
  pub Shown-written :
      (job : Job) (key : Option String) (rows rows' : List ReviewRow)
      (c : Changed job key rows rows')
      → (Shows k rows → ⊥)
      → Shown P k rows'
      → P (written_id job key rows rows' c)
  unfolding written_id
  Shown-written (creating viewer place review) key rows rows' (r, e, _, _, _) unseen h =
      elim (subst (Shown P k) e h) [
        | inl p ↦ p.1
        | inr rest ↦ absurd (unseen (Any-weaken _ _ (λ x p. (p.0, tt)) rows rest))
      ]
  Shown-written (editing d rating comment visited_at) none rows rows' e unseen h =
      elim (content-Shown P k ⊥ d.review.id rating comment visited_at rows
        (subst (Shown P k) e h)) [
          | inl p ↦ absurd (unseen (Any-weaken _ _ (λ x p. (p.0, tt)) rows p))
          | inr b ↦ absurd b
        ]
  Shown-written (editing d rating comment visited_at) (some key) rows rows' e unseen h =
      let edits = edit_kept (edit_content rating comment visited_at) d.review.id rows in
      elim (Any-map (λ r. HasPhoto k r × Unit) (λ r. HasPhoto k r × P r.review.id) (P d.review.id)
        (edited (edit_photo_key (some key)) d.review.id)
        (λ r p. elim (key-at k d.review.id (some key) r p.0) [
          | inl q ↦ inl (q, tt)
          | inr same ↦
              inr (
                subst P (edited-id d.review.id (edit_photo_key (some key)) r (λ x. refl) ∙ same)
                  p.1)
        ])
        edits (subst (Shown P k) e h)) [
          | inl p ↦
              elim (content-Shown (λ _. Unit) k ⊥ d.review.id rating comment visited_at rows p) [
                | inl q ↦ absurd (unseen q)
                | inr b ↦ absurd b
              ]
          | inr at ↦ at
        ]
  Shown-written (deleting d) key rows rows' e unseen h =
      elim (discard-Shown P k ⊥ d.review.id rows (subst (Shown P k) e h)) [
        | inl p ↦ absurd (unseen (Any-weaken _ _ (λ x p. (p.0, tt)) rows p))
        | inr b ↦ absurd b
      ]
