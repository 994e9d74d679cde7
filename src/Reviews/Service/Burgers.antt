-- ===== src/Reviews/Service/Burgers.antt =====
-- The burger of a new review: the one that Create of usecase/reviews.go reads by its id, or finds or
-- makes by its name (CreateShopBurger of adapter/repository/review_repository.go).
use hamburger_evaluation.Base.{
  ℕ, ◌≡◌, refl, sym, ap, ◌∙◌, Bool, true, false, Option, none, some, String, List, [], ◌∷◌, ◌++◌,
  Any, inl, inr, arith, str_eq, eq_iff, any, find, ◌≢◌, ◌⊎◌, ◌&&◌, false, find-Any, Any-weaken,
  Bool-cases,
}
use mathlib.Core.Path.{subst}
use hamburger_evaluation.Transaction.{Session, lift}
use hamburger_evaluation.Transaction.Runs.{continue-ok, statement-ok, transaction-ok, ok-injective}
use hamburger_evaluation.Domain.Errors.{ok, burger_not_found}
use hamburger_evaluation.Domain.Rules.Chars.{is_empty}
use hamburger_evaluation.Domain.Rules.Names.{validate_burger_name}
use hamburger_evaluation.Login.{found_or}
use hamburger_evaluation.Login.Runs.{found_or-ok}
use hamburger_evaluation.Domain.Review.{Review}
use hamburger_evaluation.Reviews.{
  Tables, Storage, Burger, Link, is_link, create_linked, create_shop_burger, get_shop_burger,
  is_named, insert_burger, insert_link,
}
use hamburger_evaluation.Reviews.Service.{Place, known, named, find_place, placed, resolve_place}

-- The burger of a new review: the one with the given id, or one of the given name that the shop has.
abbrev pub IsPlaced : Place → String → String → Tables → Type 0
IsPlaced (known b) given id t = id ≡ given
IsPlaced (named shop_id name) given id t =
    Any (λ (b : Burger). (b.id ≡ id) × (b.name ≡ name)) t.burgers
    × Any (λ (l : Link). (l.shop_id ≡ shop_id) × (l.burger_id ≡ id)) t.links

-- How the burger is given: with an id, the shop has it; without one, its name is given.
abbrev pub IsGiven : Place → String → String → String → Tables → Type 0
IsGiven (known b) shop_id burger_id name t =
    (burger_id ≢ "") × Any (λ (l : Link). (l.shop_id ≡ shop_id) × (l.burger_id ≡ burger_id)) t.links
IsGiven (named shop called) shop_id burger_id name t =
    (burger_id ≡ "") × (shop ≡ shop_id) × (called ≡ name)

-- The burger `id` of a review that was asked for with `burger_id` and `name`: the one with the id,
-- which the shop had at the start (`t`), or, without an id, one of that name that it has now.
abbrev pub IsAt : String → String → String → String → Tables → Tables → Type 0
IsAt shop_id burger_id name id t t' =
    ((burger_id ≢ "")
      × (id ≡ burger_id)
      × Any (λ (l : Link). (l.shop_id ≡ shop_id) × (l.burger_id ≡ id)) t.links)
    ⊎ ((burger_id ≡ "")
        × Any (λ (b : Burger). (b.id ≡ id) × (b.name ≡ name)) t'.burgers
        × Any (λ (l : Link). (l.shop_id ≡ shop_id) × (l.burger_id ≡ id)) t'.links)

pub IsPlaced-IsAt :
    (place : Place) (shop_id burger_id name id : String) (t t' : Tables)
    → IsGiven place shop_id burger_id name t
    → IsPlaced place burger_id id t'
    → IsAt shop_id burger_id name id t t'
IsPlaced-IsAt (known b) shop_id burger_id name id t t' (some_id, linked) h = inl (
  some_id,
  h,
  subst (λ i. Any (λ (l : Link). (l.shop_id ≡ shop_id) × (l.burger_id ≡ i)) t.links) (sym h) linked,
)
IsPlaced-IsAt (named shop called) shop_id burger_id name id t t' (no_id, at, is) h = inr (
  no_id,
  subst (λ n. Any (λ (b : Burger). (b.id ≡ id) × (b.name ≡ n)) t'.burgers) is h.0,
  subst (λ x. Any (λ (l : Link). (l.shop_id ≡ x) × (l.burger_id ≡ id)) t'.links) at h.1,
)

pub IsPlaced-moves :
    (place : Place) (given id : String) (t u : Tables)
    → u.burgers ≡ t.burgers
    → u.links ≡ t.links
    → IsPlaced place given id t
    → IsPlaced place given id u
IsPlaced-moves (known b) given id t u x y h = h
IsPlaced-moves (named shop_id name) given id t u x y h = (
  subst (Any (λ (b : Burger). (b.id ≡ id) × (b.name ≡ name))) (sym x) h.0,
  subst (Any (λ (l : Link). (l.shop_id ≡ shop_id) × (l.burger_id ≡ id))) (sym y) h.1,
)

any-linked :
    (shop_id id : String) (links : List Link)
    → any (is_link shop_id id) links ≡ true
    → Any (λ (l : Link). (l.shop_id ≡ shop_id) × (l.burger_id ≡ id)) links
any-linked shop_id id [] h = absurd (ground arith)
any-linked shop_id id (l ∷ links) h = elim (Bool-cases (is_link shop_id id l)) [
  | inl e ↦ inl (ground (arith, eq_iff l.shop_id shop_id), ground (arith, eq_iff l.burger_id id))
  | inr e ↦ inr (any-linked shop_id id links (ground arith))
]

Any-last : (P : Burger → Type 0) (xs : List Burger) (x : Burger) → P x → Any P (xs ++ (x ∷ []))
Any-last P [] x p = inl p
Any-last P (y ∷ xs) x p = inr (Any-last P xs x p)

Any-both : (x : Burger) (Q : Type 0) (ys : List Burger) → Any (λ y. (y ≡ x) × Q) ys → Q
Any-both x Q [] h = absurd h
Any-both x Q (y ∷ ys) (inl h) = h.1
Any-both x Q (y ∷ ys) (inr h) = Any-both x Q ys h

module _ (new_id : ℕ → String) (shop_id name given : String) where
  found-IsPlaced :
      (t : Tables) (b : Burger)
      → find (is_named new_id shop_id name t) t.burgers ≡ some b
      → IsPlaced (named shop_id name) given b.id t
  found-IsPlaced t b h =
      let there = find-Any (is_named new_id shop_id name t) t.burgers h in
      let is = Any-both b (is_named new_id shop_id name t b ≡ true) t.burgers there in
      let called : b.name ≡ name = ground (arith, eq_iff b.name name) in
      (
        Any-weaken _ _
            (λ y p. (ap (λ (x : Burger). x.id) p.0, ap (λ (x : Burger). x.name) p.0 ∙ called))
            t.burgers there,
        any-linked shop_id b.id t.links (ground arith),
      )

  create_linked-IsPlaced :
      (found : Option Burger) (s : Session Tables Storage) {b : Burger}
      {s' : Session Tables Storage}
      → find (is_named new_id shop_id name s.tables) s.tables.burgers ≡ found
      → create_linked new_id shop_id name found s ≡ (ok b, s')
      → IsPlaced (named shop_id name) given b.id s'.tables
  unfolding create_linked insert_burger insert_link
  create_linked-IsPlaced (some c) s {b} {s'} f h =
      subst (λ (t : Tables). IsPlaced (named shop_id name) given b.id t) (ap (λ p. p.1.tables) h)
        (found-IsPlaced s.tables b (f ∙ ap some (ok-injective (ap (λ p. p.0) h))))
  create_linked-IsPlaced none s {b} {s'} f h =
      let (c, d, made, rest) = continue-ok _ _ h in
      let (e, t, _) = statement-ok (insert_burger new_id name) s made in
      let (_, d', linked, last) = continue-ok _ _ rest in
      let (_, t', _) = statement-ok (insert_link new_id shop_id c.id) d linked in
      let same : c.id ≡ b.id = ap (λ (x : Burger). x.id) (ok-injective (ap (λ p. p.0) last)) in
      let new : c.id ≡ new_id s.tables.serial = ap (λ (x : Burger). x.id) (sym (ok-injective e)) in
      let end : s'.tables ≡ d'.tables = ap (λ p. p.1.tables) (sym last) in
      (
        subst (Any (λ (x : Burger). (x.id ≡ b.id) × (x.name ≡ name)))
            (sym (ap (λ (t : Tables). t.burgers) (end ∙ t') ∙ ap (λ (t : Tables). t.burgers) t))
            (Any-last (λ x. (x.id ≡ b.id) × (x.name ≡ name)) s.tables.burgers _
              (sym new ∙ same, refl)),
        subst (Any (λ (l : Link). (l.shop_id ≡ shop_id) × (l.burger_id ≡ b.id)))
            (sym (ap (λ (t : Tables). t.links) (end ∙ t'))) (inl (refl, same)),
      )

module _ (new_id : ℕ → String) where
  pub find_place-IsPlaced :
      (place : Place) (review : Review) (s : Session Tables Storage) {b : Burger}
      {s' : Session Tables Storage}
      → find_place new_id place s ≡ (ok b, s')
      → IsPlaced place review.burger_id (placed new_id place b review).burger_id s'.tables
  unfolding find_place create_shop_burger placed
  find_place-IsPlaced (known burger) review s h = refl
  find_place-IsPlaced (named shop_id name) review s {b} {s' = s'} h =
      let (d, d', start, ran, end) = transaction-ok _ s h in
      let (found, m, read, rest) = continue-ok _ _ ran in
      let (e, t, _) =
        statement-ok (λ t. (ok (find (is_named new_id shop_id name t) t.burgers), t)) d read in
      let is : find (is_named new_id shop_id name m.tables) m.tables.burgers ≡ found =
        ap (λ (t : Tables). find (is_named new_id shop_id name t) t.burgers) t ∙ ok-injective e in
      subst (λ (t : Tables). IsPlaced (named shop_id name) review.burger_id b.id t) (sym end)
        (create_linked-IsPlaced new_id shop_id name review.burger_id found m is rest)

empty-eq : (text : String) → is_empty text ≡ true → text ≡ ""
empty-eq String.[] h = refl
empty-eq (String.◌∷◌ c text) h = absurd (ground arith)

empty-neq : (text : String) → is_empty text ≡ false → text ≢ ""
empty-neq text h e = absurd (ground (arith, ap is_empty e))

pub resolve_place-IsGiven :
    (by_name : Bool) (shop_id burger_id name : String) (s : Session Tables Storage) {place : Place}
    {s' : Session Tables Storage}
    → is_empty burger_id ≡ by_name
    → resolve_place by_name shop_id burger_id name s ≡ (ok place, s')
    → IsGiven place shop_id burger_id name s.tables
unfolding resolve_place get_shop_burger
resolve_place-IsGiven true shop_id burger_id name s {place} e h =
    let (_, m, _, rest) =
      continue-ok (λ (_ : Unit {0}) (m : Session Tables Storage). (ok (named shop_id name), m))
        (lift (validate_burger_name name) s) h in
    let is : named shop_id name ≡ place = ok-injective (ap (λ p. p.0) rest) in
    let given : IsGiven (named shop_id name) shop_id burger_id name s.tables =
      (empty-eq burger_id e, refl, refl) in
    subst (λ p. IsGiven p shop_id burger_id name s.tables) is given
resolve_place-IsGiven false shop_id burger_id name s {place} e h =
    let (b, m, read, rest) = continue-ok _ _ h in
    let got =
      statement-ok
        (λ t. (
          found_or burger_not_found
              (find (λ b. str_eq b.id burger_id && any (is_link shop_id b.id) t.links) t.burgers),
          t,
        ))
        s read in
    let test : Burger → Bool =
      λ b. str_eq b.id burger_id && any (is_link shop_id b.id) s.tables.links in
    let there =
      find-Any test s.tables.burgers
        (found_or-ok burger_not_found (find test s.tables.burgers) got.0) in
    let passed = Any-both b (test b ≡ true) s.tables.burgers there in
    let same : b.id ≡ burger_id = ground (arith, eq_iff b.id burger_id) in
    let linked : any (is_link shop_id b.id) s.tables.links ≡ true = ground arith in
    let is : known b ≡ place = ok-injective (ap (λ p. p.0) rest) in
    let given : IsGiven (known b) shop_id burger_id name s.tables = (
      empty-neq burger_id e,
      any-linked shop_id burger_id s.tables.links
          (subst (λ i. any (is_link shop_id i) s.tables.links ≡ true) same linked),
    ) in
    subst (λ p. IsGiven p shop_id burger_id name s.tables) is given
