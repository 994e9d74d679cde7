-- ===== src/Moderation/Writes.antt =====
-- What one write on the table of shops preserves (adapter/repository/shop_repository.go).
use hamburger_evaluation.Base.{
  ◌≤◌, ◌≡◌, refl, ap, ◌∙◌, true, false, none, some, String, [], ◌∷◌, str_eq, any, All, arith,
  Bool-cases, inl, inr, eq_iff,
}
use hamburger_evaluation.Base.Text.{rune_count}
use hamburger_evaluation.Domain.Rules.Chars.{HasInk}
use hamburger_evaluation.Domain.Shop.{Shop, is_some, is_rejected}
use hamburger_evaluation.Moderation.{
  Shops, is_shop, change, update_shop_status, update_shop_closed_at, update_shop_name, Write,
  perform,
}
use hamburger_evaluation.Moderation.Flight.{is_pending}

-- A note is kept with a rejected shop only, only a shop that was approved once is closed, and the
-- name is valid.
pub record IsSound (s : Shop) : Type 0 where
  pub noted : is_some s.moderation_note ≡ true → is_rejected s.status ≡ true
  pub once_active : is_some s.closed_at ≡ true → is_pending s.status ≡ false
  pub named : HasInk s.name × (rune_count s.name ≤ 100)

abbrev pub IsDecided : String → Shop → Type 0
IsDecided id s = is_shop id s ≡ true → is_pending s.status ≡ false

-- What is known of a write in flight.
abbrev pub IsSafe : Shops → Write → Type 0
IsSafe shops (Write.insert s) = IsSound s
IsSafe shops (Write.status id to) =
    (is_some to.moderation_note ≡ true → is_rejected to.status ≡ true)
    × (is_pending to.status ≡ false)
IsSafe shops (Write.closed_at id none) = Unit
IsSafe shops (Write.closed_at id (some at)) =
    (any (is_shop id) shops ≡ true) × All (IsDecided id) shops
IsSafe shops (Write.name id n link) = HasInk n × (rune_count n ≤ 100)

All-change :
    (P Q : Shop → Type 0) (f : Shop → Shop) (id : String)
    → ((s : Shop) → is_shop id s ≡ true → P s → Q s → P (f s))
    → (shops : Shops) → All P shops
    → All (λ s. is_shop id s ≡ true → Q s) shops
    → All P (change f id shops)
unfolding change
All-change P Q f id h [] p q = tt
All-change P Q f id h (s ∷ shops) p q = elim (Bool-cases (is_shop id s)) [
  | inl e ↦ (rw e (h s e p.0 (q.0 e)), All-change P Q f id h shops p.1 q.1)
  | inr e ↦ (rw e p.0, All-change P Q f id h shops p.1 q.1)
]

All-trivial : (id : String) (shops : Shops) → All (λ s. is_shop id s ≡ true → Unit {0}) shops
All-trivial id [] = tt
All-trivial id (s ∷ shops) = (λ _. tt, All-trivial id shops)

pub perform-IsSound :
    (new_id : String) (w : Write) (shops : Shops)
    → IsSafe shops w
    → All IsSound shops
    → All IsSound (perform new_id w shops)
unfolding perform update_shop_status update_shop_closed_at update_shop_name
perform-IsSound new_id (Write.insert s) shops w h =
    (record { noted = w.noted; once_active = w.once_active; named = w.named }, h)
perform-IsSound new_id (Write.status id to) shops w h =
    All-change IsSound (λ s. Unit) _ id
      (λ s e p _. record { noted = w.0; once_active = λ _. w.1; named = p.named }) shops h
      (All-trivial id shops)
perform-IsSound new_id (Write.closed_at id none) shops w h =
    All-change IsSound (λ s. Unit) _ id
      (λ s e p _. record {
        noted = p.noted;
        once_active = λ k. absurd (ground arith);
        named = p.named;
      })
      shops h (All-trivial id shops)
perform-IsSound new_id (Write.closed_at id (some at)) shops w h =
    All-change IsSound (λ s. is_pending s.status ≡ false) _ id
      (λ s e p q. record { noted = p.noted; once_active = λ _. q; named = p.named }) shops h w.1
perform-IsSound new_id (Write.name id n link) shops w h =
    All-change IsSound (λ s. Unit) _ id
      (λ s e p _. record { noted = p.noted; once_active = p.once_active; named = w }) shops h
      (All-trivial id shops)

any-change :
    (f : Shop → Shop) (id id' : String)
    → ((s : Shop) → is_shop id' (f s) ≡ is_shop id' s)
    → (shops : Shops) → any (is_shop id') (change f id shops) ≡ any (is_shop id') shops
unfolding change
any-change f id id' h [] = refl
any-change f id id' h (s ∷ shops) = elim (Bool-cases (is_shop id s)) [
  | inl e ↦ let k = h s in ground (arith, any-change f id id' h shops)
  | inr e ↦ ground (arith, any-change f id id' h shops)
]

abbrev AreDecided : String → Shops → Type 0
AreDecided id shops = (any (is_shop id) shops ≡ true) × All (IsDecided id) shops

perform-AreDecided :
    (new_id : String) (w : Write) (shops : Shops) (id : String)
    → any (is_shop new_id) shops ≡ false
    → IsSafe shops w
    → AreDecided id shops
    → AreDecided id (perform new_id w shops)
unfolding perform update_shop_status update_shop_closed_at update_shop_name
perform-AreDecided new_id (Write.insert s) shops id n w d = (
  ground arith,
  (
    λ e. absurd (
        let same : new_id ≡ id = (eq_iff new_id id).0 e in
        let k : any (is_shop new_id) shops ≡ true = ap (λ i. any (is_shop i) shops) same ∙ d.0 in
        ground arith),
    d.1,
  ),
)
perform-AreDecided new_id (Write.status i to) shops id n w d = (
  any-change _ i id (λ s. refl) shops ∙ d.0,
  All-change (IsDecided id) (λ s. Unit) _ i (λ s e p q k. w.1) shops d.1 (All-trivial i shops),
)
perform-AreDecided new_id (Write.closed_at i at) shops id n w d = (
  any-change _ i id (λ s. refl) shops ∙ d.0,
  All-change (IsDecided id) (λ s. Unit) _ i (λ s e p q. p) shops d.1 (All-trivial i shops),
)
perform-AreDecided new_id (Write.name i m link) shops id n w d = (
  any-change _ i id (λ s. refl) shops ∙ d.0,
  All-change (IsDecided id) (λ s. Unit) _ i (λ s e p q. p) shops d.1 (All-trivial i shops),
)

pub perform-IsSafe :
    (new_id : String) (w : Write) (shops : Shops)
    → any (is_shop new_id) shops ≡ false
    → IsSafe shops w
    → (v : Write) → IsSafe shops v
    → IsSafe (perform new_id w shops) v
perform-IsSafe new_id w shops n k (Write.insert s) h = h
perform-IsSafe new_id w shops n k (Write.status id to) h = h
perform-IsSafe new_id w shops n k (Write.closed_at id none) h = h
perform-IsSafe new_id w shops n k (Write.closed_at id (some at)) h =
    perform-AreDecided new_id w shops id n k h
perform-IsSafe new_id w shops n k (Write.name id m link) h = h

-- The primary key of the table.
unfoldable pub IsKeyed : Shops → Type 0
IsKeyed [] = Unit
IsKeyed (s ∷ shops) = (any (is_shop s.id) shops ≡ false) × IsKeyed shops

change-IsKeyed :
    (f : Shop → Shop) (id : String)
    → ((s : Shop) → (f s).id ≡ s.id)
    → (shops : Shops) → IsKeyed shops
    → IsKeyed (change f id shops)
unfolding change IsKeyed
change-IsKeyed f id h [] k = tt
change-IsKeyed f id h (s ∷ shops) k =
    let rest = any-change f id s.id (λ x. ap (λ i. str_eq i s.id) (h x)) shops ∙ k.0 in
    elim (Bool-cases (is_shop id s)) [
      | inl e ↦ (rw (e, h s) rest, change-IsKeyed f id h shops k.1)
      | inr e ↦ (rw e rest, change-IsKeyed f id h shops k.1)
    ]

pub perform-IsKeyed :
    (new_id : String) (w : Write) (shops : Shops)
    → any (is_shop new_id) shops ≡ false
    → IsKeyed shops
    → IsKeyed (perform new_id w shops)
unfolding perform update_shop_status update_shop_closed_at update_shop_name IsKeyed
perform-IsKeyed new_id (Write.insert s) shops n k = (n, k)
perform-IsKeyed new_id (Write.status id to) shops n k = change-IsKeyed _ id (λ s. refl) shops k
perform-IsKeyed new_id (Write.closed_at id at) shops n k = change-IsKeyed _ id (λ s. refl) shops k
perform-IsKeyed new_id (Write.name id m link) shops n k = change-IsKeyed _ id (λ s. refl) shops k
