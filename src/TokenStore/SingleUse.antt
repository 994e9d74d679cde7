-- ===== src/TokenStore/SingleUse.antt =====
-- Sequences of operations on the records, in the order in which the database commits them: a code
-- or a refresh token is spent once at most (OAuthTokenSessions.Use, OAuthTokenSessions.Rotate).
use hamburger_evaluation.Base.{
  ℕ, ◌+◌, ◌≤◌, ◌≡◌, refl, Bool, true, false, ◌&&◌, Option, none, some, String, List, [], ◌∷◌, arith,
  str_eq, eq_iff, if◌then◌else◌, keep, any, Bool-cases, inl, inr, ◌⊎◌,
}
use hamburger_evaluation.Domain.Errors.{Result, ok, err}
use hamburger_evaluation.TokenStore.{
  OAuthTokenKind, same_kind, OAuthTokenSession, Store, has_key, is_live, save, deactivate_where,
  count_where, use_session, rotates, rotate, drop_access, revoke_request, forget, discard_expired,
  create_oauth_token_session, why_not_updated, refusal, get_oauth_token_session,
}
use hamburger_evaluation.TokenStore.Keys.{
  IsSpent, IsUnique, keep-IsSpent, deactivate-IsSpent, deactivate-live, spent-count, keep-keep,
  keep-deactivate, absent-count, rotate-live,
}

pub data Op : Type 0 where
  saving : OAuthTokenSession → Op
  using : OAuthTokenKind → String → Op
  rotating : String → String → Op
  revoking : String → Op
  forgetting : OAuthTokenKind → String → Op
  discarding : (OAuthTokenSession → Bool) → ℕ → ℕ → Op

abbrev pub succeeds : Result (Unit {0}) → Bool
succeeds (ok x) = true
succeeds (err e) = false

unfoldable pub apply : Op → Store → Store
apply (Op.saving r) rows = (save r rows).0
apply (Op.using k s) rows = (use_session k s rows).0
apply (Op.rotating q s) rows = (rotate q s rows).0
apply (Op.revoking q) rows = revoke_request q rows
apply (Op.forgetting k s) rows = forget k s rows
apply (Op.discarding held now limit) rows = (discard_expired held now limit rows).0

-- The operation spends the record under a key: it is used, or rotated as a refresh token.
spends : OAuthTokenKind → String → Op → Store → Bool
spends k s (Op.using k' s') rows =
    same_kind k' k && str_eq s' s && succeeds (use_session k' s' rows).1
spends k s (Op.rotating q s') rows =
    same_kind OAuthTokenKind.refresh_token k && str_eq s' s && succeeds (rotate q s' rows).1
spends k s _ rows = false

unfoldable pub saves : OAuthTokenKind → String → Op → Bool
saves k s (Op.saving r) = has_key k s r
saves k s _ = false

-- How often a sequence spends the record under a key.
unfoldable pub times_spent : OAuthTokenKind → String → List Op → Store → ℕ
unfolding apply spends
times_spent k s [] rows = 0
times_spent k s (op ∷ ops) rows =
    let rest = times_spent k s ops (apply op rows) in if spends k s op rows then 1 + rest else rest

refusal-fails : (o : Option OAuthTokenSession) → succeeds (refusal o) ≡ false
refusal-fails none = refl
refusal-fails (some r) = refl

pub why_not-fails :
    (k : OAuthTokenKind) (s : String) (rows : Store) → succeeds (why_not_updated k s rows) ≡ false
unfolding why_not_updated
why_not-fails k s rows = refusal-fails (get_oauth_token_session k s rows)

-- What a use does, by the number of rows that it changed.
use-succeeds :
    (k : OAuthTokenKind) (s : String) (rows : Store)
    → succeeds (use_session k s rows).1 ≡ true
    → count_where (is_live k s) rows ≡ 1
unfolding use_session
use-succeeds k s rows h = ground (arith, why_not-fails k s (deactivate_where (is_live k s) rows))

use-rows :
    (k : OAuthTokenKind) (s : String) (rows : Store)
    → (use_session k s rows).0 ≡ deactivate_where (is_live k s) rows
unfolding use_session
use-rows k s rows = ground arith

rotate-succeeds :
    (q s : String) (rows : Store)
    → succeeds (rotate q s rows).1 ≡ true
    → (count_where (rotates q s) rows ≡ 1)
      × ((rotate q s rows).0 ≡ drop_access q (deactivate_where (rotates q s) rows))
unfolding rotate
rotate-succeeds q s rows h = ground (
  arith,
  why_not-fails OAuthTokenKind.refresh_token s rows,
  why_not-fails OAuthTokenKind.refresh_token s
      (drop_access q (deactivate_where (rotates q s) rows)),
)

rotate-rows :
    (q s : String) (rows : Store)
    → ((rotate q s rows).0 ≡ rows)
      ⊎ ((rotate q s rows).0 ≡ drop_access q (deactivate_where (rotates q s) rows))
unfolding rotate
rotate-rows q s rows = ground arith

module _ (k : OAuthTokenKind) (s : String) where
  apply-IsSpent :
      (op : Op) (rows : Store)
      → saves k s op ≡ false
      → IsSpent k s rows
      → IsSpent k s (apply op rows)
  unfolding apply saves save create_oauth_token_session revoke_request forget discard_expired
      drop_access
  apply-IsSpent (Op.saving r) rows n h = ground arith
  apply-IsSpent (Op.using k' s') rows n h =
      rw (use-rows k' s' rows) (deactivate-IsSpent k s _ rows h)
  apply-IsSpent (Op.rotating q s') rows n h = elim (rotate-rows q s' rows) [
    | inl e ↦ rw e h
    | inr e ↦ rw e (keep-IsSpent k s _ _ (deactivate-IsSpent k s _ rows h))
  ]
  apply-IsSpent (Op.revoking q) rows n h = keep-IsSpent k s _ _ (deactivate-IsSpent k s _ rows h)
  apply-IsSpent (Op.forgetting k' s') rows n h = keep-IsSpent k s _ rows h
  apply-IsSpent (Op.discarding held now limit) rows n h = keep-IsSpent k s _ rows h

  keep-IsUnique :
      (p : OAuthTokenSession → Bool) (rows : Store) → IsUnique k s rows → IsUnique k s (keep p rows)
  keep-IsUnique p rows u = ground (arith, keep-keep k s p rows)

  deactivate-IsUnique :
      (p : OAuthTokenSession → Bool) (rows : Store)
      → IsUnique k s rows
      → IsUnique k s (deactivate_where p rows)
  deactivate-IsUnique p rows u = ground (arith, keep-deactivate k s p rows)

  same-key :
      (r : OAuthTokenSession) (rows : Store)
      → has_key k s r ≡ true
      → any (has_key r.kind r.signature) rows ≡ false
      → any (has_key k s) rows ≡ false
  same-key r [] h a = refl
  same-key r (x ∷ rows) h a = ground (
    arith,
    same-key r rows,
    eq_iff r.signature s,
    eq_iff x.signature s,
    eq_iff x.signature r.signature,
  )

  apply-IsUnique : (op : Op) (rows : Store) → IsUnique k s rows → IsUnique k s (apply op rows)
  unfolding apply save create_oauth_token_session revoke_request forget discard_expired drop_access
  apply-IsUnique (Op.saving r) rows u = ground (arith, same-key r rows, absent-count k s rows)
  apply-IsUnique (Op.using k' s') rows u = rw (use-rows k' s' rows) (deactivate-IsUnique _ rows u)
  apply-IsUnique (Op.rotating q s') rows u = elim (rotate-rows q s' rows) [
    | inl e ↦ rw e u
    | inr e ↦ rw e (keep-IsUnique _ _ (deactivate-IsUnique _ rows u))
  ]
  apply-IsUnique (Op.revoking q) rows u = keep-IsUnique _ _ (deactivate-IsUnique _ rows u)
  apply-IsUnique (Op.forgetting k' s') rows u = keep-IsUnique _ rows u
  apply-IsUnique (Op.discarding held now limit) rows u = keep-IsUnique _ rows u

  spends-IsSpent :
      (op : Op) (rows : Store)
      → IsUnique k s rows
      → spends k s op rows ≡ true
      → IsSpent k s (apply op rows)
  unfolding spends apply drop_access
  spends-IsSpent (Op.using k' s') rows u h =
      rw (use-rows k' s' rows) (deactivate-live k s k' s' rows (ground arith) (ground arith))
  spends-IsSpent (Op.rotating q s') rows u h =
      let a = rotate-succeeds q s' rows (ground arith) in
      let name : s' ≡ s = (eq_iff s' s).0 (ground arith) in
      rw a.1 (
        keep-IsSpent k s _ _ (
          rotate-live k s (rotates q s') rows
            (λ r e. ground (arith, eq_iff s' s, eq_iff r.signature s', eq_iff r.signature s)) u
            a.0))
  spends-IsSpent (Op.saving r) rows u h = cc
  spends-IsSpent (Op.revoking q) rows u h = cc
  spends-IsSpent (Op.forgetting k' s') rows u h = cc
  spends-IsSpent (Op.discarding held now limit) rows u h = cc

  IsSpent-spends : (op : Op) (rows : Store) → IsSpent k s rows → spends k s op rows ≡ false
  unfolding spends
  IsSpent-spends (Op.using k' s') rows h =
      elim (Bool-cases (same_kind k' k && str_eq s' s && succeeds (use_session k' s' rows).1)) [
        | inl e ↦
            let one = use-succeeds k' s' rows (ground arith) in
            let none_left =
              spent-count k s (is_live k' s') rows
                (λ r l. ground (arith, eq_iff s' s, eq_iff r.signature s', eq_iff r.signature s))
                h in
            absurd (ground arith)
        | inr e ↦ e
      ]
  IsSpent-spends (Op.rotating q s') rows h =
      elim (Bool-cases (
        same_kind OAuthTokenKind.refresh_token k && str_eq s' s && succeeds (rotate q s' rows).1)) [
          | inl e ↦
              let one = rotate-succeeds q s' rows (ground arith) in
              let none_left =
                spent-count k s (rotates q s') rows
                  (λ r l. ground (arith, eq_iff s' s, eq_iff r.signature s', eq_iff r.signature s))
                  h in
              absurd (ground arith)
          | inr e ↦ e
        ]
  IsSpent-spends (Op.saving r) rows h = refl
  IsSpent-spends (Op.revoking q) rows h = refl
  IsSpent-spends (Op.forgetting k' s') rows h = refl
  IsSpent-spends (Op.discarding held now limit) rows h = refl

  times_spent-IsSpent :
      (ops : List Op) (rows : Store)
      → any (saves k s) ops ≡ false
      → IsSpent k s rows
      → times_spent k s ops rows ≡ 0
  unfolding times_spent
  times_spent-IsSpent [] rows n h = refl
  times_spent-IsSpent (op ∷ ops) rows n h =
      let a = IsSpent-spends op rows h in
      let b =
        times_spent-IsSpent ops (apply op rows) (ground arith)
          (apply-IsSpent op rows (ground arith) h) in
      ground arith

  -- In every sequence of operations, in the order in which they commit, that does not save the key
  -- again, the record under the key is spent once at most, however many requests use, rotate or
  -- revoke it, provided the table held at most one record under the key.
  pub single_use :
      (ops : List Op) (rows : Store)
      → any (saves k s) ops ≡ false
      → IsUnique k s rows
      → times_spent k s ops rows ≤ 1
  unfolding times_spent
  single_use [] rows n u = ground arith
  single_use (op ∷ ops) rows n u =
      let rest = single_use ops (apply op rows) (ground arith) (apply-IsUnique op rows u) in
      elim (Bool-cases (spends k s op rows)) [
        | inl e ↦
            let z =
              times_spent-IsSpent ops (apply op rows) (ground arith) (spends-IsSpent op rows u e) in
            ground arith
        | inr e ↦ ground arith
      ]
