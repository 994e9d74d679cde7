-- ===== src/TokenStore/Families.antt =====
-- Tokens of one authorization (one request id) are withdrawn together: OAuthTokenSessions.Rotate and
-- OAuthTokenSessions.RevokeRequest over the statements of sqlcgen/oauth_token_sessions.sql.go.
use hamburger_evaluation.Base.{
  ◌≤◌, ◌≡◌, refl, ap, Bool, true, false, not, ◌&&◌, ◌||◌, some, String, List, [], ◌∷◌, ◌∙◌, arith,
  str_eq, keep, any, length, Bool-cases, inl, inr, ◌⊎◌, find, find-first,
}
use hamburger_evaluation.TokenStore.{
  OAuthTokenKind, OAuthTokenSession, Store, has_key, is_live, save, deactivate_where, count_where,
  use_session, rotates, rotate, drop_access, revoke_request, forget, discard_expired,
  create_oauth_token_session, is_family, get_oauth_token_session,
}
use hamburger_evaluation.TokenStore.SingleUse.{Op, apply, succeeds, why_not-fails}

-- A record that still lets the app act: an access token, or a refresh token that can be exchanged.
abbrev pub is_usable : String → OAuthTokenSession → Bool
is_usable q r =
    is_family OAuthTokenKind.access_token q r
    || is_family OAuthTokenKind.refresh_token q r && r.active

abbrev pub run : List Op → Store → Store
run [] rows = rows
run (op ∷ ops) rows = run ops (apply op rows)

-- The operation saves a token of the family.
abbrev pub issues : String → Op → Bool
issues q (Op.saving r) = str_eq r.request_id q
issues q _ = false

module _ (q : String) where
  abbrev IsDead : Store → Type 0
  IsDead rows = any (is_usable q) rows ≡ false

  keep-IsDead : (p : OAuthTokenSession → Bool) (rows : Store) → IsDead rows → IsDead (keep p rows)
  keep-IsDead p [] h = h
  keep-IsDead p (r ∷ rows) h = ground (arith, keep-IsDead p rows)

  deactivate-IsDead :
      (p : OAuthTokenSession → Bool) (rows : Store) → IsDead rows → IsDead (deactivate_where p rows)
  unfolding deactivate_where
  deactivate-IsDead p [] h = h
  deactivate-IsDead p (r ∷ rows) h = ground (arith, deactivate-IsDead p rows)

  revoke_request-IsDead : (rows : Store) → IsDead (revoke_request q rows)
  unfolding revoke_request drop_access deactivate_where
  revoke_request-IsDead [] = refl
  revoke_request-IsDead (r ∷ rows) = ground (arith, revoke_request-IsDead rows)

  apply-IsDead :
      (op : Op) (rows : Store) → issues q op ≡ false → IsDead rows → IsDead (apply op rows)
  unfolding apply save create_oauth_token_session use_session rotate revoke_request forget
      discard_expired drop_access
  apply-IsDead (Op.saving r) rows n h = ground arith
  apply-IsDead (Op.using k s) rows n h = ground (arith, deactivate-IsDead (is_live k s) rows)
  apply-IsDead (Op.rotating q' s) rows n h = ground (
    arith,
    deactivate-IsDead (rotates q' s) rows,
    keep-IsDead (λ r. not (is_family OAuthTokenKind.access_token q' r))
        (deactivate_where (rotates q' s) rows),
  )
  apply-IsDead (Op.revoking q') rows n h =
      keep-IsDead (λ r. not (is_family OAuthTokenKind.access_token q' r))
        (deactivate_where (λ r. is_family OAuthTokenKind.refresh_token q' r && r.active) rows)
        (deactivate-IsDead (λ r. is_family OAuthTokenKind.refresh_token q' r && r.active) rows h)
  apply-IsDead (Op.forgetting k s) rows n h = keep-IsDead _ rows h
  apply-IsDead (Op.discarding held now limit) rows n h = keep-IsDead _ rows h

  run-IsDead :
      (ops : List Op) (rows : Store)
      → any (issues q) ops ≡ false
      → IsDead rows
      → IsDead (run ops rows)
  run-IsDead [] rows n h = h
  run-IsDead (op ∷ ops) rows n h =
      run-IsDead ops (apply op rows) (ground arith) (apply-IsDead op rows (ground arith) h)

  -- Once an authorization is revoked, no later sequence of operations brings one of its tokens back:
  -- unless a token is saved for it again, none of its access tokens is stored and none of its
  -- refresh tokens can be exchanged.
  pub revoke_request-final :
      (ops : List Op) (rows : Store)
      → any (issues q) ops ≡ false
      → any (is_usable q) (run ops (revoke_request q rows)) ≡ false
  revoke_request-final ops rows n =
      run-IsDead ops (revoke_request q rows) n (revoke_request-IsDead rows)

  find-keep :
      (p f : OAuthTokenSession → Bool) (r : OAuthTokenSession) (rows : Store)
      → p r ≡ true
      → find f rows ≡ some r
      → find f (keep p rows) ≡ some r
  find-keep p f r [] e h = h
  find-keep p f r (x ∷ rows) e h = elim (Bool-cases (f x)) [
    | inl g ↦
        let same : x ≡ r = find-first f r x rows g h in
        let e' : p x ≡ true = ap p same ∙ e in ground arith
    | inr g ↦ ground (arith, find-keep p f r rows)
  ]

  find-deactivate :
      (p : OAuthTokenSession → Bool) (k : OAuthTokenKind) (s : String) (r : OAuthTokenSession)
      (rows : Store)
      → p r ≡ false
      → find (has_key k s) rows ≡ some r
      → find (has_key k s) (deactivate_where p rows) ≡ some r
  unfolding deactivate_where
  find-deactivate p k s r [] e h = h
  find-deactivate p k s r (x ∷ rows) e h = elim (Bool-cases (has_key k s x)) [
    | inl g ↦
        let same : x ≡ r = find-first (has_key k s) r x rows g h in
        let e' : p x ≡ false = ap p same ∙ e in ground arith
    | inr g ↦ ground (arith, find-deactivate p k s r rows)
  ]

  -- Revoking one authorization leaves the record of every token of another one as it is.
  get_oauth_token_session-revoke_request :
      (k : OAuthTokenKind) (s : String) (r : OAuthTokenSession) (rows : Store)
      → get_oauth_token_session k s rows ≡ some r
      → str_eq r.request_id q ≡ false
      → get_oauth_token_session k s (revoke_request q rows) ≡ some r
  unfolding get_oauth_token_session revoke_request drop_access
  get_oauth_token_session-revoke_request k s r rows h e =
      find-keep (λ x. not (is_family OAuthTokenKind.access_token q x)) (has_key k s) r
        (deactivate_where (λ x. is_family OAuthTokenKind.refresh_token q x && x.active) rows)
        (ground arith)
        (find-deactivate (λ x. is_family OAuthTokenKind.refresh_token q x && x.active) k s r rows
          (ground arith) h)

  drop_access-none :
      (rows : Store) → any (is_family OAuthTokenKind.access_token q) (drop_access q rows) ≡ false
  unfolding drop_access
  drop_access-none [] = refl
  drop_access-none (r ∷ rows) = ground (arith, drop_access-none rows)

  rotates-count :
      (s : String) (rows : Store)
      → length (keep (rotates q s) rows)
        ≤ length (keep (has_key OAuthTokenKind.refresh_token s) rows)
  rotates-count s [] = ground arith
  rotates-count s (r ∷ rows) = ground (arith, rotates-count s rows)

  absent-live :
      (p : OAuthTokenSession → Bool) (s : String) (rows : Store)
      → length (keep (has_key OAuthTokenKind.refresh_token s) rows) ≡ 0
      → any (is_live OAuthTokenKind.refresh_token s) (deactivate_where p rows) ≡ false
  unfolding deactivate_where
  absent-live p s [] n = refl
  absent-live p s (r ∷ rows) n = ground (arith, absent-live p s rows)

  -- The record that a rotation takes is not active any more.
  rotates-spends :
      (s : String) (rows : Store)
      → length (keep (has_key OAuthTokenKind.refresh_token s) rows) ≤ 1
      → length (keep (rotates q s) rows) ≡ 1
      → any (is_live OAuthTokenKind.refresh_token s) (deactivate_where (rotates q s) rows) ≡ false
  unfolding deactivate_where
  rotates-spends s [] u n = refl
  rotates-spends s (r ∷ rows) u n =
      ground (arith, rotates-spends s rows, absent-live (rotates q s) s rows, rotates-count s rows)

  rotates-there :
      (s : String) (rows : Store)
      → length (keep (rotates q s) rows) ≡ 1
      → any (rotates q s) rows ≡ true
  rotates-there s [] n = absurd (omega arith)
  rotates-there s (r ∷ rows) n = ground (arith, rotates-there s rows)

  drop_access-live :
      (s : String) (rows : Store)
      → any (is_live OAuthTokenKind.refresh_token s) rows ≡ false
      → any (is_live OAuthTokenKind.refresh_token s) (drop_access q rows) ≡ false
  unfolding drop_access
  drop_access-live s [] h = refl
  drop_access-live s (r ∷ rows) h = ground (arith, drop_access-live s rows)

  -- A rotation is all or nothing, as long as one record at most has the signature: it succeeds, the
  -- refresh token was stored for the authorization and active, it is active no more, and no access
  -- token of the authorization is left; or it fails and leaves the table as it was.
  pub rotate_atomic :
      (s : String) (rows : Store)
      → length (keep (has_key OAuthTokenKind.refresh_token s) rows) ≤ 1
      → ((succeeds (rotate q s rows).1 ≡ true)
          × (any (λ r. is_live OAuthTokenKind.refresh_token s r && str_eq r.request_id q) rows
              ≡ true)
          × (any (is_live OAuthTokenKind.refresh_token s) (rotate q s rows).0 ≡ false)
          × (any (is_family OAuthTokenKind.access_token q) (rotate q s rows).0 ≡ false))
        ⊎ ((succeeds (rotate q s rows).1 ≡ false) × ((rotate q s rows).0 ≡ rows))
  unfolding rotate count_where
  rotate_atomic s rows u =
      let n : length (keep (rotates q s) rows)
          ≤ length (keep (has_key OAuthTokenKind.refresh_token s) rows) =
        rotates-count s rows in
      let rows' = deactivate_where (rotates q s) rows in
      ground (
        arith,
        rotates-there s rows,
        rotates-spends s rows,
        drop_access-live s rows',
        drop_access-none rows',
        why_not-fails OAuthTokenKind.refresh_token s rows,
      )
