-- ===== src/TokenStore/Storage.antt =====
-- What the OAuth library sees of the records: the methods of adapter/oauthserver/storage.go. The
-- library's errors are ErrNotFound, ErrInvalidatedAuthorizeCode, ErrInactiveToken and errStorage.
-- `decode` is how encoding/json restores the stored request, none where it fails.
use hamburger_evaluation.Base.{
  ℕ, ◌≡◌, refl, ap, Option, none, some, String, List, [], ◌∷◌, ◌∙◌, arith, if◌then◌else◌,
  Bool-cases, inl, inr, find, find-first,
}
use hamburger_evaluation.Domain.Errors.{
  Result, ok, err, oauth_token_session_not_found, oauth_token_session_inactive,
}
use hamburger_evaluation.TokenStore.{
  OAuthTokenKind, OAuthTokenSession, Store, has_key, is_live, deactivated, deactivate_where,
  use_session, rotate, revoke_request, forget, get_oauth_token_session,
}

pub data StorageError : Type 0 where
  not_found invalidated_authorize_code inactive_token storage : StorageError

-- What a method that reads answers: the request, the request with an error, or an error.
pub data Loaded {ℓ} (R : Type ℓ) : Type ℓ where
  found : R → Loaded R
  found_with : R → StorageError → Loaded R
  missing : StorageError → Loaded R

-- What a method that writes answers.
abbrev pub Outcome : Type 0
Outcome = Option StorageError

-- The switch on the error, which names what an inactive record is for this kind of token.
abbrev to_outcome : StorageError → Result (Unit {0}) → Outcome
to_outcome spent (ok x) = none
to_outcome spent (err oauth_token_session_inactive) = some spent
to_outcome spent (err oauth_token_session_not_found) = some StorageError.not_found
to_outcome spent (err e) = some StorageError.storage

unfoldable pub invalidate_authorize_code_session : String → Store → Store × Outcome
invalidate_authorize_code_session s rows =
    let done = use_session OAuthTokenKind.authorization_code s rows in
    (done.0, to_outcome StorageError.invalidated_authorize_code done.1)

unfoldable pub rotate_refresh_token : String → String → Store → Store × Outcome
rotate_refresh_token request_id s rows =
    let done = rotate request_id s rows in (done.0, to_outcome StorageError.inactive_token done.1)

-- RevokeRefreshToken and RevokeAccessToken
unfoldable pub revoke_token : String → Store → Store × Outcome
revoke_token request_id rows = (revoke_request request_id rows, none)

-- DeletePKCERequestSession, DeleteAccessTokenSession, DeleteRefreshTokenSession
unfoldable pub delete_session : OAuthTokenKind → String → Store → Store × Outcome
delete_session k s rows = (forget k s rows, none)

module _ {ℓ} {R : Type ℓ} (decode : List ℕ → Option R) where
  -- `inactive` is what the method says of a record that is not active.
  answer : (R → Loaded R) → OAuthTokenSession → Option R → Loaded R
  answer inactive r none = missing StorageError.storage
  answer inactive r (some req) = if r.active then found req else inactive req

  load : (R → Loaded R) → Option OAuthTokenSession → Loaded R
  unfolding answer
  load inactive none = missing StorageError.not_found
  load inactive (some r) = answer inactive r (decode r.request)

  unfoldable pub get_authorize_code_session : String → Store → Loaded R
  unfolding load
  get_authorize_code_session s rows =
      load (λ req. found_with req StorageError.invalidated_authorize_code)
        (get_oauth_token_session OAuthTokenKind.authorization_code s rows)

  unfoldable pub get_pkce_request_session : String → Store → Loaded R
  unfolding load
  get_pkce_request_session s rows = load found (get_oauth_token_session OAuthTokenKind.pkce s rows)

  unfoldable pub get_access_token_session : String → Store → Loaded R
  unfolding load
  get_access_token_session s rows =
      load (λ req. found_with req StorageError.inactive_token)
        (get_oauth_token_session OAuthTokenKind.access_token s rows)

  unfoldable pub get_refresh_token_session : String → Store → Loaded R
  unfolding load
  get_refresh_token_session s rows =
      load (λ req. found_with req StorageError.inactive_token)
        (get_oauth_token_session OAuthTokenKind.refresh_token s rows)

  use-rows :
      (k : OAuthTokenKind) (s : String) (rows : Store)
      → (use_session k s rows).0 ≡ deactivate_where (is_live k s) rows
  unfolding use_session
  use-rows k s rows = ground arith

  find-used :
      (k : OAuthTokenKind) (s : String) (r : OAuthTokenSession) (rows : Store)
      → find (has_key k s) rows ≡ some r
      → find (has_key k s) (deactivate_where (is_live k s) rows) ≡ some (deactivated r)
  unfolding deactivate_where
  find-used k s r [] h = cc
  find-used k s r (x ∷ rows) h = elim (Bool-cases (has_key k s x)) [
    | inl g ↦
        let same : x ≡ r = find-first (has_key k s) r x rows g h in
        let off : deactivated x ≡ deactivated r = ap deactivated same in
        elim (Bool-cases x.active) [
          | inl a ↦
              let e : find (has_key k s) (deactivate_where (is_live k s) (x ∷ rows))
                  ≡ some (deactivated x) =
                ground arith in
              e ∙ ap some off
          | inr a ↦
              let e : find (has_key k s) (deactivate_where (is_live k s) (x ∷ rows)) ≡ some x =
                ground arith in
              e ∙ ap some (ap (λ b. record x { active = b }) a ∙ off)
        ]
    | inr g ↦ ground (arith, find-used k s r rows)
  ]

  -- A code that was exchanged once is reported as used, together with the request that it was
  -- issued for, from which the library finds the tokens to revoke: whether or not the exchange
  -- found the code active, the next reading answers so.
  pub invalidate_authorize_code_session-detects :
      (s : String) (r : OAuthTokenSession) (req : R) (rows : Store)
      → get_oauth_token_session OAuthTokenKind.authorization_code s rows ≡ some r
      → decode r.request ≡ some req
      → get_authorize_code_session s (invalidate_authorize_code_session s rows).0
        ≡ found_with req StorageError.invalidated_authorize_code
  unfolding get_authorize_code_session invalidate_authorize_code_session get_oauth_token_session
  invalidate_authorize_code_session-detects s r req rows h d =
      rw
        (
          use-rows OAuthTokenKind.authorization_code s rows,
          find-used OAuthTokenKind.authorization_code s r rows h,
          d,
        )
        refl
