-- ===== src/TokenStore.antt =====
-- The records of the tokens that the authorization server gives out: domain/oauth_token_session.go,
-- the repository (repository/oauth_token_session_repository.go) with its statements
-- (sqlcgen/oauth_token_sessions.sql.go), and the storage that the OAuth library calls
-- (adapter/oauthserver/storage.go). A statement that the database refuses changes nothing and
-- becomes a storage error; apart from a second record under one key, those refusals are left out.
pub mod Keys
pub mod SingleUse
pub mod Families
pub mod Storage
use hamburger_evaluation.Base.{
  ℕ, zero, suc, ◌+◌, ◌≡◌, refl, Bool, true, false, not, ◌&&◌, ◌||◌, Option, none, some, String,
  List, [], ◌∷◌, arith, str_eq, leb, ◌==◌, if◌then◌else◌, keep, take, map, find, any, length,
}
use hamburger_evaluation.Domain.Errors.{
  Result, ok, err, failure, oauth_token_session_not_found, oauth_token_session_inactive,
}

pub data OAuthTokenKind : Type 0 where
  authorization_code access_token refresh_token pkce : OAuthTokenKind

abbrev kind_tag : OAuthTokenKind → ℕ
kind_tag OAuthTokenKind.authorization_code = 0
kind_tag OAuthTokenKind.access_token = 1
kind_tag OAuthTokenKind.refresh_token = 2
kind_tag OAuthTokenKind.pkce = 3

abbrev pub same_kind : OAuthTokenKind → OAuthTokenKind → Bool
same_kind a b = kind_tag a == kind_tag b

-- `request` is the JSON that the storage wrote.
pub record OAuthTokenSession : Type 0 where
  pub kind : OAuthTokenKind
  pub signature : String
  pub request_id : String
  pub grant_id : String
  pub user_id : String
  pub client_id : String
  pub active : Bool
  pub expires_at : ℕ
  pub request : List ℕ

-- The table oauth_token_sessions.
abbrev pub Store : Type 0
Store = List OAuthTokenSession

abbrev pub has_key : OAuthTokenKind → String → OAuthTokenSession → Bool
has_key k s r = same_kind r.kind k && str_eq r.signature s

abbrev pub is_live : OAuthTokenKind → String → OAuthTokenSession → Bool
is_live k s r = has_key k s r && r.active

abbrev pub deactivated : OAuthTokenSession → OAuthTokenSession
deactivated r = record r { active = false }

-- CreateOAuthTokenSession: the table has a unique constraint on the kind and the signature.
create_oauth_token_session : OAuthTokenSession → Store → Store × Result (Unit {0})
create_oauth_token_session r rows =
    if any (has_key r.kind r.signature) rows
    then (rows, err (failure "duplicate key"))
    else (r ∷ rows, ok tt)

-- OAuthTokenSessions.Save
unfoldable pub save : OAuthTokenSession → Store → Store × Result (Unit {0})
unfolding create_oauth_token_session
save r rows = create_oauth_token_session (record r { active = true }) rows

-- GetOAuthTokenSession
unfoldable pub get_oauth_token_session : OAuthTokenKind → String → Store → Option OAuthTokenSession
get_oauth_token_session k s rows = find (has_key k s) rows

-- UPDATE ... SET active = false WHERE ...
pub deactivate_where : (OAuthTokenSession → Bool) → Store → Store
deactivate_where p [] = []
deactivate_where p (r ∷ rows) =
    let rest = deactivate_where p rows in if p r then deactivated r ∷ rest else r ∷ rest

pub count_where : (OAuthTokenSession → Bool) → Store → ℕ
count_where p rows = length (keep p rows)

abbrev pub refusal : Option OAuthTokenSession → Result (Unit {0})
refusal none = err oauth_token_session_not_found
refusal (some r) = err oauth_token_session_inactive

pub why_not_updated : OAuthTokenKind → String → Store → Result (Unit {0})
unfolding get_oauth_token_session
why_not_updated k s rows = refusal (get_oauth_token_session k s rows)

-- OAuthTokenSessions.Use: UpdateOAuthTokenSessionInactive over DeactivateOAuthTokenSession.
unfoldable pub use_session : OAuthTokenKind → String → Store → Store × Result (Unit {0})
unfolding deactivate_where count_where why_not_updated
use_session k s rows =
    let rows' = deactivate_where (is_live k s) rows in
    if count_where (is_live k s) rows == 1
    then (rows', ok tt)
    else (rows', why_not_updated k s rows')

abbrev pub is_family : OAuthTokenKind → String → OAuthTokenSession → Bool
is_family k request_id r = same_kind r.kind k && str_eq r.request_id request_id

abbrev rotates : String → String → OAuthTokenSession → Bool
rotates request_id s r = is_live OAuthTokenKind.refresh_token s r && str_eq r.request_id request_id

-- DELETE ... WHERE kind = 'access_token' AND request_id = ...
drop_access : String → Store → Store
drop_access request_id rows =
    keep (λ r. not (is_family OAuthTokenKind.access_token request_id r)) rows

-- OAuthTokenSessions.Rotate: UpdateOAuthRefreshRotated over RotateOAuthRefreshToken, one statement.
unfoldable pub rotate : String → String → Store → Store × Result (Unit {0})
unfolding deactivate_where count_where why_not_updated drop_access
rotate request_id s rows =
    let n = count_where (rotates request_id s) rows in
    let rows' = deactivate_where (rotates request_id s) rows in
    if n == 0
    then (rows, why_not_updated OAuthTokenKind.refresh_token s rows)
    else if n == 1
    then (drop_access request_id rows', ok tt)
    else (
      drop_access request_id rows',
      why_not_updated OAuthTokenKind.refresh_token s (drop_access request_id rows'),
    )

-- OAuthTokenSessions.RevokeRequest over RevokeOAuthRequest, one statement.
unfoldable pub revoke_request : String → Store → Store
unfolding deactivate_where drop_access
revoke_request request_id rows =
    drop_access request_id
      (deactivate_where (λ r. is_family OAuthTokenKind.refresh_token request_id r && r.active) rows)

-- OAuthTokenSessions.Forget
unfoldable pub forget : OAuthTokenKind → String → Store → Store
forget k s rows = keep (λ r. not (has_key k s r)) rows

-- DeleteExpiredOAuthTokenSessions: the expired rows that no transaction holds, the oldest first.
insert_by_expiry : OAuthTokenSession → Store → Store
insert_by_expiry r [] = r ∷ []
insert_by_expiry r (x ∷ xs) =
    let rest = x ∷ insert_by_expiry r xs in
    if leb r.expires_at x.expires_at then r ∷ x ∷ xs else rest

sort_by_expiry : Store → Store
sort_by_expiry [] = []
sort_by_expiry (r ∷ rows) = insert_by_expiry r (sort_by_expiry rows)

unfoldable pub discard_expired : (OAuthTokenSession → Bool) → ℕ → ℕ → Store → Store × ℕ
unfolding insert_by_expiry sort_by_expiry
discard_expired held now limit rows =
    let expired =
      take limit (sort_by_expiry (keep (λ r. leb r.expires_at now && not (held r)) rows)) in
    (keep (λ r. not (any (has_key r.kind r.signature) expired)) rows, length expired)
