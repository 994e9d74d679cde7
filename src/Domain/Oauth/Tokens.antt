-- ===== src/Domain/Oauth/Tokens.antt =====
-- PKCE, access tokens and grants: ValidateOAuthPKCE and OAuthAccessToken.Check of domain/oauth.go,
-- Permits of domain/oauth_grant.go, and the use case that authenticates a token
-- (OAuthAccessTokens.Authenticate of usecase/oauth.go).
use hamburger_evaluation.Base.{
  ℕ, ◌≡◌, ◌≤◌, refl, ◌↔◌, ◌⊎◌, inl, inr, Bool, true, false, not, ◌&&◌, ◌||◌, String, List, [], ◌∷◌,
  arith, str_eq, eq_iff, ◌==◌, leb, if◌then◌else◌, any, all, keep, length, All, Bool-cases,
}
use hamburger_evaluation.Base.Text.{runes, bytes}
use hamburger_evaluation.Domain.Errors.{
  Error, Result, ok, err, failure, insufficient_scope, oauth_invalid_token, oauth_grant_not_found,
  oauth_invalid_scope, user_not_found, ◌>>=◌, ◌>>◌, >>=-eq-ok,
}
use hamburger_evaluation.Domain.Rules.Chars.{is_empty}
use hamburger_evaluation.Domain.Account.{User}
use hamburger_evaluation.Domain.Oauth.Scopes.{
  contains, Covers, oauth_consent_required, oauth_consent_required_iff,
}

abbrev pub oauth_pkce_method : String
oauth_pkce_method = "S256"

abbrev is_base64url : ℕ → Bool
is_base64url r =
    leb b'a' r && leb r b'z'
    || leb b'A' r && leb r b'Z'
    || leb b'0' r && leb r b'9'
    || r == b'-'
    || r == b'_'

unfoldable pub validate_oauth_pkce : String → String → Result (Unit {0})
validate_oauth_pkce challenge method =
    if is_empty challenge
    then err (failure "PKCE is required: code_challenge is missing")
    else if not (str_eq method oauth_pkce_method)
    then err (failure "PKCE method must be S256")
    else if not (length (bytes challenge) == 43)
    then err (failure "code_challenge must be the 43 characters of a base64url encoded SHA-256")
    else if all is_base64url (runes challenge)
    then ok tt
    else err (failure "code_challenge must be base64url characters")

abbrev pub IsBase64Url : ℕ → Type 0
IsBase64Url r =
    ((b'a' ≤ r) × (r ≤ b'z'))
    ⊎ ((b'A' ≤ r) × (r ≤ b'Z'))
    ⊎ ((b'0' ≤ r) × (r ≤ b'9'))
    ⊎ (r ≡ b'-')
    ⊎ (r ≡ b'_')

all-IsBase64Url : (rs : List ℕ) → (all is_base64url rs ≡ true) ↔ All IsBase64Url rs
all-IsBase64Url [] = ground arith
all-IsBase64Url (r ∷ rs) = ground (arith, all-IsBase64Url rs)

empty_length : (s : String) → is_empty s ≡ true → length (bytes s) ≡ 0
empty_length Prim.Native.String.[] h = refl
empty_length (Prim.Native.String.◌∷◌ c s) h = cc

-- The values of PKCE are accepted exactly when the method is S256 and the challenge consists of 43
-- bytes, all of them base64url characters; the method `plain` never is.
pub validate_oauth_pkce-eq-ok_iff :
    (challenge method : String)
    → (validate_oauth_pkce challenge method ≡ ok tt)
      ↔ ((method ≡ "S256") × (length (bytes challenge) ≡ 43) × All IsBase64Url (runes challenge))
unfolding validate_oauth_pkce
validate_oauth_pkce-eq-ok_iff challenge method =
    ground (arith, eq_iff method "S256", all-IsBase64Url (runes challenge), empty_length challenge)

pub record OAuthAccessToken : Type 0 where
  pub user_id : String
  pub client_id : String
  pub scopes : List String
  pub audience : List String
  pub expires_at : ℕ

abbrev lacking : List String → List String → List String
lacking scopes required = keep (λ n. not (contains scopes n)) required

-- `len(missing) > 0`
abbrev no_scope_missing : List String → Result (Unit {0})
no_scope_missing [] = ok tt
no_scope_missing (n ∷ missing) = err (insufficient_scope (n ∷ missing))

unfoldable pub check : OAuthAccessToken → String → List String → Result (Unit {0})
check t resource required =
    if not (contains t.audience resource)
    then err oauth_invalid_token
    else no_scope_missing (lacking t.scopes required)

lacking-eq-nil_iff :
    (scopes required : List String)
    → (lacking scopes required ≡ []) ↔ (any (λ n. not (contains scopes n)) required ≡ false)
lacking-eq-nil_iff scopes [] = ground arith
lacking-eq-nil_iff scopes (n ∷ required) = ground (arith, lacking-eq-nil_iff scopes required)

Covers-iff :
    (scopes required : List String) → (lacking scopes required ≡ []) ↔ Covers scopes required
unfolding oauth_consent_required
Covers-iff scopes required =
    let a = lacking-eq-nil_iff scopes required in
    let b = oauth_consent_required_iff scopes required in (λ h. b.0 (a.0 h), λ h. a.1 (b.1 h))

no_scope_missing-eq-ok_iff : (m : List String) → (no_scope_missing m ≡ ok tt) ↔ (m ≡ [])
no_scope_missing-eq-ok_iff [] = ground arith
no_scope_missing-eq-ok_iff (n ∷ m) = ground arith

-- A token may be used for a resource and the required scopes exactly when it was issued for that
-- resource and holds every one of those scopes.
pub check-eq-ok_iff :
    (t : OAuthAccessToken) (resource : String) (required : List String)
    → (check t resource required ≡ ok tt)
      ↔ ((contains t.audience resource ≡ true) × Covers t.scopes required)
unfolding check
check-eq-ok_iff t resource required = elim (Bool-cases (contains t.audience resource)) [
  | inl e ↦
      let a = Covers-iff t.scopes required in
      let b = no_scope_missing-eq-ok_iff (lacking t.scopes required) in
      rw e ((λ h. (refl, a.0 (b.0 h)), λ h. b.1 (a.1 h.1)))
  | inr e ↦ rw e ((λ h. absurd (ground arith), λ h. absurd (ground arith)))
]

check-other :
    (t : OAuthAccessToken) (resource : String) (required : List String)
    → contains t.audience resource ≡ false
    → check t resource required ≡ err oauth_invalid_token
unfolding check
check-other t resource required e = rw e refl

pub record OAuthGrant : Type 0 where
  pub id : String
  pub user_id : String
  pub client_id : String
  pub client_name : String
  pub scopes : List String
  pub created_at : ℕ
  pub updated_at : ℕ

unfoldable pub permits : OAuthGrant → String → String → List String → Result (Unit {0})
permits g user_id client_id scopes =
    if not (str_eq g.user_id user_id) || not (str_eq g.client_id client_id)
    then err oauth_grant_not_found
    else if oauth_consent_required g.scopes scopes
    then err oauth_invalid_scope
    else ok tt

-- A grant lets a code be issued exactly for its own user and app, and for scopes that it covers.
permits-eq-ok_iff :
    (g : OAuthGrant) (user_id client_id : String) (scopes : List String)
    → (permits g user_id client_id scopes ≡ ok tt)
      ↔ ((g.user_id ≡ user_id) × (g.client_id ≡ client_id) × Covers g.scopes scopes)
unfolding permits
permits-eq-ok_iff g user_id client_id scopes =
    let a = oauth_consent_required_iff g.scopes scopes in
    elim (Bool-cases (oauth_consent_required g.scopes scopes)) [
      | inl e ↦ rw e (
        λ h. absurd (ground arith),
        λ h.
            absurd
              (let k : oauth_consent_required g.scopes scopes ≡ false = a.1 h.2 in ground arith),
      )
      | inr e ↦ rw e (
        λ h. (
          ground (arith, eq_iff g.user_id user_id),
          ground (arith, eq_iff g.client_id client_id),
          a.0 e,
        ),
        λ h. ground (arith, eq_iff g.user_id user_id, eq_iff g.client_id client_id),
      )
    ]

-- The library's introspection and the query of active users answer as they do.
module _ (introspect : String → Result OAuthAccessToken) (active_user : String → Result User) where
  -- Only these two errors keep their meaning for the caller.
  abbrev as_invalid : Error → Error
  as_invalid user_not_found = oauth_invalid_token
  as_invalid e = e

  abbrev owner : Result User → Result User
  owner (ok u) = ok u
  owner (err e) = err (as_invalid e)

  owner-eq-ok : (r : Result User) (u : User) → owner r ≡ ok u → r ≡ ok u
  owner-eq-ok (ok v) u h = h
  owner-eq-ok (err e) u h = cc

  unfoldable pub authenticate : String → String → List String → Result (User × OAuthAccessToken)
  authenticate resource raw required = do
    token ← introspect raw
    check token resource []
    user ← owner (active_user token.user_id)
    check token resource required
    ok (user, token)

  -- A request is let through exactly for a token that the library vouches for, that was issued for
  -- this resource, whose owner still has an account, and that holds every required scope; the
  -- caller then acts as that owner.
  pub authenticate-eq-ok_iff :
      (resource raw : String) (required : List String) (user : User) (token : OAuthAccessToken)
      → (authenticate resource raw required ≡ ok (user, token)) ↔ (
          (introspect raw ≡ ok token)
          × (active_user token.user_id ≡ ok user)
          × (contains token.audience resource ≡ true)
          × Covers token.scopes required)
  unfolding authenticate
  authenticate-eq-ok_iff resource raw required user token = (
    λ h.
        let s0 = >>=-eq-ok (introspect raw) _ h in
        let s1 = >>=-eq-ok (check s0.0 resource []) _ s0.2 in
        let s2 = >>=-eq-ok (owner (active_user s0.0.user_id)) _ s1.2 in
        let s3 = >>=-eq-ok (check s0.0 resource required) _ s2.2 in
        let t : s0.0 ≡ token = let k = s3.2 in cc in
        let u : s2.0 ≡ user = let k = s3.2 in cc in
        let c = (check-eq-ok_iff s0.0 resource required).0 s3.1 in
        rw (← t, ← u) ((s0.1, owner-eq-ok (active_user s0.0.user_id) s2.0 s2.1, c.0, c.1)),
    λ h.
        let whole = (check-eq-ok_iff token resource required).1 (h.2, h.3) in
        let first = (check-eq-ok_iff token resource []).1 (h.2, λ n e. absurd (ground arith)) in
        rw (h.0, first, h.1, whole) refl,
  )

  -- A token whose owner has left is invalid whatever scopes are asked of it: the missing account
  -- is found before a missing scope.
  pub authenticate-withdrawn :
      (resource raw : String) (required : List String) (token : OAuthAccessToken)
      → introspect raw ≡ ok token
      → active_user token.user_id ≡ err user_not_found
      → authenticate resource raw required ≡ err oauth_invalid_token
  unfolding authenticate
  authenticate-withdrawn resource raw required token i u =
      rw i (elim (Bool-cases (contains token.audience resource)) [
        | inl e ↦
            let first = (check-eq-ok_iff token resource []).1 (e, λ n k. absurd (ground arith)) in
            rw (first, u) refl
        | inr e ↦
            let refused : check token resource [] ≡ err oauth_invalid_token =
              check-other token resource [] e in
            rw refused refl
      ])
