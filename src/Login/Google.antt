-- ===== src/Login/Google.antt =====
-- Signing in with Google: usecase/google_login.go, with ExternalIdentity.Validate of
-- domain/user_identity.go, and LoginHandoff.BoundTo and LoginHandoffs.Issue of
-- domain/login_handoff.go. What is logged is left out.
pub mod Redeem
pub mod Once
pub mod SignIn
pub mod Unlink
use hamburger_evaluation.Base.{
  ℕ, zero, suc, ◌+◌, ◌≡◌, refl, Bool, true, false, not, ◌&&◌, ◌||◌, Option, none, some, String,
  List, [], ◌∷◌, map, length, arith, str_eq, ltb, leb, ◌==◌, if◌then◌else◌, keep, find, any, take,
}
use hamburger_evaluation.Domain.Errors.{
  Error, Message, Result, ok, err, failure, user_not_found, email_taken, identity_not_found,
  identity_already_linked, login_handoff_invalid, external_identity_rejected,
  cannot_unlink_identity,
}
use hamburger_evaluation.Domain.Rules.Chars.{is_empty}
use hamburger_evaluation.Domain.Account.{User}
use hamburger_evaluation.Login.{
  LoginHandoffOutcome, LoginHandoff, UserIdentity, Db, Action, succeed, fail, lift, attempt,
  statement, ◌>>=◌, ◌>>◌, unit_of_work, get_active_user_by_id, get_identity_by_provider_user_id,
  CreateUserParams, create_user, create_user_identity, lock_login_handoff,
  get_login_handoff_by_code_hash, discard_login_handoff, has_code,
}

pub record ExternalIdentity : Type 0 where
  pub provider : String
  pub provider_user_id : String
  pub email : String
  pub email_verified : Bool
  pub name : String

abbrev no_issue : List Message → Bool
no_issue [] = true
no_issue (m ∷ ms) = false

-- ExternalIdentity.Validate
unfoldable pub validate_identity : (String → List Message) → ExternalIdentity → Result (Unit {0})
validate_identity email_issues e =
    if is_empty e.provider || is_empty e.provider_user_id || is_empty e.email
    then err external_identity_rejected
    else if not e.email_verified
    then err external_identity_rejected
    else if not (no_issue (email_issues e.email))
    then err external_identity_rejected
    else ok tt

unfoldable pub can_unlink_identity : Bool → ℕ → Result (Unit {0})
can_unlink_identity has_password identity_count =
    if has_password || ltb 1 identity_count then ok tt else err cannot_unlink_identity

-- LoginHandoff.BoundTo; `hash` is the hexadecimal SHA-256 of HashLoginHandoffCode and
-- HashLoginHandoffBinder.
unfoldable pub bound_to : (String → String) → LoginHandoff → String → Bool
bound_to hash h binder =
    if is_empty binder || is_empty h.binder_hash then false else str_eq (hash binder) h.binder_hash

abbrev pub needs_user : LoginHandoffOutcome → Bool
needs_user LoginHandoffOutcome.signed_in = true
needs_user LoginHandoffOutcome.linked = true
needs_user _ = false

abbrev pub is_signed_in : LoginHandoffOutcome → Bool
is_signed_in LoginHandoffOutcome.signed_in = true
is_signed_in _ = false

pub record GoogleRedeemed : Type 0 where
  pub outcome : LoginHandoffOutcome
  pub user : Option User
  pub token : Option String
  pub return_to : String

-- The outcome and the user id, which is empty for an outcome without user.
abbrev pub Resolved : Type 0
Resolved = LoginHandoffOutcome × String

-- The parts of GoogleFlow and GoogleCallback that decide the outcome; the nonce and the verifier
-- are read by the provider only.
pub record GoogleFlow : Type 0 where
  pub state : String
  pub return_to : String
  pub link_user_id : String

pub record GoogleCallback : Type 0 where
  pub code : String
  pub state : String
  pub provider_error : String

abbrev is_refused : Result (Unit {0}) → Bool
is_refused (ok x) = false
is_refused (err e) = true

abbrev failed_flow : Resolved
failed_flow = (LoginHandoffOutcome.failed, "")

-- `issue` is TokenIssuer.Issue.
module _ (hash : String → String) (issue : String → Result String) where
  nobody : LoginHandoffOutcome → LoginHandoff → GoogleRedeemed
  nobody o h = record { outcome = o; user = none; token = none; return_to = h.return_to }

  signed : LoginHandoff → User → String → GoogleRedeemed
  signed h u token = record {
    outcome = h.outcome;
    user = some u;
    token = some token;
    return_to = h.return_to;
  }

  -- The switch on the user of a sign-in.
  redeemed_user : LoginHandoff → Result User → Action GoogleRedeemed
  unfolding nobody signed
  redeemed_user h (ok u) = do token ← lift (issue u.id); succeed (signed h u token)
  redeemed_user h (err user_not_found) = succeed (nobody LoginHandoffOutcome.failed h)
  redeemed_user h (err e) = fail e

  redeemed : LoginHandoff → Action GoogleRedeemed
  unfolding nobody redeemed_user
  redeemed h =
      if is_signed_in h.outcome
      then (do user ← attempt (get_active_user_by_id h.user_id); redeemed_user h user)
      else succeed (nobody h.outcome h)

  check_binder : LoginHandoff → String → Action (Unit {0})
  check_binder h binder = if bound_to hash h binder then succeed tt else fail login_handoff_invalid

  redeem_body : String → String → Action GoogleRedeemed
  unfolding redeemed check_binder
  redeem_body raw_code binder = do
    lock_login_handoff (hash raw_code)
    h ← get_login_handoff_by_code_hash (hash raw_code)
    check_binder h binder
    res ← redeemed h
    discard_login_handoff h.id
    succeed res

  unfoldable pub redeem : String → String → Action GoogleRedeemed
  unfolding redeem_body
  redeem raw_code binder = unit_of_work (redeem_body raw_code binder)

module _ (lower : String → String) (new_id : ℕ → String) (email_issues : String → List Message)
    (username_from_profile : String → String) where
  -- signInLinked: `none` is `done == false`.
  linked_user : Result User → Option Resolved
  linked_user (ok u) = some (LoginHandoffOutcome.signed_in, u.id)
  linked_user (err e) = some failed_flow

  linked_identity : Result UserIdentity → Action (Option Resolved)
  unfolding linked_user
  linked_identity (ok i) = do
    user ← attempt (get_active_user_by_id i.user_id)
    succeed (linked_user user)
  linked_identity (err identity_not_found) = succeed none
  linked_identity (err e) = succeed (some failed_flow)

  sign_in_linked : ExternalIdentity → Action (Option Resolved)
  unfolding linked_identity
  sign_in_linked ident = do
    i ← attempt (get_identity_by_provider_user_id ident.provider ident.provider_user_id)
    linked_identity i

  -- The user and the identity of a first sign-in, in one unit of work.
  sign_up : ExternalIdentity → Action User
  sign_up ident = unit_of_work (do
    user ← create_user lower new_id (record {
      email = ident.email;
      username = username_from_profile ident.name;
      password_digest = "";
      passwordless = true;
      admin = false;
    })
    i ← create_user_identity lower new_id user.id ident.provider ident.provider_user_id ident.email
    succeed user)

  or_else : Resolved → Option Resolved → Resolved
  or_else r none = r
  or_else r (some s) = s

  signed_up : ExternalIdentity → Result User → Action Resolved
  unfolding or_else sign_in_linked
  signed_up ident (ok u) = succeed (LoginHandoffOutcome.signed_in, u.id)
  signed_up ident (err email_taken) = do
    again ← sign_in_linked ident
    succeed (or_else (LoginHandoffOutcome.account_exists, "") again)
  signed_up ident (err Error.identity_taken) = do
    again ← sign_in_linked ident
    succeed (or_else failed_flow again)
  signed_up ident (err e) = succeed failed_flow

  after_linked : ExternalIdentity → Option Resolved → Action Resolved
  unfolding sign_up signed_up
  after_linked ident (some r) = succeed r
  after_linked ident none = do user ← attempt (sign_up ident); signed_up ident user

  unfoldable pub sign_in : ExternalIdentity → Action Resolved
  unfolding sign_in_linked after_linked
  sign_in ident = do found ← sign_in_linked ident; after_linked ident found

  created : String → Result UserIdentity → Resolved
  created user_id (ok i) = (LoginHandoffOutcome.linked, user_id)
  created user_id (err Error.identity_taken) = (LoginHandoffOutcome.identity_taken, "")
  created user_id (err identity_already_linked) = (LoginHandoffOutcome.already_linked, "")
  created user_id (err e) = failed_flow

  link_to : String → ExternalIdentity → Result UserIdentity → Action Resolved
  unfolding created
  link_to user_id ident (ok i) = succeed (
      if str_eq i.user_id user_id
      then (LoginHandoffOutcome.linked, user_id)
      else (LoginHandoffOutcome.identity_taken, ""))
  link_to user_id ident (err identity_not_found) = do
    i ← attempt (
        create_user_identity lower new_id user_id ident.provider ident.provider_user_id ident.email)
    succeed (created user_id i)
  link_to user_id ident (err e) = succeed failed_flow

  link_user : String → ExternalIdentity → Result User → Action Resolved
  unfolding link_to
  link_user user_id ident (err e) = succeed failed_flow
  link_user user_id ident (ok u) = do
    existing ← attempt (get_identity_by_provider_user_id ident.provider ident.provider_user_id)
    link_to user_id ident existing

  unfoldable pub link : String → ExternalIdentity → Action Resolved
  unfolding link_user
  link user_id ident = do
    user ← attempt (get_active_user_by_id user_id)
    link_user user_id ident user

  -- `provider_complete` is GoogleProvider.Complete for the secrets of the flow.
  resolve_identity : String → Result ExternalIdentity → Action Resolved
  resolve_identity link_user_id (err e) = succeed failed_flow
  resolve_identity link_user_id (ok ident) =
      if is_refused (validate_identity email_issues ident)
      then succeed failed_flow
      else if is_empty link_user_id
      then sign_in ident
      else link link_user_id ident

  unfoldable pub resolve :
      (String → Result ExternalIdentity) → GoogleFlow → GoogleCallback → Action Resolved
  unfolding resolve_identity
  resolve provider_complete flow cb =
      if not (is_empty cb.provider_error) || is_empty cb.code || not (str_eq cb.state flow.state)
      then succeed failed_flow
      else resolve_identity flow.link_user_id (provider_complete cb.code)
