-- ===== src/Examples/Login.antt =====
-- Signing in with Google at concrete inputs.
use hamburger_evaluation.Base.{
  ℕ, str_eq, ◌↔◌, ◌≡◌, ◌≢◌, ◌≤◌, ◌⊎◌, length, keep, find, refl, true, false, some, String, List, [],
  ◌∷◌, arith,
}
use hamburger_evaluation.Domain.Errors.{Message, Result, ok, err, login_handoff_invalid, failure}
use hamburger_evaluation.Domain.Account.{User}
use hamburger_evaluation.Login.{
  UserRow, LoginHandoff, LoginHandoffOutcome, UserIdentity, Db, fail, is_active_user, unit_of_work,
  get_active_user_by_id, lock_login_handoff, get_login_handoff_by_code_hash, discard_login_handoff,
  create_user, get_identity_by_provider_user_id, create_user_identity,
}
use hamburger_evaluation.Login.Google.{
  ExternalIdentity, GoogleRedeemed, bound_to, redeem, is_signed_in, sign_in, can_unlink_identity,
}
use hamburger_evaluation.Login.Google.Unlink.{
  is_users, password_of, get_active_user_has_password, list_identities_by_user,
  discard_user_identity, unlink, unlink_keeps_access,
}
use hamburger_evaluation.Login.Google.Redeem.{IsExchange, redeem-IsExchange}
use hamburger_evaluation.Login.Google.Once.{redeem_once}
use hamburger_evaluation.Login.Password.{has_address, login, authenticate_token}
use hamburger_evaluation.Login.Password.SignsIn.{
  quiet, Opens, login-eq-ok_iff, authenticate_token-eq-ok_iff,
}
use hamburger_evaluation.Login.Google.SignIn.{sign_in-stranger}

abbrev user : User
user = record { id = "u1"; username = "patty"; bio = ""; email = "p@b.jp"; admin = false }

abbrev handoff : LoginHandoff
handoff = record {
  id = "h1";
  code_hash = "c";
  binder_hash = "b";
  outcome = LoginHandoffOutcome.signed_in;
  user_id = "u1";
  return_to = "/";
  expires_at = 60;
}

abbrev db : Db
db = record {
  users = record { user = user; password_digest = some "x"; discarded = false } ∷ [];
  identities = [];
  handoffs = handoff ∷ [];
  now = 10;
  serial = 0;
  faults = [];
}

-- The database refuses the third statement, the reading of the code.
abbrev shaky : Db
shaky = record db { faults = false ∷ false ∷ true ∷ [] }

abbrev hash : String → String
hash s = s

abbrev issue : String → Result String
issue id = ok "jwt"

failed : (redeem hash issue "c" "b" shaky).0 ≡ err (failure "database")
unfolding redeem unit_of_work lock_login_handoff get_login_handoff_by_code_hash
failed = refl

rolled_back : (unit_of_work (fail {A = ℕ} login_handoff_invalid) db).0 ≡ err login_handoff_invalid
unfolding unit_of_work
rolled_back = refl

abbrev welcome : GoogleRedeemed
welcome = record {
  outcome = LoginHandoffOutcome.signed_in;
  user = some user;
  token = some "jwt";
  return_to = "/";
}

abbrev after : Db
after = record db { handoffs = [] }

exchanged : redeem hash issue "c" "b" db ≡ (ok welcome, after)
unfolding redeem unit_of_work lock_login_handoff get_login_handoff_by_code_hash
    discard_login_handoff get_active_user_by_id bound_to
exchanged = refl

redeem-IsExchange_example : IsExchange hash issue "c" "b" welcome db after
redeem-IsExchange_example = redeem-IsExchange hash issue "c" "b" db welcome after exchanged

redeem_once_example : redeem hash issue "c" "b" after ≢ (ok welcome, after)
redeem_once_example =
    redeem_once hash issue "c" "b" db welcome after (ground arith) exchanged "b" after welcome after
      (λ h. h)

abbrev stranger : ExternalIdentity
stranger = record {
  provider = "google";
  provider_user_id = "g9";
  email = "p@b.jp";
  email_verified = true;
  name = "Pat";
}

abbrev new_id : ℕ → String
new_id n = "u2"

abbrev no_issues : String → List Message
no_issues s = []

refused :
    sign_in hash new_id no_issues hash stranger db
    ≡ (ok (LoginHandoffOutcome.account_exists, ""), db)
unfolding sign_in unit_of_work get_identity_by_provider_user_id create_user create_user_identity
    get_active_user_by_id
refused = refl

sign_in-stranger_example : is_signed_in LoginHandoffOutcome.account_exists ≡ false
sign_in-stranger_example =
    sign_in-stranger hash new_id no_issues hash stranger db (LoginHandoffOutcome.account_exists, "")
      db refl refl refused

abbrev identity : UserIdentity
identity = record {
  id = "i1";
  user_id = "u1";
  provider = "google";
  provider_user_id = "g1";
  email = "p@b.jp";
}

abbrev linked : Db
linked = record db { identities = identity ∷ [] }

unlinked : unlink user "google" linked ≡ (ok tt, db)
unfolding unlink list_identities_by_user get_active_user_has_password discard_user_identity
    can_unlink_identity
unlinked = refl

unlink_keeps_access_example :
    (password_of (find (is_active_user "u1") db.users) ≡ ok true)
    ⊎ (1 ≤ length (keep (is_users "u1") db.identities))
unlink_keeps_access_example = unlink_keeps_access user "google" linked db (ground arith) unlinked

abbrev clean : String → String → List Message
clean email password = []

login-eq-ok_iff_example :
    ((login str_eq issue clean "p@b.jp" "x" (quiet db)).0 ≡ ok (user, "jwt")) ↔ (
      (clean "p@b.jp" "x" ≡ [])
      × Opens str_eq issue clean (find (has_address "p@b.jp") db.users) "x" user "jwt")
login-eq-ok_iff_example = login-eq-ok_iff str_eq issue clean "p@b.jp" "x" db user "jwt"

authenticate_token-eq-ok_iff_example :
    ((authenticate_token (λ raw. ok raw) "u1" (quiet db)).0 ≡ ok user) ↔ (
      (id : String) × (ok "u1" ≡ ok id)
      × ((r : UserRow) × (find (is_active_user id) db.users ≡ some r) × (r.user ≡ user)))
authenticate_token-eq-ok_iff_example = authenticate_token-eq-ok_iff (λ raw. ok raw) "u1" db user
