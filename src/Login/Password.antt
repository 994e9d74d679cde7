-- ===== src/Login/Password.antt =====
-- Auth.Login and Auth.AuthenticateToken of usecase/auth.go.
pub mod SignsIn
use hamburger_evaluation.Base.{
  ℕ, ◌≡◌, refl, sym, ap, ◌∙◌, Bool, true, false, not, ◌&&◌, ◌||◌, Option, none, some, String, List,
  [], ◌∷◌, ◌++◌, arith, str_eq, if◌then◌else◌, find, inl, inr, ◌⊎◌, Bool-cases,
}
use hamburger_evaluation.Domain.Errors.{
  Message, Error, Result, ok, err, validation, invalid_credentials, unauthenticated, user_not_found,
}
use hamburger_evaluation.Domain.Rules.Chars.{is_empty}
use hamburger_evaluation.Domain.Account.{User}
use hamburger_evaluation.Login.{
  UserRow, Db, Action, succeed, fail, lift, attempt, statement, continue, ◌>>=◌, ◌>>◌,
  is_active_user, user_of, get_active_user_by_id,
}
use hamburger_evaluation.Login.Runs.{continue-ok, statement-ok, Keeps, result-eq}

-- An empty digest is that of an account without password.
pub record UserCredentials : Type 0 where
  pub user : User
  pub password_digest : String

abbrev digest_of : Option String → String
digest_of none = ""
digest_of (some d) = d

abbrev pub has_address : String → UserRow → Bool
has_address email r = str_eq r.user.email email && not r.discarded

abbrev credentials_of : Option UserRow → Result UserCredentials
credentials_of none = err user_not_found
credentials_of (some r) =
    ok (record { user = r.user; password_digest = digest_of r.password_digest })

-- UserQuery.GetActiveUserByEmail
unfoldable pub get_active_user_by_email : String → Action UserCredentials
get_active_user_by_email email =
    statement (λ db. (credentials_of (find (has_address email) db.users), db))

abbrev pub dummy_password_digest : String
dummy_password_digest = "$2a$10$N9qo8uLOickgx2ZMRZoMyeIjZAgcfl7p92ldGxad68LJZdL17lhWy"

-- `errors.Is(err, domain.ErrUserNotFound)`, where the caller is told another error.
told_instead : Error → Error → Error
told_instead e user_not_found = e
told_instead e f = f

-- `compare` is PasswordHasher.Compare without its error, `issue` the issuer of login tokens and
-- `issues` what CredentialsIssues finds. How long a comparison takes is left out, and with it the
-- comparison whose answer is not used.
module _ (compare : String → String → Bool) (issue : String → Result String)
    (issues : String → String → List Message) where
  abbrev compared : String → String
  compared digest = if is_empty digest then dummy_password_digest else digest

  log_in : UserCredentials → String → Action (User × String)
  log_in creds password =
      if not (compare (compared creds.password_digest) password) || is_empty creds.password_digest
      then fail invalid_credentials
      else (do token ← lift (issue creds.user.id); succeed (creds.user, token))

  log_in_as : String → Result UserCredentials → Action (User × String)
  unfolding log_in told_instead
  log_in_as password (err e) = fail (told_instead invalid_credentials e)
  log_in_as password (ok creds) = log_in creds password

  log_in_checked : List Message → String → String → Action (User × String)
  unfolding log_in_as
  log_in_checked (m ∷ ms) email password = fail (validation (m ∷ ms))
  log_in_checked [] email password = do
    creds ← attempt (get_active_user_by_email email)
    log_in_as password creds

  -- Auth.Login
  unfoldable pub login : String → String → Action (User × String)
  unfolding log_in_checked
  login email password = log_in_checked (issues email password) email password

-- `verify` is the verifier of login tokens.
module _ (verify : String → Result String) where
  known_user : Result User → Result User
  unfolding told_instead
  known_user (ok u) = ok u
  known_user (err e) = err (told_instead unauthenticated e)

  verified : Result String → Action User
  unfolding known_user
  verified (err e) = fail unauthenticated
  verified (ok id) = do user ← attempt (get_active_user_by_id id); lift (known_user user)

  -- Auth.AuthenticateToken
  unfoldable pub authenticate_token : String → Action User
  unfolding verified
  authenticate_token raw = verified (verify raw)
