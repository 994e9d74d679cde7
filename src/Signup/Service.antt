-- ===== src/Signup/Service.antt =====
-- Request and Confirm of usecase/signup.go, and the keys of their mails (domain/mail_delivery.go).
pub mod ConfirmBody
pub mod Confirms
pub mod Requests
pub mod Kept
pub mod Once
pub mod RoundTrip
use hamburger_evaluation.Base.{
  ℕ, suc, ◌/◌, ◌≡◌, refl, Bool, true, false, not, Option, none, some, String, List, [], ◌∷◌, ◌++◌,
  str_eq, if◌then◌else◌,
}
use Prim.Native.String.{◌++◌ as cat}
use hamburger_evaluation.Domain.Errors.{
  Message, msg, Error, Result, ok, err, validation, user_not_found, email_taken,
  signup_token_invalid,
}
use hamburger_evaluation.Domain.Rules.Names.{username_issues}
use hamburger_evaluation.Domain.Rules.Email.{email_issues}
use hamburger_evaluation.Domain.Rules.Password.{password_issues}
use hamburger_evaluation.Domain.Account.{User}
use hamburger_evaluation.Login.{CreateUserParams}
use hamburger_evaluation.Transaction.{
  Session, succeed, fail, lift, attempt, call, transaction, continue, ◌>>=◌, ◌>>◌,
}
use hamburger_evaluation.Signup.{
  Tables, Mailbox, Mail, confirmation, notice, Lang, Run, SignupVerification, PendingSignup,
  SignupVerificationReceipt, skipped, accepted, signup_token_ttl, lock_signup_verification,
  get_signup_verification_by_token_hash, discard_signup_verification,
  discard_expired_signup_verifications, get_active_user_by_email_ignore_case, create_user,
  create_signup_verification,
}

-- What the code calls outside of the repository: unicode.IsPrint, net/mail, the database's lower()
-- and random ids, strings.ToLower, 32 random bytes as base64url, SHA-256 in hexadecimal, bcrypt,
-- url.QueryEscape and the decimal form of a number; then the setting SignupConfig.BaseURL and the
-- rows that another transaction has locked.
pub record Env : Type 0 where
  pub is_print : ℕ → Bool
  pub parse_address : String → Option String
  pub lower : String → String
  pub new_id : ℕ → String
  pub to_lower : String → String
  pub random : ℕ → String
  pub hash_token : String → String
  pub hash_password : String → Result String
  pub issue : String → Result String
  pub query_escape : String → String
  pub decimal : ℕ → String
  pub base_url : String
  pub held : SignupVerification → Bool

pub record SignupInput : Type 0 where
  pub username : String
  pub email : String
  pub password : String
  pub password_confirmation : Option String
  pub lang : Lang

-- passwordConfirmationIssues
password_confirmation_issues : String → Option String → List Message
password_confirmation_issues password none = []
password_confirmation_issues password (some c) =
    if str_eq c password then [] else msg "password.confirmation_mismatch" [] ∷ []

abbrev pub checked : List Message → Result (Unit {0})
checked [] = ok tt
checked (m ∷ ms) = err (validation (m ∷ ms))

-- `errors.Is(err, domain.ErrUserNotFound)`
is_user_not_found : Error → Bool
is_user_not_found user_not_found = true
is_user_not_found e = false

abbrev pub discard_expired_limit : ℕ
discard_expired_limit = 20

module _ (env : Env) where
  -- CredentialsIssues
  unfoldable pub credentials_issues : String → String → List Message
  credentials_issues email password =
      email_issues env.is_print env.parse_address email ++ password_issues password

  -- SignupInput.validate
  unfoldable pub signup_issues : SignupInput → List Message
  unfolding password_confirmation_issues
  signup_issues i =
      username_issues i.username
      ++ (credentials_issues i.email i.password
          ++ password_confirmation_issues i.password i.password_confirmation)

  -- SignupConfirmationMailKey
  unfoldable pub signup_confirmation_mail_key : String → ℕ → String
  signup_confirmation_mail_key id generation =
      cat "signup_confirmation:" (cat id (cat ":" (env.decimal generation)))

  -- AlreadyRegisteredMailKey: `clock` is the server's Unix time, in seconds.
  unfoldable pub already_registered_mail_key : String → ℕ → String
  already_registered_mail_key email clock =
      cat "already_registered:" (cat (env.to_lower email) (cat ":" (env.decimal (clock / 60))))

  -- The mailer takes a mail and sends it later, so that handing it over does not fail.
  abbrev pub send : Mail → Run (Unit {0})
  send m s = (ok tt, record s { outside = record s.outside { mails = m ∷ s.outside.mails } })

  -- NewSignupToken
  abbrev pub draw : Run String
  draw s = (
    ok (env.random s.outside.drawn),
    record s { outside = record s.outside { drawn = suc s.outside.drawn } },
  )

  -- Signups.discardExpired
  unfoldable pub discard_expired : Run (Unit {0})
  discard_expired =
      attempt (discard_expired_signup_verifications env.held discard_expired_limit) >>= λ _.
      succeed tt

  abbrev pub confirmation_mail : SignupInput → String → String → ℕ → Mail
  confirmation_mail i raw id generation = confirmation (record {
    to = i.email;
    confirm_url = cat env.base_url (cat "/signup/confirm?token=" (env.query_escape raw));
    valid_for = signup_token_ttl;
    idempotency_key = signup_confirmation_mail_key id generation;
    lang = i.lang;
  })

  abbrev pub notice_mail : SignupInput → ℕ → Mail
  notice_mail i clock = notice (record {
    to = i.email;
    sign_in_url = cat env.base_url "/signin";
    idempotency_key = already_registered_mail_key i.email clock;
    lang = i.lang;
  })

  send_accepted : SignupInput → String → SignupVerificationReceipt → Run (Unit {0})
  send_accepted i raw skipped = succeed tt
  send_accepted i raw (accepted id generation) = send (confirmation_mail i raw id generation)

  -- The part of Request for an address that no account has.
  request_new : SignupInput → String → Run (Unit {0})
  unfolding send_accepted
  request_new i digest = do
    raw ← call draw
    receipt ← create_signup_verification env.lower env.new_id (record {
      email = i.email;
      username = i.username;
      password_digest = digest;
      token_hash = env.hash_token raw;
    })
    send_accepted i raw receipt

  request_for : SignupInput → ℕ → String → Result User → Run (Unit {0})
  unfolding request_new is_user_not_found
  request_for i clock digest (ok u) = send (notice_mail i clock)
  request_for i clock digest (err e) = if is_user_not_found e then request_new i digest else fail e

  -- Signups.Request
  unfoldable pub request : SignupInput → ℕ → Run (Unit {0})
  unfolding request_for
  request i clock = do
    lift (checked (signup_issues i))
    digest ← lift (env.hash_password i.password)
    discard_expired
    registered ← attempt (get_active_user_by_email_ignore_case env.lower i.email)
    request_for i clock digest registered

  abbrev pub user_params : PendingSignup → CreateUserParams
  user_params p = record {
    email = p.email;
    username = p.username;
    password_digest = p.password_digest;
    passwordless = false;
    admin = false;
  }

  -- The body of the transaction of Confirm.
  pub confirm_body : String → Run User
  confirm_body raw = do
    lock_signup_verification (env.hash_token raw)
    p ← get_signup_verification_by_token_hash (env.hash_token raw)
    user ← create_user env.lower env.new_id (user_params p)
    discard_signup_verification p.id
    succeed user

  -- The answer does not tell a token whose address was taken meanwhile from one that is not valid.
  hide_taken : Error → Error
  hide_taken email_taken = signup_token_invalid
  hide_taken e = e

  abbrev answer_of : Result User → Result User
  answer_of (ok u) = ok u
  answer_of (err e) = err (hide_taken e)

  -- Signups.Confirm
  unfoldable pub confirm : String → Run (User × String)
  unfolding confirm_body hide_taken
  confirm raw = do
    result ← attempt (transaction (confirm_body raw))
    user ← lift (answer_of result)
    token ← lift (env.issue user.id)
    succeed (user, token)
