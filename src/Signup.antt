-- ===== src/Signup.antt =====
-- The tables that a sign-up reads and writes, and their statements: domain/signup_verification.go,
-- adapter/repository/signup_verification_repository.go, adapter/query/signup_verification_query.go,
-- the creation of a user in adapter/repository/user_repository.go and the search by mail address in
-- adapter/query/user_query.go.
pub mod Service
pub mod Rows
pub mod Resend
pub mod Sweep
use hamburger_evaluation.Base.{
  ℕ, suc, ◌+◌, ◌*◌, ◌^◌, ◌≡◌, refl, Bool, true, false, not, ◌&&◌, ◌||◌, Option, none, some, String,
  List, [], ◌∷◌, map, arith, str_eq, leb, ltb, if◌then◌else◌, keep, find, any, take,
}
use hamburger_evaluation.Domain.Errors.{
  Error, Result, ok, err, failure, user_not_found, email_taken, invalid_password_digest,
  signup_token_invalid,
}
use hamburger_evaluation.Domain.Rules.Chars.{is_empty}
use hamburger_evaluation.Domain.Account.{User}
use hamburger_evaluation.Login.{UserRow, CreateUserParams, found_or}
use hamburger_evaluation.Transaction.{Action, fail, statement, query}

-- A row of signup_verifications.
pub record SignupVerification : Type 0 where
  pub id : String
  pub email : String
  pub username : String
  pub password_digest : String
  pub token_hash : String
  pub expires_at : ℕ
  pub last_sent_at : ℕ
  pub generation : ℕ

-- `now` is the database's now(), `serial` counts the ids given out.
pub record Tables : Type 0 where
  pub users : List UserRow
  pub verifications : List SignupVerification
  pub now : ℕ
  pub serial : ℕ

pub data Lang : Type 0 where
  en ja : Lang

pub record SignupConfirmation : Type 0 where
  pub to : String
  pub confirm_url : String
  pub valid_for : ℕ
  pub idempotency_key : String
  pub lang : Lang

pub record AlreadyRegisteredNotice : Type 0 where
  pub to : String
  pub sign_in_url : String
  pub idempotency_key : String
  pub lang : Lang

pub data Mail : Type 0 where
  confirmation : SignupConfirmation → Mail
  notice : AlreadyRegisteredNotice → Mail

-- What was handed to the mailer, the last first, and how many random tokens were drawn.
pub record Mailbox : Type 0 where
  pub mails : List Mail
  pub drawn : ℕ

abbrev pub Run : Type 0 → Type 0
Run A = Action Tables Mailbox A

abbrev second : ℕ
second = 10 ^ 9

abbrev pub signup_token_ttl : ℕ
signup_token_ttl = 24 * 60 * 60 * second

abbrev pub signup_resend_interval : ℕ
signup_resend_interval = 60 * second

pub record CreateSignupVerificationParams : Type 0 where
  pub email : String
  pub username : String
  pub password_digest : String
  pub token_hash : String

-- domain.SignupVerificationReceipt, with its id and generation where it was accepted.
pub data SignupVerificationReceipt : Type 0 where
  skipped : SignupVerificationReceipt
  accepted : String → ℕ → SignupVerificationReceipt

pub record PendingSignup : Type 0 where
  pub id : String
  pub email : String
  pub username : String
  pub password_digest : String

abbrev pub has_token : String → SignupVerification → Bool
has_token h v = str_eq v.token_hash h

abbrev pub is_live : String → ℕ → SignupVerification → Bool
is_live h now v = has_token h v && ltb now v.expires_at

-- LockSignupVerification: that there is a row. The lock itself puts the confirmations of one token
-- in order.
unfoldable pub lock_signup_verification : String → Run (Unit {0})
lock_signup_verification h =
    query (λ t. if any (is_live h t.now) t.verifications then ok tt else err signup_token_invalid)

abbrev pub pending : SignupVerification → PendingSignup
pending v = record {
  id = v.id;
  email = v.email;
  username = v.username;
  password_digest = v.password_digest;
}

abbrev pub pending_of : Option SignupVerification → Result PendingSignup
pending_of none = err signup_token_invalid
pending_of (some v) = ok (pending v)

-- GetSignupVerificationByTokenHash
unfoldable pub get_signup_verification_by_token_hash : String → Run PendingSignup
get_signup_verification_by_token_hash h =
    query (λ t. pending_of (find (is_live h t.now) t.verifications))

delete_verification : String → Tables → Result (Unit {0}) × Tables
delete_verification id t =
    (ok tt, record t { verifications = keep (λ v. not (str_eq v.id id)) t.verifications })

-- DiscardSignupVerification
unfoldable pub discard_signup_verification : String → Run (Unit {0})
unfolding delete_verification
discard_signup_verification id = statement (delete_verification id)

insert_by_expiry : SignupVerification → List SignupVerification → List SignupVerification
insert_by_expiry v [] = v ∷ []
insert_by_expiry v (x ∷ xs) =
    let rest = x ∷ insert_by_expiry v xs in
    if leb v.expires_at x.expires_at then v ∷ x ∷ xs else rest

sort_by_expiry : List SignupVerification → List SignupVerification
sort_by_expiry [] = []
sort_by_expiry (v ∷ vs) = insert_by_expiry v (sort_by_expiry vs)

abbrev is_expired : ℕ → SignupVerification → Bool
is_expired now v = leb v.expires_at now

-- `held` tells the rows that another transaction has locked.
unfoldable pub expired_rows : (SignupVerification → Bool) → ℕ → Tables → List SignupVerification
unfolding insert_by_expiry sort_by_expiry
expired_rows held limit t =
    take limit (sort_by_expiry (keep (λ v. is_expired t.now v && not (held v)) t.verifications))

unfoldable pub delete_expired :
    (SignupVerification → Bool) → ℕ → Tables → Result (Unit {0}) × Tables
delete_expired held limit t = (
  ok tt,
  record t {
    verifications =
        keep (λ v. not (any (λ x. str_eq x.id v.id) (expired_rows held limit t))) t.verifications;
  },
)

-- DiscardExpiredSignupVerifications; the count is not used.
unfoldable pub discard_expired_signup_verifications :
    (SignupVerification → Bool) → ℕ → Run (Unit {0})
discard_expired_signup_verifications held limit = statement (delete_expired held limit)

-- `lower` is the database's lower().
module _ (lower : String → String) where
  abbrev pub is_registered : String → UserRow → Bool
  is_registered email r = str_eq (lower r.user.email) (lower email) && not r.discarded

  abbrev user_of : Option UserRow → Result User
  user_of none = err user_not_found
  user_of (some r) = ok r.user

  -- GetActiveUserByEmailIgnoreCase
  unfoldable pub get_active_user_by_email_ignore_case : String → Run User
  get_active_user_by_email_ignore_case email =
      query (λ t. user_of (find (is_registered email) t.users))

  -- The unique indexes of the table: on the address, and on the address in lower case.
  abbrev pub has_email : String → UserRow → Bool
  has_email email r = str_eq r.user.email email || str_eq (lower r.user.email) (lower email)

  abbrev pub same_email : String → SignupVerification → Bool
  same_email email v = str_eq (lower v.email) (lower email)

  abbrev pub renewed : CreateSignupVerificationParams → ℕ → SignupVerification → SignupVerification
  renewed p now v = record v {
    email = p.email;
    username = p.username;
    password_digest = p.password_digest;
    token_hash = p.token_hash;
    expires_at = now + signup_token_ttl;
    last_sent_at = now;
    generation = suc v.generation;
  }

  abbrev pub renew_row :
      CreateSignupVerificationParams → ℕ → SignupVerification → SignupVerification
  renew_row p now v = if same_email p.email v then renewed p now v else v

  -- `new_id` gives the database's n-th random id.
  module _ (new_id : ℕ → String) where
    abbrev pub new_row : Tables → CreateUserParams → UserRow
    new_row t p = record {
      user = record {
        id = new_id t.serial;
        username = p.username;
        bio = "";
        email = p.email;
        admin = p.admin;
      };
      password_digest = if p.passwordless then none else some p.password_digest;
      discarded = false;
    }

    unfoldable pub insert_user : CreateUserParams → Tables → Result User × Tables
    insert_user p t = if any (has_email p.email) t.users then (err email_taken, t) else (
      ok (new_row t p).user,
      record t { users = new_row t p ∷ t.users; serial = suc t.serial },
    )

    -- Users.Create over CreateUser
    unfoldable pub create_user : CreateUserParams → Run User
    create_user p =
        if p.passwordless && not (is_empty p.password_digest)
          || not p.passwordless && is_empty p.password_digest
        then fail invalid_password_digest
        else statement (insert_user p)

    abbrev pub first_row : CreateSignupVerificationParams → Tables → SignupVerification
    first_row p t = record {
      id = new_id t.serial;
      email = p.email;
      username = p.username;
      password_digest = p.password_digest;
      token_hash = p.token_hash;
      expires_at = t.now + signup_token_ttl;
      last_sent_at = t.now;
      generation = 1;
    }

    -- The unique index on token_hash refuses a hash that another row has.
    upsert :
        CreateSignupVerificationParams
        → Tables
        → Option SignupVerification
        → Result SignupVerificationReceipt × Tables
    upsert p t none =
        if any (has_token p.token_hash) t.verifications then (err (failure "token_hash"), t) else (
          ok (accepted (new_id t.serial) 1),
          record t { verifications = first_row p t ∷ t.verifications; serial = suc t.serial },
        )
    upsert p t (some v) =
        if not (leb (v.last_sent_at + signup_resend_interval) t.now)
        then (ok skipped, t)
        else if any (λ x. has_token p.token_hash x && not (same_email p.email x)) t.verifications
        then (err (failure "token_hash"), t)
        else (
          ok (accepted v.id (suc v.generation)),
          record t { verifications = map (renew_row p t.now) t.verifications },
        )

    -- UpsertSignupVerification: the row of the address, where there is one. `generation` stays
    -- within int32, which 60 seconds between two renewals leave room for.
    unfoldable pub upsert_signup_verification :
        CreateSignupVerificationParams → Tables → Result SignupVerificationReceipt × Tables
    unfolding upsert
    upsert_signup_verification p t = upsert p t (find (same_email p.email) t.verifications)

    -- CreateSignupVerification
    unfoldable pub create_signup_verification :
        CreateSignupVerificationParams → Run SignupVerificationReceipt
    create_signup_verification p = statement (upsert_signup_verification p)
