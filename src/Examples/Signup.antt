-- ===== src/Examples/Signup.antt =====
-- Signing up at concrete inputs.
use hamburger_evaluation.Base.{
  ℕ, suc, zero, ◌≡◌, ◌≢◌, ◌⊎◌, refl, true, false, some, none, String, [], ◌∷◌, eq_iff, arith,
}
use hamburger_evaluation.Domain.Errors.{ok, err, signup_token_invalid}
use hamburger_evaluation.Domain.Rules.Names.{username_issues}
use hamburger_evaluation.Domain.Rules.Email.{email_issues}
use hamburger_evaluation.Domain.Rules.Password.{password_issues, has_all_char_kinds}
use hamburger_evaluation.Domain.Account.{User}
use hamburger_evaluation.Transaction.{Session, statement, transaction}
use hamburger_evaluation.Signup.{
  Tables, Mailbox, Mail, en, SignupVerification, CreateSignupVerificationParams, skipped, accepted,
  lock_signup_verification, get_signup_verification_by_token_hash, discard_signup_verification,
  insert_user, create_user, upsert_signup_verification,
}
use hamburger_evaluation.Signup.Rows.{IsIndexed}
use hamburger_evaluation.Signup.Sweep.{Swept}
use hamburger_evaluation.Signup.Resend.{upserts, create-create_soon}
use hamburger_evaluation.Signup.Service.{
  Env, SignupInput, checked, credentials_issues, signup_issues, request, confirm,
}
use hamburger_evaluation.Signup.Service.ConfirmBody.{Confirms}
use hamburger_evaluation.Signup.Service.Confirms.{confirm_exact, confirm-err}
use hamburger_evaluation.Signup.Service.Requests.{
  Notifies, quiet, expected, request_reveals_nothing, request-registered,
}
use hamburger_evaluation.Signup.Service.Once.{at, wait, passed, here, next, WasDrawn, confirm_once}

abbrev random : ℕ → String
random zero = "t0"
random (suc n) = "t1"

abbrev env : Env
env = record {
  is_print = λ c. true;
  parse_address = λ s. some s;
  lower = λ s. s;
  new_id = λ n. "id";
  to_lower = λ s. s;
  random = random;
  hash_token = λ s. s;
  hash_password = λ s. ok "digest";
  issue = λ id. ok "login";
  query_escape = λ s. s;
  decimal = λ n. "1";
  base_url = "https://h.jp";
  held = λ v. false;
}

abbrev waiting : SignupVerification
waiting = record {
  id = "v1";
  email = "p@b.jp";
  username = "patty";
  password_digest = "digest";
  token_hash = "t0";
  expires_at = 100;
  last_sent_at = 5;
  generation = 1;
}

abbrev patty : User
patty = record { id = "u1"; username = "patty"; bio = ""; email = "p@b.jp"; admin = false }

abbrev tables : Tables
tables = record { users = []; verifications = waiting ∷ []; now = 5; serial = 0 }

abbrev registered : Tables
registered = record {
  users = record { user = patty; password_digest = some "digest"; discarded = false } ∷ [];
  verifications = [];
  now = 5;
  serial = 1;
}

abbrev mailbox : Mailbox
mailbox = record { mails = []; drawn = 1 }

abbrev input : SignupInput
input = record {
  username = "patty";
  email = "p@b.jp";
  password = "abc123!?";
  password_confirmation = none;
  lang = en;
}

abbrev confirmed_session : Session Tables Mailbox
confirmed_session =
    quiet
      (record {
        users =
            record {
              user = record {
                id = "id";
                username = "patty";
                bio = "";
                email = "p@b.jp";
                admin = false;
              };
              password_digest = some "digest";
              discarded = false;
            }
            ∷ [];
        verifications = [];
        now = 5;
        serial = 1;
      })
      mailbox

abbrev made : User
made = record { id = "id"; username = "patty"; bio = ""; email = "p@b.jp"; admin = false }

confirm_run : confirm env "t0" (quiet tables mailbox) ≡ (ok (made, "login"), confirmed_session)
unfolding confirm transaction lock_signup_verification get_signup_verification_by_token_hash
    create_user insert_user discard_signup_verification statement
confirm_run = refl

confirm_exact_example :
    Confirms env "t0" made tables confirmed_session.tables × (env.issue made.id ≡ ok "login")
confirm_exact_example = confirm_exact env "t0" (quiet tables mailbox) confirm_run

unknown_token : (confirm env "t9" (quiet tables mailbox)).0 ≡ err signup_token_invalid
unfolding confirm transaction lock_signup_verification get_signup_verification_by_token_hash
    create_user insert_user discard_signup_verification statement
unknown_token = refl

confirm-err_example :
    ((confirm env "t9" (quiet tables mailbox)).1.tables ≡ tables)
    ⊎ ((u : User) × Confirms env "t9" u tables (confirm env "t9" (quiet tables mailbox)).1.tables
        × (env.issue u.id ≡ err signup_token_invalid))
confirm-err_example = confirm-err env "t9" (quiet tables mailbox) unknown_token

tables-IsIndexed : IsIndexed env.lower tables
tables-IsIndexed = record { by_email = (refl, tt); by_token = (refl, tt) }

mailbox-WasDrawn : WasDrawn env "t0" mailbox
mailbox-WasDrawn zero e = omega arith
mailbox-WasDrawn (suc n) e = let k = (eq_iff "t1" "t0").1 e in absurd (ground arith)

confirm_once_example :
    confirm env "t0" (at (true ∷ []) (wait 3 confirmed_session))
    ≢ (ok (made, "login"), confirmed_session)
confirm_once_example =
    confirm_once env "t0" (quiet tables mailbox) confirmed_session (wait 3 confirmed_session)
      confirmed_session (true ∷ []) (made, "login") (made, "login") tables-IsIndexed confirm_run
      mailbox-WasDrawn
      (next confirmed_session confirmed_session (wait 3 confirmed_session) (here confirmed_session)
        (passed 3 confirmed_session))

request_reveals_nothing_example :
    (request env input 0 (quiet tables mailbox)).0
    ≡ expected (checked (signup_issues env input)) (ok "digest")
request_reveals_nothing_example = request_reveals_nothing env input 0 tables mailbox refl

no_issues : signup_issues env input ≡ []
unfolding signup_issues credentials_issues username_issues email_issues password_issues
    has_all_char_kinds
no_issues = refl

request-registered_example :
    (mail : Mail) × ((request env input 0 (quiet registered mailbox)).0 ≡ ok tt)
    × ((request env input 0 (quiet registered mailbox)).1.outside.mails ≡ mail ∷ [])
    × Notifies env input mail
    × ((request env input 0 (quiet registered mailbox)).1.outside.drawn ≡ 1)
    × ((request env input 0 (quiet registered mailbox)).1.tables.users ≡ registered.users)
    × Swept registered (request env input 0 (quiet registered mailbox)).1.tables.verifications
request-registered_example =
    request-registered env input 0 "digest" registered mailbox no_issues refl refl

abbrev first_params : CreateSignupVerificationParams
first_params = record {
  email = "p@b.jp";
  username = "patty";
  password_digest = "digest";
  token_hash = "t0";
}

abbrev second_params : CreateSignupVerificationParams
second_params = record {
  email = "p@b.jp";
  username = "mallory";
  password_digest = "other";
  token_hash = "t1";
}

abbrev no_signups : Tables
no_signups = record { users = []; verifications = []; now = 5; serial = 0 }

first_accepted :
    (upsert_signup_verification env.lower env.new_id first_params no_signups).0
    ≡ ok (accepted "id" 1)
unfolding upsert_signup_verification
first_accepted = refl

abbrev third_params : CreateSignupVerificationParams
third_params = record {
  email = "q@b.jp";
  username = "quincy";
  password_digest = "digest";
  token_hash = "t2";
}

abbrev busy_tables : Tables
busy_tables =
    upserts env.lower env.new_id ((third_params, 7) ∷ (second_params, 8) ∷ [])
      (upsert_signup_verification env.lower env.new_id first_params no_signups).1

create-create_soon_example :
    upsert_signup_verification env.lower env.new_id second_params (record busy_tables { now = 9 })
    ≡ (ok skipped, record busy_tables { now = 9 })
create-create_soon_example =
    create-create_soon env.lower env.new_id first_params second_params no_signups "id" 1 9
      ((third_params, 7) ∷ (second_params, 8) ∷ []) first_accepted refl
      (omega arith, (omega arith, tt)) (omega arith)

abbrev empty_mailbox : Mailbox
empty_mailbox = record { mails = []; drawn = 0 }
