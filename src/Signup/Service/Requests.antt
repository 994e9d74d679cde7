-- ===== src/Signup/Service/Requests.antt =====
-- What Request of usecase/signup.go answers and sends, with a database that refuses nothing.
use hamburger_evaluation.Base.{
  sym, str_eq, ◌&&◌, not, ap, ℕ, suc, ◌+◌, ◌≡◌, refl, true, Option, none, some, String, List, [],
  ◌∷◌, arith, leb, find, any, Bool-cases, inl, inr,
}
use mathlib.Core.Path.{subst}
use Prim.Native.String.{◌++◌ as cat}
use hamburger_evaluation.Domain.Errors.{Result, ok, err}
use hamburger_evaluation.Login.{UserRow}
use hamburger_evaluation.Transaction.{Session, continue, lift, statement}
use hamburger_evaluation.Signup.{
  Mail, confirmation, notice, Tables, Mailbox, Run, SignupVerification,
  CreateSignupVerificationParams, SignupVerificationReceipt, skipped, accepted,
  signup_resend_interval, delete_expired, discard_expired_signup_verifications, user_of,
  is_registered, get_active_user_by_email_ignore_case, same_email, upsert,
  upsert_signup_verification, create_signup_verification,
}
use hamburger_evaluation.Signup.Sweep.{Swept, delete_expired-Swept}
use hamburger_evaluation.Signup.Rows.{Absent, delete_expired-Absent, no_clash_at_all}
use hamburger_evaluation.Signup.Service.{
  Env, SignupInput, checked, signup_issues, discard_expired_limit, notice_mail, discard_expired,
  send_accepted, is_user_not_found, request_new, request_for, request,
}

abbrev S : Type 0
S = Session Tables Mailbox

abbrev pub quiet : Tables → Mailbox → S
quiet t w = record { tables = t; outside = w; faults = [] }

-- The checks of the input and the hash of the password decide.
abbrev pub expected : Result (Unit {0}) → Result String → Result (Unit {0})
expected (err e) h = err e
expected (ok x) (err e) = err e
expected (ok x) (ok digest) = ok tt

checked_then :
    (c : Result (Unit {0})) (h : Result String) (k : String → Run (Unit {0})) (s : S)
    → ((digest : String) → (k digest s).0 ≡ ok tt)
    → (continue (λ _ m. continue k (lift h m)) (lift c s)).0 ≡ expected c h
checked_then (err e) h k s f = refl
checked_then (ok x) (err e) k s f = refl
checked_then (ok x) (ok digest) k s f = f digest

module _ (env : Env) where
  abbrev pub swept : Tables → Tables
  swept t = (delete_expired env.held discard_expired_limit t).1

  upsert-answers :
      (p : CreateSignupVerificationParams) (t : Tables) (o : Option SignupVerification)
      → Absent p.token_hash t
      → (r : SignupVerificationReceipt) × ((upsert env.lower env.new_id p t o).0 ≡ ok r)
  unfolding upsert
  upsert-answers p t none a = rw a (accepted (env.new_id t.serial) 1, refl)
  upsert-answers p t (some v) a =
      elim (Bool-cases (leb (v.last_sent_at + signup_resend_interval) t.now)) [
        | inr e ↦ rw e (skipped, refl)
        | inl e ↦ rw e (
            rw (no_clash_at_all env.lower p t.now t.verifications a)
              (accepted v.id (suc v.generation), refl))
      ]

  sent-answer :
      (i : SignupInput) (raw : String) (x : Result SignupVerificationReceipt × S)
      (r : SignupVerificationReceipt)
      → x.0 ≡ ok r
      → (continue (send_accepted env i raw) x).0 ≡ ok tt
  unfolding send_accepted
  sent-answer i raw (err e, s) r h = absurd (ground arith)
  sent-answer i raw (ok skipped, s) r h = refl
  sent-answer i raw (ok (accepted id n), s) r h = refl

  request_new-answer :
      (i : SignupInput) (digest : String) (t : Tables) (w : Mailbox)
      → Absent (env.hash_token (env.random w.drawn)) t
      → (request_new env i digest (quiet t w)).0 ≡ ok tt
  unfolding request_new create_signup_verification statement upsert_signup_verification
  request_new-answer i digest t w a =
      let p : CreateSignupVerificationParams = record {
        email = i.email;
        username = i.username;
        password_digest = digest;
        token_hash = env.hash_token (env.random w.drawn);
      } in
      let u =
        upsert env.lower env.new_id p t (find (same_email env.lower p.email) t.verifications) in
      let (r, e) = upsert-answers p t (find (same_email env.lower p.email) t.verifications) a in
      sent-answer i (env.random w.drawn) (u.0, quiet u.1 (record w { drawn = suc w.drawn })) r e

  request_for-answer :
      (i : SignupInput) (clock : ℕ) (digest : String) (t : Tables) (w : Mailbox)
      (o : Option UserRow)
      → Absent (env.hash_token (env.random w.drawn)) t
      → (request_for env i clock digest (user_of env.lower o) (quiet t w)).0 ≡ ok tt
  unfolding request_for is_user_not_found
  request_for-answer i clock digest t w (some u) a = refl
  request_for-answer i clock digest t w none a = request_new-answer i digest t w a

  -- The answer to a request depends on what was sent and on nothing in the database: an address
  -- that an account has, one that waits for its confirmation, one that waited for less than a
  -- minute and one that nobody ever gave get the same answer. No stored token has the hash of the
  -- one that would be drawn, and no statement is refused.
  pub request_reveals_nothing :
      (i : SignupInput) (clock : ℕ) (t : Tables) (w : Mailbox)
      → Absent (env.hash_token (env.random w.drawn)) t
      → (request env i clock (quiet t w)).0
        ≡ expected (checked (signup_issues env i)) (env.hash_password i.password)
  unfolding request discard_expired discard_expired_signup_verifications
      get_active_user_by_email_ignore_case statement
  request_reveals_nothing i clock t w a =
      checked_then (checked (signup_issues env i)) (env.hash_password i.password) _ (quiet t w)
        (λ digest.
          request_for-answer i clock digest (swept t) w
            (find (is_registered env.lower i.email) (swept t).users)
            (delete_expired-Absent (env.hash_token (env.random w.drawn)) env.held
              discard_expired_limit t a))

  found_user :
      (email : String) (rows : List UserRow)
      → any (is_registered env.lower email) rows ≡ true
      → (r : UserRow) × (find (is_registered env.lower email) rows ≡ some r)
  found_user email [] h = absurd (ground arith)
  found_user email (r ∷ rows) h = elim (Bool-cases (is_registered env.lower email r)) [
    | inl e ↦ rw e (r, refl)
    | inr e ↦ rw e (found_user email rows (ground arith))
  ]

  request-registered_run :
      (i : SignupInput) (clock : ℕ) (digest : String) (t : Tables) (w : Mailbox)
      → signup_issues env i ≡ []
      → env.hash_password i.password ≡ ok digest
      → any (is_registered env.lower i.email) t.users ≡ true
      → request env i clock (quiet t w)
        ≡ (ok tt, quiet (swept t) (record w { mails = notice_mail env i clock ∷ w.mails }))
  unfolding request discard_expired discard_expired_signup_verifications
      get_active_user_by_email_ignore_case statement request_for delete_expired
  request-registered_run i clock digest t w valid hashed known =
      let (r, found) = found_user i.email t.users known in rw valid (rw hashed (rw found refl))

  -- A mail that says that the address is registered, without a link to confirm.
  abbrev pub Notifies : SignupInput → Mail → Type 0
  Notifies i (notice n) =
      (n.to ≡ i.email) × (n.sign_in_url ≡ cat env.base_url "/signin") × (n.lang ≡ i.lang)
  Notifies i (confirmation c) = ⊥

  -- A request for an address that an active account has, in any case of its letters, succeeds, draws
  -- no token and hands over one mail, which says that the address is registered and has no link to
  -- confirm. The users stay as they are, no sign-up is added, and a sign-up goes only where one with
  -- its id had expired. The input passes the checks, and no statement is refused.
  pub request-registered :
      (i : SignupInput) (clock : ℕ) (digest : String) (t : Tables) (w : Mailbox)
      → signup_issues env i ≡ []
      → env.hash_password i.password ≡ ok digest
      → any (λ r. str_eq (env.lower r.user.email) (env.lower i.email) && not r.discarded) t.users
        ≡ true
      → (mail : Mail) × ((request env i clock (quiet t w)).0 ≡ ok tt)
        × ((request env i clock (quiet t w)).1.outside.mails ≡ mail ∷ w.mails)
        × Notifies i mail
        × ((request env i clock (quiet t w)).1.outside.drawn ≡ w.drawn)
        × ((request env i clock (quiet t w)).1.tables.users ≡ t.users)
        × Swept t (request env i clock (quiet t w)).1.tables.verifications
  unfolding delete_expired
  request-registered i clock digest t w valid hashed known =
      let run = request-registered_run i clock digest t w valid hashed known in
      (
        notice_mail env i clock,
        ap (λ r. r.0) run,
        ap (λ r. r.1.outside.mails) run,
        (refl, refl, refl),
        ap (λ r. r.1.outside.drawn) run,
        ap (λ r. r.1.tables.users) run,
        subst (Swept t) (sym (ap (λ r. r.1.tables.verifications) run))
            (delete_expired-Swept env.held discard_expired_limit t),
      )
