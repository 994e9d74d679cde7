-- ===== src/Signup/Service/Kept.antt =====
-- What a request to sign up keeps (Request of usecase/signup.go), whatever it answers and whatever
-- the database refuses.
use hamburger_evaluation.Base.{
  ℕ, suc, ◌≡◌, refl, String, ◌∷◌, find, Bool, true, false, if◌then◌else◌,
}
use hamburger_evaluation.Domain.Errors.{Result, ok, err, Error}
use hamburger_evaluation.Domain.Account.{User}
use hamburger_evaluation.Transaction.{Session, call, attempt, succeed, lift, ◌>>=◌, ◌>>◌, fail}
use hamburger_evaluation.Transaction.Runs.{query-Reads}
use hamburger_evaluation.Transaction.Triples.{
  Holds, Ensures, Keeps, Holds-state, call-Ensures, statement-Holds, statement-Keeps, Reads-Keeps,
  >>=-Ensures, attempt-Keeps, continue-Holds,
}
use hamburger_evaluation.Signup.{
  Tables, Mailbox, Mail, Run, CreateSignupVerificationParams, SignupVerificationReceipt, skipped,
  accepted, delete_expired, discard_expired_signup_verifications, user_of, is_registered,
  get_active_user_by_email_ignore_case, upsert_signup_verification, create_signup_verification,
}
use hamburger_evaluation.Signup.Service.{
  Env, SignupInput, checked, signup_issues, discard_expired_limit, send, draw, discard_expired,
  send_accepted, confirmation_mail, notice_mail, is_user_not_found, request_new, request_for,
  request,
}

-- A condition that sending a mail, deleting expired rows and storing a drawn token keep.
pub record IsStable (env : Env) (P : Tables → Mailbox → Type 0) : Type 0 where
  pub mailing :
      (t : Tables) (w : Mailbox) (m : Mail) → P t w → P t (record w { mails = m ∷ w.mails })
  pub expiring :
      (t : Tables) (w : Mailbox) → P t w → P (delete_expired env.held discard_expired_limit t).1 w
  pub drawing : (t : Tables) (w : Mailbox) → P t w → P t (record w { drawn = suc w.drawn })
  pub storing :
      (t : Tables) (w : Mailbox) (p : CreateSignupVerificationParams)
      → p.token_hash ≡ env.hash_token (env.random w.drawn)
      → P t w
      → P (upsert_signup_verification env.lower env.new_id p t).1 (record w { drawn = suc w.drawn })

module _ (env : Env) (P : Tables → Mailbox → Type 0) (stable : IsStable env P) where
  discard_expired-Keeps : Keeps P (discard_expired env)
  unfolding discard_expired discard_expired_signup_verifications
  discard_expired-Keeps =
      let discard = discard_expired_signup_verifications env.held discard_expired_limit in
      >>=-Ensures P (attempt discard) (λ _. succeed tt) (λ _. P) (λ _. P)
        (attempt-Keeps P discard
          (statement-Keeps P (delete_expired env.held discard_expired_limit) stable.expiring))
        (λ _ s p. p)

  find-Keeps :
      (email : String) → Keeps P (attempt (get_active_user_by_email_ignore_case env.lower email))
  unfolding get_active_user_by_email_ignore_case
  find-Keeps email = attempt-Keeps P (get_active_user_by_email_ignore_case env.lower email) (
      Reads-Keeps P (get_active_user_by_email_ignore_case env.lower email) (
        query-Reads
          (λ (t : Tables). user_of env.lower (find (is_registered env.lower email) t.users))))

  send-Keeps : (m : Mail) → Keeps P (send env m)
  send-Keeps m s p = stable.mailing s.tables s.outside m p

  -- A drawn token, not stored yet.
  abbrev Drawn : String → Tables → Mailbox → Type 0
  Drawn raw t w =
      P t w
      × ((p : CreateSignupVerificationParams)
          → p.token_hash ≡ env.hash_token raw
          → P (upsert_signup_verification env.lower env.new_id p t).1 w)

  draw-Ensures : Ensures P (draw env) Drawn
  draw-Ensures s p =
      (stable.drawing s.tables s.outside p, λ q e. stable.storing s.tables s.outside q e p)

  -- From the draw of the token on.
  abbrev stored : SignupInput → String → String → CreateSignupVerificationParams
  stored i digest raw = record {
    email = i.email;
    username = i.username;
    password_digest = digest;
    token_hash = env.hash_token raw;
  }

  send_accepted-Keeps :
      (i : SignupInput) (raw : String) (r : SignupVerificationReceipt)
      → Keeps P (send_accepted env i raw r)
  unfolding send_accepted
  send_accepted-Keeps i raw skipped = λ s p. p
  send_accepted-Keeps i raw (accepted id n) = send-Keeps (confirmation_mail env i raw id n)

  abbrev with_token : SignupInput → String → String → Run (Unit {0})
  with_token i digest raw = do
    receipt ← create_signup_verification env.lower env.new_id (stored i digest raw)
    send_accepted env i raw receipt

  create-Holds :
      (i : SignupInput) (digest raw : String) (s : Session Tables Mailbox)
      → Drawn raw s.tables s.outside
      → Holds P (λ _. P) (create_signup_verification env.lower env.new_id (stored i digest raw) s)
  unfolding create_signup_verification
  create-Holds i digest raw s d =
      statement-Holds P (upsert_signup_verification env.lower env.new_id (stored i digest raw)) s
        d.0 (d.1 (stored i digest raw) refl)

  with_token-Holds :
      (i : SignupInput) (digest raw : String) (s : Session Tables Mailbox)
      → Drawn raw s.tables s.outside
      → Holds P (λ _. P) (with_token i digest raw s)
  with_token-Holds i digest raw s d =
      continue-Holds P (send_accepted env i raw) (λ _. P) (λ _. P)
        (create_signup_verification env.lower env.new_id (stored i digest raw) s)
        (λ r m p. send_accepted-Keeps i raw r m p) (create-Holds i digest raw s d)

  request_new-Keeps : (i : SignupInput) (digest : String) → Keeps P (request_new env i digest)
  unfolding request_new
  request_new-Keeps i digest =
      >>=-Ensures P (call (draw env)) (with_token i digest) Drawn (λ _. P)
        (call-Ensures P (draw env) Drawn draw-Ensures) (with_token-Holds i digest)

  new_or_fail :
      (b : Bool) (i : SignupInput) (digest : String) (e : Error)
      → Keeps P (if b then request_new env i digest else fail e)
  new_or_fail true i digest e = request_new-Keeps i digest
  new_or_fail false i digest e = λ s p. p

  request_for-Keeps :
      (i : SignupInput) (clock : ℕ) (digest : String) (r : Result User)
      → Keeps P (request_for env i clock digest r)
  unfolding request_for
  request_for-Keeps i clock digest (ok u) = send-Keeps (notice_mail env i clock)
  request_for-Keeps i clock digest (err e) = new_or_fail (is_user_not_found e) i digest e

  lift-Keeps : {A : Type 0} (r : Result A) → Keeps P (lift r)
  lift-Keeps (ok a) s p = p
  lift-Keeps (err e) s p = p

  -- Once the input is checked and the password hashed.
  abbrev after_hash : SignupInput → ℕ → String → Run (Unit {0})
  after_hash i clock digest = do
    discard_expired env
    registered ← attempt (get_active_user_by_email_ignore_case env.lower i.email)
    request_for env i clock digest registered

  after_hash-Keeps :
      (i : SignupInput) (clock : ℕ) (digest : String) → Keeps P (after_hash i clock digest)
  after_hash-Keeps i clock digest =
      let look : Run (Result User) =
        attempt (get_active_user_by_email_ignore_case env.lower i.email) in
      >>=-Ensures P (discard_expired env)
        (λ _. look >>= λ registered. request_for env i clock digest registered) (λ _. P) (λ _. P)
        discard_expired-Keeps
        (λ _.
          >>=-Ensures P look (request_for env i clock digest) (λ _. P) (λ _. P) (find-Keeps i.email)
            (request_for-Keeps i clock digest))

  request-Keeps : (i : SignupInput) (clock : ℕ) → Keeps P (request env i clock)
  unfolding request
  request-Keeps i clock =
      >>=-Ensures P (lift (checked (signup_issues env i)))
        (λ _. lift (env.hash_password i.password) >>= λ digest. after_hash i clock digest) (λ _. P)
        (λ _. P) (lift-Keeps (checked (signup_issues env i)))
        (λ _.
          >>=-Ensures P (lift (env.hash_password i.password)) (after_hash i clock) (λ _. P) (λ _. P)
            (lift-Keeps (env.hash_password i.password)) (after_hash-Keeps i clock))

  -- The state after a request, whatever its answer.
  pub request-keeps :
      (i : SignupInput) (clock : ℕ) (s : Session Tables Mailbox)
      → P s.tables s.outside
      → P (request env i clock s).1.tables (request env i clock s).1.outside
  request-keeps i clock s p = Holds-state P (request env i clock s) (request-Keeps i clock s p)
