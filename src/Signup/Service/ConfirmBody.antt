-- ===== src/Signup/Service/ConfirmBody.antt =====
-- The transaction of Confirm of usecase/signup.go, when it commits and what is outside of it.
use hamburger_evaluation.Base.{
  suc, ◌≡◌, refl, sym, ap, ◌∙◌, Bool, true, false, not, Option, none, some, String, ◌∷◌, arith,
  str_eq, ltb, ◌&&◌, ◌||◌, if◌then◌else◌, keep, find, any,
}
use mathlib.Core.Path.{subst}
use hamburger_evaluation.Domain.Errors.{
  Error, Result, ok, err, email_taken, invalid_password_digest,
}
use hamburger_evaluation.Domain.Rules.Chars.{is_empty}
use hamburger_evaluation.Domain.Account.{User}
use hamburger_evaluation.Transaction.{Session, ◌>>=◌, ◌>>◌, fail, succeed, statement}
use hamburger_evaluation.Transaction.Runs.{
  continue-ok, statement-ok, ok-injective, StaysInside, statement-StaysInside, >>=-StaysInside,
  query-Reads,
}
use hamburger_evaluation.Signup.{
  Run, Tables, Mailbox, SignupVerification, PendingSignup, is_live, lock_signup_verification,
  pending, pending_of, get_signup_verification_by_token_hash, delete_verification,
  discard_signup_verification, has_email, new_row, insert_user, create_user,
}
use hamburger_evaluation.Signup.Service.{Env, user_params, confirm_body}

abbrev pub S : Type 0
S = Session Tables Mailbox

-- A choice between an error and a value, when it gave a value.
abbrev choice : {A B : Type 0} → Bool → Error → B → B → A → Result A × B
choice b e x y a = if b then (err e, x) else (ok a, y)

choice-ok :
    {A B : Type 0} (b : Bool) (e : Error) (x y : B) (a : A) {u : A}
    → (choice b e x y a).0 ≡ ok u
    → (b ≡ false) × (u ≡ a) × ((choice b e x y a).1 ≡ y)
choice-ok true e x y a h = absurd (ground arith)
choice-ok false e x y a h = (refl, sym (ok-injective h), refl)

guard-ok :
    {A : Type 0} (b : Bool) (e : Error) (m : Run A) (s : S) {u : A} {s' : S}
    → (if b then fail e else m) s ≡ (ok u, s')
    → (b ≡ false) × (m s ≡ (ok u, s'))
guard-ok true e m s h = absurd (ground arith)
guard-ok false e m s h = (refl, h)

guard-outside :
    {A : Type 0} (b : Bool) (e : Error) (m : Run A) (s : S)
    → StaysInside m
    → ((if b then fail e else m) s).1.outside ≡ s.outside
guard-outside true e m s k = refl
guard-outside false e m s k = k s

lock-ok :
    (h : String) (s : S) {x : Unit {0}} {s' : S}
    → lock_signup_verification h s ≡ (ok x, s')
    → s'.tables ≡ s.tables
unfolding lock_signup_verification
lock-ok h s e = (statement-ok _ s e).1

pending_of-ok :
    (o : Option SignupVerification) {p : PendingSignup}
    → pending_of o ≡ ok p
    → (v : SignupVerification) × (o ≡ some v) × (p ≡ pending v)
pending_of-ok none h = absurd (ground arith)
pending_of-ok (some v) h = (v, refl, sym (ok-injective h))

get-ok :
    (h : String) (s : S) {p : PendingSignup} {s' : S}
    → get_signup_verification_by_token_hash h s ≡ (ok p, s')
    → (v : SignupVerification) × (find (is_live h s.tables.now) s.tables.verifications ≡ some v)
      × (p ≡ pending v)
      × (s'.tables ≡ s.tables)
unfolding get_signup_verification_by_token_hash
get-ok h s e =
    let k = statement-ok _ s e in
    let (v, found, same) =
      pending_of-ok (find (is_live h s.tables.now) s.tables.verifications) k.0 in
    (v, found, same, k.1)

discard-ok :
    (id : String) (s : S) {x : Unit {0}} {s' : S}
    → discard_signup_verification id s ≡ (ok x, s')
    → s'.tables
      ≡ record s.tables { verifications = keep (λ v. not (str_eq v.id id)) s.tables.verifications }
unfolding discard_signup_verification delete_verification
discard-ok id s e = (statement-ok _ s e).1

module _ (env : Env) where
  -- The account that a sign-up asks for: an ordinary user, no moderator.
  abbrev pub account : Tables → SignupVerification → User
  account t v = record {
    id = env.new_id t.serial;
    username = v.username;
    bio = "";
    email = v.email;
    admin = false;
  }

  -- The tables after the confirmation of `v`.
  abbrev pub confirmed : Tables → SignupVerification → Tables
  confirmed t v = record t {
    users =
        record { user = account t v; password_digest = some v.password_digest; discarded = false }
        ∷ t.users;
    verifications = keep (λ x. not (str_eq x.id v.id)) t.verifications;
    serial = suc t.serial;
  }

  -- What the confirmation of `v` adds to the tables.
  abbrev pub Adds : SignupVerification → User → Tables → Tables → Type 0
  Adds v u t t' =
      (any (λ r. str_eq r.user.email v.email || str_eq (env.lower r.user.email) (env.lower v.email))
          t.users
        ≡ false)
      × (is_empty v.password_digest ≡ false)
      × (u ≡ account t v)
      × (t' ≡ confirmed t v)

  -- That `u` is the user that the sign-up behind the token asked for.
  abbrev pub Confirms : String → User → Tables → Tables → Type 0
  Confirms raw u t t' =
      (v : SignupVerification) × (find
          (λ x. str_eq x.token_hash (env.hash_token raw) && ltb t.now x.expires_at) t.verifications
        ≡ some v)
      × Adds v u t t'

  insert_user-ok :
      (v : SignupVerification) (t : Tables) {u : User}
      → (insert_user env.lower env.new_id (user_params env (pending v)) t).0 ≡ ok u
      → (any (has_email env.lower v.email) t.users ≡ false)
        × (u ≡ (new_row env.lower env.new_id t (user_params env (pending v))).user)
        × ((insert_user env.lower env.new_id (user_params env (pending v)) t).1 ≡ record t {
          users = new_row env.lower env.new_id t (user_params env (pending v)) ∷ t.users;
          serial = suc t.serial;
        })
  unfolding insert_user
  insert_user-ok v t h =
      choice-ok (any (has_email env.lower v.email) t.users) email_taken t
        (record t {
          users = new_row env.lower env.new_id t (user_params env (pending v)) ∷ t.users;
          serial = suc t.serial;
        })
        (new_row env.lower env.new_id t (user_params env (pending v))).user h

  create_user-ok :
      (v : SignupVerification) (s : S) {u : User} {s' : S}
      → create_user env.lower env.new_id (user_params env (pending v)) s ≡ (ok u, s')
      → (any (has_email env.lower v.email) s.tables.users ≡ false)
        × (is_empty v.password_digest ≡ false)
        × (u ≡ (new_row env.lower env.new_id s.tables (user_params env (pending v))).user)
        × (s'.tables ≡ record s.tables {
          users =
              new_row env.lower env.new_id s.tables (user_params env (pending v)) ∷ s.tables.users;
          serial = suc s.tables.serial;
        })
  unfolding create_user
  create_user-ok v s h =
      let (e, k) =
        guard-ok (is_empty v.password_digest) invalid_password_digest
          (statement (insert_user env.lower env.new_id (user_params env (pending v)))) s h in
      let (result, after, _) = statement-ok _ s k in
      let (free, made, rest) = insert_user-ok v s.tables result in (free, e, made, after ∙ rest)

  -- The body, once it has read the sign-up.
  abbrev rest_of_body : PendingSignup → Run User
  rest_of_body p = do
    user ← create_user env.lower env.new_id (user_params env p)
    discard_signup_verification p.id
    succeed user

  rest_of_body-Adds :
      (v : SignupVerification) (s : S) {u : User} {s' : S}
      → rest_of_body (pending v) s ≡ (ok u, s')
      → Adds v u s.tables s'.tables
  unfolding delete_verification
  rest_of_body-Adds v s {u} {s'} h =
      let (made, m, inserted, h') =
        continue-ok _ (create_user env.lower env.new_id (user_params env (pending v)) s) h in
      let (y, m', dropped, last) = continue-ok _ (discard_signup_verification v.id m) h' in
      let (free, digest, user, rows) = create_user-ok v s inserted in
      let end : m'.tables ≡ s'.tables = ap (λ q. q.1.tables) last in
      (
        free,
        digest,
        sym (ok-injective (ap (λ q. q.0) last)) ∙ user,
        sym end
            ∙ (discard-ok v.id m dropped
                ∙ ap (λ (t : Tables). (delete_verification v.id t).1) rows),
      )

  pub confirm_body-Confirms :
      (raw : String) (s : S) {u : User} {s' : S}
      → confirm_body env raw s ≡ (ok u, s')
      → Confirms raw u s.tables s'.tables
  unfolding confirm_body
  confirm_body-Confirms raw s {u} {s'} h =
      let hash = env.hash_token raw in
      let (x, a, locked, h1) = continue-ok _ (lock_signup_verification hash s) h in
      let (p, b, read, h2) = continue-ok _ (get_signup_verification_by_token_hash hash a) h1 in
      let (v, found, same, t2) = get-ok hash a read in
      let t1 = lock-ok hash s locked in
      (
        v,
        subst (λ (t : Tables). find (is_live hash t.now) t.verifications ≡ some v) t1 found,
        subst (λ t. Adds v u t s'.tables) (t2 ∙ t1)
            (rest_of_body-Adds v b (subst (λ q. rest_of_body q b ≡ (ok u, s')) same h2)),
      )

  create_user-StaysInside :
      (v : PendingSignup) → StaysInside (create_user env.lower env.new_id (user_params env v))
  unfolding create_user
  create_user-StaysInside v s =
      guard-outside (is_empty v.password_digest) invalid_password_digest
        (statement (insert_user env.lower env.new_id (user_params env v))) s
        (statement-StaysInside (insert_user env.lower env.new_id (user_params env v)))

  rest_of_body-StaysInside : (p : PendingSignup) → StaysInside (rest_of_body p)
  unfolding discard_signup_verification
  rest_of_body-StaysInside p =
      >>=-StaysInside (create_user env.lower env.new_id (user_params env p))
        (λ user. discard_signup_verification p.id >> succeed user) (create_user-StaysInside p)
        (λ user.
          >>=-StaysInside (discard_signup_verification p.id) (λ _. succeed user)
            (statement-StaysInside (delete_verification p.id)) (λ _ s. refl))

  pub confirm_body-StaysInside : (raw : String) → StaysInside (confirm_body env raw)
  unfolding confirm_body lock_signup_verification get_signup_verification_by_token_hash
  confirm_body-StaysInside raw =
      let read = get_signup_verification_by_token_hash (env.hash_token raw) in
      >>=-StaysInside (lock_signup_verification (env.hash_token raw)) (λ _. read >>= rest_of_body)
        (λ s. (query-Reads _ s).1)
        (λ _. >>=-StaysInside read rest_of_body (λ s. (query-Reads _ s).1) rest_of_body-StaysInside)
