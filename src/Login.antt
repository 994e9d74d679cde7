-- ===== src/Login.antt =====
-- The tables that signing in reads and writes, with their statements, and the unit of work:
-- adapter/uow/uow.go, the repositories and queries of users, user identities and login handoffs
-- (adapter/repository, adapter/query) and the domain objects over them (domain/user.go,
-- domain/user_identity.go, domain/login_handoff.go).
pub mod Runs
pub mod Google
pub mod Password
use hamburger_evaluation.Base.{
  ℕ, zero, suc, ◌+◌, ◌≡◌, refl, Bool, true, false, not, ◌&&◌, ◌||◌, Option, none, some, String,
  List, [], ◌∷◌, arith, str_eq, ltb, leb, ◌==◌, if◌then◌else◌, keep, find, any, take,
}
use hamburger_evaluation.Domain.Errors.{
  Error, Result, ok, err, failure, user_not_found, email_taken, invalid_password_digest,
  identity_not_found, identity_already_linked, login_handoff_invalid,
}
use hamburger_evaluation.Domain.Rules.Chars.{is_empty}
use hamburger_evaluation.Domain.Account.{User}

-- `discarded` is `discarded_at IS NOT NULL`; a digest of none is NULL, a user without password.
pub record UserRow : Type 0 where
  pub user : User
  pub password_digest : Option String
  pub discarded : Bool

pub record UserIdentity : Type 0 where
  pub id : String
  pub user_id : String
  pub provider : String
  pub provider_user_id : String
  pub email : String

pub data LoginHandoffOutcome : Type 0 where
  signed_in linked account_exists identity_taken already_linked failed : LoginHandoffOutcome

-- An empty user id stands for NULL, as in domain.LoginHandoff.
pub record LoginHandoff : Type 0 where
  pub id : String
  pub code_hash : String
  pub binder_hash : String
  pub outcome : LoginHandoffOutcome
  pub user_id : String
  pub return_to : String
  pub expires_at : ℕ

-- `serial` counts the ids given out. `faults` says, statement by statement, whether the database
-- refuses it (a lost connection, a timeout); after the list's end none is refused.
pub record Db : Type 0 where
  pub users : List UserRow
  pub identities : List UserIdentity
  pub handoffs : List LoginHandoff
  pub now : ℕ
  pub serial : ℕ
  pub faults : List Bool

-- Code that runs on the database.
abbrev pub Action {ℓ} : Type ℓ → Type ℓ
Action A = Db → Result A × Db

module _ {ℓ} {A : Type ℓ} where
  abbrev pub succeed : A → Action A
  succeed a db = (ok a, db)

  abbrev pub fail : Error → Action A
  fail e db = (err e, db)

  abbrev pub lift : Result A → Action A
  lift r db = (r, db)

  abbrev pub caught : Result A × Db → Result (Result A) × Db
  caught (r, db) = (ok r, db)

  -- The error as a value, for code that looks at it.
  abbrev pub attempt : Action A → Action (Result A)
  attempt m db = caught (m db)

  abbrev pub statement_at : List Bool → Action A → Action A
  statement_at [] m db = m db
  statement_at (true ∷ fs) m db = (err (failure "database"), record db { faults = fs })
  statement_at (false ∷ fs) m db = m (record db { faults = fs })

  abbrev pub statement : Action A → Action A
  statement m db = statement_at db.faults m db

module _ {ℓ κ} {A : Type ℓ} {B : Type κ} where
  abbrev pub continue : (A → Action B) → Result A × Db → Result B × Db
  continue f (ok a, db) = f a db
  continue f (err e, db) = (err e, db)

infixl 5 ◌>>=◌ ◌>>◌
abbrev pub ◌>>=◌ {ℓ κ} : {A : Type ℓ} {B : Type κ} → Action A → (A → Action B) → Action B
(m >>= f) db = continue f (m db)

abbrev pub ◌>>◌ {ℓ} : {B : Type ℓ} → Action (Unit {0}) → Action B → Action B
m >> k = m >>= λ _. k

-- A rollback restores the tables; what was asked of the database stays asked.
abbrev pub roll_back : Db → Db → Db
roll_back start db = record start { faults = db.faults; serial = db.serial }

module _ {ℓ} {A : Type ℓ} where
  abbrev pub committed : Db → A → Result (Unit {0}) × Db → Result A × Db
  committed start a (ok _, db) = (ok a, db)
  committed start a (err e, db) = (err e, roll_back start db)

  abbrev pub finished : Db → Result A × Db → Result A × Db
  finished start (err e, db) = (err e, roll_back start db)
  finished start (ok a, db) = committed start a (statement (succeed tt) db)

  abbrev pub begun : Action A → Result (Unit {0}) × Db → Result A × Db
  begun body (err e, db) = (err e, db)
  begun body (ok _, db) = finished db (body db)

  -- UnitOfWork.Do
  unfoldable pub unit_of_work : Action A → Action A
  unit_of_work body db = begun body (statement (succeed tt) db)

abbrev pub is_active_user : String → UserRow → Bool
is_active_user id r = str_eq r.user.id id && not r.discarded

abbrev pub user_of : Option UserRow → Result User
user_of none = err user_not_found
user_of (some r) = ok r.user

-- UserQuery.GetActiveUserByID
unfoldable pub get_active_user_by_id : String → Action User
get_active_user_by_id id = statement (λ db. (user_of (find (is_active_user id) db.users), db))

abbrev pub is_identity : String → String → UserIdentity → Bool
is_identity provider subject i = str_eq i.provider provider && str_eq i.provider_user_id subject

abbrev pub found_or {ℓ} : {A : Type ℓ} → Error → Option A → Result A
found_or e none = err e
found_or e (some a) = ok a

-- IdentityQuery.GetIdentityByProviderUserID
unfoldable pub get_identity_by_provider_user_id : String → String → Action UserIdentity
get_identity_by_provider_user_id provider subject =
    statement
      (λ db. (found_or identity_not_found (find (is_identity provider subject) db.identities), db))

pub record CreateUserParams : Type 0 where
  pub email : String
  pub username : String
  pub password_digest : String
  pub passwordless : Bool
  pub admin : Bool

abbrev pub has_code : String → LoginHandoff → Bool
has_code code_hash h = str_eq h.code_hash code_hash

abbrev pub is_pending : String → ℕ → LoginHandoff → Bool
is_pending code_hash now h = has_code code_hash h && ltb now h.expires_at

-- LoginHandoffs.Lock: that there is a row. The lock itself puts the exchanges of one code in order.
unfoldable pub lock_login_handoff : String → Action (Unit {0})
lock_login_handoff code_hash = statement (λ db. (
  if any (is_pending code_hash db.now) db.handoffs then ok tt else err login_handoff_invalid,
  db,
))

-- LoginHandoffQuery.GetLoginHandoffByCodeHash
unfoldable pub get_login_handoff_by_code_hash : String → Action LoginHandoff
get_login_handoff_by_code_hash code_hash =
    statement
      (λ db. (found_or login_handoff_invalid (find (is_pending code_hash db.now) db.handoffs), db))

-- LoginHandoffs.Discard
unfoldable pub discard_login_handoff : String → Action (Unit {0})
discard_login_handoff id =
    statement (λ db. (ok tt, record db { handoffs = keep (λ h. not (str_eq h.id id)) db.handoffs }))

-- `lower` is the database's lower(), `new_id` its n-th random id.
module _ (lower : String → String) (new_id : ℕ → String) where
  -- Both indexes of the table: on the email and on lower(email).
  abbrev pub has_email : String → UserRow → Bool
  has_email email r = str_eq r.user.email email || str_eq (lower r.user.email) (lower email)

  abbrev new_row : Db → CreateUserParams → UserRow
  new_row db p = record {
    user = record {
      id = new_id db.serial;
      username = p.username;
      bio = "";
      email = p.email;
      admin = p.admin;
    };
    password_digest = if p.passwordless then none else some p.password_digest;
    discarded = false;
  }

  insert_user : CreateUserParams → Action User
  insert_user p db = if any (has_email p.email) db.users then (err email_taken, db) else (
    ok (new_row db p).user,
    record db { users = new_row db p ∷ db.users; serial = suc db.serial },
  )

  -- Users.Create over CreateUser
  unfoldable pub create_user : CreateUserParams → Action User
  unfolding insert_user
  create_user p =
      if p.passwordless && not (is_empty p.password_digest)
        || not p.passwordless && is_empty p.password_digest
      then fail invalid_password_digest
      else statement (insert_user p)

  abbrev new_identity : Db → String → String → String → String → UserIdentity
  new_identity db user_id provider subject email = record {
    id = new_id db.serial;
    user_id = user_id;
    provider = provider;
    provider_user_id = subject;
    email = email;
  }

  insert_identity : String → String → String → String → Action UserIdentity
  insert_identity user_id provider subject email db =
      if any (is_identity provider subject) db.identities
      then (err Error.identity_taken, db)
      else if any (λ i. str_eq i.user_id user_id && str_eq i.provider provider) db.identities
      then (err identity_already_linked, db)
      else (
        ok (new_identity db user_id provider subject email),
        record db {
          identities = new_identity db user_id provider subject email ∷ db.identities;
          serial = suc db.serial;
        },
      )

  -- UserIdentities.Create
  unfoldable pub create_user_identity : String → String → String → String → Action UserIdentity
  unfolding insert_identity
  create_user_identity user_id provider subject email =
      statement (insert_identity user_id provider subject email)
