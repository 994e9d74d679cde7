-- ===== src/Login/Google/Unlink.antt =====
-- GoogleLogins.Unlink of usecase/google_login.go with the reads and the deletion below it
-- (adapter/query/user_query.go, adapter/query/user_identity_query.go,
-- adapter/repository/user_identity_repository.go). The order of the listed identities is left out.
use hamburger_evaluation.Base.{
  ℕ, ◌+◌, ◌≤◌, ◌≡◌, sym, ap, ◌∙◌, Bool, true, false, not, ◌&&◌, Option, none, some, String, List,
  [], ◌∷◌, length, arith, str_eq, if◌then◌else◌, keep, find, any, inl, inr, ◌⊎◌,
}
use hamburger_evaluation.Domain.Errors.{Result, ok, err, identity_not_found, user_not_found}
use hamburger_evaluation.Domain.Account.{User}
use hamburger_evaluation.Login.{
  UserRow, UserIdentity, Db, Action, succeed, fail, lift, statement, ◌>>=◌, ◌>>◌, is_active_user,
}
use hamburger_evaluation.Login.Runs.{
  Keeps, Keeps-trans, continue-ok, statement-ok, read-ok, guard-ok, result-eq,
}
use hamburger_evaluation.Login.Google.{can_unlink_identity}

abbrev pub is_users : String → UserIdentity → Bool
is_users user_id i = str_eq i.user_id user_id

abbrev pub is_link : String → String → UserIdentity → Bool
is_link user_id provider i = is_users user_id i && str_eq i.provider provider

abbrev is_given : Option String → Bool
is_given none = false
is_given (some digest) = true

abbrev pub password_of : Option UserRow → Result Bool
password_of none = err user_not_found
password_of (some r) = ok (is_given r.password_digest)

-- UserQuery.GetActiveUserHasPassword
unfoldable pub get_active_user_has_password : String → Action Bool
get_active_user_has_password id =
    statement (λ db. (password_of (find (is_active_user id) db.users), db))

-- IdentityQuery.ListIdentitiesByUser
unfoldable pub list_identities_by_user : String → Action (List UserIdentity)
list_identities_by_user user_id = statement (λ db. (ok (keep (is_users user_id) db.identities), db))

-- `n == 0` of the deleted rows: the table after the deletion, or ErrIdentityNotFound.
abbrev deletion : Bool → Db → Db → Result (Unit {0}) × Db
deletion true after db = (ok tt, after)
deletion false after db = (err identity_not_found, db)

delete_identity : String → String → Action (Unit {0})
delete_identity user_id provider db =
    deletion (any (is_link user_id provider) db.identities)
      (record db { identities = keep (λ i. not (is_link user_id provider i)) db.identities }) db

-- UserIdentities.Discard
unfoldable pub discard_user_identity : String → String → Action (Unit {0})
unfolding delete_identity
discard_user_identity user_id provider = statement (delete_identity user_id provider)

unfoldable pub unlink : User → String → Action (Unit {0})
unlink viewer provider = do
  identities ← list_identities_by_user viewer.id
  (if any (λ i. str_eq i.provider provider) identities then succeed tt else fail identity_not_found)
  has_password ← get_active_user_has_password viewer.id
  lift (can_unlink_identity has_password (length identities))
  discard_user_identity viewer.id provider

keep-parts :
    (user_id provider : String) (is : List UserIdentity)
    → length (keep (is_users user_id) is)
      ≡ length (keep (is_users user_id) (keep (λ i. not (is_link user_id provider i)) is))
        + length (keep (is_link user_id provider) is)
keep-parts user_id provider [] = ground arith
keep-parts user_id provider (i ∷ is) = ground (arith, keep-parts user_id provider is)

allowed : (b : Bool) (n : ℕ) {u : Unit {0}} → can_unlink_identity b n ≡ ok u → (b ≡ true) ⊎ (2 ≤ n)
unfolding can_unlink_identity
allowed b n h = ground arith

branch : (b : Bool) (x y : Db) {u : Unit {0}} {d : Db} → deletion b x y ≡ (ok u, d) → x ≡ d
branch true x y h = ap (λ p. p.1) h
branch false x y h = absurd (ground arith)

deleted :
    (user_id provider : String) (db : Db) {u : Unit {0}} {db' : Db}
    → delete_identity user_id provider db ≡ (ok u, db')
    → db'.identities ≡ keep (λ i. not (is_link user_id provider i)) db.identities
unfolding delete_identity
deleted user_id provider db h = sym (
    ap (λ (d : Db). d.identities)
      (branch (any (is_link user_id provider) db.identities)
        (record db { identities = keep (λ i. not (is_link user_id provider i)) db.identities }) db
        h))

users_kept :
    (user_id provider : String) (db : Db) {u : Unit {0}} {db' : Db}
    → delete_identity user_id provider db ≡ (ok u, db')
    → db'.users ≡ db.users
unfolding delete_identity
users_kept user_id provider db h = sym (
    ap (λ (d : Db). d.users)
      (branch (any (is_link user_id provider) db.identities)
        (record db { identities = keep (λ i. not (is_link user_id provider i)) db.identities }) db
        h))

equal-Keeps : (a b : Db) → a ≡ b → Keeps a b
equal-Keeps a b e = (
  ap (λ (d : Db). d.users) (sym e),
  ap (λ (d : Db). d.identities) (sym e),
  ap (λ (d : Db). d.handoffs) (sym e),
  ap (λ (d : Db). d.now) (sym e),
)

settled :
    (viewer : User) (provider : String) (db db' : Db) (listed : List UserIdentity) (b : Bool)
    → length (keep (is_link viewer.id provider) db.identities) ≤ 1
    → keep (is_users viewer.id) db.identities ≡ listed
    → password_of (find (is_active_user viewer.id) db.users) ≡ ok b
    → (b ≡ true) ⊎ (2 ≤ length listed)
    → db'.identities ≡ keep (λ i. not (is_link viewer.id provider i)) db.identities
    → db'.users ≡ db.users
    → (password_of (find (is_active_user viewer.id) db'.users) ≡ ok true)
      ⊎ (1 ≤ length (keep (is_users viewer.id) db'.identities))
settled viewer provider db db' listed b u l p (inl t) d k =
    inl (ap (λ us. password_of (find (is_active_user viewer.id) us)) k ∙ p ∙ ap ok t)
settled viewer provider db db' listed b u l p (inr n) d us =
    let m = ap length l in
    let k = keep-parts viewer.id provider db.identities in
    let z = ap (λ is. length (keep (is_users viewer.id) is)) d in inr (omega arith)

-- Whoever unlinked an identity can still sign in: afterwards the account has a password, or
-- another of its identities is left. The table held, before that, one identity at most for the
-- account and the provider.
pub unlink_keeps_access :
    (viewer : User) (provider : String) (db : Db) (db' : Db)
    → length (keep (is_link viewer.id provider) db.identities) ≤ 1
    → unlink viewer provider db ≡ (ok tt, db')
    → (password_of (find (is_active_user viewer.id) db'.users) ≡ ok true)
      ⊎ (1 ≤ length (keep (is_users viewer.id) db'.identities))
unfolding unlink list_identities_by_user get_active_user_has_password discard_user_identity
unlink_keeps_access viewer provider db db' u e =
    let c1 = continue-ok _ (list_identities_by_user viewer.id db) e in
    let r1 = read-ok (λ d. ok (keep (is_users viewer.id) d.identities)) db c1.2 in
    let c2 =
      continue-ok _
        ((if any (λ i. str_eq i.provider provider) c1.0
            then succeed tt
            else fail identity_not_found)
          c1.1)
        c1.3 in
    let g2 = guard-ok (any (λ i. str_eq i.provider provider) c1.0) identity_not_found c1.1 c2.2 in
    let c3 = continue-ok _ (get_active_user_has_password viewer.id c2.1) c2.3 in
    let r3 = read-ok (λ d. password_of (find (is_active_user viewer.id) d.users)) c2.1 c3.2 in
    let c4 = continue-ok _ (lift (can_unlink_identity c3.0 (length c1.0)) c3.1) c3.3 in
    let d = statement-ok (delete_identity viewer.id provider) c4.1 c4.3 in
    let same2 : Keeps c1.1 c2.1 = equal-Keeps c1.1 c2.1 g2.1 in
    let k3 = Keeps-trans db c2.1 c3.1 (Keeps-trans db c1.1 c2.1 r1.0 same2) r3.0 in
    let k4 = Keeps-trans db c3.1 c4.1 k3 (equal-Keeps c3.1 c4.1 (ap (λ p. p.1) c4.2)) in
    let kd = Keeps-trans db c4.1 d.0 k4 d.1 in
    settled viewer provider db db' c1.0 c3.0 u
      (ap (keep (is_users viewer.id)) (sym r1.0.1) ∙ result-eq r1.1)
      (ap (λ us. password_of (find (is_active_user viewer.id) us)) (sym k3.0) ∙ r3.1)
      (allowed c3.0 (length c1.0) (ap (λ p. p.0) c4.2))
      (deleted viewer.id provider d.0 d.2
        ∙ ap (keep (λ i. not (is_link viewer.id provider i))) kd.1)
      (users_kept viewer.id provider d.0 d.2 ∙ kd.0)
