-- ===== src/Login/Password/SignsIn.antt =====
-- Whom Auth.Login and Auth.AuthenticateToken of usecase/auth.go let in, with a database that
-- refuses nothing.
use hamburger_evaluation.Base.{
  ◌≡◌, ◌↔◌, refl, sym, ap, ◌∙◌, Bool, true, false, not, ◌||◌, Option, none, some, String, List, [],
  ◌∷◌, arith, if◌then◌else◌, find,
}
use mathlib.Core.Path.{subst}
use hamburger_evaluation.Domain.Errors.{Message, Result, ok, err, invalid_credentials}
use hamburger_evaluation.Domain.Rules.Chars.{is_empty}
use hamburger_evaluation.Domain.Account.{User}
use hamburger_evaluation.Login.{
  UserRow, Db, Action, succeed, fail, lift, continue, is_active_user, user_of,
  get_active_user_by_id,
}
use hamburger_evaluation.Login.Runs.{result-eq}
use hamburger_evaluation.Login.Password.{
  dummy_password_digest, digest_of, has_address, credentials_of, get_active_user_by_email, compared,
  told_instead, log_in, log_in_as, log_in_checked, login, known_user, verified, authenticate_token,
}

abbrev pub quiet : Db → Db
quiet db = record db { faults = [] }

guarded :
    {A : Type 0} (b e : Bool) (m : Action A) (db : Db) {a : A}
    → ((if not b || e then fail invalid_credentials else m) db).0 ≡ ok a
    → (b ≡ true) × (e ≡ false) × ((m db).0 ≡ ok a)
guarded true true m db h = absurd (ground arith)
guarded true false m db h = (refl, refl, h)
guarded false e m db h = absurd (ground arith)

module _ (compare : String → String → Bool) (issue : String → Result String)
    (issues : String → String → List Message) where
  abbrev with_token : Result String → User → Action (User × String)
  with_token r u db = continue (λ token. succeed (u, token)) (lift r db)

  with_token-ok :
      (r : Result String) (user : User) (db : Db) {u : User} {token : String}
      → (with_token r user db).0 ≡ ok (u, token)
      → (user ≡ u) × (r ≡ ok token)
  with_token-ok (err e) user db h = absurd (ground arith)
  with_token-ok (ok t) user db h =
      let pair = result-eq h in (ap (λ p. p.0) pair, ap (λ p. ok p.1) pair)

  -- That the password opens the account of the row.
  abbrev pub Opens : Option UserRow → String → User → String → Type 0
  Opens o password u token =
      (r : UserRow) × (digest : String) × (o ≡ some r)
      × (r.password_digest ≡ some digest)
      × (is_empty digest ≡ false)
      × (compare digest password ≡ true)
      × (r.user ≡ u)
      × (issue u.id ≡ ok token)

  opened :
      (user : User) (digest : Option String) (password : String) (db : Db) {u : User}
      {token : String}
      → (log_in compare issue issues
          (record { user = user; password_digest = digest_of digest })
          password
          db).0
        ≡ ok (u, token)
      → (d : String) × (digest ≡ some d)
        × (is_empty d ≡ false)
        × (compare d password ≡ true)
        × (user ≡ u)
        × (issue user.id ≡ ok token)
  unfolding log_in
  opened user none password db h =
      let (_, e, _) =
        guarded (compare (compared compare issue issues "") password) (is_empty "")
          (with_token (issue user.id) user) db h in
      absurd (ground arith)
  opened user (some d) password db h =
      let (c, e, k) =
        guarded (compare (compared compare issue issues d) password) (is_empty d)
          (with_token (issue user.id) user) db h in
      let (same, issued) = with_token-ok (issue user.id) user db k in
      (
        d,
        refl,
        e,
        sym (ap (λ b. compare (if b then dummy_password_digest else d) password) e) ∙ c,
        same,
        issued,
      )

  opens :
      (r : UserRow) (digest password : String) (db : Db) (token : String)
      → r.password_digest ≡ some digest
      → is_empty digest ≡ false
      → compare digest password ≡ true
      → issue r.user.id ≡ ok token
      → (log_in compare issue issues
          (record { user = r.user; password_digest = digest_of r.password_digest })
          password
          db).0
        ≡ ok (r.user, token)
  unfolding log_in
  opens r digest password db token d e c i = rw d (rw e (rw c (rw i refl)))

  row-ok_iff :
      (o : Option UserRow) (password : String) (db : Db) (u : User) (token : String)
      → ((log_in_as compare issue issues password (credentials_of o) db).0 ≡ ok (u, token))
        ↔ Opens o password u token
  unfolding log_in_as told_instead
  row-ok_iff none password db u token =
      (λ h. absurd (ground arith), λ k. let e = k.2 in absurd (ground arith))
  row-ok_iff (some r) password db u token = (
    λ h.
        let (d, e, full, right, same, issued) = opened r.user r.password_digest password db h in
        (r, d, refl, e, full, right, same, ap issue (ap (λ (x : User). x.id) (sym same)) ∙ issued),
    λ k.
        let (x, d, found, e, full, right, same, issued) = k in
        let row : r ≡ x = cc in
        let done =
          opens x d password db token e full right (ap (λ (v : User). issue v.id) same ∙ issued) in
        subst
          (λ (y : UserRow).
            (log_in compare issue issues
              (record { user = y.user; password_digest = digest_of y.password_digest }) password
              db).0
            ≡ ok (u, token))
          (sym row) (done ∙ ap (λ (v : User). ok (v, token)) same),
  )

  checked-ok_iff :
      (ms : List Message) (email password : String) (db : Db) (u : User) (token : String)
      → ((log_in_checked compare issue issues ms email password (quiet db)).0 ≡ ok (u, token))
        ↔ ((ms ≡ []) × Opens (find (has_address email) db.users) password u token)
  unfolding log_in_checked get_active_user_by_email
  checked-ok_iff (m ∷ ms) email password db u token =
      (λ h. absurd (ground arith), λ k. let e = k.0 in absurd (ground arith))
  checked-ok_iff [] email password db u token =
      let row = row-ok_iff (find (has_address email) db.users) password (quiet db) u token in
      (λ h. (refl, row.0 h), λ k. row.1 k.1)

  -- A sign-in with a password succeeds exactly when the address and the password are well-formed,
  -- an account that is not withdrawn has that very address, it has a password, the password is
  -- right and a login token is issued for it, and then it gives that account and that token. An
  -- account without password is never entered, whatever is compared. No statement is refused.
  pub login-eq-ok_iff :
      (email password : String) (db : Db) (u : User) (token : String)
      → ((login compare issue issues email password (quiet db)).0 ≡ ok (u, token)) ↔ (
          (issues email password ≡ []) × Opens (find (has_address email) db.users) password u token)
  unfolding login
  login-eq-ok_iff email password db u token =
      checked-ok_iff (issues email password) email password db u token

module _ (verify : String → Result String) where
  known-ok_iff :
      (o : Option UserRow) (u : User)
      → (known_user verify (user_of o) ≡ ok u) ↔ ((r : UserRow) × (o ≡ some r) × (r.user ≡ u))
  unfolding known_user told_instead
  known-ok_iff none u =
      (λ h. absurd (ground arith), λ k. let (r, e, _) = k in absurd (ground arith))
  known-ok_iff (some r) u = (
    λ h. (r, refl, result-eq h),
    λ k.
        let (x, e, same) = k in
        let row : r ≡ x = cc in ap (λ (y : UserRow). ok y.user) row ∙ ap (λ v. ok v) same,
  )

  verified-ok_iff :
      (v : Result String) (db : Db) (u : User)
      → ((verified verify v (quiet db)).0 ≡ ok u) ↔ (
          (id : String) × (v ≡ ok id)
          × ((r : UserRow) × (find (is_active_user id) db.users ≡ some r) × (r.user ≡ u)))
  unfolding verified get_active_user_by_id
  verified-ok_iff (err e) db u =
      (λ h. absurd (ground arith), λ k. let (id, e', _) = k in absurd (ground arith))
  verified-ok_iff (ok id) db u =
      let known = known-ok_iff (find (is_active_user id) db.users) u in
      (
        λ h. (id, refl, known.0 h),
        λ k.
            let (id', e, rest) = k in
            known.1 (
              subst
                (λ i. (r : UserRow) × (find (is_active_user i) db.users ≡ some r) × (r.user ≡ u))
                (sym (result-eq e)) rest),
      )

  -- A login token lets in exactly the account that it names, and only where the verifier accepts it
  -- and the account is there and not withdrawn. No statement is refused.
  pub authenticate_token-eq-ok_iff :
      (raw : String) (db : Db) (u : User)
      → ((authenticate_token verify raw (quiet db)).0 ≡ ok u) ↔ (
          (id : String) × (verify raw ≡ ok id)
          × ((r : UserRow) × (find (is_active_user id) db.users ≡ some r) × (r.user ≡ u)))
  unfolding authenticate_token
  authenticate_token-eq-ok_iff raw db u = verified-ok_iff (verify raw) db u
