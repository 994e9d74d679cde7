-- ===== src/Login/Google/Redeem.antt =====
-- GoogleLogins.Redeem of usecase/google_login.go: a code is exchanged once, by the browser that
-- finished the flow, and an exchange that fails does not use it up.
use hamburger_evaluation.Base.{
  ◌≡◌, refl, sym, ap, ◌∙◌, true, false, not, none, some, String, arith, str_eq, if◌then◌else◌, keep,
  find, Bool-cases, inl, inr, ◌⊎◌,
}
use hamburger_evaluation.Domain.Errors.{
  Error, Result, ok, err, login_handoff_invalid, user_not_found, failure,
}
use hamburger_evaluation.Domain.Account.{User}
use hamburger_evaluation.Login.{
  LoginHandoffOutcome, LoginHandoff, Db, succeed, lift, attempt, ◌>>=◌, user_of, is_active_user,
  get_active_user_by_id, lock_login_handoff, get_login_handoff_by_code_hash, discard_login_handoff,
  is_pending, found_or,
}
use hamburger_evaluation.Login.Runs.{
  Keeps, continue-ok, statement-ok, read-ok, attempt-read, result-eq, guard-ok, found_or-ok,
  unit_of_work-err, unit_of_work-ok,
}
use hamburger_evaluation.Login.Google.{
  bound_to, is_signed_in, GoogleRedeemed, nobody, signed, redeemed_user, redeemed, check_binder,
  redeem_body, redeem,
}

module _ (hash : String → String) (issue : String → Result String) where
  -- An exchange that fails, for any reason and at any statement, leaves every table as it was: the
  -- code can be tried again.
  redeem-failed :
      (raw_code binder : String) (db : Db) (e : Error)
      → (redeem hash issue raw_code binder db).0 ≡ err e
      → Keeps db (redeem hash issue raw_code binder db).1
  unfolding redeem
  redeem-failed raw_code binder db e h =
      unit_of_work-err (redeem_body hash issue raw_code binder) db e h

  lock-Keeps :
      (code : String) (db : Db) {db' : Db} {u : Unit {0}}
      → lock_login_handoff code db ≡ (ok u, db')
      → Keeps db db'
  unfolding lock_login_handoff
  lock-Keeps code db h = (read-ok _ db h).0

  get-finds :
      (code : String) (db : Db) {h : LoginHandoff} {db' : Db}
      → get_login_handoff_by_code_hash code db ≡ (ok h, db')
      → Keeps db db' × (find (is_pending code db.now) db.handoffs ≡ some h)
  unfolding get_login_handoff_by_code_hash
  get-finds code db h =
      let r =
        read-ok (λ d. found_or login_handoff_invalid (find (is_pending code d.now) d.handoffs)) db
          h in
      (r.0, rw (← r.0.2, ← r.0.3) (found_or-ok login_handoff_invalid _ r.1))

  check-ok :
      (h : LoginHandoff) (binder : String) (db : Db) {u : Unit {0}} {db' : Db}
      → check_binder hash issue h binder db ≡ (ok u, db')
      → (bound_to hash h binder ≡ true) × (db ≡ db')
  unfolding check_binder
  check-ok h binder db e = guard-ok (bound_to hash h binder) login_handoff_invalid db e

  discard-handoffs :
      (id : String) (db : Db) {u : Unit {0}} {db' : Db}
      → discard_login_handoff id db ≡ (ok u, db')
      → db'.handoffs ≡ keep (λ x. not (str_eq x.id id)) db.handoffs
  unfolding discard_login_handoff
  discard-handoffs id db e =
      let s =
        statement-ok
          (λ d. (ok tt, record d { handoffs = keep (λ x. not (str_eq x.id id)) d.handoffs })) db
          e in
      rw (← s.1.2) (sym (ap (λ p. p.1.handoffs) s.2))

  -- What a successful exchange gives: for a sign-in, the active user of the code and a token that
  -- was issued for that user, or an outcome that is not a sign-in and neither user nor token.
  abbrev pub IsGranted : LoginHandoff → GoogleRedeemed → Db → Type 0
  IsGranted h res db =
      ((is_signed_in h.outcome ≡ true)
        × ((u : User) × (t : String) × (user_of (find (is_active_user h.user_id) db.users) ≡ ok u)
            × (issue u.id ≡ ok t)
            × (res.user ≡ some u)
            × (res.token ≡ some t)))
      ⊎ ((is_signed_in res.outcome ≡ false) × (res.user ≡ none) × (res.token ≡ none))

  user-IsGranted :
      (h : LoginHandoff) (r : Result User) (db : Db) (res : GoogleRedeemed) {db' : Db}
      → is_signed_in h.outcome ≡ true
      → (user_of (find (is_active_user h.user_id) db.users) ≡ r) ⊎ (r ≡ err (failure "database"))
      → redeemed_user hash issue h r db ≡ (ok res, db')
      → (db ≡ db') × IsGranted h res db
  unfolding redeemed_user nobody signed
  user-IsGranted h (ok u) db res s (inl f) e =
      let c =
        continue-ok (λ token. succeed (signed hash issue h u token)) (lift (issue u.id) db) e in
      let k : signed hash issue h u c.0 ≡ res = result-eq (ap (λ p. p.0) c.3) in
      (
        ap (λ p. p.1) c.2 ∙ ap (λ p. p.1) c.3,
        inl (
          s,
          (
            u,
            c.0,
            f,
            ap (λ p. p.0) c.2,
            sym (ap (λ (x : GoogleRedeemed). x.user) k),
            sym (ap (λ (x : GoogleRedeemed). x.token) k),
          ),
        ),
      )
  user-IsGranted h (ok u) db res s (inr f) e = absurd (ground arith)
  user-IsGranted h (err user_not_found) db res s f e =
      let k : nobody hash issue LoginHandoffOutcome.failed h ≡ res = result-eq (ap (λ p. p.0) e) in
      (ap (λ p. p.1) e, inr (rw (← k) (refl, refl, refl)))
  user-IsGranted h (err x) db res s f e = absurd (ground arith)

  redeemed-IsGranted :
      (h : LoginHandoff) (db : Db) (res : GoogleRedeemed) {db' : Db}
      → redeemed hash issue h db ≡ (ok res, db')
      → Keeps db db' × IsGranted h res db
  unfolding redeemed nobody get_active_user_by_id
  redeemed-IsGranted h db res e =
      let read = attempt (get_active_user_by_id h.user_id) in
      let other = succeed (nobody hash issue h.outcome h) in
      elim (Bool-cases (is_signed_in h.outcome)) [
        | inl s ↦
            let e' =
              sym (ap (λ b. (if b then read >>= redeemed_user hash issue h else other) db) s) ∙ e in
            let c = continue-ok (redeemed_user hash issue h) (read db) e' in
            let a = attempt-read (λ d. user_of (find (is_active_user h.user_id) d.users)) db c.2 in
            let g = user-IsGranted h c.0 c.1 res s a.1 c.3 in (rw (← g.0) a.0, rw (← a.0.0) g.1)
        | inr s ↦
            let e' =
              sym (ap (λ b. (if b then read >>= redeemed_user hash issue h else other) db) s) ∙ e in
            let k : nobody hash issue h.outcome h ≡ res = result-eq (ap (λ p. p.0) e') in
            (rw (← ap (λ p. p.1) e') (refl, refl, refl, refl), inr (rw (← k) (s, refl, refl)))
      ]

  -- What a successful exchange did, from the table that it found to the table that it left.
  abbrev pub IsExchange : String → String → GoogleRedeemed → Db → Db → Type 0
  IsExchange raw_code binder res db db' =
      (h : LoginHandoff) × (find (is_pending (hash raw_code) db.now) db.handoffs ≡ some h)
      × (bound_to hash h binder ≡ true)
      × IsGranted h res db
      × (db'.handoffs ≡ keep (λ x. not (str_eq x.id h.id)) db.handoffs)

  IsGranted-in :
      (h : LoginHandoff) (r res : GoogleRedeemed) (d db : Db)
      → r ≡ res
      → d.users ≡ db.users
      → IsGranted h r d
      → IsGranted h res db
  IsGranted-in h r res d db e u g = rw (← e, ← u) g

  pending-in :
      (code : String) (h : LoginHandoff) (d db : Db)
      → d.handoffs ≡ db.handoffs
      → d.now ≡ db.now
      → find (is_pending code d.now) d.handoffs ≡ some h
      → find (is_pending code db.now) db.handoffs ≡ some h
  pending-in code h d db e n f = rw (← e, ← n) f

  body-IsExchange :
      (raw_code binder : String) (db : Db) (res : GoogleRedeemed) (db' : Db)
      → redeem_body hash issue raw_code binder db ≡ (ok res, db')
      → IsExchange raw_code binder res db db'
  unfolding redeem_body
  body-IsExchange raw_code binder db res db' e =
      let c1 = continue-ok _ (lock_login_handoff (hash raw_code) db) e in
      let k1 = lock-Keeps (hash raw_code) db c1.2 in
      let c2 = continue-ok _ (get_login_handoff_by_code_hash (hash raw_code) c1.1) c1.3 in
      let k2 = get-finds (hash raw_code) c1.1 c2.2 in
      let c3 = continue-ok _ (check_binder hash issue c2.0 binder c2.1) c2.3 in
      let k3 = check-ok c2.0 binder c2.1 c3.2 in
      let c4 = continue-ok _ (redeemed hash issue c2.0 c3.1) c3.3 in
      let k4 = redeemed-IsGranted c2.0 c3.1 c4.0 c4.2 in
      let c5 = continue-ok _ (discard_login_handoff c2.0.id c4.1) c4.3 in
      let k5 = discard-handoffs c2.0.id c4.1 c5.2 in
      let same : c4.0 ≡ res = result-eq (ap (λ p. p.0) c5.3) in
      let last : c5.1 ≡ db' = ap (λ p. p.1) c5.3 in
      let users : c3.1.users ≡ db.users = ap (λ (d : Db). d.users) (sym k3.1) ∙ k2.0.0 ∙ k1.0 in
      let rows : c4.1.handoffs ≡ db.handoffs =
        k4.0.2 ∙ ap (λ (d : Db). d.handoffs) (sym k3.1) ∙ k2.0.2 ∙ k1.2 in
      (
        c2.0,
        pending-in (hash raw_code) c2.0 c1.1 db k1.2 k1.3 k2.1,
        k3.0,
        IsGranted-in c2.0 c4.0 res c3.1 db same users k4.1,
        ap (λ (d : Db). d.handoffs) (sym last)
            ∙ k5
            ∙ ap (keep (λ x. not (str_eq x.id c2.0.id))) rows,
      )

  IsExchange-in :
      (raw_code binder : String) (res : GoogleRedeemed) (d d' db db' : Db)
      → Keeps db d
      → Keeps d' db'
      → IsExchange raw_code binder res d d'
      → IsExchange raw_code binder res db db'
  IsExchange-in raw_code binder res d d' db db' k l x = (
    x.0,
    pending-in (hash raw_code) x.0 d db k.2 k.3 x.1,
    x.2,
    IsGranted-in x.0 res res d db refl k.0 x.3,
    l.2 ∙ x.4 ∙ ap (keep (λ r. not (str_eq r.id x.0.id))) k.2,
  )

  -- A successful exchange had a code that was stored and not expired, and came from the browser
  -- that holds the code's binder. A sign-in gives the active user of the code, and a token issued
  -- for that user; nothing else gives a user or a token. The record of the code is gone.
  pub redeem-IsExchange :
      (raw_code binder : String) (db : Db) (res : GoogleRedeemed) (db' : Db)
      → redeem hash issue raw_code binder db ≡ (ok res, db')
      → IsExchange raw_code binder res db db'
  unfolding redeem
  redeem-IsExchange raw_code binder db res db' e =
      let u = unit_of_work-ok (redeem_body hash issue raw_code binder) db e in
      IsExchange-in raw_code binder res u.0 u.1 db db' u.2 u.4
        (body-IsExchange raw_code binder u.0 res u.1 u.3)
