-- ===== src/Login/Google/Once.antt =====
-- GoogleLogins.Redeem of usecase/google_login.go: each code is exchanged once.
use hamburger_evaluation.Base.{
  ℕ, ◌≤◌, ◌≡◌, ◌≢◌, refl, sym, ap, ◌∙◌, Bool, true, false, not, none, some, String, List, [], ◌∷◌,
  length, arith, str_eq, eq_iff, keep, find, find-first, any, Bool-cases, inl, inr,
}
use hamburger_evaluation.Domain.Errors.{Result, ok}
use hamburger_evaluation.Login.{LoginHandoff, Db, has_code, is_pending}
use hamburger_evaluation.Login.Google.{GoogleRedeemed, redeem}
use hamburger_evaluation.Login.Google.Redeem.{redeem-IsExchange}

module _ (hash : String → String) (issue : String → Result String) where
  absent :
      (code : String) (rows : List LoginHandoff)
      → length (keep (has_code code) rows) ≡ 0
      → any (has_code code) rows ≡ false
  absent code [] h = refl
  absent code (r ∷ rows) h = ground (arith, absent code rows)

  absent-keep :
      (code : String) (p : LoginHandoff → Bool) (rows : List LoginHandoff)
      → any (has_code code) rows ≡ false
      → any (has_code code) (keep p rows) ≡ false
  absent-keep code p [] a = refl
  absent-keep code p (r ∷ rows) a = ground (arith, absent-keep code p rows)

  absent-find :
      (code : String) (now : ℕ) (rows : List LoginHandoff)
      → any (has_code code) rows ≡ false
      → find (is_pending code now) rows ≡ none
  absent-find code now [] a = refl
  absent-find code now (r ∷ rows) a = ground (arith, absent-find code now rows)

  dropped :
      (code : String) (now : ℕ) (h : LoginHandoff) (rows : List LoginHandoff)
      → find (is_pending code now) rows ≡ some h
      → length (keep (has_code code) rows) ≤ 1
      → any (has_code code) (keep (λ x. not (str_eq x.id h.id)) rows) ≡ false
  dropped code now h [] f u = cc
  dropped code now h (r ∷ rows) f u = elim (Bool-cases (is_pending code now r)) [
    | inl e ↦
        let same : r ≡ h = find-first (is_pending code now) h r rows e f in
        let out : str_eq r.id h.id ≡ true =
          (eq_iff r.id h.id).1 (ap (λ (x : LoginHandoff). x.id) same) in
        ground (arith, absent code rows, absent-keep code (λ x. not (str_eq x.id h.id)) rows)
    | inr e ↦ elim (Bool-cases (has_code code r)) [
      | inl c ↦
          let a = absent code rows (ground arith) in
          let n = absent-find code now rows a in absurd (ground arith)
      | inr c ↦ ground (arith, dropped code now h rows)
    ]
  ]

  -- A code is exchanged once: where one exchange succeeded, and one record at most had the code, a
  -- later exchange of the same code never succeeds, with whatever binder, at whatever time and in
  -- whatever state of the database to which no record of that code was added since.
  pub redeem_once :
      (raw_code binder : String) (db : Db) (res : GoogleRedeemed) (db' : Db)
      → length (keep (has_code (hash raw_code)) db.handoffs) ≤ 1
      → redeem hash issue raw_code binder db ≡ (ok res, db')
      → (binder' : String) (later : Db) (res' : GoogleRedeemed) (last : Db)
      → (any (has_code (hash raw_code)) later.handoffs ≡ true
          → any (has_code (hash raw_code)) db'.handoffs ≡ true)
      → redeem hash issue raw_code binder' later ≢ (ok res', last)
  redeem_once raw_code binder db res db' u e binder' later res' last k e' =
      let x = redeem-IsExchange hash issue raw_code binder db res db' e in
      let y = redeem-IsExchange hash issue raw_code binder' later res' last e' in
      let gone = dropped (hash raw_code) db.now x.0 db.handoffs x.1 u in
      let left : any (has_code (hash raw_code)) db'.handoffs ≡ false =
        ap (any (has_code (hash raw_code))) x.4 ∙ gone in
      elim (Bool-cases (any (has_code (hash raw_code)) later.handoffs)) [
        | inl added ↦ let again = k added in absurd (ground arith)
        | inr none_left ↦
            let z = sym (absent-find (hash raw_code) later.now later.handoffs none_left) ∙ y.1 in cc
      ]
