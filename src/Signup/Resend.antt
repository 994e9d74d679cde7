-- ===== src/Signup/Resend.antt =====
-- CreateSignupVerification (adapter/repository/signup_verification_repository.go): the interval
-- between two mails to one address.
use hamburger_evaluation.Base.{
  ◌∙◌, ap, All, ◌*◌, ◌^◌, ℕ, ◌+◌, ◌<◌, ◌≡◌, refl, sym, false, Option, none, some, String, List, [],
  ◌∷◌, map, arith, str_eq, eq_iff, leb, find, find-first, find-rest, any, Bool-cases, inl, inr,
}
use mathlib.Core.Path.{subst}
use hamburger_evaluation.Domain.Errors.{ok}
use hamburger_evaluation.Signup.Rows.{clashes}
use hamburger_evaluation.Signup.{
  Tables, SignupVerification, CreateSignupVerificationParams, skipped, accepted, has_token,
  signup_resend_interval, same_email, renewed, renew_row, first_row, upsert,
  upsert_signup_verification,
}

module _ (lower : String → String) (new_id : ℕ → String) where
  renewed-find :
      (p : CreateSignupVerificationParams) (email : String) (now : ℕ) (vs : List SignupVerification)
      (v : SignupVerification)
      → lower p.email ≡ lower email
      → find (same_email lower p.email) vs ≡ some v
      → find (same_email lower email) (map (renew_row lower p now) vs)
        ≡ some (renewed lower p now v)
  renewed-find p email now [] v e f = absurd (ground arith)
  renewed-find p email now (x ∷ xs) v e f = elim (Bool-cases (same_email lower p.email x)) [
    | inl s ↦
        let same = find-first (same_email lower p.email) v x xs s f in
        rw s (rw ((eq_iff (lower p.email) (lower email)).1 e) (rw same refl))
    | inr s ↦
        let s' : same_email lower email x ≡ false =
          subst (λ a. str_eq (lower x.email) a ≡ false) e s in
        rw s (
          rw s' (renewed-find p email now xs v e (find-rest (same_email lower p.email) v x xs s f)))
  ]

  -- The row of an address to which a mail was granted.
  granted :
      (p : CreateSignupVerificationParams) (email : String) (t : Tables)
      (o : Option SignupVerification) {id : String} {n : ℕ}
      → lower p.email ≡ lower email
      → find (same_email lower p.email) t.verifications ≡ o
      → (upsert lower new_id p t o).0 ≡ ok (accepted id n)
      → (v : SignupVerification) × (find
            (same_email lower email)
            (upsert lower new_id p t o).1.verifications
          ≡ some v)
        × (v.last_sent_at ≡ t.now)
  unfolding upsert
  granted p email t none e f h = elim (Bool-cases (any (has_token p.token_hash) t.verifications)) [
    | inl c ↦ absurd (ground arith)
    | inr c ↦
        rw c
          (rw ((eq_iff (lower p.email) (lower email)).1 e) (first_row lower new_id p t, refl, refl))
  ]
  granted p email t (some v) e f h =
      elim (Bool-cases (leb (v.last_sent_at + signup_resend_interval) t.now)) [
        | inr c ↦ absurd (ground arith)
        | inl c ↦ elim (Bool-cases (any (clashes lower p t.now) t.verifications)) [
          | inl d ↦ absurd (ground arith)
          | inr d ↦ rw c (
              rw d
                (renewed lower p t.now v, renewed-find p email t.now t.verifications v e f, refl))
        ]
      ]

  skips :
      (q : CreateSignupVerificationParams) (t : Tables) (v : SignupVerification)
      → find (same_email lower q.email) t.verifications ≡ some v
      → t.now < v.last_sent_at + signup_resend_interval
      → upsert_signup_verification lower new_id q t ≡ (ok skipped, t)
  unfolding upsert_signup_verification upsert
  skips q t v f soon =
      let early : leb (v.last_sent_at + signup_resend_interval) t.now ≡ false = ground arith in
      rw f (rw early refl)

  -- A mail went to the address at the time `at`.
  abbrev Sent : String → ℕ → Tables → Type 0
  Sent email at t =
      (v : SignupVerification) × (find (same_email lower email) t.verifications ≡ some v)
      × (v.last_sent_at ≡ at)

  find-others :
      (p : CreateSignupVerificationParams) (email : String) (now : ℕ) (vs : List SignupVerification)
      → str_eq (lower p.email) (lower email) ≡ false
      → find (same_email lower email) (map (renew_row lower p now) vs)
        ≡ find (same_email lower email) vs
  find-others p email now [] e = refl
  find-others p email now (x ∷ xs) e = ground (
    arith,
    find-others p email now xs,
    eq_iff (lower x.email) (lower p.email),
    eq_iff (lower x.email) (lower email),
    eq_iff (lower p.email) (lower email),
  )

  -- A sign-up for another address leaves the row alone.
  upsert-others :
      (p : CreateSignupVerificationParams) (email : String) (at : ℕ) (t : Tables)
      (o : Option SignupVerification)
      → str_eq (lower p.email) (lower email) ≡ false
      → Sent email at t
      → Sent email at (upsert lower new_id p t o).1
  unfolding upsert
  upsert-others p email at t none e (v, found, sent) =
      elim (Bool-cases (any (has_token p.token_hash) t.verifications)) [
        | inl c ↦ rw c (v, found, sent)
        | inr c ↦ rw c (v, rw e found, sent)
      ]
  upsert-others p email at t (some u) e (v, found, sent) =
      elim (Bool-cases (leb (u.last_sent_at + signup_resend_interval) t.now)) [
        | inr c ↦ rw c (v, found, sent)
        | inl c ↦ elim (Bool-cases (any (clashes lower p t.now) t.verifications)) [
          | inl d ↦ rw c (rw d (v, found, sent))
          | inr d ↦ rw c (rw d (v, find-others p email t.now t.verifications e ∙ found, sent))
        ]
      ]

  abbrev at_time : ℕ → Tables → Tables
  at_time now t = record t { now = now }

  -- Sign-ups one after the other, each with its time.
  abbrev pub upserts : List (CreateSignupVerificationParams × ℕ) → Tables → Tables
  upserts [] t = t
  upserts ((p, now) ∷ rest) t =
      upserts rest (upsert_signup_verification lower new_id p (record t { now = now })).1

  upserts-Sent :
      (xs : List (CreateSignupVerificationParams × ℕ)) (email : String) (at : ℕ) (t : Tables)
      → All (λ x. x.1 < at + signup_resend_interval) xs
      → Sent email at t
      → Sent email at (upserts xs t)
  unfolding upsert_signup_verification
  upserts-Sent [] email at t soon sent = sent
  upserts-Sent ((p, now) ∷ rest) email at t soon (v, found, sent) =
      upserts-Sent rest email at (upsert_signup_verification lower new_id p (at_time now t)).1
        soon.1
        (elim (Bool-cases (str_eq (lower p.email) (lower email))) [
          | inr other ↦
              upsert-others p email at (at_time now t)
                (find (same_email lower p.email) t.verifications) other (v, found, sent)
          | inl same ↦
              let key = (eq_iff (lower p.email) (lower email)).0 same in
              let found' : find (same_email lower p.email) t.verifications ≡ some v =
                subst (λ a. find (λ x. str_eq (lower x.email) a) t.verifications ≡ some v) (sym key)
                  found in
              let skipped' =
                skips p (at_time now t) v found'
                  (subst (λ n. now < n + signup_resend_interval) (sym sent) soon.0) in
              subst (Sent email at) (sym (ap (λ r. r.1) skipped')) (v, found, sent)
        ])

  -- Where a sign-up was accepted, so that a mail goes to its address, any other sign-up for the
  -- same address, in any case of its letters, is passed over for the next 60 seconds and changes
  -- nothing, whatever name, password and token it brings, and whatever sign-ups for whatever
  -- addresses come in between. No row is deleted in between, as it is by a confirmation.
  pub create-create_soon :
      (p q : CreateSignupVerificationParams) (t : Tables) (id : String) (n now : ℕ)
      (between : List (CreateSignupVerificationParams × ℕ))
      → (upsert_signup_verification lower new_id p t).0 ≡ ok (accepted id n)
      → lower p.email ≡ lower q.email
      → All (λ x. x.1 < t.now + 60 * 10 ^ 9) between
      → now < t.now + 60 * 10 ^ 9
      → upsert_signup_verification lower new_id q
          (record (upserts between (upsert_signup_verification lower new_id p t).1) { now = now })
        ≡ (
          ok skipped,
          record (upserts between (upsert_signup_verification lower new_id p t).1) { now = now },
        )
  unfolding upsert_signup_verification
  create-create_soon p q t id n now between h e busy soon =
      let first = (upsert_signup_verification lower new_id p t).1 in
      let sent : Sent q.email t.now first =
        granted p q.email t (find (same_email lower p.email) t.verifications) e refl h in
      let (v, found, at) = upserts-Sent between q.email t.now first busy sent in
      skips q (at_time now (upserts between first)) v found
        (subst (λ m. now < m + signup_resend_interval) (sym at) soon)
