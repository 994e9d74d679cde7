-- ===== src/Signup/Sweep.antt =====
-- Which sign-ups DiscardExpiredSignupVerifications deletes
-- (adapter/repository/signup_verification_repository.go).
use hamburger_evaluation.Base.{
  ℕ, zero, suc, ◌≤◌, ◌≡◌, refl, Bool, true, not, ◌&&◌, String, List, [], ◌∷◌, arith, str_eq, eq_iff,
  keep, take, any, Any, Any-weaken, All, Bool-cases, inl, inr, ◌⊎◌,
}
use hamburger_evaluation.Signup.{
  Tables, SignupVerification, insert_by_expiry, sort_by_expiry, is_expired, expired_rows,
  delete_expired,
}

abbrev Test : Type 0
Test = SignupVerification → Bool

any-take :
    (p : Test) (n : ℕ) (vs : List SignupVerification) → any p (take n vs) ≡ true → any p vs ≡ true
any-take p zero vs h = absurd (ground arith)
any-take p (suc n) [] h = h
any-take p (suc n) (v ∷ vs) h = ground (arith, any-take p n vs)

any-insert :
    (p : Test) (v : SignupVerification) (vs : List SignupVerification)
    → any p (insert_by_expiry v vs) ≡ true
    → any p (v ∷ vs) ≡ true
unfolding insert_by_expiry
any-insert p v [] h = h
any-insert p v (x ∷ xs) h = ground (arith, any-insert p v xs)

any-sort :
    (p : Test) (vs : List SignupVerification) → any p (sort_by_expiry vs) ≡ true → any p vs ≡ true
unfolding sort_by_expiry
any-sort p [] h = h
any-sort p (v ∷ vs) h = ground (arith, any-insert p v (sort_by_expiry vs), any-sort p vs)

any-keep-both :
    (p q : Test) (vs : List SignupVerification)
    → any p (keep q vs) ≡ true
    → Any (λ x. (p x ≡ true) × (q x ≡ true)) vs
any-keep-both p q [] h = absurd (ground arith)
any-keep-both p q (v ∷ vs) h = elim (Bool-cases (q v)) [
  | inr out ↦ inr (any-keep-both p q vs (ground arith))
  | inl kept ↦ elim (Bool-cases (p v)) [
    | inl found ↦ inl (found, kept)
    | inr other ↦ inr (any-keep-both p q vs (ground arith))
  ]
]

-- The row is in the list.
abbrev pub IsIn : SignupVerification → List SignupVerification → Type 0
IsIn v = Any (λ x. x ≡ v)

IsIn-keep :
    (q : Test) (v : SignupVerification) (vs : List SignupVerification)
    → q v ≡ true
    → IsIn v vs
    → IsIn v (keep q vs)
IsIn-keep q v [] h m = m
IsIn-keep q v (x ∷ xs) h (inl e) = let k : q x ≡ true = rw e h in rw k (inl e)
IsIn-keep q v (x ∷ xs) h (inr m) = elim (Bool-cases (q x)) [
  | inl kept ↦ rw kept (inr (IsIn-keep q v xs h m))
  | inr out ↦ rw out (IsIn-keep q v xs h m)
]

keep-IsIn :
    (q : Test) (v : SignupVerification) (vs : List SignupVerification)
    → IsIn v (keep q vs)
    → IsIn v vs
keep-IsIn q v [] m = m
keep-IsIn q v (x ∷ xs) m = elim (Bool-cases (q x)) [
  | inl kept ↦ elim (rw kept at m) [ inl e ↦ inl e | inr n ↦ inr (keep-IsIn q v xs n) ]
  | inr out ↦ inr (keep-IsIn q v xs (rw out at m))
]

-- What holds of every row of a list.
each :
    (P : SignupVerification → Type 0) (vs : List SignupVerification)
    → ((v : SignupVerification) → IsIn v vs → P v)
    → All P vs
each P [] f = tt
each P (v ∷ vs) f = (f v (inl refl), each P vs (λ x m. f x (inr m)))

-- A row with this id, whose time is over.
abbrev pub HasExpired : String → ℕ → List SignupVerification → Type 0
HasExpired id now = Any (λ x. (x.id ≡ id) × (x.expires_at ≤ now))

-- No row is added, and a row goes only where a row with its id had expired.
abbrev pub Swept : Tables → List SignupVerification → Type 0
Swept t rows' =
    All (λ v. IsIn v t.verifications) rows'
    × All (λ v. IsIn v rows' ⊎ HasExpired v.id t.now t.verifications) t.verifications

module _ (held : Test) (limit : ℕ) (t : Tables) where
  expired_rows-HasExpired :
      (id : String)
      → any (λ x. str_eq x.id id) (expired_rows held limit t) ≡ true
      → HasExpired id t.now t.verifications
  unfolding expired_rows
  expired_rows-HasExpired id h =
      let p : Test = λ x. str_eq x.id id in
      let q : Test = λ v. is_expired t.now v && not (held v) in
      let found =
        any-sort p (keep q t.verifications)
          (any-take p limit (sort_by_expiry (keep q t.verifications)) h) in
      Any-weaken _ _ (λ x k. (ground (arith, k.0, eq_iff x.id id), ground (arith, k.1)))
        t.verifications (any-keep-both p q t.verifications found)

  pub delete_expired-Swept : Swept t (delete_expired held limit t).1.verifications
  unfolding delete_expired
  delete_expired-Swept =
      let q : Test = λ v. not (any (λ x. str_eq x.id v.id) (expired_rows held limit t)) in
      (
        each _ (keep q t.verifications) (λ v m. keep-IsIn q v t.verifications m),
        each _ t.verifications (λ v m.
            elim (Bool-cases (any (λ x. str_eq x.id v.id) (expired_rows held limit t))) [
              | inl gone ↦ inr (expired_rows-HasExpired v.id gone)
              | inr stays ↦ inl (IsIn-keep q v t.verifications (ground arith) m)
            ]),
      )
