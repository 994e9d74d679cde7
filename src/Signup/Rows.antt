-- ===== src/Signup/Rows.antt =====
-- The unique indexes of signup_verifications (db/migrations/000008_create_signup_verifications), and
-- what the statements do to the rows of a token.
use hamburger_evaluation.Base.{
  ℕ, ◌+◌, ◌≡◌, refl, Bool, false, not, ◌&&◌, Option, none, some, String, List, [], ◌∷◌, map, arith,
  str_eq, leb, keep, find, any, Bool-cases, inl, inr,
}
use hamburger_evaluation.Signup.{
  Tables, SignupVerification, CreateSignupVerificationParams, has_token, delete_expired,
  expired_rows, same_email, renew_row, upsert, signup_resend_interval, upsert_signup_verification,
}

-- No two rows have the same key.
abbrev pub Distinct : (SignupVerification → String) → List SignupVerification → Type 0
Distinct key [] = Unit
Distinct key (v ∷ vs) = (any (λ x. str_eq (key x) (key v)) vs ≡ false) × Distinct key vs

abbrev pub token : SignupVerification → String
token v = v.token_hash

pub any-keep :
    (p q : SignupVerification → Bool) (vs : List SignupVerification)
    → any p vs ≡ false
    → any p (keep q vs) ≡ false
any-keep p q [] h = refl
any-keep p q (v ∷ vs) h = ground (arith, any-keep p q vs)

module _ (lower : String → String) (p : CreateSignupVerificationParams) (now : ℕ) where
  abbrev pub clashes : SignupVerification → Bool
  clashes x = has_token p.token_hash x && not (same_email lower p.email x)

  pub no_clash_at_all :
      (vs : List SignupVerification)
      → any (has_token p.token_hash) vs ≡ false
      → any clashes vs ≡ false
  no_clash_at_all [] h = refl
  no_clash_at_all (v ∷ vs) h = ground (arith, no_clash_at_all vs)

  any-token :
      (a : String) (vs : List SignupVerification)
      → str_eq p.token_hash a ≡ false
      → any (has_token a) vs ≡ false
      → any (has_token a) (map (renew_row lower p now) vs) ≡ false
  any-token a [] n h = refl
  any-token a (v ∷ vs) n h = ground (arith, any-token a vs)

-- One row per address, whatever the case of its letters, and one per token.
pub record IsIndexed (lower : String → String) (t : Tables) : Type 0 where
  pub by_email : Distinct (λ v. lower v.email) t.verifications
  pub by_token : Distinct token t.verifications

-- No row has the token.
abbrev pub Absent : String → Tables → Type 0
Absent h t = any (has_token h) t.verifications ≡ false

pub delete_expired-Absent :
    (h : String) (held : SignupVerification → Bool) (limit : ℕ) (t : Tables)
    → Absent h t
    → Absent h (delete_expired held limit t).1
unfolding delete_expired
delete_expired-Absent h held limit t a =
    any-keep (has_token h) (λ v. not (any (λ x. str_eq x.id v.id) (expired_rows held limit t)))
      t.verifications a

module _ (lower : String → String) (new_id : ℕ → String) (h : String)
    (p : CreateSignupVerificationParams) (other : str_eq p.token_hash h ≡ false) where
  upsert-Absent :
      (t : Tables) (o : Option SignupVerification)
      → Absent h t
      → Absent h (upsert lower new_id p t o).1
  unfolding upsert
  upsert-Absent t none a = elim (Bool-cases (any (has_token p.token_hash) t.verifications)) [
    | inl e ↦ rw e a
    | inr e ↦ rw e (ground arith)
  ]
  upsert-Absent t (some v) a =
      elim (Bool-cases (leb (v.last_sent_at + signup_resend_interval) t.now)) [
        | inr e ↦ rw e a
        | inl e ↦ rw e (elim (Bool-cases (any (clashes lower p t.now) t.verifications)) [
          | inl c ↦ rw c a
          | inr c ↦ rw c (any-token lower p t.now h t.verifications other a)
        ])
      ]

  pub upsert_signup_verification-Absent :
      (t : Tables) → Absent h t → Absent h (upsert_signup_verification lower new_id p t).1
  unfolding upsert_signup_verification
  upsert_signup_verification-Absent t =
      upsert-Absent t (find (same_email lower p.email) t.verifications)
