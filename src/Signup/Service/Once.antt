-- ===== src/Signup/Service/Once.antt =====
-- Signing up as a sequence of requests, confirmations and time that passes (usecase/signup.go): each
-- token confirms once.
use hamburger_evaluation.Base.{
  ℕ, ◌+◌, ◌<◌, ◌≡◌, ◌≢◌, refl, sym, ap, ◌∙◌, ◌⊎◌, inl, inr, Bool, true, false, not, none, some,
  String, List, [], ◌∷◌, arith, str_eq, eq_iff, keep, find, find-first, any, Bool-cases,
}
use mathlib.Core.Path.{subst}
use hamburger_evaluation.Domain.Errors.{Result, ok, err}
use hamburger_evaluation.Domain.Account.{User}
use hamburger_evaluation.Transaction.{Session}
use hamburger_evaluation.Signup.{Tables, Mailbox, SignupVerification, has_token, is_live}
use hamburger_evaluation.Signup.Rows.{
  Distinct, token, any-keep, IsIndexed, Absent, delete_expired-Absent,
  upsert_signup_verification-Absent,
}
use hamburger_evaluation.Signup.Service.{Env, SignupInput, request, confirm}
use hamburger_evaluation.Signup.Service.ConfirmBody.{Confirms}
use hamburger_evaluation.Signup.Service.Confirms.{confirm_exact, confirm-err, confirm-outside}
use hamburger_evaluation.Signup.Service.Kept.{IsStable, request-keeps}

abbrev S : Type 0
S = Session Tables Mailbox

abbrev pub at : List Bool → S → S
at fs s = record s { faults = fs }

abbrev pub wait : ℕ → S → S
wait d s = record s { tables = record s.tables { now = s.tables.now + d } }

-- Each request and each confirmation has its own refusals.
pub data Step (env : Env) : S → S → Type 0 where
  requested :
      (i : SignupInput) (clock : ℕ) (fs : List Bool) (s : S)
      → Step env s (request env i clock (at fs s)).1
  confirming : (raw : String) (fs : List Bool) (s : S) → Step env s (confirm env raw (at fs s)).1
  passed : (d : ℕ) (s : S) → Step env s (wait d s)

pub data Reach (env : Env) : S → S → Type 0 where
  here : (s : S) → Reach env s s
  next : (a b c : S) → Reach env a b → Step env b c → Reach env a c

module _ (env : Env) where
  confirm-tables :
      (raw : String) (s : S)
      → ((confirm env raw s).1.tables ≡ s.tables)
        ⊎ ((u : User) × Confirms env raw u s.tables (confirm env raw s).1.tables)
  confirm-tables raw s = outcome (confirm env raw s) refl
    where
      outcome :
          (r : Result (User × String) × S)
          → confirm env raw s ≡ r
          → ((confirm env raw s).1.tables ≡ s.tables)
            ⊎ ((u : User) × Confirms env raw u s.tables (confirm env raw s).1.tables)
      outcome (ok (u, token), s') e = inr (
        u,
        subst (λ (x : S). Confirms env raw u s.tables x.tables) (sym (ap (λ q. q.1) e))
            (confirm_exact env raw s e).0,
      )
      outcome (err f, s') e = elim (confirm-err env raw s (ap (λ q. q.0) e)) [
        | inl same ↦ inl same
        | inr (u, made, bad) ↦ inr (u, made)
      ]

  -- Tokens with the hash `h` were drawn before: none of those still to be drawn has it.
  abbrev pub WasDrawn : String → Mailbox → Type 0
  WasDrawn h w = (n : ℕ) → env.hash_token (env.random n) ≡ h → n < w.drawn

  abbrev Spent : String → Tables → Mailbox → Type 0
  Spent h t w = Absent h t × WasDrawn h w

  Spent-IsStable : (h : String) → IsStable env (Spent h)
  Spent-IsStable h = record {
    mailing = λ t w m x. x;
    expiring = λ t w x. (delete_expired-Absent h env.held 20 t x.0, x.1);
    drawing = λ t w x. (x.0, λ n e. let k = x.1 n e in omega arith);
    storing = λ t w p e x. (
      upsert_signup_verification-Absent env.lower env.new_id h p
          (elim (Bool-cases (str_eq p.token_hash h)) [
            | inl same ↦
                let k = x.1 w.drawn (sym e ∙ (eq_iff p.token_hash h).0 same) in absurd (omega arith)
            | inr other ↦ other
          ])
          t x.0,
      λ n f. let k = x.1 n f in omega arith,
    );
  }

  confirm-Absent :
      (h raw : String) (s : S) → Absent h s.tables → Absent h (confirm env raw s).1.tables
  confirm-Absent h raw s a = elim (confirm-tables raw s) [
    | inl same ↦ subst (Absent h) (sym same) a
    | inr (u, c) ↦
        let (v, found, adds) = c in
        let (free, digest, made, rows) = adds in
        subst (Absent h) (sym rows)
          (any-keep (has_token h) (λ x. not (str_eq x.id v.id)) s.tables.verifications a)
  ]

  step-Spent :
      (h : String) {s s' : S}
      → Step env s s'
      → Spent h s.tables s.outside
      → Spent h s'.tables s'.outside
  step-Spent h (requested i clock fs s) x =
      request-keeps env (Spent h) (Spent-IsStable h) i clock (at fs s) x
  step-Spent h (confirming raw fs s) x = (
    confirm-Absent h raw (at fs s) x.0,
    subst (WasDrawn h) (sym (confirm-outside env raw (at fs s))) x.1,
  )
  step-Spent h (passed d s) x = x

  Reach-Spent :
      (h : String) {s s' : S}
      → Reach env s s'
      → Spent h s.tables s.outside
      → Spent h s'.tables s'.outside
  Reach-Spent h (here s) x = x
  Reach-Spent h (next a b c r step) x = step-Spent h step (Reach-Spent h r x)

absent-find :
    (h : String) (now : ℕ) (vs : List SignupVerification)
    → any (has_token h) vs ≡ false
    → find (is_live h now) vs ≡ none
absent-find h now [] a = refl
absent-find h now (v ∷ vs) a = ground (arith, absent-find h now vs)

same_token :
    (h a : String) (vs : List SignupVerification)
    → str_eq a h ≡ true
    → any (λ x. str_eq (token x) a) vs ≡ false
    → any (has_token h) vs ≡ false
same_token h a vs e n = subst (λ b. any (λ x. str_eq (token x) b) vs ≡ false) ((eq_iff a h).0 e) n

-- The row that a confirmation deletes is the only one with the token.
dropped :
    (h : String) (now : ℕ) (v : SignupVerification) (vs : List SignupVerification)
    → find (is_live h now) vs ≡ some v
    → Distinct token vs
    → any (has_token h) (keep (λ x. not (str_eq x.id v.id)) vs) ≡ false
dropped h now v [] f d = cc
dropped h now v (x ∷ xs) f d = elim (Bool-cases (is_live h now x)) [
  | inl e ↦
      let same : x ≡ v = find-first (is_live h now) v x xs e f in
      let out : str_eq x.id v.id ≡ true =
        (eq_iff x.id v.id).1 (ap (λ (y : SignupVerification). y.id) same) in
      let rest = same_token h x.token_hash xs (ground arith) d.0 in
      ground (arith, any-keep (has_token h) (λ y. not (str_eq y.id v.id)) xs rest)
  | inr e ↦ elim (Bool-cases (has_token h x)) [
    | inl c ↦
        let n = absent-find h now xs (same_token h x.token_hash xs c d.0) in absurd (ground arith)
    | inr c ↦ ground (arith, dropped h now v xs)
  ]
]

-- A token confirms once: where a confirmation succeeded, no later one with the same token does, in
-- whatever order requests, confirmations and time pass in between, whatever the database refuses.
-- The table kept its unique index on the token at the start, and the random tokens that are drawn
-- from then on have other hashes.
pub confirm_once :
    (env : Env) (raw : String) (s s' later last : S) (fs : List Bool) (a b : User × String)
    → IsIndexed env.lower s.tables
    → confirm env raw s ≡ (ok a, s')
    → WasDrawn env (env.hash_token raw) s'.outside
    → Reach env s' later
    → confirm env raw (at fs later) ≢ (ok b, last)
confirm_once env raw s s' later last fs a b x done drawn r again =
    let h = env.hash_token raw in
    let (v, found, adds) = (confirm_exact env raw s done).0 in
    let (free, digest, made, rows) = adds in
    let gone : Absent h s'.tables =
      subst (Absent h) (sym rows)
        (dropped h s.tables.now v s.tables.verifications found x.by_token) in
    let still = Reach-Spent env h r (gone, drawn) in
    let (v', found', _) = (confirm_exact env raw (at fs later) again).0 in
    let none' = absent-find h later.tables.now later.tables.verifications still.0 in
    absurd (ground arith)
