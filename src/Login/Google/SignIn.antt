-- ===== src/Login/Google/SignIn.antt =====
-- GoogleLogins.signIn of usecase/google_login.go: who may be signed in, whatever statements the
-- database refuses on the way.
use hamburger_evaluation.Base.{
  ℕ, ◌≡◌, ◌≢◌, refl, sym, ap, ◌∙◌, Bool, true, false, not, ◌&&◌, ◌||◌, Option, none, some, String,
  List, arith, if◌then◌else◌, find, any, inl, inr, ◌⊎◌,
}
use hamburger_evaluation.Domain.Errors.{
  Error, Message, Result, ok, err, failure, identity_not_found, email_taken,
  invalid_password_digest,
}
use hamburger_evaluation.Domain.Rules.Chars.{is_empty}
use hamburger_evaluation.Domain.Account.{User}
use hamburger_evaluation.Login.{
  LoginHandoffOutcome, UserIdentity, Db, Action, succeed, fail, attempt, caught, statement,
  is_identity, found_or, get_identity_by_provider_user_id, create_user, CreateUserParams, has_email,
  insert_user,
}
use hamburger_evaluation.Login.Runs.{
  Keeps, continue-ok, statement-ok, attempt-read, result-eq, unit_of_work-err, unit_of_work-ok,
}
use hamburger_evaluation.Login.Google.{
  ExternalIdentity, Resolved, failed_flow, is_signed_in, linked_identity, sign_in_linked, sign_up,
  signed_up, or_else, after_linked, sign_in,
}

attempt-run {ℓ} :
    {A : Type ℓ} (p : Result A × Db) {r : Result A} {d : Db} → caught p ≡ (ok r, d) → p ≡ (r, d)
attempt-run (r', d') h = let x = result-eq (ap (λ p. p.0) h) in let y = ap (λ p. p.1) h in cc

unguarded {ℓ} :
    {A : Type ℓ} (b : Bool) (e : Error) (m : Action A) (db : Db) {a : A} {d : Db}
    → (if b then fail e else m) db ≡ (ok a, d)
    → m db ≡ (ok a, d)
unguarded true e m db h = absurd (ground arith)
unguarded false e m db h = h

module _ (lower : String → String) (new_id : ℕ → String) (email_issues : String → List Message)
    (username_from_profile : String → String) where
  abbrev IsStranger : ExternalIdentity → Db → Type 0
  IsStranger ident db =
      find (is_identity ident.provider ident.provider_user_id) db.identities ≡ none

  answered :
      (r : Result UserIdentity) (db : Db) (o : Option Resolved) (d : Db)
      → (err identity_not_found ≡ r) ⊎ (r ≡ err (failure "database"))
      → linked_identity lower new_id email_issues username_from_profile r db ≡ (ok o, d)
      → (db ≡ d) × ((o ≡ none) ⊎ (o ≡ some failed_flow))
  unfolding linked_identity
  answered r db o d (inl q) e =
      let e' : (ok none, db) ≡ (ok o, d) =
        ap (λ x. linked_identity lower new_id email_issues username_from_profile x db) q ∙ e in
      (ap (λ p. p.1) e', inl (sym (result-eq (ap (λ p. p.0) e'))))
  answered r db o d (inr q) e =
      let e' : (ok (some failed_flow), db) ≡ (ok o, d) =
        ap (λ x. linked_identity lower new_id email_issues username_from_profile x db) (sym q)
        ∙ e in
      (ap (λ p. p.1) e', inr (sym (result-eq (ap (λ p. p.0) e'))))

  looked_up :
      (ident : ExternalIdentity) (db c : Db) (r : Result UserIdentity)
      → IsStranger ident db
      → c.identities ≡ db.identities
      → (found_or identity_not_found
            (find (is_identity ident.provider ident.provider_user_id) c.identities)
          ≡ r)
        ⊎ (r ≡ err (failure "database"))
      → (err identity_not_found ≡ r) ⊎ (r ≡ err (failure "database"))
  looked_up ident db c r s k (inl q) = inl (
      sym (
        ap (found_or identity_not_found)
          (ap (find (is_identity ident.provider ident.provider_user_id)) k ∙ s))
      ∙ q)
  looked_up ident db c r s k (inr q) = inr q

  -- Nobody is found by an identity that is not linked.
  unlinked :
      (ident : ExternalIdentity) (db : Db) (o : Option Resolved) (d : Db)
      → IsStranger ident db
      → sign_in_linked lower new_id email_issues username_from_profile ident db ≡ (ok o, d)
      → Keeps db d × ((o ≡ none) ⊎ (o ≡ some failed_flow))
  unfolding sign_in_linked get_identity_by_provider_user_id
  unlinked ident db o d s e =
      let c =
        continue-ok (linked_identity lower new_id email_issues username_from_profile)
          (attempt (get_identity_by_provider_user_id ident.provider ident.provider_user_id) db) e in
      let a =
        attempt-read
          (λ d.
            found_or identity_not_found
              (find (is_identity ident.provider ident.provider_user_id) d.identities))
          db c.2 in
      let g = answered c.0 c.1 o d (looked_up ident db c.1 c.0 s a.0.1 a.1) c.3 in
      (rw (← g.0) a.0, g.1)

  refused :
      (p : CreateUserParams) (db : Db) (u : User) (d : Db)
      → any (has_email lower new_id p.email) db.users ≡ true
      → insert_user lower new_id p db ≢ (ok u, d)
  unfolding insert_user
  refused p db u d t e = absurd (ground arith)

  taken :
      (p : CreateUserParams) (db : Db) (u : User) (d : Db)
      → any (has_email lower new_id p.email) db.users ≡ true
      → create_user lower new_id p db ≢ (ok u, d)
  unfolding create_user insert_user
  taken p db u d t e =
      let m =
        unguarded
          (p.passwordless && not (is_empty p.password_digest)
            || not p.passwordless && is_empty p.password_digest)
          invalid_password_digest (statement (insert_user lower new_id p)) db e in
      let k = statement-ok (insert_user lower new_id p) db m in
      let t' : any (has_email lower new_id p.email) k.0.users ≡ true =
        ap (any (has_email lower new_id p.email)) k.1.0 ∙ t in
      refused p k.0 u d t' k.2

  no_sign_up :
      (ident : ExternalIdentity) (db : Db) (u : User) (d : Db)
      → any (has_email lower new_id ident.email) db.users ≡ true
      → sign_up lower new_id email_issues username_from_profile ident db ≢ (ok u, d)
  unfolding sign_up
  no_sign_up ident db u d t e =
      let w = unit_of_work-ok _ db e in
      let c = continue-ok _ _ w.3 in
      taken _ w.0 c.0 c.1 (ap (any (has_email lower new_id ident.email)) w.2.0 ∙ t) c.2

  abbrev Refused : Resolved → Type 0
  Refused r = is_signed_in r.0 ≡ false

  tried_again :
      (ident : ExternalIdentity) (r : Resolved) (o : Option Resolved)
      → Refused r
      → (o ≡ none) ⊎ (o ≡ some failed_flow)
      → Refused (or_else lower new_id email_issues username_from_profile r o)
  unfolding or_else
  tried_again ident r o n (inl e) = rw e n
  tried_again ident r o n (inr e) = rw e refl

  after_failure :
      (ident : ExternalIdentity) (x : Error) (db : Db) (r : Resolved) (d : Db)
      → IsStranger ident db
      → signed_up lower new_id email_issues username_from_profile ident (err x) db ≡ (ok r, d)
      → Refused r
  unfolding signed_up
  after_failure ident email_taken db r d s e =
      let c =
        continue-ok
          (λ o. succeed (
            or_else lower new_id email_issues username_from_profile
              (LoginHandoffOutcome.account_exists, "") o))
          (sign_in_linked lower new_id email_issues username_from_profile ident db) e in
      let g = unlinked ident db c.0 c.1 s c.2 in
      rw (← result-eq (ap (λ p. p.0) c.3))
        (tried_again ident (LoginHandoffOutcome.account_exists, "") c.0 refl g.1)
  after_failure ident Error.identity_taken db r d s e =
      let c =
        continue-ok
          (λ o. succeed (or_else lower new_id email_issues username_from_profile failed_flow o))
          (sign_in_linked lower new_id email_issues username_from_profile ident db) e in
      let g = unlinked ident db c.0 c.1 s c.2 in
      rw (← result-eq (ap (λ p. p.0) c.3)) (tried_again ident failed_flow c.0 refl g.1)
  after_failure ident x db r d s e = rw (← result-eq (ap (λ p. p.0) e)) refl

  outcome :
      (ident : ExternalIdentity) (u : Result User) (db db' : Db) (r : Resolved) (d : Db)
      → IsStranger ident db
      → any (has_email lower new_id ident.email) db.users ≡ true
      → sign_up lower new_id email_issues username_from_profile ident db ≡ (u, db')
      → signed_up lower new_id email_issues username_from_profile ident u db' ≡ (ok r, d)
      → Refused r
  unfolding sign_up
  outcome ident (ok u) db db' r d s t run e = absurd (no_sign_up ident db u db' t run)
  outcome ident (err x) db db' r d s t run e =
      let k : Keeps db db' =
        rw (← ap (λ p. p.1) run) (unit_of_work-err _ db x (ap (λ p. p.0) run)) in
      after_failure ident x db' r d
        (ap (find (is_identity ident.provider ident.provider_user_id)) k.1 ∙ s) e

  after_stranger :
      (ident : ExternalIdentity) (o : Option Resolved) (db : Db) (r : Resolved) (d : Db)
      → IsStranger ident db
      → any (has_email lower new_id ident.email) db.users ≡ true
      → (o ≡ none) ⊎ (o ≡ some failed_flow)
      → after_linked lower new_id email_issues username_from_profile ident o db ≡ (ok r, d)
      → Refused r
  unfolding after_linked
  after_stranger ident (some q) db r d s t (inl n) e = absurd (ground arith)
  after_stranger ident (some q) db r d s t (inr n) e =
      let same : q ≡ r = result-eq (ap (λ p. p.0) e) in
      let f : some q ≡ some failed_flow = n in let z : q ≡ failed_flow = cc in rw (← same, z) refl
  after_stranger ident none db r d s t n e =
      let c =
        continue-ok (signed_up lower new_id email_issues username_from_profile ident)
          (attempt (sign_up lower new_id email_issues username_from_profile ident) db) e in
      let run =
        attempt-run (sign_up lower new_id email_issues username_from_profile ident db) c.2 in
      outcome ident c.0 db c.1 r d s t run c.3

  -- Where an identity is linked to nobody and its email is that of an account, letter case aside,
  -- active or withdrawn, signing in signs nobody in, whatever statements the database refuses.
  pub sign_in-stranger :
      (ident : ExternalIdentity) (db : Db) (r : Resolved) (d : Db)
      → find (is_identity ident.provider ident.provider_user_id) db.identities ≡ none
      → any (has_email lower new_id ident.email) db.users ≡ true
      → sign_in lower new_id email_issues username_from_profile ident db ≡ (ok r, d)
      → is_signed_in r.0 ≡ false
  unfolding sign_in
  sign_in-stranger ident db r d s t e =
      let c =
        continue-ok (after_linked lower new_id email_issues username_from_profile ident)
          (sign_in_linked lower new_id email_issues username_from_profile ident db) e in
      let g = unlinked ident db c.0 c.1 s c.2 in
      after_stranger ident c.0 c.1 r d
        (ap (find (is_identity ident.provider ident.provider_user_id)) g.0.1 ∙ s)
        (ap (any (has_email lower new_id ident.email)) g.0.0 ∙ t) g.1 c.3
