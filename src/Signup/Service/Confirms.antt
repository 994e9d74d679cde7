-- ===== src/Signup/Service/Confirms.antt =====
-- What Confirm of usecase/signup.go does, for every run of it.
use hamburger_evaluation.Base.{◌≡◌, refl, sym, ap, ◌∙◌, String, arith, inl, inr, ◌⊎◌}
use mathlib.Core.Path.{subst}
use hamburger_evaluation.Domain.Errors.{Error, Result, ok, err}
use hamburger_evaluation.Domain.Account.{User}
use hamburger_evaluation.Transaction.{◌>>=◌, lift, succeed, transaction}
use hamburger_evaluation.Transaction.Runs.{
  continue-ok, transaction-ok, transaction-err, ok-injective, StaysInside, transaction-StaysInside,
}
use hamburger_evaluation.Signup.{Run}
use hamburger_evaluation.Signup.Service.ConfirmBody.{
  S, Confirms, confirm_body-Confirms, confirm_body-StaysInside,
}
use hamburger_evaluation.Signup.Service.{Env, confirm_body, answer_of, confirm}

module _ (env : Env) where
  answer_of-ok : (r : Result User) {u : User} → answer_of env r ≡ ok u → r ≡ ok u
  answer_of-ok (ok u) h = h
  answer_of-ok (err e) h = absurd (ground arith)

  -- What follows the transaction.
  abbrev answered : Result User → Run (User × String)
  answered r = do
    user ← lift (answer_of env r)
    token ← lift (env.issue user.id)
    succeed (user, token)

  answered-ok :
      (r : Result User) (a : S) {u : User} {token : String} {s' : S}
      → answered r a ≡ (ok (u, token), s')
      → (r ≡ ok u) × (env.issue u.id ≡ ok token) × (a ≡ s')
  answered-ok r a {u} {token} {s'} h =
      let (u', b, l, h') = continue-ok _ (answer_of env r, a) h in
      let (token', d, i, last) = continue-ok _ (env.issue u'.id, b) h' in
      let pair : (u', token') ≡ (u, token) = ok-injective (ap (λ q. q.0) last) in
      let user : u' ≡ u = ap (λ p. p.0) pair in
      (
        answer_of-ok r (ap (λ q. q.0) l) ∙ ap (λ x. ok x) user,
        subst (λ x. env.issue x.id ≡ ok token) user (ap (λ q. q.0) i ∙ ap (λ p. ok p.1) pair),
        ap (λ q. q.1) l ∙ (ap (λ q. q.1) i ∙ ap (λ q. q.1) last),
      )

  -- The transaction of a confirmation.
  saved-Confirms :
      (raw : String) (s : S) {u : User}
      → (transaction (confirm_body env raw) s).0 ≡ ok u
      → Confirms env raw u s.tables (transaction (confirm_body env raw) s).1.tables
  saved-Confirms raw s {u} h =
      let p = transaction (confirm_body env raw) s in
      let (a, b, start, body, rows) =
        transaction-ok (confirm_body env raw) s (ap (λ r. (r, p.1)) h) in
      subst (λ t. Confirms env raw u t p.1.tables) start
        (subst (Confirms env raw u a.tables) (sym rows) (confirm_body-Confirms env raw a body))

  -- A confirmation that succeeds makes one user, and that user is the one whose address, name and
  -- password digest the sign-up behind the token holds, without the rights of a moderator: the
  -- token's row was there and not expired, no account had the address, in any case of its letters,
  -- the row is gone afterwards, no other row is, and the login token is one issued for that user.
  pub confirm_exact :
      (raw : String) (s : S) {u : User} {token : String} {s' : S}
      → confirm env raw s ≡ (ok (u, token), s')
      → Confirms env raw u s.tables s'.tables × (env.issue u.id ≡ ok token)
  unfolding confirm
  confirm_exact raw s {u} {token} {s'} h =
      let p = transaction (confirm_body env raw) s in
      let (made, issued, end) = answered-ok p.0 p.1 h in
      (
        subst (λ (x : S). Confirms env raw u s.tables x.tables) end (saved-Confirms raw s made),
        issued,
      )

  abbrev with_token : Result String → User → Run (User × String)
  with_token r u = do token ← lift r; succeed (u, token)

  issue-err :
      (r : Result String) (u : User) (a : S) {e : Error} → (with_token r u a).0 ≡ err e → r ≡ err e
  issue-err (ok token) u a h = absurd (ground arith)
  issue-err (err f) u a h = ground arith

  answered-err :
      (r : Result User) (a : S) {e : Error}
      → (answered r a).0 ≡ err e
      → ((f : Error) × (r ≡ err f)) ⊎ ((u : User) × (r ≡ ok u) × (env.issue u.id ≡ err e))
  answered-err (err f) a h = inl (f, refl)
  answered-err (ok u) a {e} h = inr (u, refl, issue-err (env.issue u.id) u a h)

  issued-tables : (r : Result String) (u : User) (a : S) → (with_token r u a).1.tables ≡ a.tables
  issued-tables (ok token) u a = refl
  issued-tables (err f) u a = refl

  issued-outside : (r : Result String) (u : User) (a : S) → (with_token r u a).1.outside ≡ a.outside
  issued-outside (ok token) u a = refl
  issued-outside (err f) u a = refl

  answered-tables : (r : Result User) (a : S) → (answered r a).1.tables ≡ a.tables
  answered-tables (err f) a = refl
  answered-tables (ok u) a = issued-tables (env.issue u.id) u a

  -- A confirmation that fails changes no table, wherever the database refused a statement, but for
  -- one case: the account was made as `confirm_exact` says, and no login token could be issued.
  pub confirm-err :
      (raw : String) (s : S) {e : Error}
      → (confirm env raw s).0 ≡ err e
      → ((confirm env raw s).1.tables ≡ s.tables)
        ⊎ ((u : User) × Confirms env raw u s.tables (confirm env raw s).1.tables
            × (env.issue u.id ≡ err e))
  unfolding confirm
  confirm-err raw s {e} h =
      let p = transaction (confirm_body env raw) s in
      elim (answered-err p.0 p.1 h) [
        | inl (f, failed) ↦
            inl (answered-tables p.0 p.1 ∙ transaction-err (confirm_body env raw) s f failed)
        | inr (u, made, bad) ↦ inr (
          u,
          subst (Confirms env raw u s.tables) (sym (answered-tables p.0 p.1))
              (saved-Confirms raw s made),
          bad,
        )
      ]

  answered-outside : (r : Result User) (a : S) → (answered r a).1.outside ≡ a.outside
  answered-outside (err f) a = refl
  answered-outside (ok u) a = issued-outside (env.issue u.id) u a

  pub confirm-outside : (raw : String) → StaysInside (confirm env raw)
  unfolding confirm
  confirm-outside raw s =
      let p = transaction (confirm_body env raw) s in
      answered-outside p.0 p.1
      ∙ transaction-StaysInside (confirm_body env raw) (confirm_body-StaysInside env raw) s
