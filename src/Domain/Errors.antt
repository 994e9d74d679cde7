-- ===== src/Domain/Errors.antt =====
-- domain/errors.go, domain/message.go and the sentinel errors of the other domain files, as one
-- type. `fmt.Errorf("...: %w", err)` adds a text for the log and keeps what errors.Is sees, so a
-- wrapped error is the error itself; `failure` is any error that is not a domain error, such as
-- one of the database driver.
use hamburger_evaluation.Base.{ℕ, String, List, ◌≡◌, refl}

-- The arguments of every message of the catalogue are numbers.
pub record Message : Type 0 where
  pub key : String
  pub args : List ℕ

abbrev pub msg : String → List ℕ → Message
msg key args = record { key = key; args = args }

pub data Error : Type 0 where
  invalid_credentials unauthenticated email_taken invalid_password_digest user_not_found : Error
  shop_not_found review_not_found burger_not_found signup_token_invalid forbidden : Error
  identity_not_found identity_taken identity_already_linked cannot_unlink_identity : Error
  external_identity_rejected login_handoff_invalid invalid_origin : Error
  oauth_invalid_token oauth_invalid_target oauth_invalid_scope oauth_client_invalid : Error
  oauth_authorize_request_invalid oauth_grant_not_found : Error
  oauth_token_session_not_found oauth_token_session_inactive : Error
  validation : List Message → Error
  insufficient_scope : List String → Error
  failure : String → Error

-- `(T, error)`: the value where the error is nil.
pub data Result {ℓ} (A : Type ℓ) : Type ℓ where
  err : Error → Result A
  ok : A → Result A

infixl 5 ◌>>◌ ◌>>=◌
-- `if err != nil { return err }` between two steps.
abbrev pub ◌>>=◌ {ℓ κ} :
    {Mid : Type ℓ} {End : Type κ} → Result Mid → (Mid → Result End) → Result End
err problem >>= next = err problem
ok value >>= next = next value

-- The same where the first step gives no value.
abbrev pub ◌>>◌ {κ} : {End : Type κ} → Result (Unit {0}) → Result End → Result End
check >> rest = check >>= λ _. rest

module _ {ℓ κ} {Mid : Type ℓ} {End : Type κ} where
  -- Inversion of a step that succeeded.
  pub >>=-eq-ok :
      (step : Result Mid) (next : Mid → Result End) {result : End}
      → (step >>= next) ≡ ok result
      → (value : Mid) × (step ≡ ok value) × (next value ≡ ok result)
  >>=-eq-ok (err problem) next h = cc
  >>=-eq-ok (ok value) next h = (value, refl, h)
