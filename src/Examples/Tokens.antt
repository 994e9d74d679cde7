-- ===== src/Examples/Tokens.antt =====
-- The records of tokens at concrete inputs.
use hamburger_evaluation.Base.{
  ℕ, ◌≤◌, ◌≡◌, ◌&&◌, str_eq, refl, ◌⊎◌, true, false, Option, none, some, List, [], ◌∷◌, any, arith,
}
use hamburger_evaluation.TokenStore.{
  is_live, OAuthTokenKind, OAuthTokenSession, Store, is_family, rotate, revoke_request,
  get_oauth_token_session,
}
use hamburger_evaluation.TokenStore.SingleUse.{Op, succeeds, times_spent, saves, single_use}
use hamburger_evaluation.TokenStore.Families.{is_usable, run, revoke_request-final, rotate_atomic}
use hamburger_evaluation.TokenStore.Storage.{
  found_with, StorageError, get_authorize_code_session, invalidate_authorize_code_session,
  invalidate_authorize_code_session-detects,
}

abbrev code : OAuthTokenSession
code = record {
  kind = OAuthTokenKind.authorization_code;
  signature = "c";
  request_id = "q1";
  grant_id = "g";
  user_id = "u1";
  client_id = "app";
  active = true;
  expires_at = 60;
  request = 7 ∷ [];
}

abbrev refresh : OAuthTokenSession
refresh = record code { kind = OAuthTokenKind.refresh_token; signature = "r" }

abbrev access : OAuthTokenSession
access = record code { kind = OAuthTokenKind.access_token; signature = "a" }

abbrev other : OAuthTokenSession
other = record access { signature = "b"; request_id = "q2" }

abbrev rows : Store
rows = code ∷ refresh ∷ access ∷ other ∷ []

-- Two exchanges of one code, and a revocation between them.
abbrev race : List Op
race =
    Op.using OAuthTokenKind.authorization_code "c"
    ∷ Op.revoking "q1"
    ∷ Op.using OAuthTokenKind.authorization_code "c"
    ∷ []

abbrev refreshes : List Op
refreshes = Op.rotating "q1" "r" ∷ Op.rotating "q1" "r" ∷ []

unsaved : any (saves OAuthTokenKind.authorization_code "c") race ≡ false
unfolding saves
unsaved = refl

single_use_example : times_spent OAuthTokenKind.authorization_code "c" race rows ≤ 1
single_use_example =
    single_use OAuthTokenKind.authorization_code "c" race rows unsaved (ground arith)

revoke_request-final_example :
    any (is_usable "q1") (run refreshes (revoke_request "q1" rows)) ≡ false
revoke_request-final_example = revoke_request-final "q1" refreshes rows refl

stored : get_oauth_token_session OAuthTokenKind.access_token "b" rows ≡ some other
unfolding get_oauth_token_session
stored = refl

rotate_atomic_example :
    ((succeeds (rotate "q1" "r" rows).1 ≡ true)
      × (any (λ r. is_live OAuthTokenKind.refresh_token "r" r && str_eq r.request_id "q1") rows
          ≡ true)
      × (any (is_live OAuthTokenKind.refresh_token "r") (rotate "q1" "r" rows).0 ≡ false)
      × (any (is_family OAuthTokenKind.access_token "q1") (rotate "q1" "r" rows).0 ≡ false))
    ⊎ ((succeeds (rotate "q1" "r" rows).1 ≡ false) × ((rotate "q1" "r" rows).0 ≡ rows))
rotate_atomic_example = rotate_atomic "q1" "r" rows (ground arith)

abbrev decode : List ℕ → Option ℕ
decode [] = none
decode (b ∷ bs) = some b

issued : get_oauth_token_session OAuthTokenKind.authorization_code "c" rows ≡ some code
unfolding get_oauth_token_session
issued = refl

invalidate_authorize_code_session-detects_example :
    get_authorize_code_session decode "c" (invalidate_authorize_code_session "c" rows).0
    ≡ found_with 7 StorageError.invalidated_authorize_code
invalidate_authorize_code_session-detects_example =
    invalidate_authorize_code_session-detects decode "c" code 7 rows issued refl
