-- ===== src/Examples/Oauth.antt =====
-- OAuth scopes, tokens and clients at concrete inputs.
use hamburger_evaluation.Base.{
  ℕ, ◌≡◌, refl, ◌↔◌, true, false, Option, none, some, String, List, [], ◌∷◌, length, All, str_eq,
  if◌then◌else◌,
}
use hamburger_evaluation.Base.Text.{runes, bytes}
use hamburger_evaluation.Domain.Errors.{Result, ok, err, user_not_found, oauth_invalid_token}
use hamburger_evaluation.Domain.Rules.Chars.{exceeds_chars, truncate_chars, trim_space, is_space}
use hamburger_evaluation.Domain.Url.{Url}
use hamburger_evaluation.Domain.Account.{User}
use hamburger_evaluation.Domain.Oauth.Scopes.{contains, Covers}
use hamburger_evaluation.Domain.Oauth.Tokens.{
  validate_oauth_pkce, IsBase64Url, validate_oauth_pkce-eq-ok_iff, OAuthAccessToken, authenticate,
  authenticate-eq-ok_iff,
}
use hamburger_evaluation.Domain.Oauth.Clients.{
  OAuthClient, Metadata, validate, IsRegistrable, validate-IsRegistrable,
  validate_oauth_redirect_uri, validate_client_metadata_url, parse_client_metadata_document,
  parse_client_metadata_document_sound,
}

abbrev read : List String
read = "hamburger:read" ∷ []

abbrev write : List String
write = "hamburger:write" ∷ []

abbrev challenge : String
challenge = "E9Melhoa2OwvFrEMTJguCHaoeK1t8URWbuGJSstw-cM"

abbrev method : String
method = "S256"

validate_oauth_pkce-eq-ok_iff_example :
    (validate_oauth_pkce challenge method ≡ ok tt)
    ↔ ((method ≡ "S256") × (length (bytes challenge) ≡ 43) × All IsBase64Url (runes challenge))
validate_oauth_pkce-eq-ok_iff_example = validate_oauth_pkce-eq-ok_iff challenge method

abbrev token : OAuthAccessToken
token = record {
  user_id = "u1";
  client_id = "c1";
  scopes = read;
  audience = "https://mcp" ∷ [];
  expires_at = 9;
}

abbrev introspect : String → Result OAuthAccessToken
introspect raw = if str_eq raw "t" then ok token else err oauth_invalid_token

abbrev user : User
user = record { id = "u1"; username = "patty"; bio = ""; email = "p@b.jp"; admin = false }

abbrev active_user : String → Result User
active_user id = if str_eq id "u1" then ok user else err user_not_found

authenticate-eq-ok_iff_example :
    (authenticate introspect active_user "https://mcp" "t" read ≡ ok (user, token)) ↔ (
      (introspect "t" ≡ ok token)
      × (active_user "u1" ≡ ok user)
      × (contains ("https://mcp" ∷ []) "https://mcp" ≡ true)
      × Covers read read)
authenticate-eq-ok_iff_example =
    authenticate-eq-ok_iff introspect active_user "https://mcp" "t" read user token

abbrev page : Url
page = record {
  scheme = "https";
  user = false;
  host = "app.dev";
  hostname = "app.dev";
  port = "";
  path = "/c.json";
  fragment = "";
}

abbrev parse : String → Option Url
parse s = if str_eq s "https://app.dev/c.json" then some page else none

abbrev app : OAuthClient
app = record {
  id = "https://app.dev/c.json";
  name = "App";
  redirect_uris = "https://app.dev/c.json" ∷ [];
}

abbrev metadata : Metadata
metadata = record {
  client_id = "https://app.dev/c.json";
  client_name = "App";
  redirect_uris = "https://app.dev/c.json" ∷ [];
  token_endpoint_auth_method = "none";
}

abbrev unmarshal : List ℕ → Option Metadata
unmarshal [] = none
unmarshal (b ∷ bs) = some metadata

valid : validate parse app ≡ ok tt
unfolding validate validate_oauth_redirect_uri exceeds_chars trim_space is_space
valid = refl

validate-IsRegistrable_example : IsRegistrable parse app
validate-IsRegistrable_example = validate-IsRegistrable parse app valid

fetchable : validate_client_metadata_url parse (λ h. false) "https://app.dev/c.json" ≡ ok tt
unfolding validate_client_metadata_url exceeds_chars
fetchable = refl

registered :
    parse_client_metadata_document parse unmarshal "https://app.dev/c.json" (1 ∷ []) ≡ ok app
unfolding parse_client_metadata_document validate validate_oauth_redirect_uri exceeds_chars
    trim_space is_space truncate_chars
registered = refl

parse_client_metadata_document_sound_example :
    (d : Metadata) × (unmarshal (1 ∷ []) ≡ some d)
    × (d.client_id ≡ "https://app.dev/c.json")
    × (app.id ≡ "https://app.dev/c.json")
    × (app.redirect_uris ≡ d.redirect_uris)
    × IsRegistrable parse app
parse_client_metadata_document_sound_example =
    parse_client_metadata_document_sound parse unmarshal "https://app.dev/c.json" (1 ∷ []) app
      registered
