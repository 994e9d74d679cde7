-- ===== src/Domain/Oauth/Clients.antt =====
-- Apps that ask for tokens: OAuthClient.Validate, ValidateOAuthRedirectURI, ValidateClientMetadataURL
-- and ParseClientMetadataDocument of domain/oauth.go. What net/url, net/netip and encoding/json
-- answer are parameters: the rules hold whatever they answer. Every refusal is a wrapped
-- ErrOAuthClientInvalid, whose texts for the log are left out.
use hamburger_evaluation.Base.{
  ℕ, ◌≤◌, ◌≡◌, sym, ap, ◌∙◌, ◌⊎◌, inl, inr, Bool, true, false, not, ◌&&◌, ◌||◌, Option, none, some,
  String, List, [], ◌∷◌, arith, str_eq, eq_iff, ltb, ◌==◌, if◌then◌else◌, length, any, All,
  Option-cases, Bool-cases,
}
use hamburger_evaluation.Base.Text.{rune_count, bytes}
use hamburger_evaluation.Domain.Errors.{Result, ok, err, oauth_client_invalid, ◌>>◌, >>=-eq-ok}
use hamburger_evaluation.Domain.Rules.Chars.{
  is_empty, exceeds_chars, truncate_chars, trim_space, is_empty_iff, HasInk, trim_space-HasInk,
}
use hamburger_evaluation.Domain.Url.{Url, contains_byte}

pub record OAuthClient : Type 0 where
  pub id : String
  pub name : String
  pub redirect_uris : List String

-- The members of the document that the code reads, absent ones empty.
pub record Metadata : Type 0 where
  pub client_id : String
  pub client_name : String
  pub redirect_uris : List String
  pub token_endpoint_auth_method : String

abbrev pub max_oauth_client_name_length : ℕ
max_oauth_client_name_length = 100

abbrev pub max_oauth_redirect_uris : ℕ
max_oauth_redirect_uris = 10

abbrev pub max_oauth_uri_length : ℕ
max_oauth_uri_length = 2048

abbrev invalid : Result (Unit {0})
invalid = err oauth_client_invalid

abbrev is_loopback_name : String → Bool
is_loopback_name host = str_eq host "127.0.0.1" || str_eq host "::1" || str_eq host "localhost"

-- A redirect URI that parsed as `u` may not be registered.
redirect_refused : String → Url → Bool
redirect_refused raw u =
    if is_empty u.scheme || is_empty u.host || is_empty u.hostname
    then true
    else if not (is_empty u.fragment) || contains_byte b'#' (bytes raw)
    then true
    else if u.user
    then true
    else if str_eq u.scheme "https"
    then false
    else if str_eq u.scheme "http"
    then not (is_loopback_name u.hostname)
    else true

-- strings.Split(path, "/")
abbrev extend : ℕ → List (List ℕ) → List (List ℕ)
extend c [] = (c ∷ []) ∷ []
extend c (seg ∷ segs) = (c ∷ seg) ∷ segs

abbrev pub split_slash : List ℕ → List (List ℕ)
split_slash [] = [] ∷ []
split_slash (c ∷ cs) = let rest = split_slash cs in if c == b'/' then [] ∷ rest else extend c rest

-- The segments `.` and `..`.
abbrev pub is_dot_segment : List ℕ → Bool
is_dot_segment (a ∷ []) = a == b'.'
is_dot_segment (a ∷ b ∷ []) = a == b'.' && b == b'.'
is_dot_segment _ = false

module _ (parse : String → Option Url) where
  redirect_uri_refused : String → Option Url → Bool
  redirect_uri_refused raw none = true
  redirect_uri_refused raw (some u) = redirect_refused raw u

  unfoldable pub validate_oauth_redirect_uri : String → Result (Unit {0})
  unfolding redirect_uri_refused redirect_refused
  validate_oauth_redirect_uri raw =
      if is_empty raw || exceeds_chars raw max_oauth_uri_length
      then invalid
      else if redirect_uri_refused raw (parse raw)
      then invalid
      else ok tt

  -- The loop over the redirect URIs, which stops at the first that is refused.
  each_redirect_uri : List String → Result (Unit {0})
  each_redirect_uri [] = ok tt
  each_redirect_uri (r ∷ rs) =
      let rest = each_redirect_uri rs in validate_oauth_redirect_uri r >> rest

  unfoldable pub validate : OAuthClient → Result (Unit {0})
  unfolding each_redirect_uri
  validate c =
      let uris = each_redirect_uri c.redirect_uris in
      if is_empty c.id || exceeds_chars c.id max_oauth_uri_length
      then invalid
      else if is_empty (trim_space c.name) || exceeds_chars c.name max_oauth_client_name_length
      then invalid
      else if length c.redirect_uris == 0 || ltb max_oauth_redirect_uris (length c.redirect_uris)
      then invalid
      else uris

  -- A target that a code may be sent to: it parses, has no credentials and no fragment, and uses
  -- https, or http on this machine.
  abbrev pub IsSafeRedirect : String → Type 0
  IsSafeRedirect raw =
      (u : Url) × (parse raw ≡ some u)
      × (rune_count raw ≤ max_oauth_uri_length)
      × (u.user ≡ false)
      × (contains_byte b'#' (bytes raw) ≡ false)
      × ((u.scheme ≡ "https") ⊎ ((u.scheme ≡ "http") × (is_loopback_name u.hostname ≡ true)))

  pub record IsRegistrable (c : OAuthClient) : Type 0 where
    pub id_length : (1 ≤ rune_count c.id) × (rune_count c.id ≤ max_oauth_uri_length)
    pub named : HasInk c.name
    pub name_length : rune_count c.name ≤ max_oauth_client_name_length
    pub some_uris :
        (1 ≤ length c.redirect_uris) × (length c.redirect_uris ≤ max_oauth_redirect_uris)
    pub safe_uris : All IsSafeRedirect c.redirect_uris

  redirect_uri-IsSafeRedirect :
      (raw : String) → validate_oauth_redirect_uri raw ≡ ok tt → IsSafeRedirect raw
  unfolding validate_oauth_redirect_uri exceeds_chars
  redirect_uri-IsSafeRedirect raw h = elim (Option-cases (parse raw)) [
    | inl e ↦ absurd (ground arith)
    | inr (u, e) ↦ (
      u,
      e,
      ground arith,
      ground arith,
      ground arith,
      ground (arith, eq_iff u.scheme "https", eq_iff u.scheme "http"),
    )
  ]

  each-IsSafeRedirect : (rs : List String) → each_redirect_uri rs ≡ ok tt → All IsSafeRedirect rs
  unfolding each_redirect_uri
  each-IsSafeRedirect [] h = tt
  each-IsSafeRedirect (r ∷ rs) h =
      let s = >>=-eq-ok (validate_oauth_redirect_uri r) _ h in
      (redirect_uri-IsSafeRedirect r s.1, each-IsSafeRedirect rs s.2)

  -- A registration that passes has an id, a name that is not blank and one to ten redirect URIs,
  -- all within their lengths, and every one of the URIs is safe.
  pub validate-IsRegistrable : (c : OAuthClient) → validate c ≡ ok tt → IsRegistrable c
  unfolding validate exceeds_chars
  validate-IsRegistrable c h = record {
    id_length = (ground (arith, is_empty_iff c.id), ground arith);
    named = ground (arith, trim_space-HasInk c.name);
    name_length = ground arith;
    some_uris = (ground arith, ground arith);
    safe_uris = each-IsSafeRedirect c.redirect_uris (ground arith);
  }

  -- `is_ip host` is whether netip.ParseAddr reads the host as an address.
  module _ (is_ip : String → Bool) where
    metadata_url_refused : String → Option Url → Bool
    metadata_url_refused raw none = true
    metadata_url_refused raw (some u) =
        if not (str_eq u.scheme "https")
        then true
        else if u.user
        then true
        else if not (is_empty u.fragment) || contains_byte b'#' (bytes raw)
        then true
        else if is_empty u.hostname
        then true
        else if is_ip u.hostname
        then true
        else if not (is_empty u.port) && not (str_eq u.port "443")
        then true
        else if is_empty u.path || str_eq u.path "/"
        then true
        else any is_dot_segment (split_slash (bytes u.path))

    unfoldable pub validate_client_metadata_url : String → Result (Unit {0})
    unfolding metadata_url_refused
    validate_client_metadata_url raw =
        if is_empty raw || exceeds_chars raw max_oauth_uri_length
        then invalid
        else if metadata_url_refused raw (parse raw)
        then invalid
        else ok tt

    -- A URL that the server agrees to fetch has at most 2048 characters and parses as one that
    -- uses https, without credentials, names a host that is not an IP address, leaves the port out
    -- or gives 443, and whose path has no dot segment.
    validate_client_metadata_url_sound :
        (raw : String)
        → validate_client_metadata_url raw ≡ ok tt
        → (u : Url) × (parse raw ≡ some u)
          × (rune_count raw ≤ max_oauth_uri_length)
          × (u.scheme ≡ "https")
          × (u.user ≡ false)
          × (is_ip u.hostname ≡ false)
          × (is_empty u.hostname ≡ false)
          × ((u.port ≡ "443") ⊎ (is_empty u.port ≡ true))
          × (any is_dot_segment (split_slash (bytes u.path)) ≡ false)
    unfolding validate_client_metadata_url exceeds_chars
    validate_client_metadata_url_sound raw h = elim (Option-cases (parse raw)) [
      | inl e ↦ absurd (ground arith)
      | inr (u, e) ↦ (
        u,
        e,
        ground arith,
        ground (arith, eq_iff u.scheme "https"),
        ground arith,
        ground arith,
        ground arith,
        ground (arith, eq_iff u.port "443"),
        ground arith,
      )
    ]

  -- `unmarshal` is what encoding/json reads, none where it fails.
  module _ (unmarshal : List ℕ → Option Metadata) where
    -- The host of the URL stands in for a blank name.
    host_name : String → Option Url → String
    host_name name none = name
    host_name name (some u) = u.hostname

    client_of : String → Metadata → OAuthClient
    client_of client_id d =
        let given = trim_space d.client_name in
        let name = if is_empty given then host_name given (parse client_id) else given in
        record {
          id = client_id;
          name = truncate_chars name max_oauth_client_name_length;
          redirect_uris = d.redirect_uris;
        }

    read_metadata : String → Option Metadata → Result OAuthClient
    unfolding client_of host_name
    read_metadata client_id none = err oauth_client_invalid
    read_metadata client_id (some d) =
        if not (str_eq d.client_id client_id)
        then err oauth_client_invalid
        else if not (is_empty d.token_endpoint_auth_method)
            && not (str_eq d.token_endpoint_auth_method "none")
        then err oauth_client_invalid
        else do validate (client_of client_id d); ok (client_of client_id d)

    unfoldable pub parse_client_metadata_document : String → List ℕ → Result OAuthClient
    unfolding read_metadata
    parse_client_metadata_document client_id doc = read_metadata client_id (unmarshal doc)

    accepted :
        (client_id : String) (d : Metadata) (c : OAuthClient)
        → read_metadata client_id (some d) ≡ ok c
        → (d.client_id ≡ client_id)
          × (validate (client_of client_id d) ≡ ok tt)
          × (client_of client_id d ≡ c)
    unfolding read_metadata
    accepted client_id d c h = elim (Bool-cases (str_eq d.client_id client_id)) [
      | inr e ↦ absurd (ground arith)
      | inl e ↦
          let k : (validate (client_of client_id d) >> ok (client_of client_id d)) ≡ ok c =
            ground arith in
          let s = >>=-eq-ok (validate (client_of client_id d)) _ k in
          ((eq_iff d.client_id client_id).0 e, s.1, let r = s.2 in cc)
    ]

    -- The app that a document registers has the id that the document was fetched from, which the
    -- document itself names, and passes the checks of a registration.
    pub parse_client_metadata_document_sound :
        (client_id : String) (doc : List ℕ) (c : OAuthClient)
        → parse_client_metadata_document client_id doc ≡ ok c
        → (d : Metadata) × (unmarshal doc ≡ some d)
          × (d.client_id ≡ client_id)
          × (c.id ≡ client_id)
          × (c.redirect_uris ≡ d.redirect_uris)
          × IsRegistrable c
    unfolding parse_client_metadata_document client_of
    parse_client_metadata_document_sound client_id doc c h = elim (Option-cases (unmarshal doc)) [
      | inl e ↦ absurd (ground arith)
      | inr (d, e) ↦
          let a = accepted client_id d c (sym (ap (read_metadata client_id) e) ∙ h) in
          (
            d,
            e,
            a.0,
            sym (ap (λ (k : OAuthClient). k.id) a.2),
            sym (ap (λ (k : OAuthClient). k.redirect_uris) a.2),
            rw (← a.2) (validate-IsRegistrable (client_of client_id d) a.1),
          )
    ]
