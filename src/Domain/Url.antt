-- ===== src/Domain/Url.antt =====
-- The rules on URLs: ValidateMapURL of shop.go and return_to.go. What net/url's Parse makes of a
-- text is a parameter of the model: the rules hold whatever it answers.
use hamburger_evaluation.Base.{
  ℕ, ◌+◌, ◌≤◌, ◌<◌, ◌≡◌, ◌≢◌, ◌⊎◌, inl, inr, Bool, true, false, not, ◌&&◌, ◌||◌, Option, none, some,
  String, List, [], ◌∷◌, arith, leb, ltb, ◌==◌, if◌then◌else◌, length, map, any, All, Option-cases,
}
use hamburger_evaluation.Base.Text.{runes, rune_count, bytes}
use hamburger_evaluation.Domain.Errors.{msg, Result, ok, err, validation}
use hamburger_evaluation.Domain.Rules.Chars.{exceeds_chars, is_empty, trim_space}

-- The fields of url.URL that the rules read; `user` says that there are credentials.
pub record Url : Type 0 where
  pub scheme : String
  pub user : Bool
  pub host : String
  pub hostname : String
  pub port : String
  pub path : String
  pub fragment : String

-- Simple case folding, as far as a text can meet an ASCII one: U+017F folds to `s` and U+212A to
-- `k`.
fold : ℕ → ℕ
fold c =
    if leb b'A' c && leb c b'Z'
    then c + 32
    else if c == 0x17F
    then b's'
    else if c == 0x212A
    then b'k'
    else c

abbrev pub same_runes : List ℕ → List ℕ → Bool
same_runes [] [] = true
same_runes (a ∷ as') (b ∷ bs) = a == b && same_runes as' bs
same_runes _ _ = false

-- strings.EqualFold(s, t) for a text `t` of ASCII.
unfoldable pub equal_fold : String → String → Bool
unfolding fold
equal_fold s t = same_runes (map fold (runes s)) (map fold (runes t))

abbrev pub max_map_url_chars : ℕ
max_map_url_chars = 2048

abbrev pub return_to_max_bytes : ℕ
return_to_max_bytes = 2048

-- strings.HasPrefix and strings.Contains with one ASCII character, over the bytes.
abbrev pub has_prefix : List ℕ → List ℕ → Bool
has_prefix bs [] = true
has_prefix [] (p ∷ ps) = false
has_prefix (b ∷ bs) (p ∷ ps) = b == p && has_prefix bs ps

abbrev pub contains_byte : ℕ → List ℕ → Bool
contains_byte c = any (λ b. b == c)

module _ (parse : String → Option Url) where
  -- What is wrong with a link that parsed.
  is_web_link : Option Url → Bool
  is_web_link none = false
  is_web_link (some u) =
      not (is_empty u.host) && (equal_fold u.scheme "http" || equal_fold u.scheme "https")

  unfoldable pub validate_map_url : String → Result (Option String)
  unfolding is_web_link
  validate_map_url raw =
      let trimmed = trim_space raw in
      if is_empty trimmed
      then ok none
      else if exceeds_chars trimmed max_map_url_chars
      then err (validation (msg "map_url.too_long" (max_map_url_chars ∷ []) ∷ []))
      else if is_web_link (parse trimmed)
      then ok (some trimmed)
      else err (validation (msg "map_url.invalid" [] ∷ []))

  -- The last test of SanitizeReturnTo.
  stays_here : Option Url → Bool
  stays_here none = false
  stays_here (some u) =
      is_empty u.scheme
      && is_empty u.host
      && not u.user
      && has_prefix (bytes u.path) (b'/' ∷ [])
      && not (has_prefix (bytes u.path) (b'/' ∷ b'/' ∷ []))

  unfoldable pub sanitize_return_to : String → String
  unfolding stays_here
  sanitize_return_to raw =
      if is_empty raw
        || ltb return_to_max_bytes (length (bytes raw))
        || not (has_prefix (bytes raw) (b'/' ∷ []))
      then ""
      else if has_prefix (bytes raw) (b'/' ∷ b'/' ∷ []) || contains_byte 0x5C (bytes raw)
      then ""
      else if any (λ b. ltb b 0x20 || b == 0x7F) (bytes raw)
      then ""
      else if stays_here (parse raw)
      then raw
      else ""

  -- A link that is kept is the trimmed text, has at most 2048 characters, parses, names a host and
  -- has the scheme http or https; no link is kept exactly for a blank text.
  validate_map_url_sound :
      (raw link : String)
      → validate_map_url raw ≡ ok (some link)
      → (u : Url) × (link ≡ trim_space raw)
        × (rune_count link ≤ max_map_url_chars)
        × (parse link ≡ some u)
        × (is_empty u.host ≡ false)
        × ((equal_fold u.scheme "http" ≡ true) ⊎ (equal_fold u.scheme "https" ≡ true))
  unfolding validate_map_url exceeds_chars
  validate_map_url_sound raw link h = elim (Option-cases (parse (trim_space raw))) [
    | inl e ↦ absurd (ground arith)
    | inr (u, e) ↦ (u, ground arith, ground arith, ground arith, ground arith, ground arith)
  ]

  abbrev pub IsControl : ℕ → Type 0
  IsControl b = (b < 0x20) ⊎ (b ≡ 0x7F)

  -- A path on this site, as a browser reads it: a slash, then no second slash or backslash, and no
  -- backslash or control character anywhere.
  pub record IsLocalPath (bs : List ℕ) : Type 0 where
    pub rooted : has_prefix bs (b'/' ∷ []) ≡ true
    pub one_slash : has_prefix bs (b'/' ∷ b'/' ∷ []) ≡ false
    pub no_backslash : All (λ b. b ≢ 0x5C) bs
    pub printable : All (λ b. IsControl b → ⊥) bs
    pub short : length bs ≤ return_to_max_bytes

  any-false :
      (P : ℕ → Type 0) (p : ℕ → Bool)
      → ((b : ℕ) → p b ≡ false → P b)
      → (bs : List ℕ) → any p bs ≡ false
      → All P bs
  any-false P p h [] e = tt
  any-false P p h (b ∷ bs) e = (h b (ground arith), any-false P p h bs (ground arith))

  -- Whatever net/url answers, the result is empty or the given text itself, and in the second case
  -- it is a local path of at most 2048 bytes.
  pub sanitize_return_to-IsLocalPath :
      (raw : String)
      → (sanitize_return_to raw ≡ "") ⊎ ((sanitize_return_to raw ≡ raw) × IsLocalPath (bytes raw))
  unfolding sanitize_return_to
  sanitize_return_to-IsLocalPath raw = ground (
    arith,
    any-false (λ b. b ≢ 0x5C) (λ b. b == 0x5C) (λ b h. ground arith) (bytes raw),
    any-false (λ b. IsControl b → ⊥) (λ b. ltb b 0x20 || b == 0x7F) (λ b h. ground arith)
        (bytes raw),
  )
