-- ===== src/Domain/Rules/Email.antt =====
-- domain/email.go and domain/uuid.go. The tables of the
-- package unicode and what net/mail reads are parameters.
use hamburger_evaluation.Base.{
  ℕ, suc, ◌≤◌, ◌≡◌, ap, ◌↔◌, Bool, true, false, not, ◌&&◌, ◌||◌, Option, none, some, String, List,
  [], ◌∷◌, arith, str_eq, eq_iff, leb, ◌==◌, if◌then◌else◌, length, any, All,
}
use hamburger_evaluation.Base.Text.{runes, rune_count, bytes}
use hamburger_evaluation.Domain.Errors.{Message, msg}
use hamburger_evaluation.Domain.Rules.Chars.{is_empty, exceeds_chars, is_empty_iff}

abbrev pub max_email_chars : ℕ
max_email_chars = 254

-- `is_print` is unicode.IsPrint; `parse_address` is the address that mail.ParseAddress reads.
module _ (is_print : ℕ → Bool) (parse_address : String → Option String) where
  -- `err != nil || addr.Address != email`
  is_other : Option String → String → Bool
  is_other none email = true
  is_other (some a) email = not (str_eq a email)

  unfoldable pub email_issues : String → List Message
  unfolding is_other
  email_issues email =
      if is_empty email
      then msg "email.blank" [] ∷ []
      else if exceeds_chars email max_email_chars
      then msg "email.too_long" (max_email_chars ∷ []) ∷ []
      else if any (λ r. not (is_print r)) (runes email)
      then msg "email.invalid" [] ∷ []
      else if is_other (parse_address email) email
      then msg "email.invalid" [] ∷ []
      else []

  All-printable :
      (rs : List ℕ) → (any (λ r. not (is_print r)) rs ≡ false) ↔ All (λ r. is_print r ≡ true) rs
  All-printable [] = ground arith
  All-printable (r ∷ rs) = ground (arith, All-printable rs)

  is_other-eq-false_iff :
      (o : Option String) (email : String) → (is_other o email ≡ false) ↔ (o ≡ some email)
  unfolding is_other
  is_other-eq-false_iff none email = (λ h. cc, λ h. cc)
  is_other-eq-false_iff (some a) email = (
    λ h. let e : a ≡ email = (eq_iff a email).0 (ground arith) in ap some e,
    λ h. let e : a ≡ email = cc in let k = (eq_iff a email).1 e in ground arith,
  )

  -- An address is accepted exactly when it has 1 to 254 characters, all printable, and net/mail
  -- reads it as a bare address, the same text without a name or angle brackets.
  pub email_issues-eq-nil_iff :
      (email : String)
      → (email_issues email ≡ []) ↔ (
          (1 ≤ rune_count email)
          × (rune_count email ≤ max_email_chars)
          × All (λ r. is_print r ≡ true) (runes email)
          × (parse_address email ≡ some email))
  unfolding email_issues exceeds_chars
  email_issues-eq-nil_iff email = ground (
    arith,
    is_empty_iff email,
    All-printable (runes email),
    is_other-eq-false_iff (parse_address email) email,
  )

-- domain.IsUUID: the index of a byte and the byte.
uuid_byte : ℕ → ℕ → Bool
uuid_byte i c =
    if i == 8 || i == 13 || i == 18 || i == 23
    then c == b'-'
    else leb b'0' c && leb c b'9' || leb b'a' c && leb c b'f'

uuid_bytes : ℕ → List ℕ → Bool
uuid_bytes i [] = true
uuid_bytes i (c ∷ cs) = uuid_byte i c && uuid_bytes (suc i) cs

unfoldable pub is_uuid : String → Bool
unfolding uuid_byte uuid_bytes
is_uuid s = length (bytes s) == 36 && uuid_bytes 0 (bytes s)
