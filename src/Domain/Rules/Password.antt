-- ===== src/Domain/Rules/Password.antt =====
-- domain/password.go. The length is counted in bytes.
use hamburger_evaluation.Base.{
  ℕ, ◌≤◌, ◌≡◌, refl, ◌↔◌, ◌⊎◌, Bool, true, false, ◌&&◌, ◌||◌, String, List, [], ◌∷◌, ◌++◌, arith,
  ltb, leb, if◌then◌else◌, length, Any,
}
use hamburger_evaluation.Base.Text.{bytes}
use hamburger_evaluation.Domain.Errors.{Message, msg}
use hamburger_evaluation.Domain.Rules.Chars.{is_empty}

abbrev pub min_password_bytes : ℕ
min_password_bytes = 8

abbrev pub max_password_bytes : ℕ
max_password_bytes = 72

-- What `has_all_char_kinds` has seen so far.
pub record Kinds : Type 0 where
  pub letter : Bool
  pub digit : Bool
  pub symbol : Bool

-- The `switch` on one byte.
see : ℕ → Kinds → Kinds
see c k =
    if leb b'A' c && leb c b'Z' || leb b'a' c && leb c b'z'
    then record k { letter = true }
    else if leb b'0' c && leb c b'9'
    then record k { digit = true }
    else if leb 0x21 c && leb c 0x7E
    then record k { symbol = true }
    else k

see_all : Kinds → List ℕ → Kinds
see_all k [] = k
see_all k (c ∷ cs) = see_all (see c k) cs

unfoldable pub has_all_char_kinds : String → Bool
unfolding see see_all
has_all_char_kinds s =
    let k = see_all (record { letter = false; digit = false; symbol = false }) (bytes s) in
    k.letter && k.digit && k.symbol

unfoldable pub password_issues : String → List Message
password_issues password =
    if is_empty password
    then msg "password.blank" [] ∷ []
    else (if ltb (length (bytes password)) min_password_bytes
        then msg "password.too_short" (min_password_bytes ∷ []) ∷ []
        else [])
      ++ (if ltb max_password_bytes (length (bytes password))
          then msg "password.too_long" (max_password_bytes ∷ []) ∷ []
          else [])
      ++ (if has_all_char_kinds password then [] else msg "password.char_kinds" [] ∷ [])

abbrev pub IsLetter : ℕ → Type 0
IsLetter c = ((b'A' ≤ c) × (c ≤ b'Z')) ⊎ ((b'a' ≤ c) × (c ≤ b'z'))

abbrev pub IsDigit : ℕ → Type 0
IsDigit c = (b'0' ≤ c) × (c ≤ b'9')

-- A printable ASCII character that is neither a letter, a digit nor the space.
abbrev pub IsSymbol : ℕ → Type 0
IsSymbol c = (0x21 ≤ c) × (c ≤ 0x7E) × (IsLetter c → ⊥) × (IsDigit c → ⊥)

see_all-letter :
    (k : Kinds) (cs : List ℕ)
    → ((see_all k cs).letter ≡ true) ↔ ((k.letter ≡ true) ⊎ Any IsLetter cs)
unfolding see_all see
see_all-letter k [] = ground arith
see_all-letter k (c ∷ cs) = ground (arith, see_all-letter (see c k) cs)

see_all-digit :
    (k : Kinds) (cs : List ℕ) → ((see_all k cs).digit ≡ true) ↔ ((k.digit ≡ true) ⊎ Any IsDigit cs)
unfolding see_all see
see_all-digit k [] = ground arith
see_all-digit k (c ∷ cs) = ground (arith, see_all-digit (see c k) cs)

see_all-symbol :
    (k : Kinds) (cs : List ℕ)
    → ((see_all k cs).symbol ≡ true) ↔ ((k.symbol ≡ true) ⊎ Any IsSymbol cs)
unfolding see_all see
see_all-symbol k [] = ground arith
see_all-symbol k (c ∷ cs) = ground (arith, see_all-symbol (see c k) cs)

-- The loop over the bytes finds a letter, a digit and a symbol exactly when each is there.
pub has_all_char_kinds_iff :
    (s : String)
    → (has_all_char_kinds s ≡ true)
      ↔ (Any IsLetter (bytes s) × Any IsDigit (bytes s) × Any IsSymbol (bytes s))
unfolding has_all_char_kinds
has_all_char_kinds_iff s =
    let start : Kinds = record { letter = false; digit = false; symbol = false } in
    ground (
      arith,
      see_all-letter start (bytes s),
      see_all-digit start (bytes s),
      see_all-symbol start (bytes s),
    )

length-bytes-is_empty : (s : String) → is_empty s ≡ true → length (bytes s) ≡ 0
length-bytes-is_empty Prim.Native.String.[] h = refl
length-bytes-is_empty (Prim.Native.String.◌∷◌ c s) h = cc

-- A password is accepted exactly when it has 8 to 72 bytes, with a letter, a digit and a symbol
-- of ASCII among them.
pub password_issues-eq-nil_iff :
    (p : String)
    → (password_issues p ≡ []) ↔ (
        (min_password_bytes ≤ length (bytes p))
        × (length (bytes p) ≤ max_password_bytes)
        × Any IsLetter (bytes p)
        × Any IsDigit (bytes p)
        × Any IsSymbol (bytes p))
unfolding password_issues
password_issues-eq-nil_iff p = ground (arith, length-bytes-is_empty p, has_all_char_kinds_iff p)
