-- ===== src/Domain/Rules/Chars.antt =====
-- domain/chars.go, and the functions of the package `strings` that the rules call.
use Prim.Native.Char.{code}
use hamburger_evaluation.Base.{
  ℕ, ◌≡◌, refl, ap, ◌∙◌, ◌↔◌, Bool, true, false, ◌&&◌, ◌||◌, String, arith, leb, ltb, ◌==◌,
  if◌then◌else◌, length, take, Any, min, length-take, take-all,
}
use hamburger_evaluation.Base.Text.{runes, rune_count, take_runes, runes-take_runes}

unfoldable pub exceeds_chars : String → ℕ → Bool
exceeds_chars s max = ltb max (rune_count s)

unfoldable pub truncate_chars : String → ℕ → String
unfolding exceeds_chars
truncate_chars s max = if exceeds_chars s max then take_runes max s else s

-- unicode.IsSpace
unfoldable pub is_space : ℕ → Bool
is_space c =
    leb 9 c && leb c 13
    || c == 32
    || c == 0x85
    || c == 0xA0
    || c == 0x1680
    || leb 0x2000 c && leb c 0x200A
    || c == 0x2028
    || c == 0x2029
    || c == 0x202F
    || c == 0x205F
    || c == 0x3000

-- `s == ""`
abbrev pub is_empty : String → Bool
is_empty String.[] = true
is_empty (String.◌∷◌ c s) = false

trim_left : String → String
trim_left String.[] = String.[]
trim_left (String.◌∷◌ c s) =
    let rest = trim_left s in if is_space (code c) then rest else String.◌∷◌ c s

trim_right : String → String
trim_right String.[] = String.[]
trim_right (String.◌∷◌ c s) =
    let rest = trim_right s in
    if is_space (code c) && is_empty rest then String.[] else String.◌∷◌ c rest

-- strings.TrimSpace
unfoldable pub trim_space : String → String
unfolding trim_left trim_right is_space
trim_space s = trim_right (trim_left s)

-- A text has a character that is not white space.
abbrev pub HasInk : String → Type 0
HasInk s = Any (λ c. is_space c ≡ false) (runes s)

pub rune_count-eq-0_iff : (s : String) → (s ≡ "") ↔ (rune_count s ≡ 0)
rune_count-eq-0_iff String.[] = (λ _. refl, λ _. refl)
rune_count-eq-0_iff (String.◌∷◌ c s) = (λ h. ap rune_count h, λ h. ground arith)

pub is_empty_iff : (s : String) → (is_empty s ≡ true) ↔ (rune_count s ≡ 0)
is_empty_iff String.[] = ground arith
is_empty_iff (String.◌∷◌ c s) = ground arith

trim_right-HasInk : (s : String) → (is_empty (trim_right s) ≡ false) ↔ HasInk s
unfolding trim_right
trim_right-HasInk String.[] = (λ h. cc, λ h. absurd h)
trim_right-HasInk (String.◌∷◌ c s) = ground (arith, trim_right-HasInk s)

trim_left-HasInk : (s : String) → HasInk (trim_left s) ↔ HasInk s
unfolding trim_left
trim_left-HasInk String.[] = (λ h. h, λ h. h)
trim_left-HasInk (String.◌∷◌ c s) = ground (arith, trim_left-HasInk s)

-- What is left after trimming is empty exactly when the text is white space only.
pub trim_space-HasInk : (s : String) → (is_empty (trim_space s) ≡ false) ↔ HasInk s
unfolding trim_space
trim_space-HasInk s = ground (arith, trim_right-HasInk (trim_left s), trim_left-HasInk s)

-- Cutting a text keeps its first characters, `max` at most, and a text that fits stays as it is.
pub runes-truncate_chars :
    (s : String) (max : ℕ) → runes (truncate_chars s max) ≡ take max (runes s)
unfolding truncate_chars
runes-truncate_chars s max = ground (arith, runes-take_runes max s, take-all max (runes s))

pub rune_count-truncate_chars :
    (s : String) (max : ℕ) → rune_count (truncate_chars s max) ≡ min max (rune_count s)
rune_count-truncate_chars s max = ap length (runes-truncate_chars s max) ∙ length-take max (runes s)
