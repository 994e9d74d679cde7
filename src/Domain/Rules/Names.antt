-- ===== src/Domain/Rules/Names.antt =====
-- The texts that name things: username.go, bio.go, and the name rules of shop.go and review.go
-- (shops, burgers, moderation notes).
use hamburger_evaluation.Base.{
  ℕ, ◌≤◌, ◌≡◌, ◌↔◌, String, List, [], ◌∷◌, Option, none, some, arith, if◌then◌else◌,
}
use hamburger_evaluation.Base.Text.{rune_count}
use hamburger_evaluation.Domain.Errors.{Message, msg, Result, ok, err, validation}
use hamburger_evaluation.Domain.Rules.Chars.{
  exceeds_chars, is_empty, is_empty_iff, trim_space, HasInk, trim_space-HasInk,
}

abbrev pub max_username_chars : ℕ
max_username_chars = 50

abbrev pub max_bio_chars : ℕ
max_bio_chars = 500

abbrev pub max_shop_name_chars : ℕ
max_shop_name_chars = 100

abbrev pub max_burger_name_chars : ℕ
max_burger_name_chars = 100

abbrev pub max_moderation_note_chars : ℕ
max_moderation_note_chars = 500

unfoldable pub username_issues : String → List Message
unfolding exceeds_chars
username_issues username =
    if is_empty username
    then msg "username.blank" [] ∷ []
    else if exceeds_chars username max_username_chars
    then msg "username.too_long" (max_username_chars ∷ []) ∷ []
    else []

unfoldable pub bio_issues : String → List Message
unfolding exceeds_chars
bio_issues bio =
    if exceeds_chars bio max_bio_chars then msg "bio.too_long" (max_bio_chars ∷ []) ∷ [] else []

unfoldable pub validate_shop_name : String → Result (Unit {0})
unfolding exceeds_chars
validate_shop_name name =
    if is_empty (trim_space name)
    then err (validation (msg "shop_name.blank" [] ∷ []))
    else if exceeds_chars name max_shop_name_chars
    then err (validation (msg "shop_name.too_long" (max_shop_name_chars ∷ []) ∷ []))
    else ok tt

unfoldable pub validate_burger_name : String → Result (Unit {0})
unfolding exceeds_chars
validate_burger_name name =
    if is_empty (trim_space name)
    then err (validation (msg "burger_name.blank" [] ∷ []))
    else if exceeds_chars name max_burger_name_chars
    then err (validation (msg "burger_name.too_long" (max_burger_name_chars ∷ []) ∷ []))
    else ok tt

-- The note is a nil pointer where the moderator wrote none.
unfoldable pub validate_moderation_note : Option String → Result (Unit {0})
unfolding exceeds_chars
validate_moderation_note none = ok tt
validate_moderation_note (some note) =
    if exceeds_chars note max_moderation_note_chars
    then err (validation (msg "moderation_note.too_long" (max_moderation_note_chars ∷ []) ∷ []))
    else ok tt

-- A username is accepted exactly when it has 1 to 50 characters.
pub username_issues-eq-nil_iff :
    (u : String)
    → (username_issues u ≡ []) ↔ ((1 ≤ rune_count u) × (rune_count u ≤ max_username_chars))
unfolding username_issues
username_issues-eq-nil_iff u = ground (arith, is_empty_iff u)

pub bio_issues-eq-nil_iff : (b : String) → (bio_issues b ≡ []) ↔ (rune_count b ≤ max_bio_chars)
unfolding bio_issues
bio_issues-eq-nil_iff b = ground arith

-- A shop's name is accepted exactly when it has a character other than white space and at most
-- 100 characters in all, white space included.
pub validate_shop_name-eq-ok_iff :
    (name : String)
    → (validate_shop_name name ≡ ok tt) ↔ (HasInk name × (rune_count name ≤ max_shop_name_chars))
unfolding validate_shop_name
validate_shop_name-eq-ok_iff name = ground (arith, trim_space-HasInk name)

pub validate_burger_name-eq-ok_iff :
    (name : String)
    → (validate_burger_name name ≡ ok tt)
      ↔ (HasInk name × (rune_count name ≤ max_burger_name_chars))
unfolding validate_burger_name
validate_burger_name-eq-ok_iff name = ground (arith, trim_space-HasInk name)
