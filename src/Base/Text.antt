-- ===== src/Base/Text.antt =====
-- Go strings. A `string` of the program is a native `String`, a sequence of Unicode code points:
-- every text comes in through encoding/json or the database, which hold valid UTF-8 only.
-- `range`, `[]rune` and utf8.RuneCountInString see its code points, `len` and `s[i]` its bytes.
use Prim.Native.Nat.{ℕ, zero, suc, ◌+◌, ◌/◌, ◌%◌}
use Prim.Native.Char.{code}
use Prim.Native.String.{String}
use mathlib.Core.Path.{◌≡◌, refl, ap}
use mathlib.Core.List.{List, [], ◌∷◌, ◌++◌}
use hamburger_evaluation.Base.Tests.{ltb, if◌then◌else◌}
use hamburger_evaluation.Base.Lists.{length, take}

-- The code points, `[]rune(s)`.
abbrev pub runes : String → List ℕ
runes String.[] = []
runes (String.◌∷◌ c s) = code c ∷ runes s

-- utf8.RuneCountInString
abbrev pub rune_count : String → ℕ
rune_count s = length (runes s)

-- The UTF-8 encoding of one code point.
abbrev pub utf8 : ℕ → List ℕ
utf8 c =
    if ltb c 0x80
    then c ∷ []
    else if ltb c 0x800
    then (0xC0 + c / 64) ∷ (0x80 + c % 64) ∷ []
    else if ltb c 0x10000
    then (0xE0 + c / 4096) ∷ (0x80 + c / 64 % 64) ∷ (0x80 + c % 64) ∷ []
    else (0xF0 + c / 262144) ∷ (0x80 + c / 4096 % 64) ∷ (0x80 + c / 64 % 64) ∷ (0x80 + c % 64) ∷ []

abbrev pub encode : List ℕ → List ℕ
encode [] = []
encode (c ∷ cs) = utf8 c ++ encode cs

-- The bytes, `[]byte(s)`; `len(s)` is their number.
abbrev pub bytes : String → List ℕ
bytes s = encode (runes s)

-- `string([]rune(s)[:n])` where the text has `n` code points or more, else the text itself.
abbrev pub take_runes : ℕ → String → String
take_runes zero s = String.[]
take_runes (suc n) String.[] = String.[]
take_runes (suc n) (String.◌∷◌ c s) = String.◌∷◌ c (take_runes n s)

pub runes-take_runes : (n : ℕ) (s : String) → runes (take_runes n s) ≡ take n (runes s)
runes-take_runes zero s = refl
runes-take_runes (suc n) String.[] = refl
runes-take_runes (suc n) (String.◌∷◌ c s) = ap (λ t. code c ∷ t) (runes-take_runes n s)
