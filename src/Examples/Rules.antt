-- ===== src/Examples/Rules.antt =====
-- The rules on texts, numbers and URLs at concrete inputs.
use hamburger_evaluation.Base.{
  ◌≤◌, ◌≡◌, refl, ◌↔◌, ◌⊎◌, true, false, Option, none, some, String, [], length, All, Any, str_eq,
  if◌then◌else◌,
}
use hamburger_evaluation.Base.Text.{runes, rune_count, bytes}
use hamburger_evaluation.Domain.Errors.{ok}
use hamburger_evaluation.Domain.Rules.Chars.{trim_space, is_space, exceeds_chars}
use hamburger_evaluation.Domain.Rules.Password
use hamburger_evaluation.Domain.Rules.Email
use hamburger_evaluation.Domain.Url

abbrev password : String
password = "burger-1948"

password_issues-eq-nil_iff_example : (Password.password_issues password ≡ []) ↔ (
    (8 ≤ length (bytes password))
    × (length (bytes password) ≤ 72)
    × Any Password.IsLetter (bytes password)
    × Any Password.IsDigit (bytes password)
    × Any Password.IsSymbol (bytes password))
password_issues-eq-nil_iff_example = Password.password_issues-eq-nil_iff password

-- A reader of addresses that knows one.
abbrev one_address : String → Option String
one_address s = if str_eq s "a@b.jp" then some "a@b.jp" else none

email_issues-eq-nil_iff_example : (Email.email_issues (λ r. true) one_address "a@b.jp" ≡ []) ↔ (
    (1 ≤ rune_count "a@b.jp")
    × (rune_count "a@b.jp" ≤ 254)
    × All (λ r. true ≡ true) (runes "a@b.jp")
    × (one_address "a@b.jp" ≡ some "a@b.jp"))
email_issues-eq-nil_iff_example = Email.email_issues-eq-nil_iff (λ r. true) one_address "a@b.jp"

-- A parser that knows a path of the site and a page of a map.
abbrev local_path : Url.Url
local_path = record {
  scheme = "";
  user = false;
  host = "";
  hostname = "";
  port = "";
  path = "/shops/1";
  fragment = "";
}

abbrev map_page : Url.Url
map_page = record {
  scheme = "https";
  user = false;
  host = "maps.jp";
  hostname = "maps.jp";
  port = "";
  path = "/1";
  fragment = "";
}

abbrev parse : String → Option Url.Url
parse s =
    if str_eq s "/shops/1"
    then some local_path
    else if str_eq s "https://maps.jp/1"
    then some map_page
    else none

sanitize_return_to-IsLocalPath_example :
    (Url.sanitize_return_to parse "/shops/1" ≡ "")
    ⊎ ((Url.sanitize_return_to parse "/shops/1" ≡ "/shops/1")
        × Url.IsLocalPath parse (bytes "/shops/1"))
sanitize_return_to-IsLocalPath_example = Url.sanitize_return_to-IsLocalPath parse "/shops/1"

kept : Url.sanitize_return_to parse "/shops/1" ≡ "/shops/1"
unfolding Url.sanitize_return_to
kept = refl

accepted : Url.validate_map_url parse " https://maps.jp/1 " ≡ ok (some "https://maps.jp/1")
unfolding Url.validate_map_url Url.equal_fold trim_space exceeds_chars is_space
accepted = refl
