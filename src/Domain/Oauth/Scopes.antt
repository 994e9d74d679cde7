-- ===== src/Domain/Oauth/Scopes.antt =====
-- The scopes of domain/oauth.go: the catalogue, validation, merging and the question of consent.
use Prim.Native.String.{compare}
use Prim.Native.Nat.{Ordering}
use hamburger_evaluation.Base.{
  ◌≡◌, refl, ◌↔◌, inl, inr, Bool, true, false, not, ◌&&◌, ◌||◌, Option, none, some, String, List,
  [], ◌∷◌, ◌++◌, arith, str_eq, eq_iff, eq_refl, if◌then◌else◌, any, keep, find, map, Bool-cases,
}
use hamburger_evaluation.Domain.Errors.{Result, ok, err, oauth_invalid_scope, oauth_invalid_target}

pub record OAuthScope : Type 0 where
  pub name : String
  pub description : String
  pub writes : Bool

abbrev pub oauth_scope_read : String
oauth_scope_read = "hamburger:read"

abbrev pub oauth_scope_write : String
oauth_scope_write = "hamburger:write"

abbrev pub oauth_scope_admin : String
oauth_scope_admin = "hamburger:admin"

abbrev pub oauth_scopes : List OAuthScope
oauth_scopes =
    record {
      name = oauth_scope_read;
      description = "View shops, reviews and profiles";
      writes = false;
    }
    ∷ record {
      name = oauth_scope_write;
      description = "Post, edit and delete reviews, and submit shops, on your behalf";
      writes = true;
    }
    ∷ record {
      name = oauth_scope_admin;
      description = "Moderate shop submissions: list, approve, reject, close and reopen them";
      writes = true;
    }
    ∷ []

abbrev pub default_oauth_scopes : List String
default_oauth_scopes = oauth_scope_read ∷ []

-- slices.Contains
abbrev pub contains : List String → String → Bool
contains xs n = any (λ x. str_eq x n) xs

unfoldable pub oauth_scope_by_name : String → Option OAuthScope
oauth_scope_by_name name = find (λ s. str_eq s.name name) oauth_scopes

abbrev is_known : Option OAuthScope → Bool
is_known none = false
is_known (some s) = true

known_scopes : List String → Result (Unit {0})
unfolding oauth_scope_by_name
known_scopes [] = ok tt
known_scopes (n ∷ names) =
    let rest = known_scopes names in
    if is_known (oauth_scope_by_name n) then rest else err oauth_invalid_scope

unfoldable pub validate_oauth_scopes : List String → Result (Unit {0})
unfolding known_scopes
validate_oauth_scopes [] = err oauth_invalid_scope
validate_oauth_scopes (n ∷ names) = known_scopes (n ∷ names)

-- The order of Go's strings.
abbrev is_before : String → String → Bool
is_before a b = elim (compare a b) [ Ordering.gt ↦ false | _ ↦ true ]

-- One place for each name: the keys of the map `seen`, in order.
insert_name : String → List String → List String
insert_name n [] = n ∷ []
insert_name n (x ∷ xs) =
    let rest = x ∷ insert_name n xs in
    if str_eq x n then x ∷ xs else if is_before n x then n ∷ x ∷ xs else rest

sorted_keys : List String → List String
sorted_keys [] = []
sorted_keys (n ∷ ns) = insert_name n (sorted_keys ns)

abbrev is_scope : String → Bool
is_scope n = any (λ s. str_eq s.name n) oauth_scopes

unfoldable pub merge_oauth_scopes : List String → List String → List String
unfolding insert_name sorted_keys
merge_oauth_scopes a b =
    keep (contains (a ++ b)) (map (λ s. s.name) oauth_scopes)
    ++ sorted_keys (keep (λ n. not (is_scope n)) (a ++ b))

unfoldable pub oauth_consent_required : List String → List String → Bool
oauth_consent_required granted requested = any (λ n. not (contains granted n)) requested

unfoldable pub resolve_oauth_resource : List String → String → Result String
resolve_oauth_resource [] allowed = ok allowed
resolve_oauth_resource (r ∷ requested) allowed =
    let rest = resolve_oauth_resource requested allowed in
    if str_eq r allowed then rest else err oauth_invalid_target

-- Every name of `ns` is among `xs`.
abbrev pub Covers : List String → List String → Type 0
Covers xs ns = (n : String) → contains ns n ≡ true → contains xs n ≡ true

contains-append :
    (xs ys : List String) (n : String) → contains (xs ++ ys) n ≡ (contains xs n || contains ys n)
contains-append [] ys n = refl
contains-append (x ∷ xs) ys n = ground (arith, contains-append xs ys n)

contains-keep :
    (p : String → Bool) (xs : List String) (n : String)
    → contains (keep p xs) n ≡ (p n && contains xs n)
contains-keep p [] n = ground arith
contains-keep p (x ∷ xs) n = elim (Bool-cases (str_eq x n)) [
  | inl e ↦ rw ((eq_iff x n).0 e) (ground (arith, contains-keep p xs n, eq_refl n))
  | inr e ↦ ground (arith, contains-keep p xs n)
]

contains-insert_name :
    (m : String) (xs : List String) (n : String)
    → contains (insert_name m xs) n ≡ (str_eq m n || contains xs n)
unfolding insert_name
contains-insert_name m [] n = refl
contains-insert_name m (x ∷ xs) n =
    ground (arith, contains-insert_name m xs n, eq_iff x m, eq_iff x n, eq_iff m n)

contains-sorted_keys : (xs : List String) (n : String) → contains (sorted_keys xs) n ≡ contains xs n
unfolding sorted_keys
contains-sorted_keys [] n = refl
contains-sorted_keys (x ∷ xs) n =
    ground (arith, contains-sorted_keys xs n, contains-insert_name x (sorted_keys xs) n)

-- The merged list holds exactly the names of both lists, unknown names included.
pub contains-merge_oauth_scopes :
    (a b : List String) (n : String)
    → contains (merge_oauth_scopes a b) n ≡ (contains a n || contains b n)
unfolding merge_oauth_scopes
contains-merge_oauth_scopes a b n =
    let known =
      contains-keep (contains (a ++ b)) (map (λ (s : OAuthScope). s.name) oauth_scopes) n in
    let others = contains-keep (λ m. not (is_scope m)) (a ++ b) n in
    ground (
      arith,
      contains-append (keep (contains (a ++ b)) (map (λ (s : OAuthScope). s.name) oauth_scopes))
          (sorted_keys (keep (λ m. not (is_scope m)) (a ++ b))) n,
      contains-sorted_keys (keep (λ m. not (is_scope m)) (a ++ b)) n,
      contains-append a b n,
    )

any-false-elim :
    (p : String → Bool) (xs : List String) (n : String)
    → any p xs ≡ false
    → contains xs n ≡ true
    → p n ≡ false
any-false-elim p [] n h c = cc
any-false-elim p (x ∷ xs) n h c = elim (Bool-cases (str_eq x n)) [
  | inl e ↦ rw (← (eq_iff x n).0 e) (ground arith)
  | inr e ↦ any-false-elim p xs n (ground arith) (ground arith)
]

any-false-intro :
    (p : String → Bool) (xs : List String)
    → ((n : String) → contains xs n ≡ true → p n ≡ false)
    → any p xs ≡ false
any-false-intro p [] h = refl
any-false-intro p (x ∷ xs) h =
    let first : p x ≡ false = h x (ground (arith, eq_refl x)) in
    let rest : any p xs ≡ false = any-false-intro p xs (λ n c. h n (ground arith)) in ground arith

-- The user is asked exactly when a requested scope was not granted.
pub oauth_consent_required_iff :
    (granted requested : List String)
    → (oauth_consent_required granted requested ≡ false) ↔ Covers granted requested
unfolding oauth_consent_required
oauth_consent_required_iff granted requested = (
  λ h n c. ground (arith, any-false-elim (λ m. not (contains granted m)) requested n h c),
  λ h.
      any-false-intro (λ m. not (contains granted m)) requested
        (λ n c. let k : contains granted n ≡ true = h n c in ground arith),
)

-- After the user granted a request, neither that request nor what was granted before asks again.
oauth_consent_required-merge :
    (granted requested : List String)
    → (oauth_consent_required (merge_oauth_scopes granted requested) requested ≡ false)
      × (oauth_consent_required (merge_oauth_scopes granted requested) granted ≡ false)
oauth_consent_required-merge granted requested = (
  (oauth_consent_required_iff (merge_oauth_scopes granted requested) requested).1
      (λ n c. ground (arith, contains-merge_oauth_scopes granted requested n)),
  (oauth_consent_required_iff (merge_oauth_scopes granted requested) granted).1
      (λ n c. ground (arith, contains-merge_oauth_scopes granted requested n)),
)
