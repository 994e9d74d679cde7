-- ===== src/Domain/Account.antt =====
-- domain/user.go: accounts and what a viewer sees of them.
use hamburger_evaluation.Base.{
  ◌≡◌, refl, Bool, true, false, Option, none, some, String, arith, str_eq, eq_iff, if◌then◌else◌,
}

pub record User : Type 0 where
  pub id : String
  pub username : String
  pub bio : String
  pub email : String
  pub admin : Bool

unfoldable pub can_moderate : User → Bool
can_moderate u = u.admin

unfoldable pub manages : User → String → Bool
manages u id = str_eq u.id id

-- `email` and `admin` are nil pointers where the viewer may not see them.
pub record UserProfile : Type 0 where
  pub id : String
  pub username : String
  pub bio : String
  pub email : Option String
  pub admin : Option Bool
  pub can_edit : Bool

-- A nil viewer is anonymous.
abbrev is_self : User → Option User → Bool
is_self u none = false
is_self u (some viewer) = str_eq viewer.id u.id

abbrev may_edit : User → Option User → Bool
may_edit u none = false
may_edit u (some viewer) = manages viewer u.id

unfoldable pub profile_for : User → Option User → UserProfile
unfolding manages
profile_for u viewer =
    let p : UserProfile = record {
      id = u.id;
      username = u.username;
      bio = u.bio;
      email = none;
      admin = none;
      can_edit = may_edit u viewer;
    } in
    if is_self u viewer then record p { email = some u.email; admin = some u.admin } else p

-- The owner sees the whole account.
pub profile_for-owner :
    (u v : User)
    → v.id ≡ u.id
    → profile_for u (some v) ≡ record {
      id = u.id;
      username = u.username;
      bio = u.bio;
      email = some u.email;
      admin = some u.admin;
      can_edit = true;
    }
unfolding profile_for
profile_for-owner u v h = ground (arith, eq_iff v.id u.id)

abbrev pub IsOwner : User → Option User → Type 0
IsOwner u none = ⊥
IsOwner u (some v) = v.id ≡ u.id

-- To a viewer who is not the owner, an admin or an anonymous one included, two accounts that agree
-- on id, username and bio look the same, whatever their mail addresses and admin flags: the
-- profile holds neither, and no edit link.
profile_for-private :
    (u w : User) (viewer : Option User)
    → u.id ≡ w.id
    → u.username ≡ w.username
    → u.bio ≡ w.bio
    → (IsOwner u viewer → ⊥)
    → (profile_for u viewer ≡ profile_for w viewer)
      × ((profile_for u viewer).email ≡ none)
      × ((profile_for u viewer).admin ≡ none)
      × ((profile_for u viewer).can_edit ≡ false)
unfolding profile_for
profile_for-private u w none i n b h = (ground arith, refl, refl, refl)
profile_for-private u w (some v) i n b h =
    let t : (profile_for u (some v) ≡ profile_for w (some v)) =
      ground (arith, eq_iff v.id u.id, eq_iff v.id w.id) in
    (
      t,
      ground (arith, eq_iff v.id u.id),
      ground (arith, eq_iff v.id u.id),
      ground (arith, eq_iff v.id u.id),
    )
