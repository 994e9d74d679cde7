-- ===== src/TokenStore/Keys.antt =====
-- One key of the table of tokens under the statements that change it
-- (sqlcgen/oauth_token_sessions.sql.go): when its record counts as spent.
use hamburger_evaluation.Base.{
  ◌≤◌, ◌≡◌, refl, Bool, true, false, String, [], ◌∷◌, arith, str_eq, eq_iff, keep, any, length,
  Bool-cases, inl, inr,
}
use hamburger_evaluation.TokenStore.{
  OAuthTokenKind, same_kind, OAuthTokenSession, Store, has_key, is_live, deactivate_where,
  count_where,
}

module _ (k : OAuthTokenKind) (s : String) where
  abbrev pub IsSpent : Store → Type 0
  IsSpent rows = any (is_live k s) rows ≡ false

  pub keep-IsSpent :
      (p : OAuthTokenSession → Bool) (rows : Store) → IsSpent rows → IsSpent (keep p rows)
  keep-IsSpent p [] h = h
  keep-IsSpent p (r ∷ rows) h = ground (arith, keep-IsSpent p rows)

  pub deactivate-IsSpent :
      (p : OAuthTokenSession → Bool) (rows : Store)
      → IsSpent rows
      → IsSpent (deactivate_where p rows)
  unfolding deactivate_where
  deactivate-IsSpent p [] h = h
  deactivate-IsSpent p (r ∷ rows) h = ground (arith, deactivate-IsSpent p rows)

  pub deactivate-live :
      (k' : OAuthTokenKind) (s' : String) (rows : Store)
      → same_kind k' k ≡ true
      → str_eq s' s ≡ true
      → IsSpent (deactivate_where (is_live k' s') rows)
  unfolding deactivate_where
  deactivate-live k' s' [] a b = refl
  deactivate-live k' s' (r ∷ rows) a b =
      ground (
        arith,
        deactivate-live k' s' rows,
        eq_iff s' s,
        eq_iff r.signature s',
        eq_iff r.signature s,
      )

  pub spent-count :
      (p : OAuthTokenSession → Bool) (rows : Store)
      → ((r : OAuthTokenSession) → p r ≡ true → is_live k s r ≡ true)
      → IsSpent rows
      → count_where p rows ≡ 0
  unfolding count_where
  spent-count p [] f h = refl
  spent-count p (r ∷ rows) f h = elim (Bool-cases (p r)) [
    | inl e ↦ let l : is_live k s r ≡ true = f r e in absurd (ground arith)
    | inr e ↦ ground (arith, spent-count p rows f)
  ]

  -- The unique constraint of the table, for this key.
  abbrev pub IsUnique : Store → Type 0
  IsUnique rows = length (keep (has_key k s) rows) ≤ 1

  pub keep-keep :
      (p : OAuthTokenSession → Bool) (rows : Store)
      → length (keep (has_key k s) (keep p rows)) ≤ length (keep (has_key k s) rows)
  keep-keep p [] = ground arith
  keep-keep p (r ∷ rows) = ground (arith, keep-keep p rows)

  pub keep-deactivate :
      (p : OAuthTokenSession → Bool) (rows : Store)
      → length (keep (has_key k s) (deactivate_where p rows)) ≡ length (keep (has_key k s) rows)
  unfolding deactivate_where
  keep-deactivate p [] = refl
  keep-deactivate p (r ∷ rows) = ground (arith, keep-deactivate p rows)

  pub absent-count :
      (rows : Store) → any (has_key k s) rows ≡ false → length (keep (has_key k s) rows) ≡ 0
  absent-count [] h = refl
  absent-count (r ∷ rows) h = ground (arith, absent-count rows)

  count-absent :
      (rows : Store) → length (keep (has_key k s) rows) ≡ 0 → any (has_key k s) rows ≡ false
  count-absent [] h = refl
  count-absent (r ∷ rows) h = ground (arith, count-absent rows)

  absent-IsSpent : (rows : Store) → any (has_key k s) rows ≡ false → IsSpent rows
  absent-IsSpent [] h = refl
  absent-IsSpent (r ∷ rows) h = ground (arith, absent-IsSpent rows)

  -- One statement cannot spend two records of one key, since there is one only.
  pub rotate-live :
      (p : OAuthTokenSession → Bool) (rows : Store)
      → ((r : OAuthTokenSession) → p r ≡ true → is_live k s r ≡ true)
      → IsUnique rows
      → count_where p rows ≡ 1
      → IsSpent (deactivate_where p rows)
  unfolding deactivate_where count_where
  rotate-live p [] f u h = absurd (ground arith)
  rotate-live p (r ∷ rows) f u h = elim (Bool-cases (p r)) [
    | inl e ↦
        let l : is_live k s r ≡ true = f r e in
        let z : length (keep (has_key k s) rows) ≡ 0 = ground arith in
        ground (arith, deactivate-IsSpent p rows, absent-IsSpent rows, count-absent rows)
    | inr e ↦ elim (Bool-cases (has_key k s r)) [
      | inl g ↦
          let z : length (keep (has_key k s) rows) ≡ 0 = ground arith in
          let n = spent-count p rows f (absent-IsSpent rows (count-absent rows z)) in
          absurd (ground arith)
      | inr g ↦ ground (arith, rotate-live p rows f)
    ]
  ]
