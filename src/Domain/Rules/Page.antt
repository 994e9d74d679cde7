-- ===== src/Domain/Rules/Page.antt =====
-- domain/page.go and usecase/pagination.go: paging of every list.
use hamburger_evaluation.Base.{
  ℕ, ◌-◌, ◌*◌, ◌%◌, ◌^◌, ◌≤◌, ◌<◌, ◌≡◌, ltb, if◌then◌else◌, arith, ℤ, pos, min,
}
use hamburger_evaluation.Base.Int.{ltb_ℤ, pos_part}

abbrev pub default_per_page : ℕ
default_per_page = 20

abbrev pub max_per_page : ℕ
max_per_page = 100

abbrev pub max_int32 : ℕ
max_int32 = 2147483647

-- Both numbers are 1 or more afterwards, so they leave the signed type.
unfoldable pub normalize_page : ℤ → ℤ → ℕ × ℕ
normalize_page page per_page =
    let page' = if ltb_ℤ page (pos 1) then 1 else pos_part page in
    let per' = if ltb_ℤ per_page (pos 1) then default_per_page else pos_part per_page in
    (page', if ltb max_per_page per' then max_per_page else per')

-- int64 and int32 arithmetic of values that are not negative.
abbrev pub int64 : ℕ → ℕ
int64 n = n % 2 ^ 64

abbrev pub int32 : ℕ → ℕ
int32 n = n % 2 ^ 32

unfoldable pub clamp_page : ℤ → ℤ → ℕ × ℕ
unfolding normalize_page
clamp_page page per_page =
    let (page', per') = normalize_page page per_page in
    let page'' = if ltb max_int32 page' then max_int32 else page' in
    let off = min (int64 (int64 (page'' - 1) * int64 per')) max_int32 in (int32 per', int32 off)

pub normalize_page_bounds :
    (page per_page : ℤ)
    → let (p, n) = normalize_page page per_page in (1 ≤ p) × (1 ≤ n) × (n ≤ max_per_page)
unfolding normalize_page
normalize_page_bounds page per_page = ground arith

no_wrap : (q n : ℕ) → q < max_int32 → n ≤ max_per_page → int64 (int64 q * int64 n) ≡ q * n
no_wrap q n h k =
    let small : q * n ≤ 214748364700 = grind arith in
    let left : int64 q ≡ q = omega arith in
    let right : int64 n ≡ n = omega arith in rw (left, right) (omega arith)

-- No conversion or product of `clampPage` wraps: the limit is the normalised page size, and the
-- offset skips the pages before the requested one, which counts as page 2147483647 where it is
-- above it, as far as int32 reaches.
clamp_page_exact :
    (page per_page : ℤ)
    → let (p, n) = normalize_page page per_page in
      clamp_page page per_page ≡ (n, min ((min p max_int32 - 1) * n) max_int32)
unfolding clamp_page
clamp_page_exact page per_page =
    let (low, one, high) = normalize_page_bounds page per_page in
    let (p, n) = normalize_page page per_page in
    let q : ℕ = (if ltb max_int32 p then max_int32 else p) - 1 in ground (arith, no_wrap q n)
