-- ===== src/Utils/Pagination.antt =====
-- PaginationHelper (src/common/utils/pagination.util.ts).
use native.Mathlib.Nat.{le-div_iff_mul-le, suc-mul}
use hr_saas_platform.Shared.{
  ℕ, zero, suc, ◌+◌, ◌-◌, ◌*◌, ◌/◌, ◌≤◌, ◌<◌, ltb, Bool, true, ◌≡◌, ◌↔◌, ap, Option, none, some,
  List, arith, if◌then◌else◌,
}

-- PaginationQueryDto: `page` and `perPage`.
pub record PaginationQuery : Type 0 where
  pub page : Option ℕ
  pub per_page : Option ℕ

-- `n || d`
abbrev pub or_default : Option ℕ → ℕ → ℕ
or_default none d = d
or_default (some zero) d = d
or_default (some (suc n)) d = suc n

abbrev max_of : ℕ → ℕ → ℕ
max_of a b = if ltb a b then b else a

abbrev min_of : ℕ → ℕ → ℕ
min_of a b = if ltb b a then b else a

pub record PaginationParams : Type 0 where
  pub page : ℕ
  pub per_page : ℕ
  pub offset : ℕ

unfoldable pub parse : PaginationQuery → PaginationParams
parse query =
    let page = max_of 1 (or_default query.page 1) in
    let per_page = min_of 100 (max_of 1 (or_default query.per_page 20)) in
    record { page = page; per_page = per_page; offset = (page - 1) * per_page }

pub record PaginationMeta : Type 0 where
  pub total : ℕ
  pub page : ℕ
  pub per_page : ℕ
  pub total_pages : ℕ
  pub has_next : Bool
  pub has_previous : Bool

-- `Math.ceil(total / perPage)`, for a positive `perPage`
abbrev pub ceil_div : ℕ → ℕ → ℕ
ceil_div total per_page = (total + (per_page - 1)) / per_page

unfoldable pub build_meta : ℕ → ℕ → ℕ → PaginationMeta
build_meta total page per_page =
    let total_pages = ceil_div total per_page in
    record {
      total = total;
      page = page;
      per_page = per_page;
      total_pages = total_pages;
      has_next = ltb page total_pages;
      has_previous = ltb 1 page;
    }

-- `createResult`, the data and the metadata of the parsed query
unfoldable pub create_result : {A : Type 0} → List A → ℕ → PaginationQuery → List A × PaginationMeta
unfolding parse build_meta
create_result data_rows total query =
    (data_rows, build_meta total (parse query).page (parse query).per_page)

pred-suc : (p : ℕ) → suc p - 1 ≡ p
pred-suc p = omega arith

more_pages :
    (total page per_page : ℕ)
    → 1 ≤ page
    → 1 ≤ per_page
    → (ltb page (ceil_div total per_page) ≡ true) ↔ ((page - 1) * per_page + per_page < total)
more_pages total zero _ h k = absurd (omega arith)
more_pages total (suc p) zero h k = absurd (omega arith)
more_pages total (suc p) (suc q) h k =
    let iff = le-div_iff_mul-le {k = suc q} {x = suc (suc p)} {y = total + q} (omega arith) in
    let before : (suc p - 1) * suc q ≡ p * suc q = ap (λ n. n * suc q) (pred-suc p) in
    (
      λ e. omega (arith, iff.0 (ground arith), suc-mul (suc p) (suc q), suc-mul p (suc q), before),
      λ e.
          ground
            (arith, iff.1 (omega (arith, e, suc-mul (suc p) (suc q), suc-mul p (suc q), before))),
    )

module _ (query : PaginationQuery) where
  parse_bounds :
      (1 ≤ (parse query).page) × (1 ≤ (parse query).per_page) × ((parse query).per_page ≤ 100)
  unfolding parse
  parse_bounds = (ground arith, ground arith, ground arith)

  -- Another page follows exactly if rows are left after the page that the query asks for, whose offset
  -- and size `parse` gives; a page has from 1 to 100 rows.
  pub create_result-has_next :
      {A : Type 0} (rows : List A) (total : ℕ)
      → ((create_result rows total query).1.has_next ≡ true)
        ↔ ((parse query).offset + (parse query).per_page < total)
  unfolding create_result build_meta parse
  create_result-has_next rows total = let (a, b, _) = parse_bounds in more_pages total _ _ a b
