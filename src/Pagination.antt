-- ===== src/Pagination.antt =====
-- src/core/dto/pagination.dto.ts.
pub mod Pages
use swafri_backend.Common.{ℕ, ◌+◌, ◌-◌, ◌*◌, ◌/◌, Bool, List, ltb, take, skip}

-- `page` counts from 1 and `limit` is positive, as the decorators of the class demand.
pub record Pagination : Type 0 where
  pub page : ℕ
  pub limit : ℕ

unfoldable pub offset : Pagination → ℕ
offset p = (p.page - 1) * p.limit

pub record PaginatedResponse {ℓ} (A : Type ℓ) : Type ℓ where
  pub data_of_page : List A
  pub total : ℕ
  pub page : ℕ
  pub limit : ℕ
  pub total_pages : ℕ
  pub has_next : Bool
  pub has_prev : Bool

-- `Math.ceil(total / limit)`.
abbrev pub ceil_div : (total limit : ℕ) → ℕ
ceil_div total limit = (total + (limit - 1)) / limit

unfoldable pub of_page {ℓ} : {A : Type ℓ} → List A → (total page limit : ℕ) → PaginatedResponse A
of_page rows total page limit = record {
  data_of_page = rows;
  total = total;
  page = page;
  limit = limit;
  total_pages = ceil_div total limit;
  has_next = ltb page (ceil_div total limit);
  has_prev = ltb 1 page;
}
