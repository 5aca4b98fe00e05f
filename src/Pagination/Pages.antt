-- ===== src/Pagination/Pages.antt =====
-- What the flags of a response of src/core/dto/pagination.dto.ts say of the rows.
use native.Mathlib.Nat.{le-div_iff_mul-le, suc-mul}
use swafri_backend.Common.{
  ℕ, zero, suc, ◌+◌, ◌-◌, ◌*◌, ◌<◌, ◌≡◌, sym, subst, ◌↔◌, true, List, [], ◌∷◌, length, take, skip,
  arith,
}
use swafri_backend.Pagination.{offset, of_page, ceil_div}

pub length-take-skip {ℓ} :
    {A : Type ℓ} (n k : ℕ) (xs : List A)
    → 0 < n
    → (0 < length (take n (skip k xs))) ↔ (k < length xs)
length-take-skip zero k xs h = absurd (omega arith)
length-take-skip (suc n) zero [] h = ((λ b. b), (λ b. b))
length-take-skip (suc n) zero (x ∷ xs) h = ((λ _. omega arith), (λ _. omega arith))
length-take-skip (suc n) (suc k) [] h =
    ((λ b. absurd (omega (arith, b))), (λ b. absurd (omega (arith, b))))
length-take-skip (suc n) (suc k) (x ∷ xs) h =
    let rest = length-take-skip (suc n) k xs h in
    ((λ b. omega (arith, rest.0 b)), (λ b. rest.1 (omega (arith, b))))

ceil_lem :
    (page total limit : ℕ) → 0 < limit → (page < ceil_div total limit) ↔ (page * limit < total)
ceil_lem page total limit positive =
    let law = le-div_iff_mul-le {k = limit} {x = suc page} {y = total + (limit - 1)} positive in
    (
      (λ b. omega (arith, law.0 (omega (arith, b)), suc-mul page limit)),
      (λ b. omega (arith, law.1 (omega (arith, b, suc-mul page limit)))),
    )

-- The flag for a next page is set exactly if rows are left beyond the offset of the next page, for pages
-- that count from 1 and a positive limit.
pub has_next-offset {ℓ} :
    {A : Type ℓ} (rows : List A) (total page limit : ℕ)
    → 0 < limit
    → ((of_page rows total page limit).has_next ≡ true)
      ↔ (offset (record { page = page + 1; limit = limit }) < total)
unfolding of_page offset
has_next-offset rows total page limit positive =
    let law = ceil_lem page total limit positive in
    (
      (λ b. subst (λ n. n * limit < total) (same) (law.0 (ground arith))),
      (λ b. ground (arith, law.1 (subst (λ n. n * limit < total) (sym same) b))),
    )
  where
    same : page ≡ page + 1 - 1
    same = omega arith
