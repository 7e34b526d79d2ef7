-- ===== src/User/Pages.antt =====
-- internal/user/service.go, `List`: the numbers of a page, and its offset.
use native.Mathlib.Omega.{div_any}
use native.Mathlib.Nat.{mod-lt, mul-le-mul_right, mul-le-mul}
use golang_backend.Base.{
  ℕ, suc, ◌+◌, ◌-◌, ◌*◌, ◌/◌, ◌%◌, ◌^◌, ◌≤◌, ◌<◌, ◌≡◌, ap, false, ltb, leb, arith, ◌⊎◌, inl, inr,
  Bool-cases, some, ℤ, pos, negsuc,
}
use golang_backend.User.Service.{offset_bits, offset_too_large, valid_page, pagination}

rounded_up :
    (total limit : ℕ)
    → 1 ≤ limit
    → (total ≤ (total + limit - 1) / limit * limit)
      × ((total + limit - 1) / limit * limit < total + limit)
rounded_up total limit h =
    let x = total + limit - 1 in
    let whole = div_any x limit in let below = mod-lt x h in (omega arith, omega arith)

behind_page :
    (page pages limit total : ℕ)
    → total ≤ pages * limit
    → pages * limit < total + limit
    → ltb page pages ≡ ltb (page * limit) total
behind_page page pages limit total h k = ground (
  arith,
  mul-le-mul_right {m = suc page} {n = pages} limit,
  mul-le-mul_right {m = pages} {n = page} limit,
)

-- The pages hold all the items, and one page less does not; there is a next page exactly where items
-- lie behind this one.
pub pagination-pages :
    (page limit total : ℕ)
    → 1 ≤ limit
    → let p = pagination page limit total in
      (total ≤ p.total_pages * limit)
      × (p.total_pages * limit < total + limit)
      × (p.has_next_page ≡ ltb (page * limit) total)
unfolding pagination
pagination-pages page limit total h =
    let (all_held, none_over) = rounded_up total limit h in
    (
      all_held,
      none_over,
      behind_page page ((total + limit - 1) / limit) limit total all_held none_over,
    )

small_product : (x : ℕ) → x ≤ 7205759403792793600 → x % 18446744073709551616 ≡ x
small_product x h = omega arith

exact_offset :
    (page limit : ℕ) → page ≤ 2 ^ 56 → limit ≤ 100 → offset_bits page limit ≡ (page - 1) * limit
unfolding offset_bits
exact_offset page limit h k =
    small_product ((page - 1) * limit)
      (mul-le-mul {n₁ = page - 1} {m₁ = limit} {n₂ = 2 ^ 56} {m₂ = 100} (omega arith) k)

within_int32 :
    (page limit : ℕ)
    → page ≤ 2 ^ 56
    → limit ≤ 100
    → offset_too_large page limit ≡ false
    → (page - 1) * limit ≤ 2147483647
unfolding offset_too_large
within_int32 page limit h k passed =
    let product =
      mul-le-mul {n₁ = page - 1} {m₁ = limit} {n₂ = 2 ^ 56} {m₂ = 100} (omega arith) k in
    ground (arith, exact_offset page limit h k)

near_or_far :
    (page limit : ℕ)
    → limit ≤ 100
    → offset_too_large page limit ≡ false
    → (2 ^ 56 < page)
      ⊎ ((offset_bits page limit ≡ (page - 1) * limit) × ((page - 1) * limit ≤ 2147483647))
near_or_far page limit k passed = elim (Bool-cases (leb page (2 ^ 56))) [
  | inl near ↦ inr (
    exact_offset page limit (ground (arith, near)) k,
    within_int32 page limit (ground (arith, near)) k passed,
  )
  | inr far ↦ inl (ground (arith, far))
]

-- A page that passes the test is at least the first, and holds from 1 to 100 rows. It is also one behind
-- page 2 ^ 56, or its offset is the number of the rows before it, and fits an int32.
pub valid_page-offset :
    (page limit : ℤ) {p l : ℕ}
    → valid_page page limit ≡ some (p, l)
    → (page ≡ pos p)
      × (limit ≡ pos l)
      × (1 ≤ p)
      × (1 ≤ l)
      × (l ≤ 100)
      × ((2 ^ 56 < p) ⊎ ((offset_bits p l ≡ (p - 1) * l) × ((p - 1) * l ≤ 2147483647)))
unfolding valid_page
valid_page-offset (pos page) (pos limit) {p} {l} h = (
  ap pos (ground arith),
  ap pos (ground arith),
  ground arith,
  ground arith,
  ground arith,
  near_or_far p l (ground arith) (ground arith),
)
valid_page-offset (pos page) (negsuc limit) h = absurd (cc h)
valid_page-offset (negsuc page) limit h = absurd (cc h)
