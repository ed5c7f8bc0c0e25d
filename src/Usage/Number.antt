-- ===== src/Usage/Number.antt =====
-- pkg/usage/number.go: unsigned 128-bit integers over two uint64, with carries as math/bits has them.
use sandboxer.Prelude.{
  ℕ, ◌+◌, ◌-◌, ◌*◌, ◌/◌, ◌%◌, ◌^◌, ◌<◌, ◌≤◌, ◌≡◌, Option, none, some, ltb, leb, ◌==◌, if◌then◌else◌,
  arith, inl, inr, lt_or_le, zero, suc,
}

pub record Uint128 : Type 0 where
  pub hi : ℕ
  pub lo : ℕ

-- Both halves are uint64.
abbrev pub IsUint128 : Uint128 → Type 0
IsUint128 a = (a.hi < 2 ^ 64) × (a.lo < 2 ^ 64)

abbrev pub value : Uint128 → ℕ
value a = a.hi * 2 ^ 64 + a.lo

-- Uint128.Add; none is ErrOverflow.
unfoldable pub add : Uint128 → Uint128 → Option Uint128
add a b =
    let low = a.lo + b.lo in
    let high = a.hi + b.hi + low / 2 ^ 64 in
    if leb (2 ^ 64) high then none else some (record { hi = high; lo = low % 2 ^ 64 })

-- Uint128.Sub; none is the error of a decrease.
unfoldable pub sub : Uint128 → Uint128 → Option Uint128
sub a b =
    let borrow = if ltb a.lo b.lo then 1 else 0 in
    if ltb a.hi (b.hi + borrow)
    then none
    else some (record { hi = a.hi - b.hi - borrow; lo = (a.lo + 2 ^ 64 - b.lo) % 2 ^ 64 })

unfoldable pub product : ℕ → ℕ → Uint128
product a b = record { hi = a * b / 2 ^ 64; lo = a * b % 2 ^ 64 }

-- Uint128.div by a positive divisor: the quotient and the remainder.
unfoldable pub div : Uint128 → ℕ → Uint128 × ℕ
div a d = let rest = a.hi % d * 2 ^ 64 + a.lo in (record { hi = a.hi / d; lo = rest / d }, rest % d)

-- Average: none is false.
unfoldable pub average : Uint128 → ℕ → Option ℕ
average area covered =
    let q = (div area covered).0 in
    if covered == 0 then none else if q.hi == 0 then some q.lo else none

unfoldable pub add64 : ℕ → ℕ → Option ℕ
add64 a b = if leb (2 ^ 64) (a + b) then none else some (a + b)

pub add-value :
    (a b r : Uint128)
    → IsUint128 a
    → IsUint128 b
    → add a b ≡ some r
    → (value r ≡ value a + value b) × IsUint128 r
unfolding add
add-value a b r u v e = ground arith

pub add-none :
    (a b : Uint128) → IsUint128 a → IsUint128 b → add a b ≡ none → 2 ^ 128 ≤ value a + value b
unfolding add
add-none a b u v e = ground arith

mul_le : (a b c : ℕ) → a ≤ b → a * c ≤ b * c
mul_le a b zero h = omega arith
mul_le a b (suc c) h = omega (arith, mul_le a b c h)

pub product-value :
    (a b : ℕ)
    → a < 2 ^ 64
    → b < 2 ^ 64
    → (value (product a b) ≡ a * b) × (a * b < 2 ^ 128) × IsUint128 (product a b)
unfolding product
product-value a b u v = ground (arith, mul_le a (2 ^ 64 - 1) b (omega arith))

pub div-value :
    (a : Uint128) (d : ℕ)
    → 0 < d
    → (value (div a d).0 * d + (div a d).1 ≡ value a) × ((div a d).1 < d)
unfolding div
div-value a d h = ground arith

pub div-IsUint128 : (a : Uint128) (d : ℕ) → IsUint128 a → 0 < d → IsUint128 (div a d).0
unfolding div
div-IsUint128 a d u h =
    let q = (a.hi % d * 2 ^ 64 + a.lo) / d in
    elim (lt_or_le q (2 ^ 64)) [
      | inl fits ↦ ground arith
      | inr big ↦ absurd (ground (arith, mul_le (2 ^ 64) q d big))
    ]
