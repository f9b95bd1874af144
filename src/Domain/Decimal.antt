-- ===== src/Domain/Decimal.antt =====
-- The sums of Python's `decimal` at its default precision, of 28 significant digits.
use ogaforeman.Base.{
  ℕ, zero, suc, ◌+◌, ◌*◌, ◌^◌, ◌<◌, ◌≡◌, refl, true, false, ltb, arith, if◌then◌else◌,
}
use Prim.Native.Nat.{◌/◌, ◌%◌}
use ogaforeman.Base.Int.{ℤ, pos, negsuc, sub_ℕ}

-- The numbers below it have at most 28 digits.
abbrev pub precision_bound : ℕ
precision_bound = 10 ^ 28

-- The place of the last digit that is kept, the first power of ten from `unit` on that leaves 28
-- digits.
unfoldable pub last_place : ℕ → ℕ → ℕ → ℕ
last_place zero unit n = unit
last_place (suc fuel) unit n =
    let rest = last_place fuel (unit * 10) n in
    if ltb n (unit * precision_bound) then unit else rest

-- `ROUND_HALF_EVEN` to a multiple of `unit`
unfoldable pub half_even : ℕ → ℕ → ℕ
half_even n unit =
    let kept = n / unit in
    let rest = n % unit in
    (if ltb (2 * rest) unit
      then kept
      else if ltb unit (2 * rest)
      then kept + 1
      else kept + kept % 2)
    * unit

-- The nearest number of 28 digits.
unfoldable pub rounded : ℕ → ℕ
unfolding last_place half_even
rounded n = elim (ltb n precision_bound) [ true ↦ n | false ↦ half_even n (last_place n 1 n) ]

unfoldable pub rounded_ℤ : ℤ → ℤ
unfolding rounded
rounded_ℤ (pos n) = pos (rounded n)
rounded_ℤ (negsuc n) = sub_ℕ 0 (rounded (suc n))

-- A number of at most 28 digits is kept.
pub rounded-exact : (n : ℕ) → n < precision_bound → rounded n ≡ n
unfolding rounded
rounded-exact n small =
    let fits : ltb n precision_bound ≡ true = ground (arith, small) in rw (rounded, fits) refl

pub rounded_ℤ-exact :
    (z : ℤ) (a b : ℕ) → z ≡ sub_ℕ a b → a < precision_bound → b < precision_bound → rounded_ℤ z ≡ z
unfolding rounded_ℤ
rounded_ℤ-exact (pos n) a b e small_a small_b =
    let small : n < precision_bound = ground (arith, e, small_a, small_b) in
    rw (rounded-exact n small) refl
rounded_ℤ-exact (negsuc n) a b e small_a small_b =
    let small : suc n < precision_bound = ground (arith, e, small_a, small_b) in
    rw (rounded-exact (suc n) small) (ground arith)
