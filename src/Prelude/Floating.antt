-- ===== src/Prelude/Floating.antt =====
-- Doubles that are not negative, as fractions whose denominator is a power of two; what the programs
-- compute with is far from the limits of the exponent. Integers and quotients are rounded to 53 bits,
-- ties to even, and printf rounds the exact value to decimals in the same way.
use Prim.Native.Nat.{ℕ, zero, suc, ◌+◌, ◌-◌, ◌*◌, ◌/◌, ◌%◌, ◌^◌, ◌≤◌, ◌<◌}
use mathlib.Core.Path.{◌≡◌, refl, ap}
use mathlib.Core.Bool.{Bool}
use mathlib.Core.Logic.{◌⊎◌, inl, inr}
use mathlib.Core.List.{◌++◌}
use native.Mathlib.Omega.{arith}
use native.Mathlib.Nat.{div-add-mod, mod-lt}
use linux_internals.Prelude.Tests.{ltb, if◌then◌else◌, lt→ltb}
use linux_internals.Prelude.Lists.{length, replicate}
use linux_internals.Prelude.Bytes.{Text, codes}
use linux_internals.Prelude.Decimal.{to_string}

pub record Double : Type 0 where
  pub num : ℕ
  pub den : ℕ

-- The integer nearest to a / b, the even one of two.
unfoldable pub round_half_even : ℕ → ℕ → ℕ
round_half_even a b =
    let q = a / b in
    let twice = 2 * (a % b) in if ltb twice b then q else if ltb b twice then q + 1 else q + q % 2

-- By how many bits b is to be shifted so that a / b has 53 bits at most.
unfoldable pub shift_down : ℕ → ℕ → ℕ → ℕ
shift_down zero a b = 0
shift_down (suc f) a b =
    let rest = shift_down f a (2 * b) in if ltb a (2 ^ 53 * b) then 0 else suc rest

-- By how many bits a is to be shifted so that a / b has 53 bits at least.
unfoldable pub shift_up : ℕ → ℕ → ℕ → ℕ
shift_up zero a b = 0
shift_up (suc f) a b = let rest = shift_up f (2 * a) b in if ltb a (2 ^ 52 * b) then suc rest else 0

-- static_cast<double> of an integer below 2^64.
unfoldable pub of_integer : ℕ → Double
of_integer n =
    let d = shift_down 12 n 1 in record { num = round_half_even n (2 ^ d) * 2 ^ d; den = 1 }

-- The double nearest to a / b, if that is 0 or between 2^-200 and 2^116.
unfoldable pub quotient : ℕ → ℕ → Double
quotient a b =
    let up = shift_up 256 a b in
    let down = shift_down 64 a b in
    record { num = round_half_even (a * 2 ^ up) (b * 2 ^ down) * 2 ^ down; den = 2 ^ up }

unfoldable pub divide : Double → Double → Double
divide x y = quotient (x.num * y.den) (x.den * y.num)

unfoldable pub multiply : Double → Double → Double
multiply x y = quotient (x.num * y.num) (x.den * y.den)

-- x < n.
unfoldable pub below : Double → ℕ → Bool
below x n = ltb x.num (n * x.den)

-- The cast to an integer, towards zero.
unfoldable pub truncate : Double → ℕ
truncate x = x.num / x.den

unfoldable pub pad_zeros : ℕ → Text → Text
pad_zeros width s = replicate (width - length s) 48 ++ s

-- "%.<places>f", with a place at least.
unfoldable pub fixed : ℕ → Double → Text
fixed places x =
    let n = round_half_even (x.num * 10 ^ places) x.den in
    to_string (n / 10 ^ places) ++ (codes "." ++ pad_zeros places (to_string (n % 10 ^ places)))

-- The loop of both human_bytes functions: at most `left` times, while value >= 1024.0. Dividing by 1024
-- is exact.
unfoldable pub scale_units : ℕ → Double → ℕ → Double × ℕ
scale_units zero value unit = (value, unit)
scale_units (suc left) value unit =
    let rest = scale_units left (record value { den = value.den * 1024 }) (unit + 1) in
    if below value 1024 then (value, unit) else rest

shift_down_small : (f n : ℕ) → n < 2 ^ 53 → shift_down f n 1 ≡ 0
unfolding shift_down
shift_down_small zero n h = refl
shift_down_small (suc f) n h = rw (lt→ltb n (2 ^ 53) h) refl

round_half_even_one : (n : ℕ) → round_half_even n 1 ≡ n
unfolding round_half_even
round_half_even_one n = ground arith

-- Integers of 53 bits are doubles.
pub of_integer_small : (n : ℕ) → n < 2 ^ 53 → of_integer n ≡ record { num = n; den = 1 }
unfolding of_integer
of_integer_small n h =
    rw (shift_down_small 12 n h, round_half_even_one n)
      (ap (λ m. record { num = m; den = 1 }) (omega arith))

rounded_cases :
    (a b : ℕ)
    → ((round_half_even a b ≡ a / b) × (2 * (a % b) ≤ b))
      ⊎ ((round_half_even a b ≡ a / b + 1) × (b ≤ 2 * (a % b)))
unfolding round_half_even
rounded_cases a b = ground arith

-- The rounded quotient is off by a half at most.
pub round_half_even_near :
    (a b : ℕ)
    → 0 < b
    → (2 * (b * round_half_even a b) ≤ 2 * a + b) × (2 * a ≤ 2 * (b * round_half_even a b) + b)
round_half_even_near a b p = elim (rounded_cases a b) [
  | inl (e, h) ↦
      rw e (
        omega (arith, h, div-add-mod a b, mod-lt a p),
        omega (arith, h, div-add-mod a b, mod-lt a p),
      )
  | inr (e, h) ↦
      rw e (
        omega (arith, h, div-add-mod a b, mod-lt a p),
        omega (arith, h, div-add-mod a b, mod-lt a p),
      )
]
