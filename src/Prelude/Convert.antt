-- ===== src/Prelude/Convert.antt =====
-- std::stoi, std::stoll and std::stoul in base 10; none stands for the exception that they throw.
use Prim.Native.Nat.{ℕ, ◌-◌, ◌%◌, ◌^◌}
use mathlib.Core.Path.{◌≡◌, refl}
use mathlib.Core.Bool.{Bool, true, false}
use mathlib.Core.List.{[], ◌∷◌}
use mathlib.Core.Option.{Option, none, some}
use native.Mathlib.Omega.{arith}
use linux_internals.Prelude.Tests.{ltb, leb, ◌==◌, if◌then◌else◌}
use linux_internals.Prelude.Lists.{is_empty}
use linux_internals.Prelude.Bytes.{Text, is_digit, is_space}
use linux_internals.Prelude.Int.{ℤ, pos, negative}
use linux_internals.Prelude.Decimal.{
  to_string, decimal_value, AllDigits, decimal_value-to_string, to_string-AllDigits, digits,
  to_string_nonempty, digit_solid, digit_no_sign,
}

-- Past the spaces, whether there is a minus sign, and the value of the digits, if there are any.
-- What follows the digits is left alone.
unfoldable pub past_spaces : Text → Text
past_spaces [] = []
past_spaces (c ∷ s) = let rest = past_spaces s in if is_space c then rest else c ∷ s

unfoldable pub scan_unsigned : Bool → Text → Option (Bool × ℕ)
scan_unsigned minus [] = none
scan_unsigned minus (d ∷ ds) = some (minus, decimal_value 0 (d ∷ ds))

unfoldable pub scan_signed : Text → Option (Bool × ℕ)
scan_signed [] = none
scan_signed (c ∷ s) =
    if c == 45
    then scan_unsigned true (digits s)
    else if c == 43
    then scan_unsigned false (digits s)
    else scan_unsigned false (digits (c ∷ s))

unfoldable pub scan_number : Text → Option (Bool × ℕ)
scan_number s = scan_signed (past_spaces s)

-- Below `bound` in magnitude; -bound is in range too.
unfoldable pub in_range : ℕ → Option (Bool × ℕ) → Option ℤ
in_range bound none = none
in_range bound (some (true, n)) = if leb n bound then some (negative n) else none
in_range bound (some (false, n)) = if ltb n bound then some (pos n) else none

unfoldable pub stoi : Text → Option ℤ
stoi s = in_range (2 ^ 31) (scan_number s)

unfoldable pub stoll : Text → Option ℤ
stoll s = in_range (2 ^ 63) (scan_number s)

-- A minus sign negates modulo 2^64, as strtoul does.
unfoldable pub modulo : Option (Bool × ℕ) → Option ℕ
modulo none = none
modulo (some (true, n)) = if ltb n (2 ^ 64) then some ((2 ^ 64 - n) % 2 ^ 64) else none
modulo (some (false, n)) = if ltb n (2 ^ 64) then some n else none

unfoldable pub stoul : Text → Option ℕ
stoul s = modulo (scan_number s)

digits_only : (s : Text) → AllDigits s → digits s ≡ s
unfolding digits
digits_only [] h = refl
digits_only (c ∷ s) h = rw (h.0, digits_only s h.1)

digit_no_plus : (c : ℕ) → is_digit c ≡ true → (c == 43) ≡ false
unfolding is_digit
digit_no_plus c h = ground (arith, h)

scan_number-digits :
    (s : Text) → AllDigits s → is_empty s ≡ false → scan_number s ≡ some (false, decimal_value 0 s)
unfolding scan_number past_spaces scan_signed scan_unsigned
scan_number-digits [] h e = cc
scan_number-digits (c ∷ s) h e =
    rw (digit_solid c h.0, digit_no_sign c h.0, digit_no_plus c h.0, digits_only (c ∷ s) h)

pub scan_number-to_string : (n : ℕ) → scan_number (to_string n) ≡ some (false, n)
scan_number-to_string n = rw (
  scan_number-digits (to_string n) (to_string-AllDigits n) (to_string_nonempty n),
  decimal_value-to_string n,
)

-- std::atoi: 0 without a number; a number that does not fit an int is undefined, which is none.
unfoldable pub atoi : Text → Option ℤ
atoi s = elim (scan_number s) [ none ↦ some (pos 0) | some r ↦ in_range (2 ^ 31) (some r) ]
