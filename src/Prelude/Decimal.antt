-- ===== src/Prelude/Decimal.antt =====
-- Decimal numerals: std::to_string on non-negative numbers, and the value of a digit string.
use Prim.Native.Nat.{ℕ, zero, suc, ◌+◌, ◌-◌, ◌*◌, ◌/◌, ◌%◌, ◌≤◌, ◌<◌}
use mathlib.Core.Path.{◌≡◌, refl, ap, ◌∙◌}
use mathlib.Core.Bool.{true, false}
use mathlib.Core.Logic.{inl, inr}
use mathlib.Core.List.{[], ◌∷◌, ◌++◌}
use native.Mathlib.Omega.{arith}
use linux_internals.Prelude.Tests.{ltb, ◌==◌, if◌then◌else◌, Bool-cases}
use linux_internals.Prelude.Lists.{All, length, is_empty}
use linux_internals.Prelude.Bytes.{Text, is_digit, is_space}

-- The digits of `n` in front of `tail`, with `f` rounds of division.
to_string_loop : ℕ → ℕ → Text → Text
to_string_loop zero n tail = tail
to_string_loop (suc f) n tail =
    let more = to_string_loop f (n / 10) ((48 + n % 10) ∷ tail) in
    if ltb n 10 then (48 + n) ∷ tail else more

unfoldable pub to_string : ℕ → Text
unfolding to_string_loop
to_string n = to_string_loop (suc n) n []

unfoldable pub decimal_value : ℕ → Text → ℕ
decimal_value v [] = v
decimal_value v (c ∷ s) = decimal_value (v * 10 + (c - 48)) s

abbrev pub AllDigits : Text → Type 0
AllDigits = All (λ c. is_digit c ≡ true)

to_string_loop_value :
    (f n : ℕ) (tail : Text)
    → n < f
    → decimal_value 0 (to_string_loop f n tail) ≡ decimal_value n tail
unfolding to_string_loop decimal_value
to_string_loop_value zero n tail h = absurd (omega arith)
to_string_loop_value (suc f) n tail h = elim (Bool-cases (ltb n 10)) [
  | inl small ↦ rw small (same n (0 * 10 + (48 + n - 48)) (omega arith))
  | inr large ↦ rw large (
      to_string_loop_value f (n / 10) ((48 + n % 10) ∷ tail) (ground arith)
      ∙ same n (n / 10 * 10 + (48 + n % 10 - 48)) (omega arith))
]
  where
    same : (a b : ℕ) → b ≡ a → decimal_value b tail ≡ decimal_value a tail
    same a b e = rw e

pub decimal_value-to_string : (n : ℕ) → decimal_value 0 (to_string n) ≡ n
unfolding to_string
decimal_value-to_string n = to_string_loop_value (suc n) n [] (omega arith) ∙ nil n
  where
    nil : (k : ℕ) → decimal_value k [] ≡ k
    nil k = unfold decimal_value in refl

to_string_loop-AllDigits :
    (f n : ℕ) (tail : Text) → AllDigits tail → AllDigits (to_string_loop f n tail)
unfolding to_string_loop is_digit
to_string_loop-AllDigits zero n tail h = h
to_string_loop-AllDigits (suc f) n tail h = elim (Bool-cases (ltb n 10)) [
  | inl small ↦ rw small (ground arith, h)
  | inr large ↦
      rw large (to_string_loop-AllDigits f (n / 10) ((48 + n % 10) ∷ tail) (ground arith, h))
]

pub to_string-AllDigits : (n : ℕ) → AllDigits (to_string n)
unfolding to_string
to_string-AllDigits n = to_string_loop-AllDigits (suc n) n [] tt

length-to_string_loop : (f n : ℕ) (tail : Text) → length tail ≤ length (to_string_loop f n tail)
unfolding to_string_loop
length-to_string_loop zero n tail = omega arith
length-to_string_loop (suc f) n tail =
    ground (arith, length-to_string_loop f (n / 10) ((48 + n % 10) ∷ tail))

pub length-to_string : (n : ℕ) → 0 < length (to_string n)
unfolding to_string to_string_loop
length-to_string n = ground (arith, length-to_string_loop n (n / 10) ((48 + n % 10) ∷ []))

pub decimal_value_mono : (v : ℕ) (s : Text) → v ≤ decimal_value v s
unfolding decimal_value
decimal_value_mono v [] = omega arith
decimal_value_mono v (c ∷ s) = omega (arith, decimal_value_mono (v * 10 + (c - 48)) s)

-- The digits at the front.
unfoldable pub digits : Text → Text
digits [] = []
digits (c ∷ s) = let rest = digits s in if is_digit c then c ∷ rest else []

pub digits-append : (w s : Text) → AllDigits w → digits s ≡ [] → digits (w ++ s) ≡ w
unfolding digits
digits-append [] s h e = e
digits-append (c ∷ w) s h e = rw h.0 (ap (◌∷◌ c) (digits-append w s h.1 e))

pub to_string_nonempty : (n : ℕ) → is_empty (to_string n) ≡ false
to_string_nonempty n = go (to_string n) (length-to_string n)
  where
    go : (s : Text) → 0 < length s → is_empty s ≡ false
    go [] h = absurd (omega (arith, h))
    go (c ∷ s) h = refl

pub digit_solid : (c : ℕ) → is_digit c ≡ true → is_space c ≡ false
unfolding is_digit is_space
digit_solid c h = ground (arith, h)

pub digit_no_sign : (c : ℕ) → is_digit c ≡ true → (c == 45) ≡ false
unfolding is_digit
digit_no_sign c h = ground (arith, h)
