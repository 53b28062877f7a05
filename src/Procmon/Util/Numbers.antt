-- ===== src/Procmon/Util/Numbers.antt =====
-- to_ll of procmon/src/util.cpp on decimal numerals.
use linux_internals.Prelude.{
  ℕ, ◌^◌, ◌≡◌, refl, ap, inl, inr, false, ◌&&◌, none, some, [], ◌∷◌, ◌++◌, arith, ltb, leb,
  if◌then◌else◌, Bool-cases, to_string, decimal_value, AllDigits, decimal_value-to_string,
  to_string-AllDigits, digits, digits-append, to_string_nonempty, digit_solid, digit_no_sign,
  is_empty, All-mono, pos, negative, Text, is_digit, is_space,
}
use linux_internals.Procmon.Util.{trim_end, trim, from_digits, from_negated, from_chars, to_ll}
use linux_internals.Procmon.Util.Words.{Blank, Solid, skip_spaces-append, skip_spaces_solid}

trim_end-append : (w s : Text) → Solid w → trim_end (w ++ s) ≡ w ++ trim_end s
unfolding trim_end
trim_end-append [] s h = refl
trim_end-append (c ∷ w) s h = rw h.0 (ap (◌∷◌ c) (trim_end-append w s h.1))

digits-trim_end : (s : Text) → digits s ≡ [] → digits (trim_end s) ≡ []
unfolding digits trim_end
digits-trim_end [] e = refl
digits-trim_end (c ∷ s) e = elim (Bool-cases (is_digit c)) [
  | inl d ↦ absurd (ground (arith, e, d))
  | inr d ↦ elim (Bool-cases (is_space c && is_empty (trim_end s))) [
    | inl b ↦ rw b
    | inr b ↦ rw (b, d)
  ]
]

-- trim, between the spaces in front and those at the end of `unit`.
trim-number :
    (g w unit : Text)
    → Blank g
    → Solid w
    → is_empty w ≡ false
    → trim (g ++ (w ++ unit)) ≡ w ++ trim_end unit
unfolding trim
trim-number g [] unit hg hw h = absurd (ground (arith, h))
trim-number g (c ∷ w) unit hg hw h =
    rw (skip_spaces-append g (c ∷ (w ++ unit)) hg, skip_spaces_solid c (w ++ unit) hw.0)
      (trim_end-append (c ∷ w) unit hw)

from_digits_value :
    (w : Text)
    → is_empty w ≡ false
    → from_digits w ≡ (let n = decimal_value 0 w in if ltb n (2 ^ 63) then some (pos n) else none)
unfolding from_digits
from_digits_value [] h = cc
from_digits_value (c ∷ w) h = refl

from_negated_value :
    (w : Text)
    → is_empty w ≡ false
    → from_negated w
      ≡ (let n = decimal_value 0 w in if leb n (2 ^ 63) then some (negative n) else none)
unfolding from_negated
from_negated_value [] h = cc
from_negated_value (c ∷ w) h = refl

from_chars_unsigned :
    (w s : Text)
    → AllDigits w
    → is_empty w ≡ false
    → digits s ≡ []
    → from_chars (w ++ s) ≡ from_digits w
unfolding from_chars
from_chars_unsigned [] s h n e = cc
from_chars_unsigned (c ∷ w) s h n e = rw (digit_no_sign c h.0, digits-append (c ∷ w) s h e)

-- to_ll reads a number that follows spaces, and is followed by anything but a digit, such as
-- " kB"; it returns nothing exactly when the number is past the largest long long.
pub to_ll-to_string :
    (g : Text) (n : ℕ) (unit : Text)
    → Blank g
    → digits unit ≡ []
    → to_ll (g ++ (to_string n ++ unit)) ≡ (if ltb n (2 ^ 63) then some (pos n) else none)
unfolding to_ll
to_ll-to_string g n unit hg hu =
    let d = to_string-AllDigits n in
    let full = to_string_nonempty n in
    rw (
      trim-number g (to_string n) unit hg (All-mono _ _ (to_string n) digit_solid d) full,
      from_chars_unsigned (to_string n) (trim_end unit) d full (digits-trim_end unit hu),
      from_digits_value (to_string n) full,
      decimal_value-to_string n,
    )

-- The same with a minus sign: nothing exactly when the number is past the smallest long long.
pub to_ll_negated-to_string :
    (g : Text) (n : ℕ) (unit : Text)
    → Blank g
    → digits unit ≡ []
    → to_ll (g ++ (45 ∷ (to_string n ++ unit)))
      ≡ (if leb n (2 ^ 63) then some (negative n) else none)
unfolding to_ll from_chars
to_ll_negated-to_string g n unit hg hu =
    let d = to_string-AllDigits n in
    let full = to_string_nonempty n in
    rw (
      trim-number g (45 ∷ to_string n) unit hg
          (minus_solid, All-mono _ _ (to_string n) digit_solid d) refl,
      digits-append (to_string n) (trim_end unit) d (digits-trim_end unit hu),
      from_negated_value (to_string n) full,
      decimal_value-to_string n,
    )
  where
    minus_solid : is_space 45 ≡ false
    minus_solid = unfold is_space in refl
