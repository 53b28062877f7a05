-- ===== src/Procmon/Format/Rounding.antt =====
-- human_bytes of procmon/src/format.cpp.
use mathlib.Core.List.{append_assoc}
use native.Mathlib.Nat.{pow-suc, one-le-pow, one-mul, zero-add}
use linux_internals.Procmon.Format.{unit_name, show_size, human_bytes}
use linux_internals.Prelude.{
  ℕ, zero, suc, ◌+◌, ◌-◌, ◌*◌, ◌/◌, ◌%◌, ◌^◌, ◌≤◌, ◌<◌, ◌≡◌, refl, sym, ap, ◌∙◌, inl, inr, false,
  ◌++◌, arith, ltb, ◌==◌, ltb→lt, ltb→le, Bool-cases, to_string, length-to_string, length,
  replicate, pos, Text, codes, Double, round_half_even, below, pad_zeros, fixed, scale_units,
  of_integer_small, round_half_even_near,
}

-- What the loop makes of R / D: it divided `steps` times more.
record Scaled (R D left u : ℕ) (out : Double × ℕ) : Type 0 where
  pub steps : ℕ
  pub few : steps ≤ left
  pub result : out ≡ (record { num = R; den = D * 1024 ^ steps }, u + steps)
  pub large : 0 < steps → D * 1024 ^ steps ≤ R
  pub small : steps < left → R < 1024 * (D * 1024 ^ steps)

next_power : (D j : ℕ) → D * 1024 * 1024 ^ j ≡ D * 1024 ^ suc j
next_power D j = rw (pow-suc 1024 j) (omega arith)

same_scale :
    (R D D' u u' : ℕ)
    → D' ≡ D
    → u' ≡ u
    → Path (Double × ℕ) (record { num = R; den = D }, u) (record { num = R; den = D' }, u')
same_scale R D D' u u' e e' = rw (e, e') refl

large_step : (R D j : ℕ) → 1024 * D ≤ R → (0 < j → D * 1024 * 1024 ^ j ≤ R) → D * 1024 ^ suc j ≤ R
large_step R D zero h l = omega (arith, h)
large_step R D (suc j) h l = rw (sym (next_power D (suc j))) (l (omega arith))

no_division :
    (R D left u : ℕ)
    → (0 < left → R < 1024 * D)
    → Scaled R D left u (record { num = R; den = D }, u)
no_division R D left u h = record {
  steps = 0;
  few = omega arith;
  result = same_scale R D (D * 1) u (u + 0) (omega arith) (omega arith);
  large = λ p. absurd (omega (arith, p));
  small = λ p. omega (arith, h p);
}

one_division :
    (R D left u : ℕ) (out : Double × ℕ)
    → 1024 * D ≤ R
    → Scaled R (D * 1024) left (u + 1) out
    → Scaled R D (suc left) u out
one_division R D left u out h s = record {
  steps = suc s.steps;
  few = omega (arith, s.few);
  result = s.result ∙ same_scale R _ _ _ _ (sym (next_power D s.steps)) (omega arith);
  large = λ p. large_step R D s.steps h s.large;
  small = λ p. omega (arith, s.small (omega (arith, p)), next_power D s.steps);
}

scale_units-Scaled :
    (left R D u : ℕ) → Scaled R D left u (scale_units left (record { num = R; den = D }) u)
unfolding scale_units below
scale_units-Scaled zero R D u = no_division R D 0 u (λ p. absurd (omega (arith, p)))
scale_units-Scaled (suc left) R D u = elim (Bool-cases (ltb R (1024 * D))) [
  | inl h ↦ rw h (no_division R D (suc left) u (λ p. ltb→lt R (1024 * D) h))
  | inr h ↦ rw h (
      one_division R D left u _ (ltb→le R (1024 * D) h)
        (scale_units-Scaled left R (D * 1024) (u + 1)))
]

-- The letter of each power of 1024, from K for kibi to T for tebi.
pub data Letter : ℕ → Text → Type 0 where
  kibi : Letter 1 (codes "K")
  mebi : Letter 2 (codes "M")
  gibi : Letter 3 (codes "G")
  tebi : Letter 4 (codes "T")

unit-Letter : (u : ℕ) → 0 < u → u ≤ 4 → Letter u (unit_name u)
unfolding unit_name
unit-Letter zero p h = absurd (omega (arith, p))
unit-Letter (suc zero) p h = kibi
unit-Letter (suc (suc zero)) p h = mebi
unit-Letter (suc (suc (suc zero))) p h = gibi
unit-Letter (suc (suc (suc (suc zero)))) p h = tebi
unit-Letter (suc (suc (suc (suc (suc u))))) p h = absurd (omega (arith, h))

-- A size of n bytes as it is printed: below 1024 exactly, else in tenths of the unit chosen.
pub data Printed (n : ℕ) (text : Text) : Type 0 where
  exact : n < 1024 → text ≡ to_string n ++ codes "B" → Printed n text
  rounded :
      (unit tenths : ℕ) (letter : Text)
      → Letter unit letter
      → 1024 ^ unit ≤ n
      → (unit < 4 → n < 1024 * 1024 ^ unit)
      → 2 * (1024 ^ unit * tenths) ≤ 20 * n + 1024 ^ unit
      → 20 * n ≤ 2 * (1024 ^ unit * tenths) + 1024 ^ unit
      → text ≡ to_string (tenths / 10) ++ (codes "." ++ (to_string (tenths % 10) ++ letter))
      → Printed n text

nothing_missing : (n : ℕ) → 1 - length (to_string n) ≡ 0
nothing_missing n = omega (arith, length-to_string n)

no_padding : (n : ℕ) → pad_zeros 1 (to_string n) ≡ to_string n
unfolding pad_zeros
no_padding n = ap (λ k. replicate k 48 ++ to_string n) (nothing_missing n)

in_tenths :
    (n D : ℕ)
    → fixed 1 (record { num = n; den = D })
      ≡ to_string (round_half_even (n * 10) D / 10)
        ++ (codes "." ++ to_string (round_half_even (n * 10) D % 10))
unfolding fixed
in_tenths n D = rw (no_padding (round_half_even (n * 10) D % 10)) refl

power_pos : (u : ℕ) → 0 < 1024 ^ u
power_pos u = one-le-pow u 1024 (omega arith)

above_zero : (u : ℕ) → 0 < u → (u == 0) ≡ false
above_zero u h = ground arith

show_size_above :
    (n D u : ℕ)
    → 0 < u
    → show_size n (record { num = n; den = D }, u)
      ≡ to_string (round_half_even (n * 10) D / 10)
        ++ (codes "." ++ (to_string (round_half_even (n * 10) D % 10) ++ unit_name u))
unfolding show_size
show_size_above n D u h =
    rw (above_zero u h, in_tenths n D)
      (append_assoc (to_string (round_half_even (n * 10) D / 10))
        (codes "." ++ to_string (round_half_even (n * 10) D % 10)) (unit_name u))

show_size-Printed :
    (n u : ℕ)
    → u ≤ 4
    → (0 < u → 1024 ^ u ≤ n)
    → (u < 4 → n < 1024 * 1024 ^ u)
    → Printed n (show_size n (record { num = n; den = 1024 ^ u }, u))
unfolding show_size unit_name
show_size-Printed n zero few large small = exact (small (omega arith)) refl
show_size-Printed n (suc j) few large small =
    let bounds = round_half_even_near (n * 10) (1024 ^ suc j) (power_pos (suc j)) in
    rounded (suc j) (round_half_even (n * 10) (1024 ^ suc j)) (unit_name (suc j))
      (unit-Letter (suc j) (omega arith) few) (large (omega arith)) small (omega (arith, bounds.0))
      (omega (arith, bounds.1)) (show_size_above n (1024 ^ suc j) (suc j) (omega arith))

from_loop :
    (n steps : ℕ)
    → steps ≤ 4
    → (0 < steps → 1 * 1024 ^ steps ≤ n)
    → (steps < 4 → n < 1024 * (1 * 1024 ^ steps))
    → Printed n (show_size n (record { num = n; den = 1 * 1024 ^ steps }, 0 + steps))
from_loop n steps few large small =
    rw (one-mul (1024 ^ steps), zero-add steps)
      (show_size-Printed n steps few (λ p. omega (arith, large p)) (λ p. omega (arith, small p)))

-- Below 2^53 bytes, human_bytes prints a size under 1024 exactly, and another in tenths of the largest
-- unit up to T that is not above it, off by half a tenth at most, with that unit's letter.
pub human_bytes-Printed : (n : ℕ) → n < 2 ^ 53 → Printed n (human_bytes (pos n))
unfolding human_bytes
human_bytes-Printed n h =
    let s = scale_units-Scaled 4 n 1 0 in
    rw (of_integer_small n h, s.result) (from_loop n s.steps s.few s.large s.small)
