-- ===== src/Procmon/Format/Addresses.antt =====
-- The addresses that hex_address of procmon/src/format.cpp prints, read as read_maps reads them.
use native.Mathlib.Nat.{pow-suc}
use linux_internals.Prelude.{
  ℕ, zero, suc, ◌+◌, ◌-◌, ◌*◌, ◌/◌, ◌%◌, ◌^◌, ◌<◌, ◌≡◌, refl, ap, ◌∙◌, inl, inr, false, [], ◌∷◌,
  ◌++◌, arith, ltb, ◌==◌, ltb→lt, lt→ltb, Bool-cases, length, replicate, All, All-append, Text,
  is_digit, is_space, pad_zeros,
}
use linux_internals.Procmon.Util.{skip_spaces}
use linux_internals.Procmon.Process.Maps.{
  digit_value, strtoull_digits, past_0x, strtoull_unsigned, strtoull_signed, strtoull,
}
use linux_internals.Procmon.Format.{hex_digit, hex_digits, hex_address}

abbrev IsHex : ℕ → Type 0
IsHex c = digit_value c < 16

digit_value-hex_digit : (d : ℕ) → d < 16 → digit_value (hex_digit d) ≡ d
unfolding digit_value hex_digit is_digit
digit_value-hex_digit d h = ground (arith, h)

hex_digit-IsHex : (d : ℕ) → d < 16 → IsHex (hex_digit d)
hex_digit-IsHex d h = rw (digit_value-hex_digit d h) h

take_digit :
    (v d : ℕ) (s : Text)
    → d < 16
    → strtoull_digits 16 v (hex_digit d ∷ s) ≡ strtoull_digits 16 (v * 16 + d) s
unfolding strtoull_digits
take_digit v d s h = rw (digit_value-hex_digit d h, lt→ltb d 16 h) refl

strtoull_digits-hex_digits :
    (f n : ℕ) (s : Text)
    → n < 16 ^ f
    → strtoull_digits 16 0 (hex_digits f n s) ≡ strtoull_digits 16 n s
unfolding hex_digits
strtoull_digits-hex_digits zero n s h = ap (λ m. strtoull_digits 16 m s) (omega (arith, h))
strtoull_digits-hex_digits (suc f) n s h = elim (Bool-cases (ltb n 16)) [
  | inl small ↦
      rw small
        (take_digit 0 n s (ltb→lt n 16 small) ∙ ap (λ m. strtoull_digits 16 m s) (omega arith))
  | inr large ↦ rw large (
      strtoull_digits-hex_digits f (n / 16) (hex_digit (n % 16) ∷ s)
        (omega (arith, h, pow-suc 16 f))
      ∙ take_digit (n / 16) (n % 16) s (omega arith)
      ∙ ap (λ m. strtoull_digits 16 m s) (omega arith))
]

leading_zeros :
    (k : ℕ) (s : Text) → strtoull_digits 16 0 (replicate k 48 ++ s) ≡ strtoull_digits 16 0 s
unfolding strtoull_digits digit_value is_digit
leading_zeros zero s = refl
leading_zeros (suc k) s = leading_zeros k s

hex_digits-AllHex : (f n : ℕ) (s : Text) → All IsHex s → All IsHex (hex_digits f n s)
unfolding hex_digits
hex_digits-AllHex zero n s h = h
hex_digits-AllHex (suc f) n s h = elim (Bool-cases (ltb n 16)) [
  | inl small ↦ rw small (hex_digit-IsHex n (ltb→lt n 16 small), h)
  | inr large ↦ rw large (
      hex_digits-AllHex f (n / 16) (hex_digit (n % 16) ∷ s)
        (hex_digit-IsHex (n % 16) (omega arith), h))
]

zeros-AllHex : (k : ℕ) → All IsHex (replicate k 48)
unfolding digit_value is_digit
zeros-AllHex zero = tt
zeros-AllHex (suc k) = (omega arith, zeros-AllHex k)

solid : (c : ℕ) → IsHex c → is_space c ≡ false
unfolding digit_value is_digit is_space
solid c h = ground (arith, h)

no_minus : (c : ℕ) → IsHex c → (c == 45) ≡ false
unfolding digit_value is_digit
no_minus c h = ground (arith, h)

no_plus : (c : ℕ) → IsHex c → (c == 43) ≡ false
unfolding digit_value is_digit
no_plus c h = ground (arith, h)

past_0x-AllHex : (s : Text) → All IsHex s → past_0x 16 s ≡ s
unfolding past_0x digit_value is_digit
past_0x-AllHex [] h = refl
past_0x-AllHex (c ∷ []) h = refl
past_0x-AllHex (c ∷ d ∷ s) h = ground (arith, h.1.0)

strtoull-AllHex :
    (s : Text)
    → All IsHex s
    → strtoull_digits 16 0 s < 2 ^ 64
    → strtoull s 16 ≡ strtoull_digits 16 0 s
unfolding strtoull strtoull_signed strtoull_unsigned skip_spaces strtoull_digits
strtoull-AllHex [] h b = refl
strtoull-AllHex (c ∷ s) h b =
    rw (solid c h.0, no_minus c h.0, no_plus c h.0, past_0x-AllHex (c ∷ s) h, lt→ltb _ (2 ^ 64) b)
      refl

printed_value : (n : ℕ) → n < 2 ^ 64 → strtoull_digits 16 0 (hex_address n) ≡ n
unfolding hex_address pad_zeros strtoull_digits
printed_value n h =
    leading_zeros (12 - length (hex_digits 16 n [])) (hex_digits 16 n [])
    ∙ strtoull_digits-hex_digits 16 n [] h

hex_address-AllHex : (n : ℕ) → All IsHex (hex_address n)
unfolding hex_address pad_zeros
hex_address-AllHex n =
    let missing = 12 - length (hex_digits 16 n []) in
    All-append IsHex (replicate missing 48) (hex_digits 16 n []) (zeros-AllHex missing)
      (hex_digits-AllHex 16 n [] tt)

-- What hex_address prints of an unsigned long long, strtoull reads in base 16 as the same number.
pub strtoull-hex_address : (n : ℕ) → n < 2 ^ 64 → strtoull (hex_address n) 16 ≡ n
strtoull-hex_address n h =
    strtoull-AllHex (hex_address n) (hex_address-AllHex n) (omega (arith, h, printed_value n h))
    ∙ printed_value n h
