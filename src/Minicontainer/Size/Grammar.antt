-- ===== src/Minicontainer/Size/Grammar.antt =====
-- minicontainer/src/util.cpp: `parse_size` against a description of the texts that it reads.
use linux_internals.Prelude.{
  ℕ, ◌+◌, ◌-◌, ◌*◌, ◌≤◌, ◌<◌, ◌≡◌, ◌≢◌, refl, sym, ap, ◌∙◌, inl, inr, false, [], ◌∷◌, ◌++◌, arith,
  Text, is_digit, ltb, ◌==◌, if◌then◌else◌, length, length-append, AllDigits, decimal_value,
  decimal_value_mono, Bool-cases, le→ltb,
}
use linux_internals.Minicontainer.Size.{
  int64_max, bytes, undefined, Scanned, stopped, overflowed, scan_digits, scanned_size, suffixed,
  scale, checked, to_upper, parse_size,
}

-- What may follow the digits, and the factor that it stands for.
pub data Suffix : Type 0 where
  plain upper_k lower_k upper_m lower_m upper_g lower_g : Suffix

abbrev pub suffix_text : Suffix → Text
suffix_text plain = []
suffix_text upper_k = b'K' ∷ []
suffix_text lower_k = b'k' ∷ []
suffix_text upper_m = b'M' ∷ []
suffix_text lower_m = b'm' ∷ []
suffix_text upper_g = b'G' ∷ []
suffix_text lower_g = b'g' ∷ []

abbrev pub factor : Suffix → ℕ
factor plain = 1
factor upper_k = 1024
factor lower_k = 1024
factor upper_m = 1024 * 1024
factor lower_m = 1024 * 1024
factor upper_g = 1024 * 1024 * 1024
factor lower_g = 1024 * 1024 * 1024

NoDigit : Text → Type 0
NoDigit [] = Unit
NoDigit (c ∷ s) = is_digit c ≡ false

-- The loop reads all the digits, unless their value leaves the range.
scan_digits-append :
    (v : ℕ) (ds rest : Text)
    → v ≤ int64_max
    → AllDigits ds
    → NoDigit rest
    → scan_digits v (ds ++ rest) ≡ (
        if ltb int64_max (decimal_value v ds)
        then overflowed
        else stopped (decimal_value v ds) rest)
unfolding scan_digits decimal_value NoDigit
scan_digits-append v [] [] b h n = rw (le→ltb int64_max v b)
scan_digits-append v [] (c ∷ s) b h n = rw (n, le→ltb int64_max v b)
scan_digits-append v (d ∷ ds) rest b h n = elim (Bool-cases (ltb int64_max (v * 10 + (d - 48)))) [
  | inl over ↦ ground (arith, h.0, decimal_value_mono (v * 10 + (d - 48)) ds)
  | inr fits ↦
      ground (arith, h.0, scan_digits-append (v * 10 + (d - 48)) ds rest (ground arith) h.1 n)
]

suffix-NoDigit : (u : Suffix) → NoDigit (suffix_text u)
unfolding NoDigit is_digit
suffix-NoDigit plain = tt
suffix-NoDigit _ = refl

suffixed-factor :
    (v : ℕ) (u : Suffix) → v ≤ int64_max → suffixed v (suffix_text u) ≡ checked (v * factor u)
unfolding suffixed scale checked to_upper
suffixed-factor v plain h = ground arith
suffixed-factor v upper_k h = ground arith
suffixed-factor v lower_k h = ground arith
suffixed-factor v upper_m h = ground arith
suffixed-factor v lower_m h = ground arith
suffixed-factor v upper_g h = ground arith
suffixed-factor v lower_g h = ground arith

checked_over : (v : ℕ) (u : Suffix) → int64_max < v → checked (v * factor u) ≡ undefined
unfolding checked
checked_over v plain h = ground arith
checked_over v upper_k h = ground arith
checked_over v lower_k h = ground arith
checked_over v upper_m h = ground arith
checked_over v lower_m h = ground arith
checked_over v upper_g h = ground arith
checked_over v lower_g h = ground arith

parse_size_cons :
    (c : ℕ) (s : Text) → parse_size (c ∷ s) ≡ scanned_size (length (c ∷ s)) (scan_digits 0 (c ∷ s))
unfolding parse_size
parse_size_cons c s = refl

-- The digits were not empty, so the loop has moved.
scanned_size-stopped :
    (v : ℕ) (d : ℕ) (ds rest : Text)
    → scanned_size (length (d ∷ ds ++ rest)) (stopped v rest) ≡ suffixed v rest
unfolding scanned_size
scanned_size-stopped v d ds rest = ground (arith, length-append ds rest)

-- A text of digits with a suffix is read as their decimal value times the factor of the suffix;
-- the result is an overflow exactly when that product is past `int64_max`.
pub parse_size_digits :
    (ds : Text) (u : Suffix)
    → AllDigits ds
    → 0 < length ds
    → parse_size (ds ++ suffix_text u) ≡ checked (decimal_value 0 ds * factor u)
unfolding scanned_size
parse_size_digits [] u h p = absurd (omega arith)
parse_size_digits (d ∷ ds) u h p =
    rw
      (
        parse_size_cons,
        scan_digits-append 0 (d ∷ ds) (suffix_text u) (omega arith) h (suffix-NoDigit u),
      )
      (elim (Bool-cases (ltb int64_max (decimal_value 0 (d ∷ ds)))) [
        | inl over ↦ rw over (sym (checked_over (decimal_value 0 (d ∷ ds)) u (ground arith)))
        | inr fits ↦
            rw (fits, scanned_size-stopped (decimal_value 0 (d ∷ ds)) d ds (suffix_text u))
              (suffixed-factor (decimal_value 0 (d ∷ ds)) u (ground arith))
      ])

scan_digits_inverse :
    (v : ℕ) (t : Text) (w : ℕ) (rest : Text)
    → scan_digits v t ≡ stopped w rest
    → (ds : Text) × (t ≡ ds ++ rest) × AllDigits ds × (w ≡ decimal_value v ds)
unfolding scan_digits decimal_value
scan_digits_inverse v [] w rest e = ([], cc, tt, cc)
scan_digits_inverse v (c ∷ s) w rest e = elim (Bool-cases (is_digit c)) [
  | inr other ↦ ([], ground arith, tt, ground arith)
  | inl digit ↦
      let (ds, split, all, value) =
        scan_digits_inverse (v * 10 + (c - 48)) s w rest (ground arith) in
      (c ∷ ds, ap (◌∷◌ c) split, (digit, all), value)
]

-- The suffix that an accepted byte stands for.
suffix_of : ℕ → Suffix
suffix_of c =
    if c == b'K'
    then upper_k
    else if c == b'k'
    then lower_k
    else if c == b'M'
    then upper_m
    else if c == b'm'
    then lower_m
    else if c == b'G'
    then upper_g
    else lower_g

suffixed_inverse :
    (v : ℕ) (rest : Text) (n : ℕ)
    → suffixed v rest ≡ bytes n
    → (u : Suffix) × (rest ≡ suffix_text u) × (n ≡ v * factor u)
unfolding suffixed scale checked to_upper suffix_of
suffixed_inverse v [] n e = (plain, refl, ground arith)
suffixed_inverse v (c ∷ []) n e = (suffix_of c, ground arith, ground arith)
suffixed_inverse v (c ∷ d ∷ s) n e = cc

stopped_inverse :
    (size v : ℕ) (rest : Text) (n : ℕ)
    → scanned_size size (stopped v rest) ≡ bytes n
    → (length rest ≢ size) × (suffixed v rest ≡ bytes n)
unfolding scanned_size
stopped_inverse size v rest n e = ground arith

overflowed_inverse : (size n : ℕ) → scanned_size size overflowed ≡ bytes n → ⊥
unfolding scanned_size
overflowed_inverse size n e = cc

nonempty :
    {size : ℕ} (ds rest : Text) → size ≡ length (ds ++ rest) → length rest ≢ size → 0 < length ds
nonempty ds rest e h = omega (arith, length-append ds rest)

-- Whatever text is accepted is a decimal numeral with a suffix, and the result is its value.
pub parse_size_accepts :
    (t : Text) (n : ℕ)
    → parse_size t ≡ bytes n
    → (ds : Text) × (u : Suffix) × (t ≡ ds ++ suffix_text u)
      × AllDigits ds
      × (0 < length ds)
      × (n ≡ decimal_value 0 ds * factor u)
parse_size_accepts [] n e = unfold parse_size in cc
parse_size_accepts (c ∷ s) n e = go (scan_digits 0 (c ∷ s)) refl
  where
    go :
        (r : Scanned)
        → scan_digits 0 (c ∷ s) ≡ r
        → (ds : Text) × (u : Suffix) × (c ∷ s ≡ ds ++ suffix_text u)
          × AllDigits ds
          × (0 < length ds)
          × (n ≡ decimal_value 0 ds * factor u)
    go overflowed h = absurd (
        overflowed_inverse (length (c ∷ s)) n
          (ap (scanned_size (length (c ∷ s))) (sym h) ∙ sym (parse_size_cons c s) ∙ e))
    go (stopped w rest) h =
        let (ds, split, all, value) = scan_digits_inverse 0 (c ∷ s) w rest h in
        let (moved, tail) =
          stopped_inverse (length (c ∷ s)) w rest n
            (ap (scanned_size (length (c ∷ s))) (sym h) ∙ sym (parse_size_cons c s) ∙ e) in
        let (u, e', v) = suffixed_inverse w rest n tail in
        (
          ds,
          u,
          split ∙ ap (◌++◌ ds) e',
          all,
          nonempty ds rest (ap length split) moved,
          v ∙ ap (λ k. k * factor u) value,
        )
