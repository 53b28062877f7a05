-- ===== src/Procmon/Summary/Order.antt =====
-- The order of std::string (std::map in procmon/src/main.cpp).

use linux_internals.Prelude.{
  ◌≡◌, refl, ap, ◌∙◌, inl, inr, true, false, [], ◌∷◌, arith, Bool-cases, Text, text_eq, text_eq→eq,
}
use linux_internals.Procmon.Summary.{text_lt}

pub text_lt_trans : (a b c : Text) → text_lt a b ≡ true → text_lt b c ≡ true → text_lt a c ≡ true
unfolding text_lt
text_lt_trans a b [] h k = absurd (cc k)
text_lt_trans a [] (z ∷ c) h k = absurd (cc h)
text_lt_trans [] (y ∷ b) (z ∷ c) h k = refl
text_lt_trans (x ∷ a) (y ∷ b) (z ∷ c) h k = ground (arith, text_lt_trans a b c, h, k)

pub text_lt_irrefl : (a : Text) → text_lt a a ≡ false
unfolding text_lt
text_lt_irrefl [] = refl
text_lt_irrefl (x ∷ a) = ground (arith, text_lt_irrefl a)

pub text_lt_total : (a b : Text) → text_eq a b ≡ false → text_lt a b ≡ false → text_lt b a ≡ true
unfolding text_lt text_eq
text_lt_total [] [] h k = absurd (cc h)
text_lt_total [] (y ∷ b) h k = absurd (cc k)
text_lt_total (x ∷ a) [] h k = refl
text_lt_total (x ∷ a) (y ∷ b) h k = ground (arith, text_lt_total a b, h, k)

pub lt_not_eq : (a b : Text) → text_lt a b ≡ true → text_eq a b ≡ false
lt_not_eq a b h = elim (Bool-cases (text_eq a b)) [
  | inr e ↦ e
  | inl e ↦
      let same : text_lt a a ≡ true = ap (text_lt a) (text_eq→eq a b e) ∙ h in
      absurd (cc (same, text_lt_irrefl a))
]

pub text_eq_sym : (a b : Text) → text_eq a b ≡ text_eq b a
unfolding text_eq
text_eq_sym [] [] = refl
text_eq_sym [] (y ∷ b) = refl
text_eq_sym (x ∷ a) [] = refl
text_eq_sym (x ∷ a) (y ∷ b) = ground (arith, text_eq_sym a b)
