-- ===== src/Prelude/Search.antt =====
-- Bytes looked for in a text.
use native.Mathlib.Nat.{zero-add, suc-add}
use Prim.Native.Nat.{ℕ, zero, suc, ◌+◌}
use mathlib.Core.Path.{◌≡◌, refl}
use mathlib.Core.Bool.{false}
use mathlib.Core.List.{List, [], ◌∷◌, ◌++◌}
use mathlib.Core.Option
use mathlib.Core.Option.{Option, none, some}
use linux_internals.Prelude.Tests.{◌==◌, ==_refl, if◌then◌else◌}
use linux_internals.Prelude.Lists.{All, length, drop, drop-length-append}
use linux_internals.Prelude.Bytes.{Text, after_prefix}

-- std::string's find and rfind of one byte; none is npos.
unfoldable pub find_byte : ℕ → Text → Option ℕ
find_byte c [] = none
find_byte c (d ∷ s) = if d == c then some 0 else Option.map suc (find_byte c s)

unfoldable pub rfind_byte : ℕ → Text → Option ℕ
rfind_byte c [] = none
rfind_byte c (d ∷ s) = elim (rfind_byte c s) [
  | some i ↦ some (suc i)
  | none ↦ if d == c then some 0 else none
]

-- The rest after the first place where `p` stands; none is npos.
unfoldable pub find_text : Text → Text → Option Text
unfolding after_prefix
find_text p [] = after_prefix p []
find_text p (c ∷ s) =
    let later = find_text p s in
    elim (after_prefix p (c ∷ s)) [ none ↦ later | some rest ↦ some rest ]

drop-nil : (b : ℕ) → drop b (let e : Text = [] in e) ≡ []
drop-nil zero = refl
drop-nil (suc b) = refl

drop-plus : (a b : ℕ) (s : Text) → drop (a + b) s ≡ drop b (drop a s)
drop-plus zero b s = rw zero-add
drop-plus (suc a) b [] = rw (suc-add, drop-nil b)
drop-plus (suc a) b (c ∷ s) = rw suc-add (drop-plus a b s)

pub drop-suc-append : (l : Text) (c : ℕ) (s : Text) → drop (length l + 1) (l ++ (c ∷ s)) ≡ s
drop-suc-append l c s = rw (drop-plus (length l) 1 (l ++ (c ∷ s)), drop-length-append l (c ∷ s))

-- A byte does not occur.
abbrev pub Without : ℕ → Text → Type 0
Without c = All (λ d. (d == c) ≡ false)

pub find_byte-append :
    (c : ℕ) (p s : Text) → Without c p → find_byte c (p ++ (c ∷ s)) ≡ some (length p)
unfolding find_byte
find_byte-append c [] s h = rw (==_refl c)
find_byte-append c (d ∷ p) s h = rw (h.0, find_byte-append c p s h.1)

pub find_byte-none : (c : ℕ) (s : Text) → Without c s → find_byte c s ≡ none
unfolding find_byte
find_byte-none c [] h = refl
find_byte-none c (d ∷ s) h = rw (h.0, find_byte-none c s h.1)

pub rfind_byte-none : (c : ℕ) (s : Text) → Without c s → rfind_byte c s ≡ none
unfolding rfind_byte
rfind_byte-none c [] h = refl
rfind_byte-none c (d ∷ s) h = rw (rfind_byte-none c s h.1, h.0)

pub rfind_byte-append :
    (c : ℕ) (p s : Text) → Without c s → rfind_byte c (p ++ (c ∷ s)) ≡ some (length p)
unfolding rfind_byte
rfind_byte-append c [] s h = rw (rfind_byte-none c s h, ==_refl c)
rfind_byte-append c (d ∷ p) s h = rw (rfind_byte-append c p s h)

-- Lines, each with its newline.
unfoldable pub unlines : List Text → Text
unlines [] = []
unlines (l ∷ ls) = l ++ (10 ∷ unlines ls)
