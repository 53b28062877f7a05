-- ===== src/Procmon/Util/Words.antt =====
-- split_ws (procmon/src/util.cpp): the words of a text, and where they stand.
use native.Mathlib.Nat.{zero-add, add-zero, suc-add}
use mathlib.Core.List.{append_assoc}
use linux_internals.Prelude.{
  ℕ, zero, suc, ◌+◌, ◌-◌, ◌≤◌, ◌≡◌, refl, ap, ◌∙◌, true, false, List, [], ◌∷◌, ◌++◌, map, arith,
  length, is_empty, drop, All, length-append, drop-length-append, Text, is_space,
}
use linux_internals.Procmon.Util.{
  View, view, text_of, skip_spaces, word, push_word, split_loop, split_ws,
}

abbrev pub Blank : Text → Type 0
Blank = All (λ c. is_space c ≡ true)

abbrev pub Solid : Text → Type 0
Solid = All (λ c. is_space c ≡ false)

-- A word cannot go on here: this is the end, or a space.
abbrev pub Stops : Text → Type 0
Stops s = word s ≡ []

pub skip_spaces-append : (g s : Text) → Blank g → skip_spaces (g ++ s) ≡ skip_spaces s
unfolding skip_spaces
skip_spaces-append [] s h = refl
skip_spaces-append (c ∷ g) s h = rw h.0 (skip_spaces-append g s h.1)

pub skip_spaces_solid : (c : ℕ) (s : Text) → is_space c ≡ false → skip_spaces (c ∷ s) ≡ c ∷ s
unfolding skip_spaces
skip_spaces_solid c s h = rw h

pub word-append : (w s : Text) → Solid w → Stops s → word (w ++ s) ≡ w
unfolding word
word-append [] s h e = e
word-append (c ∷ w) s h e = rw h.0 (ap (◌∷◌ c) (word-append w s h.1 e))

pub Blank-Stops : (g s : Text) → Blank g → Stops s → Stops (g ++ s)
unfolding word
Blank-Stops [] s h e = e
Blank-Stops (c ∷ g) s h e = rw h.0

-- What a round does with what is left past the spaces; `n` bytes were left before them.
abbrev split_round : ℕ → ℕ → ℕ → Text → Text → List View
split_round f i n left w =
    push_word (i + (n - length left)) w
      (split_loop f (i + (n - length left) + length w) (drop (length w) left))

split_loop_round :
    (f i : ℕ) (s : Text)
    → is_empty s ≡ false
    → split_loop (suc f) i s ≡ split_round f i (length s) (skip_spaces s) (word (skip_spaces s))
unfolding split_loop
split_loop_round f i [] h = cc
split_loop_round f i (b ∷ bs) h = refl

is_empty-append_cons : (g : Text) (c : ℕ) (s : Text) → is_empty (g ++ (c ∷ s)) ≡ false
is_empty-append_cons [] c s = refl
is_empty-append_cons (d ∷ g) c s = refl

-- One round of split_ws: past the gap, and over a word that ends there.
pub split_loop_word :
    (f i : ℕ) (g : Text) (c : ℕ) (w s : Text)
    → Blank g
    → Solid (c ∷ w)
    → Stops s
    → split_loop (suc f) i (g ++ (c ∷ (w ++ s)))
      ≡ view (i + length g) (c ∷ w) ∷ split_loop f (i + length g + length (c ∷ w)) s
unfolding push_word
split_loop_word f i g c w s hg hw hs =
    split_loop_round f i (g ++ (c ∷ (w ++ s))) (is_empty-append_cons g c (w ++ s))
    ∙ rw (
      skip_spaces-append g (c ∷ (w ++ s)) hg,
      skip_spaces_solid c (w ++ s) hw.0,
      word-append (c ∷ w) s hw hs,
      drop-length-append w s,
      gap,
    )
  where
    gap : length (g ++ (c ∷ (w ++ s))) - length (c ∷ (w ++ s)) ≡ length g
    gap = omega (arith, length-append g (c ∷ (w ++ s)))

-- Words, each after its gap.
unfoldable pub spaced : List (Text × Text) → Text
spaced [] = []
spaced ((g, w) ∷ ps) = g ++ (w ++ spaced ps)

abbrev pub Gap : Text → Type 0
Gap g = Blank g × (is_empty g ≡ false)

abbrev pub IsWord : Text → Type 0
IsWord w = Solid w × (is_empty w ≡ false)

pub Gap-Stops : (g s : Text) → Gap g → Stops (g ++ s)
unfolding word
Gap-Stops [] s h = cc
Gap-Stops (c ∷ g) s h = rw h.0.0

pub spaced-Stops :
    (ps : List (Text × Text)) (end : Text)
    → All (λ p. Gap p.0 × IsWord p.1) ps
    → Blank end
    → Stops (spaced ps ++ end)
unfolding spaced
spaced-Stops [] [] h e = unfold word in refl
spaced-Stops [] (c ∷ end) h e = unfold word in rw e.0
spaced-Stops ((g, w) ∷ ps) end h e =
    rw (append_assoc g (w ++ spaced ps) end) (Gap-Stops g (w ++ spaced ps ++ end) h.0.0)

spaced_cons :
    (g : Text) (c : ℕ) (w : Text) (ps : List (Text × Text)) (end : Text)
    → spaced ((g, c ∷ w) ∷ ps) ++ end ≡ g ++ (c ∷ (w ++ (spaced ps ++ end)))
unfolding spaced
spaced_cons g c w ps end =
    append_assoc g (c ∷ (w ++ spaced ps)) end ∙ rw (append_assoc w (spaced ps) end)

split_loop-Blank : (f i : ℕ) (s : Text) → Blank s → split_loop f i s ≡ []
unfolding split_loop skip_spaces word push_word
split_loop-Blank zero i s h = refl
split_loop-Blank (suc f) i [] h = refl
split_loop-Blank (suc f) i (c ∷ s) h = rw (skipped s h.1, h.0) (split_loop-Blank f _ [] tt)
  where
    skipped : (t : Text) → Blank t → skip_spaces t ≡ []
    skipped [] e = refl
    skipped (d ∷ t) e = rw (e.0) (skipped t e.1)

-- From any offset, with fuel for every byte.
pub split_loop-spaced :
    (f i : ℕ) (ps : List (Text × Text)) (end : Text)
    → length (spaced ps ++ end) ≤ f
    → All (λ p. Gap p.0 × IsWord p.1) ps
    → Blank end
    → map text_of (split_loop f i (spaced ps ++ end)) ≡ map (λ p. p.1) ps
unfolding text_of
split_loop-spaced f i [] end l h e = unfold spaced in rw (split_loop-Blank f i end e)
split_loop-spaced f i ((g, []) ∷ ps) end l h e = absurd (ground (arith, h.0.1.1))
split_loop-spaced zero i ((g, c ∷ w) ∷ ps) end l h e = absurd (
    omega (
      arith,
      ap length (spaced_cons g c w ps end),
      length-append g (c ∷ (w ++ (spaced ps ++ end))),
    ))
split_loop-spaced (suc f) i ((g, c ∷ w) ∷ ps) end l h e =
    rw
      (
        spaced_cons g c w ps end,
        split_loop_word f i g c w (spaced ps ++ end) h.0.0.0 h.0.1.0 (spaced-Stops ps end h.1 e),
      )
      (ap (◌∷◌ (c ∷ w)) (split_loop-spaced f _ ps end enough h.1 e))
  where
    enough : length (spaced ps ++ end) ≤ f
    enough = omega (
      arith,
      l,
      ap length (spaced_cons g c w ps end),
      length-append g (c ∷ (w ++ (spaced ps ++ end))),
      length-append w (spaced ps ++ end),
    )

-- split_ws returns the words of a text of words after gaps, whatever the gaps and what follows.
pub split_ws-spaced :
    (ps : List (Text × Text)) (end : Text)
    → All (λ p. Gap p.0 × IsWord p.1) ps
    → Blank end
    → map text_of (split_ws (spaced ps ++ end)) ≡ map (λ p. p.1) ps
unfolding split_ws
split_ws-spaced ps end h e =
    split_loop-spaced (length (spaced ps ++ end)) 0 ps end (omega arith) h e

-- The words with their places, from offset `i`.
abbrev pub views : ℕ → List (Text × Text) → List View
views i [] = []
views i ((g, w) ∷ ps) = view (i + length g) w ∷ views (i + length g + length w) ps

pub spaced_cons_Stops :
    (ps : List (Text × Text)) (s : Text)
    → All (λ p. Gap p.0 × IsWord p.1) ps
    → Stops s
    → Stops (spaced ps ++ s)
unfolding spaced
spaced_cons_Stops [] s h e = e
spaced_cons_Stops ((g, w) ∷ ps) s h e =
    rw (append_assoc g (w ++ spaced ps) s) (Gap-Stops g (w ++ spaced ps ++ s) h.0.0)

-- The first words of a text, whatever follows them; `left` is the fuel that they leave.
pub split_loop_words :
    (left i : ℕ) (ps : List (Text × Text)) (s : Text)
    → All (λ p. Gap p.0 × IsWord p.1) ps
    → Stops s
    → split_loop (length ps + left) i (spaced ps ++ s)
      ≡ views i ps ++ split_loop left (i + length (spaced ps)) s
split_loop_words left i [] s h e = unfold spaced in rw (zero-add, add-zero)
split_loop_words left i ((g, []) ∷ ps) s h e = absurd (ground (arith, h.0.1.1))
split_loop_words left i ((g, c ∷ w) ∷ ps) s h e = rw (
  spaced_cons g c w ps s,
  suc-add,
  split_loop_word (length ps + left) i g c w (spaced ps ++ s) h.0.0.0 h.0.1.0
      (spaced_cons_Stops ps s h.1 e),
  split_loop_words left (i + length g + length (c ∷ w)) ps s h.1 e,
  place,
)
  where
    place :
        i + length g + length (c ∷ w) + length (spaced ps) ≡ i + length (spaced ((g, c ∷ w) ∷ ps))
    place =
        unfold spaced in
        omega (arith, length-append g (c ∷ (w ++ spaced ps)), length-append w (spaced ps))
