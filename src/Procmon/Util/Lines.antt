-- ===== src/Procmon/Util/Lines.antt =====
-- Bytes in a text, the lines of a file and the keys of its lines (procmon/src/util.cpp).
use mathlib.Core.List.{append_assoc, append-nil}
use linux_internals.Prelude.{
  ℕ, zero, suc, ◌+◌, ◌≤◌, ◌≡◌, refl, ap, ◌∙◌, inl, inr, false, Option, none, some, List, [], ◌∷◌,
  ◌++◌, map, arith, Option-cases, find_byte, drop-suc-append, Without, find_byte-append,
  find_byte-none, unlines, length, is_empty, take, drop, All, length-append, take-length-append,
  Text,
}
use linux_internals.Procmon.Util.{read_rest, read_file, lines_loop, read_lines}

-- The reads of a file in one text.
abbrev pub concat : List Text → Text
concat [] = []
concat (c ∷ cs) = c ++ concat cs

read_rest-concat :
    (out : Text) (chunks : List Text)
    → All (λ c. is_empty c ≡ false) chunks
    → read_rest out (map some chunks) ≡ some (out ++ concat chunks)
unfolding read_rest
read_rest-concat out [] h = rw (append-nil out)
read_rest-concat out ([] ∷ cs) h = absurd (ground (arith, h.0))
read_rest-concat out ((b ∷ bs) ∷ cs) h =
    read_rest-concat (out ++ (b ∷ bs)) cs h.1 ∙ ap some (append_assoc out (b ∷ bs) (concat cs))

-- read_file puts the reads together.
pub read_file-concat :
    (chunks : List Text)
    → All (λ c. is_empty c ≡ false) chunks
    → read_file (some (map some chunks)) ≡ some (concat chunks)
unfolding read_file
read_file-concat chunks h = read_rest-concat [] chunks h

abbrev lines_round : ℕ → Text → Option ℕ → List Text
lines_round f s none = s ∷ []
lines_round f s (some e) = take e s ∷ lines_loop f (drop (e + 1) s)

lines_loop_round :
    (f : ℕ) (s : Text)
    → is_empty s ≡ false
    → lines_loop (suc f) s ≡ lines_round f s (find_byte 10 s)
unfolding lines_loop
lines_loop_round f [] h = cc
lines_loop_round f (b ∷ bs) h = elim (Option-cases (find_byte 10 (b ∷ bs))) [
  | inl e ↦ rw (e, lines_loop)
  | inr (n, e) ↦ rw (e, lines_loop)
]

lines_loop_line :
    (f : ℕ) (l s : Text) → Without 10 l → lines_loop (suc f) (l ++ (10 ∷ s)) ≡ l ∷ lines_loop f s
lines_loop_line f l s h =
    lines_loop_round f (l ++ (10 ∷ s)) (not_empty l)
    ∙ rw (find_byte-append 10 l s h, take-length-append l (10 ∷ s), drop-suc-append l 10 s)
  where
    not_empty : (l : Text) → is_empty (l ++ (10 ∷ s)) ≡ false
    not_empty [] = refl
    not_empty (c ∷ l) = refl

-- A last line without a newline counts, an empty one does not.
abbrev pub last_line : Text → List Text
last_line [] = []
last_line (c ∷ s) = (c ∷ s) ∷ []

lines_loop-unlines :
    (f : ℕ) (ls : List Text) (end : Text)
    → length (unlines ls ++ end) ≤ f
    → All (Without 10) ls
    → Without 10 end
    → lines_loop f (unlines ls ++ end) ≡ ls ++ last_line end
unfolding unlines
lines_loop-unlines zero [] [] l h e = unfold lines_loop in refl
lines_loop-unlines zero [] (c ∷ end) l h e = absurd (omega (arith, l))
lines_loop-unlines (suc f) [] [] l h e = unfold lines_loop in refl
lines_loop-unlines (suc f) [] (c ∷ end) l h e =
    lines_loop_round f (c ∷ end) refl ∙ rw (find_byte-none 10 (c ∷ end) e)
lines_loop-unlines zero (x ∷ ls) end l h e = absurd (
    omega (
      arith,
      l,
      ap length (append_assoc x (10 ∷ unlines ls) end),
      length-append x (10 ∷ (unlines ls ++ end)),
    ))
lines_loop-unlines (suc f) (x ∷ ls) end l h e =
    rw (append_assoc x (10 ∷ unlines ls) end, lines_loop_line f x (unlines ls ++ end) h.0)
      (ap (◌∷◌ x) (lines_loop-unlines f ls end enough h.1 e))
  where
    enough : length (unlines ls ++ end) ≤ f
    enough = omega (
      arith,
      l,
      ap length (append_assoc x (10 ∷ unlines ls) end),
      length-append x (10 ∷ (unlines ls ++ end)),
    )

-- However a file of lines is cut into reads, read_lines returns its lines, and a last line that
-- has no newline unless it is empty.
pub read_lines-unlines :
    (chunks : List Text) (ls : List Text) (end : Text)
    → All (λ c. is_empty c ≡ false) chunks
    → concat chunks ≡ unlines ls ++ end
    → All (Without 10) ls
    → Without 10 end
    → read_lines (some (map some chunks)) ≡ ls ++ last_line end
unfolding read_lines
read_lines-unlines chunks ls end c e h w =
    rw (read_lines, read_file-concat chunks c, e) (lines_loop-unlines _ ls end (omega arith) h w)
