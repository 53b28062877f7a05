-- ===== src/Procmon/Process/Regions.antt =====
-- A line of /proc/<pid>/maps, taken apart by read_maps (procmon/src/process.cpp).
use mathlib.Core.List.{append_assoc}
use linux_internals.Prelude.{
  ℕ, suc, ◌+◌, ◌-◌, ◌≤◌, ◌≡◌, refl, sym, ap, ◌∙◌, true, false, some, List, [], ◌∷◌, ◌++◌, arith,
  lt→ltb, le→ltb, find_byte, drop-suc-append, Without, find_byte-append, length, take, drop, All,
  length-append, take-length-append, drop-length-append, Text,
}
use linux_internals.Procmon.Util.{
  View, view, text_of, end_of, skip_spaces, split_loop, split_ws, trim_end, trim,
}
use linux_internals.Procmon.Process.Maps.{strtoull, path_from, region_at, region_from, region_of}
use linux_internals.Procmon.Util.Words.{
  Solid, Stops, split_loop_word, spaced, Gap, IsWord, views, spaced_cons_Stops, split_loop_words,
}

-- The range, the four words after it with their gaps, and the rest of the line.
abbrev pub line_text : Text → List (Text × Text) → Text → Text
line_text range ps tail = range ++ (spaced ps ++ tail)

length-spaced_cons :
    (g w : Text) (ps : List (Text × Text))
    → length (spaced ((g, w) ∷ ps)) ≡ length g + length w + length (spaced ps)
unfolding spaced
length-spaced_cons g w ps =
    omega (arith, length-append g (w ++ spaced ps), length-append w (spaced ps))

length-spaced_nil : length (spaced []) ≡ 0
length-spaced_nil = unfold spaced in refl

length-spaced :
    (ps : List (Text × Text)) → All (λ p. Gap p.0 × IsWord p.1) ps → length ps ≤ length (spaced ps)
length-spaced [] h = omega arith
length-spaced ((g, []) ∷ ps) h = absurd (ground (arith, h.0.1.1))
length-spaced ((g, c ∷ w) ∷ ps) h =
    omega (arith, length-spaced ps h.1, length-spaced_cons g (c ∷ w) ps)

split_loop-line_text :
    (left c : ℕ) (w : Text) (ps : List (Text × Text)) (tail : Text)
    → Solid (c ∷ w)
    → All (λ p. Gap p.0 × IsWord p.1) ps
    → Stops tail
    → split_loop (suc (length ps + left)) 0 (line_text (c ∷ w) ps tail)
      ≡ view 0 (c ∷ w)
        ∷ (views (length (c ∷ w)) ps ++ split_loop left (length (c ∷ w) + length (spaced ps)) tail)
split_loop-line_text left c w ps tail hw hp ht =
    split_loop_word (length ps + left) 0 [] c w (spaced ps ++ tail) tt hw
      (spaced_cons_Stops ps tail hp ht)
    ∙ rw start (ap (◌∷◌ (view 0 (c ∷ w))) (split_loop_words left (length (c ∷ w)) ps tail hp ht))
  where
    start : 0 + length (let e : Text = [] in e) + length (c ∷ w) ≡ length (c ∷ w)
    start = omega arith

-- split_ws on such a line: the range, the words at their places, and what it finds in the rest.
pub split_ws-line_text :
    (c : ℕ) (w : Text) (ps : List (Text × Text)) (tail : Text)
    → Solid (c ∷ w)
    → All (λ p. Gap p.0 × IsWord p.1) ps
    → Stops tail
    → (more : List View) × (split_ws (line_text (c ∷ w) ps tail)
        ≡ view 0 (c ∷ w) ∷ (views (length (c ∷ w)) ps ++ more))
unfolding split_ws
split_ws-line_text c w ps tail hw hp ht =
    let left = length w + length (spaced ps) + length tail - length ps in
    (
      split_loop left (length (c ∷ w) + length (spaced ps)) tail,
      rw fuel (split_loop-line_text left c w ps tail hw hp ht),
    )
  where
    fuel :
        length (line_text (c ∷ w) ps tail)
        ≡ suc (length ps + (length w + length (spaced ps) + length tail - length ps))
    fuel = omega (
      arith,
      length-spaced ps hp,
      length-append w (spaced ps ++ tail),
      length-append (spaced ps) tail,
    )

path_from-tail : (front tail : Text) → path_from (length front) (front ++ tail) ≡ trim tail
unfolding path_from trim skip_spaces trim_end
path_from-tail front [] =
    rw (le→ltb (length front) (length (front ++ [])) (omega (arith, length-append front [])))
path_from-tail front (c ∷ tail) = rw (
  lt→ltb (length front) (length (front ++ (c ∷ tail)))
      (omega (arith, length-append front (c ∷ tail))),
  drop-length-append front (c ∷ tail),
)

path_at :
    (n : ℕ) (w : Text) (ps : List (Text × Text)) (tail : Text)
    → n ≡ length w + length (spaced ps)
    → path_from n (line_text w ps tail) ≡ trim tail
path_at n w ps tail e =
    rw (e, sym (length-append w (spaced ps)), sym (append_assoc w (spaced ps) tail))
      (path_from-tail (w ++ spaced ps) tail)

region_of_range :
    (range g1 perms g2 offset g3 dev g4 inode tail : Text) (dash : ℕ)
    → Solid range
    → All {A = Text × Text}
        (λ p. Gap p.0 × IsWord p.1)
        ((g1, perms) ∷ (g2, offset) ∷ (g3, dev) ∷ (g4, inode) ∷ [])
    → Stops tail
    → find_byte 45 range ≡ some dash
    → region_of (line_text range ((g1, perms) ∷ (g2, offset) ∷ (g3, dev) ∷ (g4, inode) ∷ []) tail)
      ≡ some (record {
        start = strtoull (take dash range) 16;
        end = strtoull (drop (dash + 1) range) 16;
        perms = perms;
        offset = strtoull offset 16;
        dev = dev;
        inode = strtoull inode 10;
        path = trim tail;
      })
unfolding region_of region_from region_at text_of end_of
region_of_range [] g1 perms g2 offset g3 dev g4 inode tail dash hr hw ht e =
    absurd (ground (arith, no_dash e))
  where
    no_dash : find_byte 45 [] ≡ some dash → true ≡ false
    no_dash h = unfold find_byte in cc
region_of_range (c ∷ w) g1 perms g2 offset g3 dev g4 inode tail dash hr hw ht e =
    rw ((split_ws-line_text c w ps tail hr hw ht).1, e, path_at _ (c ∷ w) ps tail place)
  where
    ps : List (Text × Text)
    ps = (g1, perms) ∷ (g2, offset) ∷ (g3, dev) ∷ (g4, inode) ∷ []

    place :
        length (c ∷ w)
          + length g1
          + length perms
          + length g2
          + length offset
          + length g3
          + length dev
          + length g4
          + length inode
        ≡ length (c ∷ w) + length (spaced ps)
    place = omega (
      arith,
      length-spaced_nil,
      length-spaced_cons g4 inode [],
      length-spaced_cons g3 dev ((g4, inode) ∷ []),
      length-spaced_cons g2 offset ((g3, dev) ∷ (g4, inode) ∷ []),
      length-spaced_cons g1 perms ((g2, offset) ∷ (g3, dev) ∷ (g4, inode) ∷ []),
    )

-- read_maps' reading of a line `lo-hi perms offset dev inode path`: the words may stand any gaps
-- apart, the words and `lo-hi` hold no spaces and `lo` no dash, and the path, which may hold
-- spaces or be missing, is the rest of the line without the spaces around it.
pub region_of-line_text :
    (lo hi g1 perms g2 offset g3 dev g4 inode tail : Text)
    → Without 45 lo
    → Solid (lo ++ (45 ∷ hi))
    → All {A = Text × Text}
        (λ p. Gap p.0 × IsWord p.1)
        ((g1, perms) ∷ (g2, offset) ∷ (g3, dev) ∷ (g4, inode) ∷ [])
    → Stops tail
    → region_of (
        line_text
          (lo ++ (45 ∷ hi))
          ((g1, perms) ∷ (g2, offset) ∷ (g3, dev) ∷ (g4, inode) ∷ [])
          tail)
      ≡ some (record {
        start = strtoull lo 16;
        end = strtoull hi 16;
        perms = perms;
        offset = strtoull offset 16;
        dev = dev;
        inode = strtoull inode 10;
        path = trim tail;
      })
region_of-line_text lo hi g1 perms g2 offset g3 dev g4 inode tail hl hr hw ht =
    region_of_range (lo ++ (45 ∷ hi)) g1 perms g2 offset g3 dev g4 inode tail (length lo) hr hw ht
      (find_byte-append 45 lo hi hl)
    ∙ rw (take-length-append lo (45 ∷ hi), drop-suc-append lo 45 hi)
