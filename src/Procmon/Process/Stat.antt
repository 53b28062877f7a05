-- ===== src/Procmon/Process/Stat.antt =====
-- parse_stat and stat_field (procmon/src/process.cpp) on the text of /proc/<pid>/stat.
use mathlib.Core.List.{append_assoc}
use linux_internals.Prelude.{
  ℕ, ◌+◌, ◌-◌, ◌≡◌, sym, false, none, some, List, [], ◌∷◌, ◌++◌, arith, ltb, ◌==◌, le→ltb,
  rfind_byte, Without, find_byte-append, rfind_byte-append, length, get_elem?, drop, length-append,
  take-length-append, drop-length-append, All-append, ℤ, pos, Text,
}
use linux_internals.Procmon.Util.{split_ws, to_ll}
use linux_internals.Procmon.Process.{between, stat_between, parse_content, value_or}

-- pid (comm) and the rest.
abbrev pub stat_text : Text → Text → Text → Text
stat_text pid comm rest = pid ++ (40 ∷ (comm ++ (41 ∷ rest)))

drop-append : (n : ℕ) (l s : Text) → n ≡ length l → drop n (l ++ s) ≡ s
drop-append n l s e = rw (e, drop-length-append l s)

rfind_byte-stat_text :
    (pid comm rest : Text)
    → Without 41 rest
    → rfind_byte 41 (stat_text pid comm rest) ≡ some (length (pid ++ (40 ∷ comm)))
rfind_byte-stat_text pid comm rest h =
    rw (sym (append_assoc pid (40 ∷ comm) (41 ∷ rest)))
      (rfind_byte-append 41 (pid ++ (40 ∷ comm)) rest h)

module _ (pid comm rest : Text) where
  close_after_open : length (pid ++ (40 ∷ comm)) ≡ length pid + 1 + length comm
  close_after_open = omega (arith, length-append pid (40 ∷ comm))

  drop_open : drop (length pid + 1) (stat_text pid comm rest) ≡ comm ++ (41 ∷ rest)
  drop_open = rw (sym (append_assoc pid (40 ∷ []) (comm ++ (41 ∷ rest)))) (
      drop-append (length pid + 1) (pid ++ (40 ∷ [])) (comm ++ (41 ∷ rest))
        (omega (arith, length-append pid (40 ∷ []))))

  drop_close : drop (length (pid ++ (40 ∷ comm)) + 1) (stat_text pid comm rest) ≡ rest
  drop_close =
      rw
        (
          sym (append_assoc pid (40 ∷ comm) (41 ∷ rest)),
          sym (append_assoc (pid ++ (40 ∷ comm)) (41 ∷ []) rest),
        )
        (drop-append (length (pid ++ (40 ∷ comm)) + 1) ((pid ++ (40 ∷ comm)) ++ (41 ∷ [])) rest
          (omega (arith, length-append (pid ++ (40 ∷ comm)) (41 ∷ []))))

  comm_between :
      between (length pid + 1) (length (pid ++ (40 ∷ comm))) (stat_text pid comm rest) ≡ comm
  unfolding between
  comm_between = rw (drop_open, close_after_open, comm_size) (take-length-append comm (41 ∷ rest))
    where
      comm_size : length pid + 1 + length comm - (length pid + 1) ≡ length comm
      comm_size = omega arith

-- A command name may hold any bytes, spaces and parentheses included.
pub parse_content-stat_text :
    (pid comm rest : Text)
    → Without 40 pid
    → Without 41 rest
    → parse_content (stat_text pid comm rest)
      ≡ some (record { comm = comm; buffer = rest; after_comm = split_ws rest })
unfolding parse_content stat_between
parse_content-stat_text pid comm rest hp hr = rw (
  find_byte-append 40 pid (comm ++ (41 ∷ rest)) hp,
  rfind_byte-stat_text pid comm rest hr,
  in_order,
  comm_between pid comm rest,
  drop_close pid comm rest,
)
  where
    in_order : ltb (length (pid ++ (40 ∷ comm))) (length pid) ≡ false
    in_order = le→ltb _ _ (omega (arith, close_after_open pid comm rest))

-- Field `n` of the file, of which `words` are those from the third on.
pub numbered : List Text → ℕ → ℤ
numbered words n = elim (get_elem? words (n - 3)) [
  | none ↦ pos 0
  | some w ↦ value_or (pos 0) (to_ll w)
]

Without-append : (c : ℕ) (xs ys : Text) → Without c xs → Without c ys → Without c (xs ++ ys)
Without-append c xs ys = All-append (λ d. (d == c) ≡ false) xs ys
