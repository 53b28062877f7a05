-- ===== src/Procmon/Tests.antt =====
-- What procmon makes of small /proc files, and its theorems at inputs that meet their hypotheses.

use linux_internals.Procmon.Commands.{show, threads, maps, main, main-to_string}
use linux_internals.Prelude.{
  ℕ, ◌≡◌, refl, some, List, [], ◌∷◌, ◌++◌, map, arith, unlines, to_string, decimal_value, digits,
  All, pos, Text, codes, is_digit, is_space,
}
use linux_internals.Procmon.Process.Threads.{Dirs, list_pids}
use linux_internals.Procmon.Process.Maps.{
  digit_value, strtoull_digits, past_0x, strtoull_unsigned, strtoull_signed, strtoull, region_of,
}
use linux_internals.Procmon.Util.Keys.{first_value, lookup-parse_kv}
use linux_internals.Procmon.Util.{
  read_lines, skip_spaces, word, trim_end, trim, lookup, parse_kv, to_ll, is_number,
}
use linux_internals.Procmon.Util.Words.{Gap, IsWord}
use linux_internals.Procmon.Util.Lines.{read_lines-unlines}
use linux_internals.Procmon.Util.Numbers.{to_ll-to_string}
use linux_internals.Procmon.Process.Regions.{line_text, region_of-line_text}
use linux_internals.Procmon.Process.Pids.{Ascending, count, numeric, FitInt, list_pids_sorted}

abbrev tail_fields : List (Text × Text)
tail_fields = (codes " ", codes "S") ∷ (codes " ", codes "1") ∷ []

to_ll-to_string_example : to_ll (codes " " ++ (to_string 12 ++ codes " kB")) ≡ some (pos 12)
unfolding is_space digits is_digit
to_ll-to_string_example = to_ll-to_string (codes " ") 12 (codes " kB") (refl, tt) refl

read_lines-unlines_example :
    read_lines (some (map some (codes "a\nb" ∷ codes "c" ∷ []))) ≡ codes "a" ∷ codes "bc" ∷ []
unfolding unlines
read_lines-unlines_example =
    read_lines-unlines (codes "a\nb" ∷ codes "c" ∷ []) (codes "a" ∷ []) (codes "bc")
      (refl, (refl, tt)) refl ((refl, tt), tt) (refl, (refl, tt))

lookup-parse_kv_example :
    lookup (codes "k") (parse_kv (some (some (codes "k: 1\nk: 2\n") ∷ [])))
    ≡ first_value (codes "k") (read_lines (some (some (codes "k: 1\nk: 2\n") ∷ [])))
lookup-parse_kv_example = lookup-parse_kv (codes "k") (some (some (codes "k: 1\nk: 2\n") ∷ []))

abbrev proc_dir : Dirs
proc_dir path = codes "12" ∷ codes "self" ∷ codes "7" ∷ []

proc_dir-FitInt : FitInt (proc_dir (codes "/proc"))
unfolding is_number decimal_value
proc_dir-FitInt = (λ h. omega arith, (λ h. omega arith, (λ h. omega arith, tt)))

list_pids_sorted_example :
    (pids : List ℕ) × (list_pids proc_dir ≡ some pids)
    × Ascending pids
    × ((p : ℕ) → count p pids ≡ count p (numeric (proc_dir (codes "/proc"))))
list_pids_sorted_example = list_pids_sorted proc_dir proc_dir-FitInt

abbrev map_words : List (Text × Text)
map_words =
    (codes " ", codes "r-xp")
    ∷ (codes " ", codes "0a")
    ∷ (codes " ", codes "fd:01")
    ∷ (codes " ", codes "12")
    ∷ []

map_words_ok : All {A = Text × Text} (λ p. Gap p.0 × IsWord p.1) map_words
unfolding is_space
map_words_ok = (
  (((refl, tt), refl), ((refl, (refl, (refl, (refl, tt)))), refl)),
  (
    (((refl, tt), refl), ((refl, (refl, tt)), refl)),
    (
      (((refl, tt), refl), ((refl, (refl, (refl, (refl, (refl, tt))))), refl)),
      ((((refl, tt), refl), ((refl, (refl, tt)), refl)), tt),
    ),
  ),
)

region_of-line_text_example :
    region_of (line_text (codes "1f-2f") map_words (codes "  /a b"))
    ≡ some (record {
      start = 31;
      end = 47;
      perms = codes "r-xp";
      offset = 10;
      dev = codes "fd:01";
      inode = 12;
      path = codes "/a b";
    })
unfolding is_space word strtoull strtoull_signed strtoull_unsigned strtoull_digits past_0x
    digit_value is_digit skip_spaces trim trim_end
region_of-line_text_example =
    region_of-line_text (codes "1f") (codes "2f") (codes " ") (codes "r-xp") (codes " ")
      (codes "0a") (codes " ") (codes "fd:01") (codes " ") (codes "12") (codes "  /a b")
      (refl, (refl, tt)) (refl, (refl, (refl, (refl, (refl, tt))))) map_words_ok refl

main-to_string_example :
    (main 9 (codes "show" ∷ to_string 5 ∷ []) ≡ show 5)
    × (main 9 (codes "threads" ∷ to_string 5 ∷ []) ≡ threads 5)
    × (main 9 (codes "maps" ∷ to_string 5 ∷ []) ≡ maps 5)
main-to_string_example = main-to_string 9 5 []
