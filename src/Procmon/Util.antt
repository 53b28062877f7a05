-- ===== src/Procmon/Util.antt =====
-- procmon/src/util.cpp: files read in pieces, lines, words, keys and numbers. A string_view into
-- a string is its offset and its text.
pub mod Words
pub mod Lines
pub mod Numbers
pub mod Keys
use mathlib.Core.Option
use linux_internals.Prelude.{
  ℕ, zero, suc, ◌+◌, ◌-◌, ◌^◌, Bool, true, not, ◌&&◌, Option, none, some, List, [], ◌∷◌, ◌++◌, ltb,
  leb, ◌==◌, if◌then◌else◌, find_byte, decimal_value, digits, length, is_empty, take, drop, ℤ, pos,
  negative, Text, text_eq, is_digit, is_space,
}

-- What the reads of a file return one after the other: bytes, or none for an error. Past the end
-- of the list a read returns 0 bytes. The file itself is none when it cannot be opened.
abbrev pub Stream : Type 0
Stream = Option (List (Option Text))

-- while ((n = ::read(...)) > 0) of read_file.
unfoldable pub read_rest : Text → List (Option Text) → Option Text
read_rest out [] = some out
read_rest out (some [] ∷ rs) = some out
read_rest out (some (b ∷ bs) ∷ rs) = read_rest (out ++ b ∷ bs) rs
read_rest out (none ∷ rs) = if is_empty out then none else some out

unfoldable pub read_file : Stream → Option Text
read_file none = none
read_file (some reads) = read_rest [] reads

-- while (start < content->size()) of read_lines, on what is left from `start`.
unfoldable pub lines_loop : ℕ → Text → List Text
lines_loop zero s = []
lines_loop (suc f) [] = []
lines_loop (suc f) (b ∷ bs) = elim (find_byte 10 (b ∷ bs)) [
  | none ↦ (b ∷ bs) ∷ []
  | some e ↦ take e (b ∷ bs) ∷ lines_loop f (drop (e + 1) (b ∷ bs))
]

-- A round takes at least one byte, so the length of the content is fuel enough.
unfoldable pub read_lines : Stream → List Text
read_lines path = elim (read_file path) [
  | none ↦ []
  | some content ↦ lines_loop (length content) content
]

pub data View : Type 0 where
  view : ℕ → Text → View

unfoldable pub text_of : View → Text
text_of (view at s) = s

unfoldable pub end_of : View → ℕ
end_of (view at s) = at + length s

-- The two inner loops of split_ws: past the spaces, and over the word.
unfoldable pub skip_spaces : Text → Text
skip_spaces [] = []
skip_spaces (c ∷ s) = let rest = skip_spaces s in if is_space c then rest else c ∷ s

unfoldable pub word : Text → Text
word [] = []
word (c ∷ s) = let rest = word s in if is_space c then [] else c ∷ rest

-- if (i > start) parts.push_back(...).
unfoldable pub push_word : ℕ → Text → List View → List View
push_word start [] parts = parts
push_word start (c ∷ w) parts = view start (c ∷ w) ∷ parts

-- while (i < s.size()) of split_ws, on what is left from `i`.
unfoldable pub split_loop : ℕ → ℕ → Text → List View
split_loop zero i s = []
split_loop (suc f) i [] = []
split_loop (suc f) i (b ∷ bs) =
    let left = skip_spaces (b ∷ bs) in
    let start = i + (length (b ∷ bs) - length left) in
    let w = word left in push_word start w (split_loop f (start + length w) (drop (length w) left))

unfoldable pub split_ws : Text → List View
split_ws s = split_loop (length s) 0 s

-- The second loop of trim.
unfoldable pub trim_end : Text → Text
trim_end [] = []
trim_end (c ∷ s) = let rest = trim_end s in if is_space c && is_empty rest then [] else c ∷ rest

unfoldable pub trim : Text → Text
trim s = trim_end (skip_spaces s)

-- An unordered_map from keys to values; emplace leaves the value of a key that it holds.
unfoldable pub lookup : Text → List (Text × Text) → Option Text
lookup key [] = none
lookup key ((k, v) ∷ kv) = if text_eq k key then some v else lookup key kv

unfoldable pub emplace : Text → Text → List (Text × Text) → List (Text × Text)
emplace key value kv = elim (lookup key kv) [ none ↦ (key, value) ∷ kv | some v ↦ kv ]

-- The body of parse_kv's loop.
unfoldable pub add_line : List (Text × Text) → Text → List (Text × Text)
add_line kv line = elim (find_byte 58 line) [
  | none ↦ kv
  | some colon ↦ emplace (trim (take colon line)) (trim (drop (colon + 1) line)) kv
]

unfoldable pub add_lines : List (Text × Text) → List Text → List (Text × Text)
add_lines kv [] = kv
add_lines kv (line ∷ lines) = add_lines (add_line kv line) lines

unfoldable pub parse_kv : Stream → List (Text × Text)
parse_kv path = add_lines [] (read_lines path)

-- std::from_chars on a long long, without and with the sign.
unfoldable pub from_digits : Text → Option ℤ
from_digits [] = none
from_digits (d ∷ ds) =
    let n = decimal_value 0 (d ∷ ds) in if ltb n (2 ^ 63) then some (pos n) else none

unfoldable pub from_negated : Text → Option ℤ
from_negated [] = none
from_negated (d ∷ ds) =
    let n = decimal_value 0 (d ∷ ds) in if leb n (2 ^ 63) then some (negative n) else none

unfoldable pub from_chars : Text → Option ℤ
from_chars [] = none
from_chars (c ∷ s) = if c == 45 then from_negated (digits s) else from_digits (digits (c ∷ s))

unfoldable pub to_ll : Text → Option ℤ
to_ll s = from_chars (trim s)

-- std::all_of with std::isdigit.
unfoldable pub all_digits : Text → Bool
all_digits [] = true
all_digits (c ∷ s) = is_digit c && all_digits s

unfoldable pub is_number : Text → Bool
is_number s = not (is_empty s) && all_digits s
