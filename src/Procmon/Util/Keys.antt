-- ===== src/Procmon/Util/Keys.antt =====
-- parse_kv (procmon/src/util.cpp) and the lookup of a key.
use linux_internals.Prelude.{
  ℕ, ◌+◌, ◌≡◌, refl, sym, ap, ◌∙◌, ◌⊎◌, inl, inr, Bool, true, false, Option, none, some, List, [],
  ◌∷◌, if◌then◌else◌, Bool-cases, Option-cases, find_byte, take, drop, Text, text_eq, text_eq→eq,
}
use linux_internals.Procmon.Util.{
  Stream, read_lines, trim, lookup, emplace, add_line, add_lines, parse_kv,
}

-- A line's key and value; a line without a colon has none.
pub entry : Text → Option (Text × Text)
entry line = elim (find_byte 58 line) [
  | none ↦ none
  | some colon ↦ some (trim (take colon line), trim (drop (colon + 1) line))
]

-- The value on the first of the lines that has the key.
pub first_value : Text → List Text → Option Text
first_value key [] = none
first_value key (line ∷ lines) = elim (entry line) [
  | none ↦ first_value key lines
  | some e ↦ if text_eq e.0 key then some e.1 else first_value key lines
]

abbrev or_else : Option Text → Option Text → Option Text
or_else none b = b
or_else (some v) b = some v

or_else-none : (a : Option Text) → or_else a none ≡ a
or_else-none none = refl
or_else-none (some v) = refl

or_else_assoc : (a b c : Option Text) → or_else (or_else a b) c ≡ or_else a (or_else b c)
or_else_assoc none b c = refl
or_else_assoc (some v) b c = refl

same_key :
    (k key : Text) (kv : List (Text × Text)) → text_eq k key ≡ true → lookup key kv ≡ lookup k kv
same_key k key kv h = rw (text_eq→eq k key h)

emplace_absent :
    (k v : Text) (kv : List (Text × Text)) → lookup k kv ≡ none → emplace k v kv ≡ (k, v) ∷ kv
unfolding emplace
emplace_absent k v kv h = rw (h, emplace)

emplace_held : (k v w : Text) (kv : List (Text × Text)) → lookup k kv ≡ some w → emplace k v kv ≡ kv
unfolding emplace
emplace_held k v w kv h = rw (h, emplace)

or_else_if :
    (a : Option Text) (b : Bool) (v : Text) (r : Option Text)
    → or_else (or_else a (if b then some v else none)) r ≡ or_else a (if b then some v else r)
or_else_if a true v r = or_else_assoc a (some v) r
or_else_if a false v r = or_else_assoc a none r

lookup-emplace :
    (key k v : Text) (kv : List (Text × Text))
    → lookup key (emplace k v kv) ≡ or_else (lookup key kv) (if text_eq k key then some v else none)
lookup-emplace key k v kv = elim (Option-cases (lookup k kv)) [
  | inl absent ↦
      ap (lookup key) (emplace_absent k v kv absent)
      ∙ unfold lookup in fresh absent (Bool-cases (text_eq k key))
  | inr (w, held) ↦
      ap (lookup key) (emplace_held k v w kv held) ∙ kept w held (Bool-cases (text_eq k key))
]
  where
    fresh :
        lookup k kv ≡ none
        → (text_eq k key ≡ true) ⊎ (text_eq k key ≡ false)
        → (if text_eq k key then some v else lookup key kv)
          ≡ or_else (lookup key kv) (if text_eq k key then some v else none)
    fresh absent (inl e) = rw (e, same_key k key kv e, absent)
    fresh absent (inr e) = rw e (sym (or_else-none (lookup key kv)))

    kept :
        (w : Text)
        → lookup k kv ≡ some w
        → (text_eq k key ≡ true) ⊎ (text_eq k key ≡ false)
        → lookup key kv ≡ or_else (lookup key kv) (if text_eq k key then some v else none)
    kept w held (inl e) = rw (same_key k key kv e, held)
    kept w held (inr e) = rw e (sym (or_else-none (lookup key kv)))

module _ (kv : List (Text × Text)) (line : Text) where
  add_line-none : find_byte 58 line ≡ none → add_line kv line ≡ kv
  unfolding add_line
  add_line-none e = rw (e, add_line)

  add_line-some :
      (i : ℕ)
      → find_byte 58 line ≡ some i
      → add_line kv line ≡ emplace (trim (take i line)) (trim (drop (i + 1) line)) kv
  unfolding add_line
  add_line-some i e = rw (e, add_line)

module _ (key line : Text) (lines : List Text) where
  first_value-none :
      find_byte 58 line ≡ none → first_value key (line ∷ lines) ≡ first_value key lines
  unfolding first_value entry
  first_value-none e = rw (e, first_value, entry)

  first_value-some :
      (i : ℕ)
      → find_byte 58 line ≡ some i
      → first_value key (line ∷ lines) ≡ (
          if text_eq (trim (take i line)) key
          then some (trim (drop (i + 1) line))
          else first_value key lines)
  unfolding first_value entry
  first_value-some i e = rw (e, first_value, entry)

-- The lines one after the other, after those that `kv` holds.
lookup-add_lines :
    (key : Text) (kv : List (Text × Text)) (lines : List Text)
    → lookup key (add_lines kv lines) ≡ or_else (lookup key kv) (first_value key lines)
unfolding add_lines first_value
lookup-add_lines key kv [] = sym (or_else-none (lookup key kv))
lookup-add_lines key kv (line ∷ lines) =
    lookup-add_lines key (add_line kv line) lines ∙ one (Option-cases (find_byte 58 line))
  where
    one :
        (find_byte 58 line ≡ none) ⊎ ((i : ℕ) × (find_byte 58 line ≡ some i))
        → or_else (lookup key (add_line kv line)) (first_value key lines)
          ≡ or_else (lookup key kv) (first_value key (line ∷ lines))
    one (inl e) = rw (add_line-none kv line e, first_value-none key line lines e)
    one (inr (i, e)) =
        rw
          (
            add_line-some kv line i e,
            first_value-some key line lines i e,
            lookup-emplace key (trim (take i line)) (trim (drop (i + 1) line)) kv,
          )
          (or_else_if (lookup key kv) (text_eq (trim (take i line)) key) (trim (drop (i + 1) line))
            (first_value key lines))

-- The value of a key is that of the first line that has it, or none.
pub lookup-parse_kv :
    (key : Text) (path : Stream) → lookup key (parse_kv path) ≡ first_value key (read_lines path)
unfolding parse_kv first_value lookup
lookup-parse_kv key path = lookup-add_lines key [] (read_lines path)
