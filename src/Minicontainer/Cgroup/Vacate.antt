-- ===== src/Minicontainer/Cgroup/Vacate.antt =====
-- The writes of pids that vacate_root (minicontainer/src/cgroup.cpp) attempts.
use mathlib.Core.List.{append_assoc, append-nil}
use linux_internals.Minicontainer.Host.Logs.{write_file_calls}
use linux_internals.Prelude.{
  ℕ, zero, suc, ◌+◌, ◌≤◌, ◌≡◌, refl, sym, ap, ◌∙◌, ◌≢◌, true, false, ◌||◌, some, List, [], ◌∷◌,
  ◌++◌, map, arith, ◌==◌, if◌then◌else◌, drop-suc-append, Without, find_byte-append, find_byte-none,
  unlines, to_string, AllDigits, to_string-AllDigits, to_string_nonempty, length, is_empty, take,
  drop, All, length-append, take_all, take-length-append, drop_all, All-mono, Text, codes, text_eq,
  text_eq_refl, is_digit,
}
use linux_internals.Minicontainer.Cgroup.{
  root, line_end, move_pid, move_pids, vacate_to, vacate_some, vacate_root,
}
use linux_internals.Minicontainer.Host.{
  MkdirAnswer, made, exists, refused, write_call, read_call, Log, Host, done, Task, ◌>>◌,
  pop_blanks, read_file, make_directory,
}

-- The texts that were offered to the path by a write, whatever it answered, in order.
unfoldable pub attempted : Text → Log → List Text
attempted path [] = []
attempted path (write_call q value n ∷ log) =
    attempted path log ++ (if text_eq q path then value ∷ [] else [])
attempted path (c ∷ log) = attempted path log

abbrev pub init : Text
init = root ++ codes "/init"

abbrev pub init_procs : Text
init_procs = init ++ codes "/cgroup.procs"

-- Texts with a newline between each two.
join : List Text → Text
join [] = []
join (w ∷ []) = w
join (w ∷ v ∷ ws) = w ++ (10 ∷ join (v ∷ ws))

abbrev IsPid : Text → Type 0
IsPid w = Without 10 w × (is_empty w ≡ false)

pop_blanks-digits : (w s : Text) → AllDigits w → pop_blanks (w ++ s) ≡ w ++ pop_blanks s
unfolding pop_blanks is_digit
pop_blanks-digits [] s h = refl
pop_blanks-digits (c ∷ w) s h = rw (not_blank, pop_blanks-digits w s h.1)
  where
    not_blank : (c == 10 || c == 32) ≡ false
    not_blank = ground (arith, h.0)

is_empty-append : (w s : Text) → is_empty w ≡ false → is_empty (w ++ s) ≡ false
is_empty-append [] s e = cc
is_empty-append (c ∷ w) s e = refl

join_nonempty : (n : ℕ) (ps : List ℕ) → is_empty (join (map to_string (n ∷ ps))) ≡ false
unfolding join
join_nonempty n [] = to_string_nonempty n
join_nonempty n (m ∷ ps) = is_empty-append (to_string n) _ (to_string_nonempty n)

pop_blanks_newline :
    (s : Text) → is_empty (pop_blanks s) ≡ false → pop_blanks (10 ∷ s) ≡ 10 ∷ pop_blanks s
unfolding pop_blanks
pop_blanks_newline s e = rw e

pop_blanks-unlines :
    (ps : List ℕ) → pop_blanks (unlines (map to_string ps)) ≡ join (map to_string ps)
unfolding unlines join
pop_blanks-unlines [] = unfold pop_blanks in refl
pop_blanks-unlines (n ∷ []) =
    pop_blanks-digits (to_string n) (10 ∷ []) (to_string-AllDigits n)
    ∙ unfold pop_blanks in append-nil (to_string n)
pop_blanks-unlines (n ∷ m ∷ ps) =
    let ih = pop_blanks-unlines (m ∷ ps) in
    pop_blanks-digits (to_string n) _ (to_string-AllDigits n)
    ∙ ap (λ s. to_string n ++ s)
        (pop_blanks_newline _ (rw ih (join_nonempty m ps)) ∙ ap (◌∷◌ 10) ih)

line_end-append : (w s : Text) → Without 10 w → line_end (w ++ (10 ∷ s)) ≡ length w
unfolding line_end
line_end-append w s h = rw (find_byte-append 10 w s h, line_end)

line_end_last : (w : Text) → Without 10 w → line_end w ≡ length w
unfolding line_end
line_end_last w h = rw (find_byte-none 10 w h, line_end)

-- The round of move_pids on a text that is not empty.
abbrev after_line : Host → ℕ → Text → ℕ → Task Unit
after_line h f s e = move_pid h init (take e s) >> move_pids h f init (drop (e + 1) s)

move_pid-done : (h : Host) (leaf w : Text) (log : Log) → (move_pid h leaf w log).0 ≡ done tt
unfolding move_pid
move_pid-done h leaf [] log = refl
move_pid-done h leaf (c ∷ w) log = refl

after_line-pid :
    (h : Host) (f : ℕ) (s w rest : Text) (log : Log) (e : ℕ)
    → take e s ≡ w
    → drop (e + 1) s ≡ rest
    → after_line h f s e log ≡ move_pids h f init rest (move_pid h init w log).1
after_line-pid h f s w rest log e t d = rw (t, d) (rw (move_pid-done h init w log))

module _ (h : Host) (f : ℕ) where
  move_pids_round :
      (s : Text) (log : Log)
      → is_empty s ≡ false
      → move_pids h (suc f) init s log ≡ after_line h f s (line_end s) log
  unfolding move_pids
  move_pids_round [] log e = cc
  move_pids_round (c ∷ s) log e = refl

  -- A round on a pid and a newline, and on the last pid.
  move_pids_line :
      (w s : Text) (log : Log)
      → IsPid w
      → move_pids h (suc f) init (w ++ (10 ∷ s)) log
        ≡ move_pids h f init s (move_pid h init w log).1
  move_pids_line w s log p =
      move_pids_round (w ++ (10 ∷ s)) log (is_empty-append w (10 ∷ s) p.1)
      ∙ after_line-pid h f (w ++ (10 ∷ s)) w s log (line_end (w ++ (10 ∷ s)))
          (rw (line_end-append w s p.0) (take-length-append w (10 ∷ s)))
          (rw (line_end-append w s p.0) (drop-suc-append w 10 s))

  move_pids_last :
      (w : Text) (log : Log)
      → IsPid w
      → move_pids h (suc f) init w log ≡ move_pids h f init [] (move_pid h init w log).1
  move_pids_last w log p =
      move_pids_round w log p.1
      ∙ after_line-pid h f w w [] log (line_end w)
          (rw (line_end_last w p.0) (take_all (length w) w (omega arith)))
          (rw (line_end_last w p.0) (drop_all (length w + 1) w (omega arith)))

  move_pids_none : (log : Log) → move_pids h f init [] log ≡ (done tt, log)
  move_pids_none log = go f log
    where
      go : (f : ℕ) (log : Log) → move_pids h f init [] log ≡ (done tt, log)
      go zero log = unfold move_pids in refl
      go (suc f) log = unfold move_pids in refl

vacate_some_cons :
    (h : Host) (s : Text) (log : Log)
    → is_empty s ≡ false
    → vacate_some h (some s) log ≡ vacate_to h init s log
unfolding vacate_some
vacate_some_cons h [] log e = cc
vacate_some_cons h (c ∷ s) log e = refl

digits-Without : (s : Text) → AllDigits s → Without 10 s
digits-Without s h = All-mono _ _ s (λ c d. not_newline c d) h
  where
    not_newline : (c : ℕ) → is_digit c ≡ true → (c == 10) ≡ false
    not_newline c d = unfold is_digit in ground (arith, d)

pids-IsPid : (ps : List ℕ) → All IsPid (map to_string ps)
pids-IsPid [] = tt
pids-IsPid (n ∷ ps) =
    ((digits-Without (to_string n) (to_string-AllDigits n), to_string_nonempty n), pids-IsPid ps)

module _ (h : Host) (opens : (l : Log) → h.opens l init_procs ≡ true) where
  move_pid-attempted :
      (w : Text) (log : Log)
      → is_empty w ≡ false
      → attempted init_procs (move_pid h init w log).1 ≡ attempted init_procs log ++ (w ∷ [])
  unfolding move_pid
  move_pid-attempted [] log e = cc
  move_pid-attempted (c ∷ w) log e =
      let (n, calls) = write_file_calls h init_procs (c ∷ w) log (opens log) in
      ap (attempted init_procs) calls ∙ unfold attempted in rw (text_eq_refl init_procs)

  move_pids-attempted :
      (f : ℕ) (ws : List Text) (log : Log)
      → length (join ws) ≤ f
      → All IsPid ws
      → attempted init_procs (move_pids h f init (join ws) log).1 ≡ attempted init_procs log ++ ws
  unfolding join
  move_pids-attempted f [] log l p =
      rw (move_pids_none h f log, append-nil (attempted init_procs log))
  move_pids-attempted f ([] ∷ ws) log l p = absurd (ground (arith, p.0.1))
  move_pids-attempted zero ((c ∷ w) ∷ []) log l p = absurd (omega arith)
  move_pids-attempted zero ((c ∷ w) ∷ v ∷ ws) log l p = absurd (omega arith)
  move_pids-attempted (suc f) ((c ∷ w) ∷ []) log l p =
      rw (move_pids_last h f (c ∷ w) log p.0, move_pids_none h f (move_pid h init (c ∷ w) log).1)
        (move_pid-attempted (c ∷ w) log refl)
  move_pids-attempted (suc f) ((c ∷ w) ∷ v ∷ ws) log l p =
      rw (move_pids_line h f (c ∷ w) (join (v ∷ ws)) log p.0) (
        move_pids-attempted f (v ∷ ws) (move_pid h init (c ∷ w) log).1
          (omega (arith, l, length-append (c ∷ w) (10 ∷ join (v ∷ ws)))) p.1
        ∙ rw (
          move_pid-attempted (c ∷ w) log refl,
          append_assoc (attempted init_procs log) ((c ∷ w) ∷ []) (v ∷ ws),
        ))

  vacate_to-attempted :
      (s : Text) (ws : List Text) (log : Log)
      → s ≡ join ws
      → All IsPid ws
      → h.mkdir log init ≢ refused
      → attempted init_procs (vacate_to h init s log).1 ≡ attempted init_procs log ++ ws
  unfolding vacate_to make_directory
  vacate_to-attempted s ws log e p m = go (h.mkdir log init) refl
    where
      go :
          (a : MkdirAnswer)
          → h.mkdir log init ≡ a
          → attempted init_procs (vacate_to h init s log).1 ≡ attempted init_procs log ++ ws
      go refused r = absurd (m r)
      go made r =
          rw (r, e)
            (move_pids-attempted (length (join ws)) ws _ (omega arith) p ∙ unfold attempted in refl)
      go exists r =
          rw (r, e)
            (move_pids-attempted (length (join ws)) ws _ (omega arith) p ∙ unfold attempted in refl)

  vacate_some-attempted :
      (procs : List ℕ) (log : Log)
      → h.mkdir log init ≢ refused
      → attempted init_procs (vacate_some h (some (join (map to_string procs))) log).1
        ≡ attempted init_procs log ++ map to_string procs
  unfolding vacate_some
  vacate_some-attempted [] log m = unfold join in sym (append-nil (attempted init_procs log))
  vacate_some-attempted (n ∷ ps) log m =
      ap (λ r. attempted init_procs r.1)
        (vacate_some_cons h (join (map to_string (n ∷ ps))) log (join_nonempty n ps))
      ∙ vacate_to-attempted (join (map to_string (n ∷ ps))) (map to_string (n ∷ ps)) log refl
          (pids-IsPid (n ∷ ps)) m

  -- For each number listed in the root's cgroup.procs one write of it to init/cgroup.procs is attempted,
  -- in order, if that file opens and mkdir does not refuse init; what the writes answer does not matter.
  pub vacate_root-attempted :
      (procs : List ℕ) (log : Log)
      → h.reads log (root ++ codes "/cgroup.procs") ≡ some (unlines (map to_string procs))
      → h.mkdir
          (read_call (root ++ codes "/cgroup.procs") (some (unlines (map to_string procs))) ∷ log)
          init
        ≢ refused
      → attempted init_procs (vacate_root h log).1 ≡ attempted init_procs log ++ map to_string procs
  unfolding vacate_root read_file
  vacate_root-attempted procs log r m =
      rw (r, pop_blanks-unlines procs) (vacate_some-attempted procs _ m ∙ unfold attempted in refl)
