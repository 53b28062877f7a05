-- ===== src/Minicontainer/Cgroup/Create.antt =====
-- What Cgroup::create and the setters have done when they succeed (minicontainer/src/cgroup.cpp).
use mathlib.Core.Option
use mathlib.Core.Path.{subst}
use linux_internals.Prelude.{
  ℕ, zero, suc, ◌+◌, ◌≡◌, refl, sym, ap, ◌≢◌, Bool, true, false, Option, none, some, [], ◌∷◌, ◌++◌,
  if◌then◌else◌, length, take, drop, Text, codes,
}
use linux_internals.Minicontainer.Host.{
  MkdirAnswer, refused, read_call, mkdir_call, Log, Host, done, pure, pop_blanks, read_file,
  make_directory,
}
use linux_internals.Minicontainer.Host.Logs.{
  Grows, Has, Wrote, Grows-refl, Grows-trans, Grows-call, Has-call, Has-Grows, Adds, Adds-out,
  >>=-Adds, >>=-done, write_file-Adds, make_directory-Adds, write_file-done,
}
use linux_internals.Minicontainer.Cgroup.{
  root, parent, line_end, holds, wanted, move_pid, move_pids, vacate_to, vacate_some, vacate_root,
  enable, enable_available, enable_controllers, require_v2, create,
}

-- The text that enables memory and pids, as far as each is there.
abbrev pub enable_text : Bool → Bool → Text
enable_text true true = codes "+memory +pids"
enable_text true false = codes "+memory "
enable_text false true = codes "+pids"
enable_text false false = []

wanted-enable_text :
    (names : Text)
    → wanted names ≡ enable_text (holds names (codes "memory")) (holds names (codes "pids"))
unfolding wanted
wanted-enable_text names = go (holds names (codes "memory")) (holds names (codes "pids"))
  where
    go :
        (m p : Bool)
        → (if m then codes "+memory " else []) ++ (if p then codes "+pids" else [])
          ≡ enable_text m p
    go true true = refl
    go true false = refl
    go false true = refl
    go false false = refl

-- Of memory and pids those that the directory reported are enabled for its children.
abbrev pub Enabled : Text → Log → Type 0
Enabled dir log =
    (available : Text) × Has (read_call (dir ++ codes "/cgroup.controllers") (some available)) log
    × Wrote (dir ++ codes "/cgroup.subtree_control")
        (enable_text (holds (pop_blanks available) (codes "memory"))
          (holds (pop_blanks available) (codes "pids")))
        log

-- The directory is there: mkdir made it, or reported that it exists.
abbrev pub Made : Text → Log → Type 0
Made path log = (a : MkdirAnswer) × Has (mkdir_call path a) log × (a ≢ refused)

Enabled-Grows : (dir : Text) {a b : Log} → Enabled dir a → Grows a b → Enabled dir b
Enabled-Grows dir (raw, r, w) g = (raw, Has-Grows r g, Has-Grows w g)

Made-Grows : {path : Text} {a b : Log} → Made path a → Grows a b → Made path b
Made-Grows (x, r, n) g = (x, Has-Grows r g, n)

module _ (h : Host) where
  move_pid-Adds : (leaf pid : Text) → Adds (move_pid h leaf pid)
  unfolding move_pid
  move_pid-Adds leaf [] log = Grows-refl log
  move_pid-Adds leaf (c ∷ pid) log = write_file-Adds h (leaf ++ codes "/cgroup.procs") (c ∷ pid) log

  move_pids-Adds : (f : ℕ) (leaf s : Text) → Adds (move_pids h f leaf s)
  unfolding move_pids
  move_pids-Adds zero leaf s log = Grows-refl log
  move_pids-Adds (suc f) leaf [] log = Grows-refl log
  move_pids-Adds (suc f) leaf (c ∷ s) log =
      >>=-Adds (move_pid h leaf (take (line_end (c ∷ s)) (c ∷ s)))
        (λ _. move_pids h f leaf (drop (line_end (c ∷ s) + 1) (c ∷ s))) (move_pid-Adds leaf _)
        (λ _. move_pids-Adds f leaf _) log

  vacate_some-Adds : (procs : Option Text) → Adds (vacate_some h procs)
  unfolding vacate_some vacate_to
  vacate_some-Adds none log = Grows-refl log
  vacate_some-Adds (some []) log = Grows-refl log
  vacate_some-Adds (some (c ∷ procs)) log =
      >>=-Adds (make_directory h (root ++ codes "/init"))
        (λ _. move_pids h (length (c ∷ procs)) (root ++ codes "/init") (c ∷ procs))
        (make_directory-Adds h _) (λ _. move_pids-Adds (length (c ∷ procs)) _ (c ∷ procs)) log

  pub vacate_root-Adds : Adds (vacate_root h)
  unfolding vacate_root read_file
  vacate_root-Adds log = Grows-trans (Grows-call _ log) (vacate_some-Adds _ _)

  enable-done :
      (dir names : Text) (log out : Log)
      → enable h dir names log ≡ (done tt, out)
      → Wrote (dir ++ codes "/cgroup.subtree_control") names out
  unfolding enable
  enable-done dir [] log out e = cc
  enable-done dir (c ∷ names) log out e =
      rw (write_file-done h (dir ++ codes "/cgroup.subtree_control") (c ∷ names) log out e)
        (Has-call _ _)

  enable-Adds : (dir names : Text) → Adds (enable h dir names)
  unfolding enable
  enable-Adds dir [] log = Grows-refl log
  enable-Adds dir (c ∷ names) log = write_file-Adds h _ (c ∷ names) log

  enable_available-done :
      (dir : Text) (raw : Option Text) (log mid out : Log)
      → Has (read_call (dir ++ codes "/cgroup.controllers") raw) mid
      → Grows log mid
      → enable_available h dir (Option.map pop_blanks raw) mid ≡ (done tt, out)
      → Enabled dir out × Grows log out
  unfolding enable_available
  enable_available-done dir none log mid out r g e = cc
  enable_available-done dir (some raw) log mid out r g e =
      let grown = Adds-out (enable h dir (wanted (pop_blanks raw))) mid (enable-Adds dir _) e in
      (
        (
          raw,
          Has-Grows r grown,
          subst (λ names. Wrote (dir ++ codes "/cgroup.subtree_control") names out)
              (wanted-enable_text (pop_blanks raw))
              (enable-done dir (wanted (pop_blanks raw)) mid out e),
        ),
        Grows-trans g grown,
      )

  pub enable_controllers-done :
      (dir : Text) (log out : Log)
      → enable_controllers h dir log ≡ (done tt, out)
      → Enabled dir out × Grows log out
  unfolding enable_controllers read_file
  enable_controllers-done dir log out e =
      enable_available-done dir (h.reads log (dir ++ codes "/cgroup.controllers")) log _ out
        (Has-call _ log) (Grows-call _ log) e

  make_directory-done :
      (path : Text) (log out : Log)
      → make_directory h path log ≡ (done tt, out)
      → Made path out × Grows log out
  unfolding make_directory
  make_directory-done path log out e = (
    (h.mkdir log path, rw (sym (ap (λ r. r.1) e)) (Has-call _ log), λ r. cc),
    rw (sym (ap (λ r. r.1) e)) (Grows-call _ log),
  )

  -- If create succeeds, path_ is the directory of that name under the parent, which is there, and of
  -- memory and pids those that the root and the parent reported were enabled for their children.
  pub create-Enabled :
      (name : Text) (log out : Log) (path : Text)
      → create h name log ≡ (done path, out)
      → (path ≡ parent ++ (codes "/" ++ name))
        × Made path out
        × Made parent out
        × Enabled root out
        × Enabled parent out
  unfolding create
  create-Enabled name log out path e =
      let (_, l1, e1, r1) = >>=-done (require_v2 h) _ log e in
      let (_, l2, e2, r2) = >>=-done (vacate_root h) _ l1 r1 in
      let (_, l3, e3, r3) = >>=-done (enable_controllers h root) _ l2 r2 in
      let (_, l4, e4, r4) = >>=-done (make_directory h parent) _ l3 r3 in
      let (_, l5, e5, r5) = >>=-done (enable_controllers h parent) _ l4 r4 in
      let (_, l6, e6, r6) = >>=-done (make_directory h (parent ++ (codes "/" ++ name))) _ l5 r5 in
      let (root_on, g3) = enable_controllers-done root l2 l3 e3 in
      let (parent_made, g4) = make_directory-done parent l3 l4 e4 in
      let (parent_on, g5) = enable_controllers-done parent l4 l5 e5 in
      let (path_made, g6) = make_directory-done (parent ++ (codes "/" ++ name)) l5 l6 e6 in
      let same : out ≡ l6 = sym (ap (λ r. r.1) r6) in
      let named : path ≡ parent ++ (codes "/" ++ name) = named_path r6 in
      let after_parent = Grows-trans g5 g6 in
      (
        named,
        rw (named, same) path_made,
        rw same (Made-Grows parent_made after_parent),
        rw same (Enabled-Grows root root_on (Grows-trans g4 after_parent)),
        rw same (Enabled-Grows parent parent_on g6),
      )
    where
      named_path :
          {l : Log}
          → pure (parent ++ (codes "/" ++ name)) l ≡ (done path, out)
          → path ≡ parent ++ (codes "/" ++ name)
      named_path r = cc (ap (λ x. x.0) r)
