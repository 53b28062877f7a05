-- ===== src/Minicontainer/Host.antt =====
-- write_file and read_file of minicontainer/src/util.cpp, over the calls that the runtime makes on
-- files. What the host answers is any function of the calls made so far, which a log lists with
-- their answers, the newest first.
pub mod Logs
use mathlib.Core.Option
use linux_internals.Prelude.{
  ℕ, Bool, true, false, ◌&&◌, ◌||◌, Option, none, some, List, [], ◌∷◌, map, ◌==◌, if◌then◌else◌,
  length, is_empty, Text,
}

-- What mkdir returns: whether it succeeded, and if not whether errno is EEXIST.
pub data MkdirAnswer : Type 0 where
  made : MkdirAnswer
  exists : MkdirAnswer
  refused : MkdirAnswer

-- The calls on files, each with its path: an open for writing, a write of a text (none is an
-- error), what a file held (none is a file that cannot be opened), a mkdir, an rmdir, and the
-- f_type that statfs gives.
pub data FileCall : Type 0 where
  open_call : Text → Bool → FileCall
  write_call : Text → Text → Option ℕ → FileCall
  read_call : Text → Option Text → FileCall
  mkdir_call : Text → MkdirAnswer → FileCall
  rmdir_call : Text → FileCall
  statfs_call : Text → Option ℕ → FileCall

abbrev pub Log : Type 0
Log = List FileCall

pub record Host : Type 0 where
  pub opens : Log → Text → Bool
  pub writes : Log → Text → Text → Option ℕ
  pub reads : Log → Text → Option Text
  pub mkdir : Log → Text → MkdirAnswer
  pub statfs : Log → Text → Option ℕ

-- What *error tells: the step that failed and its path.
pub data Failure : Type 0 where
  cannot_open : Text → Failure
  cannot_write : Text → Failure
  cannot_read : Text → Failure
  cannot_mkdir : Text → Failure
  not_cgroup2 : Text → Failure
  no_controllers : Text → Failure

pub data Outcome (A : Type 0) : Type 0 where
  done : A → Outcome A
  failed : Failure → Outcome A

abbrev pub Task : Type 0 → Type 0
Task A = Log → Outcome A × Log

module _ {A : Type 0} where
  abbrev pub pure : A → Task A
  pure a log = (done a, log)

  abbrev pub fail : Failure → Task A
  fail e log = (failed e, log)

  -- A task whose failure nobody looks at.
  abbrev pub ignore : Task A → Task Unit
  ignore m log = let (r, log') = m log in (done tt, log')

module _ {A B : Type 0} where
  abbrev pub continue : Outcome A → (A → Task B) → Task B
  continue (done a) f log = f a log
  continue (failed e) f log = (failed e, log)

  infixl 5 ◌>>=◌ ◌>>◌
  abbrev pub ◌>>=◌ : Task A → (A → Task B) → Task B
  ◌>>=◌ m f log = let (r, log') = m log in continue r f log'

  abbrev pub ◌>>◌ : Task A → Task B → Task B
  m >> n = m >>= λ _. n

-- The whole value was written.
unfoldable pub is_whole : Text → Option ℕ → Bool
is_whole value none = false
is_whole value (some n) = n == length value

-- The loop that pops newlines and spaces off the end.
unfoldable pub pop_blanks : Text → Text
pop_blanks [] = []
pop_blanks (c ∷ s) =
    let rest = pop_blanks s in if (c == 10 || c == 32) && is_empty rest then [] else c ∷ rest

module _ (h : Host) where
  unfoldable pub open_file : Text → Log → Bool × Log
  open_file path log = let ok = h.opens log path in (ok, open_call path ok ∷ log)

  -- ::write, and the test of its count.
  unfoldable pub write_value : Text → Text → Task Unit
  write_value path value log =
      let n = h.writes log path value in
      (
        (if is_whole value n then done tt else failed (cannot_write path)),
        write_call path value n ∷ log,
      )

  unfoldable pub write_file : Text → Text → Task Unit
  write_file path value log =
      let (ok, log') = open_file path log in
      elim ok [ false ↦ (failed (cannot_open path), log') | true ↦ write_value path value log' ]

  unfoldable pub read_file : Text → Log → Option Text × Log
  read_file path log =
      let content = h.reads log path in
      (Option.map pop_blanks content, read_call path content ∷ log)

  -- mkdir, for which EEXIST is no failure.
  unfoldable pub make_directory : Text → Task Unit
  make_directory path log =
      let answer = h.mkdir log path in
      (
        (elim answer [ made ↦ done tt | exists ↦ done tt | refused ↦ failed (cannot_mkdir path) ]),
        mkdir_call path answer ∷ log,
      )
