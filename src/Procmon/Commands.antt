-- ===== src/Procmon/Commands.antt =====
-- main and resolve_pid of procmon/src/main.cpp: which command runs, on which process.
use linux_internals.Prelude.{
  ℕ, ◌^◌, ◌≡◌, refl, ◌⊎◌, inl, inr, Bool, true, false, ◌||◌, Option, none, some, List, [], ◌∷◌,
  arith, ltb, if◌then◌else◌, Bool-cases, to_string, AllDigits, decimal_value-to_string,
  to_string-AllDigits, to_string_nonempty, Text, codes, text_eq, is_digit,
}
use linux_internals.Procmon.Util.{all_digits, is_number}
use linux_internals.Procmon.Process.Threads.{stoi_digits}

-- What resolve_pid returns: a pid, -1, or the out_of_range that std::stoi throws.
pub data Pid : Type 0 where
  pid : ℕ → Pid
  invalid : Pid
  thrown : Pid

-- The command that main calls, or how it ends without one; nobody catches an exception.
pub data Command : Type 0 where
  list : List Text → Command
  mem : Command
  show : ℕ → Command
  threads : ℕ → Command
  maps : ℕ → Command
  exit : ℕ → Command
  uncaught : Command

unfoldable pub pid_of : Option ℕ → Pid
pid_of none = thrown
pid_of (some n) = pid n

-- `self` is what getpid returns.
unfoldable pub resolve_pid : ℕ → Text → Pid
resolve_pid self arg =
    if text_eq arg (codes "self")
    then pid self
    else if is_number arg
    then pid_of (stoi_digits arg)
    else invalid

unfoldable pub on_process : Text → Pid → Command
on_process command thrown = uncaught
on_process command invalid = exit 2
on_process command (pid n) =
    if text_eq command (codes "show")
    then show n
    else if text_eq command (codes "threads")
    then threads n
    else maps n

unfoldable pub process_command : ℕ → Text → List Text → Command
process_command self command [] = exit 2
process_command self command (arg ∷ args) = on_process command (resolve_pid self arg)

unfoldable pub is_process_command : Text → Bool
is_process_command command =
    text_eq command (codes "show")
    || text_eq command (codes "threads")
    || text_eq command (codes "maps")

unfoldable pub main : ℕ → List Text → Command
main self [] = exit 2
main self (command ∷ args) =
    if text_eq command (codes "-h") || text_eq command (codes "--help")
    then exit 0
    else if text_eq command (codes "list")
    then list args
    else if text_eq command (codes "mem")
    then mem
    else if is_process_command command
    then process_command self command args
    else exit 2

not_self : (s : Text) → AllDigits s → text_eq s (codes "self") ≡ false
unfolding text_eq is_digit
not_self [] h = refl
not_self (c ∷ s) h = ground (arith, h.0)

AllDigits-all_digits : (s : Text) → AllDigits s → all_digits s ≡ true
unfolding all_digits
AllDigits-all_digits [] h = refl
AllDigits-all_digits (c ∷ s) h = rw h.0 (AllDigits-all_digits s h.1)

is_number-to_string : (n : ℕ) → is_number (to_string n) ≡ true
unfolding is_number
is_number-to_string n =
    rw (to_string_nonempty n) (AllDigits-all_digits (to_string n) (to_string-AllDigits n))

resolve_pid-to_string :
    (self n : ℕ) → resolve_pid self (to_string n) ≡ (if ltb n (2 ^ 31) then pid n else thrown)
unfolding resolve_pid stoi_digits pid_of
resolve_pid-to_string self n =
    rw
      (
        not_self (to_string n) (to_string-AllDigits n),
        is_number-to_string n,
        decimal_value-to_string n,
      )
      (go (Bool-cases (ltb n (2 ^ 31))))
  where
    go :
        (ltb n (2 ^ 31) ≡ true) ⊎ (ltb n (2 ^ 31) ≡ false)
        → pid_of (if ltb n (2 ^ 31) then some n else none)
          ≡ (if ltb n (2 ^ 31) then pid n else thrown)
    go (inl e) = rw e
    go (inr e) = rw e

-- show, threads and maps on a number run on the process of that number if it fits an int; if it
-- does not, nobody catches what std::stoi throws.
pub main-to_string :
    (self n : ℕ) (args : List Text)
    → (main self (codes "show" ∷ to_string n ∷ args)
        ≡ (if ltb n (2 ^ 31) then show n else uncaught))
      × (main self (codes "threads" ∷ to_string n ∷ args)
          ≡ (if ltb n (2 ^ 31) then threads n else uncaught))
      × (main self (codes "maps" ∷ to_string n ∷ args)
          ≡ (if ltb n (2 ^ 31) then maps n else uncaught))
unfolding main is_process_command process_command on_process text_eq
main-to_string self n args = rw (resolve_pid-to_string self n) (elim (Bool-cases (ltb n (2 ^ 31))) [
  | inl e ↦ rw e (refl, refl, refl)
  | inr e ↦ rw e (refl, refl, refl)
])
