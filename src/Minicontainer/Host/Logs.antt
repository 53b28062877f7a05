-- ===== src/Minicontainer/Host/Logs.antt =====
-- What the calls of minicontainer/src/util.cpp leave in the log.
use mathlib.Core.List.{append_assoc}
use linux_internals.Prelude.{
  ℕ, ◌≡◌, refl, sym, ap, ◌∙◌, ◌≢◌, inl, inr, true, false, Option, none, some, [], ◌∷◌, ◌++◌, arith,
  if◌then◌else◌, Bool-cases, length, Text,
}
use linux_internals.Minicontainer.Host.{
  FileCall, open_call, write_call, Log, Host, cannot_open, cannot_write, Outcome, done, failed,
  Task, continue, ◌>>=◌, is_whole, open_file, write_value, write_file, make_directory,
}

-- A log with more calls made since.
abbrev pub Grows : Log → Log → Type 0
Grows log log' = (newer : Log) × (log' ≡ newer ++ log)

-- The call is in the log.
abbrev pub Has : FileCall → Log → Type 0
Has c log = (newer : Log) × (older : Log) × (log ≡ newer ++ (c ∷ older))

-- The value was written to the path, the whole of it.
abbrev pub Wrote : Text → Text → Log → Type 0
Wrote path value = Has (write_call path value (some (length value)))

pub Grows-refl : (log : Log) → Grows log log
Grows-refl log = ([], refl)

pub Grows-trans : {a b c : Log} → Grows a b → Grows b c → Grows a c
Grows-trans {a} (n, e) (m, d) = (m ++ n, d ∙ (ap (λ l. m ++ l) e ∙ sym (append_assoc m n a)))

pub Grows-call : (c : FileCall) (log : Log) → Grows log (c ∷ log)
Grows-call c log = (c ∷ [], refl)

pub Has-call : (c : FileCall) (log : Log) → Has c (c ∷ log)
Has-call c log = ([], log, refl)

pub Has-Grows : {c : FileCall} {a b : Log} → Has c a → Grows a b → Has c b
Has-Grows {c} (newer, older, e) (n, d) =
    (n ++ newer, older, d ∙ (ap (λ l. n ++ l) e ∙ sym (append_assoc n newer (c ∷ older))))

-- A task that only adds to the log.
abbrev pub Adds : {A : Type 0} → Task A → Type 0
Adds m = (log : Log) → Grows log (m log).1

pub Adds-out :
    {A : Type 0} (m : Task A) (log : Log) {r : Outcome A} {out : Log}
    → Adds m
    → m log ≡ (r, out)
    → Grows log out
Adds-out m log a e = let (newer, g) = a log in (newer, sym (ap (λ x. x.1) e) ∙ g)

module _ {A B : Type 0} where
  pub >>=-Adds : (m : Task A) (f : A → Task B) → Adds m → ((a : A) → Adds (f a)) → Adds (m >>= f)
  >>=-Adds m f am af log = go (m log).0 (m log).1 (am log)
    where
      go : (r : Outcome A) (log' : Log) → Grows log log' → Grows log (continue r f log').1
      go (done a) log' g = Grows-trans g (af a log')
      go (failed e) log' g = g

  -- A bind that is done: so were its parts.
  pub >>=-done :
      (m : Task A) (f : A → Task B) (log : Log) {b : B} {out : Log}
      → (m >>= f) log ≡ (done b, out)
      → (a : A) × (mid : Log) × (m log ≡ (done a, mid)) × (f a mid ≡ (done b, out))
  >>=-done m f log {b} {out} h = go (m log).0 (m log).1 refl h
    where
      go :
          (r : Outcome A) (mid : Log)
          → m log ≡ (r, mid)
          → continue r f mid ≡ (done b, out)
          → (a : A) × (mid' : Log) × (m log ≡ (done a, mid')) × (f a mid' ≡ (done b, out))
      go (done a) mid e g = (a, mid, e, g)
      go (failed x) mid e g = cc

module _ (h : Host) where
  pub write_value-Adds : (path value : Text) → Adds (write_value h path value)
  unfolding write_value
  write_value-Adds path value log = Grows-call _ log

  pub write_file-Adds : (path value : Text) → Adds (write_file h path value)
  unfolding write_file open_file
  write_file-Adds path value log = elim (Bool-cases (h.opens log path)) [
    | inl ok ↦ rw ok (Grows-trans (Grows-call _ log) (write_value-Adds path value _))
    | inr out ↦ rw out (Grows-call _ log)
  ]

  pub make_directory-Adds : (path : Text) → Adds (make_directory h path)
  unfolding make_directory
  make_directory-Adds path log = Grows-call _ log

  is_whole-length :
      (value : Text) (n : Option ℕ) → is_whole value n ≡ true → n ≡ some (length value)
  unfolding is_whole
  is_whole-length value none e = cc
  is_whole-length value (some n) e = ap some (ground (arith, e))

  write_value-done :
      (path value : Text) (log out : Log)
      → write_value h path value log ≡ (done tt, out)
      → out ≡ write_call path value (some (length value)) ∷ log
  unfolding write_value
  write_value-done path value log out e = elim (Bool-cases (is_whole value n)) [
    | inl ok ↦ sym (ap (λ r. r.1) e) ∙ rw (is_whole-length value n ok)
    | inr part ↦ absurd (partly part (ap (λ r. r.0) e))
  ]
    where
      n : Option ℕ
      n = h.writes log path value

      partly :
          is_whole value n ≡ false
          → (if is_whole value n then done tt else failed (cannot_write path)) ≢ done tt
      partly f g = ground (arith, f, g)

  write_file_opened :
      (path value : Text) (log : Log)
      → h.opens log path ≡ true
      → write_file h path value log ≡ write_value h path value (open_call path true ∷ log)
  unfolding write_file open_file
  write_file_opened path value log ok =
      rw ok (ap (λ b. write_value h path value (open_call path b ∷ log)) ok)

  pub write_file_shut :
      (path value : Text) (log : Log)
      → h.opens log path ≡ false
      → write_file h path value log ≡ (failed (cannot_open path), open_call path false ∷ log)
  unfolding write_file open_file
  write_file_shut path value log shut =
      rw shut (ap (λ b. (failed (cannot_open path), open_call path b ∷ log)) shut)

  -- A write_file that succeeds has opened the file and written the whole value.
  pub write_file-done :
      (path value : Text) (log out : Log)
      → write_file h path value log ≡ (done tt, out)
      → out ≡ write_call path value (some (length value)) ∷ open_call path true ∷ log
  write_file-done path value log out e = elim (Bool-cases (h.opens log path)) [
    | inl ok ↦
        write_value-done path value (open_call path true ∷ log) out
          (sym (write_file_opened path value log ok) ∙ e)
    | inr shut ↦ absurd (cc (write_file_shut path value log shut))
  ]

  -- The calls of a write_file whose file opens.
  pub write_file_calls :
      (path value : Text) (log : Log)
      → h.opens log path ≡ true
      → (n : Option ℕ) × ((write_file h path value log).1
          ≡ write_call path value n ∷ open_call path true ∷ log)
  write_file_calls path value log ok = (
    h.writes (open_call path true ∷ log) path value,
    rw (write_file_opened path value log ok) (unfold write_value in refl),
  )
