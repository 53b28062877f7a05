-- ===== src/Evserver/Exec.antt =====
-- Code that changes a state and may still be looping when its fuel is spent: no result then, but the
-- state reached is kept, so that what holds at every moment can be stated.
use linux_internals.Prelude.{Option, none, some}

abbrev pub Exec : Type 0 → Type 0 → Type 0
Exec S A = S → Option A × S

module _ {S A : Type 0} where
  abbrev pub pure : A → Exec S A
  pure a s = (some a, s)

  abbrev pub out_of_fuel : Exec S A
  out_of_fuel s = (none, s)

module _ {S A B : Type 0} where
  abbrev pub continue : Option A → (A → Exec S B) → Exec S B
  continue none f s = (none, s)
  continue (some a) f s = f a s

  infixl 5 ◌>>=◌ ◌>>◌
  abbrev pub ◌>>=◌ : Exec S A → (A → Exec S B) → Exec S B
  ◌>>=◌ m f s = let (r, s') = m s in continue r f s'

  abbrev pub ◌>>◌ : Exec S A → Exec S B → Exec S B
  m >> n = m >>= λ _. n
