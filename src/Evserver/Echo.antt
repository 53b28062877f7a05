-- ===== src/Evserver/Echo.antt =====
-- What an echo server promises, whatever its backend (evserver/include/ev/server.hpp): sessions that
-- join, are heard, are answered and leave. Descriptors, buffers and queues are forgotten.
use linux_internals.Prelude.{ℕ, ◌≡◌, ◌≢◌, Option, none, some, [], ◌++◌, Text}

-- What a peer has sent, and what it was sent back.
pub record Session : Type 0 where
  pub heard : Text
  pub said : Text

-- The sessions by their numbers; none is nobody.
abbrev pub Sessions : Type 0
Sessions = ℕ → Option Session

abbrev pub nobody : Sessions
nobody i = none

-- What happens to one session. A session is heard only when it was answered in full, and is answered
-- with the next bytes of what it was heard to say.
pub data Change : Option Session → Option Session → Type 0 where
  joins : Change none (some (record { heard = []; said = [] }))
  hears :
      {x : Session} (bytes : Text)
      → x.heard ≡ x.said
      → Change (some x) (some (record x { heard = x.heard ++ bytes }))
  says :
      {x : Session} (bytes rest : Text)
      → x.heard ≡ x.said ++ (bytes ++ rest)
      → Change (some x) (some (record x { said = x.said ++ bytes }))
  leaves : {x : Session} → Change (some x) none

-- One session changes, and no other.
pub record Step (ss ss' : Sessions) : Type 0 where
  pub who : ℕ
  pub others : (j : ℕ) → j ≢ who → ss' j ≡ ss j
  pub change : Change (ss who) (ss' who)

pub data Steps (ss : Sessions) : Sessions → Type 0 where
  done : Steps ss ss
  then : {ss' ss'' : Sessions} → Steps ss ss' → Step ss' ss'' → Steps ss ss''

pub Steps-append : {ss ss' ss'' : Sessions} → Steps ss ss' → Steps ss' ss'' → Steps ss ss''
Steps-append p done = p
Steps-append p (then q t) = then (Steps-append p q) t
