-- ===== src/Evserver/Uring/Sessions.antt =====
-- The sessions of the io_uring server (evserver/src/server_uring.cpp), and what its changes of
-- connections_ do to them.
use mathlib.Core.Option
use mathlib.Core.Path.{fun_ext, subst}
use linux_internals.Evserver.Uring.Table.{
  Distinct, clash, ==_false, find_hit, find_miss, All-find, find-erase_self, find-update_self,
  find-update_ne,
}
use linux_internals.Evserver.Echo.{Session, Sessions, Change, joins, leaves, Step}
use linux_internals.Prelude.{
  ℕ, ◌≡◌, refl, sym, ap, ◌∙◌, ◌≢◌, inl, inr, true, false, none, some, List, [], ◌∷◌, arith, ◌==◌,
  ==_iff, ==_refl, Bool-cases, All,
}
use linux_internals.Evserver.Uring.{Conn, find, update, erase}

abbrev pub session : Conn → Session
session c = record { heard = c.delivered; said = c.returned }

-- The sessions of connections_.
unfoldable pub sessions : List Conn → Sessions
sessions cs id = Option.map session (find id cs)

find-none : (id : ℕ) (cs : List Conn) → All (λ d. d.id ≢ id) cs → find id cs ≡ none
unfolding find
find-none id [] h = refl
find-none id (c ∷ cs) h = rw (==_false c.id id h.0) (find-none id cs h.1)

find-erase_other :
    (i j : ℕ) (cs : List Conn) (c : Conn)
    → Distinct cs
    → find i cs ≡ some c
    → j ≢ i
    → find j (erase c.fd cs) ≡ find j cs
unfolding find erase
find-erase_other i j [] c h e ne = refl
find-erase_other i j (d ∷ cs) c h e ne = elim (Bool-cases (d.id == i)) [
  | inl hit ↦
      let same = find_hit d c i cs hit e in
      let here : (d.fd == c.fd) ≡ true = (==_iff d.fd c.fd).1 (ap (λ (x : Conn). x.fd) same) in
      let away : (d.id == j) ≡ false = ==_false d.id j (λ q. ne (sym q ∙ (==_iff d.id i).0 hit)) in
      rw (here, away) refl
  | inr miss ↦
      let e' = sym (find_miss d i cs miss) ∙ e in
      let apart = (All-find (λ y. (y.fd ≢ d.fd) × (y.id ≢ d.id)) i cs c h.0 e').0 in
      let there : (d.fd == c.fd) ≡ false = ==_false d.fd c.fd (λ q. apart (sym q)) in
      rw there (ground (arith, find-erase_other i j cs c h.1 e' ne))
]

module _ (cs : List Conn) (c : Conn) (here : find c.id cs ≡ some c) where
  pub found : sessions cs c.id ≡ some (session c)
  unfolding sessions
  found = ap (Option.map session) here

  pub erased : Distinct cs → sessions (erase c.fd cs) c.id ≡ none
  unfolding sessions
  erased h =
      ap (Option.map session) (find-none c.id (erase c.fd cs) (find-erase_self c.id cs c h here))

  pub erase_others : Distinct cs → (j : ℕ) → j ≢ c.id → sessions (erase c.fd cs) j ≡ sessions cs j
  unfolding sessions
  erase_others h j ne = ap (Option.map session) (find-erase_other c.id j cs c h here ne)

  -- A connection that is erased leaves.
  pub erase-Step : Distinct cs → Step (sessions cs) (sessions (erase c.fd cs))
  unfolding sessions
  erase-Step h = record {
    who = c.id;
    others = erase_others h;
    change = rw (here, find-none c.id (erase c.fd cs) (find-erase_self c.id cs c h here)) leaves;
  }

  updated : (d : Conn) → d.id ≡ c.id → find c.id (update d cs) ≡ some d
  updated d i = subst (λ i. find i (update d cs) ≡ some d) i (find-update_self d cs c (rw i here))

  pub update_others :
      (d : Conn) → d.id ≡ c.id → (j : ℕ) → j ≢ c.id → sessions (update d cs) j ≡ sessions cs j
  unfolding sessions
  update_others d i j ne = ap (Option.map session) (find-update_ne j d cs (λ q. ne (q ∙ i)))

  pub update_here : (d : Conn) → d.id ≡ c.id → sessions (update d cs) c.id ≡ some (session d)
  unfolding sessions
  update_here d i = ap (Option.map session) (updated d i)

  -- A change of one connection's record is a change of its session.
  pub update-Step :
      (d : Conn)
      → d.id ≡ c.id
      → Change (some (session c)) (some (session d))
      → Step (sessions cs) (sessions (update d cs))
  unfolding sessions
  update-Step d i change = record {
    who = c.id;
    others = update_others d i;
    change = rw (here, updated d i) change;
  }

  -- What a session does not show can change.
  pub update_quiet :
      (d : Conn) → d.id ≡ c.id → session d ≡ session c → sessions (update d cs) ≡ sessions cs
  unfolding sessions
  update_quiet d i same = fun_ext (λ j. elim (Bool-cases (j == c.id)) [
    | inl me ↦ let q : j ≡ c.id = (==_iff j c.id).0 me in rw (q, here, updated d i) (ap some same)
    | inr other ↦
        ap (Option.map session)
          (find-update_ne j d cs (λ q. clash ((==_iff j c.id).1 (q ∙ i)) other))
  ])

-- A connection that is put in front, under a number that nobody has, joins.
pub cons-Step :
    (cs : List Conn) (c : Conn)
    → All (λ d. d.id ≢ c.id) cs
    → session c ≡ record { heard = []; said = [] }
    → Step (sessions cs) (sessions (c ∷ cs))
unfolding sessions find
cons-Step cs c h e = record {
  who = c.id;
  others = λ j ne. rw (==_false c.id j (λ q. ne (sym q))) refl;
  change = rw (find-none c.id cs h, ==_refl c.id, e) joins;
}

pub sessions_unused : (cs : List Conn) (id : ℕ) → All (λ d. d.id ≢ id) cs → sessions cs id ≡ none
unfolding sessions
sessions_unused cs id h = ap (Option.map session) (find-none id cs h)

pub cons_others :
    (cs : List Conn) (c : Conn) (j : ℕ) → j ≢ c.id → sessions (c ∷ cs) j ≡ sessions cs j
unfolding sessions find
cons_others cs c j ne = rw (==_false c.id j (λ q. ne (sym q))) refl

pub cons_here : (cs : List Conn) (c : Conn) → sessions (c ∷ cs) c.id ≡ some (session c)
unfolding sessions find
cons_here cs c = rw (==_refl c.id) refl
