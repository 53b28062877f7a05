-- ===== src/Evserver/Uring/Table.antt =====
-- connections_ of evserver/src/server_uring.cpp: lookup, update and erase.
use mathlib.Core.Path.{subst}
use linux_internals.Prelude.{
  ℕ, ◌≡◌, refl, sym, ap, ◌∙◌, ◌≢◌, inl, inr, Bool, true, false, some, List, [], ◌∷◌, arith, ◌==◌,
  ==_iff, Bool-cases, All, All-mono,
}
use linux_internals.Evserver.Uring.{Conn, find, update, erase}

-- No two connections share a descriptor or an identity.
abbrev pub Distinct : List Conn → Type 0
Distinct [] = Unit
Distinct (c ∷ cs) = All (λ d. (d.fd ≢ c.fd) × (d.id ≢ c.id)) cs × Distinct cs

pub clash : {b : Bool} → b ≡ true → b ≡ false → ⊥
clash h c = cc

pub ==_false : (a b : ℕ) → a ≢ b → (a == b) ≡ false
==_false a b h = ground arith

pub find_hit :
    (d c : Conn) (id : ℕ) (cs : List Conn) → (d.id == id) ≡ true → find id (d ∷ cs) ≡ some c → d ≡ c
unfolding find
find_hit d c id cs h e = cc (first, e)
  where
    first : find id (d ∷ cs) ≡ some d
    first = rw h

pub find_miss :
    (d : Conn) (id : ℕ) (cs : List Conn) → (d.id == id) ≡ false → find id (d ∷ cs) ≡ find id cs
unfolding find
find_miss d id cs h = rw h

pub All-find {κ} :
    (P : Conn → Type κ) (id : ℕ) (cs : List Conn) (c : Conn) → All P cs → find id cs ≡ some c → P c
unfolding find
All-find P id [] c h e = cc
All-find P id (d ∷ cs) c h e = elim (Bool-cases (d.id == id)) [
  | inl hit ↦ subst P (find_hit d c id cs hit e) h.0
  | inr miss ↦ All-find P id cs c h.1 (sym (find_miss d id cs miss) ∙ e)
]

pub All-erase {κ} : (P : Conn → Type κ) (fd : ℕ) (cs : List Conn) → All P cs → All P (erase fd cs)
unfolding erase
All-erase P fd [] h = h
All-erase P fd (c ∷ cs) h = elim (Bool-cases (c.fd == fd)) [
  | inl hit ↦ rw hit h.1
  | inr miss ↦ rw miss (h.0, All-erase P fd cs h.1)
]

pub All-update {κ} :
    (P : Conn → Type κ) (d : Conn) (cs : List Conn) → P d → All P cs → All P (update d cs)
unfolding update
All-update P d [] p h = h
All-update P d (c ∷ cs) p h = elim (Bool-cases (c.id == d.id)) [
  | inl hit ↦ rw hit (p, h.1)
  | inr miss ↦ rw miss (h.0, All-update P d cs p h.1)
]

pub id-find : (id : ℕ) (cs : List Conn) (c : Conn) → find id cs ≡ some c → c.id ≡ id
unfolding find
id-find id [] c e = cc
id-find id (d ∷ cs) c e = ground (arith, id-find id cs c)

pub Distinct-erase : (fd : ℕ) (cs : List Conn) → Distinct cs → Distinct (erase fd cs)
unfolding erase
Distinct-erase fd [] h = h
Distinct-erase fd (c ∷ cs) h = elim (Bool-cases (c.fd == fd)) [
  | inl hit ↦ rw hit h.1
  | inr miss ↦ rw miss (All-erase _ fd cs h.0, Distinct-erase fd cs h.1)
]

-- The connection found is the one that its descriptor erases.
pub find-erase_self :
    (id : ℕ) (cs : List Conn) (c : Conn)
    → Distinct cs
    → find id cs ≡ some c
    → All (λ d. d.id ≢ id) (erase c.fd cs)
unfolding find erase
find-erase_self id [] c h e = cc
find-erase_self id (d ∷ cs) c h e = elim (Bool-cases (d.id == id)) [
  | inl hit ↦
      let same = find_hit d c id cs hit e in
      let there = (==_iff d.id id).0 hit in
      rw ((==_iff d.fd c.fd).1 (ap (λ (x : Conn). x.fd) same))
        (All-mono (λ d'. (d'.fd ≢ d.fd) × (d'.id ≢ d.id)) _ cs (λ x p q. p.1 (q ∙ sym there)) h.0)
  | inr miss ↦
      let e' = sym (find_miss d id cs miss) ∙ e in
      let ne = (All-find (λ d'. (d'.fd ≢ d.fd) × (d'.id ≢ d.id)) id cs c h.0 e').0 in
      rw (==_false d.fd c.fd (λ q. ne (sym q)))
        ((λ q. absurd (clash ((==_iff d.id id).1 q) miss)), find-erase_self id cs c h.1 e')
]

-- Connections found under different identities have different descriptors.
pub find_ne-fd :
    (i j : ℕ) (cs : List Conn) (c d : Conn)
    → Distinct cs
    → find i cs ≡ some c
    → find j cs ≡ some d
    → i ≢ j
    → c.fd ≢ d.fd
unfolding find
find_ne-fd i j [] c d h e e' ne = λ _. cc
find_ne-fd i j (x ∷ cs) c d h e e' ne = elim (Bool-cases (x.id == i)) [
  | inl hi ↦ elim (Bool-cases (x.id == j)) [
    | inl hj ↦ absurd (ne (sym ((==_iff x.id i).0 hi) ∙ (==_iff x.id j).0 hj))
    | inr mj ↦ λ q.
        (All-find (λ y. (y.fd ≢ x.fd) × (y.id ≢ x.id)) j cs d h.0
            (sym (find_miss x j cs mj) ∙ e')).0
          (sym q ∙ sym (ap (λ (y : Conn). y.fd) (find_hit x c i cs hi e)))
  ]
  | inr mi ↦ elim (Bool-cases (x.id == j)) [
    | inl hj ↦ λ q.
        (All-find (λ y. (y.fd ≢ x.fd) × (y.id ≢ x.id)) i cs c h.0 (sym (find_miss x i cs mi) ∙ e)).0
          (q ∙ sym (ap (λ (y : Conn). y.fd) (find_hit x d j cs hj e')))
    | inr mj ↦
        find_ne-fd i j cs c d h.1 (sym (find_miss x i cs mi) ∙ e) (sym (find_miss x j cs mj) ∙ e')
          ne
  ]
]

pub find-erase_ne :
    (id fd : ℕ) (cs : List Conn) (c : Conn)
    → find id cs ≡ some c
    → c.fd ≢ fd
    → find id (erase fd cs) ≡ some c
unfolding find erase
find-erase_ne id fd [] c e ne = cc
find-erase_ne id fd (d ∷ cs) c e ne = ground (arith, find-erase_ne id fd cs c)

pub find-update_self :
    (d : Conn) (cs : List Conn) (c : Conn)
    → find d.id cs ≡ some c
    → find d.id (update d cs) ≡ some d
unfolding find update
find-update_self d [] c e = cc
find-update_self d (x ∷ cs) c e = ground (arith, find-update_self d cs c)

pub find-update_ne :
    (id : ℕ) (d : Conn) (cs : List Conn) → id ≢ d.id → find id (update d cs) ≡ find id cs
unfolding find update
find-update_ne id d [] ne = refl
find-update_ne id d (x ∷ cs) ne = ground (arith, find-update_ne id d cs)

pub Distinct-update :
    (d : Conn) (cs : List Conn) (c : Conn)
    → find d.id cs ≡ some c
    → c.fd ≡ d.fd
    → Distinct cs
    → Distinct (update d cs)
unfolding find update
Distinct-update d [] c e f h = h
Distinct-update d (x ∷ cs) c e f h = elim (Bool-cases (x.id == d.id)) [
  | inl hit ↦
      let same = find_hit x c d.id cs hit e in
      let fds = ap (λ (y : Conn). y.fd) same ∙ f in
      let ids = (==_iff x.id d.id).0 hit in
      rw hit (
        All-mono (λ y. (y.fd ≢ x.fd) × (y.id ≢ x.id)) _ cs
            (λ y p. ((λ q. p.0 (q ∙ sym fds)), (λ q. p.1 (q ∙ sym ids)))) h.0,
        h.1,
      )
  | inr miss ↦
      let e' = sym (find_miss x d.id cs miss) ∙ e in
      let apart = All-find (λ y. (y.fd ≢ x.fd) × (y.id ≢ x.id)) d.id cs c h.0 e' in
      rw miss (
        All-update (λ y. (y.fd ≢ x.fd) × (y.id ≢ x.id)) d cs
            ((λ q. apart.0 (f ∙ q)), (λ q. apart.1 (id-find d.id cs c e' ∙ q))) h.0,
        Distinct-update d cs c e' f h.1,
      )
]
