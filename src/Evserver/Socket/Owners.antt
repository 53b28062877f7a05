-- ===== src/Evserver/Socket/Owners.antt =====
-- Who owns a descriptor after each operation of class Socket (evserver/src/socket.cpp).
use linux_internals.Prelude.{
  ℕ, zero, suc, ◌+◌, ◌≤◌, ◌<◌, ◌≡◌, refl, ap, inl, inr, false, List, [], ◌∷◌, ◌++◌, arith, ◌==◌,
  if◌then◌else◌, Bool-cases, length, ℤ, pos, negsuc,
}
use linux_internals.Evserver.Socket.{
  Store, empty_store, fd_at, set_at, occurrences, without, close, close_valid, reset, destroy,
  adopt, make_empty, move_from, assign_from, release,
}

-- How many of one object, and of all of them, own `fd`.
unfoldable pub owns : ℕ → ℤ → ℕ
owns fd (pos d) = if d == fd then 1 else 0
owns fd (negsuc n) = 0

unfoldable pub owners : ℕ → List ℤ → ℕ
owners fd [] = 0
owners fd (o ∷ os) = owns fd o + owners fd os

-- Each open descriptor is open once, and is owned by one object or was released, never both, and no
-- call of close named a descriptor that was not open.
pub record Owned (s : Store) : Type 0 where
  pub balance : (fd : ℕ) → owners fd s.objects + occurrences fd s.loose ≡ occurrences fd s.held
  pub once : (fd : ℕ) → occurrences fd s.held ≤ 1
  pub clean : s.bad_closes ≡ 0

-- The store as the program makes it: the kernel opens a descriptor only if it is not open, and an
-- operation is called on an object that exists.
pub data History : Store → Type 0 where
  start : History empty_store
  adopted : {s : Store} (fd : ℕ) → occurrences fd s.held ≡ 0 → History s → History (adopt fd s)
  emptied : {s : Store} → History s → History (make_empty s)
  moved : {s : Store} (i : ℕ) → i < length s.objects → History s → History (move_from i s)
  assigned :
      {s : Store} (i j : ℕ)
      → i < length s.objects
      → j < length s.objects
      → History s
      → History (assign_from i j s)
  closed : {s : Store} (i : ℕ) → i < length s.objects → History s → History (reset i (negsuc 0) s)
  released : {s : Store} (i : ℕ) → i < length s.objects → History s → History (release i s)
  destroyed : {s : Store} (i : ℕ) → i < length s.objects → History s → History (destroy i s)

pub owners-set_at :
    (fd i : ℕ) (v : ℤ) (os : List ℤ)
    → i < length os
    → owners fd (set_at i v os) + owns fd (fd_at i os) ≡ owners fd os + owns fd v
unfolding owners set_at fd_at
owners-set_at fd i v [] h = absurd (omega (arith, h))
owners-set_at fd zero v (o ∷ os) h = omega arith
owners-set_at fd (suc i) v (o ∷ os) h = omega (arith, owners-set_at fd i v os (omega (arith, h)))

pub owners-append :
    (fd : ℕ) (v : ℤ) (os : List ℤ) → owners fd (os ++ (v ∷ [])) ≡ owners fd os + owns fd v
unfolding owners
owners-append fd v [] = omega arith
owners-append fd v (o ∷ os) = omega (arith, owners-append fd v os)

pub owns-owners : (fd i : ℕ) (os : List ℤ) → owns fd (fd_at i os) ≤ owners fd os
unfolding owners fd_at owns
owns-owners fd i [] = omega arith
owns-owners fd zero (o ∷ os) = omega arith
owns-owners fd (suc i) (o ∷ os) = omega (arith, owns-owners fd i os)

pub owns-negsuc : (fd n : ℕ) → owns fd (negsuc n) ≡ 0
unfolding owns
owns-negsuc fd n = refl

pub fd_at-set_at_ne :
    (i j : ℕ) (v : ℤ) (os : List ℤ) → (i == j) ≡ false → fd_at j (set_at i v os) ≡ fd_at j os
unfolding fd_at set_at
fd_at-set_at_ne i j v [] h = refl
fd_at-set_at_ne zero zero v (o ∷ os) h = absurd (ground (arith, h))
fd_at-set_at_ne zero (suc j) v (o ∷ os) h = refl
fd_at-set_at_ne (suc i) zero v (o ∷ os) h = refl
fd_at-set_at_ne (suc i) (suc j) v (o ∷ os) h = fd_at-set_at_ne i j v os (ground (arith, h))

pub length-set_at : (i : ℕ) (v : ℤ) (os : List ℤ) → length (set_at i v os) ≡ length os
unfolding set_at
length-set_at i v [] = refl
length-set_at zero v (o ∷ os) = refl
length-set_at (suc i) v (o ∷ os) = ap suc (length-set_at i v os)

pub fd_at-append :
    (i : ℕ) (v : ℤ) (os : List ℤ) → i < length os → fd_at i (os ++ (v ∷ [])) ≡ fd_at i os
unfolding fd_at
fd_at-append i v [] h = absurd (omega (arith, h))
fd_at-append zero v (o ∷ os) h = refl
fd_at-append (suc i) v (o ∷ os) h = fd_at-append i v os (omega (arith, h))

occurrences-without :
    (fd d : ℕ) (ds : List ℕ)
    → 0 < occurrences d ds
    → occurrences fd (without d ds) + owns fd (pos d) ≡ occurrences fd ds
unfolding occurrences without owns
occurrences-without fd d [] h = absurd (omega (arith, h))
occurrences-without fd d (e ∷ ds) h = elim (Bool-cases (e == d)) [
  | inl same ↦ rw same (ground (arith, same))
  | inr other ↦
      rw other (ground (arith, other, occurrences-without fd d ds (ground (arith, h, other))))
]

-- What close_valid does to a store in which the descriptor, if there is one, is open.
pub record Closed (fd : ℕ) (o : ℤ) (s s' : Store) : Type 0 where
  pub objects : s'.objects ≡ s.objects
  pub held : occurrences fd s'.held + owns fd o ≡ occurrences fd s.held
  pub loose : s'.loose ≡ s.loose
  pub bad_closes : s'.bad_closes ≡ s.bad_closes

pub close_valid-Closed :
    (fd : ℕ) (o : ℤ) (s : Store)
    → ((d : ℕ) → owns d o ≤ occurrences d s.held)
    → Closed fd o s (close_valid o s)
unfolding close_valid close owns
close_valid-Closed fd (negsuc n) s h = record {
  objects = refl;
  held = omega arith;
  loose = refl;
  bad_closes = refl;
}
close_valid-Closed fd (pos d) s h =
    let open_now : 0 < occurrences d s.held = ground (arith, h d) in
    let e : (occurrences d s.held == 0) ≡ false = ground (arith, open_now) in
    rw e (record {
      objects = refl;
      held = occurrences-without fd d s.held open_now;
      loose = refl;
      bad_closes = refl;
    })
