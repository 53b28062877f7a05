-- ===== src/Evserver/Socket/Histories.antt =====
-- Histories of operations on Socket objects (evserver/src/socket.cpp).
use linux_internals.Evserver.Socket.Owners.{
  owns, owners, Owned, History, start, adopted, emptied, moved, assigned, closed, released,
  destroyed, owners-set_at, owners-append, owns-owners, owns-negsuc, fd_at-set_at_ne, length-set_at,
  fd_at-append, close_valid-Closed,
}
use linux_internals.Evserver.Socket.{
  Store, fd_at, set_at, occurrences, set_fd, reset, destroy, adopt, make_empty, move_from,
  assign_from, hand_over, release,
}
use linux_internals.Prelude.{
  ℕ, ◌+◌, ◌≤◌, ◌<◌, ◌≡◌, refl, ap, ◌∙◌, inl, inr, false, List, [], ◌∷◌, ◌++◌, arith, ◌==◌,
  Bool-cases, length, length-append, ℤ, pos, negsuc,
}

-- An object owns only what is open.
owned_open :
    (d i : ℕ) (os : List ℤ) (ls : List ℕ) (n : ℕ)
    → owners d os + occurrences d ls ≡ n
    → owns d (fd_at i os) ≤ n
owned_open d i os ls n h = omega (arith, h, owns-owners d i os)

module _ {s : Store} (w : Owned s) where
  -- The store after reset, in numbers of owners.
  record Moved (fd i : ℕ) (v : ℤ) (s' : Store) : Type 0 where
    objects : owners fd s'.objects + owns fd (fd_at i s.objects) ≡ owners fd s.objects + owns fd v
    exact : s'.objects ≡ set_at i v s.objects
    held : occurrences fd s'.held + owns fd (fd_at i s.objects) ≡ occurrences fd s.held
    loose : s'.loose ≡ s.loose
    bad_closes : s'.bad_closes ≡ s.bad_closes

  reset-Moved : (fd i : ℕ) (v : ℤ) → i < length s.objects → Moved fd i v (reset i v s)
  unfolding reset set_fd
  reset-Moved fd i v h =
      let c =
        close_valid-Closed fd (fd_at i s.objects) s
          (λ d. owned_open d i s.objects s.loose _ (w.balance d)) in
      record {
        objects = rw c.objects (owners-set_at fd i v s.objects h);
        exact = ap (set_at i v) c.objects;
        held = c.held;
        loose = c.loose;
        bad_closes = c.bad_closes;
      }

  reset-Owned : (i : ℕ) → i < length s.objects → Owned (reset i (negsuc 0) s)
  reset-Owned i h = record {
    balance = λ fd.
        let m = reset-Moved fd i (negsuc 0) h in
        omega
          (arith, m.objects, m.held, w.balance fd, ap (occurrences fd) m.loose, owns-negsuc fd 0);
    once = λ fd. let m = reset-Moved fd i (negsuc 0) h in omega (arith, m.held, w.once fd);
    clean = (reset-Moved 0 i (negsuc 0) h).bad_closes ∙ w.clean;
  }

  adopt-Owned : (fd : ℕ) → occurrences fd s.held ≡ 0 → Owned (adopt fd s)
  unfolding adopt occurrences owns
  adopt-Owned fd fresh = record {
    balance = λ d. ground (arith, owners-append d (pos fd) s.objects, w.balance d);
    once = λ d. ground (arith, fresh, w.once d);
    clean = w.clean;
  }

  make_empty-Owned : Owned (make_empty s)
  unfolding make_empty
  make_empty-Owned = record {
    balance =
        λ d. omega (arith, owners-append d (negsuc 0) s.objects, w.balance d, owns-negsuc d 0);
    once = w.once;
    clean = w.clean;
  }

  move_from-Owned : (i : ℕ) → i < length s.objects → Owned (move_from i s)
  unfolding move_from set_fd
  move_from-Owned i h =
      let v = fd_at i s.objects in
      let here : i < length (s.objects ++ (v ∷ [])) =
        omega (arith, h, length-append s.objects (v ∷ [])) in
      record {
        balance = λ d. omega (
          arith,
          owners-set_at d i (negsuc 0) (s.objects ++ (v ∷ [])) here,
          ap (owns d) (fd_at-append i v s.objects h),
          owners-append d v s.objects,
          owns-negsuc d 0,
          w.balance d,
        );
        once = w.once;
        clean = w.clean;
      }

  -- release(), by the value that it returns.
  hand_over-Owned :
      (i : ℕ) (v : ℤ)
      → ((d : ℕ)
          → owners d (set_at i (negsuc 0) s.objects) + owns d v
            ≡ owners d s.objects + owns d (negsuc 0))
      → Owned (set_fd i (negsuc 0) (hand_over v s))
  unfolding set_fd hand_over owns occurrences
  hand_over-Owned i (pos fd) e = record {
    balance = λ d. ground (arith, e d, w.balance d);
    once = w.once;
    clean = w.clean;
  }
  hand_over-Owned i (negsuc n) e = record {
    balance = λ d. omega (arith, e d, w.balance d);
    once = w.once;
    clean = w.clean;
  }

  release-Owned : (i : ℕ) → i < length s.objects → Owned (release i s)
  unfolding release
  release-Owned i h =
      hand_over-Owned i (fd_at i s.objects) (λ d. owners-set_at d i (negsuc 0) s.objects h)

  -- operator= on two objects: the first takes what the second owned.
  take_over-Owned :
      (i j : ℕ)
      → (i == j) ≡ false
      → i < length s.objects
      → j < length s.objects
      → Owned (set_fd j (negsuc 0) (reset i (fd_at j s.objects) s))
  unfolding set_fd
  take_over-Owned i j other hi hj =
      let v = fd_at j s.objects in
      let os = (reset i v s).objects in
      let m : (d : ℕ) → Moved d i v (reset i v s) = λ d. reset-Moved d i v hi in
      let kept : fd_at j os ≡ v =
        ap (fd_at j) (m 0).exact ∙ fd_at-set_at_ne i j v s.objects other in
      let here : j < length os =
        omega (arith, hj, ap length (m 0).exact, length-set_at i v s.objects) in
      record {
        balance = λ d. omega (
          arith,
          (m d).objects,
          (m d).held,
          ap (occurrences d) (m d).loose,
          owners-set_at d j (negsuc 0) os here,
          ap (owns d) kept,
          owns-negsuc d 0,
          w.balance d,
        );
        once = λ d. omega (arith, (m d).held, w.once d);
        clean = (m 0).bad_closes ∙ w.clean;
      }

  assign_from-Owned :
      (i j : ℕ) → i < length s.objects → j < length s.objects → Owned (assign_from i j s)
  unfolding assign_from
  assign_from-Owned i j hi hj = elim (Bool-cases (i == j)) [
    | inl same ↦ rw same w
    | inr other ↦ rw other (take_over-Owned i j other hi hj)
  ]

-- Whatever the program does with its sockets, a descriptor that is open was opened once and is owned by
-- one object or was released, never both; one that is not open is owned by none; and no call of close
-- names a descriptor that is not open.
pub History-Owned : {s : Store} → History s → Owned s
unfolding destroy occurrences owners
History-Owned start = record { balance = λ fd. refl; once = λ fd. omega arith; clean = refl }
History-Owned (adopted fd fresh h) = adopt-Owned (History-Owned h) fd fresh
History-Owned (emptied h) = make_empty-Owned (History-Owned h)
History-Owned (moved i l h) = move_from-Owned (History-Owned h) i l
History-Owned (assigned i j l l' h) = assign_from-Owned (History-Owned h) i j l l'
History-Owned (closed i l h) = reset-Owned (History-Owned h) i l
History-Owned (released i l h) = release-Owned (History-Owned h) i l
History-Owned (destroyed i l h) = reset-Owned (History-Owned h) i l
