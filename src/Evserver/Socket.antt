-- ===== src/Evserver/Socket.antt =====
-- class Socket of evserver/src/socket.cpp, on a store of its objects: who owns which descriptor.
pub mod Owners
pub mod Histories
use linux_internals.Prelude.{
  ℕ, zero, suc, Bool, true, false, List, [], ◌∷◌, ◌++◌, ◌==◌, if◌then◌else◌, ℤ, pos, negsuc,
}

-- The objects' fd_, by number, and the kernel's table: the descriptors that are open, those of them
-- that release() handed to a caller, and how many calls of close named one that was not open.
pub record Store : Type 0 where
  pub objects : List ℤ
  pub held : List ℕ
  pub loose : List ℕ
  pub bad_closes : ℕ

abbrev pub empty_store : Store
empty_store = record { objects = []; held = []; loose = []; bad_closes = 0 }

-- An object that does not exist owns nothing.
unfoldable pub fd_at : ℕ → List ℤ → ℤ
fd_at i [] = negsuc 0
fd_at zero (fd ∷ objects) = fd
fd_at (suc i) (fd ∷ objects) = fd_at i objects

unfoldable pub set_at : ℕ → ℤ → List ℤ → List ℤ
set_at i fd [] = []
set_at zero fd (old ∷ objects) = fd ∷ objects
set_at (suc i) fd (old ∷ objects) = old ∷ set_at i fd objects

unfoldable pub occurrences : ℕ → List ℕ → ℕ
occurrences fd [] = 0
occurrences fd (d ∷ ds) = let rest = occurrences fd ds in if d == fd then suc rest else rest

unfoldable pub without : ℕ → List ℕ → List ℕ
without fd [] = []
without fd (d ∷ ds) = let rest = without fd ds in if d == fd then ds else d ∷ rest

-- ::close
unfoldable pub close : ℕ → Store → Store
close fd s =
    if occurrences fd s.held == 0
    then record s { bad_closes = suc s.bad_closes }
    else record s { held = without fd s.held }

unfoldable pub valid : ℤ → Bool
valid (pos fd) = true
valid (negsuc n) = false

unfoldable pub set_fd : ℕ → ℤ → Store → Store
set_fd i fd s = record s { objects = set_at i fd s.objects }

unfoldable pub close_valid : ℤ → Store → Store
close_valid (pos fd) s = close fd s
close_valid (negsuc n) s = s

unfoldable pub reset : ℕ → ℤ → Store → Store
reset i fd s = set_fd i fd (close_valid (fd_at i s.objects) s)

-- The destructor.
unfoldable pub destroy : ℕ → Store → Store
destroy i s = reset i (negsuc 0) s

-- Socket(int fd), on a descriptor that the kernel has just opened.
unfoldable pub adopt : ℕ → Store → Store
adopt fd s = record s { objects = s.objects ++ (pos fd ∷ []); held = fd ∷ s.held }

-- Socket() = default
unfoldable pub make_empty : Store → Store
make_empty s = record s { objects = s.objects ++ (negsuc 0 ∷ []) }

-- Socket(Socket &&other)
unfoldable pub move_from : ℕ → Store → Store
move_from other s =
    set_fd other (negsuc 0) (record s { objects = s.objects ++ (fd_at other s.objects ∷ []) })

-- operator=(Socket &&other)
unfoldable pub assign_from : ℕ → ℕ → Store → Store
assign_from this other s =
    if this == other then s else set_fd other (negsuc 0) (reset this (fd_at other s.objects) s)

-- The caller of release() has the descriptor that it returns.
unfoldable pub hand_over : ℤ → Store → Store
hand_over (pos fd) s = record s { loose = fd ∷ s.loose }
hand_over (negsuc n) s = s

unfoldable pub release : ℕ → Store → Store
release i s = set_fd i (negsuc 0) (hand_over (fd_at i s.objects) s)
