-- ===== src/Procmon/MappedFile/Ownership.antt =====
-- What a MappedFile holds (procmon/src/mapped_file.cpp).
use linux_internals.Prelude.{
  ℕ, zero, suc, ◌≡◌, refl, sym, ap, ◌∙◌, Bool, false, ◌&&◌, Option, none, some, List, [], ◌∷◌, ◌++◌,
  arith, ltb, ◌==◌, if◌then◌else◌, ==_refl, is_empty, ℤ, pos, negsuc, Text, codes,
}
use linux_internals.Procmon.MappedFile.{
  Answer, gives, fails, open_call, fstat_call, mmap_call, munmap_call, close_call, Calls, Kernel,
  MappedFile, no_file, valid, unmap, close_fd, reset, destroy, map_file, stat_file, open_mapped,
}

remove_fd : ℕ → List ℕ → List ℕ
remove_fd fd [] = []
remove_fd fd (d ∷ ds) = let rest = remove_fd fd ds in if d == fd then ds else d ∷ rest

-- The descriptors that are open.
pub open_fds : Calls → List ℕ
open_fds [] = []
open_fds (open_call path writable (gives fd) ∷ t) = fd ∷ open_fds t
open_fds (close_call fd ∷ t) = remove_fd fd (open_fds t)
open_fds (c ∷ t) = open_fds t

-- munmap of an address and a size that no mapping has removes nothing.
remove_mapping : ℕ → ℕ → List (ℕ × ℕ) → List (ℕ × ℕ)
remove_mapping addr size [] = []
remove_mapping addr size (m ∷ ms) =
    let rest = remove_mapping addr size ms in if m.0 == addr && m.1 == size then ms else m ∷ rest

-- The mappings that exist, with their sizes.
pub mappings : Calls → List (ℕ × ℕ)
mappings [] = []
mappings (mmap_call size writable shared fd (gives addr) ∷ t) = (addr, size) ∷ mappings t
mappings (munmap_call addr size ∷ t) = remove_mapping addr size (mappings t)
mappings (c ∷ t) = mappings t

abbrev pub owned_fd : ℤ → List ℕ
owned_fd (pos fd) = fd ∷ []
owned_fd (negsuc n) = []

abbrev pub owned_mapping : Option ℕ → ℕ → List (ℕ × ℕ)
owned_mapping none size = []
owned_mapping (some addr) size = (addr, size) ∷ []

-- Against the calls before: the object holds what is open and mapped since, it has a mapping of some
-- size and no error, or an error and no mapping, and its destructor gives everything back.
pub record Opened (before : Calls) (out : MappedFile × Calls) : Type 0 where
  pub fds : open_fds out.1 ≡ owned_fd out.0.fd ++ open_fds before
  pub maps : mappings out.1 ≡ owned_mapping out.0.data_ out.0.size ++ mappings before
  pub failed : valid out.0 ≡ is_empty out.0.error
  pub sized : valid out.0 ≡ ltb 0 out.0.size
  pub fds_back : open_fds (destroy out.0 out.1) ≡ open_fds before
  pub maps_back : mappings (destroy out.0 out.1) ≡ mappings before

remove_fd_first : (fd : ℕ) (ds : List ℕ) → remove_fd fd (fd ∷ ds) ≡ ds
unfolding remove_fd
remove_fd_first fd ds = rw (==_refl fd) refl

remove_mapping_first :
    (addr size : ℕ) (ms : List (ℕ × ℕ)) → remove_mapping addr size ((addr, size) ∷ ms) ≡ ms
unfolding remove_mapping
remove_mapping_first addr size ms = rw (==_refl addr, ==_refl size) refl

module _ (k : Kernel) (t : Calls) where
  -- An object with a descriptor and an error, before there is a mapping.
  error-Opened :
      (fd : ℕ) (text : Text) (t' : Calls)
      → open_fds t' ≡ fd ∷ open_fds t
      → mappings t' ≡ mappings t
      → is_empty text ≡ false
      → Opened t (record no_file { fd = pos fd; error = text }, t')
  unfolding open_fds mappings destroy reset close_fd unmap valid
  error-Opened fd text t' f m e = record {
    fds = f;
    maps = m;
    failed = sym e;
    sized = refl;
    fds_back = ap (remove_fd fd) f ∙ remove_fd_first fd (open_fds t);
    maps_back = m;
  }

  mapped-Opened :
      (fd addr n : ℕ) (t' : Calls)
      → open_fds t' ≡ fd ∷ open_fds t
      → mappings t' ≡ (addr, suc n) ∷ mappings t
      → Opened t (record no_file { data_ = some addr; size = suc n; fd = pos fd }, t')
  unfolding open_fds mappings destroy reset close_fd unmap valid
  mapped-Opened fd addr n t' f m = record {
    fds = f;
    maps = m;
    failed = refl;
    sized = ground arith;
    fds_back = ap (remove_fd fd) f ∙ remove_fd_first fd (open_fds t);
    maps_back = ap (remove_mapping addr (suc n)) m ∙ remove_mapping_first addr (suc n) (mappings t);
  }

  map_file-Opened :
      (fd n : ℕ) (writable shared : Bool) (t' : Calls)
      → open_fds t' ≡ fd ∷ open_fds t
      → mappings t' ≡ mappings t
      → Opened t (map_file k fd (suc n) writable shared t')
  unfolding map_file open_fds mappings
  map_file-Opened fd n writable shared t' f m = go (k.mmap t' (suc n) writable shared fd)
    where
      after : Answer → Calls
      after a = mmap_call (suc n) writable shared fd a ∷ t'

      go :
          (a : Answer)
          → Opened t (elim a as (λ _. MappedFile × Calls) [
            | fails e ↦ (
              record no_file { fd = pos fd; error = codes "mmap" ++ (codes ": " ++ k.strerror e) },
              after a,
            )
            | gives addr ↦
                (record no_file { data_ = some addr; size = suc n; fd = pos fd }, after a)
          ])
      go (fails e) = error-Opened fd _ (after (fails e)) f m refl
      go (gives addr) = mapped-Opened fd addr n (after (gives addr)) f (ap (◌∷◌ (addr, suc n)) m)

  stat_file-Opened :
      (fd : ℕ) (writable shared : Bool) (t' : Calls)
      → open_fds t' ≡ fd ∷ open_fds t
      → mappings t' ≡ mappings t
      → Opened t (stat_file k fd writable shared t')
  unfolding stat_file open_fds mappings
  stat_file-Opened fd writable shared t' f m = go (k.fstat t' fd)
    where
      after : Answer → Calls
      after a = fstat_call fd a ∷ t'

      go :
          (a : Answer)
          → Opened t (elim a as (λ _. MappedFile × Calls) [
            | fails e ↦ (
              record no_file { fd = pos fd; error = codes "fstat" ++ (codes ": " ++ k.strerror e) },
              after a,
            )
            | gives zero ↦ (record no_file { fd = pos fd; error = codes "file is empty" }, after a)
            | gives (suc n) ↦ map_file k fd (suc n) writable shared (after a)
          ])
      go (fails e) = error-Opened fd _ (after (fails e)) f m refl
      go (gives zero) = error-Opened fd (codes "file is empty") (after (gives zero)) f m refl
      go (gives (suc n)) = map_file-Opened fd n writable shared (after (gives (suc n))) f m

  -- After open, whichever call fails, the object holds what is open and mapped and was not before; it has
  -- either a mapping of a size above 0 or an error; and its destructor gives everything back.
  pub open_mapped-Opened :
      (path : Text) (writable shared : Bool) → Opened t (open_mapped k path writable shared t)
  unfolding open_mapped open_fds mappings valid destroy reset close_fd unmap
  open_mapped-Opened path writable shared = go (k.open_file t path writable)
    where
      after : Answer → Calls
      after a = open_call path writable a ∷ t

      go :
          (a : Answer)
          → Opened t (elim a as (λ _. MappedFile × Calls) [
            | fails e ↦
                (record no_file { error = codes "open" ++ (codes ": " ++ k.strerror e) }, after a)
            | gives fd ↦ stat_file k fd writable shared (after a)
          ])
      go (fails e) = record {
        fds = refl;
        maps = refl;
        failed = refl;
        sized = refl;
        fds_back = refl;
        maps_back = refl;
      }
      go (gives fd) = stat_file-Opened fd writable shared (after (gives fd)) refl refl
