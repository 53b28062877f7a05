-- ===== src/Procmon/MappedFile.antt =====
-- class MappedFile (procmon/src/mapped_file.cpp). What the kernel answers is any function of the calls
-- made so far, the newest first; strerror is a parameter. An address is a number and nullptr is none.
-- The contents of a mapping are left out.
pub mod Ownership
pub mod Pages
mod Tests
use mathlib.Core.Option
use linux_internals.Prelude.{
  ℕ, zero, suc, ◌+◌, ◌-◌, ◌/◌, ◌%◌, ◌^◌, Bool, true, false, Option, none, some, List, [], ◌∷◌, ◌++◌,
  map, ◌==◌, if◌then◌else◌, ℤ, pos, negsuc, Text, codes,
}

-- An answer, or an errno.
pub data Answer : Type 0 where
  gives : ℕ → Answer
  fails : ℕ → Answer

pub data Call : Type 0 where
  open_call : Text → Bool → Answer → Call
  fstat_call : ℕ → Answer → Call
  -- mmap(nullptr, size, writable, shared, fd)
  mmap_call : ℕ → Bool → Bool → ℕ → Answer → Call
  munmap_call : ℕ → ℕ → Call
  close_call : ℕ → Call

abbrev pub Calls : Type 0
Calls = List Call

-- fstat gives st_size; a size below zero counts as 0, which the code treats alike.
pub record Kernel : Type 0 where
  pub open_file : Calls → Text → Bool → Answer
  pub fstat : Calls → ℕ → Answer
  pub mmap : Calls → ℕ → Bool → Bool → ℕ → Answer
  pub strerror : ℕ → Text

pub record MappedFile : Type 0 where
  pub data_ : Option ℕ
  pub size : ℕ
  pub fd : ℤ
  pub error : Text

abbrev pub no_file : MappedFile
no_file = record { data_ = none; size = 0; fd = negsuc 0; error = [] }

pub valid : MappedFile → Bool
valid mf = elim mf.data_ [ none ↦ false | some addr ↦ true ]

-- munmap, if there is a mapping.
pub unmap : Option ℕ → ℕ → Calls → Calls
unmap none size t = t
unmap (some addr) size t = munmap_call addr size ∷ t

-- FileDescriptor::reset()
pub close_fd : ℤ → Calls → Calls
close_fd (pos fd) t = close_call fd ∷ t
close_fd (negsuc n) t = t

pub reset : MappedFile → Calls → MappedFile × Calls
reset mf t = (
  record mf {
    data_ = none;
    size = (elim mf.data_ [ none ↦ mf.size | some addr ↦ 0 ]);
    fd = negsuc 0;
  },
  close_fd mf.fd (unmap mf.data_ mf.size t),
)

-- The destructor; that of fd_ has nothing left to close.
pub destroy : MappedFile → Calls → Calls
destroy mf t = (reset mf t).1

-- MappedFile(MappedFile &&other): the new object, and what is left of the other. A moved-from string
-- is taken to be empty.
pub move_from : MappedFile → MappedFile × MappedFile
move_from other = (other, no_file)

-- operator= on two objects.
pub assign_from : MappedFile → MappedFile → Calls → MappedFile × MappedFile × Calls
assign_from this other t = (other, no_file, (reset this t).1)

module _ (k : Kernel) where
  abbrev failure : Text → ℕ → Text
  failure what e = what ++ (codes ": " ++ k.strerror e)

  -- The call of mmap and what follows it.
  pub map_file : ℕ → ℕ → Bool → Bool → Calls → MappedFile × Calls
  map_file fd size writable shared t =
      let a = k.mmap t size writable shared fd in
      let t' = mmap_call size writable shared fd a ∷ t in
      elim a [
        | fails e ↦ (record no_file { fd = pos fd; error = failure (codes "mmap") e }, t')
        | gives addr ↦ (record no_file { data_ = some addr; size = size; fd = pos fd }, t')
      ]

  -- The call of fstat and what follows it.
  pub stat_file : ℕ → Bool → Bool → Calls → MappedFile × Calls
  stat_file fd writable shared t =
      let a = k.fstat t fd in
      let t' = fstat_call fd a ∷ t in
      elim a [
        | fails e ↦ (record no_file { fd = pos fd; error = failure (codes "fstat") e }, t')
        | gives zero ↦ (record no_file { fd = pos fd; error = codes "file is empty" }, t')
        | gives (suc n) ↦ map_file fd (suc n) writable shared t'
      ]

  pub open_mapped : Text → Bool → Bool → Calls → MappedFile × Calls
  open_mapped path writable shared t =
      let a = k.open_file t path writable in
      let t' = open_call path writable a ∷ t in
      elim a [
        | fails e ↦ (record no_file { error = failure (codes "open") e }, t')
        | gives fd ↦ stat_file fd writable shared t'
      ]

-- (size_ + ps - 1) / ps in size_t.
pub page_count : ℕ → MappedFile → ℕ
page_count ps mf = if mf.size == 0 then 0 else (mf.size + ps - 1) % 2 ^ 64 / ps

-- The loop over the bytes that mincore filled in.
pub resident : Text → ℕ
resident [] = 0
resident (b ∷ bytes) = let rest = resident bytes in if b % 2 == 1 then suc rest else rest

-- mincore fills a vector of `page_count` bytes or fails; none is the result -1.
pub resident_pages : ℕ → (ℕ → Option Text) → MappedFile → Option ℕ
resident_pages ps mincore mf =
    if valid mf then Option.map resident (mincore (page_count ps mf)) else none
