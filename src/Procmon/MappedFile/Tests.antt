-- ===== src/Procmon/MappedFile/Tests.antt =====
-- A file of 5000 bytes, mapped at 8192 with pages of 4096, of which the first is resident.
use linux_internals.Procmon.MappedFile.Ownership.{Opened, open_mapped-Opened}
use linux_internals.Procmon.MappedFile.Pages.{page_count-least}
use linux_internals.Procmon.MappedFile.{
  gives, Kernel, MappedFile, valid, open_mapped, page_count, resident, resident_pages,
}
use linux_internals.Prelude.{
  ℕ, zero, suc, ◌+◌, ◌*◌, ◌≤◌, ◌<◌, ◌≡◌, refl, sym, ap, true, false, Option, none, some, [], ◌∷◌,
  arith, length, pos, Text, codes,
}

abbrev small_kernel : Kernel
small_kernel = record {
  open_file = λ t path writable. gives 3;
  fstat = λ t fd. gives 5000;
  mmap = λ t size writable shared fd. gives 8192;
  strerror = λ e. codes "error";
}

abbrev mapped : MappedFile
mapped = record { data_ = some 8192; size = 5000; fd = pos 3; error = [] }

open_mapped-Opened_example : Opened [] (open_mapped small_kernel (codes "f") false true [])
open_mapped-Opened_example = open_mapped-Opened small_kernel [] (codes "f") false true

one_page : ℕ → Option Text
one_page (suc (suc zero)) = some (1 ∷ 0 ∷ [])
one_page m = none

one_page-length : (m : ℕ) (bytes : Text) → one_page m ≡ some bytes → length bytes ≡ m
unfolding one_page
one_page-length zero bytes e = absurd (cc e)
one_page-length (suc zero) bytes e = absurd (cc e)
one_page-length (suc (suc zero)) bytes e = let r : 1 ∷ 0 ∷ [] ≡ bytes = cc e in ap length (sym r)
one_page-length (suc (suc (suc m))) bytes e = absurd (cc e)

page_count-least_example :
    (5000 ≤ 4096 * page_count 4096 mapped)
    × (4096 * page_count 4096 mapped < 5000 + 4096)
    × (1 ≤ page_count 4096 mapped)
unfolding page_count resident_pages resident valid one_page
page_count-least_example =
    page_count-least 4096 mapped one_page 1 (omega arith) (omega arith) one_page-length refl
