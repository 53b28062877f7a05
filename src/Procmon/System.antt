-- ===== src/Procmon/System.antt =====
-- procmon/src/system.cpp: the fields of /proc/meminfo.
pub mod Load
use linux_internals.Prelude.{
  Option, none, some, List, if◌then◌else◌, is_empty, ℤ, negsuc, Text, codes,
}
use linux_internals.Procmon.Util.{lookup, parse_kv, to_ll}
use linux_internals.Procmon.Process.{Files, value_or}

pub record MemInfo : Type 0 where
  pub mem_total : ℤ
  pub mem_free : ℤ
  pub mem_available : ℤ
  pub buffers : ℤ
  pub cached : ℤ
  pub swap_cached : ℤ
  pub active : ℤ
  pub inactive : ℤ
  pub dirty : ℤ
  pub writeback : ℤ
  pub anon_pages : ℤ
  pub mapped : ℤ
  pub shmem : ℤ
  pub slab : ℤ
  pub swap_total : ℤ
  pub swap_free : ℤ

unfoldable pub field : List (Text × Text) → Text → ℤ
field kv key = elim (lookup key kv) [ none ↦ negsuc 0 | some v ↦ value_or (negsuc 0) (to_ll v) ]

unfoldable pub meminfo_of : List (Text × Text) → MemInfo
meminfo_of kv = record {
  mem_total = field kv (codes "MemTotal");
  mem_free = field kv (codes "MemFree");
  mem_available = field kv (codes "MemAvailable");
  buffers = field kv (codes "Buffers");
  cached = field kv (codes "Cached");
  swap_cached = field kv (codes "SwapCached");
  active = field kv (codes "Active");
  inactive = field kv (codes "Inactive");
  dirty = field kv (codes "Dirty");
  writeback = field kv (codes "Writeback");
  anon_pages = field kv (codes "AnonPages");
  mapped = field kv (codes "Mapped");
  shmem = field kv (codes "Shmem");
  slab = field kv (codes "Slab");
  swap_total = field kv (codes "SwapTotal");
  swap_free = field kv (codes "SwapFree");
}

unfoldable pub read_meminfo : Files → Option MemInfo
read_meminfo files =
    let kv = parse_kv (files (codes "/proc/meminfo")) in
    if is_empty kv then none else some (meminfo_of kv)
