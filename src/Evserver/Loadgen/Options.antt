-- ===== src/Evserver/Loadgen/Options.antt =====
-- The options of evserver/bench/loadgen.cpp, and the idle connections that main opens before the load.
use linux_internals.Prelude.{
  ℕ, zero, suc, true, Option, none, some, List, [], ◌∷◌, stoi, stoul, ℤ, pos, negsuc, Text, codes,
  after_prefix,
}
use linux_internals.Evserver.Options.{to_uint16}
use linux_internals.Evserver.Setup.{Net, Setup, connect_tcp}

pub record LoadOptions : Type 0 where
  pub port : ℕ
  pub threads : ℤ
  pub idle : ℤ
  pub seconds : ℤ
  pub payload : ℕ

abbrev pub default_load : LoadOptions
default_load = record { port = 9000; threads = pos 8; idle = pos 0; seconds = pos 5; payload = 64 }

-- `usage` is exit code 2, and `uncaught` the exception of std::stoi or std::stoul.
pub data ParsedLoad : Type 0 where
  parsed : LoadOptions → ParsedLoad
  usage : ParsedLoad
  uncaught : ParsedLoad

unfoldable pub set_number : (ℤ → LoadOptions) → Option ℤ → ParsedLoad
set_number set none = uncaught
set_number set (some n) = parsed (set n)

unfoldable pub set_payload : LoadOptions → Option ℕ → ParsedLoad
set_payload o none = uncaught
set_payload o (some n) = parsed (record o { payload = n })

unfoldable pub load_option : LoadOptions → Text → ParsedLoad
load_option o arg = elim (after_prefix (codes "--port=") arg) [
  | some v ↦ set_number (λ n. record o { port = to_uint16 n }) (stoi v)
  | none ↦ elim (after_prefix (codes "--threads=") arg) [
    | some v ↦ set_number (λ n. record o { threads = n }) (stoi v)
    | none ↦ elim (after_prefix (codes "--idle=") arg) [
      | some v ↦ set_number (λ n. record o { idle = n }) (stoi v)
      | none ↦ elim (after_prefix (codes "--seconds=") arg) [
        | some v ↦ set_number (λ n. record o { seconds = n }) (stoi v)
        | none ↦ elim (after_prefix (codes "--payload=") arg) [
          | some v ↦ set_payload o (stoul v)
          | none ↦ usage
        ]
      ]
    ]
  ]
]

unfoldable pub load_options : LoadOptions → List Text → ParsedLoad
load_options o [] = parsed o
load_options o (arg ∷ args) = elim (load_option o arg) [
  | parsed o' ↦ load_options o' args
  | usage ↦ usage
  | uncaught ↦ uncaught
]

-- The loop that opens the idle connections, up to the first that fails: their sockets, in order. Each
-- connection has an `error` of its own.
unfoldable pub open_idle : Net → ℕ → ℕ → Setup → List ℕ × Setup
open_idle net port zero s = ([], s)
open_idle net port (suc n) s =
    let (sock, s') = connect_tcp net port (record s { wanted = true; error = none }) in
    let (rest, s'') = open_idle net port n s' in
    elim sock [ negsuc m ↦ ([], s') | pos sock_fd ↦ (sock_fd ∷ rest, s'') ]

-- How main gets to its workers, whose number is given: vectors of a negative size throw
-- std::length_error, which nobody catches.
pub data Prepared : Type 0 where
  aborts : Prepared
  ready_for : ℕ → List ℕ → Prepared

unfoldable pub with_threads : ℤ → List ℕ → Prepared
with_threads (negsuc n) idle = aborts
with_threads (pos n) idle = ready_for n idle

unfoldable pub prepare_load : Net → LoadOptions → Setup → Prepared × Setup
prepare_load net o s = elim o.idle [
  | negsuc n ↦ (aborts, s)
  | pos n ↦ let (idle, s') = open_idle net o.port n s in (with_threads o.threads idle, s')
]
