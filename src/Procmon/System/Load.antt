-- ===== src/Procmon/System/Load.antt =====
-- read_loadavg and read_uptime_seconds of procmon/src/system.cpp. strtod is there for the plain decimals
-- that the kernel writes; of another text, and of an undefined atoi, nothing is said: `unspecified`.
use linux_internals.Prelude.{
  ◌+◌, ◌^◌, Option, none, some, List, [], ◌∷◌, ◌++◌, ltb, ◌==◌, if◌then◌else◌, find_byte,
  decimal_value, digits, atoi, length, take, drop, ℤ, pos, Text, codes, Double, quotient,
}
use linux_internals.Procmon.Util.{read_file, View, text_of, split_ws}
use linux_internals.Procmon.Process.{Files}

pub data Reading {ℓ} (A : Type ℓ) : Type ℓ where
  value : A → Reading A
  nullopt : Reading A
  unspecified : Reading A

-- The digits after the point.
unfoldable pub fraction : Text → Option Text
fraction [] = some []
fraction (c ∷ s) = if c == 46 then if length (digits s) == length s then some s else none else none

-- The double nearest to digits with a point and digits after it, or without.
unfoldable pub strtod : Text → Option Double
strtod s =
    let whole = digits s in
    elim (fraction (drop (length whole) s)) [
      | none ↦ none
      | some decimals ↦
          if ltb 0 (length whole)
          then some (quotient (decimal_value 0 (whole ++ decimals)) (10 ^ length decimals))
          else none
    ]

pub record LoadAvg : Type 0 where
  pub one : Double
  pub five : Double
  pub fifteen : Double
  pub runnable : ℤ
  pub total : ℤ

abbrev pub Ratio : Type 0
Ratio = Option (ℤ × ℤ)

unfoldable pub both : Option ℤ → Option ℤ → Ratio
both (some a) (some b) = some (a, b)
both (some a) none = none
both none b = none

-- The two numbers around the slash; a LoadAvg starts with 0 and 0.
unfoldable pub ratio_of : Text → Ratio
ratio_of ratio = elim (find_byte 47 ratio) [
  | none ↦ some (pos 0, pos 0)
  | some slash ↦ both (atoi (take slash ratio)) (atoi (drop (slash + 1) ratio))
]

unfoldable pub load_of : Option Double → Option Double → Option Double → Ratio → Reading LoadAvg
load_of (some one) (some five) (some fifteen) (some (runnable, total)) =
    value (record { one = one; five = five; fifteen = fifteen; runnable = runnable; total = total })
load_of one five fifteen ratio = unspecified

unfoldable pub loadavg_of : List View → Reading LoadAvg
loadavg_of (a ∷ b ∷ c ∷ d ∷ more) =
    load_of (strtod (text_of a)) (strtod (text_of b)) (strtod (text_of c)) (ratio_of (text_of d))
loadavg_of tokens = nullopt

unfoldable pub read_loadavg : Files → Reading LoadAvg
read_loadavg files = elim (read_file (files (codes "/proc/loadavg"))) [
  | none ↦ nullopt
  | some content ↦ loadavg_of (split_ws content)
]

unfoldable pub uptime_of : List View → Reading Double
uptime_of [] = nullopt
uptime_of (token ∷ more) = elim (strtod (text_of token)) [
  | none ↦ unspecified
  | some seconds ↦ value seconds
]

unfoldable pub read_uptime_seconds : Files → Reading Double
read_uptime_seconds files = elim (read_file (files (codes "/proc/uptime"))) [
  | none ↦ nullopt
  | some content ↦ uptime_of (split_ws content)
]
