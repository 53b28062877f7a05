-- ===== src/Evserver/Loadgen/Totals.antt =====
-- What main of evserver/bench/loadgen.cpp makes of the workers' results: the number of requests, the
-- latencies in order, and their percentiles. std::sort is an insertion sort.
use Prim.Native.Nat.{min}
use linux_internals.Prelude.{
  ℕ, ◌-◌, ◌*◌, ◌^◌, Bool, none, some, List, [], ◌∷◌, ◌++◌, map, ltb, if◌then◌else◌, to_string,
  length, get_elem?, Text, codes, Double, round_half_even, of_integer, divide, multiply, truncate,
  fixed,
}
use linux_internals.Evserver.Loadgen.{Latency, Client}
use linux_internals.Evserver.Stats.{bump}

-- duration<double, std::micro>(finish - start).count()
unfoldable pub microseconds : Latency → Double
microseconds (start, finish) = divide (of_integer (finish - start)) (of_integer 1000)

unfoldable pub shorter : Double → Double → Bool
shorter a b = ltb (a.num * b.den) (b.num * a.den)

unfoldable pub insert_latency : Double → List Double → List Double
insert_latency d [] = d ∷ []
insert_latency d (e ∷ es) =
    let rest = insert_latency d es in if shorter e d then e ∷ rest else d ∷ e ∷ es

unfoldable pub sort_latencies : List Double → List Double
sort_latencies [] = []
sort_latencies (d ∷ ds) = insert_latency d (sort_latencies ds)

-- The loop over the results: `total` and `all`.
unfoldable pub gather : List Client → ℕ × List Double → ℕ × List Double
gather [] sums = sums
gather (r ∷ results) (total, all) =
    gather results (bump total r.requests, all ++ map microseconds r.latencies)

unfoldable pub totals : List Client → ℕ × List Double
totals results = let (total, all) = gather results (0, []) in (total, sort_latencies all)

-- static_cast<size_t>(p / 100.0 * static_cast<double>(size - 1))
unfoldable pub percentile_index : ℕ → ℕ → ℕ
percentile_index p size =
    truncate (multiply (divide (of_integer p) (of_integer 100)) (of_integer (size - 1)))

abbrev pub zero_latency : Double
zero_latency = record { num = 0; den = 1 }

unfoldable pub element : List Double → ℕ → Double
element ds i = elim (get_elem? ds i) [ none ↦ zero_latency | some d ↦ d ]

unfoldable pub percentile : List Double → ℕ → Double
percentile [] p = zero_latency
percentile (d ∷ ds) p =
    let size = length (d ∷ ds) in element (d ∷ ds) (min (percentile_index p size) (size - 1))

-- "%.0f"
unfoldable pub whole_number : Double → Text
whole_number x = to_string (round_half_even x.num x.den)

unfoldable pub last_latency : List Double → Double
last_latency ds = element ds (length ds - 1)

unfoldable pub latency_lines : List Double → Text
latency_lines [] = []
latency_lines (d ∷ ds) =
    codes "  latency p50   "
    ++ (fixed 1 (percentile (d ∷ ds) 50)
        ++ (codes " us\n  latency p99   "
            ++ (fixed 1 (percentile (d ∷ ds) 99)
                ++ (codes " us\n  latency max   "
                    ++ (fixed 1 (last_latency (d ∷ ds)) ++ codes " us\n")))))

-- What main prints at the end; `elapsed` is in nanoseconds and above 0.
unfoldable pub load_report : ℕ → List Client → Text
load_report elapsed results =
    let (total, all) = totals results in
    let seconds = divide (of_integer elapsed) (of_integer (10 ^ 9)) in
    codes "\n  requests      "
    ++ (to_string total
        ++ (codes "\n  throughput    "
            ++ (whole_number (divide (of_integer total) seconds)
                ++ (codes " req/s\n" ++ latency_lines all))))
