-- ===== src/Procmon/Listing/Top.antt =====
-- What cmd_list shows (procmon/src/main.cpp).
use Prim.Native.Nat.{min}
use mathlib.Core.Path.{subst}
use linux_internals.Procmon.Listing.Orders.{MayPrecede, Key, comparison_lem}
use linux_internals.Procmon.Process.Threads.{Dirs, list_pids}
use linux_internals.Procmon.Listing.Sorted.{
  IsOrder, IsSorted, count, sort_by-IsSorted, count-sort_by, length-sort_by,
}
use linux_internals.Procmon.Process.{Files, ProcessInfo}
use linux_internals.Prelude.{
  ℕ, ◌≡◌, refl, sym, ap, ◌∙◌, Bool, true, false, some, List, [], ◌∷◌, ◌++◌, length, take, drop, All,
  take-append-drop, length-take, All-mono, Text,
}
use linux_internals.Procmon.Listing.{
  Before, ListOptions, options, Listing, listed, default_options, parse_list, collect, sort_by,
  show_sorted, scan, cmd_list,
}

-- Each process may stand before all that follow it.
abbrev pub InOrder : (ProcessInfo → ProcessInfo → Type 0) → List ProcessInfo → Type 0
InOrder R [] = Unit
InOrder R (p ∷ ps) = All (R p) ps × InOrder R ps

IsSorted-InOrder :
    (before : Before) (R : ProcessInfo → ProcessInfo → Type 0)
    → ((p q : ProcessInfo) → before q p ≡ false → R p q)
    → (ps : List ProcessInfo) → IsSorted before ps
    → InOrder R ps
IsSorted-InOrder before R f [] h = tt
IsSorted-InOrder before R f (p ∷ ps) h =
    (All-mono (λ q. before q p ≡ false) (R p) ps (f p) h.0, IsSorted-InOrder before R f ps h.1)

-- What cmd_list shows of `processes`, and what it leaves out.
pub record Shows (hz : ℕ) (o : ListOptions) (processes : List ProcessInfo) (out : Listing)
    : Type 0 where
  pub shown : List ProcessInfo
  pub hidden : List ProcessInfo
  pub result : out ≡ listed shown (length processes) o.sort_key
  pub limited : length shown ≡ min o.limit (length processes)
  pub sorted : InOrder (λ p q. MayPrecede hz p q o.sort_key) (shown ++ hidden)
  pub same : (has : ProcessInfo → Bool) → count has (shown ++ hidden) ≡ count has processes

sort_by-Shows :
    (hz : ℕ) (before : Before) (o : ListOptions) (ps : List ProcessInfo)
    → IsOrder before
    → ((p q : ProcessInfo) → before q p ≡ false → MayPrecede hz p q o.sort_key)
    → Shows hz o ps (show_sorted o ps (some before))
unfolding show_sorted
sort_by-Shows hz before o ps order first =
    let sorted_ps = sort_by before ps in
    let all : take o.limit sorted_ps ++ drop o.limit sorted_ps ≡ sorted_ps =
      take-append-drop o.limit sorted_ps in
    record {
      shown = take o.limit sorted_ps;
      hidden = drop o.limit sorted_ps;
      result = refl;
      limited =
          length-take o.limit sorted_ps ∙ ap (min o.limit) (length-sort_by before (λ p. true) ps);
      sorted =
          IsSorted-InOrder before (λ p q. MayPrecede hz p q o.sort_key) first _
            (subst (IsSorted before) (sym all) (sort_by-IsSorted before order ps));
      same = λ has. ap (count has) all ∙ count-sort_by before has ps;
    }

-- If the options are valid, list_pids returns and the key is rss, cpu, threads or pid, cmd_list shows as
-- many of the processes that it can read as the limit allows; those that it shows and those that it
-- leaves out are together the processes read, in the order of the key: descending by rss, cpu seconds
-- or number of threads, or ascending by pid.
pub cmd_list-Shows :
    (files : Files) (dirs : Dirs) (page_size hz : ℕ) (args : List Text) (o : ListOptions)
    (pids : List ℕ)
    → parse_list default_options args ≡ options o
    → list_pids dirs ≡ some pids
    → Key o.sort_key
    → Shows hz o (collect files page_size pids) (cmd_list files dirs page_size hz args)
unfolding cmd_list scan
cmd_list-Shows files dirs page_size hz args o pids parsed listed_pids key =
    let (before, known, order, first) = comparison_lem hz o.sort_key key in
    rw (cmd_list, parsed, listed_pids, scan, known)
      (sort_by-Shows hz before o (collect files page_size pids) order first)
