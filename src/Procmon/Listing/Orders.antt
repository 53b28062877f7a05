-- ===== src/Procmon/Listing/Orders.antt =====
-- The comparisons of cmd_list (procmon/src/main.cpp), and the order that each key asks for.
use native.Mathlib.Nat.{one-le-pow, mul-le-mul_right, le_of_mul-le-mul_right}
use linux_internals.Prelude.{
  ℕ, ◌*◌, ◌≤◌, ◌<◌, ◌≡◌, refl, sym, ◌∙◌, Bool, true, false, some, arith, ltb, if◌then◌else◌, le→ltb,
  ltb→le, ℤ, pos, negsuc, Text, codes, text_eq, Double, quotient, divide,
}
use linux_internals.Procmon.Listing.{Before, ltz, more_cpu, comparison}
use linux_internals.Procmon.Listing.Sorted.{IsOrder}
use linux_internals.Procmon.Format.{Seconds, plus, seconds_of, cpu_seconds, less}
use linux_internals.Procmon.Process.{ProcessInfo}

ltz-asymmetric : (a b : ℤ) → ltz a b ≡ true → ltz b a ≡ false
unfolding ltz
ltz-asymmetric (pos a) (pos b) h = ground (arith, h)
ltz-asymmetric (pos a) (negsuc b) h = cc h
ltz-asymmetric (negsuc a) (pos b) h = refl
ltz-asymmetric (negsuc a) (negsuc b) h = ground (arith, h)

ltz-transitive : (a b c : ℤ) → ltz a b ≡ false → ltz b c ≡ false → ltz a c ≡ false
unfolding ltz
ltz-transitive (pos a) (pos b) (pos c) h k = ground (arith, h, k)
ltz-transitive (pos a) (pos b) (negsuc c) h k = refl
ltz-transitive (pos a) (negsuc b) (pos c) h k = cc k
ltz-transitive (pos a) (negsuc b) (negsuc c) h k = refl
ltz-transitive (negsuc a) (pos b) c h k = cc h
ltz-transitive (negsuc a) (negsuc b) (pos c) h k = cc k
ltz-transitive (negsuc a) (negsuc b) (negsuc c) h k = ground (arith, h, k)

-- Descending by a number.
descending-IsOrder : (key : ProcessInfo → ℤ) → IsOrder (λ a b. ltz (key b) (key a))
descending-IsOrder key = record {
  asymmetric = λ a b h. ltz-asymmetric (key b) (key a) h;
  transitive = λ a b c h k. ltz-transitive (key a) (key b) (key c) h k;
}

by_pid-IsOrder : IsOrder (λ a b. ltb a.pid b.pid)
by_pid-IsOrder = record {
  asymmetric = λ a b h. ground (arith, h);
  transitive = λ a b c h k. ground (arith, h, k);
}

-- What the keys compare, smaller or equal.
pub NotAbove : ℤ → ℤ → Type 0
NotAbove (pos a) (pos b) = a ≤ b
NotAbove (pos a) (negsuc b) = ⊥
NotAbove (negsuc a) (pos b) = Unit
NotAbove (negsuc a) (negsuc b) = b ≤ a

abbrev FractionNotAbove : Double → Double → Type 0
FractionNotAbove x y = x.num * y.den ≤ y.num * x.den

abbrev SignsNotAbove : Bool → Bool → Double → Double → Type 0
SignsNotAbove true true x y = FractionNotAbove y x
SignsNotAbove true false x y = Unit
SignsNotAbove false true x y = ⊥
SignsNotAbove false false x y = FractionNotAbove x y

abbrev pub SecondsNotAbove : Seconds → Seconds → Type 0
SecondsNotAbove x y = SignsNotAbove x.minus y.minus x.value y.value

abbrev pub cpu_of : ℕ → ProcessInfo → Seconds
cpu_of hz p = cpu_seconds hz p.utime_ticks p.stime_ticks

-- p may stand before q in a list sorted by the key: the largest rss, cpu time or number of threads
-- first, or the smallest pid.
pub data MayPrecede (hz : ℕ) (p q : ProcessInfo) : Text → Type 0 where
  by_rss : NotAbove q.rss_bytes p.rss_bytes → MayPrecede hz p q (codes "rss")
  by_cpu : SecondsNotAbove (cpu_of hz q) (cpu_of hz p) → MayPrecede hz p q (codes "cpu")
  by_threads : NotAbove q.num_threads p.num_threads → MayPrecede hz p q (codes "threads")
  by_pid : p.pid ≤ q.pid → MayPrecede hz p q (codes "pid")

ltz-NotAbove : (a b : ℤ) → ltz b a ≡ false → NotAbove a b
unfolding ltz NotAbove
ltz-NotAbove (pos a) (pos b) h = ltb→le b a h
ltz-NotAbove (pos a) (negsuc b) h = cc h
ltz-NotAbove (negsuc a) (pos b) h = tt
ltz-NotAbove (negsuc a) (negsuc b) h = ltb→le a b h

signs_less : Bool → Bool → Double → Double → Bool
signs_less true true x y = ltb (y.num * x.den) (x.num * y.den)
signs_less true false x y = true
signs_less false true x y = false
signs_less false false x y = ltb (x.num * y.den) (y.num * x.den)

less-signs : (x y : Seconds) → less x y ≡ signs_less x.minus y.minus x.value y.value
unfolding less signs_less
less-signs x y = go x.minus y.minus
  where
    go :
        (a b : Bool)
        → (if a
            then if b then ltb (y.value.num * x.value.den) (x.value.num * y.value.den) else true
            else if b
            then false
            else ltb (x.value.num * y.value.den) (y.value.num * x.value.den))
          ≡ signs_less a b x.value y.value
    go true true = refl
    go true false = refl
    go false true = refl
    go false false = refl

signs_less-NotAbove :
    (a b : Bool) (x y : Double) → signs_less b a y x ≡ false → SignsNotAbove a b x y
unfolding signs_less
signs_less-NotAbove true true x y h = ltb→le _ _ h
signs_less-NotAbove true false x y h = tt
signs_less-NotAbove false true x y h = cc h
signs_less-NotAbove false false x y h = ltb→le _ _ h

signs_less-asymmetric :
    (a b : Bool) (x y : Double) → signs_less a b x y ≡ true → signs_less b a y x ≡ false
unfolding signs_less
signs_less-asymmetric true true x y h = ground (arith, h)
signs_less-asymmetric true false x y h = refl
signs_less-asymmetric false true x y h = cc h
signs_less-asymmetric false false x y h = ground (arith, h)

cross_trans :
    (x y z : Double)
    → 0 < y.den
    → y.num * x.den ≤ x.num * y.den
    → z.num * y.den ≤ y.num * z.den
    → z.num * x.den ≤ x.num * z.den
cross_trans x y z p h k =
    le_of_mul-le-mul_right {k = y.den}
      (omega (arith, mul-le-mul_right z.den h, mul-le-mul_right x.den k)) p

signs_less-transitive :
    (a b c : Bool) (x y z : Double)
    → 0 < y.den
    → signs_less a b x y ≡ false
    → signs_less b c y z ≡ false
    → signs_less a c x z ≡ false
unfolding signs_less
signs_less-transitive true true true x y z p h k =
    le→ltb _ _ (cross_trans z y x p (ltb→le _ _ k) (ltb→le _ _ h))
signs_less-transitive true true false x y z p h k = cc k
signs_less-transitive true false c x y z p h k = cc h
signs_less-transitive false true true x y z p h k = refl
signs_less-transitive false true false x y z p h k = cc k
signs_less-transitive false false true x y z p h k = refl
signs_less-transitive false false false x y z p h k =
    le→ltb _ _ (cross_trans x y z p (ltb→le _ _ h) (ltb→le _ _ k))

seconds_den : (hz : ℕ) (n : ℤ) → 0 < (seconds_of hz n).value.den
unfolding seconds_of divide quotient
seconds_den hz (pos n) = one-le-pow _ 2 (omega arith)
seconds_den hz (negsuc n) = one-le-pow _ 2 (omega arith)

cpu_den : (hz : ℕ) (p : ProcessInfo) → 0 < (cpu_of hz p).value.den
unfolding cpu_seconds
cpu_den hz p = seconds_den hz (plus p.utime_ticks p.stime_ticks)

more_cpu-IsOrder : (hz : ℕ) → IsOrder (more_cpu hz)
unfolding more_cpu
more_cpu-IsOrder hz = record {
  asymmetric = λ a b h.
      less-signs (cpu_of hz a) (cpu_of hz b)
      ∙ signs_less-asymmetric _ _ (cpu_of hz b).value (cpu_of hz a).value
          (sym (less-signs (cpu_of hz b) (cpu_of hz a)) ∙ h);
  transitive = λ a b c h k.
      less-signs (cpu_of hz a) (cpu_of hz c)
      ∙ signs_less-transitive _ _ _ (cpu_of hz a).value (cpu_of hz b).value (cpu_of hz c).value
          (cpu_den hz b) (sym (less-signs (cpu_of hz a) (cpu_of hz b)) ∙ h)
          (sym (less-signs (cpu_of hz b) (cpu_of hz c)) ∙ k);
}

more_cpu-NotAbove :
    (hz : ℕ) (p q : ProcessInfo)
    → more_cpu hz q p ≡ false
    → SecondsNotAbove (cpu_of hz q) (cpu_of hz p)
unfolding more_cpu
more_cpu-NotAbove hz p q h =
    signs_less-NotAbove _ _ (cpu_of hz q).value (cpu_of hz p).value
      (sym (less-signs (cpu_of hz p) (cpu_of hz q)) ∙ h)

-- The keys of cmd_list.
pub data Key : Text → Type 0 where
  rss_key : Key (codes "rss")
  cpu_key : Key (codes "cpu")
  threads_key : Key (codes "threads")
  pid_key : Key (codes "pid")

-- The comparison for a key, which is an order, and what it puts first.
pub comparison_lem :
    (hz : ℕ) (key : Text)
    → Key key
    → (before : Before) × (comparison hz key ≡ some before)
      × IsOrder before
      × ((p q : ProcessInfo) → before q p ≡ false → MayPrecede hz p q key)
unfolding comparison text_eq
comparison_lem hz _ rss_key = (
  (λ a b. ltz b.rss_bytes a.rss_bytes),
  refl,
  descending-IsOrder (λ p. p.rss_bytes),
  λ p q h. by_rss (ltz-NotAbove q.rss_bytes p.rss_bytes h),
)
comparison_lem hz _ cpu_key =
    (more_cpu hz, refl, more_cpu-IsOrder hz, λ p q h. by_cpu (more_cpu-NotAbove hz p q h))
comparison_lem hz _ threads_key = (
  (λ a b. ltz b.num_threads a.num_threads),
  refl,
  descending-IsOrder (λ p. p.num_threads),
  λ p q h. by_threads (ltz-NotAbove q.num_threads p.num_threads h),
)
comparison_lem hz _ pid_key =
    ((λ a b. ltb a.pid b.pid), refl, by_pid-IsOrder, λ p q h. by_pid (ltb→le q.pid p.pid h))
