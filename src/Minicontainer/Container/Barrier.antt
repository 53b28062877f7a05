-- ===== src/Minicontainer/Container/Barrier.antt =====
-- The start barrier of run_container and child_main (minicontainer/src/container.cpp). Both
-- processes hold a write end of the pipe; the child's read returns when neither is open. The
-- parent is not killed, which would close its end too. The log and the failures printed are those of
-- the block that sets the limits.
use linux_internals.Minicontainer.Container.Limits.{
  Applied, MemoryApplied, cgroup_of, set_up-Applied,
}
use linux_internals.Minicontainer.Container.Setup.{limit_of, has_limit, set_up}
use linux_internals.Minicontainer.Host.{write_call, Log, Host, Failure}
use linux_internals.Minicontainer.Config.{ContainerConfig}
use linux_internals.Prelude.{
  ℕ, ◌+◌, ◌<◌, ◌≡◌, refl, sym, ap, ◌∙◌, ◌⊎◌, inl, inr, Bool, true, false, not, some, List, [], ◌∷◌,
  ◌++◌, arith, to_string, length, codes,
}

-- Where the parent stands: after clone, in the block that sets the limits, before it closes its
-- write end, and in waitpid.
pub data ParentAt : Type 0 where
  cloned : ParentAt
  limiting : ParentAt
  limited : ParentAt
  released : ParentAt

-- Where the child stands: before it closes its write end, in the read, and past the barrier.
pub data ChildAt : Type 0 where
  born : ChildAt
  blocked : ChildAt
  past : ChildAt

pub record Barrier : Type 0 where
  pub parent : ParentAt
  pub child : ChildAt
  pub parent_end : Bool
  pub child_end : Bool
  pub failures : List Failure
  pub log : Log

unfoldable pub after_clone : Barrier
after_clone = record {
  parent = cloned;
  child = born;
  parent_end = true;
  child_end = true;
  failures = [];
  log = [];
}

parent_end_of : ParentAt → Bool
parent_end_of cloned = true
parent_end_of limiting = true
parent_end_of limited = true
parent_end_of released = false

child_end_of : ChildAt → Bool
child_end_of born = true
child_end_of blocked = false
child_end_of past = false

-- Nobody passes the barrier before the parent has released it.
in_order : ParentAt → ChildAt → Bool
in_order p born = true
in_order p blocked = true
in_order p past = not (parent_end_of p)

still_in_order :
    (p q : ParentAt) (c : ChildAt)
    → parent_end_of p ≡ true
    → in_order p c ≡ true
    → in_order q c ≡ true
unfolding in_order
still_in_order p q born e h = refl
still_in_order p q blocked e h = refl
still_in_order p q past e h = absurd (ground (arith, e, h))

released_in_order : (c : ChildAt) → in_order released c ≡ true
unfolding in_order parent_end_of
released_in_order born = refl
released_in_order blocked = refl
released_in_order past = refl

-- How many steps are left, the interrupted reads aside.
parent_left : ParentAt → ℕ
parent_left cloned = 3
parent_left limiting = 2
parent_left limited = 1
parent_left released = 0

child_left : ChildAt → ℕ
child_left born = 2
child_left blocked = 1
child_left past = 0

pub steps_left : Barrier → ℕ
steps_left b = parent_left b.parent + child_left b.child

module _ (h : Host) (cfg : ContainerConfig) (pid : ℕ) where
  -- What the block has left behind, by where the parent stands.
  abbrev SetUp : ParentAt → List Failure → Log → Type 0
  SetUp cloned failures log = log ≡ []
  SetUp limiting failures log = log ≡ []
  SetUp limited failures log = set_up h cfg pid [] ≡ (failures, log)
  SetUp released failures log = set_up h cfg pid [] ≡ (failures, log)

  pub data Step : Barrier → Barrier → Type 0 where
    close_read_end : (b : Barrier) → b.parent ≡ cloned → Step b (record b { parent = limiting })
    set_limits :
        (b : Barrier)
        → b.parent ≡ limiting
        → Step b (record b {
          parent = limited;
          failures = (set_up h cfg pid b.log).0;
          log = (set_up h cfg pid b.log).1;
        })
    release :
        (b : Barrier)
        → b.parent ≡ limited
        → Step b (record b { parent = released; parent_end = false })
    close_write_end :
        (b : Barrier) → b.child ≡ born → Step b (record b { child = blocked; child_end = false })
    read_interrupted : (b : Barrier) → b.child ≡ blocked → Step b b
    read_eof :
        (b : Barrier)
        → b.child ≡ blocked
        → b.parent_end ≡ false
        → b.child_end ≡ false
        → Step b (record b { child = past })

  pub data Reach : Barrier → Type 0 where
    first : Reach after_clone
    later : {b b' : Barrier} → Reach b → Step b b' → Reach b'

  abbrev Inv : Barrier → Type 0
  Inv b =
      (b.parent_end ≡ parent_end_of b.parent)
      × (b.child_end ≡ child_end_of b.child)
      × (in_order b.parent b.child ≡ true)
      × SetUp b.parent b.failures b.log

  Step-Inv : {b b' : Barrier} → Step b b' → Inv b → Inv b'
  unfolding parent_end_of child_end_of in_order
  Step-Inv (close_read_end b e) i = (
    i.0 ∙ ap parent_end_of e,
    i.1,
    still_in_order b.parent limiting b.child (ap parent_end_of e) i.2,
    rw e at i.3,
  )
  Step-Inv (set_limits b e) i = (
    i.0 ∙ ap parent_end_of e,
    i.1,
    still_in_order b.parent limited b.child (ap parent_end_of e) i.2,
    ap (set_up h cfg pid) (sym (rw e at i.3)),
  )
  Step-Inv (release b e) i = (refl, i.1, released_in_order b.child, rw e at i.3)
  Step-Inv (close_write_end b e) i = (i.0, refl, refl, i.3)
  Step-Inv (read_interrupted b e) i = i
  Step-Inv (read_eof b e p c) i = (i.0, c, ap not (sym i.0 ∙ p), i.3)

  Reach-Inv : {b : Barrier} → Reach b → Inv b
  unfolding after_clone parent_end_of child_end_of in_order
  Reach-Inv first = (refl, refl, refl, refl)
  Reach-Inv (later r s) = Step-Inv s (Reach-Inv r)

  let_go : {b : Barrier} → Reach b → b.child ≡ past → b.parent ≡ released
  unfolding in_order parent_end_of
  let_go {b} r e = only b.parent (sym (ap (in_order b.parent) e) ∙ (Reach-Inv r).2)
    where
      only : (p : ParentAt) → in_order p past ≡ true → p ≡ released
      only cloned h = cc
      only limiting h = cc
      only limited h = cc
      only released h = refl

  -- In every state that the two processes reach, a child past the barrier was released by the
  -- parent, and the calls on files and the failures printed are those of the whole block that sets the
  -- limits.
  pub past_barrier_released :
      {b : Barrier}
      → Reach b
      → b.child ≡ past
      → (b.parent ≡ released) × (set_up h cfg pid [] ≡ (b.failures, b.log))
  past_barrier_released r e = (let_go r e, rw (let_go r e) at (Reach-Inv r).3)

  -- If a limit was asked for and nothing was printed, then once the child is past the barrier the last
  -- call was the one that put the child in its cgroup; by then every limit asked for had been written
  -- whole to its file, and with a memory limit 0 had been offered to memory.swap.max, which is left out
  -- only if that file does not open.
  pub past_barrier-Applied :
      {b : Barrier}
      → Reach b
      → b.child ≡ past
      → has_limit (limit_of cfg.memory_limit) (limit_of cfg.pids_limit) ≡ true
      → b.failures ≡ []
      → (older : Log) × (b.log
          ≡ write_call
              (cgroup_of pid ++ codes "/cgroup.procs")
              (to_string pid)
              (some (length (to_string pid)))
            ∷ older)
        × MemoryApplied (cgroup_of pid) (limit_of cfg.memory_limit) older
        × Applied (cgroup_of pid ++ codes "/pids.max") (limit_of cfg.pids_limit) older
  past_barrier-Applied {b} r e asked quiet =
      set_up-Applied h cfg pid [] b.log asked
        ((past_barrier_released r e).1 ∙ (λ i. (quiet i, b.log)))

  -- No deadlock: in every state that they reach the child is past the barrier, or one of the two can
  -- take a step that leaves fewer to take.
  pub barrier_opens :
      {b : Barrier}
      → Reach b
      → (b.child ≡ past) ⊎ ((b' : Barrier) × Step b b' × (steps_left b' < steps_left b))
  unfolding steps_left parent_left child_left
  barrier_opens {b} r = go b.parent b.child refl refl
    where
      ended_parent : b.parent ≡ released → parent_end_of b.parent ≡ false
      ended_parent e = unfold parent_end_of in rw e

      ended_child : b.child ≡ blocked → child_end_of b.child ≡ false
      ended_child h = unfold child_end_of in rw h

      go :
          (p : ParentAt) (c : ChildAt)
          → b.parent ≡ p
          → b.child ≡ c
          → (b.child ≡ past) ⊎ ((b' : Barrier) × Step b b' × (steps_left b' < steps_left b))
      go p past e h = inl h
      go p born e h =
          inr (
            record b { child = blocked; child_end = false },
            close_write_end b h,
            rw h (omega arith),
          )
      go cloned blocked e h =
          inr (record b { parent = limiting }, close_read_end b e, rw e (omega arith))
      go limiting blocked e x = inr (
        record b {
          parent = limited;
          failures = (set_up h cfg pid b.log).0;
          log = (set_up h cfg pid b.log).1;
        },
        set_limits b e,
        rw e (omega arith),
      )
      go limited blocked e h =
          inr (record b { parent = released; parent_end = false }, release b e, rw e (omega arith))
      go released blocked e h = inr (
        record b { child = past },
        read_eof b h ((Reach-Inv r).0 ∙ ended_parent e) ((Reach-Inv r).1 ∙ ended_child h),
        rw h (omega arith),
      )
