-- ===== src/Minicontainer/Container/Root.antt =====
-- What has happened inside the container when the command takes over
-- (minicontainer/src/container.cpp).
use mathlib.Core.List.{append_assoc, append-nil}
use linux_internals.Prelude.{
  ℕ, ◌≡◌, refl, sym, ap, ◌∙◌, ◌≢◌, inl, inr, Bool, true, false, none, some, List, [], ◌∷◌, ◌++◌,
  map, arith, if◌then◌else◌, Bool-cases, All, All-append, Text,
}
use linux_internals.Minicontainer.Container.{
  Call, sethostname, mount_private, bind_rootfs, mkdir_put_old, pivot_root, chdir_root,
  umount_old_root, rmdir_old_root, mkdir_proc, mount_procfs, execvp, Answer, succeeded, exists,
  failed, Trace, Kernel, Attempt, is_ok, is_made, then_step, call, make_dir, ignored, setup_rootfs,
  mount_proc, change_root, prepare, child_main,
}

-- What an answer must be for child_main to go on: rmdir's is ignored, and a directory may exist.
pub Accepted : Call × Answer → Type 0
Accepted (rmdir_old_root, a) = Unit
Accepted (mkdir_put_old, a) = a ≢ failed
Accepted (mkdir_proc, a) = a ≢ failed
Accepted (c, a) = a ≡ succeeded

is_ok-succeeded : (x : Answer) → is_ok x ≡ true → x ≡ succeeded
unfolding is_ok
is_ok-succeeded succeeded h = refl
is_ok-succeeded exists h = cc h
is_ok-succeeded failed h = cc h

is_made-there : (x : Answer) → is_made x ≡ true → x ≢ failed
unfolding is_made
is_made-there succeeded h = λ e. cc e
is_made-there exists h = λ e. cc e
is_made-there failed h = cc h

-- A step that says true has made these calls, the last one first, with answers to go on with.
abbrev Makes : List Call → Attempt → Type 0
Makes cs a =
    (t : Trace)
    → (a t).0 ≡ true
    → (new : Trace) × ((a t).1 ≡ new ++ t) × (map (λ c. c.0) new ≡ cs) × All Accepted new

map-append : (xs ys : Trace) → map (λ c. c.0) (xs ++ ys) ≡ map (λ c. c.0) xs ++ map (λ c. c.0) ys
map-append [] ys = refl
map-append (x ∷ xs) ys = ap (◌∷◌ (x.0)) (map-append xs ys)

module _ (a b : Attempt) (t : Trace) where
  then_step_goes_on : (a t).0 ≡ true → then_step a b t ≡ b (a t).1
  unfolding then_step
  then_step_goes_on h = rw (h, then_step)

  then_step_fails : (a t).0 ≡ false → (then_step a b t).0 ≡ false
  unfolding then_step
  then_step_fails h = rw (h, then_step)

then_step-Makes :
    (cs ds : List Call) (a b : Attempt) → Makes cs a → Makes ds b → Makes (ds ++ cs) (then_step a b)
then_step-Makes cs ds a b ha hb t h = elim (Bool-cases (a t).0) [
  | inl ok ↦
      let (n, e, m, acc) = ha t ok in
      let goes = then_step_goes_on a b t ok in
      let (n', e', m', acc') = hb (a t).1 (sym (ap (λ r. r.0) goes) ∙ h) in
      (
        n' ++ n,
        ap (λ r. r.1) goes ∙ (e' ∙ (ap (λ l. n' ++ l) e ∙ sym (append_assoc n' n t))),
        map-append n' n ∙ rw (m, m'),
        All-append Accepted n' n acc' acc,
      )
  | inr f ↦ absurd (ground (arith, then_step_fails a b t f, h))
]

module _ (k : Kernel) where
  rmdir-Makes : Makes (rmdir_old_root ∷ []) (ignored k rmdir_old_root)
  unfolding ignored Accepted
  rmdir-Makes t h = ((rmdir_old_root, k t rmdir_old_root) ∷ [], refl, refl, (tt, tt))

  call-Makes :
      (c : Call) → ((x : Answer) → is_ok x ≡ true → Accepted (c, x)) → Makes (c ∷ []) (call k c)
  unfolding call
  call-Makes c f t h = ((c, k t c) ∷ [], refl, refl, (f (k t c) h, tt))

  make_dir-Makes :
      (c : Call)
      → ((x : Answer) → is_made x ≡ true → Accepted (c, x))
      → Makes (c ∷ []) (make_dir k c)
  unfolding make_dir
  make_dir-Makes c f t h = ((c, k t c) ∷ [], refl, refl, (f (k t c) h, tt))

  setup_rootfs-Makes :
      Makes
        (rmdir_old_root ∷ umount_old_root ∷ chdir_root ∷ pivot_root ∷ mkdir_put_old ∷ bind_rootfs
          ∷ mount_private ∷ [])
        (setup_rootfs k)
  unfolding setup_rootfs Accepted
  setup_rootfs-Makes = then_step-Makes _ _ _ _ (call-Makes mount_private is_ok-succeeded) (
      then_step-Makes _ _ _ _ (call-Makes bind_rootfs is_ok-succeeded) (
        then_step-Makes _ _ _ _ (make_dir-Makes mkdir_put_old is_made-there) (
          then_step-Makes _ _ _ _ (call-Makes pivot_root is_ok-succeeded) (
            then_step-Makes _ _ _ _ (call-Makes chdir_root is_ok-succeeded)
              (then_step-Makes _ _ _ _ (call-Makes umount_old_root is_ok-succeeded) rmdir-Makes)))))

  mount_proc-Makes : Makes (mount_procfs ∷ mkdir_proc ∷ []) (mount_proc k)
  unfolding mount_proc Accepted
  mount_proc-Makes =
      then_step-Makes _ _ _ _ (make_dir-Makes mkdir_proc is_made-there)
        (call-Makes mount_procfs is_ok-succeeded)

  change_root-Makes :
      (c : ℕ) (rootfs : Text)
      → Makes
          (rmdir_old_root ∷ umount_old_root ∷ chdir_root ∷ pivot_root ∷ mkdir_put_old ∷ bind_rootfs
            ∷ mount_private ∷ [])
          (change_root k (c ∷ rootfs))
  unfolding change_root
  change_root-Makes c rootfs t h = setup_rootfs-Makes t h

  prepare-Makes :
      (c : ℕ) (rootfs : Text)
      → Makes
          (mount_procfs ∷ mkdir_proc ∷ rmdir_old_root ∷ umount_old_root ∷ chdir_root ∷ pivot_root
            ∷ mkdir_put_old ∷ bind_rootfs ∷ mount_private ∷ sethostname ∷ [])
          (prepare k (c ∷ rootfs))
  unfolding prepare Accepted
  prepare-Makes c rootfs =
      then_step-Makes _ _ _ _ (call-Makes sethostname is_ok-succeeded)
        (then_step-Makes _ _ _ _ (change_root-Makes c rootfs) mount_proc-Makes)

  child_main_ready :
      (rootfs : Text) (t : Trace)
      → (prepare k rootfs t).0 ≡ true
      → child_main k rootfs t ≡ (
        (if is_ok (k (prepare k rootfs t).1 execvp) then none else some 127),
        (execvp, k (prepare k rootfs t).1 execvp) ∷ (prepare k rootfs t).1,
      )
  unfolding child_main call
  child_main_ready rootfs t h = rw (h, child_main)

  child_main_not_ready :
      (rootfs : Text) (t : Trace)
      → (prepare k rootfs t).0 ≡ false
      → (child_main k rootfs t).0 ≡ some 1
  unfolding child_main
  child_main_not_ready rootfs t h = rw (h, child_main)

ran : (b : Bool) (n : ℕ) → (if b then none else some n) ≡ none → b ≡ true
ran true n h = refl
ran false n h = cc

-- When the command of a container with a root file system takes over, child_main has made exactly
-- these calls, here the last one first; rmdir may have failed, the two mkdirs made their directory or
-- found that it exists, and every other call succeeded.
pub child_main-Accepted :
    (k : Kernel) (c : ℕ) (rootfs : Text)
    → (child_main k (c ∷ rootfs) []).0 ≡ none
    → (map (λ x. x.0) (child_main k (c ∷ rootfs) []).1
        ≡ execvp ∷ mount_procfs ∷ mkdir_proc ∷ rmdir_old_root ∷ umount_old_root ∷ chdir_root
          ∷ pivot_root ∷ mkdir_put_old ∷ bind_rootfs ∷ mount_private ∷ sethostname ∷ [])
      × All Accepted (child_main k (c ∷ rootfs) []).1
child_main-Accepted k c rootfs h = elim (Bool-cases (prepare k (c ∷ rootfs) []).0) [
  | inl ok ↦
      let ready = child_main_ready k (c ∷ rootfs) [] ok in
      let (new, e, m, acc) = prepare-Makes k c rootfs [] ok in
      let whole = e ∙ append-nil new in
      (
        ap (λ r. map (λ x. x.0) r.1) ready ∙ ap (◌∷◌ execvp) (ap (map (λ x. x.0)) whole ∙ m),
        sub (ap (λ r. r.1) ready)
            (executed _ (ran _ 127 (sym (ap (λ r. r.0) ready) ∙ h)), sub whole acc),
      )
  | inr f ↦ absurd (ground (arith, child_main_not_ready k (c ∷ rootfs) [] f, h))
]
  where
    sub : {xs ys : Trace} → xs ≡ ys → All Accepted ys → All Accepted xs
    sub e a = rw e a

    executed : (x : Answer) → is_ok x ≡ true → Accepted (execvp, x)
    executed x h = unfold Accepted in is_ok-succeeded x h
