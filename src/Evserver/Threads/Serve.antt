-- ===== src/Evserver/Threads/Serve.antt =====
-- serve of evserver/src/server_threads.cpp: the echo on one connection.
use mathlib.Core.List.{append-nil, append_assoc}
use linux_internals.Evserver.Threads.WriteBack.{gave_up, Wrote, write_back-Wrote}
use linux_internals.Evserver.Threads.{Worker, leave, blocking_read, answer_request, serve}
use linux_internals.Evserver.Kernel.{
  eagain, eintr, other, ReadAnswer, got, read_failed, read_call, close_call, Trace, Kernel,
  received, sent, is_closed, Posix,
}
use linux_internals.Prelude.{
  ℕ, zero, suc, ◌≡◌, refl, sym, ap, ◌∙◌, inl, inr, Bool, true, false, Option, none, some, [], ◌∷◌,
  ◌++◌, arith, ==_refl, Bool-cases, length, take, drop, take-append-drop, take_all, Text,
}

-- What serve gives: none while it has not returned.
abbrev pub Returned : Type 0
Returned = Option Unit × Worker

-- What was sent is a prefix of what was received; once serve has returned the descriptor is closed,
-- and unless the last write failed all that was received has been sent.
pub record Served (fd : ℕ) (out : Returned) : Type 0 where
  pub unsent : Text
  pub prefix : received fd out.1.trace ≡ sent fd out.1.trace ++ unsent
  pub closed : out.0 ≡ some tt → is_closed fd out.1.trace ≡ true
  pub whole :
      out.0 ≡ some tt → gave_up out.1.trace ≡ false → sent fd out.1.trace ≡ received fd out.1.trace

left-closed : (fd : ℕ) (t : Trace) → is_closed fd (close_call fd ∷ t) ≡ true
unfolding is_closed
left-closed fd t = rw (==_refl fd) refl

leave-Served :
    (fd : ℕ) (s : Worker) → sent fd s.trace ≡ received fd s.trace → Served fd (leave fd s)
unfolding leave received sent
leave-Served fd s e = record {
  unsent = [];
  prefix = sym e ∙ sym (append-nil (sent fd s.trace));
  closed = λ h. left-closed fd s.trace;
  whole = λ h g. e;
}

leave_failed-Served :
    (fd : ℕ) (s : Worker) (unsent : Text)
    → received fd s.trace ≡ sent fd s.trace ++ unsent
    → gave_up (close_call fd ∷ s.trace) ≡ true
    → Served fd (leave fd s)
unfolding leave received sent
leave_failed-Served fd s unsent e g = record {
  unsent = unsent;
  prefix = e;
  closed = λ h. left-closed fd s.trace;
  whole = λ h f. cc (f, g);
}

bytes_of : ReadAnswer → Text
bytes_of (got bytes) = bytes
bytes_of (read_failed e) = []

received-read :
    (fd : ℕ) (a : ReadAnswer) (t : Trace)
    → received fd (read_call fd a ∷ t) ≡ received fd t ++ bytes_of a
unfolding received bytes_of
received-read fd (got bytes) t = rw (==_refl fd) refl
received-read fd (read_failed e) t = sym (append-nil (received fd t))

part :
    (fd : ℕ) (bytes base : Text) (s : Worker) (n : ℕ)
    → sent fd s.trace ≡ base ++ take n bytes
    → received fd s.trace ≡ base ++ bytes
    → received fd s.trace ≡ sent fd s.trace ++ drop n bytes
part fd bytes base s n e r =
    r
    ∙ ap (◌++◌ base) (sym (take-append-drop n bytes))
    ∙ sym (append_assoc base (take n bytes) (drop n bytes))
    ∙ ap (λ (t : Text). t ++ drop n bytes) (sym e)

module _ (k : Kernel) (law : Posix k) (running : Trace → Bool) (fd : ℕ) where
  -- What follows the loop that writes a request back.
  answered-Served :
      (bytes base : Text) (out : Option Bool × Worker) (rest : Worker → Returned)
      → Wrote fd bytes base (base ++ bytes) out
      → ((s : Worker) → sent fd s.trace ≡ received fd s.trace → Served fd (rest s))
      → Served fd (elim out.0 as (λ _. Returned) [
        | none ↦ (none, out.1)
        | some false ↦ leave fd out.1
        | some true ↦ rest out.1
      ])
  answered-Served bytes base (none, s) rest w ih = record {
    unsent = drop w.count bytes;
    prefix = part fd bytes base s w.count w.exact w.input_kept;
    closed = λ h. cc h;
    whole = λ h. cc h;
  }
  answered-Served bytes base (some false, s) rest w ih =
      leave_failed-Served fd s (drop w.count bytes)
        (part fd bytes base s w.count w.exact w.input_kept) (w.failed refl)
  answered-Served bytes base (some true, s) rest w ih = ih s (
      w.exact
      ∙ ap (λ n. base ++ take n bytes) (w.complete refl)
      ∙ ap (◌++◌ base) (take_all (length bytes) bytes (omega arith))
      ∙ sym w.input_kept)

  -- A round of serve, from the state that the read leaves.
  one_request :
      (f : ℕ) (a : ReadAnswer) (base : Text) (s : Worker)
      → sent fd s.trace ≡ base
      → received fd s.trace ≡ base ++ bytes_of a
      → (rest : Worker → Returned)
      → ((s' : Worker) → sent fd s'.trace ≡ received fd s'.trace → Served fd (rest s'))
      → Served fd (elim a as (λ _. Returned) [
        | got [] ↦ leave fd s
        | got (b ∷ bs) ↦
            let (more, s'') = answer_request k f fd (b ∷ bs) s in
            elim more [ none ↦ (none, s'') | some false ↦ leave fd s'' | some true ↦ rest s'' ]
        | read_failed eintr ↦ rest s
        | read_failed eagain ↦ leave fd s
        | read_failed (other e) ↦ leave fd s
      ])
  unfolding answer_request bytes_of
  one_request f (got []) base s e r rest ih = leave-Served fd s (e ∙ sym (append-nil base) ∙ sym r)
  one_request f (got (b ∷ bs)) base s e r rest ih =
      answered-Served (b ∷ bs) base (answer_request k f fd (b ∷ bs) s) rest
        (write_back-Wrote k law fd (b ∷ bs) base (base ++ (b ∷ bs)) f 0 _
          (record { bounded = omega arith; exact = e ∙ sym (append-nil base); input_kept = r }))
        ih
  one_request f (read_failed eagain) base s e r rest ih =
      leave-Served fd s (e ∙ sym (append-nil base) ∙ sym r)
  one_request f (read_failed eintr) base s e r rest ih = ih s (e ∙ sym (append-nil base) ∙ sym r)
  one_request f (read_failed (other n)) base s e r rest ih =
      leave-Served fd s (e ∙ sym (append-nil base) ∙ sym r)

  -- Over a kernel that keeps `Posix`, on a connection on which as much was sent as received, what serve
  -- has sent is at every moment a prefix of what it received; once it has returned the connection is
  -- closed, and all that was received has been sent unless the last write failed.
  pub serve-Served :
      (f : ℕ) (s : Worker)
      → sent fd s.trace ≡ received fd s.trace
      → Served fd (serve k running f fd s)
  unfolding serve blocking_read sent
  serve-Served zero s e = record {
    unsent = [];
    prefix = sym e ∙ sym (append-nil (sent fd s.trace));
    closed = λ h. cc h;
    whole = λ h g. e;
  }
  serve-Served (suc f) s e = elim (Bool-cases (running s.trace)) [
    | inr stop ↦ rw (stop, serve) (leave-Served fd s e)
    | inl go ↦
        rw (go, serve)
          (one_request f (k.read s.trace fd s.buffer_size) (received fd s.trace)
            (blocking_read k fd s).1 e (received-read fd (k.read s.trace fd s.buffer_size) s.trace)
            (serve k running f fd) (serve-Served f))
  ]
