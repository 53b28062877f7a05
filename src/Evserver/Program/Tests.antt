-- ===== src/Evserver/Program/Tests.antt =====
-- main of evserver where the signalfd cannot be made.
use linux_internals.Evserver.Stats.{zero_stats}
use linux_internals.Evserver.Program.Counters.{counter_line, requests_counters}
use linux_internals.Evserver.Program.Ends.{Finished, program-Finished}
use linux_internals.Evserver.Program.{program}
use linux_internals.Evserver.Setup.{Request, new_signalfd, Opened, fd, failed, Net, Setup}
use linux_internals.Prelude.{
  ℕ, ◌≡◌, refl, true, none, some, [], ◌∷◌, to_string, length, codes, round_half_even, shift_down,
  shift_up, of_integer, quotient, divide, pad_zeros, fixed,
}

-- Descriptors are numbered by the calls so far; signalfd fails (EMFILE is 24).
numbered : ℕ → Request → Opened
numbered n new_signalfd = failed 24
numbered n _ = fd n

abbrev full_net : Net
full_net = record {
  opening = λ t r. numbered (length t) r;
  answer = λ t r. none;
  get_flags = λ t n. some 2;
  strerror = λ e. codes "Too many open files";
}

abbrev fresh : Setup
fresh = record { wanted = true; error = none; trace = [] }

program-Finished_example :
    Finished fresh (program full_net (codes "--backend=uring" ∷ codes "--port=8080" ∷ []) fresh)
program-Finished_example =
    program-Finished full_net (codes "--backend=uring" ∷ codes "--port=8080" ∷ []) fresh refl

per_request_printed :
    requests_counters (record zero_stats { requests = 3; syscalls = 8 })
    ≡ codes "  kernel entries         8\n\n  syscalls per request   2.67\n"
unfolding requests_counters counter_line fixed divide quotient of_integer shift_up shift_down
    round_half_even pad_zeros to_string
per_request_printed = refl
