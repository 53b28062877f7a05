-- ===== src/Evserver/Loadgen/Tests.antt =====
-- A worker that is stopped after one request, the options, the idle connections and a percentile.

use linux_internals.Evserver.Options.{to_uint16}
use linux_internals.Prelude.{
  ℕ, ◌+◌, ◌*◌, ◌^◌, ◌≡◌, refl, ap, Bool, true, false, none, List, [], ◌∷◌, arith, to_string,
  decimal_value, digits, past_spaces, scan_unsigned, scan_signed, scan_number, in_range, stoi,
  modulo, stoul, length, replicate, length-replicate, pos, negsuc, codes, text_eq, after_prefix,
  is_digit, is_space, round_half_even, shift_down, shift_up, of_integer, quotient, divide, multiply,
  truncate, pad_zeros, fixed,
}
use linux_internals.Evserver.Kernel.{ReadAnswer, got, read_failed, WriteAnswer, wrote, write_failed}
use linux_internals.Evserver.Setup.{
  fd, Net, Setup, open_new, ask, attempt, with_socket, connect_tcp, is_done, set_nodelay,
}
use linux_internals.Evserver.Stats.{bump}
use linux_internals.Evserver.Loadgen.{
  Exchanges, Peer, Latency, Client, all_written, keep_latency, read_reply, read_clock,
  finish_request, one_request, request_loop, worker,
}
use linux_internals.Evserver.Loadgen.Options.{
  default_load, parsed, set_number, set_payload, load_option, load_options, open_idle, aborts,
  ready_for, with_threads, prepare_load,
}
use linux_internals.Evserver.Loadgen.Totals.{
  microseconds, shorter, insert_latency, sort_latencies, gather, totals, percentile_index, element,
  percentile, whole_number, last_latency, latency_lines, load_report,
}
use linux_internals.Evserver.Loadgen.Replies.{latest, Honest}
use linux_internals.Evserver.Loadgen.Measured.{Worked, worker-Worked}

abbrev second_time : Exchanges → Bool
second_time [] = false
second_time (e ∷ t) = true

-- Whatever is sent comes back at once; the clock takes five nanoseconds from one reading to the next.
echo_peer : Peer
unfolding latest
echo_peer = record {
  stopped = second_time;
  now = λ t. latest t + 5;
  write = λ t bytes. wrote (length bytes);
  read = λ t n. got (replicate n 120);
}

wrote_count : WriteAnswer → ℕ
wrote_count (wrote n) = n
wrote_count (write_failed e) = 0

got_count : ReadAnswer → ℕ
got_count (got bytes) = length bytes
got_count (read_failed e) = 0

echo_peer-Honest : Honest echo_peer
unfolding echo_peer wrote_count got_count
echo_peer-Honest = record {
  write_bound = λ t bytes n h. omega (arith, ap wrote_count h);
  read_bound = λ t n bytes h. omega (arith, ap got_count h, length-replicate {A = ℕ} n 120);
  steady = λ t. omega arith;
}

abbrev some_net : Net
some_net = record {
  opening = λ t r. fd (length t);
  answer = λ t r. none;
  get_flags = λ t n. none;
  strerror = λ e. [];
}

abbrev blank_setup : Setup
blank_setup = record { wanted = true; error = none; trace = [] }

abbrev one_latency : Client → ℕ × List Latency
one_latency c = (c.requests, c.latencies)

one_echo_measured :
    one_latency (worker some_net echo_peer 9 9000 4 blank_setup).1 ≡ (1, (5, 10) ∷ [])
unfolding worker echo_peer request_loop one_request read_reply read_clock finish_request
    keep_latency all_written latest bump connect_tcp with_socket attempt open_new ask set_nodelay
    is_done
one_echo_measured = refl

worker-Worked_example : Worked 4 (worker some_net echo_peer 9 9000 4 blank_setup)
worker-Worked_example = worker-Worked some_net echo_peer 9 9000 4 blank_setup echo_peer-Honest

port_and_payload_parsed :
    load_options default_load (codes "--port=70000" ∷ codes "--payload=9" ∷ [])
    ≡ parsed (record default_load { port = 4464; payload = 9 })
unfolding load_options load_option set_number set_payload after_prefix text_eq stoi in_range
    scan_number scan_signed past_spaces is_space scan_unsigned digits is_digit decimal_value stoul
    modulo to_uint16
port_and_payload_parsed = refl

negative_idle_aborts :
    (prepare_load some_net (record default_load { idle = negsuc 0 }) blank_setup).0 ≡ aborts
unfolding prepare_load
negative_idle_aborts = refl

two_idle_opened :
    (prepare_load some_net (record default_load { idle = pos 2 }) blank_setup).0
    ≡ ready_for 8 (0 ∷ 2 ∷ [])
unfolding prepare_load with_threads open_idle connect_tcp with_socket attempt open_new ask
two_idle_opened = refl

median_index : percentile_index 50 5 ≡ 2
unfolding percentile_index truncate multiply divide quotient of_integer shift_up shift_down
    round_half_even
median_index = refl

last_percent_index : percentile_index 99 101 ≡ 99
unfolding percentile_index truncate multiply divide quotient of_integer shift_up shift_down
    round_half_even
last_percent_index = refl

load_report_printed :
    load_report
      (2 * 10 ^ 9)
      (record { requests = 2; latencies = (0, 1500) ∷ (2000, 2250) ∷ []; trace = [] } ∷ [])
    ≡ codes
        "\n  requests      2\n  throughput    1 req/s\n  latency p50   0.2 us\n  latency p99   0.2 us\n  latency max   1.5 us\n"
unfolding load_report totals gather sort_latencies insert_latency shorter microseconds latency_lines
    last_latency percentile element percentile_index whole_number fixed pad_zeros to_string truncate
    multiply divide quotient of_integer shift_up shift_down round_half_even bump
load_report_printed = refl
