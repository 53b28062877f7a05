-- ===== src/Evserver/Options/Tests.antt =====
-- The options of evserver at a port that does not fit 16 bits.

use linux_internals.Evserver.Options.Arguments.{arguments, is_epoll, main-arguments_port}
use linux_internals.Evserver.Options.{start, thrown, main}
use linux_internals.Evserver.Server.{epoll_edge}
use linux_internals.Prelude.{◌^◌, ◌≡◌, ◌&&◌, arith, leb, if◌then◌else◌, pos}

main-arguments_port_example : main (arguments epoll_edge 70000 4096 64) ≡ (
    if is_epoll epoll_edge && leb (2 ^ 63) 4096
    then thrown
    else start
        (record { backend = epoll_edge; port = 4464; max_events = pos 64; buffer_size = 4096 }))
main-arguments_port_example =
    main-arguments_port epoll_edge 70000 4096 64 (omega arith) (omega arith) (omega arith)
