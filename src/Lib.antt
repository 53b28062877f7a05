-- ===== src/Lib.antt =====
-- Models of the C++ tools of linux-internals: the echo server with three backends (evserver/), the
-- container runtime (minicontainer/) and the reader of /proc (procmon/). The tools do not call
-- each other; what they share here is the Prelude. Paths are from the repository's root.
--
-- Prelude: Boolean tests, lists over native numbers, byte strings (Text) and searches in them,
--   signed integers, decimal numerals, and std::stoi, stoll and stoul, with `none` for what they
--   throw. Floating has the doubles that are not negative as fractions, rounded to 53 bits with ties
--   to even, and their text with a fixed number of decimals; its fuel is for quotients between
--   2^-200 and 2^116.
--
-- Evserver
--   Kernel: the system calls that the servers make, as functions of the calls made so far, which
--     are kept with their answers in a trace; `Posix` has what the proofs use of them.
--   Stats (include/ev/stats.hpp), Server (include/ev/server.hpp, src/server.cpp): the counters,
--     which wrap around at 2^64, the configuration and the names of the backends.
--   Exec: actions on a state with fuel; an action without a result has used it up.
--   Epoll (src/server_epoll.cpp): run and everything below it, one function per method, and one
--     per part of a loop's body. The state is the server's fields and the trace. Each loop takes
--     fuel, since the kernel may report EINTR or events for ever; Epoll.Total bounds that of
--     write_all for a kernel that lets one write in so many through. The memory that vectors and
--     strings take is supposed to be there, up to the largest size that they may have.
--   Uring (src/server_uring.cpp): handle_completion and what it calls. The ring is a function
--     that says whether get_sqe has an entry free; a completion is a value, and Runs has the
--     states that completions of operations in flight lead to. A connection is known by a
--     number, so that a use after its destruction can be told (`none`). Loop is run(), with fuel
--     for both of its loops. Echo has the abstract echo server: a session is what a peer said
--     that was not answered yet, and a step joins, hears, says or leaves; Uring.Sessions reads
--     the table of connections as such sessions, and Reactions has the effect that each completion
--     should have on them.
--   Threads (src/server_threads.cpp): serve on one connection, with the trace of its own calls,
--     where running_ reads whatever a function of that trace says; and run, whose workers are
--     the descriptors of their connections. Both take fuel as the epoll server's loops do.
--   Socket (include/ev/socket.hpp, src/socket.cpp): class Socket on a store with every object's
--     fd_, by number, and the kernel's table of open descriptors.
--   Setup (src/socket.cpp, src/signals.cpp): listen_tcp, connect_tcp and signal_fd over a second,
--     smaller interface to the kernel, and Start with start() of the three servers; what the
--     io_uring server's queues in the ring is start of Uring.
--   Loadgen (bench/loadgen.cpp): a worker over what the server, the clock and `stop` answer, with
--     fuel for its two loops; the options, the idle connections, the totals and the percentiles.
--   Options (src/main.cpp): the configuration that main starts a server with, and the exception of
--     the epoll server's constructor. Program: main as far as server->run(), with the destructors
--     where start() fails, and in Program.Counters what it prints.
--
-- Minicontainer
--   Size (src/util.cpp): parse_size and human_bytes. An overflow that is undefined in C++ is a
--     result of its own.
--   Config (include/mc/container.hpp): ContainerConfig. Host (src/util.cpp): files and
--     directories as what the calls so far make the kernel answer, with read_file and
--     write_file.
--   Cgroup (src/cgroup.cpp): create, the limits, add_process, the destructor and the readers; an
--     error is the step that failed and its path.
--   Container (src/container.cpp): the calls of child_main and the status of run_container; the
--     kernel is a function from the calls made to an answer. Container.Setup has the block that
--     sets up the cgroup, and Container.Barrier parent and child around the pipe as a step
--     relation. Container.Run is run_container from pipe() to its return, over the answers of
--     waitpid one after the other.
--   Commands (src/main.cpp): the options and the dispatch of main. Namespaces (src/util.cpp,
--     src/container.cpp, src/main.cpp): the identifiers of the namespaces as text.
--
-- Procmon
--   Util (src/util.cpp): reading files, lines, words, keys and numbers. A file is what its reads
--     return. A loop over a text has its length as fuel, of which each round takes at least one
--     byte.
--   Process (src/process.cpp): parse_stat, read_process, read_maps (Maps) and read_threads,
--     list_pids and the names (Threads). The files and directories of /proc are parameters;
--     std::sort is an insertion sort.
--   System (src/system.cpp): read_meminfo, and Load with read_loadavg and read_uptime_seconds, where
--     strtod is there for the plain decimals that the kernel writes.
--   Table (src/format.cpp): class Table and what it prints. Format (src/format.cpp, with cpu_seconds
--     of src/process.cpp): sizes, durations, addresses and fields as text.
--   MappedFile (src/mapped_file.cpp): the class over the kernel's answers, and its page counts.
--   Commands, Listing, Summary (src/main.cpp): the dispatch of main; cmd_list up to its table, with
--     the order that each key asks for (Listing.Orders); and
--     the sums of cmd_show and cmd_maps over the regions of a process. Report (src/main.cpp): what
--     the five commands print, with their exit codes.
--
-- Not modelled: the text of usage, procmon's FileDescriptor, which is class Socket word for word, the
-- destructors of the servers, which join the workers or exit the ring, and the demonstration programs.
pub mod Prelude
pub mod Evserver
pub mod Minicontainer
pub mod Procmon
