-- ===== src/Lib.antt =====
-- Verification of the headers of cpp_core_systems: the singly linked list of include/containers,
-- the addresses, endpoints and sockets of include/net, the timer of include/time, and programs of
-- examples and benchmarks that use them.
--
-- The repository is a set of independent header-only parts. SList owns nodes on the free store. In
-- include/net an IPAddress is the value that a SocketEndpoint pairs with a port and a scope; a
-- SocketEndpoint is what the socket classes hand to the system's calls and read back from them.
-- Each socket class owns one descriptor through a SocketHandle and reports errors in a
-- SocketResult.
--
-- - Prelude, Prelude/Tests and Prelude/Lists: library names passed on, Boolean tests, and lemmas on
--   lists over the native numbers.
--
-- - Containers/Heap: the free store as a function from addresses to nodes, and commands that
--   allocate, read, write and delete nodes. A null or dangling access is a fault, and `new` may
--   throw. Heap/Access says what each access does, Heap/Ends is total correctness with an
--   exceptional postcondition, and Heap/Linked is the chain of nodes that a list owns.
--
-- - Containers/SList: SList of include/containers/slist.hpp. The functions carry the names of the
--   member functions; push_back, push_front and insert_after only forward to emplace_back,
--   emplace_front and emplace_after and are those here. An operation returns the list object with
--   the new fields. Containers/SList/Objects has the constructors, the destructor, swap and the
--   assignments, over several list objects. Containers/SList/Shape has the invariant IsList,
--   Containers/SList/Program sequences of calls against a plain sequence of values, and the other
--   modules one operation each.
--
-- - Net/Text: the text functions of the standard library that the parsers call. Net/Text/Find and
--   Net/Text/Decimal say what they do.
--
-- - Net/IpAddress: IPVersion and IPAddress of include/net/ip_address.hpp. Net/IpAddress/Valid has
--   the class invariant, Net/IpAddress/Print the text form and Net/IpAddress/Order the comparisons
--   and the hash.
--
-- - Net/SocketEndpoint: SocketEndpoint of include/net/socket_endpoint.hpp. Net/SocketEndpoint/Text
--   and Net/SocketEndpoint/Grammar are about its text form, Net/SocketEndpoint/Accept about its
--   constructor, Net/SocketEndpoint/Native about the system's socket address structures, with
--   Net/SocketEndpoint/Native/Reading for FromNative on any of them, and Net/SocketEndpoint/Order
--   about the comparisons and the hash.
--
-- - Net/SocketError: SocketError of include/net/socket_error.hpp on POSIX and on Windows, and the
--   results of include/net/socket_result.hpp. Net/SocketError/Classes is about the classes of
--   errors that the predicates ask for, and Net/SocketError/Exclusive about the predicates
--   together. SocketResult<void> is the result of the one-element type; Net/SocketResult has it as
--   the source has it, and what is asked of a result.
--
-- - Net/System: the socket calls of the system, which descriptors they open and close, and that a
--   call that fails sets errno.
--
-- - Net/SocketHandle: SocketHandle of include/net/socket_handle.hpp, the owner of a descriptor;
--   Net/SocketHandle/Owners has the steps of a program with several owners,
--   Net/SocketHandle/Owners/Moves is about single steps, and Net/SocketHandle/Owners/Runs about all
--   runs.
--
-- - Net/SocketRuntime: SocketRuntime of include/net/socket_runtime.hpp; Net/SocketRuntime/Lifetimes
--   has the runs of a program that makes and destroys runtimes.
--
-- - Net/SocketHelpers: include/net/detail, with QueryEndpoint in Net/SocketHelpers/Query.
--   Net/SocketHelpers/Attach is the end that Connect and both Bind functions share, and
--   Net/SocketHelpers/Retry the loop that Send, Receive, Accept and SendTo share.
--
-- - Net/TcpSocket, Net/TcpListener and Net/UdpSocket: the classes of include/net/tcp_socket.hpp,
--   include/net/tcp_listener.hpp and include/net/udp_socket.hpp. An object is its m_handle, its
--   only field. Net/Asserts is about the errors that they report.
--
-- - Net/Transfer: SendAll and ReceiveExact of benchmarks/net/bench_tcp.cpp, which loop over Send
--   and Receive of a TcpSocket. Net/Transfer/Step is about one round, Net/Transfer/Whole about the
--   loops, Net/Transfer/Echo about the two ends together, and Net/Transfer/Result has SendAll of
--   examples/net/example_tcp_loopback.cpp.
--
-- - Net/Pair: ConnectPair and Configure of benchmarks/net/bench_tcp.cpp. Its parts are one function
--   for what follows each call. Net/Pair/Extra is about the descriptors opened since a state, and
--   Net/Pair/Made about the whole.
--
-- - Net/Benchmark: the arguments of benchmarks/net/bench_tcp.cpp in Net/Benchmark/Arguments, and
--   the sending loop of its Throughput in Net/Benchmark/Stream.
--
-- - Net/Benchmark/Threads: the two threads of Throughput of benchmarks/net/bench_tcp.cpp as a step
--   relation, in which any thread takes the next step. A step is one Send, Receive or Shutdown, or
--   a latch. Net/Benchmark/Threads/Sending and Net/Benchmark/Threads/Receiving are about the steps
--   of each thread, and Net/Benchmark/Threads/Finish about whole runs.
--
-- - Net/Benchmark/Trips: the two threads of RoundTrips in the same way. Net/Benchmark/Trips/Ways is
--   about one way of the connection, Net/Benchmark/Trips/Stands and Net/Benchmark/Trips/Turns about
--   the threads and their steps, and Net/Benchmark/Trips/Finish about whole runs.
--
-- - Net/Loopback: main of examples/net/example_tcp_loopback.cpp, one function for what follows each
--   call. Net/Loopback/Waits is about Receive and SendAll where only so many bytes can arrive,
--   Net/Loopback/Reading about the client's loop, Net/Loopback/Echoing about the exchange, and
--   Net/Loopback/Ends about the whole.
--
-- - Net/UdpLoopback: main of examples/net/example_udp_loopback.cpp in the same way, with
--   Net/UdpLoopback/Opened for the open descriptors and Net/UdpLoopback/Ends for the whole.
--
-- - Net/HandleExample: main of examples/net/example_socket_handle.cpp, with Net/HandleExample/Story
--   for what it writes and Net/HandleExample/Ends for the whole.
--
-- - Time/ScopeTimer: ScopeTimer of include/time/scope_timer.hpp, and the scopes of
--   examples/time/example_scope_timer.cpp as code in which a timer lives until its block ends.
--   Time/ScopeTimer/Scopes is about what nested timers write.
--
-- - Net/Machine, Net/Wire, Net/Channel and Net/Link: stand-ins for the system's calls, the last
--   three with a connection, that the tests run on.
--
-- - Net/StandIn and the modules called Tests: stand-ins for the system's calls, runs, and the
--   properties at concrete inputs.
--
-- Addresses and bytes are numbers; std::size_t has 64 bits, and m_size wraps round at 2^64. Text is
-- a list of character codes. A loop over nodes has fuel for `m_size` + 1 rounds, which is one more
-- than the list has nodes; the results say that this is enough, since none of the runs that they
-- describe is out of fuel.
--
-- Code outside the repository is a parameter: the allocator (it may throw, and otherwise returns an
-- unused address other than null), equality and printing of the values, inet_pton and inet_ntop
-- (the record Inet with the laws IsInet), and the socket address structures with memcpy and the
-- byte order (the record Sockets with the laws IsSockets).
--
-- A constructor of a value that throws is a `new` that throws. Moved-from values, the order in
-- which the values of two lists are destroyed, and iterators of one list used on another are not
-- modelled. A loop around an interrupted system call has fuel; it is enough where it is more than
-- the number of interruptions in a row. The system's calls are the record System with the laws
-- IsSystem, which only say what descriptors are open, and that send and recvmsg take and store no
-- more than they are given, SetsErrno, and, for a connection, IsStream. Errors, with the laws
-- IsErrors, is what the code uses of std::error_code, and Startup, with the laws IsStartup, is
-- WSAStartup and WSACleanup. A round of SendAll and ReceiveExact moves one byte at least, so a
-- round for each byte is enough; the sending loop of Throughput has a round for each chunk. The
-- loops of the TCP example have turns; there are enough where there is one more than bytes can
-- still arrive (IsFinite). Of a program the printed lines are values with what is printed in them,
-- and std::latch is where the worker stands. ScopeTimer's clock and stream are the record Library.
-- Not modelled are the Windows branches of the socket classes, the message that Close prints in a
-- debug build, the comparisons and the hash of SocketHandle, the measurements, the rest of the
-- examples and of the benchmarks, and the tests.
pub mod Containers
pub mod Net
pub mod Prelude
pub mod Time
