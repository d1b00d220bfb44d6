-- ===== src/Lib.antt =====
-- Encrypted DNS relay: DNS queries of a device are sent to a DNS-over-HTTPS or DNS-over-TLS server, over
-- TCP connections that split their first segment, for the flows of a TUN device.
--
-- The parts, and how they interact. A client hands queries to a resolver, one at a time or on a stream
-- socket (`Accept`). The resolver pads a query, zeroes its ID, and sends it over a connection that its
-- `dial` opens: the addresses of the server's host are kept in a map of sets, in which one address may
-- be confirmed as working. Each dial is a `DialWithSplitRetry`: a connection that keeps what is written
-- before the first read, and, when that read fails, dials again and sends the same bytes split in two.
--
-- The platform calls a bridge, which keeps a table of sessions. A session has an engine: a network stack
-- on the TUN descriptor, which hands TCP flows to the outbound dialer and UDP flows to the NAT. Flows to
-- the fake DNS address go to the resolver, which may be replaced while the session runs.
--
-- Prelude: Boolean tests, lists over native numbers, big-endian words, association lists, Go results.
-- Net/Ip: `net.IP.Equal`, after the documentation of package net; Net/Ip/Same says what it decides.
-- IpMap: proxy/doh/ipmap/ipmap.go. IpMap/View is a set with no view to order. `IpSet` is `IPSet`, `add_ip`, `confirm`, `disconfirm`, `get_all` are
--   `add`, `Confirm`, `Disconfirm`, `GetAll`. IpMap/Store is `ipMap`: the sets stand in a store and the
--   map holds indices, as in Go it holds pointers. `Get` is a lookup, a resolving and a locked `commit`,
--   between which other goroutines may act (IpMap/Store/Stable). The random swaps of `GetAll` and what
--   the system resolver answers are arguments.
-- Split: transport/split. Split/Conn is the part of `net.TCPConn` that the code uses: the segments that
--   were handed to it, its shut sides and deadlines. The ends of reads, writes and dials are arguments.
--   Split/Record and Split/Hello are `getTLSClientHelloRecordLen` and `splitHello`; the argument `draw` is
--   the random number. Split/Splitter is `splitter` and `copyOnce`, Split/Retrier is `retrier`: a `Write`
--   that fails on the provisional connection is two steps (`write_begin`, `write_resume`), since other
--   calls run while it waits. Split/Retrier/Steps is the relation of runs. Split/Retrier/Copy is `ReadFrom`,
--   with the reads of other goroutines between its steps as arguments. Split/Frames describes what the
--   TLS peer makes of a byte stream, with no view to the code: each byte of a record's content, with the
--   record's type and version.
-- Doh: proxy/doh. Doh/Message is the package dnsmessage, a record of its calls that is a parameter, with
--   the laws that the proofs use (`HasHeader`, and in child modules of Doh/Padding `AddsOptions`,
--   `RoundTrips` and `PacksId`). Doh/Padding is padding.go and `Servfail`; Doh/Dial is
--   `resolver.dial`; Doh/Query is `sendRequest` and `doQuery`, with its data in Doh/Query/Types, and
--   Doh/Query/Report the calls of the listener in `Query`; Doh/Accept is `forwardQuery` and `Accept`.
--   A Go panic of these functions is the result none.
-- Dot: proxy/dot/dot.go. Dot/Framing is `dnsOverTCPWrite` and `dnsOverTCPRead`; Dot/Query is
--   `dialPlainTCP` and `doQuery`, with the use of the connection in Dot/Query/Connection.
--   Dot/Make/Reached is the relation of the states that a resolver reaches.
-- Doh/Make and Dot/Make: the two `NewResolver`. Doh/Service: the interface `Resolver` as a record, with
--   the promises that its clients rely on; Doh/Service/OverHttps and Dot/Service are `Query` of the two
--   resolvers as implementations, Doh/Service/Stream is the stream socket as a client. Doh/ClientAuth:
--   proxy/doh/client_auth.go, over parameters for certificates.
-- Relay/Tcp: transport/tcp.go. `Flow` is `tcpWrapConn` with the counter of its wait group; the goroutine
--   that waits and reports is an event among the calls (`flow_step`, `run_flow`). Relay/Addr:
--   transport/addr.go and stack_addr.go. Relay/Udp: transport/udp_nat.go; the rounds of the two copy loops
--   come in any order (`Turn`). Relay/Outbound: transport/outbound.go and pipe.go. Relay/Forward:
--   transport/stack/tcp_forwarder.go. The steps of the two copies and of the handler come in any
--   order (`CopyEvent`).
-- Socket: common/socket/protect.go. Socket is the choice of a system resolver, Socket/Protect the control
--   function, `MakeDialer` and `MakeListenConfig`, over the calls of package net.
-- Log: common/log. A logger is a test for levels and what its handler writes (`Logger`); Log/Android is
--   log_android.go, over slog's text handler. Doh/QueryLog is proxy/doh/names.go and resolver_log.go; of all
--   log calls of the program only that one is composed with the loggers.
-- Tunnel: the layers of one session. Tunnel/World is common/tun/device.go and what is held of the system:
--   which TUN descriptors are open, and the network stacks. Tunnel/Device: transport/stack/device.go;
--   Tunnel/Engine: core/engine.go; Tunnel/Session: app/session. A pointer that only one owner has is the
--   value in that owner.
-- Bridge: infra/android/bridge.go and main/main.go. Bridge/Sessions is the table of sessions, the calls of
--   the platform (`Call`) and runs of them; Bridge/Hostname is `extractHostname`; Bridge/Callbacks is the
--   listener of queries, with the adapter of app/session/doh.go, and the probes.
-- Bridge/Probes: the exported probes.
-- Tests: runs on concrete inputs, with a small instance of the message package (Tests/Toy).
--
-- One definition runs on fuel, `read_labels` of Bridge/Hostname: its fuel is the number of bytes behind
-- the header, each round takes at least one of them, and `read_labels_enough` shows that more makes no
-- difference. The other loops are recursions on the list that they go over. Bytes are numbers, with the
-- bound 256 as a hypothesis where it matters; Go's `uint16` and `byte` conversions are written out as
-- remainders; `int` is not bounded, since the lengths that occur fit. Instants and durations are numbers of
-- nanoseconds.
--
-- Not modelled: reads of the clock and of random numbers and contexts (arguments, or left out); the other
-- log calls; TLS, HTTP, DNS, URL and certificate packages, slog and the gVisor stack, whose calls are
-- arguments; the calls into the JVM and C strings (infra/android, main); of the HTTP trace of a query, the
-- functions that only log; a report of a UDP flow between the count of a datagram and its write.
pub mod Prelude
pub mod Net
pub mod Log
pub mod IpMap
pub mod Split
pub mod Doh
pub mod Dot
pub mod Relay
pub mod Socket
pub mod Tunnel
pub mod Bridge
mod Tests
