-- ===== src/Lib.antt =====
-- DistrustCore, the core of an EasyConnect and aTrust VPN client (Go): the parts that decide about
-- packets, addresses and connections, as functions on explicit states.
--
-- The program. A resolver answers domain names, for some of them with a fake IP out of a pool
-- (internal/ippool). A dialer or a network stack sends the traffic either directly or into the
-- tunnel; which resource of the server covers a destination is looked up in an interval tree
-- (internal/ipresource). The L3 tunnel of aTrust (client/atrust) reads the header of a packet
-- (internal/zctcpip), finds the connection it belongs to in a table, asks the server for a
-- connection's authentication, and exchanges packets in frames.
--
-- The modules, and the code that each is about:
-- - Base: names of the libraries, Boolean tests, lists and integers over the native numbers, Go's
--   maps as association lists, outcomes of calls that may fail or panic, byte slices.
-- - NetIp: net.IP as its bytes, and the conversions of internal/ippool and internal/ipresource.
-- - Client: the resource records of client/client.go and the first-match rule of a domain.
-- - IpIndex: internal/ipresource/index.go. New, build and match with their names in antt's spelling;
--   Scan, Sorting and Tree relate them to a search through the list, Lookup concludes.
-- - IpPool: internal/ippool/ippool.go, each method one step, since each holds the mutex throughout.
-- - Zctcpip: internal/zctcpip, with Checksum (tcpip.go), Ipv4 (ip.go) and Transport (tcp.go, udp.go,
--   icmp.go). A packet is its bytes, a write gives new bytes, a read out of range is none.
-- - Tunnel: the formats of client/atrust/l3tunnelconn.go and client/atrust/ip.go. Frames, Stream, Meta
--   and Vip are the data frames, the stream of IP packets, the packet metadata and the answers with
--   the virtual IP. Routing is client/atrust/l3tunnelpacket.go up to the call of a connection.
-- - TcpTunnel: client/atrust/tcptunnel.go. The root has tcpTunnelConn with Read, Write and CloseWrite,
--   Handshake the messages that open a tunnel, Selection and Dialing the parts of DialTCP; Reading,
--   Draining, Writing, Replies and Refusals are about them. The TLS connection is a parameter: how
--   much a write takes, and the bytes that the server sends before the stream ends.
-- - Conntrack: client/atrust/l3tunnelconntrack.go. Tcp is observeTCP; Conntrack and Conntrack.Auth have
--   the table and its methods; Invariant, Room, Creation, Methods, Closing and Reach are about its
--   invariant, Delivery, Batches, Standing, Steps and Once about authentication. Writing has
--   WritePacket and completeAuthentication of client/atrust/l3tunnelconn.go, which call them, with
--   writeFrame, and Flushing is about them. What a write to the TLS connection takes is a parameter.
-- - ConnTable: client/atrust/l3tunnel.go, the table of L3 connections. Each function is what a method
--   does while it holds the mutex, or a dial that has returned: until it finishes, only its goroutine
--   holds the connection. Reach has their interleavings as a step relation and the invariant, Calls,
--   Finishing and Sound prove it, Accounting draws the conclusions.
-- - Resolve: the package resolve. DomainIndex is the trie of domain_index.go, DomainRules compares it
--   with a scan of the server's rules. Race is lookupIPWithTCPFallback and Candidates the loop of
--   Resolve over the results of its lookups, both over the events that the loop selects; Answering
--   and Selected, with Gathered, are about the answer. Coordination has the lookups that callers of
--   one host share, and Sharing is about them.
-- - UdpForwarding: service/udp_forwarding.go. Each function is what one goroutine does under a mutex or
--   on a channel; Budget has their interleavings and the account of the queued bytes, which Accounting
--   and Datagrams prove.
-- - Dial: dial/dialer.go, DialIPPort up to the connection that it then makes; Decision compares it with
--   a rule on the server's lists.
--
-- Choices. Machine integers are natural numbers with the wrap-around written out. A slice's capacity
-- is its length. A pointer to a connection is its number in a store, so that a connection outlives
-- its place in the table. Times are nanoseconds after the zero time, and a method takes what it read
-- of the clock. Go's stable sort is a stable insertion sort, since a stable sort has one result.
-- Recursion on slices that shrink is on fuel: build takes the length of the slice and
-- splitIncomingIPPackets the length of the stream, Write the length of what it is given, and the
-- reading of a stream of frames the stream's length, which is enough, since every step consumes at
-- least one element. What net.ParseCIDR answers is an argument. Concurrent code is a step relation:
-- a step is what one goroutine does while it holds a mutex, or one receive from a channel, and the
-- steps come in any order.
--
-- Not modelled: the rest of the resolver (resolve), the nodes and the
-- session of client/atrust, HTTP, TLS, JSON, sockets, goroutines and timers, logging, authentication
-- with the server (client/atrust/auth, client/authchallenge), the EasyConnect client
-- (client/easyconnect), the other services (service), the stacks (stack), the underlay (underlay),
-- configuration and start-up (configs, init.go, main.go, mobile): they do I/O, are glue to libraries,
-- or are outside the parts above. Of the table of connections, getByAuthResponseIP is left out, since
-- it searches in the order of a Go map.
mod Base
pub mod NetIp
pub mod Client
pub mod IpIndex
pub mod IpPool
pub mod Zctcpip
pub mod ConnTable
pub mod Resolve
pub mod TcpTunnel
pub mod UdpForwarding
pub mod Tunnel
pub mod Conntrack
pub mod Dial
