-- ===== src/Lib.antt =====
-- A model of the DHCP server standalone_dhcp, and what it guarantees.
--
-- The program listens on interfaces (server.go), queues the packets that are DHCP requests, and
-- hands them to workers (workers_pool.go). A worker calls `ServeDHCP` (interface.go), which passes
-- the packet on as a relay, or chooses the network that serves it and answers from the state of that
-- network: an address pool (pool/pool.go), a cache from hardware addresses to indices of the pool,
-- and the options with their overrides from the database (database.go). The answer goes out in a
-- packet that the program builds itself (rawClient.go).
--
--   Prelude              Boolean tests, lists, maps and `int`; no code of the program
--   Net                  the parts of Go's `net` that the program uses
--   Pool                 pool/pool.go: `DHCPPool` and its methods. Children: the invariant, the
--                        choice of a free index, allocation, new pools, any run of calls, and the
--                        abstract pool, which has a slot for each index
--   RawClient            rawClient.go: headers, checksums, `sendUnicastDHCP` and `sendDHCP`
--   Utils, Shuffle       utils.go: conversions of integers, server identifier, shuffles
--   Texts                the texts of networks, masks and durations, as Go's `net` and `time` write
--                        them, and the IPv4 and IPv6 tests of config.go
--   Convert              database.go: `ConvertOptionToDHCP`
--   Override             database.go: the overrides and their cache, `ApplyOptionOverrides`
--   Dhcp                 the interfaces of the libraries
--   Handler              config.go and server.go: the state of a network, `OnEvicted`, and
--                        `buildReplyOptions` of interface.go
--   Discover             interface.go, `ServeDHCP`: DISCOVER. The children Settings, here and in
--                        Request and Serve, are on the settings of a network
--   Request              interface.go, `ServeDHCP`: REQUEST and INFORM
--   Release              interface.go, `ServeDHCP`: RELEASE and DECLINE, and the goroutines
--   Relay                interface.go, `ServeDHCP`: the packets of a relay. Children: what krolaw/dhcp4
--                        says of the fields of a packet, and what a relay keeps of them
--   Serve                interface.go, `ServeDHCP`: choice of the network, transactions, dispatch.
--                        Children: every run of a network (Invariant), what such a run frees and
--                        keeps, the choice of the network, and second packets of a transaction
--   Server               server.go and workers_pool.go: the queue, and what a worker sends
--   Static               utils.go: `IPsFromRange` and `ExcludeIP`; config.go: `AssignIP`, and its
--                        regular expression (Static.Assignments)
--   Ini                  the interface of the library that reads the configuration file
--   Config               config.go: `readConfig`. Children: the loops over interfaces and relays, what
--                        a section leads to, and the networks at the start
--   Dictionary           dictionary.go: the table of options, and their texts
--   Percent              the percentages of the statistics, rounded as a float64 is
--   Sockets              serverif.go: how sockets are opened, closed and listened on
--   Api                  api.go: the handlers on option overrides. Children: Leases (shown and
--                        released, with `InterfaceScopeFromMac` of utils.go), Statistics, Pages (the
--                        handlers on statistics, and the table of interfaces of main.go), and
--                        Configuration (get and update). Statistics.Running puts the reading of the
--                        configuration, the packets and the statistics together
--   Tests                runs at concrete inputs, over simple libraries
--
-- A method of the pool is one step, since it holds the mutex. A handler of a packet is one step too;
-- goroutines that sleep are timers that fire in any order; the expiry of an entry of any cache of a
-- network is a step, and so is a release through the API.
-- Numbers are natural numbers with the wrap-around of their width written out; `int` is a type of
-- integers of its own. A byte string is a list of numbers, and a nil slice is the empty list. A map
-- is an association list read through its laws, and where the program ranges over one the order is
-- an argument or the order of the list, which the theorems leave open. The clock and random numbers
-- are arguments.
--
-- Libraries are records of operations with the laws that the code relies on: krolaw/dhcp4, go-cache
-- (`CacheApi`: an entry that is set is read back, a new cache is empty), SQLite (`Sql`: a statement
-- changes the row that it names), go-ini (`Ini`, of which nothing is asked), the kernel's sockets,
-- the devices of the system, the ping and the increment of sharedutils, and `net.ParseIP` of IPv6
-- texts. Times to live are numbers of seconds. A run-time choice is fair if it is one that Go can
-- make.
--
-- Fuel: the folding loop of a checksum has three rounds, and they are enough for 32 bits. The passes
-- of a DISCOVER have fuel, and two are enough as long as no ping is answered. If all are answered no
-- number of passes is enough for a client without a lease that asks for no address, on a pool with
-- more than two free indices. The loop over a range of addresses has fuel, and as many rounds as the
-- range has addresses are enough.
--
-- Not modelled: the start of goroutines, the HTTP server and its router table, the watchdog, the
-- decoding of requests and the encoding of replies, which are calls of libraries; `ReadFrom` and
-- `WriteTo` of the connection wrapper, `NewRawClient` and `CloseDatabase`, which pass a call on;
-- logging; and the ARP table, which the code never asks since `Local` is false.
pub mod Prelude
pub mod Pool
pub mod Net
pub mod RawClient
pub mod Shuffle
pub mod Utils
pub mod Convert
pub mod Ini
pub mod Dictionary
pub mod Override
pub mod Dhcp
pub mod Handler
pub mod Discover
pub mod Request
pub mod Release
pub mod Relay
pub mod Serve
pub mod Server
pub mod Texts
pub mod Sockets
pub mod Static
pub mod Config
pub mod Percent
pub mod Api
pub mod Tests
