-- ===== src/Lib.antt =====
-- A model of the DHCP and DNS server: the DHCPv4 and DHCPv6 wire formats, the DHCPv6 relay layers,
-- the search of identity associations, the allocation of leases and delegated prefixes,
-- their sweeps and clean-up, and the DNS server.
--
-- A datagram comes in as a list of bytes. internal/dhcp/packet.go and internal/dhcpv6/packet.go
-- turn it into a record and a reply record back into bytes; internal/dhcpv6/server.go peels the
-- layers of relay agents before, and puts them back after, the handlers choose a reply. The DHCPv4
-- handlers ask internal/store/store.go for a lease; internal/dns/server.go answers queries about the
-- leases that the store holds.
--
-- Base               the shared tests, lists, outcomes and wire integers
-- Net                addresses as lists of bytes, with the operations of Go's package net
-- Dhcp4.Options      internal/dhcp/packet.go, the option map and its encoding
-- Dhcp4.Values       internal/dhcp/options.go, typed option values and classless routes
-- Dhcp4.Packet       internal/dhcp/packet.go, the packet and its encoding
-- Dhcp6.Packet       internal/dhcpv6/packet.go, messages, relay messages and their options
-- Dhcp6.Ia           internal/dhcpv6/packet.go and server.go, the IA options, builders and searches
-- Dhcp6.Relay        internal/dhcpv6/server.go, handleRelayForward and sendReply
-- Store.Table        internal/store/store.go, the statements on the table of leases
-- Store.Pool         internal/store/store.go, allocateIPv4Tx
-- Store.Allocate     internal/store/store.go, AllocateV4Lease
-- Store.Uint128      internal/store/store.go, bigInt128 and prefixCandidate
-- Store.V6           internal/store/store.go, AllocateV6Lease and allocateIPv6Tx
-- Store.V6.Prefix    internal/store/store.go, AllocateV6Prefix and allocatePrefixTx
-- Store.Lifecycle    internal/store/store.go, the updates of states, the sweeps and the clean-up
-- Store.Steps        sequences of statements on the table of leases
-- Store.Holders      the table of leases as a map from addresses to the clients that hold them
-- Store.Hosts        internal/store/store.go, LookupHostname
-- Store.Promise      the promises of AllocateV4Lease to the clients of a scope
-- Dhcp4.Server       internal/dhcp/server.go, matchScope, processDiscover, handleRequest, handleRelease,
--                    handleDecline, the buffer of Discovers, applyOptions, sendNAK, the
--                    destination of a reply and the dispatch of handlePacket
-- Dns                internal/dns/server.go, names, queries and responses on the wire
-- Dns.Handler        internal/dns/server.go, handleQuery and the reverse names
-- Tests              runs at concrete inputs
--
-- A byte is a natural number; the theorems that need it below 256 say so. A handler's outcome is a
-- value, an error, a run-time panic or stuck, which means that the fuel of a loop ran out; the
-- loops run on the length of their input, and theorems show that this is enough, except where the
-- loop of the source does not end. Go visits a map in no fixed order: the option map is an
-- association list, and the theorems hold for each order. A 16-bit sum keeps its wrap-around. A
-- slice of Go can read behind its length up to its capacity: extract_requested_ip takes those bytes
-- as an argument. The fuel of the search of the pool is an argument; a theorem says how much is
-- enough. A transaction of the store is one step on the lists of rows, since an advisory lock
-- serialises the transactions of a scope, and an error rolls it back; instants are microseconds of
-- the database's clock, and text that is only compared is a number. The uniqueness constraints of
-- the tables, which the migrations declare, are hypotheses. Of the store, the listings, the logs and
-- the users are not modelled. The option values take net.ParseIP, strconv, fmt
-- and encoding/json as arguments. The DNS server takes strings.ToLower,
-- strconv.Atoi and the store's look-ups as arguments. The package net is not part of the
-- repository: Net defines the few operations that are used, as documented. Sockets, logging and
-- metrics are not modelled.
pub mod Base
pub mod Net
pub mod Dhcp6
pub mod Dhcp4
pub mod Store
pub mod Dns
pub mod Tests
