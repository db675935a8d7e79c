-- ===== src/Lib.antt =====
-- A model of the agent of cmd/agent and internal/driver, which runs virtual machines and
-- containers on a host for a master.
--
-- The program's parts. The master sends requests (internal/protocol/protocol.go) to the HTTP
-- handlers of cmd/agent/main.go, recovery.go and resize.go. A handler takes the lease of its
-- instance (operations.go), decides by the instances in memory and by the ownership files
-- (ownership.go), and calls one of the drivers of internal/driver behind one interface. The
-- drivers reserve addresses on the NAT bridges (nat_allocation.go), account for traffic
-- (traffic.go), write the rules of iptables (firewall.go, firewall_atomic.go, nat.go), route
-- addresses of their own to instances (dedicated.go, dedicated_state.go), and keep snapshots and
-- backups (snapshot.go, replacement.go). A round of traffic_enforce.go cuts instances off whose
-- quota is used up, under the same leases as the requests.
--
-- The files. Common: numbers, texts, lists, maps and results. Protocol: protocol.go. Operations:
-- operations.go, with the interleavings of requests in Operations/Sharing. Driver: the interface
-- and the registry of driver.go. Server: the state agentServer of main.go and the shape of a
-- handler, a program over the state that ends with a response; its children hold the handlers, in
-- files named for what they do, with Server/Routes for the routing and Server/Ownership for
-- ownership.go. A pointer that a request shares with the state is followed where it is written
-- through (Server/Images). Server/Quiet and Server/Outcome hold what is proved of the handlers.
-- Traffic: traffic.go and the marks of qemu.go and incus.go. Server/Enforce: traffic_enforce.go.
-- Shell: the commands of a host. Firewall: firewall.go, firewall_atomic.go and, in
-- Firewall/Observed, firewall_observed.go, with the script in Firewall/Script; Firewall/Promise
-- says apart from the code what rules and policies ask for. NatRules: nat.go. Backend: what both
-- backends share, with the disk images of recovery_archive.go and managed_paths.go in
-- Backend/Disks, snapshot.go in Backend/Snapshots and replacement.go in Backend/Replacement;
-- Backend/Journal notes what a method does to the host. Dedicated: dedicated.go and the files
-- beside it, with the records in Dedicated/Records, and laws of the directory that they stand in,
-- which Dedicated/Memory fulfils; Dedicated/Triples has the rules by which attempts compose, and
-- Dedicated/Log notes what is asked of the host and changed. Allocation: nat_allocation.go.
-- Network: the default range of network.go. Resize: the checks of internal/driver/resize.go, with
-- the sizes of Incus in Resize/Sizes, the edits of a text in Resize/Edits and the resize of qemu
-- in Resize/Domain. Tests: the theorems at concrete inputs. A function keeps its name, in small
-- letters with underscores; a goroutine that outlives its request is a record left in the state,
-- with the lease that it retains.
--
-- The host outside the agent's memory is a type W: a driver's method and a call of the operating
-- system are functions from W, with any result, so that each error path is taken into account. A
-- driver may change the instance that it is given. The package net of the standard library is a
-- parameter of Allocation, with two laws of its reading and printing of addresses, and of
-- Firewall.
--
-- Bounds. Byte counts are 64 bits wide, and the theorems on them say below which total nothing
-- wraps. Addresses are below 2^32. The bounds of loops are one more than the number for its
-- digits, and for the slots of an allocation the loop's own 140. The drawing of a staging id has
-- fuel, which is enough if one of so many draws is usable. Errors are kept as texts, without what
-- the source formats into them.
--
-- The files of owners and of traffic are what reading their JSON gives: an empty slice with
-- omitempty comes back as nil.
--
-- Not modelled: the decoding of JSON and of forms, whose outcome is part of a request; the bytes
-- of the console's socket; logging; registration with the master and the start of the process; the
-- bodies of most of the drivers' methods, which run external commands and read their output; the
-- configuration of a network inside of a guest; the resize of Incus; the import of a backup and
-- the reading of archives; the timer of the quotas; floating-point percentages. Package functions
-- of Go that the code calls on paths, JSON, XML and addresses are parameters.
pub mod Common
pub mod Protocol
pub mod Operations
pub mod Dedicated
pub mod Driver
pub mod Resize
pub mod Traffic
pub mod Allocation
pub mod Network
pub mod Shell
pub mod Firewall
pub mod NatRules
pub mod Server
pub mod Tests
pub mod Backend
