-- ===== src/Lib.antt =====
-- Verification of the core logic of hopssh: a control plane and an agent for private mesh networks
-- over Nebula.
--
-- The agent (internal/client) holds a registry of enrollments, one per network, and runs a mesh
-- instance for each; it renews its certificate by heartbeat, caches on disk what the heartbeats
-- bring, and asks the router for a port. The control plane (internal/api over internal/db) issues
-- certificates and addresses (internal/pki) to devices that a user authorized (the device flow),
-- keeps the members of a network and their invites, and limits requests (internal/auth,
-- internal/authz).
--
-- How the files correspond to the code:
-- - Base: the names that all files share, lists and Boolean tests on the native numbers, texts as
--   byte lists (Base/Text), maps keyed by a string (Base/Dict), integers (Base/Int), and the loop
--   that removes repetitions and sorts (Base/StringSet).
-- - Registry: internal/client/enrollments.go. The state is the slice in memory with the two files,
--   and each method of enrollmentRegistry is a function that takes what the disk does to its save.
--   Registry/Name has validateEnrollmentName, caFingerprint and defaultEnrollmentName.
--   Registry/Unique, Rollback, Persist, Ports and Refine hold the proofs.
-- - Client: the other parts of internal/client. PeerState is peerstate.go (collectPeerState),
--   RelayState relay_state.go, SelfEndpoints self_endpoints.go, PeerCache peer_cache.go with
--   acceptPeerEndpoint of renew.go, Watchdog runWatcherWatchdog with watchdog_escalation.go,
--   Routes routes.go. Of renew.go, Heartbeat is the backoff of runHeartbeat, Renewal is
--   timeUntilRenewal, renewCert and the retries of runCertRenewal, and NebulaConfig the edits of
--   nebula.yaml: Ensure is ensureP2PConfig as lists of edits in the order of its statements, Merge
--   applyNebulaConfigUpdate with mergeNebulaConfig; meshIfaceName is of enroll.go.
-- - Auth: internal/auth/ratelimit.go (RateLimit) and internal/authz/authz.go (Access).
-- - Portmap: internal/portmap/natpmp.go (NatPmp) and pcp.go (Pcp), over the byte order and
--   addresses of Portmap/Wire; the network is a function from the number of an attempt to what it
--   meets. Manager is portmap.go with the handler of internal/client/instance.go (startPortmap): a
--   phase for each place where the goroutine `run` blocks, and the event that ends the wait.
-- - Db: internal/db/device_codes.go (DeviceCodes), network_invites.go (Invites), nodes.go with
--   status_sweeper.go (Nodes: Index for the addresses, Updates, Heartbeats, Sweep) and
--   resilience.go (Retry). A table is a list of rows and a statement is its SQL.
-- - Pki: internal/pki/subnet.go.
-- - Api: internal/api/device.go (Device with Device/Authorize) as compositions of the stores of
--   Db, Pki and Auth, sanitizeDNSName of internal/api/types.go with isValidDNSName of
--   internal/api/dns.go (DnsName), the statuses of nodes of types.go (Status), and of internal/api/renew.go what heartbeats report of endpoints and peers are
--   given (Endpoints). Device/Outcome says once what a poll does to the table of the codes;
--   Device/Keeps lifts what each query keeps to the requests.
--   Api/Events is the event hub of internal/api/events.go.
-- - Mesh: internal/mesh. Dns is dns.go with RefreshDNS of network_manager.go; Manager is the map of
--   lighthouses of network_manager.go, whose operations are split where they release the lock (a
--   stop takes the entry out of the map, and closes its instance later), with the idle reaper (Reap)
--   and the choice of a port of internal/db/networks.go (Ports).
-- - Tests: runs at concrete inputs, and each theorem used at one.
--
-- The calls of the mesh manager and of the event hub interleave: Mesh/Manager/System with
-- Lifecycle, and Api/Events/Calls, define the states that their locked parts reach in any order.
--
-- The parts interact by data: enrollments give the ports that the port-mapping clients map, the
-- relay and peer caches keep what heartbeats report, and the stores of Db are what a request
-- reaches once Auth lets it through. The device flow joins them: a code is authorized by a user
-- whom Auth lets enroll, claimed once, and turned into a row of the node store with an address of
-- Pki. The registry is a refinement of a map from names (Registry/Refine).
--
-- Bounds. The search for a port makes 65535 - base rounds, one for each port that it may try. The
-- attempts of NAT-PMP are nine, the retries of a renewal twelve, and the retries around the database
-- the twelve intervals of the source; these loops are structural recursion on them. Every other loop
-- is recursion on its list, but the collapse of hyphens in a DNS name, whose fuel is the length of
-- the name: each round with work to do makes it shorter. Durations are natural numbers in the unit
-- that the file names.
--
-- Not modelled: the other HTTP handlers, Nebula and the goroutines around it, sockets and timers,
-- the JSON and YAML codecs (a file is its decoded document, or the reason why it has none), the
-- SQL driver (an outcome of each statement), cryptography, and the platform code. SHA-256, netip
-- parsing, net.ParseIP, strings.TrimSpace, strings.ToLower, strings.ToUpper, random numbers and the
-- probe of a UDP port are arguments. A mutex makes each part of an operation that holds it one step.
pub mod Base
pub mod Registry
pub mod Client
pub mod Auth
pub mod Portmap
pub mod Db
pub mod Pki
pub mod Mesh
pub mod Api
pub mod Tests
