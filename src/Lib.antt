-- ===== src/Lib.antt =====
-- Pandion: throwaway multi-node cloud clusters.
--
-- The models follow the Go packages under internal/. A backend (internal/provider) is a record of
-- its methods over a state of its own; the orchestrator (internal/orchestrator) is a set of
-- functions over a backend, a clock and the journal (internal/state), a disk whose system calls
-- fail one by one. A teardown trusts the backend and not the journal; a creation is journaled
-- before it is made.
--
-- Files, and the code that they model:
--   Prelude, Prelude/*      shared names, lists, maps, sorting, decimals, texts, the `seen` loop
--   Errors                  errors as values; provider.IsTransientProvision
--   Provider                internal/provider/provider.go
--   State, State/*          internal/state/state.go: Store.Save, Load, Close
--   Orchestrator/Retry      createWithRetry, destroyWithRetry of internal/orchestrator/orchestrator.go
--   Orchestrator/Up         UpSpec, Up; Orchestrator/UpCluster is UpCluster
--   Orchestrator/Down       Down; Orchestrator/Reap is ReapPlan and Reap
--   Orchestrator/Status     Status
--   Orchestrator/Budget     EstimateSpend, CheckBudget, PlanUp
--   Mock, Mock/*            internal/provider/mock/mock.go
--   Select, Select/*        selecttype.go, selectplan.go, selectsize.go of the clouds under
--                           internal/provider
--   Client, Client/*        the clients of the clouds under internal/provider: Client/Loops is polling,
--                           the search and listing by pages, Client/Names the names and tags
--   Client/Waits, Plans,    what is proved of several of them: waits, plans of a search, prices and
--   Priced, Unreached       failed destroys
--   Client/Hetzner          internal/provider/hetzner/hetzner.go
--   Client/Digitalocean     internal/provider/digitalocean: digitalocean.go, gpu.go
--   Client/Linode           internal/provider/linode/linode.go
--   Client/Vultr            internal/provider/vultr/vultr.go
--   Client/Scaleway         internal/provider/scaleway/scaleway.go
--   Client/Lambda           internal/provider/lambda: lambda.go, gpu.go, firewall.go
--   Relay, Relay/Server     internal/relay/relay.go, internal/relay/server.go
--   Config, Config/*        internal/config/config.go: Effective, NodeCaps and what they call
--   Config/Nearest          internal/config/validate_locate.go: nearestKey and levenshtein
--   Firewall                internal/firewall/nftables.go; Firewall/Filter is nftables itself,
--                           Firewall/Rendered the ruleset as it is written
--   Overlay                 internal/overlay/overlay.go, internal/overlay/l2.go
--   Discovery               internal/discovery/discovery.go
--   Workspace               internal/workspace/workspace.go: ignore patterns and Archive;
--                           Workspace/Glob is Match of path/filepath
--   Lockfile                internal/lockfile/lockfile.go: ParseQuery, PinnedPackages
--   Examples, Examples/*    runs on concrete inputs, and each theorem at one
--
-- A state is a record that each operation takes and gives back, in the result's second part. A
-- method of Go that may fail gives a Result. Loops are recursions on the list or the number of
-- rounds that the code counts (three attempts of a creation or a destroy). Two loops of the
-- clients need fuel: a wait with a timeout has one round for each interval of it and two more,
-- after which its deadline has passed; a listing by pages, and a wait without a timeout, take the
-- number of rounds as an argument. A time is a number of nanoseconds, and Go's zero time is none.
-- A context is the time of its cancellation; where a pause ends at that time the cancellation is
-- seen first, while Go's select takes either. The age of a creation in the future is 0. Numbers are natural: the sizes, ports and counts of
-- the code are never negative where it works, and a zero stands for the values that it tests with
-- `<= 0`.
--
-- A client of a cloud is a set of calls over the state of the cloud and the clock (Client.Call).
-- The library that a client uses, or its HTTP transport, is a record of calls (Api), so that
-- nothing is said of the answers but where a theorem has a hypothesis. Orchestrator/Down/Contract
-- is what the orchestrator relies on in a backend: the mock fills it, and so does the Hetzner
-- client over a cloud that behaves as it is documented. Its `names` are the cluster ids that the
-- backend tells apart, and `gives` the ids that it gives to servers. Concurrent calls of a client
-- take turns.
--
-- Parameters: floating-point numbers with their operations (Float, and Ordered with the laws of a
-- comparison), the semaphore and the error group of UpCluster, the hash of the relay's tokens,
-- the meaning of a CIDR, base64 and SHA-256, and the parsing of prices and times. Lower-casing is
-- exact for the letters whose lower case is in ASCII, upper-casing is that of ASCII. JSON is written and read back as the value itself. UpCluster is a relation of
-- steps in which any goroutine may be next; every other operation runs alone.
--
-- Not modelled: the clouds' libraries, SSH, TLS, the command line, the files of secrets and
-- users, the texts of messages, YAML, JSON and the schema, the tar and gzip formats, the
-- generation of keys and tokens, and the renderer of cloud-init: they are input and output, or
-- calls of libraries.
pub mod Prelude
pub mod Errors
pub mod Provider
pub mod State
pub mod Orchestrator
pub mod Mock
pub mod Select
pub mod Relay
pub mod Config
pub mod Firewall
pub mod Discovery
pub mod Overlay
pub mod Client
pub mod Lockfile
pub mod Workspace
pub mod Examples
