-- ===== src/Lib.antt =====
-- let-mil-go: the core of a distributed key-value store with transactions, modelled and verified.
--
-- The program. A shard (internal/shard/component) keeps the versions of its keys in a multi-version
-- store, the pending writes of each transaction in a buffer, the locks of the transactions in a lock
-- manager, their states in a status table (internal/model), and stamps what it does with a hybrid
-- logical clock (internal/hlc). A transaction reads and writes through its buffer and commits in two
-- phases: `Prepare` takes the write locks, validates the write and read sets as its isolation level
-- asks, and votes; `Commit` makes the writes versions of the commit time and releases the locks. A
-- server (internal/shard/server.go) answers for the shard and turns its errors into statuses. The
-- config server (internal/csrs) keeps the registry of the shards, a consistent-hash ring that says
-- which shard has a key, and the version of this topology. The router (internal/mulberry) opens the
-- transactions of the clients, sends each read and write to the shard that the ring names, over a
-- pool of connections, and runs the two-phase commit over all shards that a transaction has touched;
-- it takes its topology over from the config server (cmd/mulberry). The client (internal/client,
-- cmd/client) calls the router. For an analysis of serializability, internal/model keeps templates of
-- transactions and the graph of their conflicts.
--
-- The files.
--   Common, GoMap    names of the libraries, slices, decimals, Boolean tests and Go's built-in map
--   Hlc              internal/hlc/hlc.go: a timestamp is 48 bits of time and 16 of a counter
--   Errors           the sentinel errors, and the result of a call that may fail
--   Rpc              what a remote call returns: a response, or a status with its code
--   Mvcc             internal/shard/component/store.go: Mvcc/Search is findVersionIndex
--   Locks            internal/shard/component/lock.go
--   Buffer           internal/shard/component/buffer.go
--   OpLog            internal/shard/component/oplog.go, an interface that the shard takes as an instance
--   TxStatus         internal/model/transaction.go
--   Shard            internal/shard/component/shard.go: Shard/State is the state, Shard has the reads
--                    and writes, Shard/Loops the loops of the commit, Shard/TwoPhase its two phases;
--                    Shard/Server is internal/shard/server.go
--   Csrs             internal/csrs/topology_manager.go, with Csrs/Registry for shard_info.go, Csrs/Ring
--                    for hash_ring.go (Csrs/Ring/Replicas is GetNShards) and Csrs/Server for server.go
--   Mulberry         internal/mulberry: Mulberry/Network is the interface to the shard servers,
--                    Mulberry/Connections connection_manager.go, Mulberry/State the types and
--                    Mulberry/Router the calls of mulberry.go, Mulberry/TwoPhase its Commit and Abort,
--                    Mulberry/Server server.go; Mulberry/Sync is doSync of cmd/mulberry/main.go,
--                    with the flag -shards, and Mulberry/Sync/Rounds its syncTopology;
--                    Mulberry/Cluster is a network that is made of the shards of Shard/Server,
--                    Mulberry/Journal one that records what is sent over another
--   Client           internal/client/client.go and the session of cmd/client/main.go, with
--                    Client/OneShot for its one-shot commands
--   Protocol         internal/model/isolation.go and protocol.go
--   Template         internal/model/template.go
--   Dependency       internal/model/dependency.go: the conflicts between templates, as a graph;
--                    Dependency/Search is its HasCycle and FindCycles
--   Examples         concrete runs
-- The other modules below a component have its proofs and are named for what they prove.
--
-- How code became definitions. A method is a function from the state before to its results and the
-- state after; a mutex makes each method one step, and an interleaving is a list of calls
-- (Shard/Valid/Runs, Mulberry/Connections/Pool) or a step relation (Locks/Exclusion). An object that
-- is changed through a pointer into a map is put back under its key. A pointer that may be nil is an
-- `Option`; a run-time panic is a value (`panic`, `crash`, `panicked`, `panics`), where the code could
-- reach one. Numbers of 64, 16 and 32 bits keep their wrap-around where the source computes with them.
-- What the clock's time source returns is an argument, `now`. The order of a `range` over a map is the
-- order in which the keys came in; no theorem but those on the lists themselves depends on it. A call
-- of the router is a chain of actions (`do` blocks) on the router and the world that its network acts
-- on, each with a result or an error; the calls of one router run one after another, and what others
-- do meanwhile is in the network's answers. The router's clock is its topology's: both are the
-- process-wide one.
--
-- Loops. Most are structural recursions over slices; the binary search of the store recurses on the
-- accessibility of its shrinking interval. `GetNShards` walks round the ring, takes fuel, and says so
-- when it runs out: one more than the length of the ring is enough where every shard has a place on it.
-- The searches of the dependency graph take one unit of fuel for each nested call; as many as the graph
-- has templates and targets of edges are enough. A decimal of a timestamp is made with 20 rounds, as
-- many digits as 2^64 has.
--
-- Parameters. The operation log is any implementation of its interface. The network of the router and
-- the service of the client, which are generated gRPC clients, are any functions that answer and
-- change a world. The hash of the ring, the first four bytes of SHA-256, is any function. The standard
-- library's sort.Slice and sort.Search are given by their documented results; strings.Fields and
-- strings.SplitN have been applied to the lines and flags that the definitions take.
--
-- Not modelled: of internal/client NewClient, Close and the registration of the resolver, which are
-- calls of gRPC; of cmd the main functions (flags, listeners, signals) and registerWithCSRS, which are
-- glue round calls that are modelled; the wrapping of errors in further text; the singleton of the
-- clock; the interleaving of calls inside one router.
pub mod Common
pub mod GoMap
pub mod Hlc
pub mod Errors
pub mod Rpc
pub mod Mvcc
pub mod Locks
pub mod Buffer
pub mod TxStatus
pub mod OpLog
pub mod Shard
pub mod Csrs
pub mod Mulberry
pub mod Client
pub mod Protocol
pub mod Template
pub mod Dependency
pub mod Examples
