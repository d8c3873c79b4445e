-- ===== src/Lib.antt =====
-- A replicated key-value store in the manner of Dynamo, in Go: every key lives on N nodes that a
-- consistent hash ring names, a write needs W acknowledgements and a read R answers, and versions
-- that are concurrent by their vector clocks are kept side by side as siblings. This library models
-- the store's core and states what makes it correct.
--
-- The parts, with the code that each one models (paths from the repository's root):
--   VectorClock   internal/vectorclock/vectorclock.go. A clock is a map of uint32 counters; Compare,
--                 Increment, BuildFromContext and the rest. Order and Laws are about the order.
--   Model         internal/model/model.go: one version of a key.
--   Versioning    internal/versioning/resolve.go: Resolve, MergeSiblings, UnionVectorClock.
--   HashRing      internal/hashring/hashring.go: building the ring and GetPreferenceList, with
--                 FNV-1a (HashRing.Fnv) and the decimal digits of a counter written out.
--   Persister     internal/store/persister.go: the storage as an interface. Contract states what the
--                 comments of that file promise of the versions that a read returns, not their
--                 order, Keys or durability; InMemory is a storage that keeps it.
--   DataStore     internal/store/datastore.go: the versioned store of a node, over a Persister.
--   Coordinator   internal/node/coordinate.go: CoordinatePut, putAsReplica, drainReplication, Get
--                 and forwardPut. Gather has the read and the forwarding, Quorum counts the
--                 answers of a write, Write is the whole call, Read, Overlap and Freshness are about
--                 reads, and Acks joins a write on one node and a read on another.
--   Membership    internal/node/view.go, setMembership of internal/node/membership.go, and the peer
--                 health of internal/node/heartbeat.go and peers.go.
--   Merkle        internal/merkle/merkle.go: the hash tree of a store and the walk over two trees.
--   AntiEntropy   internal/node/antientropy.go: which keys two nodes reconcile, and what they exchange
--                 for one, with the merge of Replicate of internal/rpc/server.go. Each call's fate is
--                 an input; the loops over buckets, peers and rounds are not there.
--   Hints         internal/hints/hints.go: the store of the writes that wait for a replica, over a
--                 Persister that stands for its engine. Delivered is about MarkDelivered.
--   MemTable      internal/storage/memtable/memtable.go: the table of the latest writes. Laws and
--                 Covers say what it holds, and Trees is a tree that keeps the laws.
--   Engine        internal/storage/engine/engine.go and write.go: the storage engine. Writes has the
--                 commit path and the end of a flush, Batches the committer's queue, Compacting a
--                 compaction; Contract shows that it is a Persister as Persister.Contract asks.
--   Compaction    internal/storage/compaction/compaction.go: which SSTables are merged, and
--                 what the merge holds; reading a table is a parameter.
--   Render        operator/internal/render/render.go: the names and addresses of the pods of a
--                 cluster, and the ordinal of a name, with the digits of strconv written out.
--   Planner       operator/internal/planner/planner.go: the operator's next step for a cluster.
--                 Checks has bootstrap and readViews, Steps the steps of a membership change, Place
--                 classify and Plan; Justified states when an action may be taken, and Views,
--                 Justify, Decide and Safe show that Plan takes no other; Settled and Progress are
--                 about the next step that it takes.
--   GoMap, Prelude  Go's maps and strings, lists, tests and results, which all the parts share.
--
-- The parts use one another as the packages do: a Coordinator asks the HashRing of its node's view
-- for the replicas of a key, writes to its DataStore, whose Persister resolves siblings by
-- Versioning, and merges the answers of a read by MergeSiblings; Membership builds the ring.
--
-- What stands for what. A method that holds its lock for its whole body is one step on the state it
-- guards, so a store, a ring or a node's view is a value that an operation takes and returns. A
-- loop over a channel takes the list of what its `select` meets, so an order of answers is an
-- explicit list and a theorem for all lists is one for all orders. putAsReplica calls its store three
-- times, for a read, a write and a rollback; no other write to the key lands between them here,
-- though one may in the code (docs/known-limitations.md). An error is a value of a type of
-- its own, and Go's `(value, error)` is a Result. Lists are in the order of the slices; a map is an
-- association list, and no theorem depends on its order.
--
-- Bounds. Counters of clocks are uint32 and wrap at 2^32, as are the positions of the ring. Other
-- loops are recursions on a list or on the rounds that are left. In the operator, counts of pods
-- are numbers without a bound: an object of Kubernetes has no room for 2^31 members. Five functions take fuel: `batches` takes a round for each request, `itoa`
-- has one step for each digit and takes n + 1, `tier_loop` divides its size each round and takes
-- the size, `select_from` takes a table each round and takes their number, and the walk over two hash trees takes the number of
-- buckets, which is more than the depth; its theorem shows that no leaf is missed.
--
-- Parameters: the persister, and of the engine that implements it the sorted tree
-- (github.com/google/btree), its log and its tables, and the equality of pointers to items; further what the replicas and the connections answer, crypto/sha256 with the
-- text it hashes (the fingerprint of a membership, the hash of a bucket), and the canonical string
-- of an item, which encoding/json writes. Item values are of any type.
--
-- Not modelled: opening and closing the storage engine, the files of its log and tables, the delivery loop of hints, handoff,
-- the ping exchange and the files that hold the membership, RPC, configuration, the
-- chaos tools, and of the operator the reconcilers and the Kubernetes objects. Timeouts and contexts appear only as what may end a wait.
pub mod AntiEntropy
pub mod Hints
pub mod MemTable
pub mod Engine
pub mod Render
pub mod Planner
pub mod Compaction
pub mod Merkle
pub mod Membership
pub mod Coordinator
pub mod DataStore
pub mod Persister
pub mod Prelude
pub mod GoMap
pub mod VectorClock
pub mod Model
pub mod Versioning
pub mod HashRing
