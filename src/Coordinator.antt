-- ===== src/Coordinator.antt =====
-- internal/node/coordinate.go: a node coordinates writes and reads on the replicas of a key. What
-- the replicas answer, in the order in which their answers arrive, is an input; the client may give
-- up between two answers.
pub mod Quorum
pub mod Gather
pub mod Write
pub mod Read
pub mod Overlap
pub mod Freshness
pub mod Acks
pub mod Forward
pub mod Examples
use distributed_kv_data_stor.Prelude.{
  ℕ, zero, suc, ◌+◌, ◌-◌, Str, str_eq, Bool, true, false, Option, none, some, List, [], ◌∷◌, ◌++◌,
  Result, ok, err, ltb, leb, if◌then◌else◌, length,
}
use distributed_kv_data_stor.VectorClock.{Snapshot}
use distributed_kv_data_stor.Model.{DataItem}
use distributed_kv_data_stor.Versioning.{merge_siblings}
use distributed_kv_data_stor.HashRing.{HashRing, get_preference_list}
use distributed_kv_data_stor.Persister.{Persister, StorageError, Found}
use distributed_kv_data_stor.DataStore.{DataStore, get, put, restore_versions}

-- internal/node/config.go: the replication factor and the two quorums.
pub record QuorumConfig : Type 0 where
  pub n : ℕ
  pub w : ℕ
  pub r : ℕ

-- A gRPC status code, as far as this code looks at one.
pub data Code : Type 0 where
  unavailable failed_precondition other_code : Code

-- What isReplicaFor returns.
pub record Placement : Type 0 where
  pub is_replica : Bool
  pub peers : List Str

unfoldable pub split_self : Str → List Str → Placement → Placement
split_self self [] found = found
split_self self (node_id ∷ rest) found = split_self self rest (
    if str_eq node_id self
    then record found { is_replica = true }
    else record found { peers = found.peers ++ node_id ∷ [] })

unfoldable pub is_replica_for : Str → QuorumConfig → HashRing → Str → Placement
unfolding split_self
is_replica_for self config ring key =
    split_self self (get_preference_list ring key config.n)
      (record { is_replica = false; peers = [] })

-- replicateResult: `none` is a nil error.
pub record ReplicateResult : Type 0 where
  pub peer_id : Str
  pub error : Option Code

-- The body of the goroutine of one replica: `rpc` is what the replica would answer.
unfoldable pub replica_result : (Str → Bool) → (Str → Option Code) → Str → ReplicateResult
replica_result is_dead rpc peer_id =
    if is_dead peer_id
    then record { peer_id = peer_id; error = some unavailable }
    else record { peer_id = peer_id; error = rpc peer_id }

-- The branch that a `select` of the loop takes.
pub data Select {ℓ} (A : Type ℓ) : Type ℓ where
  arrives : A → Select A
  gives_up : Select A

-- `waiting`: no answer has arrived, and the client has not given up.
pub data Decision : Type 0 where
  acked missed canceled waiting : Decision

-- The variables of the loop of putAsReplica.
pub record Progress : Type 0 where
  pub successes : ℕ
  pub failures : ℕ
  pub received : ℕ
  pub unavailable_peers : List Str

is_unavailable : Option Code → Bool
is_unavailable (some unavailable) = true
is_unavailable _ = false

unfoldable pub note_unavailable : ReplicateResult → List Str → List Str
unfolding is_unavailable
note_unavailable res peers = if is_unavailable res.error then peers ++ res.peer_id ∷ [] else peers

unfoldable pub receive : ReplicateResult → Progress → Progress
unfolding note_unavailable
receive res p = elim res.error [
  | none ↦ record p { received = p.received + 1; successes = p.successes + 1 }
  | some _ ↦ record p {
    received = p.received + 1;
    failures = p.failures + 1;
    unavailable_peers = note_unavailable res p.unavailable_peers;
  }
]

-- `for i := 0; i < len(peers); i++`, with the rounds left. There are fewer failures than nodes in
-- all, so `totalNodes-failures` is not negative.
unfoldable pub collect_acks :
    ℕ → ℕ → ℕ → List (Select ReplicateResult) → Progress → Decision × Progress
unfolding receive
collect_acks needed total zero selects p = (missed, p)
collect_acks needed total (suc left) [] p = (waiting, p)
collect_acks needed total (suc left) (gives_up ∷ selects) p = (canceled, p)
collect_acks needed total (suc left) (arrives res ∷ selects) p =
    let p' = receive res p in
    let rest = collect_acks needed total left selects p' in
    if leb needed p'.successes
    then (acked, p')
    else if ltb (total - p'.failures) needed
    then (missed, p')
    else rest

-- The decision of a write from its quorum and the replicas' answers: the loop is not entered when
-- the local write is enough.
unfoldable pub decide_write :
    QuorumConfig → List Str → List (Select ReplicateResult) → Decision × Progress
unfolding collect_acks
decide_write config peers selects =
    let start : Progress = record {
      successes = 1;
      failures = 0;
      received = 0;
      unavailable_peers = [];
    } in
    if leb config.w 1
    then (acked, start)
    else collect_acks config.w (length peers + 1) (length peers) selects start

-- drainReplication: the results that were not received yet, and the peers to store hints for.
-- `closing` is drainClosing.
unfoldable pub drain_results : List ReplicateResult → List Str → List Str
unfolding note_unavailable
drain_results [] peers = peers
drain_results (res ∷ rest) peers = drain_results rest (note_unavailable res peers)

unfoldable pub drain_replication : Bool → Bool → List ReplicateResult → List Str → List Str
unfolding drain_results
drain_replication closing keep remaining peers =
    if closing then [] else if keep then drain_results remaining peers else []

-- The errors of putAsReplica and CoordinatePut; a missed quorum may come with a failed rollback.
pub data PutError : Type 0 where
  local_read_failed : StorageError → PutError
  local_write_failed : PutError
  quorum_not_reached : Option StorageError → PutError
  put_canceled : PutError
  not_replica : PutError
  no_answer_yet : PutError

module _ {V : Type 0} (p : Persister V) where
  -- `hinted` lists the peers that the drain stores a hint for, and `failed` is what the call adds
  -- to writeQuorumFailures.
  pub record PutOutcome : Type 0 where
    pub error : Option PutError
    pub store : DataStore p
    pub hinted : List Str
    pub failed : ℕ

  -- What follows the decision. `remaining` are the results that arrive after it.
  unfoldable pub finish_put :
      Bool
      → Str
      → List (DataItem V)
      → List ReplicateResult
      → DataStore p
      → Decision
      → Progress
      → PutOutcome
  unfolding drain_replication
  finish_put closing key prev remaining ds acked progress = record {
    error = none;
    store = ds;
    hinted = drain_replication closing true remaining progress.unavailable_peers;
    failed = 0;
  }
  finish_put closing key prev remaining ds missed progress =
      let (e, ds') = restore_versions p key prev ds in
      record {
        error = some (quorum_not_reached e);
        store = ds';
        hinted = drain_replication closing false remaining progress.unavailable_peers;
        failed = 1;
      }
  finish_put closing key prev remaining ds canceled progress = record {
    error = some put_canceled;
    store = ds;
    hinted = drain_replication closing true remaining progress.unavailable_peers;
    failed = 0;
  }
  finish_put closing key prev remaining ds waiting progress = record {
    error = some no_answer_yet;
    store = ds;
    hinted = [];
    failed = 0;
  }

  -- putAsReplica. `selects` is what its loop meets, `remaining` what the drain receives after it. Its
  -- read, its write and its rollback are three calls of the store, each with the lock of the key;
  -- here no other write to the key lands between them (docs/known-limitations.md).
  unfoldable pub put_as_replica :
      QuorumConfig
      → Bool
      → ℕ
      → Str
      → V
      → Option Snapshot
      → List Str
      → List (Select ReplicateResult)
      → List ReplicateResult
      → DataStore p
      → PutOutcome
  unfolding decide_write finish_put
  put_as_replica config closing addr key value context peers selects remaining ds =
      elim (get p key ds) [
        | err e ↦ record { error = some (local_read_failed e); store = ds; hinted = []; failed = 0 }
        | ok prev ↦
            let (item, ds') = put p addr key value context ds in
            elim item [
              | none ↦ record {
                error = some local_write_failed;
                store = ds';
                hinted = [];
                failed = 0;
              }
              | some _ ↦
                  let (decision, progress) = decide_write config peers selects in
                  finish_put closing key prev.items remaining ds' decision progress
            ]
      ]

  -- CoordinatePut
  unfoldable pub coordinate_put :
      Str
      → QuorumConfig
      → HashRing
      → Bool
      → ℕ
      → Str
      → V
      → Option Snapshot
      → List (Select ReplicateResult)
      → List ReplicateResult
      → DataStore p
      → PutOutcome
  unfolding is_replica_for put_as_replica
  coordinate_put self config ring closing addr key value context selects remaining ds =
      let placed = is_replica_for self config ring key in
      if placed.is_replica
      then put_as_replica config closing addr key value context placed.peers selects remaining ds
      else record { error = some not_replica; store = ds; hinted = []; failed = 0 }
