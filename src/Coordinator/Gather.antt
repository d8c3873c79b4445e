-- ===== src/Coordinator/Gather.antt =====
-- Get and forwardPut of internal/node/coordinate.go: the read quorum, and the walk over the
-- replicas that a node hands a write to.
use distributed_kv_data_stor.Prelude.{
  ℕ, zero, suc, ◌+◌, ◌-◌, Str, Bool, true, false, Option, none, some, List, [], ◌∷◌, ◌++◌, ok, err,
  ltb, leb, if◌then◌else◌, length,
}
use distributed_kv_data_stor.Model.{DataItem}
use distributed_kv_data_stor.Versioning.{merge_siblings}
use distributed_kv_data_stor.HashRing.{HashRing}
use distributed_kv_data_stor.Persister.{Persister}
use distributed_kv_data_stor.DataStore.{DataStore, get}
use distributed_kv_data_stor.Coordinator.{
  QuorumConfig, Code, unavailable, failed_precondition, other_code, Select, arrives, gives_up,
  is_replica_for,
}

-- fetchResult: `none` stands for an error; a key that was not found has no items.
pub record FetchResult (V : Type 0) : Type 0 where
  pub peer_id : Str
  pub answer : Option (List (DataItem V))

-- What Get returns, and `read_waiting` while no answer arrives.
pub data ReadOutcome (V : Type 0) : Type 0 where
  read_ok : List (DataItem V) → ReadOutcome V
  read_missed read_canceled read_waiting : ReadOutcome V

-- The variables of the loop of Get.
pub record ReadProgress (V : Type 0) : Type 0 where
  pub merged : List (DataItem V)
  pub responses : ℕ
  pub failures : ℕ

module _ {V : Type 0} where
  -- A peer that is marked dead is a failed vote, without an RPC.
  unfoldable pub fetch_result :
      (Str → Bool) → (Str → Option (List (DataItem V))) → Str → FetchResult V
  fetch_result is_dead rpc peer_id =
      if is_dead peer_id
      then record { peer_id = peer_id; answer = none }
      else record { peer_id = peer_id; answer = rpc peer_id }

  unfoldable pub take_in : FetchResult V → ReadProgress V → ReadProgress V
  unfolding merge_siblings
  take_in res p = elim res.answer [
    | none ↦ record p { failures = p.failures + 1 }
    | some items ↦ record p { responses = p.responses + 1; merged = merge_siblings p.merged items }
  ]

  -- The loop of Get, with the rounds left. There are never more failures than nodes.
  unfoldable pub collect_reads :
      ℕ → ℕ → ℕ → List (Select (FetchResult V)) → ReadProgress V → ReadOutcome V
  unfolding take_in
  collect_reads needed total zero selects p = read_missed
  collect_reads needed total (suc left) [] p = read_waiting
  collect_reads needed total (suc left) (gives_up ∷ selects) p = read_canceled
  collect_reads needed total (suc left) (arrives res ∷ selects) p =
      let p' = take_in res p in
      let rest = collect_reads needed total left selects p' in
      if leb needed p'.responses
      then read_ok p'.merged
      else if ltb (total - p'.failures) needed
      then read_missed
      else rest

  -- The local read of a replica is a response, or a failed one.
  unfoldable pub local_read : (p : Persister V) → Bool → Str → DataStore p → ReadProgress V
  local_read p false key ds = record { merged = []; responses = 0; failures = 0 }
  local_read p true key ds = elim (get p key ds) [
    | err _ ↦ record { merged = []; responses = 0; failures = 1 }
    | ok f ↦ record { merged = f.items; responses = 1; failures = 0 }
  ]

  -- Get of a key.
  unfoldable pub coordinate_get :
      (p : Persister V)
      → Str
      → QuorumConfig
      → HashRing
      → Str
      → List (Select (FetchResult V))
      → DataStore p
      → ReadOutcome V
  unfolding is_replica_for local_read collect_reads
  coordinate_get p self config ring key selects ds =
      let placed = is_replica_for self config ring key in
      let total = if placed.is_replica then length placed.peers + 1 else length placed.peers in
      let start = local_read p placed.is_replica key ds in
      if leb config.r start.responses
      then read_ok start.merged
      else collect_reads config.r total (length placed.peers) selects start

-- What one replica does with a forwarded write: no connection to it, or its answer to CoordinatePut.
pub data Attempt : Type 0 where
  no_client : Attempt
  accepted : Attempt
  refused : Code → Attempt

pub data ForwardError : Type 0 where
  -- the error of the replica that was asked last
  not_forwarded : Code → ForwardError
  -- codes.Unavailable: no replica accepted the write
  no_replica : ForwardError

-- `asked` lists the replicas that were sent the write, in order.
pub record Forwarded : Type 0 where
  pub error : Option ForwardError
  pub asked : List Str

-- The loop of forwardPut.
unfoldable pub forward_put : (Str → Bool) → (Str → Attempt) → List Str → List Str → Forwarded
forward_put is_dead attempt [] asked = record { error = some no_replica; asked = asked }
forward_put is_dead attempt (replica_id ∷ replicas) asked =
    let skipped = forward_put is_dead attempt replicas asked in
    let more = asked ++ replica_id ∷ [] in
    let onward = forward_put is_dead attempt replicas more in
    if is_dead replica_id then skipped else elim (attempt replica_id) [
      | no_client ↦ skipped
      | accepted ↦ record { error = none; asked = more }
      | refused unavailable ↦ onward
      | refused failed_precondition ↦ onward
      | refused other_code ↦ record { error = some (not_forwarded other_code); asked = more }
    ]
