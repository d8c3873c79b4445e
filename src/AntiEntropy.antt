-- ===== src/AntiEntropy.antt =====
-- internal/node/antientropy.go: what two nodes exchange for the keys of a bucket in which their data
-- differs. The peer is its store, as Replicate of internal/rpc/server.go merges into it; the answer of
-- each call over the network is an input. No other write lands in between.
pub mod Keys
pub mod Examples
use distributed_kv_data_stor.Prelude.{
  ℕ, Str, str_eq, Bool, true, false, ◌&&◌, ◌||◌, Option, none, some, List, [], ◌∷◌, Result, ok, err,
  if◌then◌else◌,
}
use distributed_kv_data_stor.GoMap.{GoMap, insert, keys}
use distributed_kv_data_stor.VectorClock.{Relation, equal, before, after, concurrent}
use distributed_kv_data_stor.Model.{DataItem, order}
use distributed_kv_data_stor.HashRing.{HashRing, get_preference_list}
use distributed_kv_data_stor.Merkle.{bucket_keys}
use distributed_kv_data_stor.Persister.{Persister, StorageError, storage_failed, Found}
use distributed_kv_data_stor.DataStore.{DataStore, get, merge_replicated}

abbrev pub anti_entropy_num_buckets : ℕ
anti_entropy_num_buckets = 16

-- `c == vectorclock.After || c == vectorclock.Equal`
unfoldable pub is_covering : Relation → Bool
is_covering equal = true
is_covering after = true
is_covering before = false
is_covering concurrent = false

module _ {V : Type 0} where
  -- The inner loop of missingFrom.
  unfoldable pub is_covered : List (DataItem V) → DataItem V → Bool
  unfolding is_covering
  is_covered [] item = false
  is_covered (have ∷ set) item = is_covering (order have item) || is_covered set item

  unfoldable pub missing_from : List (DataItem V) → List (DataItem V) → List (DataItem V)
  unfolding is_covered
  missing_from set [] = []
  missing_from set (item ∷ incoming) =
      let rest = missing_from set incoming in if is_covered set item then rest else item ∷ rest

-- The loop of sharesReplicaSet, with self and peer so far.
unfoldable pub shares_loop : Str → Str → List Str → Bool → Bool → Bool
unfolding str_eq
shares_loop id peer [] has_self has_peer = has_self && has_peer
shares_loop id peer (node ∷ nodes) has_self has_peer =
    shares_loop id peer nodes (has_self || str_eq node id) (has_peer || str_eq node peer)

unfoldable pub shares_replica_set : Str → ℕ → HashRing → Str → Str → Bool
unfolding shares_loop get_preference_list
shares_replica_set id n ring key peer =
    shares_loop id peer (get_preference_list ring key n) false false

-- `allKeys[k] = true` for the keys of one side that both nodes replicate.
unfoldable pub add_shared : Str → ℕ → HashRing → Str → List Str → GoMap Bool → GoMap Bool
unfolding shares_replica_set insert
add_shared id n ring peer [] all = all
add_shared id n ring peer (k ∷ ks) all =
    add_shared id n ring peer ks
      (if shares_replica_set id n ring k peer then insert k true all else all)

unfoldable pub keys_to_reconcile : Str → ℕ → HashRing → Str → ℕ → List Str → List Str → List Str
unfolding add_shared bucket_keys keys
keys_to_reconcile id n ring peer bucket local_keys remote_keys = keys (
    add_shared id n ring peer remote_keys
      (add_shared id n ring peer (bucket_keys bucket anti_entropy_num_buckets local_keys) []))

-- What becomes of a push that is sent: it arrives, it is lost, or its answer is lost.
pub data Delivery : Type 0 where
  delivered lost unanswered : Delivery

pub data ReconcileError : Type 0 where
  local_failed : StorageError → ReconcileError
  fetch_failed : StorageError → ReconcileError
  no_answer : ReconcileError
  push_failed : ReconcileError

module _ {V : Type 0} (p q : Persister V) where
  -- The node's store, and its peer's.
  pub record Sides : Type 0 where
    pub local : DataStore p
    pub remote : DataStore q

  -- What the loop has done: its error, and the stores.
  pub record Reconciled : Type 0 where
    pub error : Option ReconcileError
    pub sides : Sides

module _ {V : Type 0} (p : Persister V) where
  -- The loop over toPull, and that of Replicate over the items it receives: the first error ends it.
  unfoldable pub merge_all :
      Str → List (DataItem V) → DataStore p → Option StorageError × DataStore p
  unfolding merge_replicated
  merge_all key [] ds = (none, ds)
  merge_all key (item ∷ items) ds =
      let (e, ds') = merge_replicated p key item ds in
      let rest = merge_all key items ds' in elim e [ some x ↦ (some x, ds') | none ↦ rest ]

module _ {V : Type 0} (p q : Persister V) where
  -- A push of versions: whether it succeeds, and the peer's store.
  unfoldable pub push : Delivery → Str → List (DataItem V) → DataStore q → Bool × DataStore q
  unfolding merge_all
  push lost key items remote = (false, remote)
  push unanswered key items remote = (false, (merge_all q key items remote).1)
  push delivered key items remote =
      let (e, remote') = merge_all q key items remote in
      elim e [ none ↦ (true, remote') | some _ ↦ (false, remote') ]

  -- The push of toPush, if it has any version.
  unfoldable pub push_missing : Delivery → Str → List (DataItem V) → Sides p q → Reconciled p q
  unfolding push
  push_missing fate key [] sides = record { error = none; sides = sides }
  push_missing fate key (item ∷ items) sides =
      let (sent, remote) = push fate key (item ∷ items) sides.remote in
      record {
        error = if sent then none else some push_failed;
        sides = record sides { remote = remote };
      }

  unfoldable pub exchange :
      Delivery → Str → List (DataItem V) → List (DataItem V) → Sides p q → Reconciled p q
  unfolding merge_all missing_from push_missing
  exchange fate key local_items remote_items sides =
      let (e, local) = merge_all p key (missing_from local_items remote_items) sides.local in
      let pulled : Sides p q = record sides { local = local } in
      elim e [
        | some x ↦ record { error = some (local_failed x); sides = pulled }
        | none ↦ push_missing fate key (missing_from remote_items local_items) pulled
      ]

  -- The body of the loop over the keys. `fetches` says whether the peer's versions arrive.
  unfoldable pub reconcile_key : Bool → Delivery → Str → Sides p q → Reconciled p q
  unfolding get exchange
  reconcile_key fetches fate key sides = elim (get p key sides.local) [
    | err x ↦ record { error = some (local_failed x); sides = sides }
    | ok here ↦ elim (get q key sides.remote) [
      | err x ↦ record { error = some (fetch_failed x); sides = sides }
      | ok there ↦
          if fetches
          then exchange fate key here.items there.items sides
          else record { error = some no_answer; sides = sides }
    ]
  ]

  -- The loop of reconcileBucket over the keys, each with the fate of its calls.
  unfoldable pub reconcile_keys : List (Str × (Bool × Delivery)) → Sides p q → Reconciled p q
  unfolding reconcile_key
  reconcile_keys [] sides = record { error = none; sides = sides }
  reconcile_keys ((key, (fetches, fate)) ∷ rest) sides =
      let r = reconcile_key fetches fate key sides in
      let later = reconcile_keys rest r.sides in elim r.error [ some x ↦ r | none ↦ later ]
