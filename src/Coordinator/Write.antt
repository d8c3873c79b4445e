-- ===== src/Coordinator/Write.antt =====
-- A coordinated write from start to end: what the caller is told, what the local store then holds,
-- and which replicas get a hint.
use distributed_kv_data_stor.Prelude.{
  ℕ, ◌+◌, ◌≤◌, ◌<◌, Str, ◌≡◌, refl, ap, ◌∙◌, Bool, true, false, Option, none, some, List, [], leb,
  if◌then◌else◌, length, drop, arith, ok,
}
use distributed_kv_data_stor.VectorClock.{Snapshot}
use distributed_kv_data_stor.Model.{DataItem}
use distributed_kv_data_stor.HashRing.{HashRing}
use distributed_kv_data_stor.Persister.{Persister, StorageError, Found}
use distributed_kv_data_stor.Persister.Contract.{IsMergingStore}
use distributed_kv_data_stor.DataStore.{DataStore, get, put, restore_versions}
use distributed_kv_data_stor.DataStore.Reads.{get-restore_versions}
use distributed_kv_data_stor.Coordinator.{
  QuorumConfig, ReplicateResult, Select, acked, missed, decide_write, quorum_not_reached,
  not_replica, PutOutcome, finish_put, put_as_replica, coordinate_put, is_replica_for,
}
use distributed_kv_data_stor.Coordinator.Quorum.{
  acks, unreachable, all_arrive, decide_write-counts, decide_write-drain,
}

no_hints : (closing : Bool) → ◌≡◌ {A = List Str} (if closing then [] else []) []
no_hints true = refl
no_hints false = refl

-- A write that its coordinator has applied locally, and that every replica has answered.
module _ {V : Type 0} (p : Persister V) (config : QuorumConfig) (addr : ℕ) (key : Str) (value : V)
    (context : Option Snapshot) (peers : List Str) (results : List ReplicateResult)
    (ds ds' : DataStore p) (prev : Found V) (item : DataItem V) (read : get p key ds ≡ ok prev)
    (written : put p addr key value context ds ≡ (some item, ds'))
    (answered : length results ≡ length peers) where
  -- The outcome of the call; the drain receives what the loop did not.
  abbrev pub outcome : Bool → PutOutcome p
  outcome closing =
      put_as_replica p config closing addr key value context peers (all_arrive results)
        (drop (decide_write config peers (all_arrive results)).1.received results) ds

  outcome-eq :
      (closing : Bool)
      → outcome closing
        ≡ finish_put p closing key prev.items
            (drop (decide_write config peers (all_arrive results)).1.received results)
            ds'
            (decide_write config peers (all_arrive results)).0
            (decide_write config peers (all_arrive results)).1
  unfolding put_as_replica
  outcome-eq closing = ground arith

  decided :
      (b : Bool)
      → leb config.w (1 + acks results) ≡ b
      → (decide_write config peers (all_arrive results)).0 ≡ (if b then acked else missed)
  decided b e =
      decide_write-counts config peers results answered ∙ ap (λ c. if c then acked else missed) e

  -- With W acks, the local write among them, the call succeeds, the store holds the local write,
  -- and unless the node is closing exactly the unavailable replicas get a hint.
  pub put_as_replica-acked :
      (closing : Bool)
      → config.w ≤ 1 + acks results
      → ((outcome closing).error ≡ none)
        × ((outcome closing).store ≡ ds')
        × ((outcome closing).failed ≡ 0)
        × ((outcome closing).hinted ≡ (if closing then [] else unreachable results))
  unfolding finish_put
  put_as_replica-acked closing enough = rw (outcome-eq closing) (
      rw (decided true (ground arith)) (
        refl,
        refl,
        refl,
        ap (λ l. if closing then [] else l) (decide_write-drain config peers results answered),
      ))

  -- Short of W acks, the call reports the missed quorum and counts it, and stores no hint.
  pub put_as_replica-missed :
      (closing : Bool)
      → 1 + acks results < config.w
      → (e : Option StorageError) × ((outcome closing).error ≡ some (quorum_not_reached e))
        × ((outcome closing).failed ≡ 1)
        × ((outcome closing).hinted ≡ [])
        × (restore_versions p key prev.items ds' ≡ (e, (outcome closing).store))
  unfolding finish_put
  put_as_replica-missed closing short = rw (outcome-eq closing) (
      rw (decided false (ground arith))
        ((restore_versions p key prev.items ds').0, refl, refl, no_hints closing, refl))

  -- A write that missed its quorum and was rolled back without an error leaves the versions that
  -- the key had before, in their order. No other write to the key lands in between.
  pub put_as_replica-rolls_back :
      IsMergingStore p
      → (closing : Bool) → 1 + acks results < config.w
      → (outcome closing).error ≡ some (quorum_not_reached none)
      → (after : Found V) → get p key (outcome closing).store ≡ ok after
      → after.items ≡ prev.items
  put_as_replica-rolls_back promise closing short clean after h =
      let (e, told, _, _, back) = put_as_replica-missed closing short in
      let same_error : e ≡ none = ground arith in
      get-restore_versions p promise key prev.items ds' (outcome closing).store after
        (back ∙ ap (λ x. (x, (outcome closing).store)) same_error) h

-- A node that is not one of the key's replicas refuses a forwarded write before it touches its
-- store: the store is as it was and nothing is hinted.
pub coordinate_put-refuses :
    {V : Type 0} (p : Persister V) (self : Str) (config : QuorumConfig) (ring : HashRing)
    (closing : Bool) (addr : ℕ) (key : Str) (value : V) (context : Option Snapshot)
    (selects : List (Select ReplicateResult)) (remaining : List ReplicateResult) (ds : DataStore p)
    → (is_replica_for self config ring key).is_replica ≡ false
    → coordinate_put p self config ring closing addr key value context selects remaining ds
      ≡ record { error = some not_replica; store = ds; hinted = []; failed = 0 }
unfolding coordinate_put
coordinate_put-refuses p self config ring closing addr key value context selects remaining ds h =
    rw h
