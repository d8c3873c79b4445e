-- ===== src/DataStore.antt =====
-- internal/store/datastore.go: a node's versioned store on top of a Persister. Every write holds
-- its key's lock from the read to the write, and a read is one call of the persister, so each
-- method is one step; the stripes of the lock decide only who waits for whom.
pub mod Writes
pub mod Reads
pub mod Examples
use distributed_kv_data_stor.Prelude.{
  ℕ, Str, Bool, true, false, not, Option, none, some, List, [], ◌∷◌, Result, ok, err, ◌>>=◌,
  if◌then◌else◌,
}
use mathlib.Core.List.{reverse}
use distributed_kv_data_stor.VectorClock.{Snapshot, build_from_context}
use distributed_kv_data_stor.Model.{DataItem}
use distributed_kv_data_stor.Versioning.{union_vector_clock}
use distributed_kv_data_stor.Persister.{Persister, StorageError, restore_incomplete, Found}
use distributed_kv_data_stor.Persister.Contract.{is_empty}

-- What Delete tells its caller: `(true, "Key deleted")`, or false with one of two messages.
pub data Deletion : Type 0 where
  deleted : Deletion
  key_not_found : Deletion
  storage_error : StorageError → Deletion

module _ {V : Type 0} (p : Persister V) where
  -- The seed and the locks are left out; `state` is what the persister holds.
  pub record DataStore : Type 0 where
    pub id : Str
    pub clock_id : Str
    pub state : p.State

  -- `reversed`: persister order (newest first) to DataStore order (oldest first), and back.
  abbrev pub reversed : List (DataItem V) → List (DataItem V)
  reversed items = reverse items

  unfoldable pub load : Str → DataStore → Result StorageError (Found V)
  load key ds = do
    r ← p.get_all key ds.state
    ok (record { items = reversed r.items; found = r.found })

  unfoldable pub keys : DataStore → Result StorageError (List Str)
  keys ds = p.keys ds.state

  unfoldable pub get : Str → DataStore → Result StorageError (Found V)
  unfolding load
  get key ds = load key ds

  alive : List (DataItem V) → List (DataItem V)
  alive [] = []
  alive (item ∷ items) = let rest = alive items in if item.is_deleted then rest else item ∷ rest

  -- A failed read and an absent key look alike here.
  unfoldable pub get_live_items : Str → DataStore → Found V
  unfolding load alive
  get_live_items key ds = elim (load key ds) [
    | err _ ↦ record { items = []; found = false }
    | ok r ↦
        if r.found
        then record { items = alive r.items; found = not (is_empty (alive r.items)) }
        else record { items = []; found = false }
  ]

  -- `base`: the client's context, or what the key's versions cover; nil when there are none.
  unfoldable pub base_of : Option Snapshot → Str → DataStore → Result StorageError Snapshot
  unfolding load
  base_of (some context) key ds = ok context
  base_of none key ds = do r ← load key ds; ok (if r.found then union_vector_clock r.items else [])

  -- The item that a write builds; `addr` is the address that it is allocated at.
  unfoldable pub new_item : ℕ → V → Bool → Snapshot → DataStore → DataItem V
  new_item addr value is_deleted base ds = record {
    addr = addr;
    value = value;
    vector_clock = build_from_context base ds.clock_id;
    last_updated_by = ds.id;
    is_deleted = is_deleted;
  }

  -- `persister.Put`, and nil when it fails.
  unfoldable pub persist : Str → DataItem V → DataStore → Option (DataItem V) × DataStore
  persist key item ds =
      let (e, s') = p.put key item ds.state in
      (elim e [ none ↦ some item | some _ ↦ none ], record ds { state = s' })

  unfoldable pub put : ℕ → Str → V → Option Snapshot → DataStore → Option (DataItem V) × DataStore
  unfolding base_of new_item persist
  put addr key value context ds = elim (base_of context key ds) [
    | err _ ↦ (none, ds)
    | ok base ↦ persist key (new_item addr value false base ds) ds
  ]

  -- `nothing` stands for the nil value of a tombstone.
  unfoldable pub delete : ℕ → V → Str → Option Snapshot → DataStore → Deletion × DataStore
  unfolding load new_item
  delete addr nothing key context ds = elim (load key ds) [
    | err e ↦ (storage_error e, ds)
    | ok r ↦
        if r.found
        then (let base : Snapshot = elim context [
          | none ↦ union_vector_clock r.items
          | some given ↦ given
        ] in
            let (e, s') = p.put key (new_item addr nothing true base ds) ds.state in
            (elim e [ none ↦ deleted | some x ↦ storage_error x ], record ds { state = s' }))
        else (key_not_found, ds)
  ]

  unfoldable pub restore_versions :
      Str → List (DataItem V) → DataStore → Option StorageError × DataStore
  restore_versions key items ds =
      let (e, s') = p.restore key (reversed items) ds.state in (e, record ds { state = s' })

  unfoldable pub merge_replicated : Str → DataItem V → DataStore → Option StorageError × DataStore
  merge_replicated key item ds =
      let (e, s') = p.put key item ds.state in (e, record ds { state = s' })
