-- ===== src/Engine.antt =====
-- internal/storage/engine/engine.go and write.go: the storage engine of a node, with its memtables,
-- its SSTables (newest first) and its write-ahead log. The log and the tables are interfaces. The
-- write lock is held for the whole of a commit, so a commit is one step on the engine; so is the
-- end of a flush, and each step of a compaction takes the outcomes of the files it writes.
pub mod Writes
pub mod Compacting
pub mod Batches
pub mod Replacing
pub mod Replay
pub mod Concrete
pub mod Reads
pub mod Commits
pub mod Flushes
pub mod Origins
pub mod Contract
pub mod Examples
use distributed_kv_data_stor.Prelude.{
  ℕ, ◌+◌, Str, Bool, true, false, ◌&&◌, Option, none, some, List, [], ◌∷◌, ◌++◌, length, ltb,
  Result, ok, err, ◌>>=◌, if◌then◌else◌,
}
use distributed_kv_data_stor.GoMap.{GoMap, insert, keys}
use distributed_kv_data_stor.Model.{DataItem}
use distributed_kv_data_stor.Versioning.{merge_siblings}
use distributed_kv_data_stor.Compaction.{Entry}
use distributed_kv_data_stor.MemTable
use distributed_kv_data_stor.MemTable.{Btree, MemTable}
use distributed_kv_data_stor.Membership.{sorted}
use distributed_kv_data_stor.Persister.{
  StorageError, restore_incomplete, writes_halted, storage_failed, Found,
}

-- A write: Put or Restore.
pub data WalEntry (V : Type 0) : Type 0 where
  op_put : (key : Str) (item : DataItem V) → WalEntry V
  op_restore : (key : Str) (items : List (DataItem V)) → WalEntry V

-- A request on its way to the log, with the record that wal.Encode made of it.
pub record WriteReq (V R : Type 0) : Type 0 where
  pub entry : WalEntry V
  pub bytes : R

-- wal.Log: a write of a batch with its fsync, a rotation that returns the sealed segment, and the
-- deletion of segments.
pub record Log (R : Type 0) : Type 1 where
  pub Wal : Type 0
  pub write_batch : List R → Wal → Option StorageError × Wal
  pub rotate : Wal → Result StorageError ℕ × Wal
  pub delete_through : ℕ → Wal → Wal

-- sstable.SSTable: the versions of a key, the keys, every entry, the file's size, and whether two
-- pointers are equal.
pub record Tables (V : Type 0) : Type 1 where
  pub Table : Type 0
  pub get_all : Str → Table → Result StorageError (Option (List (DataItem V)))
  pub keys : Table → List Str
  pub all : Table → Result StorageError (List (Entry V))
  pub size : Table → ℕ
  pub same_table : Table → Table → Bool

-- What the engine is built on.
pub record Parts (V R : Type 0) : Type 1 where
  pub tree : Btree (List (DataItem V))
  pub log : Log R
  pub tables : Tables V
  pub marshal : V → Option Str
  pub same : DataItem V → DataItem V → Bool
  pub encode : WalEntry V → Option R

pub record StorageEngine {V R : Type 0} (P : Parts V R) : Type 0 where
  pub active : MemTable P.tree.Tree
  pub flushing : Option (MemTable P.tree.Tree)
  pub sstables : List P.tables.Table
  pub wal : P.log.Wal
  pub max_bytes : ℕ
  pub halted : Bool
  pub writes_closed : Bool
  pub writes : ℕ
  pub flushes : ℕ
  pub flush_failures : ℕ
  pub compactions : ℕ
  pub compaction_failures : ℕ

module _ {V R : Type 0} (P : Parts V R) where
  -- `if items, found := ...; found`
  unfoldable pub merge_found : Option (List (DataItem V)) → List (DataItem V) → List (DataItem V)
  unfolding merge_siblings
  merge_found none merged = merged
  merge_found (some items) merged = merge_siblings merged items

  unfoldable pub merge_memtable : Str → MemTable P.tree.Tree → List (DataItem V) → List (DataItem V)
  unfolding MemTable.get_all merge_found
  merge_memtable key m merged = merge_found (MemTable.get_all P.tree P.marshal P.same key m) merged

  unfoldable pub merge_flushing :
      Str → Option (MemTable P.tree.Tree) → List (DataItem V) → List (DataItem V)
  unfolding merge_memtable
  merge_flushing key none merged = merged
  merge_flushing key (some m) merged = merge_memtable key m merged

  -- The loop of mergeLayers over the tables.
  unfoldable pub merge_tables :
      Str → List P.tables.Table → List (DataItem V) → Result StorageError (List (DataItem V))
  unfolding merge_found
  merge_tables key [] merged = ok merged
  merge_tables key (sst ∷ sstables) merged = elim (P.tables.get_all key sst) [
    | err e ↦ err e
    | ok found ↦ merge_tables key sstables (merge_found found merged)
  ]

  -- `return merged, len(merged) > 0, nil`
  unfoldable pub read_result :
      Result StorageError (List (DataItem V)) → Result StorageError (Found V)
  read_result (err e) = err e
  read_result (ok merged) = ok (record { items = merged; found = ltb 0 (length merged) })

  unfoldable pub merge_layers :
      Str
      → MemTable P.tree.Tree
      → Option (MemTable P.tree.Tree)
      → List P.tables.Table
      → Result StorageError (Found V)
  unfolding merge_memtable merge_flushing merge_tables read_result
  merge_layers key active flushing sstables =
      read_result
        (merge_tables key sstables (merge_flushing key flushing (merge_memtable key active [])))

  unfoldable pub get_all : Str → StorageEngine P → Result StorageError (Found V)
  unfolding merge_layers
  get_all key e = merge_layers key e.active e.flushing e.sstables

  -- `seen[k] = true` for each key.
  unfoldable pub add_keys : List Str → GoMap Bool → GoMap Bool
  unfolding insert
  add_keys [] seen = seen
  add_keys (k ∷ ks) seen = add_keys ks (insert k true seen)

  unfoldable pub add_table_keys : List P.tables.Table → GoMap Bool → GoMap Bool
  unfolding add_keys
  add_table_keys [] seen = seen
  add_table_keys (sst ∷ sstables) seen = add_table_keys sstables (add_keys (P.tables.keys sst) seen)

  unfoldable pub add_flushing_keys : Option (MemTable P.tree.Tree) → GoMap Bool → GoMap Bool
  unfolding add_keys MemTable.keys
  add_flushing_keys none seen = seen
  add_flushing_keys (some m) seen = add_keys (MemTable.keys P.tree P.marshal P.same m) seen

  unfoldable pub all_keys : StorageEngine P → Result StorageError (List Str)
  unfolding add_keys add_flushing_keys add_table_keys sorted keys MemTable.keys
  all_keys e =
      let seen = add_keys (MemTable.keys P.tree P.marshal P.same e.active) [] in
      ok (sorted (keys (add_table_keys e.sstables (add_flushing_keys e.flushing seen))))
