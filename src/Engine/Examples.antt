-- ===== src/Engine/Examples.antt =====
-- Runs of the engine on small parts, and the theorems at concrete inputs.
use distributed_kv_data_stor.Prelude.{
  ℕ, Str, ◌≡◌, refl, sym, true, false, Option, none, some, List, [], ◌∷◌, ◌↔◌, ok, err, arith,
}
use distributed_kv_data_stor.Model.{DataItem}
use distributed_kv_data_stor.Versioning.Cover.{CoveredBy}
use distributed_kv_data_stor.MemTable
use distributed_kv_data_stor.MemTable.{MemTable, non_empty}
use distributed_kv_data_stor.MemTable.Trees.{list_tree, same_item}
use distributed_kv_data_stor.Persister.{StorageError, storage_failed, Found}
use distributed_kv_data_stor.Persister.Contract.{IsMergingStore}
use distributed_kv_data_stor.Engine.Concrete.{
  items_of, same_entries, parts, parts-IsLawful, same_entries-IsTableTest, parts-TablesListed,
}
use distributed_kv_data_stor.Engine.Compacting.{CompactWrites, compact}
use distributed_kv_data_stor.Engine.Replacing.{compact-keeps}
use distributed_kv_data_stor.Engine.Replay.{FromLog, commit-FromLog}
use distributed_kv_data_stor.Engine.Batches.{CutWell, batches, batches-CutWell}
use distributed_kv_data_stor.Engine.{StorageEngine, WalEntry, op_put, WriteReq, get_all}
use distributed_kv_data_stor.Engine.Writes.{put, commit, as_persister, flush}
use distributed_kv_data_stor.Engine.Contract.{as_persister-IsMergingStore}
use distributed_kv_data_stor.Engine.Flushes.{flush-keeps, Halts, commit-Halts}

abbrev item_by : ℕ → Str → DataItem ℕ
item_by value node = record {
  addr = value;
  value = value;
  vector_clock = record { state = (node, 1) ∷ [] };
  last_updated_by = node;
  is_deleted = false;
}

abbrev key_a : Str
key_a = b'a' ∷ []

abbrev first_item : DataItem ℕ
first_item = item_by 1 (b'x' ∷ [])

abbrev second_item : DataItem ℕ
second_item = item_by 2 (b'y' ∷ [])

-- An empty engine whose log answers `wal`, and whose memtable is full at 10 bytes.
abbrev fresh : Option StorageError → StorageEngine parts
fresh wal = record {
  active = record { tree = record { entries = []; once = tt }; size_so_far = 0; max_bytes = 10 };
  flushing = none;
  sstables = [];
  wal = wal;
  max_bytes = 10;
  halted = false;
  writes_closed = false;
  writes = 0;
  flushes = 0;
  flush_failures = 0;
  compactions = 0;
  compaction_failures = 0;
}

abbrev frozen : MemTable (list_tree (List (DataItem ℕ))).Tree
frozen =
    (MemTable.put (list_tree (List (DataItem ℕ))) parts.marshal same_item key_a first_item
      (fresh none).active).1

-- The first write has filled the memtable, which is being flushed.
abbrev flushing_engine : StorageEngine parts
flushing_engine = record (fresh none) { flushing = some frozen }

abbrev found_first : Found ℕ
found_first = record { items = first_item ∷ []; found = true }

-- Two concurrent writes, of which the first crosses the threshold and is frozen.
test_put_twice :
    get_all parts key_a (put parts key_a second_item (put parts key_a first_item (fresh none)).1).1
    ≡ ok (record { items = second_item ∷ first_item ∷ []; found = true })
unfolding get_all put same_item
test_put_twice = refl

as_persister-IsMergingStore_example : IsMergingStore (as_persister parts)
as_persister-IsMergingStore_example = as_persister-IsMergingStore parts parts-IsLawful

read_before : get_all parts key_a flushing_engine ≡ ok found_first
unfolding get_all MemTable.put same_item
read_before = refl

-- The flush fails, and the entries go back.
read_after :
    get_all parts key_a (flush parts frozen 1 (err storage_failed) flushing_engine) ≡ ok found_first
unfolding get_all MemTable.put same_item flush
read_after = refl

flush-keeps_example :
    CoveredBy (first_item ∷ []) ((b'x' ∷ [], 1) ∷ [])
    ↔ CoveredBy (first_item ∷ []) ((b'x' ∷ [], 1) ∷ [])
flush-keeps_example =
    flush-keeps parts parts-IsLawful frozen 1 (err storage_failed) flushing_engine refl tt key_a
      found_first found_first read_before read_after ((b'x' ∷ [], 1) ∷ [])

abbrev batch : List (WriteReq ℕ (WalEntry ℕ))
batch = record { entry = op_put key_a first_item; bytes = op_put key_a first_item } ∷ []

commit-Halts_example : Halts parts batch (fresh (some storage_failed))
commit-Halts_example =
    commit-Halts parts batch (fresh (some storage_failed)) storage_failed refl refl

-- Four tables of one size, with the versions of two writers.
abbrev four_tables : StorageEngine parts
four_tables = record (fresh none) {
  sstables =
      (record { key = key_a; item = second_item } ∷ [])
      ∷ (record { key = key_a; item = first_item } ∷ [])
      ∷ (record { key = key_a; item = first_item } ∷ [])
      ∷ (record { key = key_a; item = first_item } ∷ [])
      ∷ [];
}

abbrev good_writes : CompactWrites parts
good_writes = record { write_table = λ entries. ok entries; added = none; removed = none }

abbrev both_found : Found ℕ
both_found = record { items = second_item ∷ first_item ∷ []; found = true }

test_compact :
    (compact parts false good_writes four_tables.sstables four_tables).1.sstables
    ≡ (record { key = key_a; item = second_item } ∷ record { key = key_a; item = first_item } ∷ [])
      ∷ []
unfolding compact same_entries
test_compact = refl

read_compacting : get_all parts key_a four_tables ≡ ok both_found
unfolding get_all items_of
read_compacting = refl

read_compacted :
    get_all parts key_a (compact parts false good_writes four_tables.sstables four_tables).1
    ≡ ok both_found
unfolding get_all compact same_entries items_of
read_compacted = refl

compact-keeps_example :
    CoveredBy (second_item ∷ first_item ∷ []) ((b'x' ∷ [], 1) ∷ [])
    ↔ CoveredBy (second_item ∷ first_item ∷ []) ((b'x' ∷ [], 1) ∷ [])
compact-keeps_example =
    compact-keeps parts parts-TablesListed same_entries-IsTableTest false good_writes
      four_tables.sstables four_tables
      (λ entries merged e key c. parts-TablesListed merged entries (sym e) key c) key_a both_found
      both_found read_compacting read_compacted ((b'x' ∷ [], 1) ∷ [])

-- Records of 600000, 500000 and 3 bytes: two batches.
test_batches :
    batches (λ n. n) 3 none (600000 ∷ 500000 ∷ 3 ∷ []) ≡ (600000 ∷ []) ∷ (500000 ∷ 3 ∷ []) ∷ []
unfolding batches
test_batches = refl

batches-CutWell_example :
    CutWell (λ n. n) (600000 ∷ 500000 ∷ 3 ∷ []) (batches (λ n. n) 3 none (600000 ∷ 500000 ∷ 3 ∷ []))
batches-CutWell_example = batches-CutWell (λ n. n) 3 none (600000 ∷ 500000 ∷ 3 ∷ []) (omega arith)

commit-FromLog_example : FromLog parts batch (fresh none) (commit parts batch (fresh none)).1
commit-FromLog_example = commit-FromLog parts batch (fresh none) refl refl
