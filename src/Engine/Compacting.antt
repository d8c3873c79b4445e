-- ===== src/Engine/Compacting.antt =====
-- Compact of engine.go: a run of tables is merged into one, which takes their place. `current` is
-- the list of tables that it read at its start; the engine is the one that it meets at the swap,
-- when flushes may have added tables. Deleting the sources' files is left out.
use distributed_kv_data_stor.Prelude.{
  ◌+◌, Bool, true, false, Option, none, some, List, [], ◌∷◌, Result, ok, err, if◌then◌else◌,
}
use distributed_kv_data_stor.Compaction.{Entry, select_tier_for_compaction, merge}
use distributed_kv_data_stor.Persister.{StorageError, storage_failed}
use distributed_kv_data_stor.Engine.{Parts, StorageEngine}

-- What is left of the tables after the run, if they start with it.
unfoldable pub strip_run : {T : Type 0} → (T → T → Bool) → List T → List T → Option (List T)
strip_run same [] sstables = some sstables
strip_run same (src ∷ run) [] = none
strip_run same (src ∷ run) (t ∷ sstables) =
    let rest = strip_run same run sstables in if same t src then rest else none

-- replaceRun, for the run `first ∷ run`; none is its false.
unfoldable pub replace_run :
    {T : Type 0} → (T → T → Bool) → List T → T → List T → T → Option (List T)
unfolding strip_run
replace_run same [] first run merged = none
replace_run same (t ∷ sstables) first run merged =
    let later = replace_run same sstables first run merged in
    if same t first
    then elim (strip_run same run sstables) [ none ↦ none | some rest ↦ some (merged ∷ rest) ]
    else elim later [ none ↦ none | some out ↦ some (t ∷ out) ]

-- What the writes of a compaction answer: sstable.WriteWithID for the entries, and manifest.Add and
-- manifest.Remove.
pub record CompactWrites {V R : Type 0} (P : Parts V R) : Type 0 where
  pub write_table : List (Entry V) → Result StorageError P.tables.Table
  pub added : Option StorageError
  pub removed : Option StorageError

module _ {V R : Type 0} (P : Parts V R) where
  -- The swap in memory.
  unfoldable pub swap_run :
      P.tables.Table
      → List P.tables.Table
      → P.tables.Table
      → StorageEngine P
      → Result StorageError (StorageEngine P)
  unfolding replace_run
  swap_run first run merged e = elim (replace_run P.tables.same_table e.sstables first run merged) [
    | none ↦ err storage_failed
    | some swapped ↦ ok (record e { sstables = swapped })
  ]

  unfoldable pub register_merged :
      CompactWrites P
      → P.tables.Table
      → List P.tables.Table
      → P.tables.Table
      → StorageEngine P
      → Result StorageError (StorageEngine P)
  unfolding swap_run
  register_merged writes first run merged e = elim writes.added [
    | some x ↦ err x
    | none ↦ elim writes.removed [ some x ↦ err x | none ↦ swap_run first run merged e ]
  ]

  -- compactLocked, once it has chosen `first ∷ run`.
  unfoldable pub compact_run :
      CompactWrites P
      → P.tables.Table
      → List P.tables.Table
      → StorageEngine P
      → Result StorageError (StorageEngine P)
  unfolding merge register_merged
  compact_run writes first run e = elim (merge P.tables.all (first ∷ run)) [
    | err x ↦ err x
    | ok entries ↦ elim (writes.write_table entries) [
      | err x ↦ err x
      | ok merged ↦ register_merged writes first run merged e
    ]
  ]

  -- The counters of Compact.
  unfoldable pub count_compaction :
      StorageEngine P
      → Result StorageError (StorageEngine P)
      → Option StorageError × StorageEngine P
  count_compaction e (err x) =
      (some x, record e { compaction_failures = e.compaction_failures + 1 })
  count_compaction e (ok e') = (none, record e' { compactions = e'.compactions + 1 })

  -- Compact, with whether the engine is closed.
  unfoldable pub compact :
      Bool
      → CompactWrites P
      → List P.tables.Table
      → StorageEngine P
      → Option StorageError × StorageEngine P
  unfolding select_tier_for_compaction compact_run count_compaction
  compact true writes current e = (none, e)
  compact false writes current e = elim (select_tier_for_compaction P.tables.size current) [
    | [] ↦ (none, e)
    | first ∷ run ↦ count_compaction e (compact_run writes first run e)
  ]
