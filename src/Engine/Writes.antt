-- ===== src/Engine/Writes.antt =====
-- The commit path: a write goes to the log, and only then to the memtable.
use distributed_kv_data_stor.Prelude.{
  ℕ, ◌+◌, Str, Bool, true, false, ◌&&◌, ◌||◌, Option, none, some, List, [], ◌∷◌, length, Result, ok,
  err, if◌then◌else◌,
}
use distributed_kv_data_stor.Model.{DataItem}
use distributed_kv_data_stor.MemTable
use distributed_kv_data_stor.MemTable.{Btree, MemTable}
use distributed_kv_data_stor.Persister.{
  StorageError, restore_incomplete, writes_halted, storage_failed, Found, Persister,
}
use distributed_kv_data_stor.Engine.{
  WalEntry, op_put, op_restore, WriteReq, Parts, StorageEngine, merge_layers, get_all, all_keys,
}

-- sameVersions, with the equality of pointers.
unfoldable pub same_versions :
    {V : Type 0} → (DataItem V → DataItem V → Bool) → List (DataItem V) → List (DataItem V) → Bool
same_versions same [] [] = true
same_versions same [] (b ∷ bs) = false
same_versions same (a ∷ as') [] = false
same_versions same (a ∷ as') (b ∷ bs) = same a b && same_versions same as' bs

-- The answers of the requests of a batch, whether a Put crossed the threshold, and the engine.
pub record Applied {V R : Type 0} (P : Parts V R) : Type 0 where
  pub answers : List (Option StorageError)
  pub crossed : Bool
  pub engine : StorageEngine P

unfoldable pub no_flush : {A : Type 0} → Option A → Bool
no_flush none = true
no_flush (some m) = false

-- One answer for each request of the batch.
unfoldable pub answer_all : {A : Type 0} → StorageError → List A → List (Option StorageError)
answer_all e [] = []
answer_all e (req ∷ batch) = some e ∷ answer_all e batch

module _ {V R : Type 0} (P : Parts V R) where
  unfoldable pub verify : Result StorageError (Found V) → List (DataItem V) → Option StorageError
  unfolding same_versions
  verify (err e) items = some e
  verify (ok visible) items =
      if same_versions P.same visible.items items then none else some restore_incomplete

  unfoldable pub replace_and_verify :
      Str → List (DataItem V) → StorageEngine P → Option StorageError × StorageEngine P
  unfolding MemTable.replace merge_layers verify
  replace_and_verify key items e =
      let active = MemTable.replace P.tree P.marshal P.same key items e.active in
      (verify (merge_layers P key active e.flushing e.sstables) items, record e { active = active })

  -- The loop of apply.
  unfoldable pub apply : List (WriteReq V R) → Bool → StorageEngine P → Applied P
  unfolding MemTable.put replace_and_verify
  apply [] crossed e = record { answers = []; crossed = crossed; engine = e }
  apply (req ∷ batch) crossed e = elim req.entry [
    | op_put key item ↦
        let (full, active) = MemTable.put P.tree P.marshal P.same key item e.active in
        let rest = apply batch (crossed || full) (record e { active = active }) in
        record rest { answers = none ∷ rest.answers }
    | op_restore key items ↦
        let (answer, e') = replace_and_verify key items e in
        let rest = apply batch crossed e' in record rest { answers = answer ∷ rest.answers }
  ]

  -- The loop of Open over the entries of the log.
  unfoldable pub replay : List (WalEntry V) → MemTable P.tree.Tree → MemTable P.tree.Tree
  unfolding MemTable.put MemTable.replace
  replay [] m = m
  replay (op_put key item ∷ entries) m =
      replay entries (MemTable.put P.tree P.marshal P.same key item m).1
  replay (op_restore key items ∷ entries) m =
      replay entries (MemTable.replace P.tree P.marshal P.same key items m)

  -- The segment is sealed and the active memtable frozen, unless the rotation fails.
  unfoldable pub swap : StorageEngine P → StorageEngine P
  unfolding MemTable.new
  swap e =
      let (sealed, wal) = P.log.rotate e.wal in
      elim sealed [
        | err _ ↦ record e { wal = wal }
        | ok _ ↦ record e {
          wal = wal;
          flushing = some e.active;
          active = MemTable.new P.tree P.marshal P.same e.max_bytes;
        }
      ]

  unfoldable pub swap_if_due : Applied P → StorageEngine P
  unfolding swap no_flush
  swap_if_due a = if a.crossed && no_flush a.engine.flushing then swap a.engine else a.engine

  unfoldable pub bytes_of : List (WriteReq V R) → List R
  bytes_of [] = []
  bytes_of (req ∷ batch) = req.bytes ∷ bytes_of batch

  unfoldable pub entries_of : List (WriteReq V R) → List (WalEntry V)
  entries_of [] = []
  entries_of (req ∷ batch) = req.entry ∷ entries_of batch

  -- The answers of the batch, and the engine.
  unfoldable pub commit :
      List (WriteReq V R) → StorageEngine P → List (Option StorageError) × StorageEngine P
  unfolding bytes_of apply swap_if_due answer_all
  commit batch e =
      if e.halted
      then (answer_all writes_halted batch, e)
      else let (failed, wal) = P.log.write_batch (bytes_of batch) e.wal in
        elim failed [
          | some _ ↦ (answer_all writes_halted batch, record e { wal = wal; halted = true })
          | none ↦
              let a =
                apply batch false (record e { wal = wal; writes = e.writes + length batch }) in
              (a.answers, swap_if_due a)
        ]

  -- The answer of the only request of a batch.
  unfoldable pub answer_of : List (Option StorageError) → Option StorageError
  answer_of [] = none
  answer_of (answer ∷ _) = answer

  -- A write that is committed alone.
  unfoldable pub write : WalEntry V → StorageEngine P → Option StorageError × StorageEngine P
  unfolding commit answer_of
  write entry e = if e.halted then (some writes_halted, e) else elim (P.encode entry) [
    | none ↦ (some storage_failed, e)
    | some bytes ↦
        if e.writes_closed
        then (some storage_failed, e)
        else let (answers, e') = commit (record { entry = entry; bytes = bytes } ∷ []) e in
          (answer_of answers, e')
  ]

  unfoldable pub put : Str → DataItem V → StorageEngine P → Option StorageError × StorageEngine P
  unfolding write
  put key item e = write (op_put key item) e

  unfoldable pub restore :
      Str → List (DataItem V) → StorageEngine P → Option StorageError × StorageEngine P
  unfolding write
  restore key items e = write (op_restore key items) e

  -- The engine as the Persister of a DataStore.
  abbrev pub as_persister : Persister V
  as_persister = record {
    State = StorageEngine P;
    put = put;
    get_all = get_all P;
    restore = restore;
    keys = all_keys P;
  }

  -- The outcome of writeAndRegister, from those of sstable.Write and manifest.Add.
  unfoldable pub write_and_register :
      Result StorageError P.tables.Table → Option StorageError → Result StorageError P.tables.Table
  write_and_register (err e) added = err e
  write_and_register (ok sst) none = ok sst
  write_and_register (ok sst) (some e) = err e

  -- The end of flush: the table takes the place of the frozen memtable, or its entries go back. The
  -- test whether flushing still is that memtable has no model: a memtable is frozen only while none
  -- is being flushed, so the one whose flush ends is the one that flushing holds.
  unfoldable pub flush :
      MemTable P.tree.Tree
      → ℕ
      → Result StorageError P.tables.Table
      → StorageEngine P
      → StorageEngine P
  unfolding MemTable.put_back_older MemTable.snapshot
  flush frozen sealed (ok sst) e = record e {
    sstables = sst ∷ e.sstables;
    flushing = none;
    wal = P.log.delete_through sealed e.wal;
    flushes = e.flushes + 1;
  }
  flush frozen sealed (err _) e = record e {
    active =
        MemTable.put_back_older P.tree P.marshal P.same
          (MemTable.snapshot P.tree P.marshal P.same frozen) e.active;
    flushing = none;
    flush_failures = e.flush_failures + 1;
  }
