-- ===== src/Engine/Replay.antt =====
-- The log determines the memtables: replaying the entries of a commit gives what the commit gave.
use distributed_kv_data_stor.Prelude.{
  ◌+◌, ◌≡◌, refl, sym, ap, subst, ◌∙◌, Bool, false, ◌&&◌, ◌||◌, none, some, List, [], ◌∷◌, length,
  arith, Bool-cases, Result-cases, inl, inr,
}
use distributed_kv_data_stor.MemTable
use distributed_kv_data_stor.MemTable.{MemTable, new}
use distributed_kv_data_stor.Engine.Contract.{no_flush-none}
use distributed_kv_data_stor.Engine.{Parts, StorageEngine, WalEntry, op_put, op_restore, WriteReq}
use distributed_kv_data_stor.Engine.Writes.{
  Applied, no_flush, replay, entries_of, bytes_of, replace_and_verify, apply, swap, swap_if_due,
  commit,
}

module _ {V R : Type 0} (P : Parts V R) where
  -- What a batch does to the layers is what its entries do to the active memtable.
  record AppliedBatch (batch : List (WriteReq V R)) (e : StorageEngine P) (a : Applied P)
      : Type 0 where
    active : a.engine.active ≡ replay P (entries_of P batch) e.active
    flushing : a.engine.flushing ≡ e.flushing
    max_bytes : a.engine.max_bytes ≡ e.max_bytes

  apply-AppliedBatch :
      (batch : List (WriteReq V R)) (crossed : Bool) (e : StorageEngine P)
      → AppliedBatch batch e (apply P batch crossed e)
  unfolding apply replay entries_of replace_and_verify
  apply-AppliedBatch [] crossed e = record { active = refl; flushing = refl; max_bytes = refl }
  apply-AppliedBatch (req ∷ batch) crossed e = go req.entry (λ c s. apply-AppliedBatch batch c s)
    where
      go :
          (entry : WalEntry V)
          → ((c : Bool) (s : StorageEngine P) → AppliedBatch batch s (apply P batch c s))
          → AppliedBatch
              (record req { entry = entry } ∷ batch)
              e
              (apply P (record req { entry = entry } ∷ batch) crossed e)
      go (op_put key item) rest_of =
          let out = MemTable.put P.tree P.marshal P.same key item e.active in
          let rest = rest_of (crossed || out.0) (record e { active = out.1 }) in
          record { active = rest.active; flushing = rest.flushing; max_bytes = rest.max_bytes }
      go (op_restore key items) rest_of =
          let rest = rest_of crossed (replace_and_verify P key items e).1 in
          record { active = rest.active; flushing = rest.flushing; max_bytes = rest.max_bytes }

  -- The memtables of an engine after a commit.
  pub data FromLog (batch : List (WriteReq V R)) (e e' : StorageEngine P) : Type 0 where
    in_active :
        e'.active ≡ replay P (entries_of P batch) e.active
        → e'.flushing ≡ e.flushing
        → FromLog batch e e'
    in_frozen :
        e.flushing ≡ none
        → e'.flushing ≡ some (replay P (entries_of P batch) e.active)
        → e'.active ≡ new P.tree P.marshal P.same e.max_bytes
        → FromLog batch e e'

  swap_if_due-FromLog :
      (batch : List (WriteReq V R)) (e : StorageEngine P) (a : Applied P)
      → AppliedBatch batch e a
      → FromLog batch e (swap_if_due P a)
  unfolding swap_if_due swap
  swap_if_due-FromLog batch e a h = elim (Bool-cases (a.crossed && no_flush a.engine.flushing)) [
    | inr k ↦ rw (k, swap_if_due) (FromLog.in_active h.active h.flushing)
    | inl k ↦
        let free : a.engine.flushing ≡ none = no_flush-none a.engine.flushing (ground (arith, k)) in
        rw (k, swap_if_due)
          (elim (Result-cases (P.log.rotate a.engine.wal).0) [
            | inr (x, l) ↦ rw (l, swap) (FromLog.in_active h.active h.flushing)
            | inl (sealed, l) ↦
                rw (l, swap)
                  (FromLog.in_frozen (sym h.flushing ∙ free) (ap some h.active)
                    (ap (new P.tree P.marshal P.same) h.max_bytes))
          ])
  ]

  -- A commit that the log took leaves what replaying its entries over the active memtable gives:
  -- in the active memtable, or in the frozen one with a new memtable in front.
  pub commit-FromLog :
      (batch : List (WriteReq V R)) (e : StorageEngine P)
      → e.halted ≡ false
      → (P.log.write_batch (bytes_of P batch) e.wal).0 ≡ none
      → FromLog batch e (commit P batch e).1
  unfolding commit
  commit-FromLog batch e h k =
      let start : StorageEngine P = record e {
        wal = (P.log.write_batch (bytes_of P batch) e.wal).1;
        writes = e.writes + length batch;
      } in
      let a = apply P batch false start in
      let done : (commit P batch e).1 ≡ swap_if_due P a = ground (arith, h, k) in
      let from_start = apply-AppliedBatch batch false start in
      subst (FromLog batch e) (sym done) (
        swap_if_due-FromLog batch e a (record {
          active = from_start.active;
          flushing = from_start.flushing;
          max_bytes = from_start.max_bytes;
        }))
