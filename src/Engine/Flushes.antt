-- ===== src/Engine/Flushes.antt =====
-- The end of a flush changes no history, and a failed log write halts the engine.
use distributed_kv_data_stor.Prelude.{
  iff_trans, ℕ, Str, ◌≡◌, refl, sym, ap, subst, true, false, some, List, arith, inl, inr, ◌↔◌,
  Result, ok, err,
}
use distributed_kv_data_stor.VectorClock.{Snapshot}
use distributed_kv_data_stor.Versioning.Cover.{CoveredBy}
use distributed_kv_data_stor.Compaction.{Entry}
use distributed_kv_data_stor.Compaction.Merging.{EnteredBy}
use distributed_kv_data_stor.MemTable
use distributed_kv_data_stor.MemTable.{MemTable}
use distributed_kv_data_stor.MemTable.Covers.{snapshot-EnteredBy, put_back_older-CoveredBy}
use distributed_kv_data_stor.Persister.{StorageError, writes_halted, Found}
use distributed_kv_data_stor.Engine.{Parts, StorageEngine, WalEntry, WriteReq, get_all}
use distributed_kv_data_stor.Engine.Writes.{bytes_of, answer_all, commit, write, flush}
use distributed_kv_data_stor.Engine.Reads.{
  IsLawful, held, FoundCovers, FlushingCovers, LayersCover, get_all-LayersCover,
}
use distributed_kv_data_stor.Engine.Commits.{SameLayers, halted-write}

module _ {V R : Type 0} (P : Parts V R) where
  -- The table reads back the history of the entries that were written to it.
  abbrev pub HoldsEntries : P.tables.Table → List (Entry V) → Type 0
  HoldsEntries sst entries =
      (key : Str) (c : Snapshot)
      → FoundCovers (P.tables.get_all key sst) c ↔ EnteredBy entries key c

  abbrev pub HoldsFrozen : Result StorageError P.tables.Table → MemTable P.tree.Tree → Type 0
  HoldsFrozen (err e) frozen = Unit
  HoldsFrozen (ok sst) frozen = HoldsEntries sst (MemTable.snapshot P.tree P.marshal P.same frozen)

  flush-LayersCover :
      IsLawful P
      → (frozen : MemTable P.tree.Tree) (sealed : ℕ) (written : Result StorageError P.tables.Table)
        (e : StorageEngine P)
      → e.flushing ≡ some frozen
      → HoldsFrozen written frozen
      → (key : Str) (c : Snapshot)
      → LayersCover P key (flush P frozen sealed written e) c ↔ LayersCover P key e c
  unfolding flush
  flush-LayersCover lawful frozen sealed (ok sst) e flushing holds key c =
      let frozen_covers : FlushingCovers P key e.flushing c ↔ CoveredBy (held P key frozen) c =
        subst (λ f. FlushingCovers P key f c ↔ CoveredBy (held P key frozen) c) (sym flushing)
          ((λ w. w), (λ w. w)) in
      let written =
        iff_trans (holds key c)
          (snapshot-EnteredBy P.tree lawful.tree P.marshal P.same frozen key c) in
      (
        λ w. elim w [
          | inl a ↦ inl a
          | inr q ↦ elim q [
            | inl f ↦ absurd f
            | inr t ↦ elim t [
              | inl s ↦ inr (inl (frozen_covers.1 (written.0 s)))
              | inr s ↦ inr (inr s)
            ]
          ]
        ],
        λ w. elim w [
          | inl a ↦ inl a
          | inr q ↦ elim q [
            | inl f ↦ inr (inr (inl (written.1 (frozen_covers.0 f))))
            | inr t ↦ inr (inr (inr t))
          ]
        ],
      )
  flush-LayersCover lawful frozen sealed (err x) e flushing holds key c =
      let frozen_covers : FlushingCovers P key e.flushing c ↔ CoveredBy (held P key frozen) c =
        subst (λ f. FlushingCovers P key f c ↔ CoveredBy (held P key frozen) c) (sym flushing)
          ((λ w. w), (λ w. w)) in
      let entries = MemTable.snapshot P.tree P.marshal P.same frozen in
      let snap = snapshot-EnteredBy P.tree lawful.tree P.marshal P.same frozen key c in
      let back =
        put_back_older-CoveredBy P.tree lawful.tree P.marshal P.same entries key e.active c in
      (
        λ w. elim w [
          | inl a ↦ elim (back.0 a) [
            | inl u ↦ inl u
            | inr u ↦ inr (inl (frozen_covers.1 (snap.0 u)))
          ]
          | inr q ↦ elim q [ inl f ↦ absurd f | inr t ↦ inr (inr t) ]
        ],
        λ w. elim w [
          | inl a ↦ inl (back.1 (inl a))
          | inr q ↦ elim q [
            | inl f ↦ inl (back.1 (inr (snap.1 (frozen_covers.0 f))))
            | inr t ↦ inr (inr t)
          ]
        ],
      )

  -- Whether a flush succeeds or fails, a read after it covers exactly what a read before it does, if
  -- the table that it registered reads back the entries written to it.
  pub flush-keeps :
      IsLawful P
      → (frozen : MemTable P.tree.Tree) (sealed : ℕ) (written : Result StorageError P.tables.Table)
        (e : StorageEngine P)
      → e.flushing ≡ some frozen
      → HoldsFrozen written frozen
      → (key : Str) (r r' : Found V) → get_all P key e ≡ ok r
      → get_all P key (flush P frozen sealed written e) ≡ ok r'
      → (c : Snapshot) → CoveredBy r'.items c ↔ CoveredBy r.items c
  flush-keeps lawful frozen sealed written e flushing holds key r r' h k c =
      let before = get_all-LayersCover P key e r c h in
      let after = get_all-LayersCover P key (flush P frozen sealed written e) r' c k in
      let kept = flush-LayersCover lawful frozen sealed written e flushing holds key c in
      iff_trans after (iff_trans kept ((λ w. before.1 w), (λ w. before.0 w)))

  -- After a log write that failed: every request of the batch has the error, no layer has changed,
  -- and every later write is refused and changes nothing.
  pub record Halts (batch : List (WriteReq V R)) (e : StorageEngine P) : Type 0 where
    pub answers : (commit P batch e).0 ≡ answer_all writes_halted batch
    pub layers : SameLayers P e (commit P batch e).1
    pub later :
        (entry : WalEntry V)
        → write P entry (commit P batch e).1 ≡ (some writes_halted, (commit P batch e).1)

  failed-commit :
      (batch : List (WriteReq V R)) (e : StorageEngine P) (x : StorageError)
      → e.halted ≡ false
      → (P.log.write_batch (bytes_of P batch) e.wal).0 ≡ some x
      → commit P batch e ≡ (
        answer_all writes_halted batch,
        record e { wal = (P.log.write_batch (bytes_of P batch) e.wal).1; halted = true },
      )
  unfolding commit
  failed-commit batch e x h f = ground (arith, h, f)

  -- A batch whose log write fails is applied nowhere, and halts the engine for good.
  pub commit-Halts :
      (batch : List (WriteReq V R)) (e : StorageEngine P) (x : StorageError)
      → e.halted ≡ false
      → (P.log.write_batch (bytes_of P batch) e.wal).0 ≡ some x
      → Halts batch e
  commit-Halts batch e x h f =
      let end = failed-commit batch e x h f in
      let stopped : StorageEngine P = record e {
        wal = (P.log.write_batch (bytes_of P batch) e.wal).1;
        halted = true;
      } in
      record {
        answers = ap (λ t. t.0) end;
        layers =
            subst (SameLayers P e) (ap (λ t. t.1) (sym end))
              (record { active = refl; flushing = refl; sstables = refl });
        later = λ entry.
            subst (λ s. write P entry s ≡ (some writes_halted, s)) (ap (λ t. t.1) (sym end))
              (halted-write P entry stopped refl);
      }
