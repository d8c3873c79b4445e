-- ===== src/Engine/Commits.antt =====
-- How a write that is committed alone ends, and that freezing a memtable changes no read.
use distributed_kv_data_stor.Prelude.{
  ◌+◌, Str, ◌≡◌, refl, sym, ap, subst, ◌∙◌, true, false, none, some, [], ◌∷◌, arith, Bool-cases,
  Option-cases, Result-cases, inl, inr, ◌⊎◌,
}
use distributed_kv_data_stor.Versioning.{merge_siblings}
use distributed_kv_data_stor.MemTable.{new}
use distributed_kv_data_stor.MemTable.Covers.{current-new}
use distributed_kv_data_stor.Persister.{StorageError, writes_halted, storage_failed}
use distributed_kv_data_stor.Engine.{
  Parts, StorageEngine, WalEntry, merge_memtable, merge_flushing, merge_tables, merge_layers,
  read_result, get_all,
}
use distributed_kv_data_stor.Engine.Writes.{
  apply, swap, swap_if_due, bytes_of, answer_all, answer_of, commit, write,
}
use distributed_kv_data_stor.Engine.Reads.{IsLawful, merge_memtable-eq}

module _ {V R : Type 0} (P : Parts V R) where
  -- The same layers, so the same reads.
  pub record SameLayers (e e' : StorageEngine P) : Type 0 where
    pub active : e'.active ≡ e.active
    pub flushing : e'.flushing ≡ e.flushing
    pub sstables : e'.sstables ≡ e.sstables

  pub SameLayers-get_all :
      (key : Str) (e e' : StorageEngine P) → SameLayers e e' → get_all P key e' ≡ get_all P key e
  unfolding get_all
  SameLayers-get_all key e e' h =
      ap (λ a. merge_layers P key a e'.flushing e'.sstables) h.active
      ∙ ap (λ f. merge_layers P key e.active f e'.sstables) h.flushing
      ∙ ap (λ t. merge_layers P key e.active e.flushing t) h.sstables

  -- A new memtable in front of the old one, which is frozen.
  pub frozen-get_all :
      IsLawful P
      → (key : Str) (e : StorageEngine P) → e.flushing ≡ none
      → merge_layers P key (new P.tree P.marshal P.same e.max_bytes) (some e.active) e.sstables
        ≡ get_all P key e
  unfolding get_all merge_layers merge_flushing merge_siblings
  frozen-get_all lawful key e free =
      let nothing : merge_memtable P key (new P.tree P.marshal P.same e.max_bytes) [] ≡ [] =
        merge_memtable-eq P key (new P.tree P.marshal P.same e.max_bytes) []
        ∙ ap (merge_siblings [])
            (current-new P.tree lawful.tree P.marshal P.same key e.max_bytes) in
      ap (λ l. read_result P (merge_tables P key e.sstables (merge_memtable P key e.active l)))
        nothing
      ∙ ap
          (λ f. read_result P (
            merge_tables P key e.sstables
              (merge_flushing P key f (merge_memtable P key e.active []))))
          (sym free)

  pub swap-get_all :
      IsLawful P
      → (key : Str) (e : StorageEngine P) → e.flushing ≡ none
      → get_all P key (swap P e) ≡ get_all P key e
  unfolding swap get_all
  swap-get_all lawful key e free = elim (Result-cases (P.log.rotate e.wal).0) [
    | inr (x, k) ↦ rw (k, swap) refl
    | inl (sealed, k) ↦ rw (k, swap) (frozen-get_all lawful key e free)
  ]

  -- A write that changed nothing.
  pub record Refused (entry : WalEntry V) (e : StorageEngine P) : Type 0 where
    pub error : StorageError
    pub answer : (write P entry e).0 ≡ some error
    pub layers : SameLayers e (write P entry e).1

  -- A write that the log took.
  pub record Committed (entry : WalEntry V) (e : StorageEngine P) : Type 0 where
    pub bytes : R
    pub wal : P.log.Wal
    pub answer :
        (write P entry e).0
        ≡ answer_of P
            (apply P
              (record { entry = entry; bytes = bytes } ∷ [])
              false
              (record e { wal = wal; writes = e.writes + 1 })).answers
    pub engine :
        (write P entry e).1
        ≡ swap_if_due P (
            apply P
              (record { entry = entry; bytes = bytes } ∷ [])
              false
              (record e { wal = wal; writes = e.writes + 1 }))

  unchanged : (e : StorageEngine P) → SameLayers e e
  unchanged e = record { active = refl; flushing = refl; sstables = refl }

  refuse :
      (entry : WalEntry V) (e e' : StorageEngine P) (x : StorageError)
      → write P entry e ≡ (some x, e')
      → SameLayers e e'
      → Refused entry e
  refuse entry e e' x h layers = record {
    error = x;
    answer = ap (λ t. t.0) h;
    layers = subst (SameLayers e) (ap (λ t. t.1) (sym h)) layers;
  }

  pub halted-write :
      (entry : WalEntry V) (e : StorageEngine P)
      → e.halted ≡ true
      → write P entry e ≡ (some writes_halted, e)
  unfolding write
  halted-write entry e h = ground (arith, h)

  pub write-cases : (entry : WalEntry V) (e : StorageEngine P) → Refused entry e ⊎ Committed entry e
  unfolding write commit bytes_of answer_all answer_of
  write-cases entry e = elim (Bool-cases e.halted) [
    | inl h ↦ inl (refuse entry e e writes_halted (halted-write entry e h) (unchanged e))
    | inr h ↦ elim (Option-cases (P.encode entry)) [
      | inl k ↦ inl (refuse entry e e storage_failed (ground (arith, h, k)) (unchanged e))
      | inr (bytes, k) ↦ elim (Bool-cases e.writes_closed) [
        | inl c ↦ inl (refuse entry e e storage_failed (ground (arith, h, k, c)) (unchanged e))
        | inr c ↦
            let wal : P.log.Wal = (P.log.write_batch (bytes ∷ []) e.wal).1 in
            elim (Option-cases (P.log.write_batch (bytes ∷ []) e.wal).0) [
              | inl w ↦
                  let answers =
                    apply P (record { entry = entry; bytes = bytes } ∷ []) false
                      (record e { wal = wal; writes = e.writes + 1 }) in
                  let same : write P entry e
                      ≡ (answer_of P answers.answers, swap_if_due P answers) =
                    ground (arith, h, k, c, w) in
                  inr (record {
                    bytes = bytes;
                    wal = wal;
                    answer = ap (λ t. t.0) same;
                    engine = ap (λ t. t.1) same;
                  })
              | inr (x, w) ↦ inl (
                  refuse entry e (record e { wal = wal; halted = true }) writes_halted
                    (ground (arith, h, k, c, w))
                    (record { active = refl; flushing = refl; sstables = refl }))
            ]
      ]
    ]
  ]
