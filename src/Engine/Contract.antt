-- ===== src/Engine/Contract.antt =====
-- The engine keeps what internal/store/persister.go promises of the versions that a read returns.
use distributed_kv_data_stor.Prelude.{
  ◌+◌, Str, str_eq, str_eq_iff, ◌≡◌, ◌≢◌, refl, sym, ap, ap₂, ◌∙◌, Bool, true, false, ◌&&◌, Option,
  none, some, List, [], ◌∷◌, arith, Bool-cases, inl, inr, ◌⊎◌, ◌↔◌, Result, ok, Memᴰ,
}
use mathlib.Core.Option.{some-ne-none}
use distributed_kv_data_stor.VectorClock.{Snapshot}
use distributed_kv_data_stor.VectorClock.Order.{◌⊑◌}
use distributed_kv_data_stor.Model.{DataItem}
use distributed_kv_data_stor.Versioning.{merge_siblings}
use distributed_kv_data_stor.Versioning.Cover.{clock_of, CoveredBy}
use distributed_kv_data_stor.MemTable
use distributed_kv_data_stor.MemTable.{MemTable}
use distributed_kv_data_stor.MemTable.Laws.{IsPointerTest}
use distributed_kv_data_stor.MemTable.Covers.{
  put-CoveredBy, put-elsewhere, current-put, current-replace,
}
use distributed_kv_data_stor.MemTable.Origins.{put-Follows}
use distributed_kv_data_stor.Versioning.Origins.{Follows}
use distributed_kv_data_stor.Engine.Origins.{merge_flushing-Follows, merge_tables-from, layers_read}
use distributed_kv_data_stor.Persister.{StorageError, Found}
use distributed_kv_data_stor.Persister.Contract.{IsMergingStore}
use distributed_kv_data_stor.Engine.{
  Parts, StorageEngine, op_put, op_restore, merge_memtable, merge_flushing, merge_tables,
  merge_layers, read_result, get_all,
}
use distributed_kv_data_stor.Engine.Writes.{
  Applied, no_flush, apply, swap_if_due, same_versions, verify, replace_and_verify, write, put,
  restore, as_persister, answer_of,
}
use distributed_kv_data_stor.Engine.Reads.{
  IsLawful, held, merge_memtable-eq, get_all-LayersCover, get_all-Reads,
}
use distributed_kv_data_stor.Engine.Commits.{SameLayers-get_all, swap-get_all, write-cases}

pub no_flush-none : {A : Type 0} (o : Option A) → no_flush o ≡ true → o ≡ none
unfolding no_flush
no_flush-none none h = refl
no_flush-none (some a) h = absurd (ground arith)

same_versions-eq :
    {V : Type 0} (same : DataItem V → DataItem V → Bool)
    → IsPointerTest same
    → (xs ys : List (DataItem V)) → same_versions same xs ys ≡ true
    → xs ≡ ys
unfolding same_versions
same_versions-eq same pointers [] [] h = refl
same_versions-eq same pointers [] (y ∷ ys) h = absurd (ground arith)
same_versions-eq same pointers (x ∷ xs) [] h = absurd (ground arith)
same_versions-eq same pointers (x ∷ xs) (y ∷ ys) h =
    let first : x ≡ y = pointers x y (ground arith) in
    let rest : xs ≡ ys = same_versions-eq same pointers xs ys (ground arith) in
    ap₂ (λ a l. a ∷ l) first rest

module _ {V R : Type 0} (P : Parts V R) (lawful : IsLawful P) where
  swap_if_due-get_all :
      (key : Str) (a : Applied P) → get_all P key (swap_if_due P a) ≡ get_all P key a.engine
  unfolding swap_if_due
  swap_if_due-get_all key a = elim (Bool-cases (a.crossed && no_flush a.engine.flushing)) [
    | inr e ↦ rw (e, swap_if_due) refl
    | inl e ↦
        let free : a.engine.flushing ≡ none = no_flush-none a.engine.flushing (ground (arith, e)) in
        rw (e, swap_if_due) (swap-get_all P lawful key a.engine free)
  ]

  -- The reads of a key depend on the active memtable only by what it holds of the key.
  held-get_all :
      (key : Str) (e : StorageEngine P) (active : MemTable P.tree.Tree)
      → held P key active ≡ held P key e.active
      → merge_layers P key active e.flushing e.sstables ≡ get_all P key e
  unfolding get_all merge_layers
  held-get_all key e active h =
      let first : merge_memtable P key active [] ≡ merge_memtable P key e.active [] =
        merge_memtable-eq P key active []
        ∙ ap (merge_siblings []) h
        ∙ sym (merge_memtable-eq P key e.active []) in
      ap (λ l. read_result P (merge_tables P key e.sstables (merge_flushing P key e.flushing l)))
        first

  put_merges :
      (key : Str) (item : DataItem V) (e e' : StorageEngine P) (r r' : Found V)
      → put P key item e ≡ (none, e')
      → get_all P key e ≡ ok r
      → get_all P key e' ≡ ok r'
      → (c : Snapshot) → CoveredBy r'.items c ↔ (CoveredBy r.items c ⊎ (c ⊑ clock_of item))
  unfolding put apply
  put_merges key item e e' r r' h k l c = elim (write-cases P (op_put key item) e) [
    | inl no_write ↦ absurd (some-ne-none no_write.error (sym no_write.answer ∙ ap (λ t. t.0) h))
    | inr w ↦
        let after : StorageEngine P = record e {
          wal = w.wal;
          writes = e.writes + 1;
          active = (MemTable.put P.tree P.marshal P.same key item e.active).1;
        } in
        let a =
          apply P (record { entry = op_put key item; bytes = w.bytes } ∷ []) false
            (record e { wal = w.wal; writes = e.writes + 1 }) in
        let read : get_all P key after ≡ ok r' =
          sym (swap_if_due-get_all key a)
          ∙ ap (get_all P key) (sym w.engine ∙ ap (λ t. t.1) h)
          ∙ l in
        let new = get_all-LayersCover P key after r' c read in
        let old = get_all-LayersCover P key e r c k in
        let table =
          put-CoveredBy P.tree lawful.tree P.marshal P.same lawful.pointers key item e.active c in
        (
          λ v. elim (new.0 v) [
            | inl u ↦ elim (table.0 u) [ inl z ↦ inl (old.1 (inl z)) | inr z ↦ inr z ]
            | inr u ↦ inl (old.1 (inr u))
          ],
          λ s. new.1 (elim s [
            | inl v ↦ elim (old.0 v) [ inl u ↦ inl (table.1 (inl u)) | inr u ↦ inr u ]
            | inr z ↦ inl (table.1 (inr z))
          ]),
        )
  ]

  put_from :
      (key : Str) (item : DataItem V) (e e' : StorageEngine P) (r r' : Found V)
      → put P key item e ≡ (none, e')
      → get_all P key e ≡ ok r
      → get_all P key e' ≡ ok r'
      → (x : DataItem V) → Memᴰ x r'.items
      → Memᴰ x r.items ⊎ (x ≡ item)
  unfolding put apply get_all
  put_from key item e e' r r' h k l x m = elim (write-cases P (op_put key item) e) [
    | inl no_write ↦ absurd (some-ne-none no_write.error (sym no_write.answer ∙ ap (λ t. t.0) h))
    | inr w ↦
        let active = (MemTable.put P.tree P.marshal P.same key item e.active).1 in
        let a =
          apply P (record { entry = op_put key item; bytes = w.bytes } ∷ []) false
            (record e { wal = w.wal; writes = e.writes + 1 }) in
        let read : merge_layers P key active e.flushing e.sstables ≡ ok r' =
          sym (swap_if_due-get_all key a)
          ∙ ap (get_all P key) (sym w.engine ∙ ap (λ t. t.1) h)
          ∙ l in
        let first : Follows item (merge_memtable P key e.active [])
            (merge_memtable P key active []) =
          rw
            (
              merge_memtable-eq P key e.active [],
              merge_memtable-eq P key active [],
              current-put P.tree lawful.tree P.marshal P.same key item e.active,
            )
            (put-Follows P.same lawful.pointers item (held P key e.active)) in
        (merge_tables-from P item key e.sstables _ _ r.items r'.items
            (merge_flushing-Follows P item key e.flushing _ _ first)
            (layers_read P key e e.active r k) (layers_read P key e active r' read)).from
          x m
  ]

  put-elsewhere_read :
      (key other : Str) (item : DataItem V) (e : StorageEngine P)
      → key ≢ other
      → get_all P other (put P key item e).1 ≡ get_all P other e
  unfolding put apply get_all
  put-elsewhere_read key other item e ne = elim (write-cases P (op_put key item) e) [
    | inl no_write ↦ SameLayers-get_all P other e (write P (op_put key item) e).1 no_write.layers
    | inr w ↦
        let a =
          apply P (record { entry = op_put key item; bytes = w.bytes } ∷ []) false
            (record e { wal = w.wal; writes = e.writes + 1 }) in
        ap (get_all P other) w.engine
        ∙ swap_if_due-get_all other a
        ∙ held-get_all other e (MemTable.put P.tree P.marshal P.same key item e.active).1
            (put-elsewhere P.tree lawful.tree P.marshal P.same key other item e.active ne)
  ]

  verify-exact :
      (key : Str) (items : List (DataItem V)) (found : Result StorageError (Found V)) (r : Found V)
      → verify P found items ≡ none
      → found ≡ ok r
      → r.items ≡ items
  unfolding verify
  verify-exact key items found r h e =
      let checked : verify P (ok r) items ≡ none = ap (λ f. verify P f items) (sym e) ∙ h in
      same_versions-eq P.same lawful.pointers r.items items (ground (arith, checked))

  restore_replaces :
      (key : Str) (items : List (DataItem V)) (e e' : StorageEngine P) (r : Found V)
      → restore P key items e ≡ (none, e')
      → get_all P key e' ≡ ok r
      → r.items ≡ items
  unfolding restore apply replace_and_verify get_all swap_if_due answer_of
  restore_replaces key items e e' r h k = elim (write-cases P (op_restore key items) e) [
    | inl no_write ↦ absurd (some-ne-none no_write.error (sym no_write.answer ∙ ap (λ t. t.0) h))
    | inr w ↦
        let active = MemTable.replace P.tree P.marshal P.same key items e.active in
        let checked : verify P (merge_layers P key active e.flushing e.sstables) items ≡ none =
          sym w.answer ∙ ap (λ t. t.0) h in
        let read : merge_layers P key active e.flushing e.sstables ≡ ok r =
          ap (get_all P key) (sym w.engine ∙ ap (λ t. t.1) h) ∙ k in
        verify-exact key items (merge_layers P key active e.flushing e.sstables) r checked read
  ]

  restore-elsewhere_read :
      (key other : Str) (items : List (DataItem V)) (e : StorageEngine P)
      → key ≢ other
      → get_all P other (restore P key items e).1 ≡ get_all P other e
  unfolding restore apply replace_and_verify get_all swap_if_due
  restore-elsewhere_read key other items e ne = elim (write-cases P (op_restore key items) e) [
    | inl no_write ↦
        SameLayers-get_all P other e (write P (op_restore key items) e).1 no_write.layers
    | inr w ↦
        let apart : str_eq key other ≡ false = ground (arith, str_eq_iff key other) in
        let same_held : held P other (MemTable.replace P.tree P.marshal P.same key items e.active)
            ≡ held P other e.active =
          current-replace P.tree lawful.tree P.marshal P.same key other items e.active
          ∙ rw apart refl in
        ap (get_all P other) w.engine
        ∙ held-get_all other e (MemTable.replace P.tree P.marshal P.same key items e.active)
            same_held
  ]

  -- The engine is a merging store: a read returns a sibling set, a Put that succeeds covers what
  -- was there and the item and brings in no version but the item itself, a Restore that succeeds is read back verbatim, and other keys read as
  -- before whatever the log and the tables answer, frozen memtables included. It relies on the
  -- tree's laws, and on equal pointers pointing to one item.
  pub as_persister-IsMergingStore : IsMergingStore (as_persister P)
  as_persister-IsMergingStore = record {
    reads_siblings = λ key e r h. (get_all-Reads P key e r h).siblings;
    reads_found = λ key e r h. (get_all-Reads P key e r h).tells;
    put_merges = put_merges;
    put_from = put_from;
    put_elsewhere = put-elsewhere_read;
    restore_replaces = restore_replaces;
    restore_elsewhere = restore-elsewhere_read;
  }
