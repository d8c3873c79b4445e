-- ===== src/Engine/Origins.antt =====
-- What a read of the layers returns follows what the first of them holds.
use distributed_kv_data_stor.Prelude.{
  Str, ◌≡◌, subst, Option, none, some, List, [], ◌∷◌, arith, Result-cases, ok, inl, inr,
}
use distributed_kv_data_stor.Model.{DataItem}
use distributed_kv_data_stor.Versioning.Origins.{Follows, merge-Follows}
use distributed_kv_data_stor.MemTable
use distributed_kv_data_stor.MemTable.{MemTable}
use distributed_kv_data_stor.Persister.{Found}
use distributed_kv_data_stor.Engine.{
  Parts, StorageEngine, merge_found, merge_memtable, merge_flushing, merge_tables, merge_layers,
  read_result,
}
use distributed_kv_data_stor.Engine.Reads.{ok-injective}

module _ {V R : Type 0} (P : Parts V R) where
  -- Two reads whose first layers follow one another do so after the other layers.
  merge_found-Follows :
      (item : DataItem V) (o : Option (List (DataItem V))) (old new : List (DataItem V))
      → Follows item old new
      → Follows item (merge_found P o old) (merge_found P o new)
  unfolding merge_found
  merge_found-Follows item none old new f = f
  merge_found-Follows item (some items) old new f = merge-Follows item old new items f

  pub merge_flushing-Follows :
      (item : DataItem V) (key : Str) (o : Option (MemTable P.tree.Tree))
      (old new : List (DataItem V))
      → Follows item old new
      → Follows item (merge_flushing P key o old) (merge_flushing P key o new)
  unfolding merge_flushing merge_memtable
  merge_flushing-Follows item key none old new f = f
  merge_flushing-Follows item key (some m) old new f =
      merge_found-Follows item (MemTable.get_all P.tree P.marshal P.same key m) old new f

  pub merge_tables-from :
      (item : DataItem V) (key : Str) (sstables : List P.tables.Table)
      (old new before after : List (DataItem V))
      → Follows item old new
      → merge_tables P key sstables old ≡ ok before
      → merge_tables P key sstables new ≡ ok after
      → Follows item before after
  unfolding merge_tables
  merge_tables-from item key [] old new before after f h k =
      subst (λ l. Follows item l after) (ok-injective old before h)
        (subst (λ l. Follows item old l) (ok-injective new after k) f)
  merge_tables-from item key (sst ∷ sstables) old new before after f h k =
      elim (Result-cases (P.tables.get_all key sst)) [
        | inr (e, g) ↦ absurd (ground (arith, g, h))
        | inl (found, g) ↦
            merge_tables-from item key sstables (merge_found P found old) (merge_found P found new)
              before after (merge_found-Follows item found old new f) (ground (arith, g, h))
              (ground (arith, g, k))
      ]

  -- A read of the layers returns what the merge of the tables returns.
  pub layers_read :
      (key : Str) (e : StorageEngine P) (active : MemTable P.tree.Tree) (r : Found V)
      → merge_layers P key active e.flushing e.sstables ≡ ok r
      → merge_tables P key e.sstables
          (merge_flushing P key e.flushing (merge_memtable P key active []))
        ≡ ok r.items
  unfolding merge_layers read_result
  layers_read key e active r h =
      elim (Result-cases (
        merge_tables P key e.sstables
          (merge_flushing P key e.flushing (merge_memtable P key active [])))) [
            | inr (bad, k) ↦ absurd (ground (arith, k, h))
            | inl (out, k) ↦ ground (arith, k, h)
          ]
