-- ===== src/Engine/Reads.antt =====
-- What a read of the engine returns: the history of its layers, as a sibling set.
use distributed_kv_data_stor.Prelude.{
  Str, ◌≡◌, refl, sym, ap, subst, ◌∙◌, not, Option, none, some, List, [], ◌∷◌, length, ltb, arith,
  Result-cases, inl, inr, ◌⊎◌, ◌↔◌, Result, ok, err,
}
use distributed_kv_data_stor.VectorClock.{Snapshot}
use distributed_kv_data_stor.Model.{DataItem}
use distributed_kv_data_stor.Versioning.{resolve, merge_siblings}
use distributed_kv_data_stor.Versioning.Cover.{CoveredBy, merge_siblings-CoveredBy}
use distributed_kv_data_stor.Versioning.Siblings.{IsAntichain, resolve-IsAntichain}
use distributed_kv_data_stor.MemTable
use distributed_kv_data_stor.MemTable.{MemTable, current, new, non_empty}
use distributed_kv_data_stor.MemTable.Laws.{IsBtree, IsPointerTest}
use distributed_kv_data_stor.Persister.{StorageError, Found}
use distributed_kv_data_stor.Persister.Contract.{is_empty}
use distributed_kv_data_stor.Engine.{
  Parts, StorageEngine, merge_memtable, merge_flushing, merge_found, merge_tables, merge_layers,
  read_result, get_all,
}

-- What the engine relies on of the tree and of the equality of pointers.
pub record IsLawful {V R : Type 0} (P : Parts V R) : Type 0 where
  pub tree : IsBtree P.tree
  pub pointers : IsPointerTest P.same

-- What a table found covers the clock.
abbrev pub FoundCovers :
    {V : Type 0} → Result StorageError (Option (List (DataItem V))) → Snapshot → Type 0
FoundCovers (err e) c = ⊥
FoundCovers (ok none) c = ⊥
FoundCovers (ok (some items)) c = CoveredBy items c

pub merge-IsAntichain :
    {V : Type 0} (a b : List (DataItem V)) → IsAntichain a → IsAntichain (merge_siblings a b)
unfolding merge_siblings
merge-IsAntichain a [] h = h
merge-IsAntichain a (item ∷ b) h =
    merge-IsAntichain (resolve a item) b (resolve-IsAntichain a item h)

pub ok-injective : {A E : Type 0} (a b : A) → ◌≡◌ {A = Result E A} (ok a) (ok b) → a ≡ b
ok-injective a b h = ground arith

found-length : {A : Type 0} (l : List A) → ltb 0 (length l) ≡ not (is_empty l)
found-length [] = refl
found-length (a ∷ l) = ground arith

module _ {V R : Type 0} (P : Parts V R) where
  -- The versions of a key in a memtable.
  abbrev pub held : Str → MemTable P.tree.Tree → List (DataItem V)
  held key m = current P.tree P.marshal P.same key m

  abbrev pub FlushingCovers : Str → Option (MemTable P.tree.Tree) → Snapshot → Type 0
  FlushingCovers key none c = ⊥
  FlushingCovers key (some m) c = CoveredBy (held key m) c

  abbrev pub TablesCover : Str → List P.tables.Table → Snapshot → Type 0
  TablesCover key [] c = ⊥
  TablesCover key (sst ∷ sstables) c =
      FoundCovers (P.tables.get_all key sst) c ⊎ TablesCover key sstables c

  -- Some layer of the engine has a version of the key that covers the clock.
  abbrev pub LayersCover : Str → StorageEngine P → Snapshot → Type 0
  LayersCover key e c =
      CoveredBy (held key e.active) c
      ⊎ (FlushingCovers key e.flushing c ⊎ TablesCover key e.sstables c)

  -- A memtable that holds nothing of the key merges nothing.
  merge_found-non_empty :
      (items merged : List (DataItem V))
      → merge_found P (non_empty items) merged ≡ merge_siblings merged items
  unfolding merge_found non_empty merge_siblings
  merge_found-non_empty [] merged = refl
  merge_found-non_empty (item ∷ items) merged = refl

  pub merge_memtable-eq :
      (key : Str) (m : MemTable P.tree.Tree) (merged : List (DataItem V))
      → merge_memtable P key m merged ≡ merge_siblings merged (held key m)
  unfolding merge_memtable MemTable.get_all
  merge_memtable-eq key m merged = merge_found-non_empty (held key m) merged

  merge_memtable-CoveredBy :
      (key : Str) (m : MemTable P.tree.Tree) (merged : List (DataItem V)) (c : Snapshot)
      → CoveredBy (merge_memtable P key m merged) c
        ↔ (CoveredBy merged c ⊎ CoveredBy (held key m) c)
  merge_memtable-CoveredBy key m merged c =
      rw (merge_memtable-eq key m merged) (merge_siblings-CoveredBy merged (held key m) c)

  merge_flushing-CoveredBy :
      (key : Str) (o : Option (MemTable P.tree.Tree)) (merged : List (DataItem V)) (c : Snapshot)
      → CoveredBy (merge_flushing P key o merged) c ↔ (CoveredBy merged c ⊎ FlushingCovers key o c)
  unfolding merge_flushing
  merge_flushing-CoveredBy key none merged c = (inl, λ s. elim s [ inl w ↦ w | inr w ↦ absurd w ])
  merge_flushing-CoveredBy key (some m) merged c = merge_memtable-CoveredBy key m merged c

  merge_found-CoveredBy :
      (o : Option (List (DataItem V))) (merged : List (DataItem V)) (c : Snapshot)
      → CoveredBy (merge_found P o merged) c ↔ (CoveredBy merged c ⊎ FoundCovers (ok o) c)
  unfolding merge_found
  merge_found-CoveredBy none merged c = (inl, λ s. elim s [ inl w ↦ w | inr w ↦ absurd w ])
  merge_found-CoveredBy (some items) merged c = merge_siblings-CoveredBy merged items c

  merge_found-IsAntichain :
      (o : Option (List (DataItem V))) (merged : List (DataItem V))
      → IsAntichain merged
      → IsAntichain (merge_found P o merged)
  unfolding merge_found
  merge_found-IsAntichain none merged h = h
  merge_found-IsAntichain (some items) merged h = merge-IsAntichain merged items h

  merge_memtable-IsAntichain :
      (key : Str) (m : MemTable P.tree.Tree) (merged : List (DataItem V))
      → IsAntichain merged
      → IsAntichain (merge_memtable P key m merged)
  merge_memtable-IsAntichain key m merged h =
      rw (merge_memtable-eq key m merged) (merge-IsAntichain merged (held key m) h)

  merge_flushing-IsAntichain :
      (key : Str) (o : Option (MemTable P.tree.Tree)) (merged : List (DataItem V))
      → IsAntichain merged
      → IsAntichain (merge_flushing P key o merged)
  unfolding merge_flushing
  merge_flushing-IsAntichain key none merged h = h
  merge_flushing-IsAntichain key (some m) merged h = merge_memtable-IsAntichain key m merged h

  merge_tables-CoveredBy :
      (key : Str) (sstables : List P.tables.Table) (merged out : List (DataItem V)) (c : Snapshot)
      → merge_tables P key sstables merged ≡ ok out
      → CoveredBy out c ↔ (CoveredBy merged c ⊎ TablesCover key sstables c)
  unfolding merge_tables
  merge_tables-CoveredBy key [] merged out c h =
      subst (λ l. CoveredBy l c ↔ (CoveredBy merged c ⊎ ⊥)) (ok-injective merged out h)
        (inl, λ s. elim s [ inl w ↦ w | inr w ↦ absurd w ])
  merge_tables-CoveredBy key (sst ∷ sstables) merged out c h =
      elim (Result-cases (P.tables.get_all key sst)) [
        | inr (e, k) ↦ absurd (ground (arith, k))
        | inl (found, k) ↦
            let rest =
              merge_tables-CoveredBy key sstables (merge_found P found merged) out c
                (ground (arith, k)) in
            let one = merge_found-CoveredBy found merged c in
            rw k (
              λ w. elim (rest.0 w) [
                | inl v ↦ elim (one.0 v) [ inl u ↦ inl u | inr u ↦ inr (inl u) ]
                | inr v ↦ inr (inr v)
              ],
              λ s. rest.1 (elim s [
                | inl w ↦ inl (one.1 (inl w))
                | inr t ↦ elim t [ inl u ↦ inl (one.1 (inr u)) | inr v ↦ inr v ]
              ]),
            )
      ]

  -- A read that succeeds covers exactly what the layers cover.
  pub get_all-LayersCover :
      (key : Str) (e : StorageEngine P) (r : Found V) (c : Snapshot)
      → get_all P key e ≡ ok r
      → CoveredBy r.items c ↔ LayersCover key e c
  unfolding get_all merge_layers read_result
  get_all-LayersCover key e r c h =
      let first : List (DataItem V) = merge_memtable P key e.active [] in
      let second : List (DataItem V) = merge_flushing P key e.flushing first in
      elim (Result-cases (merge_tables P key e.sstables second)) [
        | inr (bad, k) ↦ absurd (ground (arith, k))
        | inl (out, k) ↦
            let same_items : out ≡ r.items = ground (arith, k) in
            let a = merge_memtable-CoveredBy key e.active [] c in
            let b = merge_flushing-CoveredBy key e.flushing first c in
            let t = merge_tables-CoveredBy key e.sstables second out c k in
            subst (λ l. CoveredBy l c ↔ LayersCover key e c) same_items
              (
                λ w. elim (t.0 w) [
                  | inl v ↦ elim (b.0 v) [
                    | inl u ↦ elim (a.0 u) [ inl z ↦ elim z.mem [ ] | inr z ↦ inl z ]
                    | inr u ↦ inr (inl u)
                  ]
                  | inr v ↦ inr (inr v)
                ],
                λ s. t.1 (elim s [
                  | inl w ↦ inl (b.1 (inl (a.1 (inr w))))
                  | inr q ↦ elim q [ inl w ↦ inl (b.1 (inr w)) | inr w ↦ inr w ]
                ]),
              )
      ]

  merge_tables-IsAntichain :
      (key : Str) (sstables : List P.tables.Table) (merged out : List (DataItem V))
      → merge_tables P key sstables merged ≡ ok out
      → IsAntichain merged
      → IsAntichain out
  unfolding merge_tables
  merge_tables-IsAntichain key [] merged out h a = subst IsAntichain (ok-injective merged out h) a
  merge_tables-IsAntichain key (sst ∷ sstables) merged out h a =
      elim (Result-cases (P.tables.get_all key sst)) [
        | inr (e, k) ↦ absurd (ground (arith, k))
        | inl (found, k) ↦
            merge_tables-IsAntichain key sstables (merge_found P found merged) out
              (ground (arith, k)) (merge_found-IsAntichain found merged a)
      ]

  -- A read that succeeds returns a sibling set, and tells whether it has a version.
  pub record Reads (r : Found V) : Type 0 where
    pub siblings : IsAntichain r.items
    pub tells : r.found ≡ not (is_empty r.items)

  pub get_all-Reads :
      (key : Str) (e : StorageEngine P) (r : Found V) → get_all P key e ≡ ok r → Reads r
  unfolding get_all merge_layers read_result
  get_all-Reads key e r h =
      let first : List (DataItem V) = merge_memtable P key e.active [] in
      let second : List (DataItem V) = merge_flushing P key e.flushing first in
      elim (Result-cases (merge_tables P key e.sstables second)) [
        | inr (bad, k) ↦ absurd (ground (arith, k))
        | inl (out, k) ↦
            let same_items : out ≡ r.items = ground (arith, k) in
            let tells : ltb 0 (length out) ≡ r.found = ground (arith, k) in
            record {
              siblings = subst IsAntichain same_items (
                  merge_tables-IsAntichain key e.sstables second out k (
                    merge_flushing-IsAntichain key e.flushing first
                      (merge_memtable-IsAntichain key e.active [] tt)));
              tells = sym tells ∙ found-length out ∙ ap (λ l. not (is_empty l)) same_items;
            }
      ]
