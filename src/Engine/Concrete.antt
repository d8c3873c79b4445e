-- ===== src/Engine/Concrete.antt =====
-- Parts of an engine that keep the laws, for concrete inputs: a log with a fixed answer, and tables
-- that are the lists of their entries.
use distributed_kv_data_stor.Prelude.{
  iff_trans, ℕ, Str, str_eq, str_eq_iff, ◌≡◌, refl, ap₂, subst, Bool, true, false, ◌&&◌, Option,
  some, List, [], ◌∷◌, ◌↔◌, inl, inr, Memᴰ, ok, if◌then◌else◌, arith, Bool-cases,
}
use mathlib.Core.List
use distributed_kv_data_stor.VectorClock.{Snapshot}
use distributed_kv_data_stor.VectorClock.Order.{◌⊑◌}
use distributed_kv_data_stor.Model.{DataItem}
use distributed_kv_data_stor.Versioning.Cover.{CoveredBy, clock_of}
use distributed_kv_data_stor.Compaction.{Entry}
use distributed_kv_data_stor.Compaction.Merging.{EnteredBy}
use distributed_kv_data_stor.MemTable.{non_empty}
use distributed_kv_data_stor.MemTable.Covers.{EnteredBy-cons}
use distributed_kv_data_stor.MemTable.Trees.{
  list_tree, list_tree-IsBtree, same_item, same_item-IsPointerTest,
}
use distributed_kv_data_stor.Persister.{StorageError}
use distributed_kv_data_stor.Engine.{Log, Tables, Parts, WalEntry}
use distributed_kv_data_stor.Engine.Reads.{IsLawful, FoundCovers}
use distributed_kv_data_stor.Engine.Replacing.{IsTableTest, TablesListed}

-- A log that answers every write alike, and whose rotations succeed.
abbrev pub steady_log : Log (WalEntry ℕ)
steady_log = record {
  Wal = Option StorageError;
  write_batch = λ records wal. (wal, wal);
  rotate = λ wal. (ok 1, wal);
  delete_through = λ sealed wal. wal;
}

abbrev entry_of : Str → DataItem ℕ → Entry ℕ
entry_of key item = record { key = key; item = item }

unfoldable pub items_of : Str → List (Entry ℕ) → List (DataItem ℕ)
unfolding str_eq
items_of key [] = []
items_of key (e ∷ entries) =
    let rest = items_of key entries in if str_eq e.key key then e.item ∷ rest else rest

unfoldable pub keys_of : List (Entry ℕ) → List Str
keys_of [] = []
keys_of (e ∷ entries) = e.key ∷ keys_of entries

unfoldable pub same_entries : List (Entry ℕ) → List (Entry ℕ) → Bool
unfolding str_eq same_item
same_entries [] [] = true
same_entries [] (b ∷ bs) = false
same_entries (a ∷ as') [] = false
same_entries (a ∷ as') (b ∷ bs) =
    str_eq a.key b.key && same_item a.item b.item && same_entries as' bs

pub same_entries-IsTableTest : IsTableTest same_entries
unfolding same_entries
same_entries-IsTableTest [] [] h = refl
same_entries-IsTableTest [] (b ∷ bs) h = absurd (ground arith)
same_entries-IsTableTest (a ∷ as') [] h = absurd (ground arith)
same_entries-IsTableTest (a ∷ as') (b ∷ bs) h =
    let key : a.key ≡ b.key = (str_eq_iff a.key b.key).0 (ground arith) in
    let item : a.item ≡ b.item = same_item-IsPointerTest a.item b.item (ground arith) in
    let rest : as' ≡ bs = same_entries-IsTableTest as' bs (ground arith) in
    ap₂ (λ e l. e ∷ l) (ap₂ (λ k i. entry_of k i) key item) rest

-- A table is its entries.
abbrev pub list_tables : Tables ℕ
list_tables = record {
  Table = List (Entry ℕ);
  get_all = λ key t. ok (non_empty (items_of key t));
  keys = keys_of;
  all = λ t. ok t;
  size = λ t. 1;
  same_table = same_entries;
}

abbrev pub parts : Parts ℕ (WalEntry ℕ)
parts = record {
  tree = list_tree (List (DataItem ℕ));
  log = steady_log;
  tables = list_tables;
  marshal = λ v. some (v ∷ []);
  same = same_item;
  encode = λ entry. some entry;
}

pub parts-IsLawful : IsLawful parts
parts-IsLawful = record {
  tree = list_tree-IsBtree (List (DataItem ℕ));
  pointers = same_item-IsPointerTest;
}

non_empty-FoundCovers :
    (items : List (DataItem ℕ)) (c : Snapshot)
    → FoundCovers (ok (non_empty items)) c ↔ CoveredBy items c
unfolding non_empty
non_empty-FoundCovers [] c = ((λ f. absurd f), (λ w. elim w.mem [ ]))
non_empty-FoundCovers (item ∷ items) c = ((λ w. w), (λ w. w))

items_of-EnteredBy :
    (key : Str) (entries : List (Entry ℕ)) (c : Snapshot)
    → CoveredBy (items_of key entries) c ↔ EnteredBy entries key c
unfolding items_of
items_of-EnteredBy key [] c = ((λ w. elim w.mem [ ]), (λ w. elim w.mem [ ]))
items_of-EnteredBy key (e ∷ entries) c =
    let cons = EnteredBy-cons e entries key c in
    let rest = items_of-EnteredBy key entries c in
    elim (Bool-cases (str_eq e.key key)) [
      | inr ne ↦ rw ne (
        λ w. cons.1 (inr (rest.0 w)),
        λ w. elim (cons.0 w) [
          | inl q ↦ absurd (ground (arith, str_eq_iff e.key key))
          | inr v ↦ rest.1 v
        ],
      )
      | inl at ↦
          let one : e.key ≡ key = (str_eq_iff e.key key).0 at in
          rw at (
            λ w. elim (List.Memᴰ.cases_cons w.mem) [
              | inl f ↦ cons.1 (inl (one, subst (λ (x : DataItem ℕ). c ⊑ clock_of x) f w.below))
              | inr k ↦ cons.1 (inr (rest.0 (record { by = w.by; mem = k; below = w.below })))
            ],
            λ w. elim (cons.0 w) [
              | inl q ↦ record { by = e.item; mem = Memᴰ.head refl; below = q.1 }
              | inr v ↦
                  let u = rest.1 v in record { by = u.by; mem = Memᴰ.tail u.mem; below = u.below }
            ],
          )
    ]

pub holds_entries :
    (t : List (Entry ℕ)) (key : Str) (c : Snapshot)
    → FoundCovers (list_tables.get_all key t) c ↔ EnteredBy t key c
holds_entries t key c =
    iff_trans (non_empty-FoundCovers (items_of key t) c) (items_of-EnteredBy key t c)

pub parts-TablesListed : TablesListed parts
parts-TablesListed t entries e key c =
    let same : t ≡ entries = ground arith in
    subst (λ l. FoundCovers (list_tables.get_all key t) c ↔ EnteredBy l key c) same
      (holds_entries t key c)
