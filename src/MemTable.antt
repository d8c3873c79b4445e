-- ===== src/MemTable.antt =====
-- internal/storage/memtable/memtable.go: the sorted table of the latest writes, with the sibling set
-- of each key, newest first. The tree is a parameter (github.com/google/btree), as are the bytes of
-- a value (encoding/json) and the equality of pointers to items. A method holds the lock for its
-- whole body, so it is a function of the table.
pub mod Laws
pub mod Covers
pub mod Origins
pub mod Trees
use distributed_kv_data_stor.Prelude.{
  ℕ, ◌+◌, ◌-◌, Str, str_eq, Bool, true, false, not, ◌||◌, Option, none, some, List, [], ◌∷◌, ◌++◌,
  length, leb, if◌then◌else◌,
}
use distributed_kv_data_stor.GoMap.{GoMap, lookup, insert}
use distributed_kv_data_stor.Model.{DataItem}
use distributed_kv_data_stor.Versioning.{resolve, merge_siblings}
use distributed_kv_data_stor.Compaction.{Entry, versions_of, flatten_key}

-- The operations of a btree.BTree of entries that the table calls; an entry is a key and its items.
pub record Btree (I : Type 0) : Type 1 where
  pub Tree : Type 0
  pub empty : Tree
  pub get : Str → Tree → Option I
  pub replace_or_insert : Str → I → Tree → Tree
  pub delete : Str → Tree → Tree
  pub ascend : Tree → List (Str × I)

pub record MemTable (T : Type 0) : Type 0 where
  pub tree : T
  pub size_so_far : ℕ
  pub max_bytes : ℕ

module _ {V : Type 0} where
  -- estimatedSize; a value that cannot be marshaled counts as no bytes.
  unfoldable pub estimated_size : (V → Option Str) → Str → DataItem V → ℕ
  estimated_size marshal key item =
      length key + elim (marshal item.value) [ none ↦ 0 | some bytes ↦ length bytes ] + 64

  unfoldable pub set_size : (V → Option Str) → Str → List (DataItem V) → ℕ
  unfolding estimated_size
  set_size marshal key [] = 0
  set_size marshal key (item ∷ items) = estimated_size marshal key item + set_size marshal key items

  -- `s == item` for one of the survivors.
  unfoldable pub holds_item :
      (DataItem V → DataItem V → Bool) → DataItem V → List (DataItem V) → Bool
  holds_item same item [] = false
  holds_item same item (s ∷ survivors) = same s item || holds_item same item survivors

  unfoldable pub other_items :
      (DataItem V → DataItem V → Bool) → DataItem V → List (DataItem V) → List (DataItem V)
  other_items same item [] = []
  other_items same item (s ∷ survivors) =
      let rest = other_items same item survivors in if same s item then rest else s ∷ rest

  -- The two loops of Put: the item first, if it survived, then the others in their order.
  unfoldable pub newest_first :
      (DataItem V → DataItem V → Bool) → DataItem V → List (DataItem V) → List (DataItem V)
  unfolding holds_item other_items
  newest_first same item survivors =
      (if holds_item same item survivors then item ∷ [] else []) ++ other_items same item survivors

  -- The key of an entry is noted when older does not have it.
  unfoldable pub note_key : Str → List Str → GoMap (List (DataItem V)) → List Str
  unfolding lookup
  note_key key ks older = elim (lookup key older) [ none ↦ ks ++ key ∷ [] | some _ ↦ ks ]

  -- The first loop of PutBackOlder: the keys in the order of their first entries, and older.
  unfoldable pub group_older :
      List (Entry V) → List Str → GoMap (List (DataItem V)) → List Str × GoMap (List (DataItem V))
  unfolding note_key insert versions_of
  group_older [] ks older = (ks, older)
  group_older (e ∷ entries) ks older =
      group_older entries (note_key e.key ks older)
        (insert e.key (versions_of e.key older ++ e.item ∷ []) older)

  -- The loop of entriesLocked over what Ascend visits.
  unfoldable pub entries_of : List (Str × List (DataItem V)) → List (Entry V)
  unfolding flatten_key
  entries_of [] = []
  entries_of ((key, items) ∷ rest) = flatten_key key items ++ entries_of rest

  -- None for a key without versions.
  unfoldable pub non_empty : List (DataItem V) → Option (List (DataItem V))
  non_empty [] = none
  non_empty (item ∷ items) = some (item ∷ items)

  -- The keys that Ascend visits.
  unfoldable pub tree_keys : List (Str × List (DataItem V)) → List Str
  tree_keys [] = []
  tree_keys ((key, items) ∷ rest) = key ∷ tree_keys rest

module _ {V : Type 0} (B : Btree (List (DataItem V))) (marshal : V → Option Str)
    (same : DataItem V → DataItem V → Bool) where
  unfoldable pub new : ℕ → MemTable B.Tree
  new max_bytes = record { tree = B.empty; size_so_far = 0; max_bytes = max_bytes }

  -- No items stand for nil.
  unfoldable pub current : Str → MemTable B.Tree → List (DataItem V)
  current key m = elim (B.get key m.tree) [ none ↦ [] | some items ↦ items ]

  -- The size counts the old set, so the difference is never below zero.
  unfoldable pub replace_set :
      Str → List (DataItem V) → List (DataItem V) → MemTable B.Tree → MemTable B.Tree
  unfolding set_size
  replace_set key old items m = record m {
    tree = B.replace_or_insert key items m.tree;
    size_so_far = m.size_so_far + set_size marshal key items - set_size marshal key old;
  }

  -- The table, and whether it should be flushed.
  unfoldable pub put : Str → DataItem V → MemTable B.Tree → Bool × MemTable B.Tree
  unfolding current resolve newest_first replace_set
  put key item m =
      let old = current key m in
      let m' = replace_set key old (newest_first same item (resolve old item)) m in
      (leb m'.max_bytes m'.size_so_far, m')

  -- The second loop of PutBackOlder.
  unfoldable pub put_back_keys :
      GoMap (List (DataItem V)) → List Str → MemTable B.Tree → MemTable B.Tree
  unfolding current merge_siblings versions_of replace_set
  put_back_keys older [] m = m
  put_back_keys older (key ∷ ks) m =
      let old = current key m in
      put_back_keys older ks (replace_set key old (merge_siblings old (versions_of key older)) m)

  unfoldable pub put_back_older : List (Entry V) → MemTable B.Tree → MemTable B.Tree
  unfolding group_older put_back_keys
  put_back_older entries m = let (ks, older) = group_older entries [] [] in put_back_keys older ks m

  unfoldable pub replace : Str → List (DataItem V) → MemTable B.Tree → MemTable B.Tree
  unfolding current set_size replace_set
  replace key [] m = record m {
    tree = B.delete key m.tree;
    size_so_far = m.size_so_far - set_size marshal key (current key m);
  }
  replace key (item ∷ items) m = replace_set key (current key m) (item ∷ items) m

  unfoldable pub keys : MemTable B.Tree → List Str
  unfolding tree_keys
  keys m = tree_keys (B.ascend m.tree)

  unfoldable pub get_all : Str → MemTable B.Tree → Option (List (DataItem V))
  unfolding current non_empty
  get_all key m = non_empty (current key m)

  unfoldable pub snapshot : MemTable B.Tree → List (Entry V)
  unfolding entries_of
  snapshot m = entries_of (B.ascend m.tree)

  -- SnapshotAndClear: the entries, and the empty table.
  unfoldable pub snapshot_and_clear : MemTable B.Tree → List (Entry V) × MemTable B.Tree
  unfolding snapshot
  snapshot_and_clear m = (snapshot m, record m { tree = B.empty; size_so_far = 0 })

  unfoldable pub size : MemTable B.Tree → ℕ
  size m = m.size_so_far
