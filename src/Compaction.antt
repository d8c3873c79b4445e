-- ===== src/Compaction.antt =====
-- internal/storage/compaction/compaction.go: which SSTables to merge, and what merging them gives.
-- An SSTable is its size with the entries that it reads back.
pub mod Runs
pub mod Merging
pub mod Examples
use distributed_kv_data_stor.Prelude.{
  ℕ, zero, suc, ◌+◌, ◌/◌, Str, Bool, true, false, ◌&&◌, Option, none, some, List, [], ◌∷◌, ◌++◌,
  Result, ok, err, ◌>>=◌, leb, ltb, ◌==◌, if◌then◌else◌, length,
}
use distributed_kv_data_stor.Model.{DataItem}
use distributed_kv_data_stor.Versioning.{merge_siblings}
use distributed_kv_data_stor.GoMap.{GoMap, lookup, keys, insert}
use distributed_kv_data_stor.Membership.{sorted}

abbrev pub min_tier_size : ℕ
min_tier_size = 4

-- The loop of tierOf. Each round divides the size, so as many rounds as the size are enough.
unfoldable pub tier_loop : ℕ → ℕ → ℕ → ℕ
tier_loop zero size tier = tier
tier_loop (suc fuel) size tier =
    let more = tier_loop fuel (size / 10) (tier + 1) in if leb 1000 size then more else tier

unfoldable pub tier_of : ℕ → ℕ
unfolding tier_loop
tier_of size = tier_loop size size 0

module _ {A : Type 0} (size : A → ℕ) where
  -- `for end < len(sstables) && tierOf(sstables[end].Size) == tier`: the tables of the run, from
  -- its second one on, and what is left.
  unfoldable pub extend : ℕ → List A → List A × List A
  unfolding tier_of
  extend tier [] = ([], [])
  extend tier (t ∷ ts) =
      let (run, rest) = extend tier ts in
      if tier_of (size t) == tier then (t ∷ run, rest) else ([], t ∷ ts)

  abbrev pub better : List A → List A → List A
  better run best =
      if leb min_tier_size (length run) && ltb (length best) (length run) then run else best

  -- The loop over the runs, with the tables left and the best run so far; it takes a table at least
  -- each round.
  unfoldable pub select_from : ℕ → List A → List A → List A
  unfolding extend
  select_from zero tables best = best
  select_from (suc fuel) [] best = best
  select_from (suc fuel) (t ∷ ts) best =
      let (run, rest) = extend (tier_of (size t)) ts in
      select_from fuel rest (better (t ∷ run) best)

  -- SelectTierForCompaction; no tables stand for a nil result.
  unfoldable pub select_tier_for_compaction : List A → List A
  unfolding select_from
  select_tier_for_compaction tables = select_from (length tables) tables []

-- memtable.Entry
pub record Entry (V : Type 0) : Type 0 where
  pub key : Str
  pub item : DataItem V

module _ {V : Type 0} where
  -- byKey[key]
  unfoldable pub versions_of : Str → GoMap (List (DataItem V)) → List (DataItem V)
  unfolding lookup
  versions_of key by_key = elim (lookup key by_key) [ none ↦ [] | some items ↦ items ]

  -- `for _, e := range entries`
  unfoldable pub merge_entries :
      List (Entry V) → GoMap (List (DataItem V)) → GoMap (List (DataItem V))
  unfolding versions_of insert merge_siblings
  merge_entries [] by_key = by_key
  merge_entries (e ∷ entries) by_key =
      merge_entries entries
        (insert e.key (merge_siblings (versions_of e.key by_key) (e.item ∷ [])) by_key)

  unfoldable pub flatten_key : Str → List (DataItem V) → List (Entry V)
  flatten_key key [] = []
  flatten_key key (item ∷ items) = record { key = key; item = item } ∷ flatten_key key items

  unfoldable pub flatten : List Str → GoMap (List (DataItem V)) → List (Entry V)
  unfolding flatten_key versions_of
  flatten [] by_key = []
  flatten (k ∷ ks) by_key = flatten_key k (versions_of k by_key) ++ flatten ks by_key

  -- The loop over the sources; `read` is SSTable.All.
  unfoldable pub merge_sources :
      {A E : Type 0}
      → (A → Result E (List (Entry V)))
      → List A
      → GoMap (List (DataItem V))
      → Result E (GoMap (List (DataItem V)))
  unfolding merge_entries
  merge_sources read [] by_key = ok by_key
  merge_sources read (src ∷ sources) by_key = do
    entries ← read src
    merge_sources read sources (merge_entries entries by_key)

  unfoldable pub merge :
      {A E : Type 0} → (A → Result E (List (Entry V))) → List A → Result E (List (Entry V))
  unfolding merge_sources flatten sorted keys
  merge read sources = do
    by_key ← merge_sources read sources []
    ok (flatten (sorted (keys by_key)) by_key)
