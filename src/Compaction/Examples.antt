-- ===== src/Compaction/Examples.antt =====
-- The tier of a size, and the choice among some tables, given by their sizes.
use distributed_kv_data_stor.Prelude.{ℕ, Str, ◌≡◌, ◌↔◌, refl, false, List, [], ◌∷◌, Result, ok}
use distributed_kv_data_stor.VectorClock.{Snapshot}
use distributed_kv_data_stor.Model.{DataItem}
use distributed_kv_data_stor.Compaction.{Entry, merge, tier_of, select_tier_for_compaction}
use distributed_kv_data_stor.Compaction.Merging.{EnteredBy, read_all, merge-EnteredBy}
use distributed_kv_data_stor.Compaction.Runs.{IsLongestRun, select_tier_for_compaction-IsLongestRun}

tier_below : tier_of 999 ≡ 0
unfolding tier_of
tier_below = refl

tier_two : tier_of 10000 ≡ 2
unfolding tier_of
tier_two = refl

abbrev same_size : ℕ → ℕ
same_size n = n

abbrev sizes : List ℕ
sizes = 1 ∷ 2 ∷ 5000 ∷ 3 ∷ 4 ∷ 5 ∷ 6 ∷ 7 ∷ 2000 ∷ []

chosen : select_tier_for_compaction same_size sizes ≡ 3 ∷ 4 ∷ 5 ∷ 6 ∷ 7 ∷ []
unfolding select_tier_for_compaction
chosen = refl

select_tier_for_compaction-IsLongestRun_example :
    IsLongestRun same_size sizes (select_tier_for_compaction same_size sizes)
select_tier_for_compaction-IsLongestRun_example =
    select_tier_for_compaction-IsLongestRun same_size sizes

abbrev version_of : ℕ → ℕ → DataItem ℕ
version_of value n = record {
  addr = value;
  value = value;
  vector_clock = record { state = (b'a' ∷ [], n) ∷ [] };
  last_updated_by = b'a' ∷ [];
  is_deleted = false;
}

abbrev entry_of : ℕ → DataItem ℕ → Entry ℕ
entry_of key item = record { key = key ∷ []; item = item }

abbrev all_of : List (Entry ℕ) → Result ℕ (List (Entry ℕ))
all_of entries = ok entries

-- A newer table with a second version of one key, and an older table.
abbrev tables : List (List (Entry ℕ))
tables =
    (entry_of 1 (version_of 5 2) ∷ [])
    ∷ (entry_of 0 (version_of 3 1) ∷ entry_of 1 (version_of 4 1) ∷ [])
    ∷ []

abbrev merged_tables : List (Entry ℕ)
merged_tables = entry_of 0 (version_of 3 1) ∷ entry_of 1 (version_of 5 2) ∷ []

merged_lem : merge all_of tables ≡ ok merged_tables
unfolding merge
merged_lem = refl

merge-EnteredBy_example :
    (entries : List (Entry ℕ)) × (read_all all_of tables ≡ ok entries)
    × ((key : Str) (c : Snapshot) → EnteredBy merged_tables key c ↔ EnteredBy entries key c)
merge-EnteredBy_example = merge-EnteredBy all_of tables merged_tables merged_lem
