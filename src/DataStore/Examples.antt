-- ===== src/DataStore/Examples.antt =====
-- A DataStore on an in-memory persister: its theorems at concrete inputs.
use distributed_kv_data_stor.Prelude.{
  ℕ, Str, str_eq, ◌≡◌, refl, true, false, none, some, [], ◌∷◌, err, arith,
}
use distributed_kv_data_stor.VectorClock.{version, build_from_context}
use distributed_kv_data_stor.Model.{DataItem}
use distributed_kv_data_stor.Versioning.{resolve, union_vector_clock}
use distributed_kv_data_stor.Persister.{Persister, storage_failed, Found}
use distributed_kv_data_stor.Persister.InMemory.{
  Sets, in_memory, in_memory-IsMergingStore, restore_in,
}
use distributed_kv_data_stor.DataStore.{DataStore, get, put, base_of, restore_versions}
use distributed_kv_data_stor.DataStore.Writes.{OnlyVersion, put-supersedes}
use distributed_kv_data_stor.DataStore.Reads.{get-restore_versions}

abbrev pub node_a : Str
node_a = b'a' ∷ []

abbrev pub key_k : Str
key_k = b'k' ∷ []

abbrev pub nothing_stored : Sets ℕ
nothing_stored key = record { items = []; pairwise = tt }

abbrev pub store : Persister ℕ
store = in_memory

abbrev pub empty_store : DataStore store
empty_store = record { id = node_a; clock_id = node_a; state = nothing_stored }

abbrev pub item_at : ℕ → ℕ → DataItem ℕ
item_at value n = record {
  addr = value;
  value = value;
  vector_clock = record { state = (node_a, n) ∷ [] };
  last_updated_by = node_a;
  is_deleted = false;
}

unfoldable pub one_write : DataStore store
unfolding put resolve
one_write = (put store 1 key_k 1 none empty_store).1

abbrev two_writes : DataStore store
unfolding put resolve
two_writes = (put store 2 key_k 2 none one_write).1

second_write : put store 2 key_k 2 none one_write ≡ (some (item_at 2 2), two_writes)
unfolding put build_from_context one_write two_writes union_vector_clock
second_write = refl

abbrev pub found_one : Found ℕ
found_one = record { items = item_at 1 1 ∷ []; found = true }

abbrev found_two : Found ℕ
found_two = record { items = item_at 2 2 ∷ []; found = true }

put-supersedes_example : OnlyVersion found_two.items (item_at 2 2)
unfolding one_write two_writes build_from_context union_vector_clock
put-supersedes_example =
    put-supersedes store in_memory-IsMergingStore 2 key_k 2 one_write two_writes (item_at 2 2)
      ((node_a, 1) ∷ []) found_one found_two second_write refl refl (unfold base_of in refl)
      (unfold version in omega arith)

abbrev rolled_back : DataStore store
unfolding restore_versions restore_in
rolled_back = (restore_versions store key_k found_one.items two_writes).1

test_restored : found_one.items ≡ found_one.items
unfolding rolled_back str_eq
test_restored =
    get-restore_versions store in_memory-IsMergingStore key_k found_one.items two_writes rolled_back
      found_one (unfold restore_versions restore_in in refl) (unfold get in refl)

-- A persister whose reads fail.
abbrev broken : Persister ℕ
broken = record {
  State = Unit;
  put = λ key item s. (none, s);
  get_all = λ key s. err storage_failed;
  restore = λ key items s. (none, s);
  keys = λ s. err storage_failed;
}

abbrev broken_store : DataStore broken
broken_store = record { id = node_a; clock_id = node_a; state = tt }
