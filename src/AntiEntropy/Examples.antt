-- ===== src/AntiEntropy/Examples.antt =====
-- Two stores reconciled, and the theorem at a concrete input.
use distributed_kv_data_stor.Prelude.{
  ℕ, Str, ◌≡◌, refl, true, false, Option, none, some, List, [], ◌∷◌, ok,
}
use distributed_kv_data_stor.Model.{DataItem}
use distributed_kv_data_stor.Persister.{Persister}
use distributed_kv_data_stor.Persister.InMemory.{
  in_memory, in_memory-IsMergingStore, found_in, set_at,
}
use distributed_kv_data_stor.DataStore.{DataStore, get}
use distributed_kv_data_stor.AntiEntropy.{delivered, Sides, reconcile_key}
use distributed_kv_data_stor.AntiEntropy.Keys.{IsReadable, Converged, reconcile_key-Converged}

abbrev store : Persister ℕ
store = in_memory

store-IsReadable : IsReadable store
store-IsReadable key sets = (found_in (sets key), refl)

abbrev item_by : ℕ → Str → DataItem ℕ
item_by value node = record {
  addr = value;
  value = value;
  vector_clock = record { state = (node, 1) ∷ [] };
  last_updated_by = node;
  is_deleted = false;
}

abbrev key_k : Str
key_k = b'k' ∷ []

abbrev left_item : DataItem ℕ
left_item = item_by 1 (b'x' ∷ [])

abbrev right_item : DataItem ℕ
right_item = item_by 2 (b'y' ∷ [])

abbrev holding : DataItem ℕ → DataStore store
holding item = record {
  id = [];
  clock_id = [];
  state =
      set_at key_k (record { items = item ∷ []; pairwise = (tt, tt) })
        (λ key. record { items = []; pairwise = tt });
}

abbrev apart : Sides store store
apart = record { local = holding left_item; remote = holding right_item }

-- What the two stores hold after the exchange.
abbrev together : Sides store store
together = (reconcile_key store store true delivered key_k apart).sides

test_together :
    get store key_k together.remote
    ≡ ok (record { items = left_item ∷ right_item ∷ []; found = true })
unfolding get reconcile_key distributed_kv_data_stor.Prelude.str_eq
    distributed_kv_data_stor.VectorClock.compare distributed_kv_data_stor.Versioning.resolve
test_together = refl

no_error :
    reconcile_key store store true delivered key_k apart ≡ record { error = none; sides = together }
unfolding reconcile_key distributed_kv_data_stor.Prelude.str_eq
    distributed_kv_data_stor.VectorClock.compare
no_error = refl

reconcile_key-Converged_example :
    Converged store store in_memory-IsMergingStore in_memory-IsMergingStore store-IsReadable
      store-IsReadable key_k apart together
reconcile_key-Converged_example =
    reconcile_key-Converged store store in_memory-IsMergingStore in_memory-IsMergingStore
      store-IsReadable store-IsReadable true delivered key_k apart together no_error
