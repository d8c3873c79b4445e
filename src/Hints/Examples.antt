-- ===== src/Hints/Examples.antt =====
-- Two hints for one target, one of them delivered.
use distributed_kv_data_stor.Prelude.{
  ℕ, Str, str_eq, ◌≡◌, refl, Bool, true, false, Option, none, some, List, [], ◌∷◌, ok,
}
use distributed_kv_data_stor.Model.{DataItem}
use distributed_kv_data_stor.Persister.{Persister, Found}
use distributed_kv_data_stor.Persister.InMemory.{in_memory, in_memory-IsMergingStore, found_in}
use distributed_kv_data_stor.Hints.{
  HintStore, storage_key, add_hint, mark_delivered, marker, invalid_target,
}
use distributed_kv_data_stor.Hints.Delivered.{Retires, mark_delivered-Retires}

abbrev store : Persister ℕ
store = in_memory

abbrev item_by : ℕ → Str → DataItem ℕ
item_by value node = record {
  addr = value;
  value = value;
  vector_clock = record { state = (node, 1) ∷ [] };
  last_updated_by = node;
  is_deleted = false;
}

abbrev peer : Str
peer = b'p' ∷ []

abbrev key_k : Str
key_k = b'k' ∷ []

abbrev sent_item : DataItem ℕ
sent_item = item_by 1 (b'x' ∷ [])

abbrev later_item : DataItem ℕ
later_item = item_by 2 (b'y' ∷ [])

abbrev empty_store : HintStore store
empty_store = record {
  engine = λ key. record { items = []; pairwise = tt };
  created = 0;
  delivered = 0;
}

abbrev hinted : HintStore store
hinted =
    (add_hint store peer key_k later_item (add_hint store peer key_k sent_item empty_store).1).1

abbrev retired : HintStore store
retired = (mark_delivered store 3 0 peer key_k (sent_item ∷ []) hinted).1

abbrev held : HintStore store → Found ℕ
held s = found_in (s.engine (storage_key peer key_k))

test_counts : (hinted.created ≡ 2) × (retired.delivered ≡ 1)
unfolding add_hint mark_delivered
test_counts = (refl, refl)

test_held : (held hinted).items ≡ sent_item ∷ later_item ∷ []
unfolding add_hint distributed_kv_data_stor.Prelude.str_eq
    distributed_kv_data_stor.Versioning.resolve
test_held = refl

test_retired : (held retired).items ≡ later_item ∷ marker 3 0 (sent_item ∷ []) ∷ []
unfolding mark_delivered add_hint marker distributed_kv_data_stor.Prelude.str_eq
    distributed_kv_data_stor.Versioning.resolve
test_retired = refl

test_invalid :
    add_hint store (0 ∷ []) key_k sent_item empty_store ≡ (some invalid_target, empty_store)
unfolding add_hint
test_invalid = refl

mark_delivered-Retires_example : Retires (sent_item ∷ []) (held hinted).items (held retired).items
unfolding mark_delivered
mark_delivered-Retires_example =
    mark_delivered-Retires store in_memory-IsMergingStore 3 0 peer key_k sent_item [] hinted retired
      (held hinted) (held retired) refl refl refl
