-- ===== src/Model.antt =====
-- internal/model/model.go: one version of a key. `V` is Go's `any`, which this code never looks
-- into.
use distributed_kv_data_stor.Prelude.{ℕ, Str, Bool}
use distributed_kv_data_stor.VectorClock.{VectorClock, Relation, compare}

-- Sibling sets are slices of pointers, and MemTable.Put compares pointers: `addr` is the item's
-- address. No other code reads it.
pub record DataItem {ℓ} (V : Type ℓ) : Type ℓ where
  pub addr : ℕ
  pub value : V
  pub vector_clock : VectorClock
  pub last_updated_by : Str
  pub is_deleted : Bool

-- item.VectorClock.Compare(other.VectorClock)
abbrev pub order {ℓ} : {V : Type ℓ} → DataItem V → DataItem V → Relation
order item other = compare item.vector_clock other.vector_clock
