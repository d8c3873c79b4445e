-- ===== src/Versioning.antt =====
-- internal/versioning/resolve.go: the sibling logic of writes that meet on one key.
pub mod Shape
pub mod Cover
pub mod Origins
pub mod Siblings
pub mod Convergence
pub mod Union
pub mod Examples
use distributed_kv_data_stor.Prelude.{ℕ, Bool, true, false, List, [], ◌∷◌, ◌++◌, ltb, if◌then◌else◌}
use distributed_kv_data_stor.GoMap.{GoMap, insert, copy}
use distributed_kv_data_stor.VectorClock.{
  Relation, equal, before, after, concurrent, Snapshot, version, snapshot, compare,
}
use distributed_kv_data_stor.Model.{DataItem, order}

-- The variables of the loop of Resolve.
pub record Resolution {ℓ} (V : Type ℓ) : Type ℓ where
  pub survivors : List (DataItem V)
  pub incoming_survives : Bool

-- The inner loop of UnionVectorClock, over one item's snapshot.
unfoldable pub raise_entries : Snapshot → Snapshot → Snapshot
unfolding version insert
raise_entries [] union = union
raise_entries ((node, v) ∷ rest) union =
    raise_entries rest (if ltb (version union node) v then insert node v union else union)

module _ {ℓ} {V : Type ℓ} where
  -- The switch of the loop, on `item.VectorClock.Compare(incoming.VectorClock)`.
  unfoldable pub settle : Relation → DataItem V → Resolution V → Resolution V
  settle concurrent item r = record r { survivors = r.survivors ++ item ∷ [] }
  settle after item r = record { survivors = r.survivors ++ item ∷ []; incoming_survives = false }
  settle before item r = r
  settle equal item r = record { survivors = r.survivors ++ item ∷ []; incoming_survives = false }

  unfoldable pub resolve_loop : List (DataItem V) → DataItem V → Resolution V → Resolution V
  unfolding settle compare
  resolve_loop [] incoming r = r
  resolve_loop (item ∷ existing) incoming r =
      resolve_loop existing incoming (settle (order item incoming) item r)

  unfoldable pub resolve : List (DataItem V) → DataItem V → List (DataItem V)
  unfolding resolve_loop
  resolve existing incoming =
      let r =
        resolve_loop existing incoming (record { survivors = []; incoming_survives = true }) in
      if r.incoming_survives then r.survivors ++ incoming ∷ [] else r.survivors

  unfoldable pub union_loop : List (DataItem V) → Snapshot → Snapshot
  unfolding raise_entries snapshot
  union_loop [] union = union
  union_loop (item ∷ items) union =
      union_loop items (raise_entries (snapshot item.vector_clock) union)

  unfoldable pub union_vector_clock : List (DataItem V) → Snapshot
  unfolding union_loop
  union_vector_clock items = union_loop items []

  unfoldable pub merge_siblings : List (DataItem V) → List (DataItem V) → List (DataItem V)
  unfolding resolve
  merge_siblings a [] = a
  merge_siblings a (item ∷ b) = merge_siblings (resolve a item) b
