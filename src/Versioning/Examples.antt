-- ===== src/Versioning/Examples.antt =====
-- Tests of the sibling logic, and the theorems about it at concrete inputs.
use distributed_kv_data_stor.Prelude.{
  ℕ, ◌+◌, ◌<◌, ◌≡◌, refl, false, List, [], ◌∷◌, Memᴰ, ◌↔◌, ◌⊎◌, arith,
}
use distributed_kv_data_stor.VectorClock.{
  Snapshot, equal, concurrent, u32_mod, version, compare, build_from_context,
}
use distributed_kv_data_stor.VectorClock.Order.{◌⊑◌}
use distributed_kv_data_stor.Model.{DataItem, order}
use distributed_kv_data_stor.Versioning.{resolve, merge_siblings, union_vector_clock}
use distributed_kv_data_stor.Versioning.Cover.{clock_of, CoveredBy, resolve-CoveredBy}
use distributed_kv_data_stor.Versioning.Siblings.{
  IsAntichain, resolve-IsAntichain, resolve-idempotent,
}
use distributed_kv_data_stor.Versioning.Convergence.{merge_siblings-converges}
use distributed_kv_data_stor.Versioning.Union.{resolve-union}

abbrev version_of : ℕ → Snapshot → DataItem ℕ
version_of n state = record {
  addr = n;
  value = n;
  vector_clock = record { state = state };
  last_updated_by = b'a' ∷ [];
  is_deleted = false;
}

abbrev at_a : DataItem ℕ
at_a = version_of 1 ((b'a' ∷ [], 1) ∷ [])

abbrev at_b : DataItem ℕ
at_b = version_of 2 ((b'b' ∷ [], 1) ∷ [])

abbrev later_at_a : DataItem ℕ
later_at_a = version_of 3 ((b'a' ∷ [], 2) ∷ [])

abbrev siblings : List (DataItem ℕ)
siblings = at_a ∷ at_b ∷ []

siblings_concurrent : order at_a at_b ≡ concurrent
unfolding compare
siblings_concurrent = refl

siblings-IsAntichain : IsAntichain siblings
siblings-IsAntichain = ((siblings_concurrent, tt), (tt, tt))

-- A newer write of node a replaces its older one and leaves the sibling.
resolve_newer : resolve siblings later_at_a ≡ at_b ∷ later_at_a ∷ []
unfolding resolve
resolve_newer = refl

resolve-IsAntichain_example : IsAntichain (resolve siblings later_at_a)
resolve-IsAntichain_example = resolve-IsAntichain siblings later_at_a siblings-IsAntichain

resolve-CoveredBy_example :
    CoveredBy (resolve siblings later_at_a) (clock_of at_a)
    ↔ (CoveredBy siblings (clock_of at_a) ⊎ (clock_of at_a ⊑ clock_of later_at_a))
resolve-CoveredBy_example = resolve-CoveredBy siblings later_at_a (clock_of at_a)

test_idempotent : resolve (resolve siblings later_at_a) later_at_a ≡ resolve siblings later_at_a
test_idempotent = resolve-idempotent siblings later_at_a siblings-IsAntichain

-- One replica receives a, b; the other b, a, b.
abbrev other_order : List (DataItem ℕ)
other_order = at_b ∷ at_a ∷ at_b ∷ []

same_writes : (w : DataItem ℕ) → Memᴰ w siblings ↔ Memᴰ w other_order
same_writes w = (there, back)
  where
    there : Memᴰ w siblings → Memᴰ w other_order
    there (Memᴰ.head e) = Memᴰ.tail (Memᴰ.head e)
    there (Memᴰ.tail (Memᴰ.head e)) = Memᴰ.head e
    there (Memᴰ.tail (Memᴰ.tail m)) = elim m [ ]

    back : Memᴰ w other_order → Memᴰ w siblings
    back (Memᴰ.head e) = Memᴰ.tail (Memᴰ.head e)
    back (Memᴰ.tail (Memᴰ.head e)) = Memᴰ.head e
    back (Memᴰ.tail (Memᴰ.tail (Memᴰ.head e))) = Memᴰ.tail (Memᴰ.head e)
    back (Memᴰ.tail (Memᴰ.tail (Memᴰ.tail m))) = elim m [ ]

at_a-held : Memᴰ at_a (merge_siblings [] siblings)
unfolding merge_siblings
at_a-held = Memᴰ.head refl

merge_siblings-converges_example :
    (y : DataItem ℕ) × Memᴰ y (merge_siblings [] other_order) × (order at_a y ≡ equal)
merge_siblings-converges_example =
    merge_siblings-converges siblings other_order same_writes at_a at_a-held

at_b-merged : Memᴰ at_b (merge_siblings siblings (later_at_a ∷ []))
unfolding merge_siblings
at_b-merged = Memᴰ.head refl

-- A write at node a on top of both siblings.
abbrev resolving : DataItem ℕ
resolving = record (version_of 4 []) {
  vector_clock = build_from_context (union_vector_clock siblings) (b'a' ∷ []);
}

no_wrap : version (union_vector_clock siblings) (b'a' ∷ []) + 1 < u32_mod
unfolding version union_vector_clock
no_wrap = omega arith

resolve-union_example : resolve siblings resolving ≡ resolving ∷ []
resolve-union_example = resolve-union siblings resolving (b'a' ∷ []) refl no_wrap
