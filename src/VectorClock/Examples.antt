-- ===== src/VectorClock/Examples.antt =====
-- Tests of the clocks, and the theorems about them at concrete inputs.
use distributed_kv_data_stor.Prelude.{◌<◌, Str, ◌≡◌, refl, [], ◌∷◌, arith}
use distributed_kv_data_stor.VectorClock.{
  Snapshot, after, concurrent, compare_snapshots, compare, from_snapshot, build_from_context,
  version, u32_mod,
}
use distributed_kv_data_stor.VectorClock.Order.{Causal, compare_snapshots-Causal}
use distributed_kv_data_stor.VectorClock.Laws.{
  flip, compare_snapshots-flip, compare-build_from_context,
}

abbrev node_a : Str
node_a = b'a' ∷ []

abbrev node_b : Str
node_b = b'b' ∷ []

abbrev ahead_at_a : Snapshot
ahead_at_a = (node_a, 2) ∷ (node_b, 1) ∷ []

abbrev ahead_at_b : Snapshot
ahead_at_b = (node_b, 3) ∷ []

abbrev worn_out : Snapshot
worn_out = (node_a, 4294967295) ∷ []

clocks_concurrent : compare_snapshots ahead_at_a ahead_at_b ≡ concurrent
unfolding compare_snapshots
clocks_concurrent = refl

compare_snapshots-Causal_example :
    Causal ahead_at_a ahead_at_b (compare_snapshots ahead_at_a ahead_at_b)
compare_snapshots-Causal_example = compare_snapshots-Causal ahead_at_a ahead_at_b

test_flip : compare_snapshots ahead_at_b ahead_at_a ≡ flip (compare_snapshots ahead_at_a ahead_at_b)
test_flip = compare_snapshots-flip ahead_at_a ahead_at_b

-- The counter of node a wraps.
compare-build_from_context_example :
    compare (from_snapshot worn_out) (build_from_context worn_out node_a) ≡ after
unfolding version
compare-build_from_context_example = compare-build_from_context worn_out node_a small
  where
    small : version worn_out node_a < u32_mod
    small = omega arith
