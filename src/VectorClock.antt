-- ===== src/VectorClock.antt =====
-- internal/vectorclock/vectorclock.go: vector clocks, which order the versions of a key.
-- Each method holds the clock's mutex from start to end, so it is one step here.
pub mod Order
pub mod Laws
pub mod Examples
use distributed_kv_data_stor.Prelude.{
  ℕ, ◌+◌, ◌%◌, ◌^◌, Str, Bool, true, false, not, ◌&&◌, none, some, List, [], ◌∷◌, ltb,
  if◌then◌else◌,
}
use distributed_kv_data_stor.GoMap.{GoMap, lookup, insert, keys, copy}

pub data Relation : Type 0 where
  equal before after concurrent : Relation

-- map[string]uint32, from node IDs to versions
abbrev pub Snapshot : Type 0
Snapshot = GoMap ℕ

abbrev pub u32_mod : ℕ
u32_mod = 2 ^ 32

pub record VectorClock : Type 0 where
  pub state : Snapshot

-- `state[node]`: a missing entry reads as 0.
unfoldable pub version : Snapshot → Str → ℕ
unfolding lookup
version state node = elim (lookup node state) [ none ↦ 0 | some v ↦ v ]

abbrev pub new : VectorClock
new = record { state = [] }

-- `state[nodeID]++` on a uint32
unfoldable pub increment : VectorClock → Str → VectorClock
unfolding version insert
increment vc node = record { state = insert node ((version vc.state node + 1) % u32_mod) vc.state }

unfoldable pub snapshot : VectorClock → Snapshot
unfolding copy
snapshot vc = copy vc.state

-- The two flags of CompareSnapshots.
pub record Flags : Type 0 where
  pub is_this_greater : Bool
  pub is_other_greater : Bool

-- `for node := range m { seen[node] = true }`
unfoldable pub mark : List Str → GoMap Bool → GoMap Bool
unfolding insert
mark [] seen = seen
mark (node ∷ rest) seen = mark rest (insert node true seen)

-- The body of the loop over `seen`.
unfoldable pub tally : Snapshot → Snapshot → Str → Flags → Flags
unfolding version
tally this other node f =
    if ltb (version other node) (version this node)
    then record f { is_this_greater = true }
    else if ltb (version this node) (version other node)
    then record f { is_other_greater = true }
    else f

unfoldable pub scan : Snapshot → Snapshot → List Str → Flags → Flags
unfolding tally
scan this other [] f = f
scan this other (node ∷ rest) f = scan this other rest (tally this other node f)

unfoldable pub verdict : Flags → Relation
verdict f =
    if f.is_this_greater && not f.is_other_greater
    then after
    else if not f.is_this_greater && f.is_other_greater
    then before
    else if not f.is_this_greater && not f.is_other_greater
    then equal
    else concurrent

unfoldable pub seen_nodes : Snapshot → Snapshot → GoMap Bool
unfolding mark keys
seen_nodes this other = mark (keys other) (mark (keys this) [])

unfoldable pub compare_snapshots : Snapshot → Snapshot → Relation
unfolding scan verdict seen_nodes keys version
compare_snapshots this other = verdict (
    scan this other (keys (seen_nodes this other))
      (record { is_this_greater = false; is_other_greater = false }))

unfoldable pub compare : VectorClock → VectorClock → Relation
unfolding compare_snapshots snapshot
compare vc other = compare_snapshots (snapshot vc) (snapshot other)

unfoldable pub from_snapshot : Snapshot → VectorClock
unfolding copy
from_snapshot state = record { state = copy state }

unfoldable pub build_from_context : Snapshot → Str → VectorClock
unfolding increment copy
build_from_context context node = increment (record { state = copy context }) node
