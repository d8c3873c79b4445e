-- ===== src/HashRing.antt =====
-- internal/hashring/hashring.go: consistent hashing with virtual nodes. A method that locks `mu`
-- is one step.
pub mod Fnv
pub mod SlotMap
pub mod Claims
pub mod Sorted
pub mod Build
pub mod Members
pub mod Walk
pub mod Clockwise
pub mod Preference
pub mod Replicas
pub mod Agreement
pub mod Examples
use distributed_kv_data_stor.Prelude.{
  ℕ, zero, suc, ◌+◌, ◌%◌, Str, str_eq, str_lt, Bool, true, false, Option, none, some, List, [], ◌∷◌,
  ◌++◌, ltb, leb, ◌==◌, if◌then◌else◌, length, get_or, Result, ok, err,
}
use distributed_kv_data_stor.GoMap.{GoMap, lookup, insert}
use distributed_kv_data_stor.HashRing.Fnv.{hash_key, itoa}
use distributed_kv_data_stor.HashRing.SlotMap.{Slots, slot, set_slot}

pub record HashRing : Type 0 where
  pub ring : List ℕ
  pub node_map : Slots
  pub virtual_nodes : ℕ

-- The two errors of NewHashRingFromMembers, with the id that the second one names.
pub data RingError : Type 0 where
  empty_id : RingError
  duplicate_id : Str → RingError

abbrev pub new_hash_ring : ℕ → HashRing
new_hash_ring virtual_nodes = record { ring = []; node_map = []; virtual_nodes = virtual_nodes }

-- hashKey(nodeID + "-" + strconv.Itoa(i))
unfoldable pub position : Str → ℕ → ℕ
unfolding hash_key itoa
position node_id i = hash_key (node_id ++ b'-' ∷ itoa i)

-- The body of the loop of `place`, at the position `pos` of one virtual node.
unfoldable pub claim : Str → ℕ → HashRing → HashRing
unfolding slot set_slot str_lt
claim node_id pos hr = elim (slot pos hr.node_map) [
  | some existing ↦
      if str_lt node_id existing
      then record hr { node_map = set_slot pos node_id hr.node_map }
      else hr
  | none ↦ record hr { node_map = set_slot pos node_id hr.node_map; ring = hr.ring ++ pos ∷ [] }
]

-- `for i := ...; i < virtualNodesPerPhysical; i++`, with the rounds left.
unfoldable pub place_from : Str → ℕ → ℕ → HashRing → HashRing
unfolding claim position
place_from node_id zero i hr = hr
place_from node_id (suc left) i hr =
    place_from node_id left (i + 1) (claim node_id (position node_id i) hr)

unfoldable pub place : Str → HashRing → HashRing
unfolding place_from
place node_id hr = place_from node_id hr.virtual_nodes 0 hr

-- sort.Slice by `<`, as an insertion sort: the result on numbers does not depend on the algorithm.
unfoldable pub insert_sorted : ℕ → List ℕ → List ℕ
insert_sorted x [] = x ∷ []
insert_sorted x (y ∷ ys) = if leb x y then x ∷ y ∷ ys else y ∷ insert_sorted x ys

unfoldable pub sort : List ℕ → List ℕ
unfolding insert_sorted
sort [] = []
sort (x ∷ xs) = insert_sorted x (sort xs)

unfoldable pub sort_ring : HashRing → HashRing
unfolding sort
sort_ring hr = record hr { ring = sort hr.ring }

-- The first loop of NewHashRingFromMembers; `seen` is a set.
unfoldable pub check_ids : List Str → GoMap Bool → Result RingError (GoMap Bool)
unfolding lookup insert
check_ids [] seen = ok seen
check_ids (id ∷ ids) seen =
    let rest = check_ids ids (insert id true seen) in
    if str_eq id []
    then err empty_id
    else elim (lookup id seen) [ some _ ↦ err (duplicate_id id) | none ↦ rest ]

unfoldable pub place_all : List Str → HashRing → HashRing
unfolding place
place_all [] hr = hr
place_all (id ∷ ids) hr = place_all ids (place id hr)

unfoldable pub new_hash_ring_from_members : ℕ → List Str → Result RingError HashRing
unfolding check_ids place_all sort_ring
new_hash_ring_from_members virtual_nodes ids = elim (check_ids ids []) [
  | err e ↦ err e
  | ok _ ↦ ok (sort_ring (place_all ids (new_hash_ring virtual_nodes)))
]

unfoldable pub add_node : Str → HashRing → HashRing
unfolding place sort_ring
add_node node_id hr = sort_ring (place node_id hr)

-- sort.Search for the first position that is not below the target; the length if there is none.
unfoldable pub search_from : ℕ → List ℕ → ℕ
search_from target [] = 0
search_from target (pos ∷ ring) = if leb target pos then 0 else suc (search_from target ring)

-- nodeMap[pos]; a missing position reads as ""
unfoldable pub node_at : HashRing → ℕ → Str
unfolding slot
node_at hr pos = elim (slot pos hr.node_map) [ none ↦ [] | some node_id ↦ node_id ]

-- The loop of GetPreferenceList, with the rounds left, `i`, `seen` and `preferenceList`.
unfoldable pub walk : HashRing → ℕ → ℕ → ℕ → ℕ → GoMap Bool → List Str → List Str
unfolding node_at lookup insert
walk hr index factor zero i seen pref = pref
walk hr index factor (suc left) i seen pref =
    let node_id = node_at hr (get_or hr.ring ((index + i) % length hr.ring) 0) in
    let more = pref ++ node_id ∷ [] in
    let skipped = walk hr index factor left (i + 1) seen pref in
    let taken = walk hr index factor left (i + 1) (insert node_id true seen) more in
    elim (lookup node_id seen) [
      | some _ ↦ skipped
      | none ↦ if length more == factor then more else taken
    ]

unfoldable pub get_preference_list : HashRing → Str → ℕ → List Str
unfolding search_from walk hash_key
get_preference_list hr key factor =
    let found = search_from (hash_key key) hr.ring in
    let index = if leb (length hr.ring) found then 0 else found in
    walk hr index factor (length hr.ring) 0 [] []
