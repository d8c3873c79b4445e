-- ===== src/HashRing/Examples.antt =====
-- Tests of the ring, and the theorems about it at concrete inputs.
use distributed_kv_data_stor.Prelude.{
  Str, ◌≡◌, refl, List, [], ◌∷◌, ◌++◌, map, take, length, Memᴰ, ◌↔◌, ok, err, arith,
}
use distributed_kv_data_stor.HashRing.Fnv.{hash_key, itoa}
use distributed_kv_data_stor.HashRing.{
  HashRing, empty_id, duplicate_id, node_at, new_hash_ring, place_all, sort_ring,
  new_hash_ring_from_members, add_node, get_preference_list,
}
use distributed_kv_data_stor.HashRing.Clockwise.{at_or_after, positions_below}
use distributed_kv_data_stor.HashRing.Preference.{distinct_onto, get_preference_list-eq}
use distributed_kv_data_stor.HashRing.Replicas.{IsPreference, get_preference_list-IsPreference}
use distributed_kv_data_stor.HashRing.Members.{
  AreValid, IsRingOf, new_hash_ring_from_members-IsRingOf, add_node-IsRingOf,
}
use distributed_kv_data_stor.HashRing.Agreement.{preference_lists_agree}

abbrev node_a : Str
node_a = b'a' ∷ []

abbrev node_b : Str
node_b = b'b' ∷ []

abbrev two_ids : List Str
two_ids = node_a ∷ node_b ∷ []

abbrev two_ids_reversed : List Str
two_ids_reversed = node_b ∷ node_a ∷ []

-- FNV-1a of "a", as hash/fnv computes it, and a counter of three digits.
hash_of_a : hash_key node_a ≡ 3826002220
unfolding hash_key
hash_of_a = refl

itoa_127 : itoa 127 ≡ b'1' ∷ b'2' ∷ b'7' ∷ []
unfolding itoa
itoa_127 = refl

duplicate_refused : new_hash_ring_from_members 2 (node_a ∷ node_a ∷ []) ≡ err (duplicate_id node_a)
unfolding new_hash_ring_from_members
duplicate_refused = refl

empty_refused : new_hash_ring_from_members 2 (node_a ∷ [] ∷ []) ≡ err empty_id
unfolding new_hash_ring_from_members
empty_refused = refl

new_hash_ring_from_members-IsRingOf_example :
    (AreValid two_ids → (hr : HashRing) × (new_hash_ring_from_members 2 two_ids ≡ ok hr))
    × ((hr : HashRing)
        → new_hash_ring_from_members 2 two_ids ≡ ok hr
        → AreValid two_ids × IsRingOf 2 two_ids hr)
new_hash_ring_from_members-IsRingOf_example = new_hash_ring_from_members-IsRingOf 2 two_ids

abbrev ring_of : List Str → HashRing
unfolding place_all sort_ring
ring_of ids = sort_ring (place_all ids (new_hash_ring 2))

two_ids_built : new_hash_ring_from_members 2 two_ids ≡ ok (ring_of two_ids)
unfolding new_hash_ring_from_members
two_ids_built = refl

two_ids_reversed_built :
    new_hash_ring_from_members 2 two_ids_reversed ≡ ok (ring_of two_ids_reversed)
unfolding new_hash_ring_from_members
two_ids_reversed_built = refl

same_ids : (id : Str) → Memᴰ id two_ids ↔ Memᴰ id two_ids_reversed
same_ids id = (swap node_a node_b, swap node_b node_a)
  where
    swap : (x y : Str) → Memᴰ id (x ∷ y ∷ []) → Memᴰ id (y ∷ x ∷ [])
    swap x y (Memᴰ.head e) = Memᴰ.tail (Memᴰ.head e)
    swap x y (Memᴰ.tail (Memᴰ.head e)) = Memᴰ.head e
    swap x y (Memᴰ.tail (Memᴰ.tail m)) = elim m [ ]

abbrev some_key : Str
some_key = b'k' ∷ b'1' ∷ []

preference_lists_agree_example :
    get_preference_list (ring_of two_ids) some_key 2
    ≡ get_preference_list (ring_of two_ids_reversed) some_key 2
preference_lists_agree_example =
    preference_lists_agree 2 two_ids two_ids_reversed (ring_of two_ids) (ring_of two_ids_reversed)
      some_key 2 two_ids_built two_ids_reversed_built same_ids

both_listed : length (get_preference_list (ring_of two_ids) some_key 2) ≡ 2
unfolding get_preference_list ring_of
both_listed = refl

get_preference_list-eq_example :
    get_preference_list (ring_of two_ids) some_key 1
    ≡ take 1 (
        distinct_onto
          (map (node_at (ring_of two_ids)) (
            at_or_after (hash_key some_key) (ring_of two_ids).ring
            ++ positions_below (hash_key some_key) (ring_of two_ids).ring))
          [])
get_preference_list-eq_example =
    get_preference_list-eq (ring_of two_ids) some_key 1
      ((new_hash_ring_from_members-IsRingOf 2 two_ids).1 (ring_of two_ids) two_ids_built).1.rising
      (omega arith)

get_preference_list-IsPreference_example :
    IsPreference (ring_of two_ids) 3 (get_preference_list (ring_of two_ids) some_key 3)
get_preference_list-IsPreference_example =
    get_preference_list-IsPreference (ring_of two_ids) some_key 3 (omega arith)

add_node-IsRingOf_example :
    IsRingOf 2 ((b'c' ∷ []) ∷ two_ids) (add_node (b'c' ∷ []) (ring_of two_ids))
add_node-IsRingOf_example =
    add_node-IsRingOf 2 two_ids (b'c' ∷ []) (ring_of two_ids)
      ((new_hash_ring_from_members-IsRingOf 2 two_ids).1 (ring_of two_ids) two_ids_built).1
