-- ===== src/HashRing/Agreement.antt =====
-- Nodes that know the same members place every key alike, without talking about the ring.
use distributed_kv_data_stor.Prelude.{ℕ, Str, ◌≡◌, sym, ap₂, ◌∙◌, List, [], map, Memᴰ, ◌↔◌, ok}
use mathlib.Core.Path.{fun_ext}
use distributed_kv_data_stor.HashRing.SlotMap.{slot}
use distributed_kv_data_stor.HashRing.{
  HashRing, node_at, new_hash_ring_from_members, get_preference_list,
}
use distributed_kv_data_stor.HashRing.Walk.{gather, clockwise, start, get_preference_list-gather}
use distributed_kv_data_stor.HashRing.Members.{new_hash_ring_from_members-IsRingOf, IsRingOf-unique}

node_at-cong :
    (hr other : HashRing)
    → ((pos : ℕ) → slot pos hr.node_map ≡ slot pos other.node_map)
    → node_at hr ≡ node_at other
unfolding node_at
node_at-cong hr other h = fun_ext λ pos. rw (h pos, node_at)

get_preference_list-cong :
    (hr other : HashRing) (key : Str) (factor : ℕ)
    → hr.ring ≡ other.ring
    → ((pos : ℕ) → slot pos hr.node_map ≡ slot pos other.node_map)
    → get_preference_list hr key factor ≡ get_preference_list other key factor
get_preference_list-cong hr other key factor e h =
    get_preference_list-gather hr key factor
    ∙ ap₂ (λ f l. gather factor (map f (clockwise l (start l key))) [] []) (node_at-cong hr other h)
        e
    ∙ sym (get_preference_list-gather other key factor)

-- Two nodes that build their rings from the same set of ids, each in its own order, compute the
-- same preference list for every key and every replication factor.
pub preference_lists_agree :
    (count : ℕ) (ids others : List Str) (hr other : HashRing) (key : Str) (factor : ℕ)
    → new_hash_ring_from_members count ids ≡ ok hr
    → new_hash_ring_from_members count others ≡ ok other
    → ((id : Str) → Memᴰ id ids ↔ Memᴰ id others)
    → get_preference_list hr key factor ≡ get_preference_list other key factor
preference_lists_agree count ids others hr other key factor h k same =
    let r = ((new_hash_ring_from_members-IsRingOf count ids).1 hr h).1 in
    let s = ((new_hash_ring_from_members-IsRingOf count others).1 other k).1 in
    let (e, f) = IsRingOf-unique count ids others hr other r s same in
    get_preference_list-cong hr other key factor e f
