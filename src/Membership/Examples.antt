-- ===== src/Membership/Examples.antt =====
-- The membership of two nodes at concrete inputs.
use distributed_kv_data_stor.Prelude.{
  ℕ, ◌<◌, Str, ◌≡◌, refl, Bool, true, false, none, some, List, [], ◌∷◌, ◌++◌, ◌↔◌, ◌⊎◌, leb, arith,
}
use distributed_kv_data_stor.GoMap.{GoMap, IsMap, lookup, keys}
use distributed_kv_data_stor.HashRing.{new_hash_ring}
use distributed_kv_data_stor.Membership.{
  View, Member, shared_address, sorted, validate_members, is_dead,
}
use distributed_kv_data_stor.Membership.Valid.{IsMembership, validate_members-IsMembership}
use distributed_kv_data_stor.Membership.Health.{heartbeats, missed_at_end, heartbeats-dead}
use distributed_kv_data_stor.Membership.Changes.{
  Call, called, Step, set_membership-Step, after_calls, after_calls-grows,
}

abbrev node_a : Str
node_a = b'a' ∷ []

abbrev node_b : Str
node_b = b'b' ∷ []

abbrev two_members : GoMap Str
two_members = (node_b, b'2' ∷ []) ∷ (node_a, b'1' ∷ []) ∷ []

two_members-IsMap : IsMap two_members
unfolding lookup
two_members-IsMap = (refl, (refl, tt))

two_valid : validate_members two_members 2 ≡ none
unfolding validate_members
two_valid = refl

sorted_ids : sorted (keys two_members) ≡ node_a ∷ node_b ∷ []
unfolding sorted keys
sorted_ids = refl

shared_refused :
    validate_members ((node_a, b'1' ∷ []) ∷ (node_b, b'1' ∷ []) ∷ []) 2
    ≡ some (shared_address node_a node_b (b'1' ∷ []))
unfolding validate_members
shared_refused = refl

validate_members-IsMembership_example :
    (validate_members two_members 2 ≡ none) ↔ IsMembership two_members 2
validate_members-IsMembership_example =
    validate_members-IsMembership two_members 2 two_members-IsMap

-- A digest that writes out what it is given.
abbrev plain : GoMap Str → ℕ → Str
plain [] n = n ∷ []
plain ((id, addr) ∷ members) n = id ++ addr ++ plain members n

abbrev first_view : View
first_view = record { epoch = 0; fingerprint = []; members = two_members; ring = new_hash_ring 150 }

abbrev node : Member Unit
node = record {
  membership = first_view;
  clients = (node_b, tt) ∷ [];
  retired = [];
  health = [];
  conflict_seen = [];
  mismatch_seen = [];
  handoffs = 0;
}

abbrev pings : List Bool
pings = true ∷ false ∷ false ∷ false ∷ []

heartbeats-dead_example :
    is_dead node_b (heartbeats 3 node_b pings node) ≡ leb 3 (missed_at_end 0 pings)
heartbeats-dead_example =
    heartbeats-dead 3 node_b (b'2' ∷ []) pings node (omega arith) (unfold lookup in refl)
      (unfold lookup in refl)

abbrev only_a : Call
only_a = record { epoch = 1; members = (node_a, b'1' ∷ []) ∷ []; claimed = []; persisted = true }

set_membership-Step_example : Step plain 1 only_a node (called plain 1 only_a node)
set_membership-Step_example = set_membership-Step plain 1 only_a node

after_calls-grows_example :
    ((after_calls plain 1 (only_a ∷ only_a ∷ []) node).membership ≡ first_view)
    ⊎ (0 < (after_calls plain 1 (only_a ∷ only_a ∷ []) node).membership.epoch)
after_calls-grows_example = after_calls-grows plain 1 (only_a ∷ only_a ∷ []) node
