-- ===== src/HashRing/SlotMap.antt =====
-- `nodeMap map[uint32]string` of internal/hashring/hashring.go, as an association list.
use distributed_kv_data_stor.Prelude.{
  ℕ, Str, ◌≡◌, refl, Option, none, some, List, [], ◌∷◌, ◌==◌, if◌then◌else◌, arith,
}

abbrev pub Slots : Type 0
Slots = List (ℕ × Str)

-- existing, collided := nodeMap[pos]
unfoldable pub slot : ℕ → Slots → Option Str
slot pos [] = none
slot pos ((p, id) ∷ m) = if p == pos then some id else slot pos m

-- nodeMap[pos] = nodeID
unfoldable pub set_slot : ℕ → Str → Slots → Slots
set_slot pos id [] = (pos, id) ∷ []
set_slot pos id ((p, old) ∷ m) = if p == pos then (p, id) ∷ m else (p, old) ∷ set_slot pos id m

pub slot-set_slot :
    (pos q : ℕ) (id : Str) (m : Slots)
    → slot q (set_slot pos id m) ≡ (if pos == q then some id else slot q m)
unfolding slot set_slot
slot-set_slot pos q id [] = refl
slot-set_slot pos q id ((p, old) ∷ m) = ground (arith, slot-set_slot pos q id m)
