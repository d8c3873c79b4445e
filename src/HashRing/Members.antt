-- ===== src/HashRing/Members.antt =====
-- NewHashRingFromMembers and AddNode: which ids are refused, and that the ring is a function of the
-- set of ids, whatever their order.
use distributed_kv_data_stor.Prelude.{
  ℕ, Str, str_eq, str_eq_iff, str_eq_refl, str_lt_total, ◌≡◌, ◌≢◌, refl, sym, ap, subst, ◌∙◌, Bool,
  true, none, some, List, [], ◌∷◌, Memᴰ, inl, inr, ◌↔◌, Bool-cases, Option-cases, arith, All,
  Result-cases, ok,
}
use mathlib.Core.List
use distributed_kv_data_stor.GoMap.{GoMap, lookup, insert, lookup-insert}
use distributed_kv_data_stor.HashRing.SlotMap.{slot}
use distributed_kv_data_stor.HashRing.{
  HashRing, new_hash_ring, place, place_all, sort_ring, check_ids, new_hash_ring_from_members,
  add_node,
}
use distributed_kv_data_stor.HashRing.Claims.{ClaimSet, Represents, Distinct}
use distributed_kv_data_stor.HashRing.Sorted.{IsRising, IsRising-unique}
use distributed_kv_data_stor.HashRing.Build.{
  virtual_nodes-place, virtual_nodes-place_all, ClaimedBy, reverse_onto, reverse_onto-mem,
  Represents-cong, place_all-Represents, empty-Represents, place-one_more, sort_ring-Represents,
}

-- The members are fit for a ring: no id is empty, and none stands twice.
abbrev pub AreValid : List Str → Type 0
AreValid ids = All (λ id. id ≢ []) ids × Distinct ids

check_ids_valid :
    (ids : List Str) (seen : GoMap Bool)
    → AreValid ids
    → ((id : Str) → Memᴰ id ids → lookup id seen ≡ none)
    → (s : GoMap Bool) × (check_ids ids seen ≡ ok s)
unfolding check_ids
check_ids_valid [] seen v h = (seen, refl)
check_ids_valid (id ∷ ids) seen v h =
    let (s, e) =
      check_ids_valid ids (insert id true seen) (v.0.1, v.1.1)
        (λ j m. apart j m (h j (Memᴰ.tail m))) in
    (s, rw (h id (Memᴰ.head refl)) (ground (arith, str_eq_iff id [], v.0.0)))
  where
    apart : (j : Str) → Memᴰ j ids → lookup j seen ≡ none → lookup j (insert id true seen) ≡ none
    apart j m old = elim (Bool-cases (str_eq id j)) [
      | inl e ↦ absurd (v.1.0 (subst (λ k. Memᴰ k ids) (sym ((str_eq_iff id j).0 e)) m))
      | inr e ↦ rw (lookup-insert id j true seen) (rw e old)
    ]

check_ids_sound :
    (ids : List Str) (seen s : GoMap Bool)
    → check_ids ids seen ≡ ok s
    → AreValid ids × ((id : Str) → Memᴰ id ids → lookup id seen ≡ none)
unfolding check_ids
check_ids_sound [] seen s h = ((tt, tt), λ id m. elim m [ ])
check_ids_sound (id ∷ ids) seen s h = elim (Bool-cases (str_eq id [])) [
  | inl e ↦ absurd (ground arith)
  | inr e ↦ elim (Option-cases (lookup id seen)) [
    | inr (v, f) ↦ absurd (ground arith)
    | inl f ↦
        let (v, apart) = check_ids_sound ids (insert id true seen) s (ground arith) in
        (
          (((λ k. ground (arith, str_eq_iff id [])), v.0), ((λ m. seen_twice (apart id m)), v.1)),
          λ j m. elim (List.Memᴰ.cases_cons m) [ inl g ↦ rw g f | inr k ↦ not_seen j (apart j k) ],
        )
  ]
]
  where
    seen_twice : lookup id (insert id true seen) ≡ none → ⊥
    seen_twice k = ground (arith, lookup-insert id id true seen, str_eq_refl id)

    not_seen : (j : Str) → lookup j (insert id true seen) ≡ none → lookup j seen ≡ none
    not_seen j k = ground (arith, lookup-insert id j true seen)

-- A ring built from ids: its positions are those that a virtual node of one of the ids hashes to,
-- each once and in rising order, and each is held by the lowest of the ids that claim it. It keeps
-- the number of virtual nodes.
pub record IsRingOf (count : ℕ) (ids : List Str) (hr : HashRing) : Type 0 where
  pub represents : Represents (ClaimedBy count ids) hr
  pub rising : IsRising hr.ring
  pub same_count : hr.virtual_nodes ≡ count

built-IsRingOf :
    (count : ℕ) (ids : List Str)
    → IsRingOf count ids (sort_ring (place_all ids (new_hash_ring count)))
unfolding sort_ring
built-IsRingOf count ids =
    let hr = place_all ids (new_hash_ring count) in
    let (rep, up) =
      sort_ring-Represents (ClaimedBy count (reverse_onto ids [])) hr
        (place_all-Represents count ids [] (new_hash_ring count) refl (empty-Represents count)) in
    record {
      represents =
          Represents-cong
            (λ id pos c. elim ((reverse_onto-mem id ids []).0 c.0) [
              | inl m ↦ (m, c.1)
              | inr m ↦ elim m [ ]
            ])
            (λ id pos c. ((reverse_onto-mem id ids []).1 (inl c.0), c.1)) rep;
      rising = up;
      same_count = virtual_nodes-place_all ids (new_hash_ring count);
    }

returned_ring :
    (count : ℕ) (ids : List Str) (s : GoMap Bool) (hr : HashRing)
    → check_ids ids [] ≡ ok s
    → new_hash_ring_from_members count ids ≡ ok hr
    → sort_ring (place_all ids (new_hash_ring count)) ≡ hr
unfolding new_hash_ring_from_members
returned_ring count ids s hr e h = ground arith

-- NewHashRingFromMembers succeeds exactly on ids that are not empty and all different, and then
-- returns the ring of those ids.
pub new_hash_ring_from_members-IsRingOf :
    (count : ℕ) (ids : List Str)
    → (AreValid ids → (hr : HashRing) × (new_hash_ring_from_members count ids ≡ ok hr))
      × ((hr : HashRing)
          → new_hash_ring_from_members count ids ≡ ok hr
          → AreValid ids × IsRingOf count ids hr)
unfolding new_hash_ring_from_members lookup
new_hash_ring_from_members-IsRingOf count ids = (
  λ v.
      let (s, e) = check_ids_valid ids [] v (λ id m. refl) in
      (sort_ring (place_all ids (new_hash_ring count)), rw (e, new_hash_ring_from_members)),
  λ hr h. elim (Result-cases (check_ids ids [])) [
    | inl (s, e) ↦ (
      (check_ids_sound ids [] s e).0,
      subst (IsRingOf count ids) (returned_ring count ids s hr e h) (built-IsRingOf count ids),
    )
    | inr (x, e) ↦ absurd (ground arith)
  ],
)

-- Two rings that stand for the same claims hold every position alike.
module _ (C : ClaimSet) (hr other : HashRing) (rep : Represents C hr)
    (rep' : Represents C other) where
  slot-agrees : (pos : ℕ) → slot pos hr.node_map ≡ slot pos other.node_map
  slot-agrees pos = elim (Option-cases (slot pos hr.node_map)) [
    | inl e ↦ elim (Option-cases (slot pos other.node_map)) [
      | inl f ↦ e ∙ sym f
      | inr (id, f) ↦ absurd (rep.claimed pos id (rep'.owner_claims pos id f) e)
    ]
    | inr (id, e) ↦ elim (Option-cases (slot pos other.node_map)) [
      | inl f ↦ absurd (rep'.claimed pos id (rep.owner_claims pos id e) f)
      | inr (id', f) ↦
          e
          ∙ ap some (
              str_lt_total id id' (rep'.owner_least pos id' id f (rep.owner_claims pos id e))
                (rep.owner_least pos id id' e (rep'.owner_claims pos id' f)))
          ∙ sym f
    ]
  ]

  ring-mem : (pos : ℕ) → Memᴰ pos hr.ring → Memᴰ pos other.ring
  ring-mem pos m = elim (Option-cases (slot pos other.node_map)) [
    | inl f ↦ absurd (rep.held pos m (slot-agrees pos ∙ f))
    | inr (id, f) ↦ rep'.on_ring pos id f
  ]

-- Rings of the same set of ids, given in any order, are the same ring: the same positions in the
-- same order, each held by the same node.
pub IsRingOf-unique :
    (count : ℕ) (ids others : List Str) (hr other : HashRing)
    → IsRingOf count ids hr
    → IsRingOf count others other
    → ((id : Str) → Memᴰ id ids ↔ Memᴰ id others)
    → (hr.ring ≡ other.ring) × ((pos : ℕ) → slot pos hr.node_map ≡ slot pos other.node_map)
IsRingOf-unique count ids others hr other r r' same =
    let rep' =
      Represents-cong (λ id pos c. ((same id).1 c.0, c.1)) (λ id pos c. ((same id).0 c.0, c.1))
        r'.represents in
    (
      IsRising-unique hr.ring other.ring r.rising r'.rising (λ pos. (
        ring-mem (ClaimedBy count ids) hr other r.represents rep' pos,
        ring-mem (ClaimedBy count ids) other hr rep' r.represents pos,
      )),
      slot-agrees (ClaimedBy count ids) hr other r.represents rep',
    )

-- Adding a node to a ring of some ids gives the ring of one id more, with as many virtual nodes for
-- each, so that another node can be added to it in the same way.
pub add_node-IsRingOf :
    (count : ℕ) (ids : List Str) (node_id : Str) (hr : HashRing)
    → IsRingOf count ids hr
    → IsRingOf count (node_id ∷ ids) (add_node node_id hr)
unfolding add_node
add_node-IsRingOf count ids node_id hr r =
    let (rep, up) =
      sort_ring-Represents (ClaimedBy count (node_id ∷ ids)) (place node_id hr)
        (place-one_more count ids node_id hr r.same_count r.represents) in
    record {
      represents = rep;
      rising = up;
      same_count = virtual_nodes-place node_id hr ∙ r.same_count;
    }
