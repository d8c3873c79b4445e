-- ===== src/HashRing/Build.antt =====
-- NewHashRingFromMembers: the ring is a function of the set of ids, whatever their order.
use distributed_kv_data_stor.Prelude.{
  ℕ, zero, suc, ◌+◌, ◌≤◌, ◌<◌, Str, ◌≡◌, refl, sym, ap, subst, ◌∙◌, List, [], ◌∷◌, Memᴰ, ◌⊎◌, inl,
  inr, ◌↔◌, arith, All-mem,
}
use mathlib.Core.List
use native.Mathlib.Decide.{dec_lt}
use distributed_kv_data_stor.HashRing.SlotMap.{slot}
use distributed_kv_data_stor.HashRing.{
  HashRing, new_hash_ring, position, claim, place_from, place, place_all, sort, sort_ring,
}
use distributed_kv_data_stor.HashRing.Claims.{
  ClaimSet, Represents, With, claim-Represents, Distinct,
}
use distributed_kv_data_stor.HashRing.Sorted.{IsRising, sort-mem, sort-IsRising}

-- `place_all` takes the ids from the front.
pub reverse_onto : List Str → List Str → List Str
reverse_onto [] done = done
reverse_onto (id ∷ ids) done = reverse_onto ids (id ∷ done)

pub reverse_onto-mem :
    (id : Str) (ids done : List Str)
    → Memᴰ id (reverse_onto ids done) ↔ (Memᴰ id ids ⊎ Memᴰ id done)
unfolding reverse_onto
reverse_onto-mem id [] done = (inr, λ s. elim s [ inl m ↦ elim m [ ] | inr m ↦ m ])
reverse_onto-mem id (j ∷ ids) done = (
  λ m. elim ((reverse_onto-mem id ids (j ∷ done)).0 m) [
    | inl k ↦ inl (Memᴰ.tail k)
    | inr k ↦ elim (List.Memᴰ.cases_cons k) [ inl e ↦ inl (Memᴰ.head e) | inr l ↦ inr l ]
  ],
  λ s. (reverse_onto-mem id ids (j ∷ done)).1 (elim s [
    | inl m ↦ elim (List.Memᴰ.cases_cons m) [ inl e ↦ inr (Memᴰ.head e) | inr l ↦ inl l ]
    | inr k ↦ inr (Memᴰ.tail k)
  ]),
)

-- Represents looks at the claims only through which hold.
pub Represents-cong :
    {C D : ClaimSet} {hr : HashRing}
    → ((id : Str) (pos : ℕ) → C id pos → D id pos)
    → ((id : Str) (pos : ℕ) → D id pos → C id pos)
    → Represents C hr
    → Represents D hr
Represents-cong f g rep = record {
  owner_claims = λ pos id h. f id pos (rep.owner_claims pos id h);
  owner_least = λ pos id other h c. rep.owner_least pos id other h (g other pos c);
  claimed = λ pos id c. rep.claimed pos id (g id pos c);
  on_ring = rep.on_ring;
  held = rep.held;
  once = rep.once;
}

-- The claims of virtual nodes `i`, ..., `i + left - 1` of a node.
abbrev Placed : ClaimSet → Str → ℕ → ℕ → ClaimSet
Placed C node_id left i id pos =
    C id pos ⊎ ((id ≡ node_id) × ((j : ℕ) × (i ≤ j) × (j < i + left) × (position node_id j ≡ pos)))

place_from-Represents :
    (C : ClaimSet) (node_id : Str) (left i : ℕ) (hr : HashRing)
    → Represents C hr
    → Represents (Placed C node_id left i) (place_from node_id left i hr)
unfolding place_from
place_from-Represents C node_id zero i hr rep =
    Represents-cong (λ id pos c. inl c)
      (λ id pos c. elim c [ inl k ↦ k | inr (_, (j, ge, lt, _)) ↦ absurd (omega arith) ]) rep
place_from-Represents C node_id (suc left) i hr rep =
    Represents-cong
      (λ id pos c. elim c [
        | inl (inl k) ↦ inl k
        | inl (inr (e, f)) ↦ inr (e, (i, omega arith, omega arith, sym f))
        | inr (e, (j, ge, lt, f)) ↦ inr (e, (j, omega arith, omega arith, f))
      ])
      (λ id pos c. elim c [
        | inl k ↦ inl (inl k)
        | inr (e, (j, ge, lt, f)) ↦ elim (dec_lt i j) [
          | yes p ↦ inr (e, (j, omega arith, omega arith, f))
          | no p ↦
              let same : j ≡ i = omega arith in inl (inr (e, sym f ∙ ap (position node_id) same))
        ]
      ])
      (place_from-Represents (With C node_id (position node_id i)) node_id left (i + 1)
        (claim node_id (position node_id i) hr)
        (claim-Represents C hr rep node_id (position node_id i)))

virtual_nodes-claim :
    (node_id : Str) (at : ℕ) (hr : HashRing)
    → (claim node_id at hr).virtual_nodes ≡ hr.virtual_nodes
unfolding claim
virtual_nodes-claim node_id at hr = ground arith

virtual_nodes-place_from :
    (node_id : Str) (left i : ℕ) (hr : HashRing)
    → (place_from node_id left i hr).virtual_nodes ≡ hr.virtual_nodes
unfolding place_from
virtual_nodes-place_from node_id zero i hr = refl
virtual_nodes-place_from node_id (suc left) i hr =
    virtual_nodes-place_from node_id left (i + 1) (claim node_id (position node_id i) hr)
    ∙ virtual_nodes-claim node_id (position node_id i) hr

-- Node `id`, one of `ids`, has one of its `count` virtual nodes at `pos`.
abbrev pub ClaimedBy : ℕ → List Str → ClaimSet
ClaimedBy count ids id pos = Memᴰ id ids × ((j : ℕ) × (j < count) × (position id j ≡ pos))

place-Represents :
    (C : ClaimSet) (node_id : Str) (hr : HashRing)
    → Represents C hr
    → Represents (Placed C node_id hr.virtual_nodes 0) (place node_id hr)
unfolding place
place-Represents C node_id hr rep = place_from-Represents C node_id hr.virtual_nodes 0 hr rep

pub virtual_nodes-place :
    (node_id : Str) (hr : HashRing) → (place node_id hr).virtual_nodes ≡ hr.virtual_nodes
unfolding place
virtual_nodes-place node_id hr = virtual_nodes-place_from node_id hr.virtual_nodes 0 hr

pub virtual_nodes-place_all :
    (ids : List Str) (hr : HashRing) → (place_all ids hr).virtual_nodes ≡ hr.virtual_nodes
unfolding place_all
virtual_nodes-place_all [] hr = refl
virtual_nodes-place_all (id ∷ ids) hr =
    virtual_nodes-place_all ids (place id hr) ∙ virtual_nodes-place id hr

-- The claims of one more node are those of one more id.
one_more :
    (count : ℕ) (done : List Str) (node_id id : Str) (pos : ℕ)
    → Placed (ClaimedBy count done) node_id count 0 id pos ↔ ClaimedBy count (node_id ∷ done) id pos
one_more count done node_id id pos = (
  λ c. elim c [
    | inl (m, k) ↦ (Memᴰ.tail m, k)
    | inr (e, (j, _, lt, f)) ↦ (Memᴰ.head e, (j, omega arith, ap (λ n. position n j) e ∙ f))
  ],
  λ c. elim (List.Memᴰ.cases_cons c.0) [
    | inr m ↦ inl (m, c.1)
    | inl e ↦
        let (j, lt, f) = c.1 in
        inr (e, (j, omega arith, omega arith, ap (λ n. position n j) (sym e) ∙ f))
  ],
)

pub place-one_more :
    (count : ℕ) (done : List Str) (node_id : Str) (hr : HashRing)
    → hr.virtual_nodes ≡ count
    → Represents (ClaimedBy count done) hr
    → Represents (ClaimedBy count (node_id ∷ done)) (place node_id hr)
place-one_more count done node_id hr e rep =
    Represents-cong (λ id pos. (one_more count done node_id id pos).0)
      (λ id pos. (one_more count done node_id id pos).1)
      (subst (λ n. Represents (Placed (ClaimedBy count done) node_id n 0) (place node_id hr)) e
        (place-Represents (ClaimedBy count done) node_id hr rep))

pub place_all-Represents :
    (count : ℕ) (ids done : List Str) (hr : HashRing)
    → hr.virtual_nodes ≡ count
    → Represents (ClaimedBy count done) hr
    → Represents (ClaimedBy count (reverse_onto ids done)) (place_all ids hr)
unfolding place_all reverse_onto
place_all-Represents count [] done hr e rep = rep
place_all-Represents count (id ∷ ids) done hr e rep =
    place_all-Represents count ids (id ∷ done) (place id hr) (virtual_nodes-place id hr ∙ e)
      (place-one_more count done id hr e rep)

pub empty-Represents : (count : ℕ) → Represents (ClaimedBy count []) (new_hash_ring count)
unfolding slot
empty-Represents count = record {
  owner_claims = λ pos id h. absurd (cc);
  owner_least = λ pos id other h c. elim c.0 [ ];
  claimed = λ pos id c. elim c.0 [ ];
  on_ring = λ pos id h. absurd (cc);
  held = λ pos m. elim m [ ];
  once = tt;
}

Distinct-of_IsRising : (xs : List ℕ) → IsRising xs → Distinct xs
Distinct-of_IsRising [] r = tt
Distinct-of_IsRising (x ∷ xs) r =
    (λ m. let lt = All-mem _ xs r.0 m in omega arith, Distinct-of_IsRising xs r.1)

pub sort_ring-Represents :
    (C : ClaimSet) (hr : HashRing)
    → Represents C hr
    → Represents C (sort_ring hr) × IsRising (sort_ring hr).ring
unfolding sort_ring
sort_ring-Represents C hr rep = (
  record {
    owner_claims = rep.owner_claims;
    owner_least = rep.owner_least;
    claimed = rep.claimed;
    on_ring = λ pos id h. (sort-mem pos hr.ring).1 (rep.on_ring pos id h);
    held = λ pos m. rep.held pos ((sort-mem pos hr.ring).0 m);
    once = Distinct-of_IsRising (sort hr.ring) (sort-IsRising hr.ring rep.once);
  },
  sort-IsRising hr.ring rep.once,
)
