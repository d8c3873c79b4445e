-- ===== src/HashRing/Claims.antt =====
-- What `place` builds: the node that holds a position is the least one that claims it, and the
-- ring lists each claimed position once.
use distributed_kv_data_stor.Prelude.{
  ℕ, Str, str_lt, str_lt_irrefl, str_lt_trans, ◌≡◌, sym, ◌∙◌, true, false, none, some, List, [],
  ◌∷◌, ◌++◌, Memᴰ, ◌⊎◌, inl, inr, ◌≢◌, Bool-cases, Option-cases, arith,
}
use mathlib.Core.List
use native.Mathlib.Decide.{ℕ_discrete}
use mathlib.Core.Bool.{true≢false}
use distributed_kv_data_stor.HashRing.SlotMap.{slot, set_slot, slot-set_slot}
use distributed_kv_data_stor.HashRing.{HashRing, claim}

-- No element twice.
abbrev pub Distinct {ℓ} : {A : Type ℓ} → List A → Type ℓ
Distinct [] = Unit
Distinct (x ∷ xs) = (Memᴰ x xs → ⊥) × Distinct xs

pub Distinct-snoc {ℓ} :
    {A : Type ℓ} (xs : List A) (x : A) → Distinct xs → (Memᴰ x xs → ⊥) → Distinct (xs ++ x ∷ [])
Distinct-snoc [] x d new = (λ m. elim m [ ], tt)
Distinct-snoc (y ∷ ys) x d new = (
  λ m. elim (List.Memᴰ.append_cases ys m) [
    | inl k ↦ d.0 k
    | inr k ↦ new (Memᴰ.head (sym (List.Memᴰ.eq_of_singleton k)))
  ],
  Distinct-snoc ys x d.1 (λ m. new (Memᴰ.tail m)),
)

-- The claims so far: `C id pos` says that node `id` has a virtual node at `pos`.
abbrev pub ClaimSet : Type 1
ClaimSet = Str → ℕ → Type 0

-- A ring that stands for the claims `C`.
pub record Represents (C : ClaimSet) (hr : HashRing) : Type 0 where
  pub owner_claims : (pos : ℕ) (id : Str) → slot pos hr.node_map ≡ some id → C id pos
  pub owner_least :
      (pos : ℕ) (id other : Str)
      → slot pos hr.node_map ≡ some id
      → C other pos
      → str_lt other id ≡ false
  pub claimed : (pos : ℕ) (id : Str) → C id pos → slot pos hr.node_map ≢ none
  pub on_ring : (pos : ℕ) (id : Str) → slot pos hr.node_map ≡ some id → Memᴰ pos hr.ring
  pub held : (pos : ℕ) → Memᴰ pos hr.ring → slot pos hr.node_map ≢ none
  pub once : Distinct hr.ring

-- One more claim.
abbrev pub With : ClaimSet → Str → ℕ → ClaimSet
With C node_id at id pos = C id pos ⊎ ((id ≡ node_id) × (pos ≡ at))

-- The ring after a claim of a free position, and after a claim that takes a position over.
abbrev added : Str → ℕ → HashRing → HashRing
added node_id at hr = record hr {
  node_map = set_slot at node_id hr.node_map;
  ring = hr.ring ++ at ∷ [];
}

abbrev replaced : Str → ℕ → HashRing → HashRing
replaced node_id at hr = record hr { node_map = set_slot at node_id hr.node_map }

module _ (C : ClaimSet) (hr : HashRing) (rep : Represents C hr) (node_id : Str) (at : ℕ) where
  open rep use {owner_claims, owner_least, claimed, on_ring, held, once}

  added-slot :
      (pos : ℕ) (id : Str)
      → slot pos (added node_id at hr).node_map ≡ some id
      → ((pos ≡ at) × (id ≡ node_id)) ⊎ ((pos ≢ at) × (slot pos hr.node_map ≡ some id))
  added-slot pos id h = elim (ℕ_discrete pos at) [
    | yes e ↦ inl (e, ground (arith, slot-set_slot at pos node_id hr.node_map))
    | no ne ↦ inr (ne, ground (arith, slot-set_slot at pos node_id hr.node_map))
  ]

  set_slot-ne-none :
      (pos : ℕ) → slot pos hr.node_map ≢ none → slot pos (set_slot at node_id hr.node_map) ≢ none
  set_slot-ne-none pos h e = ground (arith, slot-set_slot at pos node_id hr.node_map)

  set_slot_self : slot at (set_slot at node_id hr.node_map) ≢ none
  set_slot_self e = ground (arith, slot-set_slot at at node_id hr.node_map)

  added-Represents :
      slot at hr.node_map ≡ none → Represents (With C node_id at) (added node_id at hr)
  added-Represents free = record {
    owner_claims = λ pos id h. elim (added-slot pos id h) [
      | inl (e, f) ↦ inr (f, e)
      | inr (_, k) ↦ inl (owner_claims pos id k)
    ];
    owner_least = λ pos id other h c. elim (added-slot pos id h) [
      | inl (e, f) ↦ elim c [
        | inl k ↦ absurd (claimed pos other k (rw e free))
        | inr (g, _) ↦ rw (f, g) (str_lt_irrefl node_id)
      ]
      | inr (ne, k) ↦ elim c [ inl l ↦ owner_least pos id other k l | inr (_, e) ↦ absurd (ne e) ]
    ];
    claimed = λ pos id c. elim c [
      | inl k ↦ set_slot-ne-none pos (claimed pos id k)
      | inr (_, e) ↦ rw e set_slot_self
    ];
    on_ring = λ pos id h. elim (added-slot pos id h) [
      | inl (e, _) ↦ List.Memᴰ.append_right hr.ring (Memᴰ.head e)
      | inr (_, k) ↦ List.Memᴰ.append_left (at ∷ []) (on_ring pos id k)
    ];
    held = λ pos m. elim (List.Memᴰ.append_cases hr.ring m) [
      | inl k ↦ set_slot-ne-none pos (held pos k)
      | inr k ↦ rw (List.Memᴰ.eq_of_singleton k) set_slot_self
    ];
    once = Distinct-snoc hr.ring at once (λ m. held at m free);
  }

  replaced-Represents :
      (existing : Str)
      → slot at hr.node_map ≡ some existing
      → str_lt node_id existing ≡ true
      → Represents (With C node_id at) (replaced node_id at hr)
  replaced-Represents existing taken lt = record {
    owner_claims = λ pos id h. elim (added-slot pos id h) [
      | inl (e, f) ↦ inr (f, e)
      | inr (_, k) ↦ inl (owner_claims pos id k)
    ];
    owner_least = λ pos id other h c. elim (added-slot pos id h) [
      | inl (e, f) ↦ elim c [
        | inl k ↦ rw f (below other (owner_least pos existing other (rw e taken) k))
        | inr (g, _) ↦ rw (f, g) (str_lt_irrefl node_id)
      ]
      | inr (ne, k) ↦ elim c [ inl l ↦ owner_least pos id other k l | inr (_, e) ↦ absurd (ne e) ]
    ];
    claimed = λ pos id c. elim c [
      | inl k ↦ set_slot-ne-none pos (claimed pos id k)
      | inr (_, e) ↦ rw e set_slot_self
    ];
    on_ring = λ pos id h. elim (added-slot pos id h) [
      | inl (e, _) ↦ rw e (on_ring at existing taken)
      | inr (_, k) ↦ on_ring pos id k
    ];
    held = λ pos m. set_slot-ne-none pos (held pos m);
    once = once;
  }
    where
      below : (other : Str) → str_lt other existing ≡ false → str_lt other node_id ≡ false
      below other h = elim (Bool-cases (str_lt other node_id)) [
        | inr e ↦ e
        | inl e ↦ absurd (true≢false (sym (str_lt_trans other node_id existing e lt) ∙ h))
      ]

  kept-Represents :
      (existing : Str)
      → slot at hr.node_map ≡ some existing
      → str_lt node_id existing ≡ false
      → Represents (With C node_id at) hr
  kept-Represents existing taken ge = record {
    owner_claims = λ pos id h. inl (owner_claims pos id h);
    owner_least = λ pos id other h c. elim c [
      | inl k ↦ owner_least pos id other h k
      | inr (g, e) ↦ ground (arith)
    ];
    claimed = λ pos id c. elim c [ inl k ↦ claimed pos id k | inr (_, e) ↦ λ n. ground arith ];
    on_ring = on_ring;
    held = held;
    once = once;
  }

  pub claim-Represents : Represents (With C node_id at) (claim node_id at hr)
  unfolding claim
  claim-Represents = elim (Option-cases (slot at hr.node_map)) [
    | inl free ↦ rw (free, claim) (added-Represents free)
    | inr (existing, taken) ↦ elim (Bool-cases (str_lt node_id existing)) [
      | inl lt ↦ rw (taken, claim) (rw lt (replaced-Represents existing taken lt))
      | inr ge ↦ rw (taken, claim) (rw ge (kept-Represents existing taken ge))
    ]
  ]
