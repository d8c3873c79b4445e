-- ===== src/HashRing/Replicas.antt =====
-- The nodes of a preference list: none twice, at most as many as asked for, and all of them where
-- the ring has fewer.
use distributed_kv_data_stor.Prelude.{
  ℕ, zero, suc, ◌≤◌, ◌<◌, Str, ◌≡◌, refl, sym, ap, ◌∙◌, subst, List, [], ◌∷◌, ◌++◌, map, arith,
  length, take, drop, Bool-cases, inl, inr, Memᴰ, ◌⊎◌, ◌↔◌,
}
use mathlib.Core.List
use mathlib.Core.Bool.{true≢false}
use distributed_kv_data_stor.HashRing.{HashRing, node_at, get_preference_list}
use distributed_kv_data_stor.HashRing.Claims.{Distinct, Distinct-snoc}
use distributed_kv_data_stor.HashRing.Walk.{clockwise, start}
use distributed_kv_data_stor.HashRing.Preference.{
  contains, contains-mem, mem-contains, distinct_onto, get_preference_list-distinct,
}

distinct_onto-Distinct :
    (nodes found : List Str) → Distinct found → Distinct (distinct_onto nodes found)
unfolding distinct_onto
distinct_onto-Distinct [] found d = d
distinct_onto-Distinct (n ∷ nodes) found d = elim (Bool-cases (contains n found)) [
  | inl e ↦ rw e (distinct_onto-Distinct nodes found d)
  | inr e ↦ rw e (
      distinct_onto-Distinct nodes (found ++ n ∷ [])
        (Distinct-snoc found n d (λ m. true≢false (sym (mem-contains n found m) ∙ e))))
]

distinct_onto-mem :
    (id : Str) (nodes found : List Str)
    → Memᴰ id (distinct_onto nodes found) ↔ (Memᴰ id nodes ⊎ Memᴰ id found)
unfolding distinct_onto
distinct_onto-mem id [] found = (inr, λ s. elim s [ inl m ↦ elim m [ ] | inr m ↦ m ])
distinct_onto-mem id (n ∷ nodes) found = elim (Bool-cases (contains n found)) [
  | inl e ↦ rw e (
    λ m. elim ((distinct_onto-mem id nodes found).0 m) [
      | inl k ↦ inl (Memᴰ.tail k)
      | inr k ↦ inr k
    ],
    λ s. (distinct_onto-mem id nodes found).1 (elim s [
      | inr k ↦ inr k
      | inl m ↦ elim (List.Memᴰ.cases_cons m) [
        | inl f ↦ inr (subst (λ j. Memᴰ j found) (sym f) (contains-mem n found e))
        | inr k ↦ inl k
      ]
    ]),
  )
  | inr e ↦ rw e (
    λ m. elim ((distinct_onto-mem id nodes (found ++ n ∷ [])).0 m) [
      | inl k ↦ inl (Memᴰ.tail k)
      | inr k ↦ elim (List.Memᴰ.append_cases found k) [
        | inl l ↦ inr l
        | inr l ↦ inl (Memᴰ.head (List.Memᴰ.eq_of_singleton l))
      ]
    ],
    λ s. (distinct_onto-mem id nodes (found ++ n ∷ [])).1 (elim s [
      | inr k ↦ inr (List.Memᴰ.append_left (n ∷ []) k)
      | inl m ↦ elim (List.Memᴰ.cases_cons m) [
        | inl f ↦ inr (List.Memᴰ.append_right found (Memᴰ.head f))
        | inr k ↦ inl k
      ]
    ]),
  )
]

module _ {ℓ} {A : Type ℓ} where
  pub take-mem : (n : ℕ) (xs : List A) {x : A} → Memᴰ x (take n xs) → Memᴰ x xs
  take-mem zero xs m = elim m [ ]
  take-mem (suc n) [] m = m
  take-mem (suc n) (y ∷ ys) (Memᴰ.head e) = Memᴰ.head e
  take-mem (suc n) (y ∷ ys) (Memᴰ.tail m) = Memᴰ.tail (take-mem n ys m)

  drop-mem : (n : ℕ) (xs : List A) {x : A} → Memᴰ x (drop n xs) → Memᴰ x xs
  drop-mem zero xs m = m
  drop-mem (suc n) [] m = m
  drop-mem (suc n) (y ∷ ys) m = Memᴰ.tail (drop-mem n ys m)

  take-or-drop : (n : ℕ) (xs : List A) {x : A} → Memᴰ x xs → Memᴰ x (take n xs) ⊎ Memᴰ x (drop n xs)
  take-or-drop zero xs m = inr m
  take-or-drop (suc n) [] m = inl m
  take-or-drop (suc n) (y ∷ ys) (Memᴰ.head e) = inl (Memᴰ.head e)
  take-or-drop (suc n) (y ∷ ys) (Memᴰ.tail m) = elim (take-or-drop n ys m) [
    | inl k ↦ inl (Memᴰ.tail k)
    | inr k ↦ inr k
  ]

  pub take-Distinct : (n : ℕ) (xs : List A) → Distinct xs → Distinct (take n xs)
  take-Distinct zero xs d = tt
  take-Distinct (suc n) [] d = tt
  take-Distinct (suc n) (y ∷ ys) d = (λ m. d.0 (take-mem n ys m), take-Distinct n ys d.1)

  length-take-le : (n : ℕ) (xs : List A) → length (take n xs) ≤ n
  length-take-le zero xs = omega arith
  length-take-le (suc n) [] = omega arith
  length-take-le (suc n) (y ∷ ys) = omega (arith, length-take-le n ys)

  take-not-full : (n : ℕ) (xs : List A) → length (take n xs) < n → take n xs ≡ xs
  take-not-full zero xs h = absurd (omega arith)
  take-not-full (suc n) [] h = refl
  take-not-full (suc n) (y ∷ ys) h = ap (λ l. y ∷ l) (take-not-full n ys (omega arith))

-- A preference list holds no node twice and at most `factor` of them. Each holds a position of the
-- ring. If it is shorter than `factor`, every node that holds a position is on it.
pub record IsPreference (hr : HashRing) (factor : ℕ) (nodes : List Str) : Type 0 where
  pub distinct : Distinct nodes
  pub bounded : length nodes ≤ factor
  pub on_ring : (id : Str) → Memᴰ id nodes → (pos : ℕ) × Memᴰ pos hr.ring × (node_at hr pos ≡ id)
  pub all_if_short :
      length nodes < factor → (pos : ℕ) → Memᴰ pos hr.ring → Memᴰ (node_at hr pos) nodes

-- What the function returns for a positive replication factor is such a list.
pub get_preference_list-IsPreference :
    (hr : HashRing) (key : Str) (factor : ℕ)
    → 0 < factor
    → IsPreference hr factor (get_preference_list hr key factor)
get_preference_list-IsPreference hr key factor h =
    subst (IsPreference hr factor) (sym (get_preference_list-distinct hr key factor h)) (record {
      distinct = take-Distinct factor nodes (distinct_onto-Distinct (map (node_at hr) round) [] tt);
      bounded = length-take-le factor nodes;
      on_ring = λ id m.
          elim ((distinct_onto-mem id (map (node_at hr) round) []).0 (take-mem factor nodes m)) [
            | inr k ↦ elim k [ ]
            | inl k ↦
                let (pos, p, e) = List.Memᴰ.of_map (node_at hr) round k in (pos, round_mem pos p, e)
          ];
      all_if_short = λ short pos p.
          subst (Memᴰ (node_at hr pos)) (sym (take-not-full factor nodes short)) (
            (distinct_onto-mem (node_at hr pos) (map (node_at hr) round) []).1
              (inl (List.Memᴰ.map (node_at hr) (mem_round pos p))));
    })
  where
    index : ℕ
    index = start hr.ring key

    round : List ℕ
    round = clockwise hr.ring index

    nodes : List Str
    nodes = distinct_onto (map (node_at hr) round) []

    round_mem : (pos : ℕ) → Memᴰ pos round → Memᴰ pos hr.ring
    round_mem pos m = elim (List.Memᴰ.append_cases (drop index hr.ring) m) [
      | inl k ↦ drop-mem index hr.ring k
      | inr k ↦ take-mem index hr.ring k
    ]

    mem_round : (pos : ℕ) → Memᴰ pos hr.ring → Memᴰ pos round
    mem_round pos m = elim (take-or-drop index hr.ring m) [
      | inl k ↦ List.Memᴰ.append_right (drop index hr.ring) k
      | inr k ↦ List.Memᴰ.append_left (take index hr.ring) k
    ]
