-- ===== src/Merkle/Walk.antt =====
-- The walk over two hash trees finds exactly the leaves in which they differ.
use distributed_kv_data_stor.Prelude.{
  ℕ, zero, suc, ◌+◌, ◌-◌, ◌*◌, ◌/◌, ◌≤◌, ◌<◌, ◌≡◌, ◌≢◌, refl, sym, ap, subst, ◌∙◌, true, false, [],
  ◌∷◌, ◌++◌, Memᴰ, ◌==◌, arith, Bool-cases, inl, inr, ◌⊎◌, ◌↔◌,
}
use mathlib.Core.List
use distributed_kv_data_stor.Merkle.{
  Hash, Tree, leaf_index, is_leaf_index, bucket_index_of_leaf, node, walk, divergent_buckets,
}

-- Node `l` is `i` or below it.
pub data Under : ℕ → ℕ → Type 0 where
  here : (i : ℕ) → Under i i
  left : {i l : ℕ} → Under (2 * i + 1) l → Under i l
  right : {i l : ℕ} → Under (2 * i + 2) l → Under i l

Under-le : {i l : ℕ} → Under i l → i ≤ l
Under-le (here i) = omega arith
Under-le (left u) = omega (arith, Under-le u)
Under-le (right u) = omega (arith, Under-le u)

-- Each node above the leaves is the hash of its two children.
pub record IsHashed (combine : Hash → Hash → Hash) (t : Tree) : Type 0 where
  pub positive : 0 < t.num_buckets
  pub combined :
      (i : ℕ)
      → i < t.num_buckets - 1
      → node t.nodes i ≡ combine (node t.nodes (2 * i + 1)) (node t.nodes (2 * i + 2))

-- No node above the leaves has the same hash in both trees by a collision.
abbrev pub NoCollision : (Hash → Hash → Hash) → Tree → Tree → Type 0
NoCollision combine a b =
    (i : ℕ)
    → i < a.num_buckets - 1
    → combine (node a.nodes (2 * i + 1)) (node a.nodes (2 * i + 2))
      ≡ combine (node b.nodes (2 * i + 1)) (node b.nodes (2 * i + 2))
    → (node a.nodes (2 * i + 1) ≡ node b.nodes (2 * i + 1))
      × (node a.nodes (2 * i + 2) ≡ node b.nodes (2 * i + 2))

Under-down : {i l : ℕ} → Under i l → Under i (2 * l + 1) × Under i (2 * l + 2)
Under-down (here i) = (left (here (2 * i + 1)), right (here (2 * i + 2)))
Under-down (left u) = (left (Under-down u).0, left (Under-down u).1)
Under-down (right u) = (right (Under-down u).0, right (Under-down u).1)

-- Every node is under the root.
Under-root : (fuel l : ℕ) → l < fuel → Under 0 l
Under-root zero l h = absurd (omega arith)
Under-root (suc fuel) zero h = here 0
Under-root (suc fuel) (suc k) h =
    let above = Under-down (Under-root fuel (k / 2) (omega arith)) in
    elim (odd_or_even k) [
      | inl e ↦ subst (Under 0) (sym e) above.0
      | inr e ↦ subst (Under 0) (sym e) above.1
    ]
  where
    odd_or_even : (k : ℕ) → (suc k ≡ 2 * (k / 2) + 1) ⊎ (suc k ≡ 2 * (k / 2) + 2)
    odd_or_even k = ground arith

walk_same :
    (fuel : ℕ) (a b : Tree) (i : ℕ)
    → (node a.nodes i == node b.nodes i) ≡ true
    → walk (suc fuel) a b i ≡ []
unfolding walk
walk_same fuel a b i e = rw e refl

walk_leaf :
    (fuel : ℕ) (a b : Tree) (i : ℕ)
    → (node a.nodes i == node b.nodes i) ≡ false
    → is_leaf_index i a.num_buckets ≡ true
    → walk (suc fuel) a b i ≡ bucket_index_of_leaf i a.num_buckets ∷ []
unfolding walk
walk_leaf fuel a b i e f = rw e (rw f refl)

walk_inner :
    (fuel : ℕ) (a b : Tree) (i : ℕ)
    → (node a.nodes i == node b.nodes i) ≡ false
    → is_leaf_index i a.num_buckets ≡ false
    → walk (suc fuel) a b i ≡ walk fuel a b (2 * i + 1) ++ walk fuel a b (2 * i + 2)
unfolding walk
walk_inner fuel a b i e f = rw e (rw f refl)

-- Bucket `x` is a leaf under `i` in which the trees differ.
record Differing (a b : Tree) (i x : ℕ) : Type 0 where
  leaf : ℕ
  under : Under i leaf
  is_leaf : a.num_buckets - 1 ≤ leaf
  inside : leaf < 2 * a.num_buckets - 1
  exact : x ≡ bucket_index_of_leaf leaf a.num_buckets
  differs : node a.nodes leaf ≢ node b.nodes leaf

walk-Differing :
    (fuel : ℕ) (a b : Tree) (i x : ℕ)
    → i < 2 * a.num_buckets - 1
    → Memᴰ x (walk fuel a b i)
    → Differing a b i x
unfolding walk
walk-Differing zero a b i x low m = elim m [ ]
walk-Differing (suc fuel) a b i x low m = elim (Bool-cases (node a.nodes i == node b.nodes i)) [
  | inl e ↦ elim (subst (Memᴰ x) (walk_same fuel a b i e) m) [ ]
  | inr e ↦ elim (Bool-cases (is_leaf_index i a.num_buckets)) [
    | inl f ↦ record {
      leaf = i;
      under = here i;
      is_leaf = ground arith;
      inside = low;
      exact = List.Memᴰ.eq_of_singleton (subst (Memᴰ x) (walk_leaf fuel a b i e f) m);
      differs = λ same. ground arith;
    }
    | inr f ↦
        elim (List.Memᴰ.append_cases (walk fuel a b (2 * i + 1))
          (subst (Memᴰ x) (walk_inner fuel a b i e f) m)) [
            | inl k ↦
                let d = walk-Differing fuel a b (2 * i + 1) x (ground arith) k in
                record {
                  leaf = d.leaf;
                  under = left d.under;
                  is_leaf = d.is_leaf;
                  inside = d.inside;
                  exact = d.exact;
                  differs = d.differs;
                }
            | inr k ↦
                let d = walk-Differing fuel a b (2 * i + 2) x (ground arith) k in
                record {
                  leaf = d.leaf;
                  under = right d.under;
                  is_leaf = d.is_leaf;
                  inside = d.inside;
                  exact = d.exact;
                  differs = d.differs;
                }
          ]
  ]
]

module _ (combine : Hash → Hash → Hash) (a b : Tree) (unique : NoCollision combine a b)
    (hashed_a : IsHashed combine a) (hashed_b : IsHashed combine b)
    (as_many : a.num_buckets ≡ b.num_buckets) where
  -- If a leaf differs, so does every node above it.
  differs-up :
      {i l : ℕ}
      → Under i l
      → l < 2 * a.num_buckets - 1
      → node a.nodes l ≢ node b.nodes l
      → node a.nodes i ≢ node b.nodes i
  differs-up (here i) h d = d
  differs-up {i} (left u) h d = λ same.
      let low = Under-le u in
      let e = sym (hashed_a.combined i (omega arith)) ∙ same ∙ hashed_b.combined i (omega arith) in
      differs-up u h d (unique i (omega arith) e).0
  differs-up {i} (right u) h d = λ same.
      let low = Under-le u in
      let e = sym (hashed_a.combined i (omega arith)) ∙ same ∙ hashed_b.combined i (omega arith) in
      differs-up u h d (unique i (omega arith) e).1

  leaf_only :
      {i l : ℕ}
      → Under i l
      → a.num_buckets - 1 ≤ i
      → l < 2 * a.num_buckets - 1
      → 0 < a.num_buckets
      → l ≡ i
  leaf_only (here i) h k pos = refl
  leaf_only (left u) h k pos = let low = Under-le u in absurd (omega arith)
  leaf_only (right u) h k pos = let low = Under-le u in absurd (omega arith)

  one_down : {i l : ℕ} → Under i l → i < l → Under (2 * i + 1) l ⊎ Under (2 * i + 2) l
  one_down (here i) h = absurd (omega arith)
  one_down (left u) h = inl u
  one_down (right u) h = inr u

  walk-mem :
      (fuel i l : ℕ)
      → Under i l
      → a.num_buckets - 1 ≤ l
      → l < 2 * a.num_buckets - 1
      → 0 < fuel
      → a.num_buckets ≤ fuel + i
      → node a.nodes l ≢ node b.nodes l
      → Memᴰ (bucket_index_of_leaf l a.num_buckets) (walk fuel a b i)
  walk-mem zero i l u leaf inside some_left enough d = absurd (omega arith)
  walk-mem (suc fuel) i l u leaf inside some_left enough d =
      elim (Bool-cases (node a.nodes i == node b.nodes i)) [
        | inl e ↦ absurd (differs-up u inside d (ground arith))
        | inr e ↦ elim (Bool-cases (is_leaf_index i a.num_buckets)) [
          | inl f ↦
              let same = leaf_only u (ground arith) inside hashed_a.positive in
              subst (Memᴰ (bucket_index_of_leaf l a.num_buckets)) (sym (walk_leaf fuel a b i e f))
                (Memᴰ.head (ap (λ k. bucket_index_of_leaf k a.num_buckets) same))
          | inr f ↦
              subst (Memᴰ (bucket_index_of_leaf l a.num_buckets)) (sym (walk_inner fuel a b i e f))
                (elim (one_down u (ground arith)) [
                  | inl v ↦
                      List.Memᴰ.append_left (walk fuel a b (2 * i + 2))
                        (walk-mem fuel (2 * i + 1) l v leaf inside (ground arith) (ground arith) d)
                  | inr v ↦
                      List.Memᴰ.append_right (walk fuel a b (2 * i + 1))
                        (walk-mem fuel (2 * i + 2) l v leaf inside (ground arith) (ground arith) d)
                ])
        ]
      ]

  -- For trees whose inner nodes hash their children, where no two of these hashes collide, the divergent buckets are
  -- exactly the buckets whose leaves differ.
  pub divergent_buckets_iff :
      (x : ℕ)
      → Memᴰ x (divergent_buckets a b) ↔ (
          (x < a.num_buckets)
          × (node a.nodes (leaf_index x a.num_buckets) ≢ node b.nodes (leaf_index x a.num_buckets)))
  unfolding divergent_buckets
  divergent_buckets_iff x = (
    λ m.
        let pos = hashed_a.positive in
        let d = walk-Differing a.num_buckets a b 0 x (omega arith) m in
        let leaf_bound = d.is_leaf in
        let inside = d.inside in
        let exact = d.exact in
        let same : d.leaf ≡ leaf_index x a.num_buckets = omega arith in
        (omega arith, subst (λ l. node a.nodes l ≢ node b.nodes l) same d.differs),
    λ (h, d).
        let pos = hashed_a.positive in
        let l = leaf_index x a.num_buckets in
        subst (λ y. Memᴰ y (walk a.num_buckets a b 0)) (omega arith)
          (walk-mem a.num_buckets 0 l (Under-root (suc l) l (omega arith)) (omega arith)
            (omega arith) pos (omega arith) d),
  )
