-- ===== src/Merkle/Build.antt =====
-- The tree that Build makes: its leaves hash the buckets, and each other node its two children.
use distributed_kv_data_stor.Prelude.{
  ℕ, zero, suc, ◌+◌, ◌-◌, ◌*◌, ◌≤◌, ◌<◌, Str, ◌≡◌, ◌≢◌, refl, sym, ap, ap₂, subst, ◌∙◌, List, [],
  ◌∷◌, Memᴰ, ◌==◌, if◌then◌else◌, arith, Bool-cases, inl, inr, ◌↔◌, Result, Result-cases, ok, err,
  length,
}
use distributed_kv_data_stor.Model.{DataItem}
use distributed_kv_data_stor.Persister.{Persister, StorageError}
use distributed_kv_data_stor.DataStore.{DataStore, keys}
use distributed_kv_data_stor.Merkle.{
  Hash, Tree, leaf_index, node, set_node, bucket_keys, combine_levels, zeros, hash_bucket_contents,
  set_leaves, build, divergent_buckets,
}
use distributed_kv_data_stor.Merkle.Walk.{IsHashed, NoCollision, divergent_buckets_iff}

node-set_node :
    (i j : ℕ) (h : Hash) (nodes : List Hash)
    → i < length nodes
    → node (set_node i h nodes) j ≡ (if i == j then h else node nodes j)
unfolding set_node
node-set_node i j h [] low = absurd (omega arith)
node-set_node zero zero h (x ∷ nodes) low = refl
node-set_node zero (suc j) h (x ∷ nodes) low = ground arith
node-set_node (suc i) zero h (x ∷ nodes) low = ground arith
node-set_node (suc i) (suc j) h (x ∷ nodes) low =
    ground (arith, node-set_node i j h nodes (omega arith))

length-set_node :
    (i : ℕ) (h : Hash) (nodes : List Hash) → length (set_node i h nodes) ≡ length nodes
unfolding set_node
length-set_node i h [] = refl
length-set_node zero h (x ∷ nodes) = refl
length-set_node (suc i) h (x ∷ nodes) = omega (arith, length-set_node i h nodes)

length-zeros : (n : ℕ) → length (zeros n) ≡ n
unfolding zeros
length-zeros zero = refl
length-zeros (suc n) = omega (arith, length-zeros n)

-- What the loop over the internal levels leaves: the nodes from `left` on, and hashes before them.
record Combined (combine : Hash → Hash → Hash) (left : ℕ) (nodes nodes' : List Hash) : Type 0 where
  kept : (j : ℕ) → left ≤ j → node nodes' j ≡ node nodes j
  hashes :
      (i : ℕ)
      → i < left
      → node nodes' i ≡ combine (node nodes' (2 * i + 1)) (node nodes' (2 * i + 2))

combine_levels-Combined :
    (combine : Hash → Hash → Hash) (left : ℕ) (nodes : List Hash)
    → left ≤ length nodes
    → Combined combine left nodes (combine_levels combine left nodes)
unfolding combine_levels
combine_levels-Combined combine zero nodes h = record {
  kept = λ j low. refl;
  hashes = λ i low. absurd (omega arith);
}
combine_levels-Combined combine (suc left) nodes h =
    let parent = combine (node nodes (2 * left + 1)) (node nodes (2 * left + 2)) in
    let nodes1 = set_node left parent nodes in
    let rest =
      combine_levels-Combined combine left nodes1
        (omega (arith, length-set_node left parent nodes)) in
    let set : (j : ℕ) → node nodes1 j ≡ (if left == j then parent else node nodes j) =
      λ j. node-set_node left j parent nodes (omega arith) in
    record {
      kept = λ j low. rest.kept j (omega arith) ∙ ground (arith, set j);
      hashes = λ i low. elim (Bool-cases (left == i)) [
        | inr ne ↦ rest.hashes i (ground arith)
        | inl same ↦
            let e : left ≡ i = ground arith in
            let l : node (combine_levels combine left nodes1) (2 * left + 1)
                ≡ node nodes (2 * left + 1) =
              rest.kept (2 * left + 1) (omega arith) ∙ ground (arith, set (2 * left + 1)) in
            let r : node (combine_levels combine left nodes1) (2 * left + 2)
                ≡ node nodes (2 * left + 2) =
              rest.kept (2 * left + 2) (omega arith) ∙ ground (arith, set (2 * left + 2)) in
            let top : node (combine_levels combine left nodes1) left ≡ parent =
              rest.kept left (omega arith) ∙ ground (arith, set left) in
            subst
              (λ k.
                node (combine_levels combine left nodes1) k
                ≡ combine (node (combine_levels combine left nodes1) (2 * k + 1))
                    (node (combine_levels combine left nodes1) (2 * k + 2)))
              e (top ∙ ap₂ combine (sym l) (sym r))
      ];
    }

module _ {V : Type 0} (p : Persister V) (sha256 : Str → Hash) (canonical : DataItem V → Str) where
  -- What the loop over the leaves leaves, from bucket `b` on.
  record Leaves (ds : DataStore p) (nb : ℕ) (all_keys : List Str) (count b : ℕ)
      (nodes nodes' : List Hash) : Type 0 where
    long : length nodes' ≡ length nodes
    before : (j : ℕ) → j < leaf_index b nb → node nodes' j ≡ node nodes j
    hashed :
        (x : ℕ)
        → b ≤ x
        → x < b + count
        → hash_bucket_contents p sha256 canonical ds (bucket_keys x nb all_keys)
          ≡ ok (node nodes' (leaf_index x nb))

  set_leaves-Leaves :
      (ds : DataStore p) (nb : ℕ) (all_keys : List Str) (count b : ℕ) (nodes nodes' : List Hash)
      → leaf_index b nb + count ≤ length nodes
      → set_leaves p sha256 canonical ds nb all_keys count b nodes ≡ ok nodes'
      → Leaves ds nb all_keys count b nodes nodes'
  unfolding set_leaves
  set_leaves-Leaves ds nb all_keys zero b nodes nodes' room h =
      let same : nodes ≡ nodes' = ground arith in
      record {
        long = ap length (sym same);
        before = λ j low. ap (λ l. node l j) (sym same);
        hashed = λ x low high. absurd (omega arith);
      }
  set_leaves-Leaves ds nb all_keys (suc count) b nodes nodes' room h =
      elim (Result-cases (hash_bucket_contents p sha256 canonical ds (bucket_keys b nb all_keys))) [
        | inr (e, k) ↦ absurd (ground arith)
        | inl (leaf, k) ↦
            let nodes1 = set_node (leaf_index b nb) leaf nodes in
            let long1 = length-set_node (leaf_index b nb) leaf nodes in
            let rest =
              set_leaves-Leaves ds nb all_keys count (b + 1) nodes1 nodes' (omega arith)
                (ground arith) in
            let set : (j : ℕ)
                → node nodes1 j ≡ (if leaf_index b nb == j then leaf else node nodes j) =
              λ j. node-set_node (leaf_index b nb) j leaf nodes (omega arith) in
            record {
              long = rest.long ∙ long1;
              before = λ j low. rest.before j (omega arith) ∙ ground (arith, set j);
              hashed = λ x low high. elim (Bool-cases (b == x)) [
                | inr ne ↦ rest.hashed x (ground arith) (omega arith)
                | inl same ↦
                    let e : b ≡ x = ground arith in
                    subst
                      (λ y.
                        hash_bucket_contents p sha256 canonical ds (bucket_keys y nb all_keys)
                        ≡ ok (node nodes' (leaf_index y nb)))
                      e
                      (k
                        ∙ ap ok (
                            sym (
                              rest.before (leaf_index b nb) (omega arith)
                              ∙ ground (arith, set (leaf_index b nb)))))
              ];
            }
      ]

  -- A tree that Build returns has a hash of its two children in each inner node, and in the leaf of
  -- each bucket the hash of the bucket's contents.
  record IsTreeOf (combine : Hash → Hash → Hash) (ds : DataStore p) (nb : ℕ) (t : Tree)
      : Type 0 where
    all_keys : List Str
    listed : keys p ds ≡ ok all_keys
    buckets : t.num_buckets ≡ nb
    inner : IsHashed combine t
    leaves :
        (x : ℕ)
        → x < nb
        → hash_bucket_contents p sha256 canonical ds (bucket_keys x nb all_keys)
          ≡ ok (node t.nodes (leaf_index x nb))

  build-IsTreeOf :
      (combine : Hash → Hash → Hash) (ds : DataStore p) (nb : ℕ) (t : Tree)
      → 0 < nb
      → build p sha256 canonical combine ds nb ≡ ok t
      → IsTreeOf combine ds nb t
  unfolding build
  build-IsTreeOf combine ds nb t pos h = elim (Result-cases (keys p ds)) [
    | inr (e, k) ↦ absurd (ground arith)
    | inl (all_keys, k) ↦
        elim (Result-cases
          (set_leaves p sha256 canonical ds nb all_keys nb 0 (zeros (2 * nb - 1)))) [
            | inr (e, l) ↦ absurd (ground arith)
            | inl (nodes, l) ↦
                let made : record {
                  num_buckets = nb;
                  nodes = combine_levels combine (nb - 1) nodes;
                }
                    ≡ t =
                  ground arith in
                let z = length-zeros (2 * nb - 1) in
                let set =
                  set_leaves-Leaves ds nb all_keys nb 0 (zeros (2 * nb - 1)) nodes (omega arith)
                    l in
                let long = set.long in
                let top = combine_levels-Combined combine (nb - 1) nodes (omega arith) in
                subst (IsTreeOf combine ds nb) made (record {
                  all_keys = all_keys;
                  listed = k;
                  buckets = refl;
                  inner = record { positive = pos; combined = top.hashes };
                  leaves = λ x low.
                      set.hashed x (omega arith) (omega arith)
                      ∙ ap ok (sym (top.kept (leaf_index x nb) (omega arith)));
                })
          ]
  ]

  ok-injective : {h k : Hash} → ◌≡◌ {A = Result StorageError Hash} (ok h) (ok k) → h ≡ k
  ok-injective {h} e = ap value_of e
    where
      value_of : Result StorageError Hash → Hash
      value_of (ok x) = x
      value_of (err _) = h

  -- For two stores whose trees were built without an error, where no two hashes of
  -- children collide, DivergentBuckets returns exactly the buckets whose contents hash differently.
  pub divergent_buckets-build :
      (combine : Hash → Hash → Hash) (ds other : DataStore p) (nb : ℕ) (t t' : Tree)
      (all_keys other_keys : List Str)
      → NoCollision combine t t'
      → 0 < nb
      → build p sha256 canonical combine ds nb ≡ ok t
      → build p sha256 canonical combine other nb ≡ ok t'
      → keys p ds ≡ ok all_keys
      → keys p other ≡ ok other_keys
      → (x : ℕ)
      → Memᴰ x (divergent_buckets t t') ↔ (
          (x < nb)
          × (hash_bucket_contents p sha256 canonical ds (bucket_keys x nb all_keys)
              ≢ hash_bucket_contents p sha256 canonical other (bucket_keys x nb other_keys)))
  divergent_buckets-build combine ds other nb t t' all_keys other_keys unique pos h h' listed
        listed' x =
      let of_t = build-IsTreeOf combine ds nb t pos h in
      let of_t' = build-IsTreeOf combine other nb t' pos h' in
      let many = of_t.buckets in
      let walked =
        divergent_buckets_iff combine t t' unique of_t.inner of_t'.inner (many ∙ sym of_t'.buckets)
          x in
      let leaf : (x < nb)
          → hash_bucket_contents p sha256 canonical ds (bucket_keys x nb all_keys)
            ≡ ok (node t.nodes (leaf_index x nb)) =
        λ low.
          ap (λ l. hash_bucket_contents p sha256 canonical ds (bucket_keys x nb l))
            (same_keys (sym listed ∙ of_t.listed))
          ∙ of_t.leaves x low in
      let leaf' : (x < nb)
          → hash_bucket_contents p sha256 canonical other (bucket_keys x nb other_keys)
            ≡ ok (node t'.nodes (leaf_index x nb)) =
        λ low.
          ap (λ l. hash_bucket_contents p sha256 canonical other (bucket_keys x nb l))
            (same_keys (sym listed' ∙ of_t'.listed))
          ∙ of_t'.leaves x low in
      let at : leaf_index x t.num_buckets ≡ leaf_index x nb = ap (leaf_index x) many in
      (
        λ m.
            let (low, differs) = walked.0 m in
            let low_nb : x < nb = subst (λ n. x < n) many low in
            (
              low_nb,
              λ e.
                  subst (λ l. node t.nodes l ≢ node t'.nodes l) at differs
                    (ok-injective (sym (leaf low_nb) ∙ e ∙ leaf' low_nb)),
            ),
        λ (low, differs). walked.1 (
          subst (λ n. x < n) (sym many) low,
          subst (λ l. node t.nodes l ≢ node t'.nodes l) (sym at)
              (λ e. differs (leaf low ∙ ap ok e ∙ sym (leaf' low))),
        ),
      )
    where
      same_keys : {a b : List Str} → ◌≡◌ {A = Result StorageError (List Str)} (ok a) (ok b) → a ≡ b
      same_keys {a} e = ap (keys_of a) e
        where
          keys_of : List Str → Result StorageError (List Str) → List Str
          keys_of d (ok l) = l
          keys_of d (err _) = d
