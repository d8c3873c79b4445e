-- ===== src/Merkle.antt =====
-- internal/merkle/merkle.go: the hash tree over a store's buckets, and the walk that finds the
-- buckets in which two trees differ. crypto/sha256 is a parameter, and so is the canonical string of
-- an item, which encoding/json writes.
pub mod Walk
pub mod Build
pub mod Examples
use distributed_kv_data_stor.Prelude.{
  ℕ, zero, suc, ◌+◌, ◌-◌, ◌*◌, ◌%◌, Str, Bool, true, false, List, [], ◌∷◌, ◌++◌, Result, ok, err,
  ◌>>=◌, ◌==◌, leb, if◌then◌else◌, get_or, map,
}
use distributed_kv_data_stor.Model.{DataItem}
use distributed_kv_data_stor.HashRing.Fnv.{hash_key}
use distributed_kv_data_stor.Membership.{sorted}
use distributed_kv_data_stor.Persister.{Persister, StorageError}
use distributed_kv_data_stor.DataStore.{DataStore, get, keys}

-- Hash, as the number that its bytes write.
abbrev pub Hash : Type 0
Hash = ℕ

pub record Tree : Type 0 where
  pub num_buckets : ℕ
  pub nodes : List Hash

abbrev pub leaf_index : ℕ → ℕ → ℕ
leaf_index bucket_index num_buckets = num_buckets - 1 + bucket_index

abbrev pub is_leaf_index : ℕ → ℕ → Bool
is_leaf_index node_index num_buckets = leb (num_buckets - 1) node_index

abbrev pub bucket_index_of_leaf : ℕ → ℕ → ℕ
bucket_index_of_leaf node_index num_buckets = node_index - (num_buckets - 1)

-- nodes[i]
abbrev pub node : List Hash → ℕ → Hash
node nodes i = get_or nodes i 0

-- nodes[i] = h
unfoldable pub set_node : ℕ → Hash → List Hash → List Hash
set_node i h [] = []
set_node zero h (x ∷ nodes) = h ∷ nodes
set_node (suc i) h (x ∷ nodes) = x ∷ set_node i h nodes

unfoldable pub bucket_for : Str → ℕ → ℕ
bucket_for key num_buckets = hash_key key % num_buckets

-- bucketKeys[b]
unfoldable pub bucket_keys : ℕ → ℕ → List Str → List Str
unfolding bucket_for
bucket_keys b num_buckets [] = []
bucket_keys b num_buckets (k ∷ ks) =
    let rest = bucket_keys b num_buckets ks in
    if bucket_for k num_buckets == b then k ∷ rest else rest

-- The strings of one key, each with the zero byte after it.
unfoldable pub terminated : List Str → Str
terminated [] = []
terminated (s ∷ ss) = s ++ 0 ∷ terminated ss

-- walk, with the levels left; the buckets in the order in which they are found.
unfoldable pub walk : ℕ → Tree → Tree → ℕ → List ℕ
walk zero local remote node_index = []
walk (suc fuel) local remote node_index =
    let left = walk fuel local remote (2 * node_index + 1) in
    let right = walk fuel local remote (2 * node_index + 2) in
    if node local.nodes node_index == node remote.nodes node_index
    then []
    else if is_leaf_index node_index local.num_buckets
    then bucket_index_of_leaf node_index local.num_buckets ∷ []
    else left ++ right

-- DivergentBuckets, for two trees of as many buckets.
unfoldable pub divergent_buckets : Tree → Tree → List ℕ
unfolding walk
divergent_buckets local remote = walk local.num_buckets local remote 0

-- The loop over the internal levels: `left` nodes are still to be set, the last one first.
unfoldable pub combine_levels : (Hash → Hash → Hash) → ℕ → List Hash → List Hash
unfolding set_node
combine_levels combine zero nodes = nodes
combine_levels combine (suc left) nodes =
    combine_levels combine left
      (set_node left (combine (node nodes (2 * left + 1)) (node nodes (2 * left + 2))) nodes)

-- make([]Hash, n)
unfoldable pub zeros : ℕ → List Hash
zeros zero = []
zeros (suc n) = 0 ∷ zeros n

module _ {V : Type 0} (p : Persister V) (sha256 : Str → Hash) (canonical : DataItem V → Str) where
  -- What hashBucketContents writes to the hash.
  unfoldable pub bucket_bytes : DataStore p → List Str → Result StorageError Str
  unfolding sorted terminated
  bucket_bytes ds [] = ok []
  bucket_bytes ds (key ∷ rest) = do
    f ← get p key ds
    bytes ← bucket_bytes ds rest
    ok (key ++ 0 ∷ terminated (sorted (map canonical f.items)) ++ bytes)

  unfoldable pub hash_bucket_contents : DataStore p → List Str → Result StorageError Hash
  unfolding bucket_bytes sorted
  hash_bucket_contents ds bucket = do bytes ← bucket_bytes ds (sorted bucket); ok (sha256 bytes)

  -- The loop over the leaves: `left` buckets from `b` on.
  unfoldable pub set_leaves :
      DataStore p → ℕ → List Str → ℕ → ℕ → List Hash → Result StorageError (List Hash)
  unfolding hash_bucket_contents bucket_keys set_node
  set_leaves ds num_buckets all_keys zero b nodes = ok nodes
  set_leaves ds num_buckets all_keys (suc left) b nodes = do
    leaf ← hash_bucket_contents ds (bucket_keys b num_buckets all_keys)
    set_leaves ds num_buckets all_keys left (b + 1) (set_node (leaf_index b num_buckets) leaf nodes)

  -- Build, for a number of buckets that validateBucketCount accepts.
  unfoldable pub build : (Hash → Hash → Hash) → DataStore p → ℕ → Result StorageError Tree
  unfolding set_leaves combine_levels zeros
  build combine ds num_buckets = do
    all_keys ← keys p ds
    leaves ← set_leaves ds num_buckets all_keys num_buckets 0 (zeros (2 * num_buckets - 1))
    ok (record {
      num_buckets = num_buckets;
      nodes = combine_levels combine (num_buckets - 1) leaves;
    })
