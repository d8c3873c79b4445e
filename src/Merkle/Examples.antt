-- ===== src/Merkle/Examples.antt =====
-- The trees of two stores, one of which has one more write.
use distributed_kv_data_stor.Prelude.{
  ℕ, zero, suc, ◌+◌, ◌*◌, ◌<◌, Str, ◌≡◌, ◌≢◌, refl, none, [], ◌∷◌, Memᴰ, ◌↔◌, ok, arith, length,
}
use distributed_kv_data_stor.VectorClock.{build_from_context}
use distributed_kv_data_stor.HashRing.Fnv.{hash_key}
use distributed_kv_data_stor.Model.{DataItem}
use distributed_kv_data_stor.Versioning.{resolve}
use distributed_kv_data_stor.Persister.{Persister}
use distributed_kv_data_stor.Persister.InMemory.{Sets, in_memory}
use distributed_kv_data_stor.DataStore.{DataStore, keys, put, get}
use distributed_kv_data_stor.DataStore.Examples.{node_a, key_k, nothing_stored}
use distributed_kv_data_stor.Merkle.{
  Hash, Tree, bucket_keys, hash_bucket_contents, build, divergent_buckets,
}
use distributed_kv_data_stor.Merkle.Walk.{NoCollision}
use distributed_kv_data_stor.Merkle.Build.{divergent_buckets-build}

abbrev one_key : Persister ℕ
one_key = record {
  State = Sets ℕ;
  put = in_memory.put;
  get_all = in_memory.get_all;
  restore = in_memory.restore;
  keys = λ sets. ok (key_k ∷ []);
}

abbrev empty_store : DataStore one_key
empty_store = record { id = node_a; clock_id = node_a; state = nothing_stored }

abbrev written_store : DataStore one_key
unfolding put
written_store = (put one_key 1 key_k 1 none empty_store).1

-- Digests that are short enough to compute with.
abbrev digest : Str → Hash
digest bytes = length bytes

abbrev plain : DataItem ℕ → Str
plain item = item.value ∷ []

abbrev pair : Hash → Hash → Hash
pair l r = 100 * l + r + 1

abbrev empty_tree : Tree
empty_tree = record { num_buckets = 4; nodes = 302 ∷ 1 ∷ 201 ∷ 0 ∷ 0 ∷ 2 ∷ 0 ∷ [] }

abbrev written_tree : Tree
written_tree = record { num_buckets = 4; nodes = 502 ∷ 1 ∷ 401 ∷ 0 ∷ 0 ∷ 4 ∷ 0 ∷ [] }

the_bucket : divergent_buckets empty_tree written_tree ≡ 2 ∷ []
unfolding divergent_buckets
the_bucket = refl

built_empty : build one_key digest plain pair empty_store 4 ≡ ok empty_tree
unfolding build get keys hash_key
built_empty = refl

built_written : build one_key digest plain pair written_store 4 ≡ ok written_tree
unfolding build get keys written_store put hash_key build_from_context resolve
built_written = refl

no_collision : NoCollision pair empty_tree written_tree
no_collision zero low e = absurd (omega arith)
no_collision (suc zero) low e = (refl, refl)
no_collision (suc (suc zero)) low e = absurd (omega arith)
no_collision (suc (suc (suc i))) low e = absurd (omega arith)

divergent_buckets-build_example : Memᴰ 2 (divergent_buckets empty_tree written_tree) ↔ (
    (2 < 4)
    × (hash_bucket_contents one_key digest plain empty_store (bucket_keys 2 4 (key_k ∷ []))
        ≢ hash_bucket_contents one_key digest plain written_store (bucket_keys 2 4 (key_k ∷ []))))
divergent_buckets-build_example =
    divergent_buckets-build one_key digest plain pair empty_store written_store 4 empty_tree
      written_tree (key_k ∷ []) (key_k ∷ []) no_collision (omega arith) built_empty built_written
      (unfold keys in refl) (unfold keys in refl) 2
