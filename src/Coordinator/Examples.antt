-- ===== src/Coordinator/Examples.antt =====
-- The coordinator at concrete inputs: two nodes, each a replica of every key, with N = 2.
use distributed_kv_data_stor.Prelude.{
  ℕ, ◌+◌, Str, str_eq, ◌≡◌, refl, sym, ◌∙◌, subst, Result, ap, true, false, Option, none, some,
  List, [], ◌∷◌, Memᴰ, ok, err, arith, leb, drop, if◌then◌else◌,
}
use mathlib.Core.List
use mathlib.Core.Option.{some-injective}
use distributed_kv_data_stor.VectorClock.{build_from_context}
use distributed_kv_data_stor.Model.{DataItem}
use distributed_kv_data_stor.Versioning.{union_vector_clock}
use distributed_kv_data_stor.Versioning.Cover.{clock_of, CoveredBy, covered_self}
use distributed_kv_data_stor.HashRing.{
  HashRing, new_hash_ring, place_all, sort_ring, get_preference_list,
}
use distributed_kv_data_stor.Persister.{StorageError, Found}
use distributed_kv_data_stor.Persister.InMemory.{restore_in, in_memory-IsMergingStore}
use distributed_kv_data_stor.DataStore.{DataStore, get, put, restore_versions}
use distributed_kv_data_stor.DataStore.Examples.{
  node_a, key_k, store, empty_store, item_at, found_one, one_write,
}
use distributed_kv_data_stor.Coordinator.{
  QuorumConfig, Code, unavailable, is_replica_for, ReplicateResult, acked, missed, decide_write,
  drain_results, put_as_replica, coordinate_put,
}
use distributed_kv_data_stor.Coordinator.Quorum.{
  acks, unreachable, all_arrive, decide_write-counts, decide_write-drain,
}
use distributed_kv_data_stor.Coordinator.Write.{
  outcome, put_as_replica-acked, put_as_replica-rolls_back,
}
use distributed_kv_data_stor.Coordinator.Gather.{
  FetchResult, read_ok, local_read, coordinate_get, Attempt, accepted, refused, forward_put,
}
use distributed_kv_data_stor.Coordinator.Read.{all_fetched, is_ok, responses_in}
use distributed_kv_data_stor.Coordinator.Forward.{
  Ended, askable, forward_put-Ended, IsPlacement, is_replica_for-IsPlacement,
}
use distributed_kv_data_stor.Coordinator.Freshness.{WriteQuorum, AnswersKnow}
use distributed_kv_data_stor.Coordinator.Acks.{
  ackers, AnswersOf, coordinate_put-WriteQuorum, coordinate_get-counts, get-after_put,
}

abbrev node_b : Str
node_b = b'b' ∷ []

abbrev two_nodes : HashRing
unfolding place_all sort_ring
two_nodes = sort_ring (place_all (node_a ∷ node_b ∷ []) (new_hash_ring 2))

abbrev both : QuorumConfig
both = record { n = 2; w = 2; r = 1 }

abbrev result_of : Str → Option Code → ReplicateResult
result_of id e = record { peer_id = id; error = e }

abbrev b_acks : List ReplicateResult
b_acks = result_of node_b none ∷ []

abbrev b_is_away : List ReplicateResult
b_is_away = result_of node_b (some unavailable) ∷ []

decide_write-counts_example :
    (decide_write both (node_b ∷ []) (all_arrive b_acks)).0
    ≡ (if leb 2 (1 + acks b_acks) then acked else missed)
decide_write-counts_example = decide_write-counts both (node_b ∷ []) b_acks refl

decide_write-drain_example :
    let progress = (decide_write both (node_b ∷ []) (all_arrive b_is_away)).1 in
    drain_results (drop progress.received b_is_away) progress.unavailable_peers
    ≡ unreachable b_is_away
decide_write-drain_example = decide_write-drain both (node_b ∷ []) b_is_away refl

abbrev b_accepts : Str → Attempt
b_accepts id = if str_eq id node_b then accepted else refused unavailable

forward_put-Ended_example :
    Ended b_accepts []
      (askable (λ id. false) b_accepts (node_a ∷ node_b ∷ []))
      (forward_put (λ id. false) b_accepts (node_a ∷ node_b ∷ []) [])
forward_put-Ended_example = forward_put-Ended (λ id. false) b_accepts (node_a ∷ node_b ∷ []) []

is_replica_for-IsPlacement_example :
    IsPlacement node_a
      (get_preference_list two_nodes key_k 2)
      (is_replica_for node_a both two_nodes key_k)
is_replica_for-IsPlacement_example = is_replica_for-IsPlacement node_a both two_nodes key_k

a_places :
    is_replica_for node_a both two_nodes key_k ≡ record { is_replica = true; peers = node_b ∷ [] }
unfolding is_replica_for get_preference_list two_nodes
a_places = refl

b_places :
    is_replica_for node_b both two_nodes key_k ≡ record { is_replica = true; peers = node_a ∷ [] }
unfolding is_replica_for get_preference_list two_nodes
b_places = refl

abbrev found_none : Found ℕ
found_none = record { items = []; found = false }

first_write : put store 1 key_k 1 none empty_store ≡ (some (item_at 1 1), one_write)
unfolding put build_from_context one_write union_vector_clock
first_write = refl

nothing_read : get store key_k empty_store ≡ ok found_none
unfolding get
nothing_read = refl

put_as_replica-acked_example :
    ((outcome store both 1 key_k 1 none
        (node_b ∷ [])
        b_acks
        empty_store
        one_write
        found_none
        (item_at 1 1)
        nothing_read
        first_write
        refl
        false).error
      ≡ none)
    × ((outcome store both 1 key_k 1 none
          (node_b ∷ [])
          b_acks
          empty_store
          one_write
          found_none
          (item_at 1 1)
          nothing_read
          first_write
          refl
          false).store
        ≡ one_write)
    × ((outcome store both 1 key_k 1 none
          (node_b ∷ [])
          b_acks
          empty_store
          one_write
          found_none
          (item_at 1 1)
          nothing_read
          first_write
          refl
          false).failed
        ≡ 0)
    × ((outcome store both 1 key_k 1 none
          (node_b ∷ [])
          b_acks
          empty_store
          one_write
          found_none
          (item_at 1 1)
          nothing_read
          first_write
          refl
          false).hinted
        ≡ (if false then [] else unreachable b_acks))
put_as_replica-acked_example =
    put_as_replica-acked store both 1 key_k 1 none (node_b ∷ []) b_acks empty_store one_write
      found_none (item_at 1 1) nothing_read first_write refl false (unfold acks in omega arith)

put_as_replica-rolls_back_example : found_none.items ≡ found_none.items
unfolding put_as_replica restore_versions get put restore_in str_eq
put_as_replica-rolls_back_example =
    put_as_replica-rolls_back store both 1 key_k 1 none (node_b ∷ []) b_is_away empty_store
      one_write found_none (item_at 1 1) nothing_read first_write refl in_memory-IsMergingStore
      false (unfold acks in omega arith) refl found_none refl

b_answered : AnswersOf (is_replica_for node_a both two_nodes key_k).peers b_acks
b_answered =
    rw a_places (record { all = refl; once = (λ m. elim m [ ], tt); peers_only = λ id m. m })

put_succeeds :
    (coordinate_put store node_a both two_nodes false 1 key_k 1 none
      (all_arrive b_acks)
      []
      empty_store).error
    ≡ none
unfolding coordinate_put two_nodes get_preference_list get put
put_succeeds = refl

coordinate_put-WriteQuorum_example :
    WriteQuorum (get_preference_list two_nodes key_k 2) 2 (node_a ∷ ackers b_acks)
coordinate_put-WriteQuorum_example =
    coordinate_put-WriteQuorum store node_a both two_nodes key_k empty_store false 1 1 none b_acks
      [] b_answered put_succeeds

-- The read on the second node: its own copy is enough for R = 1.
abbrev copy_at_b : DataStore store
copy_at_b = record { id = node_b; clock_id = node_b; state = one_write.state }

abbrev no_answers : List (FetchResult ℕ)
no_answers = []

abbrev a_answers : List (FetchResult ℕ)
a_answers = record { peer_id = node_a; answer = some (item_at 1 1 ∷ []) } ∷ []

a_knows :
    AnswersKnow
      (is_replica_for node_b both two_nodes key_k).peers
      (node_a ∷ ackers b_acks)
      (clock_of (item_at 1 1))
      a_answers
a_knows = rw b_places (record {
  once = (λ m. elim m [ ], tt);
  replicas = λ id m. m;
  covers = λ res items m w e.
      subst (λ l. CoveredBy l (clock_of (item_at 1 1)))
        (some-injective (item_at 1 1 ∷ []) items
          (sym (ap (λ (r : FetchResult ℕ). r.answer) (List.Memᴰ.eq_of_singleton m)) ∙ e))
        (covered_self (Memᴰ.head refl));
})

read_succeeds :
    coordinate_get store node_b both two_nodes key_k (all_fetched a_answers) copy_at_b
    ≡ read_ok (item_at 1 1 ∷ [])
unfolding coordinate_get two_nodes get_preference_list one_write get build_from_context
read_succeeds = refl

abbrev ok_items : Result StorageError (Found ℕ) → List (DataItem ℕ)
ok_items (ok f) = f.items
ok_items (err _) = []

b_reads : get store key_k copy_at_b ≡ ok found_one
unfolding get one_write build_from_context
b_reads = refl

read_at_b :
    (f : Found ℕ) → get store key_k copy_at_b ≡ ok f → CoveredBy f.items (clock_of (item_at 1 1))
read_at_b f h =
    subst (λ l. CoveredBy l (clock_of (item_at 1 1))) (ap ok_items (sym b_reads ∙ h))
      (covered_self (Memᴰ.head refl))

get-after_put_example : CoveredBy (item_at 1 1 ∷ []) (clock_of (item_at 1 1))
get-after_put_example =
    get-after_put store node_a node_b both two_nodes key_k empty_store copy_at_b false 1 1 none
      b_acks [] a_answers (item_at 1 1 ∷ []) (clock_of (item_at 1 1)) (omega arith) (omega arith)
      b_answered put_succeeds (λ m. read_at_b) a_knows read_succeeds

coordinate_get-counts_example :
    is_ok (coordinate_get store node_b both two_nodes key_k (all_fetched a_answers) copy_at_b)
    ≡ leb 1 (
        (local_read store
          (is_replica_for node_b both two_nodes key_k).is_replica
          key_k
          copy_at_b).responses
        + responses_in a_answers)
coordinate_get-counts_example =
    coordinate_get-counts store node_b both two_nodes key_k copy_at_b a_answers (rw b_places refl)
