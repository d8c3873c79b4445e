-- ===== src/Coordinator/Acks.antt =====
-- The calls of two coordinators together: who holds a write that was acknowledged, when a read
-- succeeds, and what a read after the write returns.
use distributed_kv_data_stor.Prelude.{
  ℕ, ◌+◌, ◌<◌, Str, ◌≡◌, refl, sym, subst, Bool, true, false, Option, none, some, List, [], ◌∷◌,
  map, length, arith, Bool-cases, Option-cases, Result-cases, ok, inl, inr, Memᴰ, leb,
  if◌then◌else◌,
}
use mathlib.Core.List
use mathlib.Core.Option.{some-ne-none}
use distributed_kv_data_stor.VectorClock.{Snapshot}
use distributed_kv_data_stor.Model.{DataItem}
use distributed_kv_data_stor.Versioning.Cover.{CoveredBy}
use distributed_kv_data_stor.HashRing.{HashRing, get_preference_list}
use distributed_kv_data_stor.HashRing.Claims.{Distinct}
use distributed_kv_data_stor.Persister.{Persister, Found}
use distributed_kv_data_stor.DataStore.{DataStore, get, put}
use distributed_kv_data_stor.Coordinator.{
  QuorumConfig, ReplicateResult, Progress, Decision, acked, missed, canceled, waiting, Select,
  is_replica_for, decide_write, finish_put, put_as_replica, coordinate_put,
}
use distributed_kv_data_stor.Coordinator.Quorum.{acks, all_arrive, decide_write-counts}
use distributed_kv_data_stor.Coordinator.Forward.{is_replica_for-IsPlacement}
use distributed_kv_data_stor.Coordinator.Gather.{FetchResult, read_ok, local_read, coordinate_get}
use distributed_kv_data_stor.Coordinator.Read.{all_fetched, is_ok, responses_in, collect_reads-all}
use distributed_kv_data_stor.Coordinator.Freshness.{WriteQuorum, AnswersKnow, coordinate_get-covers}

-- The peers that acknowledged a write.
unfoldable pub ackers : List ReplicateResult → List Str
ackers [] = []
ackers (res ∷ results) = elim res.error [
  | none ↦ res.peer_id ∷ ackers results
  | some _ ↦ ackers results
]

abbrev pub peers_of : List ReplicateResult → List Str
peers_of results = map (λ (res : ReplicateResult). res.peer_id) results

length-ackers : (results : List ReplicateResult) → length (ackers results) ≡ acks results
unfolding ackers acks
length-ackers [] = refl
length-ackers (res ∷ results) = ground (arith, length-ackers results)

ackers-peers :
    (results : List ReplicateResult) (id : Str)
    → Memᴰ id (ackers results)
    → Memᴰ id (peers_of results)
unfolding ackers
ackers-peers [] id m = m
ackers-peers (res ∷ results) id m = elim (Option-cases res.error) [
  | inl e ↦
      elim (List.Memᴰ.cases_cons (
        subst
          (λ a. Memᴰ id (elim a [ none ↦ res.peer_id ∷ ackers results | some _ ↦ ackers results ]))
          e m)) [ inl f ↦ Memᴰ.head f | inr k ↦ Memᴰ.tail (ackers-peers results id k) ]
  | inr (x, e) ↦ Memᴰ.tail (
      ackers-peers results id (
        subst
          (λ a. Memᴰ id (elim a [ none ↦ res.peer_id ∷ ackers results | some _ ↦ ackers results ]))
          e m))
]

ackers-Distinct :
    (results : List ReplicateResult) → Distinct (peers_of results) → Distinct (ackers results)
unfolding ackers
ackers-Distinct [] d = tt
ackers-Distinct (res ∷ results) d = elim (Option-cases res.error) [
  | inl e ↦
      rw (e, ackers) (λ m. d.0 (ackers-peers results res.peer_id m), ackers-Distinct results d.1)
  | inr (x, e) ↦ rw (e, ackers) (ackers-Distinct results d.1)
]

-- The results of a write: each peer's once, and no other's.
pub record AnswersOf (peers : List Str) (results : List ReplicateResult) : Type 0 where
  pub all : length results ≡ length peers
  pub once : Distinct (peers_of results)
  pub peers_only : (id : Str) → Memᴰ id (peers_of results) → Memᴰ id peers

module _ {V : Type 0} (p : Persister V) (self : Str) (config : QuorumConfig) (ring : HashRing)
    (key : Str) (ds : DataStore p) where
  finish_put-acked :
      (closing : Bool) (prev : List (DataItem V)) (remaining : List ReplicateResult)
      (ds' : DataStore p) (d : Decision) (progress : Progress)
      → (finish_put p closing key prev remaining ds' d progress).error ≡ none
      → d ≡ acked
  unfolding finish_put
  finish_put-acked closing prev remaining ds' acked progress h = refl
  finish_put-acked closing prev remaining ds' missed progress h = absurd (some-ne-none _ h)
  finish_put-acked closing prev remaining ds' canceled progress h = absurd (some-ne-none _ h)
  finish_put-acked closing prev remaining ds' waiting progress h = absurd (some-ne-none _ h)

  put_as_replica-decided :
      (closing : Bool) (addr : ℕ) (value : V) (context : Option Snapshot) (peers : List Str)
      (selects : List (Select ReplicateResult)) (remaining : List ReplicateResult)
      → (put_as_replica p config closing addr key value context peers selects remaining ds).error
        ≡ none
      → (decide_write config peers selects).0 ≡ acked
  unfolding put_as_replica
  put_as_replica-decided closing addr value context peers selects remaining h =
      elim (Result-cases (get p key ds)) [
        | inr (e, k) ↦ absurd (ground arith)
        | inl (prev, k) ↦ elim (Option-cases (put p addr key value context ds).0) [
          | inl e ↦ absurd (ground arith)
          | inr (item, e) ↦
              finish_put-acked closing prev.items remaining (put p addr key value context ds).1
                (decide_write config peers selects).0 (decide_write config peers selects).1
                (ground arith)
        ]
      ]

  -- A coordinated write that reports success was made by a replica and acknowledged, the
  -- coordinator included, by W replicas of the key at least.
  pub coordinate_put-WriteQuorum :
      (closing : Bool) (addr : ℕ) (value : V) (context : Option Snapshot)
      (results remaining : List ReplicateResult)
      → AnswersOf (is_replica_for self config ring key).peers results
      → (coordinate_put p self config ring closing addr key value context
          (all_arrive results)
          remaining
          ds).error
        ≡ none
      → WriteQuorum (get_preference_list ring key config.n) config.w (self ∷ ackers results)
  unfolding coordinate_put
  coordinate_put-WriteQuorum closing addr value context results remaining answers h =
      let placed = is_replica_for self config ring key in
      let place = is_replica_for-IsPlacement self config ring key in
      elim (Bool-cases placed.is_replica) [
        | inr e ↦ absurd (ground arith)
        | inl e ↦
            let decided =
              put_as_replica-decided closing addr value context placed.peers (all_arrive results)
                remaining (ground arith) in
            let counted = decide_write-counts config placed.peers results answers.all in
            let n = length-ackers results in
            record {
              distinct = (
                λ m.
                    ((place.peers_iff self).0
                        (answers.peers_only self (ackers-peers results self m))).1
                      refl,
                ackers-Distinct results answers.once,
              );
              replicas = λ id m. elim (List.Memᴰ.cases_cons m) [
                | inl f ↦
                    subst (λ i. Memᴰ i (get_preference_list ring key config.n)) (sym f)
                      (place.replica_iff.0 e)
                | inr k ↦
                    ((place.peers_iff id).0 (answers.peers_only id (ackers-peers results id k))).0
              ];
              enough = ground arith;
            }
      ]

  local_read-one :
      (b : Bool) (n : ℕ)
      → (if b then n + 1 else n)
        ≡ (local_read p b key ds).responses + (local_read p b key ds).failures + n
  unfolding local_read
  local_read-one false n = omega arith
  local_read-one true n = elim (Result-cases (get p key ds)) [
    | inl (f, k) ↦ ground arith
    | inr (x, k) ↦ ground arith
  ]

  -- When every peer answers, a read succeeds exactly if the local read and the responses of the
  -- peers are R at least, whatever their order.
  pub coordinate_get-counts :
      (results : List (FetchResult V))
      → length results ≡ length (is_replica_for self config ring key).peers
      → is_ok (coordinate_get p self config ring key (all_fetched results) ds)
        ≡ leb config.r (
            (local_read p (is_replica_for self config ring key).is_replica key ds).responses
            + responses_in results)
  unfolding coordinate_get
  coordinate_get-counts results e =
      let placed = is_replica_for self config ring key in
      let start = local_read p placed.is_replica key ds in
      let total = if placed.is_replica then length placed.peers + 1 else length placed.peers in
      elim (Bool-cases (leb config.r start.responses)) [
        | inl h ↦ ground arith
        | inr h ↦ rw h (
            rw (← e) (
              collect_reads-all config.r
                (if placed.is_replica then length results + 1 else length results) results start
                (ground arith) (local_read-one placed.is_replica (length results))))
      ]

-- When W + R is more than N, a read after a write that was acknowledged returns versions that cover
-- the write, whichever replicas coordinate the two: `c` is a clock that the write's coordinator and
-- each peer that acknowledged it still cover when they answer the read.
pub get-after_put :
    {V : Type 0} (p : Persister V) (writer reader : Str) (config : QuorumConfig) (ring : HashRing)
    (key : Str) (ds ds' : DataStore p) (closing : Bool) (addr : ℕ) (value : V)
    (context : Option Snapshot) (results remaining : List ReplicateResult)
    (fetched : List (FetchResult V)) (merged : List (DataItem V)) (c : Snapshot)
    → 0 < config.n
    → config.n < config.w + config.r
    → AnswersOf (is_replica_for writer config ring key).peers results
    → (coordinate_put p writer config ring closing addr key value context
        (all_arrive results)
        remaining
        ds).error
      ≡ none
    → (Memᴰ reader (writer ∷ ackers results)
        → (f : Found V) → get p key ds' ≡ ok f
        → CoveredBy f.items c)
    → AnswersKnow (is_replica_for reader config ring key).peers (writer ∷ ackers results) c fetched
    → coordinate_get p reader config ring key (all_fetched fetched) ds' ≡ read_ok merged
    → CoveredBy merged c
get-after_put p writer reader config ring key ds ds' closing addr value context results remaining
      fetched merged c pos overlap answers success knows a h =
    coordinate_get-covers p reader config ring key ds' (writer ∷ ackers results) c fetched merged
      pos overlap
      (coordinate_put-WriteQuorum p writer config ring key ds closing addr value context results
        remaining answers success)
      knows a h
