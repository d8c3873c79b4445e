-- ===== src/Coordinator/Freshness.antt =====
-- A read after an acknowledged write: when W + R > N, what the read returns covers the write.
use distributed_kv_data_stor.Prelude.{
  ℕ, zero, suc, ◌+◌, ◌≤◌, ◌<◌, Str, ◌≡◌, refl, sym, ap, subst, Bool, true, false, some, List, [],
  ◌∷◌, ◌++◌, length, length-append, take, arith, Bool-cases, Result-cases, ok, inl, inr, Memᴰ, leb,
  if◌then◌else◌,
}
use mathlib.Core.List
use distributed_kv_data_stor.VectorClock.{Snapshot}
use distributed_kv_data_stor.Model.{DataItem}
use distributed_kv_data_stor.Versioning.Cover.{CoveredBy}
use distributed_kv_data_stor.HashRing.{HashRing, get_preference_list}
use distributed_kv_data_stor.HashRing.Claims.{Distinct}
use distributed_kv_data_stor.HashRing.Replicas.{
  take-mem, take-Distinct, get_preference_list-IsPreference,
}
use distributed_kv_data_stor.Persister.{Persister, Found}
use distributed_kv_data_stor.DataStore.{DataStore, get}
use distributed_kv_data_stor.Coordinator.{QuorumConfig, Placement, is_replica_for}
use distributed_kv_data_stor.Coordinator.Forward.{is_replica_for-IsPlacement}
use distributed_kv_data_stor.Coordinator.Gather.{
  FetchResult, read_ok, ReadProgress, local_read, coordinate_get,
}
use distributed_kv_data_stor.Coordinator.Read.{
  all_fetched, Gathered, Gathered-now, collect_reads-Gathered,
}
use distributed_kv_data_stor.Coordinator.Overlap.{
  quorums-meet, Distinct-append, answerers, ids_of, length-answerers, answerers-Response,
  Response-id, answerers-Distinct, take-results,
}

-- Enough of a key's replicas for a write to be acknowledged, each named once.
pub record WriteQuorum (listed : List Str) (w : ℕ) (writers : List Str) : Type 0 where
  pub distinct : Distinct writers
  pub replicas : (id : Str) → Memᴰ id writers → Memᴰ id listed
  pub enough : w ≤ length writers

module _ {V : Type 0} where
  ids_of-take :
      (n : ℕ) (results : List (FetchResult V)) → ids_of (take n results) ≡ take n (ids_of results)
  ids_of-take zero results = refl
  ids_of-take (suc n) [] = refl
  ids_of-take (suc n) (res ∷ results) = ap (λ l. res.peer_id ∷ l) (ids_of-take n results)

  -- The results of a read, as far as they matter here: different peers, all of them replicas, and
  -- those that have the write answer with versions that cover it.
  pub record AnswersKnow (listed writers : List Str) (c : Snapshot) (results : List (FetchResult V))
      : Type 0 where
    pub once : Distinct (ids_of results)
    pub replicas : (id : Str) → Memᴰ id (ids_of results) → Memᴰ id listed
    pub covers :
        (res : FetchResult V) (items : List (DataItem V))
        → Memᴰ res results
        → Memᴰ res.peer_id writers
        → res.answer ≡ some items
        → CoveredBy items c

  -- The same for what the read starts from: the local read, of the nodes `locals`.
  record StartKnows (listed writers locals : List Str) (c : Snapshot)
      (results : List (FetchResult V)) (p : ReadProgress V) : Type 0 where
    once : Distinct locals
    apart : (id : Str) → Memᴰ id locals → Memᴰ id (ids_of results) → ⊥
    replicas : (id : Str) → Memᴰ id locals → Memᴰ id listed
    counted : length locals ≡ p.responses
    covers : (id : Str) → Memᴰ id locals → Memᴰ id writers → CoveredBy p.merged c

  Gathered-covers :
      (listed writers locals : List Str) (w needed : ℕ) (c : Snapshot)
      (results : List (FetchResult V)) (p : ReadProgress V) (merged : List (DataItem V))
      → WriteQuorum listed w writers
      → length listed < w + needed
      → AnswersKnow listed writers c results
      → StartKnows listed writers locals c results p
      → Gathered needed results p merged
      → CoveredBy merged c
  Gathered-covers listed writers locals w needed c results p merged q more a s g =
      let (id, wrote, reads) =
        quorums-meet listed writers readers q.distinct readers-Distinct q.replicas readers_listed
          many in
      elim (List.Memᴰ.append_cases locals reads) [
        | inl k ↦ (g.covers c).1 (inl (s.covers id k wrote))
        | inr k ↦
            let r = answerers-Response (take g.taken results) id k in
            (g.covers c).1 (
              inr (record {
                by = r.by;
                items = r.items;
                mem = r.mem;
                answered = r.answered;
                covers =
                    a.covers r.by r.items (take-mem g.taken results r.mem)
                      (subst (λ i. Memᴰ i writers) (sym r.exact) wrote) r.answered;
              }))
      ]
    where
      readers : List Str
      readers = locals ++ answerers (take g.taken results)

      answered_id :
          (id : Str) → Memᴰ id (answerers (take g.taken results)) → Memᴰ id (ids_of results)
      answered_id id m =
          Response-id results id
            (take-results g.taken results id (answerers-Response (take g.taken results) id m))

      readers-Distinct : Distinct readers
      readers-Distinct =
          Distinct-append locals (answerers (take g.taken results)) s.once
            (answerers-Distinct (take g.taken results) (
              subst Distinct (sym (ids_of-take g.taken results))
                (take-Distinct g.taken (ids_of results) a.once)))
            (λ id m k. s.apart id m (answered_id id k))

      readers_listed : (id : Str) → Memᴰ id readers → Memᴰ id listed
      readers_listed id m = elim (List.Memᴰ.append_cases locals m) [
        | inl k ↦ s.replicas id k
        | inr k ↦ a.replicas id (answered_id id k)
      ]

      many : length listed < length writers + length readers
      many =
          let n = length-append locals (answerers (take g.taken results)) in
          let k = length-answerers (take g.taken results) in
          let counted = s.counted in let enough = q.enough in let got = g.enough in omega arith

module _ {V : Type 0} (p : Persister V) (self : Str) (config : QuorumConfig) (ring : HashRing)
    (key : Str) (ds : DataStore p) where
  abbrev placed : Placement
  placed = is_replica_for self config ring key

  coordinate_get-Gathered :
      (results : List (FetchResult V)) (merged : List (DataItem V))
      → coordinate_get p self config ring key (all_fetched results) ds ≡ read_ok merged
      → Gathered config.r results (local_read p placed.is_replica key ds) merged
  unfolding coordinate_get
  coordinate_get-Gathered results merged h =
      elim (Bool-cases (leb config.r (local_read p placed.is_replica key ds).responses)) [
        | inl e ↦
            let same : (local_read p placed.is_replica key ds).merged ≡ merged = ground arith in
            subst (Gathered config.r results (local_read p placed.is_replica key ds)) same
              (Gathered-now config.r results (local_read p placed.is_replica key ds) (ground arith))
        | inr e ↦
            collect_reads-Gathered config.r
              (if placed.is_replica then length placed.peers + 1 else length placed.peers)
              (length placed.peers) results (local_read p placed.is_replica key ds) merged
              (ground arith)
      ]

  -- The local read knows the write if this node is one of the writers.
  start_knows :
      (writers : List Str) (c : Snapshot) (results : List (FetchResult V)) (b : Bool)
      → placed.is_replica ≡ b
      → ((id : Str) → Memᴰ id (ids_of results) → Memᴰ id placed.peers)
      → (Memᴰ self writers → (f : Found V) → get p key ds ≡ ok f → CoveredBy f.items c)
      → (locals : List Str) × StartKnows
          (get_preference_list ring key config.n)
          writers
          locals
          c
          results
          (local_read p b key ds)
  unfolding local_read
  start_knows writers c results false e peers knows = (
    [],
    record {
      once = tt;
      apart = λ id m k. elim m [ ];
      replicas = λ id m. elim m [ ];
      counted = refl;
      covers = λ id m k. elim m [ ];
    },
  )
  start_knows writers c results true e peers knows = elim (Result-cases (get p key ds)) [
    | inr (x, k) ↦
        rw (k, local_read)
          (
            [],
            record {
              once = tt;
              apart = λ id m k. elim m [ ];
              replicas = λ id m. elim m [ ];
              counted = refl;
              covers = λ id m k. elim m [ ];
            },
          )
    | inl (f, k) ↦
        rw (k, local_read)
          (
            self ∷ [],
            record {
              once = (λ m. elim m [ ], tt);
              apart = λ id m l.
                  (((is_replica_for-IsPlacement self config ring key).peers_iff id).0
                      (peers id l)).1
                    (List.Memᴰ.eq_of_singleton m);
              replicas = λ id m.
                  subst (λ i. Memᴰ i (get_preference_list ring key config.n))
                    (sym (List.Memᴰ.eq_of_singleton m))
                    ((is_replica_for-IsPlacement self config ring key).replica_iff.0 e);
              counted = refl;
              covers =
                  λ id m w. knows (subst (λ i. Memᴰ i writers) (List.Memᴰ.eq_of_singleton m) w) f k;
            },
          )
  ]

  -- Let W replicas of the key at least hold versions that cover a clock, as they do after a write
  -- with that clock was acknowledged, and let W + R be more than N. Then a read that succeeds, on
  -- any node and with whatever answers, returns versions that cover the clock.
  pub coordinate_get-covers :
      (writers : List Str) (c : Snapshot) (results : List (FetchResult V))
      (merged : List (DataItem V))
      → 0 < config.n
      → config.n < config.w + config.r
      → WriteQuorum (get_preference_list ring key config.n) config.w writers
      → (Memᴰ self writers → (f : Found V) → get p key ds ≡ ok f → CoveredBy f.items c)
      → AnswersKnow placed.peers writers c results
      → coordinate_get p self config ring key (all_fetched results) ds ≡ read_ok merged
      → CoveredBy merged c
  coordinate_get-covers writers c results merged pos overlap q knows a h =
      let listed = get_preference_list ring key config.n in
      let bounded = (get_preference_list-IsPreference ring key config.n pos).bounded in
      let (locals, start) = start_knows writers c results placed.is_replica refl a.replicas knows in
      Gathered-covers listed writers locals config.w config.r c results
        (local_read p placed.is_replica key ds) merged q (omega arith)
        (record {
          once = a.once;
          replicas = λ id m.
              (((is_replica_for-IsPlacement self config ring key).peers_iff id).0
                (a.replicas id m)).0;
          covers = a.covers;
        })
        start (coordinate_get-Gathered results merged h)
