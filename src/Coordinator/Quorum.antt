-- ===== src/Coordinator/Quorum.antt =====
-- The write quorum: when every replica answers, the early exits of the loop decide what counting
-- all the answers would decide.
use distributed_kv_data_stor.Prelude.{
  ℕ, suc, ◌+◌, ◌-◌, ◌≤◌, ◌<◌, Str, ◌≡◌, refl, sym, ap, ◌∙◌, none, some, List, [], ◌∷◌, ◌++◌, map,
  ltb, leb, if◌then◌else◌, length, drop, arith, Bool-cases, inl, inr, append_assoc, append-nil,
}
use distributed_kv_data_stor.Coordinator.{
  QuorumConfig, ReplicateResult, Select, arrives, acked, missed, Progress, is_unavailable,
  note_unavailable, receive, collect_acks, decide_write, drain_results,
}

-- How many of the results are acks.
unfoldable pub acks : List ReplicateResult → ℕ
acks [] = 0
acks (res ∷ results) = elim res.error [ none ↦ suc (acks results) | some _ ↦ acks results ]

-- The peers that were unavailable, in the order of their results.
unfoldable pub unreachable : List ReplicateResult → List Str
unfolding is_unavailable
unreachable [] = []
unreachable (res ∷ results) =
    let rest = unreachable results in if is_unavailable res.error then res.peer_id ∷ rest else rest

abbrev pub all_arrive : List ReplicateResult → List (Select ReplicateResult)
all_arrive results = map arrives results

acks-le : (results : List ReplicateResult) → acks results ≤ length results
unfolding acks
acks-le [] = omega arith
acks-le (res ∷ results) = ground (arith, acks-le results)

collect_acks-all :
    (needed total : ℕ) (results : List ReplicateResult) (p : Progress)
    → p.successes < needed
    → total ≡ p.successes + p.failures + length results
    → (collect_acks needed total (length results) (all_arrive results) p).0
      ≡ (if leb needed (p.successes + acks results) then acked else missed)
unfolding collect_acks acks receive
collect_acks-all needed total [] p lt e = ground arith
collect_acks-all needed total (res ∷ results) p lt e =
    ground (arith, acks-le results, collect_acks-all needed total results (receive res p))

-- When every replica answers, a write is acknowledged exactly if the local write and the acks of
-- the replicas are W at least, whatever the order of the answers; otherwise it has missed its
-- quorum. The loop never runs on without deciding.
pub decide_write-counts :
    (config : QuorumConfig) (peers : List Str) (results : List ReplicateResult)
    → length results ≡ length peers
    → (decide_write config peers (all_arrive results)).0
      ≡ (if leb config.w (1 + acks results) then acked else missed)
unfolding decide_write
decide_write-counts config peers results e = elim (Bool-cases (leb config.w 1)) [
  | inl h ↦ ground arith
  | inr h ↦ rw h (
      rw (← e) (
        collect_acks-all config.w (length results + 1) results
          (record { successes = 1; failures = 0; received = 0; unavailable_peers = [] })
          (ground arith) (omega arith)))
]

drain_results-eq :
    (results : List ReplicateResult) (peers : List Str)
    → drain_results results peers ≡ peers ++ unreachable results
unfolding drain_results unreachable note_unavailable
drain_results-eq [] peers = sym (append-nil peers)
drain_results-eq (res ∷ results) peers = elim (Bool-cases (is_unavailable res.error)) [
  | inl e ↦ rw e (
      drain_results-eq results (peers ++ res.peer_id ∷ [])
      ∙ append_assoc peers (res.peer_id ∷ []) (unreachable results))
  | inr e ↦ rw e (drain_results-eq results peers)
]

receive-notes :
    (res : ReplicateResult) (p : Progress)
    → ((receive res p).received ≡ p.received + 1)
      × ((receive res p).unavailable_peers ≡ note_unavailable res p.unavailable_peers)
unfolding receive
receive-notes res p = ground arith

-- `p'` has received the first of `results`, and what it noted of them is what the drain would have.
abbrev Drained : List ReplicateResult → Progress → Progress → Type 0
Drained results p p' =
    (k : ℕ) × (p'.received ≡ p.received + k)
    × (drain_results (drop k results) p'.unavailable_peers
        ≡ drain_results results p.unavailable_peers)

Drained-one :
    (res : ReplicateResult) (results : List ReplicateResult) (p : Progress)
    → Drained (res ∷ results) p (receive res p)
unfolding drain_results
Drained-one res results p = let (n, u) = receive-notes res p in (1, n, ap (drain_results results) u)

Drained-next :
    (res : ReplicateResult) (results : List ReplicateResult) (p p' : Progress)
    → Drained results (receive res p) p'
    → Drained (res ∷ results) p p'
unfolding drain_results
Drained-next res results p p' (k, n, d) =
    let (m, u) = receive-notes res p in (suc k, omega arith, d ∙ ap (drain_results results) u)

-- What the loop has noted and what the drain adds are, together, all the unreachable peers.
collect_acks-Drained :
    (needed total : ℕ) (results : List ReplicateResult) (p : Progress)
    → Drained results p (collect_acks needed total (length results) (all_arrive results) p).1
unfolding collect_acks
collect_acks-Drained needed total [] p = (0, omega arith, refl)
collect_acks-Drained needed total (res ∷ results) p =
    elim (Bool-cases (leb needed (receive res p).successes)) [
      | inl e ↦ rw e (Drained-one res results p)
      | inr e ↦ elim (Bool-cases (ltb (total - (receive res p).failures) needed)) [
        | inl f ↦ rw (e, f) (Drained-one res results p)
        | inr f ↦
            rw (e, f)
              (Drained-next res results p
                (collect_acks needed total (length results) (all_arrive results) (receive res p)).1
                (collect_acks-Drained needed total results (receive res p)))
      ]
    ]

abbrev before_loop : Progress
before_loop = record { successes = 1; failures = 0; received = 0; unavailable_peers = [] }

Drained-all :
    (results : List ReplicateResult) (p : Progress)
    → Drained results before_loop p
    → drain_results (drop p.received results) p.unavailable_peers ≡ unreachable results
Drained-all results p (k, n, d) =
    let same : p.received ≡ k = omega arith in
    ap (λ m. drain_results (drop m results) p.unavailable_peers) same
    ∙ d
    ∙ drain_results-eq results []

-- Once a write is decided, the loop and the drain together have noted exactly the peers that were
-- unavailable, in the order of their answers, whether they answered before the decision or after.
pub decide_write-drain :
    (config : QuorumConfig) (peers : List Str) (results : List ReplicateResult)
    → length results ≡ length peers
    → let progress = (decide_write config peers (all_arrive results)).1 in
      drain_results (drop progress.received results) progress.unavailable_peers
      ≡ unreachable results
unfolding decide_write
decide_write-drain config peers results e = elim (Bool-cases (leb config.w 1)) [
  | inl h ↦ rw h (drain_results-eq results [])
  | inr h ↦ rw h (
      rw (← e) (
        Drained-all results
          (collect_acks config.w (length results + 1) (length results) (all_arrive results)
            before_loop).1
          (collect_acks-Drained config.w (length results + 1) results before_loop)))
]
