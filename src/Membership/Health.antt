-- ===== src/Membership/Health.antt =====
-- A peer is marked dead exactly while its last pings have missed often enough.
use distributed_kv_data_stor.Prelude.{
  ℕ, ◌+◌, ◌<◌, Str, str_eq_refl, ◌≡◌, sym, ap, ◌∙◌, Bool, none, some, List, [], ◌∷◌, leb,
  if◌then◌else◌, arith,
}
use distributed_kv_data_stor.GoMap.{lookup, lookup-insert}
use distributed_kv_data_stor.Membership.{
  View, PeerHealth, Member, no_health, is_dead, health_of, observe, record_heartbeat,
}

-- How many pings at the end of the history were missed, after `n` before it.
unfoldable pub missed_at_end : ℕ → List Bool → ℕ
missed_at_end n [] = n
missed_at_end n (answered ∷ answers) = missed_at_end (if answered then 0 else n + 1) answers

-- The pings of one peer, the first one first.
unfoldable pub heartbeats : {C : Type 0} → ℕ → Str → List Bool → Member C → Member C
heartbeats max_missed peer_id [] node = node
heartbeats max_missed peer_id (answered ∷ answers) node =
    heartbeats max_missed peer_id answers (record_heartbeat max_missed peer_id answered node)

observe_lem :
    (max_missed : ℕ) (answered : Bool) (h : PeerHealth)
    → 0 < max_missed
    → h.dead ≡ leb max_missed h.misses
    → ((observe max_missed answered h).dead ≡ leb max_missed (observe max_missed answered h).misses)
      × ((observe max_missed answered h).misses ≡ (if answered then 0 else h.misses + 1))
unfolding observe
observe_lem max_missed answered h pos e = ground arith

module _ {C : Type 0} (max_missed : ℕ) (peer_id addr : Str) where
  is_dead-health_of : (node : Member C) → is_dead peer_id node ≡ (health_of peer_id node).dead
  unfolding is_dead health_of
  is_dead-health_of node = ground arith

  record_heartbeat_lem :
      (answered : Bool) (node : Member C)
      → lookup peer_id node.membership.members ≡ some addr
      → (health_of peer_id (record_heartbeat max_missed peer_id answered node)
          ≡ observe max_missed answered (health_of peer_id node))
        × ((record_heartbeat max_missed peer_id answered node).membership ≡ node.membership)
  unfolding record_heartbeat health_of
  record_heartbeat_lem answered node h = ground (
    arith,
    lookup-insert peer_id peer_id (observe max_missed answered (health_of peer_id node))
        node.health,
    str_eq_refl peer_id,
  )

  heartbeats_lem :
      (answers : List Bool) (node : Member C)
      → 0 < max_missed
      → lookup peer_id node.membership.members ≡ some addr
      → (health_of peer_id node).dead ≡ leb max_missed (health_of peer_id node).misses
      → is_dead peer_id (heartbeats max_missed peer_id answers node)
        ≡ leb max_missed (missed_at_end (health_of peer_id node).misses answers)
  unfolding heartbeats missed_at_end
  heartbeats_lem [] node pos member e = is_dead-health_of node ∙ e
  heartbeats_lem (answered ∷ answers) node pos member e =
      let (now, same) = record_heartbeat_lem answered node member in
      let (dead, misses) = observe_lem max_missed answered (health_of peer_id node) pos e in
      let next = record_heartbeat max_missed peer_id answered node in
      heartbeats_lem answers next pos (ap (λ (v : View). lookup peer_id v.members) same ∙ member) (
        ap (λ (h : PeerHealth). h.dead) now
        ∙ dead
        ∙ ap (λ (h : PeerHealth). leb max_missed h.misses) (sym now))
      ∙ ap (λ n. leb max_missed (missed_at_end n answers))
          (ap (λ (h : PeerHealth). h.misses) now ∙ misses)

  fresh_health :
      (node : Member C) → lookup peer_id node.health ≡ none → health_of peer_id node ≡ no_health
  unfolding health_of
  fresh_health node e = ground arith

  -- Whatever the answers to the pings of a member that was not pinged before, it is marked dead
  -- exactly while the last MaxMissedHeartbeats pings at least have all been missed: one answer
  -- brings it back.
  pub heartbeats-dead :
      (answers : List Bool) (node : Member C)
      → 0 < max_missed
      → lookup peer_id node.membership.members ≡ some addr
      → lookup peer_id node.health ≡ none
      → is_dead peer_id (heartbeats max_missed peer_id answers node)
        ≡ leb max_missed (missed_at_end 0 answers)
  heartbeats-dead answers node pos member fresh =
      let new = fresh_health node fresh in
      heartbeats_lem answers node pos member (rw new (ground arith))
      ∙ ap (λ (h : PeerHealth). leb max_missed (missed_at_end h.misses answers)) new
