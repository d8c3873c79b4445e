-- ===== src/Membership.antt =====
-- internal/node/view.go, setMembership of membership.go, and the health of the peers of
-- heartbeat.go and peers.go: the membership that a node holds, how it changes, and what pings show.
pub mod Sorted
pub mod Valid
pub mod Changes
pub mod Health
pub mod Examples
use distributed_kv_data_stor.Prelude.{
  ℕ, suc, ◌+◌, Str, str_eq, str_lt, contains_byte, Bool, true, false, not, ◌&&◌, ◌||◌, Option, none,
  some, List, [], ◌∷◌, ◌++◌, Result, ok, err, ltb, leb, ◌==◌, if◌then◌else◌, length, map,
}
use distributed_kv_data_stor.GoMap.{GoMap, lookup, insert, keys, copy}
use distributed_kv_data_stor.HashRing.{HashRing, RingError, new_hash_ring_from_members}

-- slices.Sorted on strings.
unfoldable pub insert_string : Str → List Str → List Str
unfolding str_lt
insert_string s [] = s ∷ []
insert_string s (t ∷ ts) =
    let rest = insert_string s ts in if str_lt t s then t ∷ rest else s ∷ t ∷ ts

unfoldable pub sorted : List Str → List Str
unfolding insert_string
sorted [] = []
sorted (s ∷ ss) = insert_string s (sorted ss)

-- The ways a member set can break the rules of validateMembers.
pub data InvalidMembership : Type 0 where
  no_members too_few_members empty_member_id : InvalidMembership
  forbidden_byte : Str → InvalidMembership
  empty_address : Str → InvalidMembership
  shared_address : Str → Str → Str → InvalidMembership

-- members[id], with Go's empty string for an id that is absent.
unfoldable pub address : Str → GoMap Str → Str
unfolding lookup
address id members = elim (lookup id members) [ some addr ↦ addr | none ↦ [] ]

-- The loop of validateMembers; `by_addr` is byAddr.
unfoldable pub check_members : List Str → GoMap Str → GoMap Str → Option InvalidMembership
unfolding address contains_byte insert lookup str_eq
check_members [] members by_addr = none
check_members (id ∷ ids) members by_addr =
    let addr = address id members in
    let rest = check_members ids members (insert addr id by_addr) in
    if str_eq id []
    then some empty_member_id
    else if contains_byte b'#' id || contains_byte 0 id
    then some (forbidden_byte id)
    else if str_eq addr []
    then some (empty_address id)
    else elim (lookup addr by_addr) [
      | some other ↦ some (shared_address other id addr)
      | none ↦ rest
    ]

unfoldable pub validate_members : GoMap Str → ℕ → Option InvalidMembership
unfolding sorted keys check_members
validate_members members n =
    if length members == 0
    then some no_members
    else if ltb (length members) n
    then some too_few_members
    else check_members (sorted (keys members)) members []

-- view
pub record View : Type 0 where
  pub epoch : ℕ
  pub fingerprint : Str
  pub members : GoMap Str
  pub ring : HashRing

-- peerHealth
pub record PeerHealth : Type 0 where
  pub misses : ℕ
  pub dead : Bool
  pub epoch : ℕ
  pub reachable : Bool

abbrev pub virtual_nodes_per_physical : ℕ
virtual_nodes_per_physical = 150

-- `fingerprint` is the hex digest that crypto/sha256 gives of the members and N.
module _ (fingerprint : GoMap Str → ℕ → Str) where
  unfoldable pub build_view : ℕ → GoMap Str → ℕ → Result RingError View
  unfolding sorted keys copy new_hash_ring_from_members
  build_view epoch members n =
      let members' = copy members in
      elim (new_hash_ring_from_members virtual_nodes_per_physical (sorted (keys members'))) [
        | err e ↦ err e
        | ok ring ↦ ok (record {
          epoch = epoch;
          fingerprint = fingerprint members' n;
          members = members';
          ring = ring;
        })
      ]

-- The part of a Node that a membership change and a ping work on. `C` are the connections.
pub record Member (C : Type 0) : Type 0 where
  pub membership : View
  pub clients : GoMap C
  pub retired : List C
  pub health : GoMap PeerHealth
  pub conflict_seen : GoMap Str
  pub mismatch_seen : GoMap Str
  pub handoffs : ℕ

pub data MembershipError : Type 0 where
  invalid_membership : InvalidMembership → MembershipError
  bad_ring : RingError → MembershipError
  fingerprint_mismatch stale_epoch membership_conflict not_persisted : MembershipError

module _ {A : Type 0} where
  -- `for id := range m { if _, ok := v.members[id]; !ok { delete(m, id) } }`
  unfoldable pub keep_members : GoMap Str → GoMap A → GoMap A
  unfolding lookup
  keep_members members [] = []
  keep_members members ((id, x) ∷ m) =
      let rest = keep_members members m in
      elim (lookup id members) [ some _ ↦ (id, x) ∷ rest | none ↦ rest ]

  -- The connections that retireClientsNotIn retires.
  unfoldable pub not_members : GoMap Str → GoMap A → List A
  unfolding lookup
  not_members members [] = []
  not_members members ((id, x) ∷ m) =
      let rest = not_members members m in
      elim (lookup id members) [ some _ ↦ rest | none ↦ x ∷ rest ]

abbrev pub no_health : PeerHealth
no_health = record { misses = 0; dead = false; epoch = 0; reachable = false }

-- What a ping's answer, or the lack of one, does to the entry.
unfoldable pub observe : ℕ → Bool → PeerHealth → PeerHealth
observe max_missed answered h =
    if answered then record h { reachable = answered; misses = 0; dead = false } else record h {
      reachable = answered;
      misses = h.misses + 1;
      dead = if leb max_missed (h.misses + 1) then true else h.dead;
    }

-- `claimedFingerprint != "" && v.fingerprint != claimedFingerprint`
unfoldable pub not_claimed : Str → View → Bool
unfolding str_eq
not_claimed claimed v = if str_eq claimed [] then false else not (str_eq v.fingerprint claimed)

module _ {C : Type 0} where
  unfoldable pub retire_clients_not_in : View → Member C → Member C
  unfolding keep_members not_members
  retire_clients_not_in v node = record node {
    retired = node.retired ++ not_members v.members node.clients;
    clients = keep_members v.members node.clients;
  }

  unfoldable pub prune_health : View → Member C → Member C
  unfolding keep_members
  prune_health v node = record node {
    health = keep_members v.members node.health;
    conflict_seen = keep_members v.members node.conflict_seen;
    mismatch_seen = keep_members v.members node.mismatch_seen;
  }

  -- setMembership, after the view is built. `persisted` tells whether persistView succeeds; no
  -- claimed fingerprint is the empty string. Starting the handoff is counted.
  unfoldable pub replace_view :
      Bool → Str → View → Member C → Result MembershipError Bool × Member C
  unfolding retire_clients_not_in prune_health str_eq not_claimed
  replace_view persisted claimed v node =
      let stored = record node { membership = v } in
      let pruned = prune_health v (retire_clients_not_in v stored) in
      if not_claimed claimed v
      then (err fingerprint_mismatch, node)
      else if ltb v.epoch node.membership.epoch
      then (err stale_epoch, node)
      else if v.epoch == node.membership.epoch && str_eq v.fingerprint node.membership.fingerprint
      then (ok false, node)
      else if v.epoch == node.membership.epoch
      then (err membership_conflict, node)
      else if persisted
      then (ok true, record pruned { handoffs = pruned.handoffs + 1 })
      else (err not_persisted, node)

  unfoldable pub set_membership :
      (GoMap Str → ℕ → Str)
      → ℕ
      → Bool
      → ℕ
      → GoMap Str
      → Str
      → Member C
      → Result MembershipError Bool × Member C
  unfolding validate_members build_view replace_view
  set_membership fingerprint n persisted epoch members claimed node =
      elim (validate_members members n) [
        | some e ↦ (err (invalid_membership e), node)
        | none ↦ elim (build_view fingerprint epoch members n) [
          | err e ↦ (err (bad_ring e), node)
          | ok v ↦ replace_view persisted claimed v node
        ]
      ]

  unfoldable pub is_dead : Str → Member C → Bool
  unfolding lookup
  is_dead peer_id node = elim (lookup peer_id node.health) [ none ↦ false | some h ↦ h.dead ]

  -- The entry of a peer, made when it has none.
  unfoldable pub health_of : Str → Member C → PeerHealth
  unfolding lookup
  health_of peer_id node = elim (lookup peer_id node.health) [ none ↦ no_health | some h ↦ h ]

  unfoldable pub record_heartbeat : ℕ → Str → Bool → Member C → Member C
  unfolding lookup insert health_of observe
  record_heartbeat max_missed peer_id answered node =
      elim (lookup peer_id node.membership.members) [
        | none ↦ node
        | some _ ↦ record node {
          health =
              insert peer_id (observe max_missed answered (health_of peer_id node)) node.health;
        }
      ]

  unfoldable pub record_peer_epoch : Str → ℕ → Member C → Member C
  unfolding lookup insert health_of
  record_peer_epoch peer_id epoch node = elim (lookup peer_id node.membership.members) [
    | none ↦ node
    | some _ ↦ record node {
      health = insert peer_id (record (health_of peer_id node) { epoch = epoch }) node.health;
    }
  ]

  -- The loop of allPeersAtLeast, over the members of the view.
  unfoldable pub seen_at_least : Str → List Str → ℕ → Member C → Bool
  unfolding lookup str_eq
  seen_at_least self [] epoch node = true
  seen_at_least self (id ∷ ids) epoch node =
      let rest = seen_at_least self ids epoch node in
      if str_eq id self then rest else elim (lookup id node.health) [
        | none ↦ false
        | some h ↦ if ltb h.epoch epoch then false else rest
      ]

  unfoldable pub all_peers_at_least : Str → View → ℕ → Member C → Bool
  unfolding seen_at_least keys
  all_peers_at_least self v epoch node = seen_at_least self (keys v.members) epoch node
