-- ===== src/Planner.antt =====
-- operator/internal/planner/planner.go: the operator's next step for a cluster, a function of what it
-- observes. This file has the data: the observation (also of operator/internal/kvadmin/kvadmin.go and
-- operator/api/v1alpha1/kvcluster_types.go), the action, the status, and the small operations on them.
-- Message texts are left out. A time or a duration is a number of nanoseconds, and the zero time is 0.
-- Epochs are uint64.
pub mod Checks
pub mod Steps
pub mod Place
pub mod Justified
pub mod Views
pub mod Justify
pub mod Decide
pub mod Safe
pub mod Settled
pub mod Progress
pub mod Examples
use distributed_kv_data_stor.Prelude.{
  ℕ, zero, suc, ◌+◌, ◌-◌, ◌%◌, ◌^◌, Str, str_eq, Bool, true, false, not, ◌&&◌, ◌||◌, Option, none,
  some, List, [], ◌∷◌, ltb, leb, ◌==◌, if◌then◌else◌, length, get_elem?,
}
use distributed_kv_data_stor.GoMap.{GoMap, lookup}
use distributed_kv_data_stor.Render.{ClusterName}

pub data Phase : Type 0 where
  phase_pending : Phase
  phase_ready : Phase
  phase_scaling : Phase
  phase_drain_blocked : Phase
  phase_degraded : Phase

-- What the planner reads of a KVCluster: its spec, and the status last written.
pub record Cluster : Type 0 where
  pub name : ClusterName
  pub replicas : ℕ
  pub drain_timeout : ℕ
  pub phase : Option Phase
  pub drain_started_at : Option ℕ

pub record StatefulSetObs : Type 0 where
  pub replicas : ℕ
  pub ready_replicas : ℕ
  pub rolled_out : Bool
  pub template_current : Bool

pub record ConfigMapObs : Type 0 where
  pub epoch : ℕ
  pub members : GoMap Str
  pub invalid : Str

-- The handoff of a pod, in its answer to GET /admin/membership.
pub record HandoffStatus : Type 0 where
  pub epoch : ℕ
  pub done : Bool

pub record MembershipObs : Type 0 where
  pub epoch : ℕ
  pub members : GoMap Str
  pub handoff : HandoffStatus

-- A pod's answer to GET /admin/handoff.
pub record HandoffObs : Type 0 where
  pub epoch : ℕ
  pub drained : Bool

pub record PodObs : Type 0 where
  pub ordinal : ℕ
  pub exists : Bool
  pub terminating : Bool
  pub ready : Bool
  pub since : ℕ
  pub membership : Option MembershipObs
  pub unreachable_since : ℕ
  pub drain : Option HandoffObs

pub record Observation : Type 0 where
  pub now : ℕ
  pub cluster : Cluster
  pub stateful_set : Option StatefulSetObs
  pub config_map : Option ConfigMapObs
  pub pods : List PodObs
  pub pvcs : List ℕ

pub record Config : Type 0 where
  pub grace : ℕ
  pub fast : ℕ
  pub slow : ℕ
  pub idle : ℕ

pub data Reason : Type 0 where
  creating_config_map : Reason
  creating_stateful_set : Reason
  config_map_missing : Reason
  config_map_unexpected : Reason
  address_mismatch : Reason
  membership_conflict : Reason
  unexplained_divergence : Reason
  pod_unavailable : Reason
  adding_pod : Reason
  waiting_for_epoch : Reason
  waiting_for_handoff : Reason
  removing_pod : Reason
  draining : Reason
  drain_blocked : Reason
  drained_reason : Reason
  waiting_for_pod_removal : Reason
  waiting_for_volume_removal : Reason
  waiting_for_old_volume : Reason
  waiting_for_pods : Reason
  rolling_update : Reason
  ready_reason : Reason

-- The kinds of action, each with the fields that it uses.
pub data ActionKind : Type 0 where
  act_none : ActionKind
  act_wait : ActionKind
  act_write_config_map : (epoch : ℕ) (members : GoMap Str) → ActionKind
  act_scale_stateful_set : (replicas : ℕ) → ActionKind
  act_update_template : (replicas : ℕ) → ActionKind
  act_post_membership : (ordinal epoch : ℕ) (members : GoMap Str) → ActionKind

pub record Action : Type 0 where
  pub kind : ActionKind
  pub reason : Reason
  pub requeue_after : ℕ

-- Go's empty string is none.
pub record Status : Type 0 where
  pub phase : Option Phase
  pub reason : Option Reason
  pub epoch : ℕ
  pub members : GoMap Str
  pub replicas : ℕ
  pub ready_replicas : ℕ
  pub drain_started_at : Option ℕ

pub record Decision : Type 0 where
  pub action : Action
  pub status : Status

-- What a call of the planner ends with: a decision, or Go's panic (a write to a nil map, a nil
-- pointer).
pub data Outcome : Type 0 where
  returns : Decision → Outcome
  panics : Outcome

-- The planner's fields: what it observes, its timings, and the status so far.
pub record Planner : Type 0 where
  pub obs : Observation
  pub cfg : Config
  pub st : Status

unfoldable pub reachable : PodObs → Bool
reachable p = elim p.membership [ none ↦ false | some m ↦ true ]

unfoldable pub healthy : PodObs → Bool
unfolding reachable
healthy p = p.exists && not p.terminating && p.ready && reachable p

-- maps.Equal
unfoldable pub has_entries : GoMap Str → GoMap Str → Bool
unfolding lookup str_eq
has_entries m [] = true
has_entries m ((k, v) ∷ rest) =
    elim (lookup k m) [ none ↦ false | some w ↦ str_eq v w ] && has_entries m rest

unfoldable pub maps_equal : GoMap Str → GoMap Str → Bool
unfolding has_entries
maps_equal a b = length a == length b && has_entries b a

-- Ec + 1 and Ec - 1, on a uint64.
abbrev pub next : ℕ → ℕ
next e = (e + 1) % 2 ^ 64

abbrev pub prev : ℕ → ℕ
prev e = (e + (2 ^ 64 - 1)) % 2 ^ 64

unfoldable pub decide : Planner → ActionKind → Phase → Reason → ℕ → Decision
decide p k phase reason after = record {
  action = record { kind = k; reason = reason; requeue_after = after };
  status = record p.st { phase = some phase; reason = some reason };
}

unfoldable pub wait : Planner → Phase → Reason → ℕ → Decision
unfolding decide
wait p phase reason after = decide p act_wait phase reason after

unfoldable pub act : Planner → ActionKind → Phase → Reason → Decision
unfolding decide
act p k phase reason = decide p k phase reason 0

-- The status with another start of the drain.
unfoldable pub with_drain : Planner → Option ℕ → Planner
with_drain p t = record p { st = record p.st { drain_started_at = t } }

-- A drain's start time is kept while the cluster is degraded.
unfoldable pub keep_drain : Planner → Planner
unfolding with_drain
keep_drain p = elim p.obs.cluster.drain_started_at [ none ↦ p | some t ↦ with_drain p (some t) ]

unfoldable pub degraded : Planner → Reason → Decision
unfolding wait keep_drain
degraded p reason = wait (keep_drain p) phase_degraded reason p.cfg.idle

unfoldable pub prev_phase : Planner → Phase
prev_phase p = elim p.obs.cluster.phase [ none ↦ phase_pending | some ph ↦ ph ]

unfoldable pub clear_degraded : Phase → Phase
clear_degraded phase_degraded = phase_scaling
clear_degraded phase_drain_blocked = phase_scaling
clear_degraded phase_pending = phase_pending
clear_degraded phase_ready = phase_ready
clear_degraded phase_scaling = phase_scaling

unfoldable pub waiting_phase : Planner → Phase
unfolding prev_phase clear_degraded
waiting_phase p = clear_degraded (prev_phase p)

abbrev pub no_pod : ℕ → PodObs
no_pod i = record {
  ordinal = i;
  exists = false;
  terminating = false;
  ready = false;
  since = 0;
  membership = none;
  unreachable_since = 0;
  drain = none;
}

unfoldable pub pod : Observation → ℕ → PodObs
pod obs i = elim (get_elem? obs.pods i) [ none ↦ no_pod i | some d ↦ d ]

unfoldable pub contains : List ℕ → ℕ → Bool
contains [] i = false
contains (j ∷ js) i = j == i || contains js i

unfoldable pub has_pvc : Observation → ℕ → Bool
unfolding contains
has_pvc obs i = contains obs.pvcs i
