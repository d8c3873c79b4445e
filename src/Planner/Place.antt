-- ===== src/Planner/Place.antt =====
-- classify places the observation at a step of a membership change; plan runs the checks, that step
-- and the check of the pods' health.
use distributed_kv_data_stor.Prelude.{
  ℕ, zero, suc, ◌+◌, ◌-◌, Bool, true, false, not, ◌&&◌, ◌||◌, Option, none, some, List, [], ◌∷◌,
  ltb, leb, ◌==◌, if◌then◌else◌, length, ok, err, ◌++◌,
}
use distributed_kv_data_stor.Render.{members}
use distributed_kv_data_stor.Planner.{
  phase_scaling, Planner, Decision, Outcome, returns, panics, StatefulSetObs, ConfigMapObs, PodObs,
  Observation, Config, Status, ActionKind, act_wait, act_none, act_post_membership,
  act_update_template, act_write_config_map, act_scale_stateful_set, waiting_for_epoch,
  removing_pod, unexplained_divergence, pod_unavailable, maps_equal, next, prev, act, wait,
  degraded, pod, healthy,
}
use distributed_kv_data_stor.Planner.Checks.{View, Started, bootstrap, read_views}
use distributed_kv_data_stor.Planner.Steps.{scale_up, drain, converged}

-- One membership: its epoch and its size.
pub record State : Type 0 where
  pub epoch : ℕ
  pub size : ℕ

unfoldable pub has_state : List State → ℕ → ℕ → Bool
has_state [] epoch size = false
has_state (s ∷ states) epoch size =
    (s.epoch == epoch && s.size == size) || has_state states epoch size

unfoldable pub all_in : Planner → List View → List State → Bool
unfolding has_state maps_equal members
all_in p [] allowed = true
all_in p (v ∷ views) allowed =
    has_state allowed v.epoch (length v.members)
    && maps_equal v.members (members p.obs.cluster.name (length v.members))
    && all_in p views allowed

-- seen[s] for one of the states.
unfoldable pub any_seen : List View → List State → Bool
unfolding has_state
any_seen [] states = false
any_seen (v ∷ views) states = has_state states v.epoch (length v.members) || any_seen views states

-- The membership of s - 1 members; for s = 0 its size is -1, which no view has.
unfoldable pub one_less : ℕ → ℕ → List State
one_less epoch s = if ltb 0 s then record { epoch = epoch; size = s - 1 } ∷ [] else []

-- The memberships that pods may hold before U2.
unfoldable pub before_scale_up : ℕ → ℕ → List State
before_scale_up epoch s =
    record { epoch = epoch; size = s + 1 }
    ∷ (if leb 1 epoch then record { epoch = prev epoch; size = s } ∷ [] else [])

-- The step's outcome, and the ordinal whose ill health the step expects.
pub record Placed : Type 0 where
  pub outcome : Outcome
  pub exempt : Option ℕ

-- The ConfigMap and the StatefulSet agree: converged, U3 or D2.
unfoldable pub classify_same :
    Planner → StatefulSetObs → ConfigMapObs → ℕ → List View → Option Placed
unfolding all_in any_seen one_less converged drain wait
classify_same p sts cm s views =
    let at_map : List State = record { epoch = cm.epoch; size = s } ∷ [] in
    let old : List State = one_less (prev cm.epoch) s in
    let smaller : List State = one_less (next cm.epoch) s in
    if all_in p views at_map
    then some (record { outcome = converged p sts cm s views; exempt = none })
    else if all_in p views (old ++ at_map) && leb 1 cm.epoch && any_seen views old
    then some (record {
      outcome = returns (wait p phase_scaling waiting_for_epoch p.cfg.fast);
      exempt = none;
    })
    else if all_in p views (at_map ++ smaller) && any_seen views smaller
    then some (record { outcome = returns (drain p s (next cm.epoch)); exempt = some (s - 1) })
    else none

-- None if no step produces the observation.
unfoldable pub classify :
    Planner → StatefulSetObs → ConfigMapObs → ℕ → ℕ → List View → Option Placed
unfolding all_in before_scale_up scale_up classify_same act
classify p sts cm s c views =
    if c == s + 1
    then if all_in p views (before_scale_up cm.epoch s)
      then some (record { outcome = returns (scale_up p s); exempt = none })
      else none
    else if c == s
    then classify_same p sts cm s views
    else if c + 1 == s && all_in p views (record { epoch = cm.epoch; size = c } ∷ [])
    then some (record {
      outcome = returns (act p (act_scale_stateful_set c) phase_scaling removing_pod);
      exempt = some (s - 1);
    })
    else none

unfoldable pub is_exempt : Option ℕ → ℕ → Bool
is_exempt none i = false
is_exempt (some j) i = j == i

-- The pod should be serving and has not been for longer than the grace.
unfoldable pub pod_is_unavailable : Planner → Option ℕ → ℕ → Bool
unfolding is_exempt healthy pod
pod_is_unavailable p exempt i =
    let pd : PodObs = pod p.obs i in
    let since : ℕ = if pd.ready then pd.unreachable_since else pd.since in
    if is_exempt exempt i || healthy pd || not pd.exists
    then false
    else not (since == 0) && ltb p.cfg.grace (p.obs.now - since)

unfoldable pub unavailable : Planner → Option ℕ → ℕ → ℕ → Bool
unfolding pod_is_unavailable
unavailable p exempt zero i = false
unavailable p exempt (suc left) i =
    pod_is_unavailable p exempt i || unavailable p exempt left (i + 1)

unfoldable pub is_wait : ActionKind → Bool
is_wait act_none = false
is_wait act_wait = true
is_wait (act_write_config_map epoch m) = false
is_wait (act_scale_stateful_set replicas) = false
is_wait (act_update_template replicas) = false
is_wait (act_post_membership ordinal epoch m) = false

-- The status without a drain, unless the action is to wait.
unfoldable pub clear_drain : Decision → Decision
unfolding is_wait
clear_drain d =
    if is_wait d.action.kind
    then d
    else record d { status = record d.status { drain_started_at = none } }

unfoldable pub finish : Planner → ℕ → Option ℕ → Outcome → Outcome
unfolding unavailable degraded clear_drain
finish p s exempt panics = panics
finish p s exempt (returns d) =
    let q : Planner = record p { st = d.status } in
    if unavailable q exempt s 0
    then returns (degraded q pod_unavailable)
    else returns (clear_drain d)

unfoldable pub plan_at : Planner → Started → List View → Outcome
unfolding classify finish degraded
plan_at p b views =
    elim (classify p b.stateful_set b.config_map b.stateful_set.replicas b.count views) [
      | none ↦ returns (degraded p unexplained_divergence)
      | some placed ↦ finish p b.stateful_set.replicas placed.exempt placed.outcome
    ]

unfoldable pub plan_from : Planner → Outcome
unfolding bootstrap read_views plan_at
plan_from p = elim (bootstrap p) [
  | err d ↦ returns d
  | ok b ↦ elim (read_views p b.stateful_set.replicas) [
    | err d ↦ returns d
    | ok (views, q) ↦ plan_at q b views
  ]
]

-- The status that Plan starts with.
unfoldable pub first_status : Observation → Status
first_status obs = elim obs.stateful_set [
  | none ↦ record {
    phase = none;
    reason = none;
    epoch = 0;
    members = [];
    replicas = 0;
    ready_replicas = 0;
    drain_started_at = none;
  }
  | some sts ↦ record {
    phase = none;
    reason = none;
    epoch = 0;
    members = [];
    replicas = sts.replicas;
    ready_replicas = sts.ready_replicas;
    drain_started_at = none;
  }
]

unfoldable pub plan : Observation → Config → Outcome
unfolding plan_from first_status
plan obs cfg = plan_from (record { obs = obs; cfg = cfg; st = first_status obs })
