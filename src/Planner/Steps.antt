-- ===== src/Planner/Steps.antt =====
-- The steps of a membership change: scaleUp (U2), drain (D2, D3) and converged (U4, D5, and the next
-- change).
use distributed_kv_data_stor.Prelude.{
  ℕ, zero, suc, ◌+◌, ◌-◌, Str, Bool, true, false, not, ◌&&◌, ◌||◌, Option, none, some, List, [],
  ◌∷◌, ltb, leb, ◌==◌, if◌then◌else◌,
}
use distributed_kv_data_stor.GoMap.{GoMap, copy, insert, erase}
use distributed_kv_data_stor.Render.{member_id, member_address}
use distributed_kv_data_stor.Planner.{
  phase_scaling, phase_drain_blocked, phase_ready, Planner, Decision, Outcome, returns, panics,
  StatefulSetObs, ConfigMapObs, Observation, PodObs, act_write_config_map, act_scale_stateful_set,
  act_none, act_post_membership, act_update_template, adding_pod, waiting_for_handoff, removing_pod,
  draining, drain_blocked, drained_reason, waiting_for_pod_removal, waiting_for_volume_removal,
  waiting_for_old_volume, waiting_for_pods, rolling_update, ready_reason, next, act, wait, decide,
  pod, healthy, has_pvc, waiting_phase, with_drain,
}
use distributed_kv_data_stor.Planner.Checks.{View}

-- The pods `i` to `i + left - 1` are healthy.
unfoldable pub all_healthy : Observation → ℕ → ℕ → Bool
unfolding healthy pod
all_healthy obs zero i = true
all_healthy obs (suc left) i = healthy (pod obs i) && all_healthy obs left (i + 1)

unfoldable pub ordinal_taken : Observation → ℕ → Bool
unfolding pod has_pvc
ordinal_taken obs i = (pod obs i).exists || has_pvc obs i

unfoldable pub scale_up : Planner → ℕ → Decision
unfolding all_healthy ordinal_taken wait act
scale_up p s =
    if not (all_healthy p.obs s 0)
    then wait p phase_scaling waiting_for_pods p.cfg.fast
    else if ordinal_taken p.obs s
    then wait p phase_scaling waiting_for_old_volume p.cfg.fast
    else act p (act_scale_stateful_set (s + 1)) phase_scaling adding_pod

unfoldable pub view_at : List PodObs → ℕ → Option (GoMap Str)
unfolding copy
view_at [] epoch = none
view_at (pd ∷ pods) epoch =
    let rest = view_at pods epoch in
    elim pd.membership [
      | none ↦ rest
      | some m ↦ if m.epoch == epoch then some (copy m.members) else rest
    ]

-- A nil map reads as an empty one.
unfoldable pub or_empty : Option (GoMap Str) → GoMap Str
or_empty none = []
or_empty (some m) = m

unfoldable pub holds_epoch : PodObs → ℕ → Bool
holds_epoch pd epoch = elim pd.membership [ none ↦ false | some m ↦ m.epoch == epoch ]

-- The pod has drained at the epoch, and holds it.
unfoldable pub has_drained : PodObs → ℕ → Bool
unfolding holds_epoch
has_drained pd epoch = elim pd.drain [
  | none ↦ false
  | some d ↦ d.epoch == epoch && d.drained && holds_epoch pd epoch
]

-- When the drain started: now, unless the status knows.
unfoldable pub drain_start : Planner → ℕ
drain_start p = elim p.obs.cluster.drain_started_at [ none ↦ p.obs.now | some t ↦ t ]

unfoldable pub await_drain : Planner → ℕ → Decision
unfolding wait
await_drain p started =
    if ltb 0 p.obs.cluster.drain_timeout && ltb p.obs.cluster.drain_timeout (p.obs.now - started)
    then wait p phase_drain_blocked drain_blocked p.cfg.slow
    else wait p phase_scaling draining p.cfg.slow

unfoldable pub drain : Planner → ℕ → ℕ → Decision
unfolding has_drained pod view_at or_empty act with_drain drain_start await_drain
drain p s epoch =
    if has_drained (pod p.obs (s - 1)) epoch
    then act (with_drain p none) (act_write_config_map epoch (or_empty (view_at p.obs.pods epoch)))
        phase_scaling drained_reason
    else await_drain (with_drain p (some (drain_start p))) (drain_start p)

-- A pod at an ordinal that is being removed still exists.
unfoldable pub pod_left : ℕ → List PodObs → Bool
pod_left s [] = false
pod_left s (pd ∷ pods) = (leb s pd.ordinal && pd.exists) || pod_left s pods

unfoldable pub volume_left : ℕ → List ℕ → Bool
volume_left s [] = false
volume_left s (i ∷ pvcs) = leb s i || volume_left s pvcs

-- The handoff of every view's pod to the epoch is done; none is a nil pointer.
unfoldable pub handoffs_done : Planner → ℕ → List View → Option Bool
unfolding pod
handoffs_done p epoch [] = some true
handoffs_done p epoch (v ∷ views) =
    let rest = handoffs_done p epoch views in
    elim (pod p.obs v.ordinal).membership [
      | none ↦ none
      | some m ↦ elim rest [
        | none ↦ none
        | some b ↦ some (leb epoch m.handoff.epoch && m.handoff.done && b)
      ]
    ]

unfoldable pub add_pod : Planner → ℕ → ℕ → Outcome
unfolding ordinal_taken wait act view_at insert member_id member_address
add_pod p s epoch =
    if ordinal_taken p.obs s
    then returns (wait p phase_scaling waiting_for_old_volume p.cfg.fast)
    else elim (view_at p.obs.pods epoch) [
      | none ↦ panics
      | some m ↦ returns (
          act p
            (act_write_config_map (next epoch)
              (insert (member_id p.obs.cluster.name s) (member_address p.obs.cluster.name s) m))
            phase_scaling adding_pod)
    ]

unfoldable pub remove_pod : Planner → ℕ → ℕ → Outcome
unfolding pod act copy erase member_id
remove_pod p s epoch = elim (pod p.obs 0).membership [
  | none ↦ panics
  | some m ↦ returns (
      act p
        (act_post_membership 0 (next epoch)
          (erase (member_id p.obs.cluster.name (s - 1)) (copy m.members)))
        phase_scaling removing_pod)
]

-- The switch of converged: nothing is under way, and one change may begin.
unfoldable pub next_change : Planner → StatefulSetObs → ℕ → ℕ → Outcome
unfolding act decide add_pod remove_pod
next_change p sts s epoch =
    if not sts.template_current
    then returns (act p (act_update_template s) phase_scaling rolling_update)
    else if ltb s p.obs.cluster.replicas
    then add_pod p s epoch
    else if ltb p.obs.cluster.replicas s
    then remove_pod p s epoch
    else returns (decide p act_none phase_ready ready_reason p.cfg.idle)

-- From the handoffs on.
unfoldable pub settled : Planner → StatefulSetObs → ℕ → ℕ → Outcome
unfolding all_healthy wait waiting_phase next_change
settled p sts s epoch =
    if not (all_healthy p.obs s 0)
    then returns (wait p (waiting_phase p) waiting_for_pods p.cfg.fast)
    else if not sts.rolled_out || ltb sts.ready_replicas s
    then returns (wait p phase_scaling rolling_update p.cfg.fast)
    else next_change p sts s epoch

unfoldable pub converged : Planner → StatefulSetObs → ConfigMapObs → ℕ → List View → Outcome
unfolding pod_left volume_left wait handoffs_done settled
converged p sts cm s views =
    if pod_left s p.obs.pods
    then returns (wait p phase_scaling waiting_for_pod_removal p.cfg.fast)
    else if volume_left s p.obs.pvcs
    then returns (wait p phase_scaling waiting_for_volume_removal p.cfg.fast)
    else elim (handoffs_done p cm.epoch views) [
      | none ↦ panics
      | some done ↦
          if not done
          then returns (wait p phase_scaling waiting_for_handoff p.cfg.slow)
          else settled p sts s cm.epoch
    ]
