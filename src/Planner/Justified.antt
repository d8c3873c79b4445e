-- ===== src/Planner/Justified.antt =====
-- When the operator may take an action: what docs/kubernetes.md asks of each step of a membership
-- change, said of the observation.
use distributed_kv_data_stor.Prelude.{
  ℕ, ◌+◌, ◌-◌, ◌<◌, ◌≤◌, ◌≡◌, true, false, none, some, length, ◌⊎◌,
}
use distributed_kv_data_stor.GoMap.{copy, insert, erase}
use distributed_kv_data_stor.Render.{members, member_id, member_address}
use distributed_kv_data_stor.Planner.{
  Observation, StatefulSetObs, ConfigMapObs, MembershipObs, HandoffObs, ActionKind, act_wait,
  act_none, act_post_membership, act_update_template, act_write_config_map, act_scale_stateful_set,
  maps_equal, next, prev, pod, healthy, Outcome, returns, panics, Decision, phase_degraded,
}
use distributed_kv_data_stor.Planner.Steps.{ordinal_taken, pod_left, volume_left}

-- The membership of the first `size` pods at an epoch.
pub record Holds (obs : Observation) (m : MembershipObs) (epoch size : ℕ) : Type 0 where
  pub at_epoch : m.epoch ≡ epoch
  pub pods_of : maps_equal m.members (members obs.cluster.name size) ≡ true

-- Every pod below `s` that answers holds the membership.
abbrev pub AllHold : Observation → ℕ → ℕ → ℕ → Type 0
AllHold obs s epoch size =
    (i : ℕ) → i < s → (m : MembershipObs) → (pod obs i).membership ≡ some m → Holds obs m epoch size

-- Every pod below `s` that answers holds the membership of one pod more, or the one before it.
abbrev pub AllBefore : Observation → ℕ → ℕ → Type 0
AllBefore obs s epoch =
    (i : ℕ)
    → i < s
    → (m : MembershipObs) → (pod obs i).membership ≡ some m
    → Holds obs m epoch (s + 1) ⊎ Holds obs m (prev epoch) s

abbrev pub AllHealthy : Observation → ℕ → Type 0
AllHealthy obs s = (i : ℕ) → i < s → healthy (pod obs i) ≡ true

-- A handoff to the epoch, or a later one, is done.
pub record HandedOff (m : MembershipObs) (epoch : ℕ) : Type 0 where
  pub reached : epoch ≤ m.handoff.epoch
  pub finished : m.handoff.done ≡ true

-- No change is under way among the `s` pods.
pub record Quiet (obs : Observation) (s epoch : ℕ) : Type 0 where
  pub all_healthy : AllHealthy obs s
  pub all_hold : AllHold obs s epoch s
  pub handed_off :
      (i : ℕ) → i < s → (m : MembershipObs) → (pod obs i).membership ≡ some m → HandedOff m epoch
  pub pods_gone : pod_left s obs.pods ≡ false
  pub volumes_gone : volume_left s obs.pvcs ≡ false

-- No change is under way, and the StatefulSet is rolled out with all its replicas ready.
pub record Stable (obs : Observation) (sts : StatefulSetObs) (epoch : ℕ) : Type 0 where
  pub quiet : Quiet obs sts.replicas epoch
  pub rolled_out : sts.rolled_out ≡ true
  pub all_ready : sts.replicas ≤ sts.ready_replicas

-- Pod `i` answers that it has drained at the epoch, and holds it.
pub record Drained (obs : Observation) (i epoch : ℕ) : Type 0 where
  pub answer : HandoffObs
  pub answered : (pod obs i).drain ≡ some answer
  pub for_epoch : answer.epoch ≡ epoch
  pub is_drained : answer.drained ≡ true
  pub membership : MembershipObs
  pub holds : (pod obs i).membership ≡ some membership
  pub at_epoch : membership.epoch ≡ epoch

-- The objects that exist.
pub record Exist (obs : Observation) (sts : StatefulSetObs) (cm : ConfigMapObs) : Type 0 where
  pub set_exists : obs.stateful_set ≡ some sts
  pub map_exists : obs.config_map ≡ some cm
  pub map_pods : maps_equal cm.members (members obs.cluster.name (length cm.members)) ≡ true

pub data Justified (obs : Observation) : ActionKind → Type 0 where
  waits : Justified obs act_wait
  rests :
      (sts : StatefulSetObs) (cm : ConfigMapObs)
      → Exist obs sts cm
      → Stable obs sts cm.epoch
      → sts.template_current ≡ true
      → sts.replicas ≡ obs.cluster.replicas
      → Justified obs act_none
  creates_map :
      obs.config_map ≡ none
      → obs.stateful_set ≡ none
      → Justified obs (act_write_config_map 0 (members obs.cluster.name obs.cluster.replicas))
  creates_set :
      (cm : ConfigMapObs)
      → obs.config_map ≡ some cm
      → obs.stateful_set ≡ none
      → maps_equal cm.members (members obs.cluster.name (length cm.members)) ≡ true
      → Justified obs (act_scale_stateful_set (length cm.members))
  adds_member :
      (sts : StatefulSetObs) (cm : ConfigMapObs)
      → Exist obs sts cm
      → Stable obs sts cm.epoch
      → sts.template_current ≡ true
      → sts.replicas < obs.cluster.replicas
      → ordinal_taken obs sts.replicas ≡ false
      → (m : MembershipObs) → Holds obs m cm.epoch sts.replicas
      → Justified obs (
          act_write_config_map (next cm.epoch) (
            insert
              (member_id obs.cluster.name sts.replicas)
              (member_address obs.cluster.name sts.replicas)
              (copy m.members)))
  adds_pod :
      (sts : StatefulSetObs) (cm : ConfigMapObs)
      → Exist obs sts cm
      → length cm.members ≡ sts.replicas + 1
      → AllBefore obs sts.replicas cm.epoch
      → AllHealthy obs sts.replicas
      → ordinal_taken obs sts.replicas ≡ false
      → Justified obs (act_scale_stateful_set (sts.replicas + 1))
  posts_removal :
      (sts : StatefulSetObs) (cm : ConfigMapObs)
      → Exist obs sts cm
      → Stable obs sts cm.epoch
      → sts.template_current ≡ true
      → obs.cluster.replicas < sts.replicas
      → (m : MembershipObs) → Holds obs m cm.epoch sts.replicas
      → Justified obs (
          act_post_membership 0
            (next cm.epoch)
            (erase (member_id obs.cluster.name (sts.replicas - 1)) (copy m.members)))
  drops_member :
      (sts : StatefulSetObs) (cm : ConfigMapObs)
      → Exist obs sts cm
      → length cm.members ≡ sts.replicas
      → 0 < sts.replicas
      → Drained obs (sts.replicas - 1) (next cm.epoch)
      → (m : MembershipObs) → Holds obs m (next cm.epoch) (sts.replicas - 1)
      → Justified obs (act_write_config_map (next cm.epoch) (copy m.members))
  drops_pod :
      (sts : StatefulSetObs) (cm : ConfigMapObs)
      → Exist obs sts cm
      → length cm.members + 1 ≡ sts.replicas
      → AllHold obs sts.replicas cm.epoch (length cm.members)
      → Justified obs (act_scale_stateful_set (length cm.members))
  updates_template :
      (sts : StatefulSetObs) (cm : ConfigMapObs)
      → Exist obs sts cm
      → Stable obs sts cm.epoch
      → sts.template_current ≡ false
      → Justified obs (act_update_template sts.replicas)

-- A decision is justified, and a degraded cluster is left alone.
pub record Sound (obs : Observation) (d : Decision) : Type 0 where
  pub justified : Justified obs d.action.kind
  pub calm : d.status.phase ≡ some phase_degraded → d.action.kind ≡ act_wait

-- The planner returns a sound decision.
abbrev pub SoundOutcome : Observation → Outcome → Type 0
SoundOutcome obs (returns d) = Sound obs d
SoundOutcome obs panics = ⊥

-- The StatefulSet has a pod, if it exists.
abbrev pub HasReplicas : Observation → Type 0
HasReplicas obs = (sts : StatefulSetObs) → obs.stateful_set ≡ some sts → 0 < sts.replicas
