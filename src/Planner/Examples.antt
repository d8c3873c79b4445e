-- ===== src/Planner/Examples.antt =====
-- Runs of the planner on a small cluster, and the theorem at a concrete observation.
use distributed_kv_data_stor.Prelude.{
  ℕ, Str, ◌≡◌, ◌<◌, refl, subst, arith, true, false, Option, none, some, [], ◌∷◌,
}
use distributed_kv_data_stor.GoMap.{GoMap}
use distributed_kv_data_stor.Render.{ClusterName, member_id, member_address}
use distributed_kv_data_stor.Planner.{
  Observation, Config, Cluster, StatefulSetObs, PodObs, HandoffObs, Outcome, returns, panics,
  ActionKind, act_write_config_map, phase_ready, MembershipObs, pod, healthy,
}
use distributed_kv_data_stor.Planner.Place.{plan}
use distributed_kv_data_stor.Planner.Steps.{pod_left, volume_left}
use distributed_kv_data_stor.Planner.Checks.{valid_members}
use distributed_kv_data_stor.Planner.Settled.{Settled}
use distributed_kv_data_stor.Planner.Progress.{Acts, plan-Acts}

abbrev kv : ClusterName
kv = record { name = b'k' ∷ b'v' ∷ []; namespace = b'n' ∷ [] }

abbrev cluster_of : ℕ → Cluster
cluster_of replicas = record {
  name = kv;
  replicas = replicas;
  drain_timeout = 100;
  phase = some phase_ready;
  drain_started_at = none;
}

-- The member set of the first pod, and of the first two.
abbrev one_member : GoMap Str
one_member = (member_id kv 0, member_address kv 0) ∷ []

abbrev two_members : GoMap Str
two_members = (member_id kv 0, member_address kv 0) ∷ (member_id kv 1, member_address kv 1) ∷ []

abbrev pod_at : ℕ → ℕ → GoMap Str → Option HandoffObs → PodObs
pod_at i epoch members drain = record {
  ordinal = i;
  exists = true;
  terminating = false;
  ready = true;
  since = 1;
  membership = some (record {
    epoch = epoch;
    members = members;
    handoff = record { epoch = epoch; done = true };
  });
  unreachable_since = 0;
  drain = drain;
}

abbrev set_of : ℕ → StatefulSetObs
set_of n = record { replicas = n; ready_replicas = n; rolled_out = true; template_current = true }

abbrev cfg : Config
cfg = record { grace = 120; fast = 2; slow = 10; idle = 60 }

-- One pod, and a spec of two.
abbrev growing : Observation
growing = record {
  now = 1000;
  cluster = cluster_of 2;
  stateful_set = some (set_of 1);
  config_map = some (record { epoch = 0; members = one_member; invalid = [] });
  pods = pod_at 0 0 one_member none ∷ [];
  pvcs = 0 ∷ [];
}

-- Two pods of which the second has drained at epoch 1.
abbrev shrinking : Observation
shrinking = record {
  now = 1000;
  cluster = cluster_of 1;
  stateful_set = some (set_of 2);
  config_map = some (record { epoch = 0; members = two_members; invalid = [] });
  pods =
      pod_at 0 1 one_member none
      ∷ pod_at 1 1 one_member (some (record { epoch = 1; drained = true }))
      ∷ [];
  pvcs = 0 ∷ 1 ∷ [];
}

abbrev kind_of : Outcome → Option ActionKind
kind_of panics = none
kind_of (returns d) = some d.action.kind

test_growing : kind_of (plan growing cfg) ≡ some (act_write_config_map 1 two_members)
unfolding plan distributed_kv_data_stor.HashRing.Fnv.itoa
test_growing = refl

test_shrinking : kind_of (plan shrinking cfg) ≡ some (act_write_config_map 1 one_member)
unfolding plan distributed_kv_data_stor.HashRing.Fnv.itoa
test_shrinking = refl

-- A ConfigMap without members and a StatefulSet without replicas: the member of the first pod is
-- written to a nil map.
abbrev emptied : Observation
emptied = record {
  now = 1000;
  cluster = cluster_of 1;
  stateful_set = some (set_of 0);
  config_map = some (record { epoch = 0; members = []; invalid = [] });
  pods = [];
  pvcs = [];
}

test_emptied : kind_of (plan emptied cfg) ≡ none
unfolding plan distributed_kv_data_stor.HashRing.Fnv.itoa
test_emptied = refl

abbrev one_held : MembershipObs
one_held = record { epoch = 0; members = one_member; handoff = record { epoch = 0; done = true } }

first_of : (i : ℕ) → i < 1 → 0 ≡ i
first_of i below = omega arith

growing-Settled :
    Settled growing (set_of 1) (record { epoch = 0; members = one_member; invalid = [] }) one_held
unfolding valid_members pod healthy pod_left volume_left distributed_kv_data_stor.HashRing.Fnv.itoa
growing-Settled = record {
  set_exists = refl;
  map_exists = refl;
  readable = refl;
  map_valid = refl;
  held_valid = refl;
  held_self = refl;
  held_epoch = refl;
  some_pod = omega arith;
  answers =
      λ i below. subst (λ j. (pod growing j).membership ≡ some one_held) (first_of i below) refl;
  all_well = λ i below. subst (λ j. healthy (pod growing j) ≡ true) (first_of i below) refl;
  handoff_at = omega arith;
  handoff_done = refl;
  pods_gone = refl;
  volumes_gone = refl;
  rolled_out = refl;
  all_ready = omega arith;
}

plan-Acts_example :
    Acts growing
      (set_of 1)
      (record { epoch = 0; members = one_member; invalid = [] })
      one_held
      (plan growing cfg)
plan-Acts_example =
    plan-Acts growing cfg (set_of 1) (record { epoch = 0; members = one_member; invalid = [] })
      one_held growing-Settled
