-- ===== src/Planner/Settled.antt =====
-- A cluster in which no change is under way, and what the checks of the planner find in it.
use distributed_kv_data_stor.Prelude.{
  ℕ, zero, suc, ◌+◌, ◌<◌, ◌≤◌, ◌≡◌, refl, sym, subst, arith, true, false, Option, some, List, [],
  ◌∷◌, length,
}
use distributed_kv_data_stor.Render.{members}
use distributed_kv_data_stor.Planner.{
  Planner, Observation, MembershipObs, StatefulSetObs, ConfigMapObs, maps_equal, pod, healthy,
}
use distributed_kv_data_stor.Planner.Checks.{
  View, valid_members, collect_views, at_epoch, put_epoch, conflicts, by_epoch,
}
use distributed_kv_data_stor.Planner.Steps.{all_healthy, pod_left, volume_left, handoffs_done}
use distributed_kv_data_stor.Planner.Place.{has_state, all_in, pod_is_unavailable, unavailable}
use distributed_kv_data_stor.Planner.Views.{view_of}

-- Every pod of a StatefulSet that is rolled out is healthy and answers with the membership of the
-- ConfigMap and its handoff done, and nothing of the pods beyond is left.
pub record Settled (obs : Observation) (sts : StatefulSetObs) (cm : ConfigMapObs)
    (held : MembershipObs) : Type 0 where
  pub set_exists : obs.stateful_set ≡ some sts
  pub map_exists : obs.config_map ≡ some cm
  pub readable : cm.invalid ≡ []
  pub map_valid : valid_members obs.cluster cm.members ≡ some (sts.replicas, true)
  pub held_valid : valid_members obs.cluster held.members ≡ some (sts.replicas, true)
  pub held_self : maps_equal held.members held.members ≡ true
  pub held_epoch : held.epoch ≡ cm.epoch
  pub some_pod : 0 < sts.replicas
  pub answers : (i : ℕ) → i < sts.replicas → (pod obs i).membership ≡ some held
  pub all_well : (i : ℕ) → i < sts.replicas → healthy (pod obs i) ≡ true
  pub handoff_at : cm.epoch ≤ held.handoff.epoch
  pub handoff_done : held.handoff.done ≡ true
  pub pods_gone : pod_left sts.replicas obs.pods ≡ false
  pub volumes_gone : volume_left sts.replicas obs.pvcs ≡ false
  pub rolled_out : sts.rolled_out ≡ true
  pub all_ready : sts.replicas ≤ sts.ready_replicas

unfoldable pub views_from : MembershipObs → ℕ → ℕ → List View
views_from held zero i = []
views_from held (suc left) i = view_of i held ∷ views_from held left (i + 1)

pub collect_views-views_from :
    (p : Planner) (held : MembershipObs) (c : ℕ) (left i : ℕ)
    → valid_members p.obs.cluster held.members ≡ some (c, true)
    → ((j : ℕ) → i ≤ j → j < i + left → (pod p.obs j).membership ≡ some held)
    → collect_views p left i ≡ some (views_from held left i)
unfolding collect_views views_from
collect_views-views_from p held c zero i v h = refl
collect_views-views_from p held c (suc left) i v h =
    let here : (pod p.obs i).membership ≡ some held = h i (omega arith) (omega arith) in
    let rest =
      collect_views-views_from p held c left (i + 1) v (λ j a b. h j (omega arith) (omega arith)) in
    ground (arith, here, rest, v)

pub by_epoch-views_from :
    (held : MembershipObs) (left i : ℕ)
    → maps_equal held.members held.members ≡ true
    → by_epoch (views_from held left i) ((held.epoch, held.members) ∷ [])
      ≡ some ((held.epoch, held.members) ∷ [])
unfolding by_epoch views_from conflicts put_epoch at_epoch
by_epoch-views_from held zero i v = refl
by_epoch-views_from held (suc left) i v = ground (arith, by_epoch-views_from held left (i + 1) v, v)

pub all_in-views_from :
    (p : Planner) (held : MembershipObs) (epoch s left i : ℕ)
    → held.epoch ≡ epoch
    → length held.members ≡ s
    → maps_equal held.members (members p.obs.cluster.name s) ≡ true
    → all_in p (views_from held left i) (record { epoch = epoch; size = s } ∷ []) ≡ true
unfolding all_in has_state views_from
all_in-views_from p held epoch s zero i a b v = refl
all_in-views_from p held epoch s (suc left) i a b v = ground (
  arith,
  all_in-views_from p held epoch s left (i + 1) a b v,
  subst (λ n. maps_equal held.members (members p.obs.cluster.name n) ≡ true) (sym b) v,
)

pub handoffs_done-views_from :
    (p : Planner) (held : MembershipObs) (epoch left i : ℕ)
    → ((j : ℕ) → i ≤ j → j < i + left → (pod p.obs j).membership ≡ some held)
    → epoch ≤ held.handoff.epoch
    → held.handoff.done ≡ true
    → handoffs_done p epoch (views_from held left i) ≡ some true
unfolding handoffs_done views_from
handoffs_done-views_from p held epoch zero i h a b = refl
handoffs_done-views_from p held epoch (suc left) i h a b =
    let here : (pod p.obs i).membership ≡ some held = h i (omega arith) (omega arith) in
    let rest =
      handoffs_done-views_from p held epoch left (i + 1) (λ j x y. h j (omega arith) (omega arith))
        a b in
    ground (arith, here, rest)

pub all_healthy-of :
    (obs : Observation) (left i : ℕ)
    → ((j : ℕ) → i ≤ j → j < i + left → healthy (pod obs j) ≡ true)
    → all_healthy obs left i ≡ true
unfolding all_healthy
all_healthy-of obs zero i h = refl
all_healthy-of obs (suc left) i h =
    let here : healthy (pod obs i) ≡ true = h i (omega arith) (omega arith) in
    let rest = all_healthy-of obs left (i + 1) (λ j a b. h j (omega arith) (omega arith)) in
    ground (arith, here, rest)

pub unavailable-none :
    (p : Planner) (exempt : Option ℕ) (left i : ℕ)
    → ((j : ℕ) → i ≤ j → j < i + left → healthy (pod p.obs j) ≡ true)
    → unavailable p exempt left i ≡ false
unfolding unavailable pod_is_unavailable
unavailable-none p exempt zero i h = refl
unavailable-none p exempt (suc left) i h =
    let here : healthy (pod p.obs i) ≡ true = h i (omega arith) (omega arith) in
    let rest = unavailable-none p exempt left (i + 1) (λ j a b. h j (omega arith) (omega arith)) in
    ground (arith, here, rest)
