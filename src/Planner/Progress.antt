-- ===== src/Planner/Progress.antt =====
-- A cluster that has settled takes the next step of a change, if there is one.
use distributed_kv_data_stor.Prelude.{
  ℕ, zero, suc, ◌-◌, Bool, not, if◌then◌else◌, ◌+◌, ◌<◌, ◌≤◌, ◌≡◌, refl, sym, ap, subst, ◌∙◌, arith,
  str_eq, str_eq_iff, true, false, none, some, [], ◌∷◌, length, ok, ltb,
}
use mathlib.Core.Option.{some-injective}
use distributed_kv_data_stor.GoMap.{copy, insert, erase}
use distributed_kv_data_stor.Render.{members, member_id, member_address}
use distributed_kv_data_stor.Planner.{
  Planner, Observation, Config, MembershipObs, StatefulSetObs, ConfigMapObs, Decision, Outcome,
  returns, panics, ActionKind, act_wait, act_none, act_update_template, act_write_config_map,
  act_post_membership, act, decide, wait, next, maps_equal, pod, healthy,
}
use distributed_kv_data_stor.Planner.Checks.{
  valid_members, bootstrap_set, bootstrap, at_epoch, put_epoch, conflicts, by_epoch, one_change,
  set_members, read_views,
}
use distributed_kv_data_stor.Planner.Steps.{
  all_healthy, ordinal_taken, view_at, add_pod, remove_pod, next_change, settled, converged,
}
use distributed_kv_data_stor.Planner.Place.{
  classify_same, classify, clear_drain, finish, plan_at, plan_from, plan, first_status,
}
use distributed_kv_data_stor.Planner.Justify.{view_at-FoundPod}
use distributed_kv_data_stor.Planner.Settled.{
  Settled, views_from, collect_views-views_from, by_epoch-views_from, all_in-views_from,
  handoffs_done-views_from, all_healthy-of, unavailable-none,
}

-- The next step of a settled cluster: the template first, then one pod more or one less, and
-- nothing at the size of the spec. It waits only for an ordinal that is still taken.
pub data NextStep (obs : Observation) (sts : StatefulSetObs) (cm : ConfigMapObs)
    (held : MembershipObs) : ActionKind → Type 0 where
  updates :
      sts.template_current ≡ false → NextStep obs sts cm held (act_update_template sts.replicas)
  adds :
      sts.template_current ≡ true
      → sts.replicas < obs.cluster.replicas
      → ordinal_taken obs sts.replicas ≡ false
      → NextStep obs sts cm held (
          act_write_config_map (next cm.epoch) (
            insert
              (member_id obs.cluster.name sts.replicas)
              (member_address obs.cluster.name sts.replicas)
              (copy held.members)))
  waits :
      sts.template_current ≡ true
      → sts.replicas < obs.cluster.replicas
      → ordinal_taken obs sts.replicas ≡ true
      → NextStep obs sts cm held act_wait
  removes :
      sts.template_current ≡ true
      → obs.cluster.replicas < sts.replicas
      → NextStep obs sts cm held (
          act_post_membership 0
            (next cm.epoch)
            (erase (member_id obs.cluster.name (sts.replicas - 1)) (copy held.members)))
  rests :
      sts.template_current ≡ true
      → sts.replicas ≡ obs.cluster.replicas
      → NextStep obs sts cm held act_none

-- The outcome is a decision for the next step.
abbrev pub Acts : Observation → StatefulSetObs → ConfigMapObs → MembershipObs → Outcome → Type 0
Acts obs sts cm held (returns d) = NextStep obs sts cm held d.action.kind
Acts obs sts cm held panics = ⊥

if-Acts :
    (obs : Observation) (sts : StatefulSetObs) (cm : ConfigMapObs) (held : MembershipObs) (b : Bool)
    (x y : Outcome)
    → (b ≡ true → Acts obs sts cm held x)
    → (b ≡ false → Acts obs sts cm held y)
    → Acts obs sts cm held (if b then x else y)
if-Acts obs sts cm held true x y h k = h refl
if-Acts obs sts cm held false x y h k = k refl

add_pod-Acts :
    (p : Planner) (sts : StatefulSetObs) (cm : ConfigMapObs) (held : MembershipObs)
    → Settled p.obs sts cm held
    → sts.template_current ≡ true
    → sts.replicas < p.obs.cluster.replicas
    → Acts p.obs sts cm held (add_pod p sts.replicas cm.epoch)
unfolding add_pod wait act decide
add_pod-Acts p sts cm held h current below =
    let front : (pod p.obs 0).membership ≡ some held = h.answers 0 h.some_pod in
    let v = view_at-FoundPod p.obs cm.epoch 0 held front h.held_epoch in
    let low : v.position ≤ 0 = v.within in
    let same : v.held ≡ held =
      some-injective v.held held
        (sym v.holds ∙ h.answers v.position (omega (arith, h.some_pod, low))) in
    let found : view_at p.obs.pods cm.epoch ≡ some (copy held.members) =
      v.found ∙ ap (λ (m : MembershipObs). some (copy m.members)) same in
    if-Acts p.obs sts cm held (ordinal_taken p.obs sts.replicas) _ _
      (λ e. NextStep.waits current below e) (λ e. rw (found, Acts) (NextStep.adds current below e))

remove_pod-Acts :
    (p : Planner) (sts : StatefulSetObs) (cm : ConfigMapObs) (held : MembershipObs)
    → Settled p.obs sts cm held
    → sts.template_current ≡ true
    → p.obs.cluster.replicas < sts.replicas
    → Acts p.obs sts cm held (remove_pod p sts.replicas cm.epoch)
unfolding remove_pod act decide
remove_pod-Acts p sts cm held h current above =
    rw (h.answers 0 h.some_pod, remove_pod, Acts) (NextStep.removes current above)

next_change-Acts :
    (p : Planner) (sts : StatefulSetObs) (cm : ConfigMapObs) (held : MembershipObs)
    → Settled p.obs sts cm held
    → Acts p.obs sts cm held (next_change p sts sts.replicas cm.epoch)
unfolding next_change act decide
next_change-Acts p sts cm held h =
    if-Acts p.obs sts cm held (not sts.template_current) _ _
      (λ e. NextStep.updates (ground (arith, e)))
      (λ e.
        let current : sts.template_current ≡ true = ground (arith, e) in
        if-Acts p.obs sts cm held (ltb sts.replicas p.obs.cluster.replicas) _ _
          (λ f. add_pod-Acts p sts cm held h current (ground (arith, f)))
          (λ f.
            if-Acts p.obs sts cm held (ltb p.obs.cluster.replicas sts.replicas) _ _
              (λ g. remove_pod-Acts p sts cm held h current (ground (arith, g)))
              (λ g. NextStep.rests current (ground (arith, f, g)))))

converged-next_change :
    (p : Planner) (sts : StatefulSetObs) (cm : ConfigMapObs) (held : MembershipObs)
    → Settled p.obs sts cm held
    → converged p sts cm sts.replicas (views_from held sts.replicas 0)
      ≡ next_change p sts sts.replicas cm.epoch
unfolding converged settled
converged-next_change p sts cm held h =
    let answers =
      λ (j : ℕ) (a : 0 ≤ j) (b : j < 0 + sts.replicas). h.answers j (omega (arith, b)) in
    let done =
      handoffs_done-views_from p held cm.epoch sts.replicas 0 answers h.handoff_at h.handoff_done in
    let well : all_healthy p.obs sts.replicas 0 ≡ true =
      all_healthy-of p.obs sts.replicas 0 (λ j a b. h.all_well j (omega (arith, b))) in
    let ready : ltb sts.ready_replicas sts.replicas ≡ false = ground (arith, h.all_ready) in
    let rolled : sts.rolled_out ≡ true = h.rolled_out in
    ground (arith, done, well, ready, rolled, h.pods_gone, h.volumes_gone)

clear_drain-kind : (d : Decision) → (clear_drain d).action.kind ≡ d.action.kind
unfolding clear_drain
clear_drain-kind d = ground arith

finish-Acts :
    (p : Planner) (sts : StatefulSetObs) (cm : ConfigMapObs) (held : MembershipObs) (s : ℕ)
    (o : Outcome)
    → ((j : ℕ) → 0 ≤ j → j < 0 + s → healthy (pod p.obs j) ≡ true)
    → Acts p.obs sts cm held o
    → Acts p.obs sts cm held (finish p s none o)
unfolding finish
finish-Acts p sts cm held s panics h a = a
finish-Acts p sts cm held s (returns d) h a =
    let q : Planner = record p { st = d.status } in
    rw (unavailable-none q none s 0 h, finish)
      (subst (NextStep p.obs sts cm held) (sym (clear_drain-kind d)) a)

bootstrap-Settled :
    (p : Planner) (sts : StatefulSetObs) (cm : ConfigMapObs) (held : MembershipObs)
    → Settled p.obs sts cm held
    → bootstrap p ≡ ok (record { count = sts.replicas; config_map = cm; stateful_set = sts })
unfolding bootstrap bootstrap_set
bootstrap-Settled p sts cm held h =
    let set : p.obs.stateful_set ≡ some sts = h.set_exists in
    let map_there : p.obs.config_map ≡ some cm = h.map_exists in
    let valid : valid_members p.obs.cluster cm.members ≡ some (sts.replicas, true) = h.map_valid in
    let text : str_eq cm.invalid [] ≡ true = (str_eq_iff cm.invalid []).1 h.readable in
    ground (arith, set, map_there, valid, text)

by_epoch-first :
    (held : MembershipObs) (left : ℕ)
    → 0 < left
    → maps_equal held.members held.members ≡ true
    → by_epoch (views_from held left 0) [] ≡ some ((held.epoch, held.members) ∷ [])
unfolding by_epoch views_from conflicts put_epoch at_epoch
by_epoch-first held zero h v = absurd (omega arith)
by_epoch-first held (suc left) h v = by_epoch-views_from held left 1 v

-- The planner with the pods' membership in its status.
abbrev seen_by : Planner → MembershipObs → Planner
seen_by p held = record p { st = record p.st { epoch = held.epoch; members = copy held.members } }

read_views-Settled :
    (p : Planner) (sts : StatefulSetObs) (cm : ConfigMapObs) (held : MembershipObs)
    → Settled p.obs sts cm held
    → read_views p sts.replicas ≡ ok (views_from held sts.replicas 0, seen_by p held)
unfolding read_views set_members one_change
read_views-Settled p sts cm held h =
    let collected =
      collect_views-views_from p held sts.replicas sts.replicas 0 h.held_valid
        (λ j a b. h.answers j (omega (arith, b))) in
    let grouped = by_epoch-first held sts.replicas h.some_pod h.held_self in
    rw (collected, read_views) (rw (grouped) refl)

classify-Settled :
    (p : Planner) (sts : StatefulSetObs) (cm : ConfigMapObs) (held : MembershipObs)
    → Settled p.obs sts cm held
    → classify p sts cm sts.replicas sts.replicas (views_from held sts.replicas 0)
      ≡ some (record {
        outcome = converged p sts cm sts.replicas (views_from held sts.replicas 0);
        exempt = none;
      })
unfolding classify classify_same valid_members
classify-Settled p sts cm held h =
    let valid = h.held_valid in
    let count : length held.members ≡ sts.replicas = ground (arith, valid) in
    let exact : maps_equal held.members (members p.obs.cluster.name sts.replicas) ≡ true =
      ground (arith, valid) in
    let all =
      all_in-views_from p held cm.epoch sts.replicas sts.replicas 0 h.held_epoch count exact in
    ground (arith, all)

plan_from-Acts :
    (p : Planner) (sts : StatefulSetObs) (cm : ConfigMapObs) (held : MembershipObs)
    → Settled p.obs sts cm held
    → Acts p.obs sts cm held (plan_from p)
unfolding plan_from plan_at
plan_from-Acts p sts cm held h =
    let q : Planner = seen_by p held in
    let moves : Acts p.obs sts cm held
        (converged q sts cm sts.replicas (views_from held sts.replicas 0)) =
      subst (Acts p.obs sts cm held) (sym (converged-next_change q sts cm held h))
        (next_change-Acts q sts cm held h) in
    rw (bootstrap-Settled p sts cm held h, plan_from)
      (rw (read_views-Settled p sts cm held h) (
        rw (classify-Settled q sts cm held h, plan_at, Acts)
          (finish-Acts q sts cm held sts.replicas
            (converged q sts cm sts.replicas (views_from held sts.replicas 0))
            (λ j a b. h.all_well j (omega (arith, b))) moves)))

-- In a settled cluster Plan decides the next step: it applies a new template; else it writes the
-- next pod to the ConfigMap, or sends the membership without the last one, at the next epoch, as
-- the spec has more or fewer replicas; else it rests. It waits only for a pod or a volume of an
-- earlier incarnation at the new ordinal.
pub plan-Acts :
    (obs : Observation) (cfg : Config) (sts : StatefulSetObs) (cm : ConfigMapObs)
    (held : MembershipObs)
    → Settled obs sts cm held
    → Acts obs sts cm held (plan obs cfg)
unfolding plan
plan-Acts obs cfg sts cm held h =
    plan_from-Acts (record { obs = obs; cfg = cfg; st = first_status obs }) sts cm held h
