-- ===== src/Planner/Decide.antt =====
-- The steps of plan decide only what is justified.
use distributed_kv_data_stor.Prelude.{
  ℕ, ◌-◌, ◌<◌, ◌≤◌, ◌≡◌, refl, sym, ap, subst, ◌∙◌, arith, Str, str_eq, Bool, true, ◌&&◌, Option,
  none, some, List, [], ◌∷◌, length, Result, ok, err, Bool-cases, Option-cases, inl, inr, ltb,
}
use distributed_kv_data_stor.GoMap.{GoMap, copy}
use distributed_kv_data_stor.Render.{members}
use distributed_kv_data_stor.Planner.{
  phase_pending, phase_scaling, phase_drain_blocked, drain_blocked, draining, phase_degraded,
  Reason, config_map_missing, config_map_unexpected, creating_config_map, creating_stateful_set,
  drained_reason, pod_unavailable, Planner, Observation, MembershipObs, StatefulSetObs,
  ConfigMapObs, Decision, Outcome, returns, panics, Cluster, act_write_config_map,
  act_scale_stateful_set, maps_equal, next, pod, act, degraded, keep_drain, with_drain,
}
use distributed_kv_data_stor.Planner.Checks.{View, Started, valid_members, bootstrap_set, bootstrap}
use distributed_kv_data_stor.Planner.Steps.{
  view_at, or_empty, holds_epoch, has_drained, drain_start, await_drain, drain,
}
use distributed_kv_data_stor.Planner.Place.{
  has_state, all_in, one_less, unavailable, is_wait, clear_drain, finish,
}
use distributed_kv_data_stor.Planner.Justified.{
  Holds, Drained, Exist, Justified, Sound, SoundOutcome,
}
use distributed_kv_data_stor.Planner.Views.{AreViews, view_of, all_in-Allowed}
use distributed_kv_data_stor.Planner.Justify.{wait-Sound, act-Sound, if-Sound, view_at-FoundPod}

keep_drain-obs : (p : Planner) → (keep_drain p).obs ≡ p.obs
unfolding keep_drain with_drain
keep_drain-obs p =
    elim p.obs.cluster.drain_started_at
      as (λ t.
        (elim t as (λ _. Planner) [ none ↦ p | some u ↦ with_drain p (some u) ]).obs ≡ p.obs) [
          | none ↦ refl
          | some t ↦ refl
        ]

pub degraded-Sound : (p : Planner) (r : Reason) → Sound p.obs (degraded p r)
unfolding degraded
degraded-Sound p r =
    subst (λ o. Sound o (degraded p r)) (keep_drain-obs p)
      (wait-Sound (keep_drain p) phase_degraded r p.cfg.idle)

-- What valid_members accepts.
record ValidMembers (kv : Cluster) (m : GoMap Str) (c : ℕ) (contiguous : Bool) : Type 0 where
  count : c ≡ length m
  exact : contiguous ≡ maps_equal m (members kv.name (length m))

valid_members-ValidMembers :
    (kv : Cluster) (m : GoMap Str) (c : ℕ) (contiguous : Bool)
    → valid_members kv m ≡ some (c, contiguous)
    → ValidMembers kv m c contiguous
unfolding valid_members
valid_members-ValidMembers kv m c contiguous h = record {
  count = ground (arith, h);
  exact = ground (arith, h);
}

-- What bootstrap found before the operator goes on.
pub record Booted (obs : Observation) (b : Started) : Type 0 where
  pub exist : Exist obs b.stateful_set b.config_map
  pub count : b.count ≡ length b.config_map.members

abbrev pub BootOutcome : Observation → Result Decision Started → Type 0
BootOutcome obs (err d) = Sound obs d
BootOutcome obs (ok b) = Booted obs b

err-BootOutcome :
    (obs : Observation) (d : Decision) (r : Result Decision Started)
    → Sound obs d
    → err d ≡ r
    → BootOutcome obs r
err-BootOutcome obs d r h e = subst (BootOutcome obs) e h

bootstrap_set-BootOutcome :
    (p : Planner) (cm : ConfigMapObs)
    → p.obs.config_map ≡ some cm
    → maps_equal cm.members (members p.obs.cluster.name (length cm.members)) ≡ true
    → (r : Result Decision Started) → bootstrap_set p cm (length cm.members) ≡ r
    → BootOutcome p.obs r
unfolding bootstrap_set
bootstrap_set-BootOutcome p cm e valid r h = elim (Option-cases p.obs.stateful_set) [
  | inl f ↦
      err-BootOutcome p.obs
        (act p (act_scale_stateful_set (length cm.members)) phase_pending creating_stateful_set) r
        (act-Sound p (act_scale_stateful_set (length cm.members)) phase_pending
          creating_stateful_set (Justified.creates_set cm e f valid)
          (λ e. absurd (ground (arith, e))))
        (ground (arith, f, h))
  | inr (sts, f) ↦
      let found : ok (record { count = length cm.members; config_map = cm; stateful_set = sts })
          ≡ r =
        ground (arith, f, h) in
      subst (BootOutcome p.obs) found (record {
        exist = record { set_exists = f; map_exists = e; map_pods = valid };
        count = refl;
      })
]

pub bootstrap-BootOutcome :
    (p : Planner) (r : Result Decision Started) → bootstrap p ≡ r → BootOutcome p.obs r
unfolding bootstrap
bootstrap-BootOutcome p r h = elim (Option-cases p.obs.config_map) [
  | inl e ↦ elim (Option-cases p.obs.stateful_set) [
    | inl f ↦
        err-BootOutcome p.obs
          (act p (act_write_config_map 0 (members p.obs.cluster.name p.obs.cluster.replicas))
            phase_pending creating_config_map)
          r
          (act-Sound p (act_write_config_map 0 (members p.obs.cluster.name p.obs.cluster.replicas))
            phase_pending creating_config_map (Justified.creates_map e f)
            (λ e. absurd (ground (arith, e))))
          (ground (arith, e, f, h))
    | inr (sts, f) ↦
        err-BootOutcome p.obs (degraded p config_map_missing) r
          (degraded-Sound p config_map_missing) (ground (arith, e, f, h))
  ]
  | inr (cm, e) ↦
      let wrong : err (degraded p config_map_unexpected) ≡ r → BootOutcome p.obs r =
        err-BootOutcome p.obs (degraded p config_map_unexpected) r
          (degraded-Sound p config_map_unexpected) in
      elim (Bool-cases (str_eq cm.invalid [])) [
        | inr f ↦ wrong (ground (arith, e, f, h))
        | inl f ↦ elim (Option-cases (valid_members p.obs.cluster cm.members)) [
          | inl g ↦ wrong (ground (arith, e, f, g, h))
          | inr ((c, contiguous), g) ↦
              let valid = valid_members-ValidMembers p.obs.cluster cm.members c contiguous g in
              elim (Bool-cases contiguous) [
                | inr k ↦ wrong (ground (arith, e, f, g, k, h))
                | inl k ↦
                    bootstrap_set-BootOutcome p cm e (sym valid.exact ∙ k) r
                      (ap (bootstrap_set p cm) (sym valid.count) ∙ ground (arith, e, f, g, k, h))
              ]
        ]
      ]
]

has_drained-Drained :
    (obs : Observation) (i epoch : ℕ) → has_drained (pod obs i) epoch ≡ true → Drained obs i epoch
unfolding has_drained holds_epoch
has_drained-Drained obs i epoch h = elim (Option-cases (pod obs i).drain) [
  | inl e ↦ absurd (ground (arith, e, h))
  | inr (d, e) ↦ elim (Option-cases (pod obs i).membership) [
    | inl f ↦ absurd (ground (arith, e, f, h))
    | inr (m, f) ↦ record {
      answer = d;
      answered = e;
      for_epoch = ground (arith, e, f, h);
      is_drained = ground (arith, e, f, h);
      membership = m;
      holds = f;
      at_epoch = ground (arith, e, f, h);
    }
  ]
]

-- Two memberships allowed: the pods hold the ConfigMap's, or the next without its last member.
unfoldable pub AllDraining : Observation → ℕ → ℕ → Type 0
AllDraining obs s epoch =
    (i : ℕ)
    → i < s
    → (m : MembershipObs) → (pod obs i).membership ≡ some m
    → m.epoch ≡ next epoch
    → Holds obs m (next epoch) (s - 1)

pub all_in-AllDraining :
    (p : Planner) (s epoch : ℕ) (views : List View)
    → AreViews p.obs 0 s views
    → all_in p views (record { epoch = epoch; size = s } ∷ one_less (next epoch) s) ≡ true
    → AllDraining p.obs s epoch
unfolding has_state one_less AllDraining
all_in-AllDraining p s epoch views av h i below m e at =
    let seen =
      all_in-Allowed p views (record { epoch = epoch; size = s } ∷ one_less (next epoch) s) h
        (view_of i m) (av.covered i (omega arith) (omega arith) m e) in
    let count : length m.members ≡ s - 1 = ground (arith, seen.state) in
    record {
      at_epoch = at;
      pods_of =
          subst (λ n. maps_equal m.members (members p.obs.cluster.name n) ≡ true) count
            seen.pods_of;
    }

await_drain-Sound : (p : Planner) (started : ℕ) → Sound p.obs (await_drain p started)
unfolding await_drain
await_drain-Sound p started =
    elim (Bool-cases (
      ltb 0 p.obs.cluster.drain_timeout && ltb p.obs.cluster.drain_timeout (p.obs.now - started))) [
        | inl e ↦ rw (e, await_drain) (wait-Sound p phase_drain_blocked drain_blocked p.cfg.slow)
        | inr e ↦ rw (e, await_drain) (wait-Sound p phase_scaling draining p.cfg.slow)
      ]

pub drain-Sound :
    (p : Planner) (sts : StatefulSetObs) (cm : ConfigMapObs)
    → Exist p.obs sts cm
    → length cm.members ≡ sts.replicas
    → 0 < sts.replicas
    → AllDraining p.obs sts.replicas cm.epoch
    → Sound p.obs (drain p sts.replicas (next cm.epoch))
unfolding drain AllDraining with_drain or_empty
drain-Sound p sts cm ex count positive hold =
    elim (Bool-cases (has_drained (pod p.obs (sts.replicas - 1)) (next cm.epoch))) [
      | inl e ↦
          let left = has_drained-Drained p.obs (sts.replicas - 1) (next cm.epoch) e in
          let v =
            view_at-FoundPod p.obs (next cm.epoch) (sts.replicas - 1) left.membership left.holds
              left.at_epoch in
          let low : v.position ≤ sts.replicas - 1 = v.within in
          let below : v.position < sts.replicas = omega arith in
          let found : view_at p.obs.pods (next cm.epoch) ≡ some (copy v.held.members) = v.found in
          rw (e, drain)
            (rw (found, or_empty)
              (act-Sound (with_drain p none)
                (act_write_config_map (next cm.epoch) (copy v.held.members)) phase_scaling
                drained_reason
                (Justified.drops_member sts cm ex count positive left v.held
                  (hold v.position below v.held v.holds v.for_epoch))
                (λ e. absurd (ground (arith, e)))))
      | inr e ↦
          rw (e, drain) (await_drain-Sound (with_drain p (some (drain_start p))) (drain_start p))
    ]

clear_drain-Sound : (obs : Observation) (d : Decision) → Sound obs d → Sound obs (clear_drain d)
unfolding clear_drain
clear_drain-Sound obs d h = elim (Bool-cases (is_wait d.action.kind)) [
  | inl e ↦ rw (e, clear_drain) h
  | inr e ↦ rw (e, clear_drain) (record { justified = h.justified; calm = h.calm })
]

pub finish-Sound :
    (p : Planner) (s : ℕ) (exempt : Option ℕ) (o : Outcome)
    → SoundOutcome p.obs o
    → SoundOutcome p.obs (finish p s exempt o)
unfolding finish
finish-Sound p s exempt panics h = h
finish-Sound p s exempt (returns d) h =
    let q : Planner = record p { st = d.status } in
    if-Sound p.obs (unavailable q exempt s 0) _ _ (λ e. degraded-Sound q pod_unavailable)
      (λ e. clear_drain-Sound p.obs d h)
