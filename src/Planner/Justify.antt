-- ===== src/Planner/Justify.antt =====
-- The planner takes only actions that are justified.
use distributed_kv_data_stor.Prelude.{
  ℕ, ◌+◌, ◌-◌, ◌<◌, ◌≤◌, ◌≡◌, ◌≢◌, refl, sym, ap, subst, ◌∙◌, arith, Bool, true, false, not, ◌||◌,
  ◌&&◌, ◌==◌, some, List, [], ◌∷◌, length, get_elem?, if◌then◌else◌, Bool-cases, Option-cases, inl,
  inr, ltb,
}
use distributed_kv_data_stor.GoMap.{copy, insert, erase}
use distributed_kv_data_stor.Render.{members, member_id, member_address}
use distributed_kv_data_stor.Planner.{
  Phase, phase_scaling, phase_ready, phase_degraded, Reason, removing_pod, rolling_update,
  ready_reason, adding_pod, waiting_for_pods, waiting_for_old_volume, waiting_for_pod_removal,
  waiting_for_volume_removal, waiting_for_handoff, Planner, Observation, PodObs, MembershipObs,
  StatefulSetObs, ConfigMapObs, Outcome, ActionKind, act_none, act_post_membership,
  act_update_template, act_write_config_map, act_scale_stateful_set, maps_equal, next, pod, healthy,
  reachable, decide, act, wait, waiting_phase,
}
use distributed_kv_data_stor.Planner.Checks.{View}
use distributed_kv_data_stor.Planner.Steps.{
  all_healthy, ordinal_taken, scale_up, handoffs_done, view_at, pod_left, volume_left, add_pod,
  remove_pod, next_change, settled, converged,
}
use distributed_kv_data_stor.Planner.Place.{has_state, all_in, before_scale_up}
use distributed_kv_data_stor.Planner.Justified.{
  Holds, AllHold, AllBefore, Quiet, Stable, Exist, Justified, Sound, SoundOutcome,
}
use distributed_kv_data_stor.Planner.Views.{
  AreViews, view_of, all_healthy-all, all_in-Allowed, handoffs_done-HandedOff,
  handoffs_done-returns, view_at-FoundView,
}

pub wait-Sound :
    (p : Planner) (phase : Phase) (r : Reason) (after : ℕ) → Sound p.obs (wait p phase r after)
unfolding wait decide
wait-Sound p phase r after = record { justified = Justified.waits; calm = λ e. refl }

pub decide-Sound :
    (p : Planner) (k : ActionKind) (phase : Phase) (r : Reason) (after : ℕ)
    → Justified p.obs k
    → phase ≢ phase_degraded
    → Sound p.obs (decide p k phase r after)
unfolding decide
decide-Sound p k phase r after j calm = record {
  justified = j;
  calm = λ e. absurd (ground (arith, e, calm));
}

pub act-Sound :
    (p : Planner) (k : ActionKind) (phase : Phase) (r : Reason)
    → Justified p.obs k
    → phase ≢ phase_degraded
    → Sound p.obs (act p k phase r)
unfolding act
act-Sound p k phase r j calm = decide-Sound p k phase r 0 j calm

-- One membership allowed: every pod that answers holds it.
pub all_in-AllHold :
    (p : Planner) (s epoch size : ℕ) (views : List View)
    → AreViews p.obs 0 s views
    → all_in p views (record { epoch = epoch; size = size } ∷ []) ≡ true
    → AllHold p.obs s epoch size
unfolding has_state
all_in-AllHold p s epoch size views av h i below m e =
    let seen =
      all_in-Allowed p views (record { epoch = epoch; size = size } ∷ []) h (view_of i m)
        (av.covered i (omega arith) (omega arith) m e) in
    let at : m.epoch ≡ epoch = ground (arith, seen.state) in
    let count : length m.members ≡ size = ground (arith, seen.state) in
    record {
      at_epoch = at;
      pods_of =
          subst (λ n. maps_equal m.members (members p.obs.cluster.name n) ≡ true) count
            seen.pods_of;
    }

-- A healthy pod answers.
record Answers (obs : Observation) (i : ℕ) : Type 0 where
  answer : MembershipObs
  answered : (pod obs i).membership ≡ some answer

healthy-Answers : (obs : Observation) (i : ℕ) → healthy (pod obs i) ≡ true → Answers obs i
unfolding healthy reachable
healthy-Answers obs i h = elim (Option-cases (pod obs i).membership) [
  | inl e ↦ absurd (ground (arith, e))
  | inr (m, e) ↦ record { answer = m; answered = e }
]

pub if-Sound :
    (obs : Observation) (b : Bool) (x y : Outcome)
    → (b ≡ true → SoundOutcome obs x)
    → (b ≡ false → SoundOutcome obs y)
    → SoundOutcome obs (if b then x else y)
if-Sound obs true x y h k = h refl
if-Sound obs false x y h k = k refl

pub all_in-AllBefore :
    (p : Planner) (s epoch : ℕ) (views : List View)
    → AreViews p.obs 0 s views
    → all_in p views (before_scale_up epoch s) ≡ true
    → AllBefore p.obs s epoch
unfolding has_state before_scale_up
all_in-AllBefore p s epoch views av h i below m e =
    let seen =
      all_in-Allowed p views (before_scale_up epoch s) h (view_of i m)
        (av.covered i (omega arith) (omega arith) m e) in
    let exact = λ (n : ℕ) (count : length m.members ≡ n).
      subst (λ k. maps_equal m.members (members p.obs.cluster.name k) ≡ true) count seen.pods_of in
    elim (Bool-cases (epoch == m.epoch && (s + 1) == length m.members)) [
      | inl f ↦
          inl (record { at_epoch = ground (arith, f); pods_of = exact (s + 1) (ground (arith, f)) })
      | inr f ↦ inr (record {
        at_epoch = ground (arith, f, seen.state);
        pods_of = exact s (ground (arith, f, seen.state));
      })
    ]

pub scale_up-Sound :
    (p : Planner) (sts : StatefulSetObs) (cm : ConfigMapObs)
    → Exist p.obs sts cm
    → length cm.members ≡ sts.replicas + 1
    → AllBefore p.obs sts.replicas cm.epoch
    → Sound p.obs (scale_up p sts.replicas)
unfolding scale_up
scale_up-Sound p sts cm ex count hold = elim (Bool-cases (all_healthy p.obs sts.replicas 0)) [
  | inr e ↦ rw e (wait-Sound p phase_scaling waiting_for_pods p.cfg.fast)
  | inl e ↦ rw e (elim (Bool-cases (ordinal_taken p.obs sts.replicas)) [
    | inl f ↦ rw f (wait-Sound p phase_scaling waiting_for_old_volume p.cfg.fast)
    | inr f ↦ rw f (
        act-Sound p (act_scale_stateful_set (sts.replicas + 1)) phase_scaling adding_pod
          (Justified.adds_pod sts cm ex count hold
            (λ i below. all_healthy-all p.obs sts.replicas 0 e i (omega arith) (omega arith)) f)
          (λ e. absurd (ground (arith, e))))
  ])
]

-- The answer of a pod is that of an entry of the observation.
record PodEntry (obs : Observation) (i : ℕ) (m : MembershipObs) : Type 0 where
  entry : PodObs
  at_index : get_elem? obs.pods i ≡ some entry
  answers : entry.membership ≡ some m

pod-elem :
    (obs : Observation) (i : ℕ) (pd : PodObs) → get_elem? obs.pods i ≡ some pd → pod obs i ≡ pd
unfolding pod
pod-elem obs i pd e = ground (arith, e)

pod-PodEntry :
    (obs : Observation) (i : ℕ) (m : MembershipObs)
    → (pod obs i).membership ≡ some m
    → PodEntry obs i m
unfolding pod
pod-PodEntry obs i m h = elim (Option-cases (get_elem? obs.pods i)) [
  | inl e ↦ absurd (ground (arith, e))
  | inr (pd, e) ↦ record {
    entry = pd;
    at_index = e;
    answers = ap (λ t. t.membership) (sym (pod-elem obs i pd e)) ∙ h;
  }
]

-- What viewAt finds for an epoch that some pod `i` holds: the members of a pod up to `i`.
pub record FoundPod (obs : Observation) (epoch i : ℕ) : Type 0 where
  pub position : ℕ
  pub within : position ≤ i
  pub held : MembershipObs
  pub holds : (pod obs position).membership ≡ some held
  pub for_epoch : held.epoch ≡ epoch
  pub found : view_at obs.pods epoch ≡ some (copy held.members)

pub view_at-FoundPod :
    (obs : Observation) (epoch i : ℕ) (m : MembershipObs)
    → (pod obs i).membership ≡ some m
    → m.epoch ≡ epoch
    → FoundPod obs epoch i
view_at-FoundPod obs epoch i m h at =
    let e = pod-PodEntry obs i m h in
    let f = view_at-FoundView obs.pods epoch i e.entry m e.at_index e.answers at in
    record {
      position = f.position;
      within = f.within;
      held = f.held;
      holds = ap (λ t. t.membership) (pod-elem obs f.position f.owner f.at_position) ∙ f.holds;
      for_epoch = f.for_epoch;
      found = f.found;
    }

add_pod-Sound :
    (p : Planner) (sts : StatefulSetObs) (cm : ConfigMapObs)
    → Exist p.obs sts cm
    → 0 < sts.replicas
    → Stable p.obs sts cm.epoch
    → sts.template_current ≡ true
    → sts.replicas < p.obs.cluster.replicas
    → SoundOutcome p.obs (add_pod p sts.replicas cm.epoch)
unfolding add_pod
add_pod-Sound p sts cm ex positive st current below =
    elim (Bool-cases (ordinal_taken p.obs sts.replicas)) [
      | inl f ↦
          rw (f, add_pod, SoundOutcome)
            (wait-Sound p phase_scaling waiting_for_old_volume p.cfg.fast)
      | inr f ↦
          let front = healthy-Answers p.obs 0 (st.quiet.all_healthy 0 positive) in
          let held : Holds p.obs front.answer cm.epoch sts.replicas =
            st.quiet.all_hold 0 positive front.answer front.answered in
          let v = view_at-FoundPod p.obs cm.epoch 0 front.answer front.answered held.at_epoch in
          let low : v.position ≤ 0 = v.within in
          let below_set : v.position < sts.replicas = omega arith in
          let found : view_at p.obs.pods cm.epoch ≡ some (copy v.held.members) = v.found in
          rw (f, add_pod, SoundOutcome)
            (rw (found) (
              act-Sound p
                (act_write_config_map (next cm.epoch) (
                  insert (member_id p.obs.cluster.name sts.replicas)
                    (member_address p.obs.cluster.name sts.replicas) (copy v.held.members)))
                phase_scaling adding_pod
                (Justified.adds_member sts cm ex st current below f v.held
                  (st.quiet.all_hold v.position below_set v.held v.holds))
                (λ e. absurd (ground (arith, e)))))
    ]

remove_pod-Sound :
    (p : Planner) (sts : StatefulSetObs) (cm : ConfigMapObs)
    → Exist p.obs sts cm
    → Stable p.obs sts cm.epoch
    → sts.template_current ≡ true
    → p.obs.cluster.replicas < sts.replicas
    → SoundOutcome p.obs (remove_pod p sts.replicas cm.epoch)
unfolding remove_pod
remove_pod-Sound p sts cm ex st current above =
    let front = healthy-Answers p.obs 0 (st.quiet.all_healthy 0 (omega arith)) in
    let holds : Holds p.obs front.answer cm.epoch sts.replicas =
      st.quiet.all_hold 0 (omega arith) front.answer front.answered in
    rw (front.answered, remove_pod, SoundOutcome)
      (act-Sound p
        (act_post_membership 0 (next cm.epoch)
          (erase (member_id p.obs.cluster.name (sts.replicas - 1)) (copy front.answer.members)))
        phase_scaling removing_pod
        (Justified.posts_removal sts cm ex st current above front.answer holds)
        (λ e. absurd (ground (arith, e))))

next_change-Sound :
    (p : Planner) (sts : StatefulSetObs) (cm : ConfigMapObs)
    → Exist p.obs sts cm
    → 0 < sts.replicas
    → Stable p.obs sts cm.epoch
    → SoundOutcome p.obs (next_change p sts sts.replicas cm.epoch)
unfolding next_change
next_change-Sound p sts cm ex positive st =
    if-Sound p.obs (not sts.template_current) _ _
      (λ e.
        act-Sound p (act_update_template sts.replicas) phase_scaling rolling_update
          (Justified.updates_template sts cm ex st (ground (arith, e)))
          (λ e. absurd (ground (arith, e))))
      (λ e.
        if-Sound p.obs (ltb sts.replicas p.obs.cluster.replicas) _ _
          (λ f. add_pod-Sound p sts cm ex positive st (ground (arith, e)) (ground (arith, f)))
          (λ f.
            if-Sound p.obs (ltb p.obs.cluster.replicas sts.replicas) _ _
              (λ g. remove_pod-Sound p sts cm ex st (ground (arith, e)) (ground (arith, g)))
              (λ g.
                decide-Sound p act_none phase_ready ready_reason p.cfg.idle
                  (Justified.rests sts cm ex st (ground (arith, e)) (ground (arith, f, g)))
                  (λ e. absurd (ground (arith, e))))))

settled-Sound :
    (p : Planner) (sts : StatefulSetObs) (cm : ConfigMapObs)
    → Exist p.obs sts cm
    → 0 < sts.replicas
    → (all_healthy p.obs sts.replicas 0 ≡ true → Quiet p.obs sts.replicas cm.epoch)
    → SoundOutcome p.obs (settled p sts sts.replicas cm.epoch)
unfolding settled
settled-Sound p sts cm ex positive st = elim (Bool-cases (all_healthy p.obs sts.replicas 0)) [
  | inr e ↦
      rw (e, settled, SoundOutcome) (wait-Sound p (waiting_phase p) waiting_for_pods p.cfg.fast)
  | inl e ↦
      rw (e, settled)
        (if-Sound p.obs (not sts.rolled_out || ltb sts.ready_replicas sts.replicas) _ _
          (λ f. wait-Sound p phase_scaling rolling_update p.cfg.fast)
          (λ f. next_change-Sound p sts cm ex positive (record {
            quiet = st e;
            rolled_out = ground (arith, f);
            all_ready = ground (arith, f);
          })))
]

pub converged-Sound :
    (p : Planner) (sts : StatefulSetObs) (cm : ConfigMapObs) (views : List View)
    → Exist p.obs sts cm
    → 0 < sts.replicas
    → AreViews p.obs 0 sts.replicas views
    → AllHold p.obs sts.replicas cm.epoch sts.replicas
    → SoundOutcome p.obs (converged p sts cm sts.replicas views)
unfolding converged
converged-Sound p sts cm views ex positive av hold =
    if-Sound p.obs (pod_left sts.replicas p.obs.pods) _ _
      (λ e. wait-Sound p phase_scaling waiting_for_pod_removal p.cfg.fast)
      (λ e.
        if-Sound p.obs (volume_left sts.replicas p.obs.pvcs) _ _
          (λ f. wait-Sound p phase_scaling waiting_for_volume_removal p.cfg.fast)
          (λ f. elim (Option-cases (handoffs_done p cm.epoch views)) [
            | inl g ↦ absurd (handoffs_done-returns p cm.epoch views av.answer g)
            | inr (done, g) ↦ rw g (
                if-Sound p.obs (not done) _ _
                  (λ h. wait-Sound p phase_scaling waiting_for_handoff p.cfg.slow)
                  (λ h. settled-Sound p sts cm ex positive (λ all. record {
                    all_healthy = λ i below.
                        all_healthy-all p.obs sts.replicas 0 all i (omega arith) (omega arith);
                    all_hold = hold;
                    handed_off = λ i below m answered.
                        handoffs_done-HandedOff p cm.epoch views (g ∙ ap some (ground (arith, h)))
                          (view_of i m) (av.covered i (omega arith) (omega arith) m answered) m
                          answered;
                    pods_gone = e;
                    volumes_gone = f;
                  })))
          ]))
