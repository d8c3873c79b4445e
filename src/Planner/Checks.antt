-- ===== src/Planner/Checks.antt =====
-- The first steps of plan: what the ConfigMap and the pods' memberships must be for the operator to
-- act on them.
use distributed_kv_data_stor.Prelude.{
  ℕ, zero, suc, ◌+◌, Str, str_eq, Bool, true, false, not, ◌&&◌, Option, none, some, List, [], ◌∷◌,
  ltb, ◌==◌, if◌then◌else◌, length, Result, ok, err,
}
use distributed_kv_data_stor.GoMap.{GoMap, copy}
use distributed_kv_data_stor.Render.{members, ordinal, member_address}
use distributed_kv_data_stor.Planner.{
  phase_pending, Planner, Decision, StatefulSetObs, ConfigMapObs, act_write_config_map,
  act_scale_stateful_set, creating_config_map, creating_stateful_set, config_map_missing,
  config_map_unexpected, address_mismatch, membership_conflict, unexplained_divergence, maps_equal,
  next, act, degraded, pod, Cluster,
}

-- The loop of validMembers: every member is a pod of the cluster at its address.
unfoldable pub members_are_pods : Cluster → GoMap Str → Bool
unfolding ordinal member_address str_eq
members_are_pods kv [] = true
members_are_pods kv ((id, address) ∷ m) =
    elim (ordinal kv.name id) [ none ↦ false | some i ↦ str_eq address (member_address kv.name i) ]
    && members_are_pods kv m

-- The size and whether the members are the ordinals from 0 on; none is the error.
unfoldable pub valid_members : Cluster → GoMap Str → Option (ℕ × Bool)
unfolding members_are_pods maps_equal members
valid_members kv m =
    if members_are_pods kv m
    then some (length m, maps_equal m (members kv.name (length m)))
    else none

-- The member count of the ConfigMap, with the objects that bootstrap found.
pub record Started : Type 0 where
  pub count : ℕ
  pub config_map : ConfigMapObs
  pub stateful_set : StatefulSetObs

unfoldable pub bootstrap_set : Planner → ConfigMapObs → ℕ → Result Decision Started
unfolding act
bootstrap_set p cm c = elim p.obs.stateful_set [
  | none ↦ err (act p (act_scale_stateful_set c) phase_pending creating_stateful_set)
  | some sts ↦ ok (record { count = c; config_map = cm; stateful_set = sts })
]

unfoldable pub bootstrap : Planner → Result Decision Started
unfolding act degraded valid_members bootstrap_set members
bootstrap p = elim p.obs.config_map [
  | none ↦ elim p.obs.stateful_set [
    | none ↦ err (
        act p (act_write_config_map 0 (members p.obs.cluster.name p.obs.cluster.replicas))
          phase_pending creating_config_map)
    | some sts ↦ err (degraded p config_map_missing)
  ]
  | some cm ↦
      if not (str_eq cm.invalid [])
      then err (degraded p config_map_unexpected)
      else elim (valid_members p.obs.cluster cm.members) [
        | none ↦ err (degraded p config_map_unexpected)
        | some (c, contiguous) ↦
            if contiguous then bootstrap_set p cm c else err (degraded p config_map_unexpected)
      ]
]

pub record View : Type 0 where
  pub ordinal : ℕ
  pub epoch : ℕ
  pub members : GoMap Str

-- The memberships of the pods `i` to `i + left - 1`; none if one is not the operator's.
unfoldable pub collect_views : Planner → ℕ → ℕ → Option (List View)
unfolding pod valid_members
collect_views p zero i = some []
collect_views p (suc left) i =
    let rest = collect_views p left (i + 1) in
    elim (pod p.obs i).membership [
      | none ↦ rest
      | some m ↦ elim (valid_members p.obs.cluster m.members) [
        | none ↦ none
        | some _ ↦ elim rest [
          | none ↦ none
          | some views ↦ some (record { ordinal = i; epoch = m.epoch; members = m.members } ∷ views)
        ]
      ]
    ]

-- byEpoch, with its epochs in increasing order.
unfoldable pub at_epoch : ℕ → List (ℕ × GoMap Str) → Option (GoMap Str)
at_epoch e [] = none
at_epoch e ((d, m) ∷ rest) = if d == e then some m else at_epoch e rest

unfoldable pub put_epoch : ℕ → GoMap Str → List (ℕ × GoMap Str) → List (ℕ × GoMap Str)
put_epoch e m [] = (e, m) ∷ []
put_epoch e m ((d, n) ∷ rest) =
    let later = put_epoch e m rest in
    if d == e then (e, m) ∷ rest else if ltb e d then (e, m) ∷ (d, n) ∷ rest else (d, n) ∷ later

unfoldable pub conflicts : View → List (ℕ × GoMap Str) → Bool
unfolding at_epoch maps_equal
conflicts v seen = elim (at_epoch v.epoch seen) [
  | none ↦ false
  | some m ↦ not (maps_equal m v.members)
]

-- The loop that fills byEpoch; none if two views at one epoch differ.
unfoldable pub by_epoch : List View → List (ℕ × GoMap Str) → Option (List (ℕ × GoMap Str))
unfolding conflicts put_epoch
by_epoch [] seen = some seen
by_epoch (v ∷ views) seen =
    let rest = by_epoch views (put_epoch v.epoch v.members seen) in
    if conflicts v seen then none else rest

-- One epoch, or two in succession.
unfoldable pub one_change : List (ℕ × GoMap Str) → Bool
one_change [] = true
one_change (a ∷ []) = true
one_change (a ∷ b ∷ []) = b.0 == next a.0
one_change (a ∷ b ∷ c ∷ rest) = false

unfoldable pub set_members : Planner → List (ℕ × GoMap Str) → Planner
unfolding copy
set_members p [] = p
set_members p (a ∷ []) = record p { st = record p.st { epoch = a.0; members = copy a.1 } }
set_members p (a ∷ b ∷ rest) = set_members p (b ∷ rest)

-- The views, and the planner with the newest membership in its status.
unfoldable pub read_views : Planner → ℕ → Result Decision (List View × Planner)
unfolding collect_views by_epoch one_change set_members degraded
read_views p s = elim (collect_views p s 0) [
  | none ↦ err (degraded p address_mismatch)
  | some views ↦ elim (by_epoch views []) [
    | none ↦ err (degraded p membership_conflict)
    | some seen ↦
        if one_change seen
        then ok (views, set_members p seen)
        else err (degraded p unexplained_divergence)
  ]
]
