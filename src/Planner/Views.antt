-- ===== src/Planner/Views.antt =====
-- What the checks of the pods establish, pod by pod.
use distributed_kv_data_stor.Prelude.{
  ℕ, zero, suc, ◌+◌, ◌<◌, ◌≤◌, ◌≡◌, ◌≢◌, refl, sym, ap, ap₂, subst, ◌∙◌, arith, Str, true, none,
  some, List, [], ◌∷◌, length, get_elem?, Memᴰ, All, ==_iff, ok, Bool-cases, Option-cases, inl, inr,
  ◌⊎◌, ◌==◌,
}
use mathlib.Core.Option.{some-injective}
use distributed_kv_data_stor.GoMap.{GoMap, copy}
use distributed_kv_data_stor.Render.{members}
use distributed_kv_data_stor.Planner.{
  Planner, Observation, PodObs, MembershipObs, maps_equal, pod, healthy, reachable,
}
use distributed_kv_data_stor.Planner.Checks.{
  View, valid_members, collect_views, by_epoch, one_change, set_members, read_views,
}
use distributed_kv_data_stor.Planner.Steps.{all_healthy, handoffs_done, view_at}
use distributed_kv_data_stor.Planner.Place.{State, has_state, all_in}
use distributed_kv_data_stor.Planner.Justified.{HandedOff}

abbrev pub view_of : ℕ → MembershipObs → View
view_of i m = record { ordinal = i; epoch = m.epoch; members = m.members }

-- The views are the memberships of the pods from `i` to `i + left - 1` that answer.
pub record AreViews (obs : Observation) (i left : ℕ) (views : List View) : Type 0 where
  pub covered :
      (j : ℕ)
      → i ≤ j
      → j < i + left
      → (m : MembershipObs) → (pod obs j).membership ≡ some m
      → Memᴰ (view_of j m) views
  pub answer : All (λ v. reachable (pod obs v.ordinal) ≡ true) views

AreViews-empty : (obs : Observation) (i : ℕ) → AreViews obs i 0 []
AreViews-empty obs i = record { covered = λ j a b m e. absurd (omega arith); answer = tt }

-- The pod `i` does not answer.
AreViews-silent :
    (obs : Observation) (i left : ℕ) (views : List View)
    → (pod obs i).membership ≡ none
    → AreViews obs (i + 1) left views
    → AreViews obs i (suc left) views
AreViews-silent obs i left views e h = record {
  covered = λ j a b m found. elim (Bool-cases (i == j)) [
    | inl same ↦ absurd (ground (arith, ==_iff i j))
    | inr other ↦ h.covered j (ground arith) (ground arith) m found
  ];
  answer = h.answer;
}

AreViews-answer :
    (obs : Observation) (i left : ℕ) (views : List View) (n : MembershipObs)
    → (pod obs i).membership ≡ some n
    → AreViews obs (i + 1) left views
    → AreViews obs i (suc left) (view_of i n ∷ views)
unfolding reachable
AreViews-answer obs i left views n e h = record {
  covered = λ j a b m found. elim (Bool-cases (i == j)) [
    | inl same ↦
        let k : i ≡ j = (==_iff i j).0 same in
        let held : some n ≡ some m = sym e ∙ ap (λ t. (pod obs t).membership) k ∙ found in
        let last : view_of j m ≡ view_of i n =
          ap₂ view_of (sym k) (sym (some-injective n m held)) in
        Memᴰ.head last
    | inr other ↦ Memᴰ.tail (h.covered j (ground arith) (ground arith) m found)
  ];
  answer = (rw e refl, h.answer);
}

collect_views-AreViews :
    (p : Planner) (left i : ℕ) (views : List View)
    → collect_views p left i ≡ some views
    → AreViews p.obs i left views
unfolding collect_views
collect_views-AreViews p zero i views h =
    subst (AreViews p.obs i 0) (some-injective [] views h) (AreViews-empty p.obs i)
collect_views-AreViews p (suc left) i views h = elim (Option-cases (pod p.obs i).membership) [
  | inl e ↦
      AreViews-silent p.obs i left views e
        (collect_views-AreViews p left (i + 1) views (ground (arith, e)))
  | inr (m, e) ↦ elim (Option-cases (valid_members p.obs.cluster m.members)) [
    | inl f ↦ absurd (ground (arith, e, f))
    | inr (valid, f) ↦ elim (Option-cases (collect_views p left (i + 1))) [
      | inl g ↦ absurd (ground (arith, e, f, g))
      | inr (rest, g) ↦
          let all : view_of i m ∷ rest ≡ views = ground (arith, e, f, g) in
          subst (AreViews p.obs i (suc left)) all
            (AreViews-answer p.obs i left rest m e (collect_views-AreViews p left (i + 1) rest g))
    ]
  ]
]

pub set_members-obs : (p : Planner) (seen : List (ℕ × GoMap Str)) → (set_members p seen).obs ≡ p.obs
unfolding set_members
set_members-obs p [] = refl
set_members-obs p (a ∷ []) = refl
set_members-obs p (a ∷ b ∷ rest) = set_members-obs p (b ∷ rest)

pub record ReadViews (p q : Planner) (s : ℕ) (views : List View) : Type 0 where
  pub same_obs : q.obs ≡ p.obs
  pub are_views : AreViews p.obs 0 s views

pub read_views-ReadViews :
    (p q : Planner) (s : ℕ) (views : List View)
    → read_views p s ≡ ok (views, q)
    → ReadViews p q s views
unfolding read_views
read_views-ReadViews p q s views h = elim (Option-cases (collect_views p s 0)) [
  | inl e ↦ absurd (ground (arith, e))
  | inr (vs, e) ↦ elim (Option-cases (by_epoch vs [])) [
    | inl f ↦ absurd (ground (arith, e, f))
    | inr (seen, f) ↦ elim (Bool-cases (one_change seen)) [
      | inl g ↦
          let left : vs ≡ views = ground (arith, e, f, g) in
          let right : set_members p seen ≡ q = ground (arith, e, f, g) in
          record {
            same_obs = ap (λ t. t.obs) (sym right) ∙ set_members-obs p seen;
            are_views = subst (AreViews p.obs 0 s) left (collect_views-AreViews p s 0 vs e);
          }
      | inr g ↦ absurd (ground (arith, e, f, g))
    ]
  ]
]

pub all_healthy-all :
    (obs : Observation) (left i : ℕ)
    → all_healthy obs left i ≡ true
    → (j : ℕ) → i ≤ j
    → j < i + left
    → healthy (pod obs j) ≡ true
unfolding all_healthy
all_healthy-all obs zero i h j a b = absurd (omega arith)
all_healthy-all obs (suc left) i h j a b = elim (Bool-cases (i == j)) [
  | inl same ↦ subst (λ t. healthy (pod obs t) ≡ true) ((==_iff i j).0 same) (ground arith)
  | inr other ↦ all_healthy-all obs left (i + 1) (ground arith) j (ground arith) (ground arith)
]

pub record Allowed (name_members : ℕ → GoMap Str) (v : View) (allowed : List State) : Type 0 where
  pub state : has_state allowed v.epoch (length v.members) ≡ true
  pub pods_of : maps_equal v.members (name_members (length v.members)) ≡ true

pub all_in-Allowed :
    (p : Planner) (views : List View) (allowed : List State)
    → all_in p views allowed ≡ true
    → (v : View) → Memᴰ v views
    → Allowed (members p.obs.cluster.name) v allowed
unfolding all_in
all_in-Allowed p [] allowed h v m = elim m [ ]
all_in-Allowed p (w ∷ views) allowed h v (Memᴰ.head e) =
    subst (λ t. Allowed (members p.obs.cluster.name) t allowed) (sym e)
      (record { state = ground arith; pods_of = ground arith })
all_in-Allowed p (w ∷ views) allowed h v (Memᴰ.tail m) =
    all_in-Allowed p views allowed (ground arith) v m

pub handoffs_done-HandedOff :
    (p : Planner) (epoch : ℕ) (views : List View)
    → handoffs_done p epoch views ≡ some true
    → (v : View) → Memᴰ v views
    → (m : MembershipObs) → (pod p.obs v.ordinal).membership ≡ some m
    → HandedOff m epoch
unfolding handoffs_done
handoffs_done-HandedOff p epoch [] h v a m e = elim a [ ]
handoffs_done-HandedOff p epoch (w ∷ views) h v (Memᴰ.head same) m e =
    let k : (pod p.obs w.ordinal).membership ≡ some m =
      ap (λ t. (pod p.obs t.ordinal).membership) (sym same) ∙ e in
    elim (Option-cases (handoffs_done p epoch views)) [
      | inl none_left ↦ absurd (ground (arith, k, none_left))
      | inr (b, rest) ↦ record {
        reached = ground (arith, k, rest);
        finished = ground (arith, k, rest);
      }
    ]
handoffs_done-HandedOff p epoch (w ∷ views) h v (Memᴰ.tail a) m e =
    elim (Option-cases (pod p.obs w.ordinal).membership) [
      | inl k ↦ absurd (ground (arith, k))
      | inr (n, k) ↦ elim (Option-cases (handoffs_done p epoch views)) [
        | inl none_left ↦ absurd (ground (arith, k, none_left))
        | inr (b, rest) ↦
            let done : b ≡ true = ground (arith, k, rest) in
            handoffs_done-HandedOff p epoch views (rest ∙ ap some done) v a m e
      ]
    ]

-- The pods of the views answer, so no pointer is nil.
pub handoffs_done-returns :
    (p : Planner) (epoch : ℕ) (views : List View)
    → All (λ v. reachable (pod p.obs v.ordinal) ≡ true) views
    → handoffs_done p epoch views ≢ none
unfolding handoffs_done reachable
handoffs_done-returns p epoch [] h e = ground (arith, e)
handoffs_done-returns p epoch (v ∷ views) h e =
    elim (Option-cases (pod p.obs v.ordinal).membership) [
      | inl k ↦ absurd (ground (arith, k, h.0))
      | inr (m, k) ↦ elim (Option-cases (handoffs_done p epoch views)) [
        | inl none_left ↦ handoffs_done-returns p epoch views h.1 none_left
        | inr (b, rest) ↦ absurd (ground (arith, k, rest))
      ]
    ]

-- The pod whose members viewAt returns.
pub record FoundView (pods : List PodObs) (epoch i : ℕ) : Type 0 where
  pub position : ℕ
  pub within : position ≤ i
  pub owner : PodObs
  pub at_position : get_elem? pods position ≡ some owner
  pub held : MembershipObs
  pub holds : owner.membership ≡ some held
  pub for_epoch : held.epoch ≡ epoch
  pub found : view_at pods epoch ≡ some (copy held.members)

FoundView-skip :
    (a : PodObs) (pods : List PodObs) (epoch i : ℕ)
    → FoundView pods epoch i
    → view_at (a ∷ pods) epoch ≡ view_at pods epoch
    → FoundView (a ∷ pods) epoch (suc i)
FoundView-skip a pods epoch i f e =
    let within : f.position ≤ i = f.within in
    record {
      position = suc f.position;
      within = omega arith;
      owner = f.owner;
      at_position = f.at_position;
      held = f.held;
      holds = f.holds;
      for_epoch = f.for_epoch;
      found = e ∙ f.found;
    }

pub view_at-FoundView :
    (pods : List PodObs) (epoch i : ℕ) (pd : PodObs) (m : MembershipObs)
    → get_elem? pods i ≡ some pd
    → pd.membership ≡ some m
    → m.epoch ≡ epoch
    → FoundView pods epoch i
unfolding view_at
view_at-FoundView [] epoch i pd m e f g = absurd (ground (arith, e))
view_at-FoundView (a ∷ pods) epoch zero pd m e f g =
    let same : a ≡ pd = some-injective a pd e in
    let held : a.membership ≡ some m = ap (λ t. t.membership) same ∙ f in
    record {
      position = 0;
      within = omega arith;
      owner = a;
      at_position = refl;
      held = m;
      holds = held;
      for_epoch = g;
      found = ground (arith, held);
    }
view_at-FoundView (a ∷ pods) epoch (suc i) pd m e f g =
    let later : FoundView pods epoch i = view_at-FoundView pods epoch i pd m e f g in
    let skip : (a.membership ≡ none) ⊎ ((n : MembershipObs) × (a.membership ≡ some n)) =
      Option-cases a.membership in
    elim skip [
      | inl k ↦ FoundView-skip a pods epoch i later (ground (arith, k))
      | inr (n, k) ↦ elim (Bool-cases (n.epoch == epoch)) [
        | inl here ↦ record {
          position = 0;
          within = omega arith;
          owner = a;
          at_position = refl;
          held = n;
          holds = k;
          for_epoch = (==_iff n.epoch epoch).0 here;
          found = ground (arith, k);
        }
        | inr there ↦ FoundView-skip a pods epoch i later (ground (arith, k))
      ]
    ]
