-- ===== src/Membership/Changes.antt =====
-- How setMembership changes the membership that a node holds: epochs only grow, one epoch means
-- one membership, and what belongs to removed members goes.
use distributed_kv_data_stor.Prelude.{
  ℕ, ◌+◌, ◌<◌, Str, str_eq, str_eq_iff, ◌≡◌, ◌++◌, refl, sym, ap, subst, ◌∙◌, Bool, true, false,
  none, some, List, [], ◌∷◌, ltb, ◌==◌, ◌&&◌, ◌⊎◌, if◌then◌else◌, arith, Option-cases, Result,
  Result-cases, ok, err, inl, inr,
}
use distributed_kv_data_stor.GoMap.{GoMap, lookup}
use distributed_kv_data_stor.Membership.{
  View, Member, MembershipError, invalid_membership, bad_ring, fingerprint_mismatch, stale_epoch,
  membership_conflict, not_persisted, build_view, validate_members, keep_members, not_members,
  not_claimed, prune_health, retire_clients_not_in, replace_view, set_membership,
}

-- Of the entries before, exactly those of the members of the view are left.
abbrev pub OnlyMembers : {A : Type 0} → View → GoMap A → GoMap A → Type 0
OnlyMembers v before after =
    (id : Str)
    → lookup id after ≡ elim (lookup id v.members) [ none ↦ none | some _ ↦ lookup id before ]

-- A change to `v`: a higher epoch, only members keep a connection, a health entry or a logged
-- conflict or mismatch, and the connections of the others are retired.
pub record Advanced {C : Type 0} (v : View) (node node' : Member C) : Type 0 where
  pub later : node.membership.epoch < v.epoch
  pub holds : node'.membership ≡ v
  pub clients : OnlyMembers v node.clients node'.clients
  pub retired : node'.retired ≡ node.retired ++ not_members v.members node.clients
  pub health : OnlyMembers v node.health node'.health
  pub conflicts : OnlyMembers v node.conflict_seen node'.conflict_seen
  pub mismatches : OnlyMembers v node.mismatch_seen node'.mismatch_seen
  pub started : node'.handoffs ≡ node.handoffs + 1

keep_members-OnlyMembers :
    {A : Type 0} (v : View) (m : GoMap A) → OnlyMembers v m (keep_members v.members m)
unfolding keep_members lookup
keep_members-OnlyMembers v [] id = ground arith
keep_members-OnlyMembers v ((j, x) ∷ m) id = ground (
  arith,
  keep_members-OnlyMembers v m id,
  λ (e : j ≡ id). ap (λ k. lookup k v.members) e,
  str_eq_iff j id,
)

abbrev pub is_changed : Result MembershipError Bool → Bool
is_changed (ok changed) = changed
is_changed (err _) = false

-- A call either leaves the node as it was, and does not report a change, or it advances it.
pub data Replaced {C : Type 0} (v : View) (node : Member C)
    : Result MembershipError Bool × Member C → Type 0 where
  left_alone : (r : Result MembershipError Bool) → is_changed r ≡ false → Replaced v node (r, node)
  advanced : (node' : Member C) → Advanced v node node' → Replaced v node (ok true, node')

pub replace_view-Replaced :
    {C : Type 0} (persisted : Bool) (claimed : Str) (v : View) (node : Member C)
    → Replaced v node (replace_view persisted claimed v node)
unfolding replace_view
replace_view-Replaced {C} persisted claimed v node =
    go (not_claimed claimed v) (ltb v.epoch node.membership.epoch)
      (str_eq v.fingerprint node.membership.fingerprint) (v.epoch == node.membership.epoch)
      persisted refl refl
  where
    next : Member C
    next =
        let pruned = prune_health v (retire_clients_not_in v (record node { membership = v })) in
        record pruned { handoffs = pruned.handoffs + 1 }

    go :
        (wrong older same at_epoch p : Bool)
        → ltb v.epoch node.membership.epoch ≡ older
        → (v.epoch == node.membership.epoch) ≡ at_epoch
        → Replaced v node (
            if wrong
            then (err fingerprint_mismatch, node)
            else if older
            then (err stale_epoch, node)
            else if at_epoch && same
            then (ok false, node)
            else if at_epoch
            then (err membership_conflict, node)
            else if p
            then (ok true, next)
            else (err not_persisted, node))
    go true older same at_epoch p e f = left_alone _ refl
    go false true same at_epoch p e f = left_alone _ refl
    go false false true true p e f = left_alone _ refl
    go false false false true p e f = left_alone _ refl
    go false false same false false e f = left_alone _ refl
    go false false same false true e f = advanced next (record {
      later = ground arith;
      holds = refl;
      clients = keep_members-OnlyMembers v node.clients;
      retired = refl;
      health = keep_members-OnlyMembers v node.health;
      conflicts = keep_members-OnlyMembers v node.conflict_seen;
      mismatches = keep_members-OnlyMembers v node.mismatch_seen;
      started = refl;
    })

-- The arguments of one call of setMembership, and whether the view could be stored.
pub record Call : Type 0 where
  pub epoch : ℕ
  pub members : GoMap Str
  pub claimed : Str
  pub persisted : Bool

module _ {C : Type 0} (fingerprint : GoMap Str → ℕ → Str) (n : ℕ) where
  abbrev pub called : Call → Member C → Result MembershipError Bool × Member C
  called c node = set_membership fingerprint n c.persisted c.epoch c.members c.claimed node

  -- What a call of setMembership does: the node is left as it was, and no change is reported; or
  -- the members are valid, and the node advances to their view.
  pub data Step (c : Call) (node : Member C) : Result MembershipError Bool × Member C → Type 0 where
    left_alone : (r : Result MembershipError Bool) → is_changed r ≡ false → Step c node (r, node)
    advanced :
        (v : View) (node' : Member C)
        → validate_members c.members n ≡ none
        → build_view fingerprint c.epoch c.members n ≡ ok v
        → Advanced v node node'
        → Step c node (ok true, node')

  Step-Replaced :
      (c : Call) (node : Member C) (v : View) (x : Result MembershipError Bool × Member C)
      → validate_members c.members n ≡ none
      → build_view fingerprint c.epoch c.members n ≡ ok v
      → Replaced v node x
      → Step c node x
  Step-Replaced c node v (r, m) valid built (Replaced.left_alone s e) = Step.left_alone s e
  Step-Replaced c node v (r, m) valid built (Replaced.advanced node' a) =
      Step.advanced v node' valid built a

  -- setMembership either leaves the node exactly as it was and reports no change, or it has moved to
  -- a higher epoch with the view of valid members. Then exactly the members' connections, health
  -- entries, and logged conflicts and mismatches are left, the connections of the others are
  -- retired, and a handoff was started.
  pub set_membership-Step : (c : Call) (node : Member C) → Step c node (called c node)
  unfolding set_membership
  set_membership-Step c node = elim (Option-cases (validate_members c.members n)) [
    | inr (e, invalid) ↦
        rw (invalid, set_membership) (Step.left_alone (err (invalid_membership e)) refl)
    | inl valid ↦ elim (Result-cases (build_view fingerprint c.epoch c.members n)) [
      | inr (e, bad) ↦ rw (valid, bad, set_membership) (Step.left_alone (err (bad_ring e)) refl)
      | inl (v, built) ↦
          rw (valid, built, set_membership)
            (Step-Replaced c node v (replace_view c.persisted c.claimed v node) valid built
              (replace_view-Replaced c.persisted c.claimed v node))
    ]
  ]

  -- Calls of setMembership, the first one first.
  unfoldable pub after_calls : List Call → Member C → Member C
  after_calls [] node = node
  after_calls (c ∷ calls) node = after_calls calls (called c node).1

  Step-grows :
      (c : Call) (node : Member C) (x : Result MembershipError Bool × Member C)
      → Step c node x
      → (x.1.membership ≡ node.membership) ⊎ (node.membership.epoch < x.1.membership.epoch)
  Step-grows c node (r, m) (Step.left_alone s e) = inl refl
  Step-grows c node (r, m) (Step.advanced v node' valid built a) =
      inr (subst (λ (w : View). node.membership.epoch < w.epoch) (sym a.holds) a.later)

  -- Over any sequence of calls the node's epoch never falls, and while it stays the same so does
  -- the whole membership: for one node an epoch names one membership.
  pub after_calls-grows :
      (calls : List Call) (node : Member C)
      → ((after_calls calls node).membership ≡ node.membership)
        ⊎ (node.membership.epoch < (after_calls calls node).membership.epoch)
  unfolding after_calls
  after_calls-grows [] node = inl refl
  after_calls-grows (c ∷ calls) node =
      elim (Step-grows c node (called c node) (set_membership-Step c node)) [
        | inl same ↦ elim (after_calls-grows calls (called c node).1) [
          | inl later_same ↦ inl (later_same ∙ same)
          | inr more ↦ inr (
              subst (λ (w : View). w.epoch < (after_calls calls (called c node).1).membership.epoch)
                same more)
        ]
        | inr more ↦ elim (after_calls-grows calls (called c node).1) [
          | inl later_same ↦
              inr (subst (λ (w : View). node.membership.epoch < w.epoch) (sym later_same) more)
          | inr yet_more ↦ inr (omega arith)
        ]
      ]
