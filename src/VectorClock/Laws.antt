-- ===== src/VectorClock/Laws.antt =====
-- What the comparison and the constructors of vector clocks guarantee their callers.
use distributed_kv_data_stor.Prelude.{
  ℕ, ◌+◌, ◌%◌, ◌<◌, Str, str_eq, str_eq_iff, str_eq_refl, ◌≡◌, refl, arith, ltb, if◌then◌else◌, ◌↔◌,
  inl, inr, Bool-cases,
}
use distributed_kv_data_stor.GoMap.{insert, copy, lookup-insert, lookup-copy}
use distributed_kv_data_stor.VectorClock.{
  Relation, equal, before, after, concurrent, Snapshot, VectorClock, u32_mod, version, snapshot,
  compare_snapshots, compare, from_snapshot, build_from_context,
}
use distributed_kv_data_stor.VectorClock.Order.{
  ◌⊑◌, Exceeds, Causal, same, earlier, later, parallel, compare_snapshots-Causal,
}

pub version-insert :
    (k j : Str) (v : ℕ) (m : Snapshot)
    → version (insert k v m) j ≡ (if str_eq k j then v else version m j)
unfolding version
version-insert k j v m = ground (arith, lookup-insert k j v m)

pub version-copy : (m : Snapshot) (k : Str) → version (copy m) k ≡ version m k
unfolding version
version-copy m k = ground (arith, lookup-copy k m)

pub ⊑_trans : (a b c : Snapshot) → a ⊑ b → b ⊑ c → a ⊑ c
⊑_trans a b c h k n = omega (arith, h n, k n)

pub not-⊑-Exceeds : (a b : Snapshot) → a ⊑ b → Exceeds a b → ⊥
not-⊑-Exceeds a b h (n, lt) = omega (arith, h n)

-- One pair of clocks is in one relation only.
pub Causal-unique : {a b : Snapshot} {r s : Relation} → Causal a b r → Causal a b s → r ≡ s
Causal-unique (same p q) (same _ _) = refl
Causal-unique (same p q) (earlier _ x) = absurd (not-⊑-Exceeds _ _ q x)
Causal-unique (same p q) (later _ x) = absurd (not-⊑-Exceeds _ _ p x)
Causal-unique (same p q) (parallel x _) = absurd (not-⊑-Exceeds _ _ p x)
Causal-unique (earlier p x) (same _ q) = absurd (not-⊑-Exceeds _ _ q x)
Causal-unique (earlier p x) (earlier _ _) = refl
Causal-unique (earlier p x) (later q _) = absurd (not-⊑-Exceeds _ _ q x)
Causal-unique (earlier p x) (parallel y _) = absurd (not-⊑-Exceeds _ _ p y)
Causal-unique (later p x) (same q _) = absurd (not-⊑-Exceeds _ _ q x)
Causal-unique (later p x) (earlier q _) = absurd (not-⊑-Exceeds _ _ q x)
Causal-unique (later p x) (later _ _) = refl
Causal-unique (later p x) (parallel _ y) = absurd (not-⊑-Exceeds _ _ p y)
Causal-unique (parallel x y) (same p _) = absurd (not-⊑-Exceeds _ _ p x)
Causal-unique (parallel x y) (earlier p _) = absurd (not-⊑-Exceeds _ _ p x)
Causal-unique (parallel x y) (later p _) = absurd (not-⊑-Exceeds _ _ p y)
Causal-unique (parallel x y) (parallel _ _) = refl

-- The relation seen from the other side.
unfoldable pub flip : Relation → Relation
flip equal = equal
flip before = after
flip after = before
flip concurrent = concurrent

Causal-flip : {a b : Snapshot} {r : Relation} → Causal a b r → Causal b a (flip r)
unfolding flip
Causal-flip (same p q) = same q p
Causal-flip (earlier p x) = later p x
Causal-flip (later p x) = earlier p x
Causal-flip (parallel x y) = parallel y x

-- Comparing in the other order turns the answer round.
pub compare_snapshots-flip : (a b : Snapshot) → compare_snapshots b a ≡ flip (compare_snapshots a b)
compare_snapshots-flip a b =
    Causal-unique (compare_snapshots-Causal b a) (Causal-flip (compare_snapshots-Causal a b))

-- `a` is covered by `b`: the comparison says equal or before.
abbrev pub Covered : Relation → Type 0
Covered equal = Unit
Covered before = Unit
Covered after = ⊥
Covered concurrent = ⊥

Covered-of_Causal : {a b : Snapshot} {r : Relation} → Causal a b r → a ⊑ b → Covered r
Covered-of_Causal (same _ _) h = tt
Covered-of_Causal (earlier _ _) h = tt
Covered-of_Causal (later _ x) h = not-⊑-Exceeds _ _ h x
Covered-of_Causal (parallel x _) h = not-⊑-Exceeds _ _ h x

⊑_of_Causal : {a b : Snapshot} {r : Relation} → Causal a b r → Covered r → a ⊑ b
⊑_of_Causal (same p _) h = p
⊑_of_Causal (earlier p _) h = p
⊑_of_Causal (later _ _) h = absurd h
⊑_of_Causal (parallel _ _) h = absurd h

pub Covered-iff : (a b : Snapshot) → Covered (compare_snapshots a b) ↔ (a ⊑ b)
Covered-iff a b =
    (⊑_of_Causal (compare_snapshots-Causal a b), Covered-of_Causal (compare_snapshots-Causal a b))

Causal-cong :
    {a b a' b' : Snapshot} {r : Relation}
    → ((n : Str) → version a n ≡ version a' n)
    → ((n : Str) → version b n ≡ version b' n)
    → Causal a b r
    → Causal a' b' r
Causal-cong p q (same h k) =
    same (λ n. omega (arith, p n, q n, h n)) (λ n. omega (arith, p n, q n, k n))
Causal-cong p q (earlier h (m, x)) =
    earlier (λ n. omega (arith, p n, q n, h n)) (m, omega (arith, p m, q m))
Causal-cong p q (later h (m, x)) =
    later (λ n. omega (arith, p n, q n, h n)) (m, omega (arith, p m, q m))
Causal-cong p q (parallel (m, x) (n, y)) =
    parallel (m, omega (arith, p m, q m)) (n, omega (arith, p n, q n))

-- The method Compare answers with the relation that the two clocks' states are in.
pub compare-Causal : (vc other : VectorClock) → Causal vc.state other.state (compare vc other)
unfolding compare snapshot
compare-Causal vc other =
    Causal-cong (version-copy vc.state) (version-copy other.state)
      (compare_snapshots-Causal (copy vc.state) (copy other.state))

pub compare-Covered_iff :
    (vc other : VectorClock) → Covered (compare vc other) ↔ (vc.state ⊑ other.state)
compare-Covered_iff vc other =
    (⊑_of_Causal (compare-Causal vc other), Covered-of_Causal (compare-Causal vc other))

pub compare-flip : (vc other : VectorClock) → compare other vc ≡ flip (compare vc other)
compare-flip vc other =
    Causal-unique (compare-Causal other vc) (Causal-flip (compare-Causal vc other))

-- A clock rebuilt from a snapshot compares as equal to the clock that the snapshot was taken of.
pub from_snapshot-snapshot : (vc : VectorClock) → compare (from_snapshot (snapshot vc)) vc ≡ equal
unfolding from_snapshot snapshot
from_snapshot-snapshot vc =
    Causal-unique (compare-Causal (record { state = copy (copy vc.state) }) vc) (
      same (λ n. omega (arith, version-copy (copy vc.state) n, version-copy vc.state n))
        (λ n. omega (arith, version-copy (copy vc.state) n, version-copy vc.state n)))

-- The versions of a clock built for a write.
pub version-build_from_context :
    (context : Snapshot) (node n : Str)
    → version (build_from_context context node).state n
      ≡ (if str_eq node n then (version context node + 1) % u32_mod else version context n)
unfolding build_from_context
version-build_from_context context node n = ground (
  arith,
  version-insert node n ((version (copy context) node + 1) % u32_mod) (copy context),
  version-copy context node,
  version-copy context n,
)

-- A write on top of a context is after it, until the writer's counter wraps at 2^32: then it is
-- before it, and the context supersedes the write.
pub compare-build_from_context :
    (context : Snapshot) (node : Str)
    → version context node < u32_mod
    → compare (from_snapshot context) (build_from_context context node)
      ≡ (if ltb (version context node + 1) u32_mod then before else after)
unfolding from_snapshot
compare-build_from_context context node h =
    elim (Bool-cases (ltb (version context node + 1) u32_mod)) [
      | inl e ↦ rw e (
          Causal-unique (compare-Causal _ _) (
            earlier
              (λ n. ground (
                arith,
                version-build_from_context context node n,
                version-copy context n,
                str_eq_iff node n,
              ))
              (
                node,
                ground (
                  arith,
                  version-build_from_context context node node,
                  version-copy context node,
                  str_eq_refl node,
                ),
              )))
      | inr e ↦ rw e (
          Causal-unique (compare-Causal _ _) (
            later
              (λ n. ground (
                arith,
                version-build_from_context context node n,
                version-copy context n,
                str_eq_iff node n,
              ))
              (
                node,
                ground (
                  arith,
                  version-build_from_context context node node,
                  version-copy context node,
                  str_eq_refl node,
                ),
              )))
    ]
