-- ===== src/Versioning/Convergence.antt =====
-- Replicas that have taken in the same writes, in any order and any number of times, hold the same
-- versions.
use mathlib.Core.Path.{subst, sym}
use distributed_kv_data_stor.Prelude.{List, [], ◌≡◌, ◌↔◌, ◌⊎◌, inl, inr, Memᴰ}
use distributed_kv_data_stor.VectorClock.{Snapshot, equal}
use distributed_kv_data_stor.VectorClock.Order.{◌⊑◌, same}
use distributed_kv_data_stor.VectorClock.Laws.{⊑_trans, compare-Causal, Causal-unique}
use distributed_kv_data_stor.Model.{DataItem, order}
use distributed_kv_data_stor.Versioning.{merge_siblings}
use distributed_kv_data_stor.Versioning.Cover.{
  clock_of, CoveredBy, covered_self, merge_siblings-CoveredBy,
}
use distributed_kv_data_stor.Versioning.Siblings.{
  IsAntichain, IsAntichain-⊑, merge_siblings-IsAntichain,
}

module _ {ℓ} {V : Type ℓ} where
  -- Two sibling sets that cover the same clocks hold versions with the same clocks.
  pub same_cover :
      (xs ys : List (DataItem V))
      → IsAntichain xs
      → ((c : Snapshot) → CoveredBy xs c ↔ CoveredBy ys c)
      → (x : DataItem V) → Memᴰ x xs
      → (y : DataItem V) × Memᴰ y ys × (order x y ≡ equal)
  same_cover xs ys anti cover x m =
      let up = (cover (clock_of x)).0 (covered_self m) in
      let down = (cover (clock_of up.by)).1 (covered_self up.mem) in
      let e : x ≡ down.by =
        IsAntichain-⊑ xs anti m down.mem
          (⊑_trans (clock_of x) (clock_of up.by) (clock_of down.by) up.below down.below) in
      let back : clock_of up.by ⊑ clock_of x =
        subst (λ (z : DataItem V). clock_of up.by ⊑ clock_of z) (sym e) down.below in
      (
        up.by,
        up.mem,
        Causal-unique (compare-Causal x.vector_clock up.by.vector_clock) (same up.below back),
      )

  mem-CoveredBy :
      (ws vs : List (DataItem V)) (c : Snapshot)
      → ((w : DataItem V) → Memᴰ w ws → Memᴰ w vs)
      → CoveredBy ws c
      → CoveredBy vs c
  mem-CoveredBy ws vs c sub h = record { by = h.by; mem = sub h.by h.mem; below = h.below }

  -- Two replicas start empty and take in writes by Resolve. If each write that one has received
  -- the other has received too, every version that one holds has a version with an equal clock on
  -- the other, whatever the orders and the repetitions.
  pub merge_siblings-converges :
      (ws vs : List (DataItem V))
      → ((w : DataItem V) → Memᴰ w ws ↔ Memᴰ w vs)
      → (x : DataItem V) → Memᴰ x (merge_siblings [] ws)
      → (y : DataItem V) × Memᴰ y (merge_siblings [] vs) × (order x y ≡ equal)
  merge_siblings-converges ws vs both =
      same_cover (merge_siblings [] ws) (merge_siblings [] vs) (merge_siblings-IsAntichain [] ws tt)
        λ c. (λ h. through ws vs c (λ w. (both w).0) h, λ h. through vs ws c (λ w. (both w).1) h)
    where
      through :
          (us ts : List (DataItem V)) (c : Snapshot)
          → ((w : DataItem V) → Memᴰ w us → Memᴰ w ts)
          → CoveredBy (merge_siblings [] us) c
          → CoveredBy (merge_siblings [] ts) c
      through us ts c sub h = elim ((merge_siblings-CoveredBy [] us c).0 h) [
        | inl none_yet ↦ elim none_yet.mem [ ]
        | inr got ↦ (merge_siblings-CoveredBy [] ts c).1 (inr (mem-CoveredBy us ts c sub got))
      ]

  -- The sibling set of a quorum read does not depend on which of two answers is merged into which.
  pub merge_siblings-sym :
      (a b : List (DataItem V))
      → IsAntichain a
      → (x : DataItem V) → Memᴰ x (merge_siblings a b)
      → (y : DataItem V) × Memᴰ y (merge_siblings b a) × (order x y ≡ equal)
  merge_siblings-sym a b anti =
      same_cover (merge_siblings a b) (merge_siblings b a) (merge_siblings-IsAntichain a b anti)
        λ c. (
          λ h. (merge_siblings-CoveredBy b a c).1 (other ((merge_siblings-CoveredBy a b c).0 h)),
          λ h. (merge_siblings-CoveredBy a b c).1 (other ((merge_siblings-CoveredBy b a c).0 h)),
        )
    where
      other : {A B : Type ℓ} → A ⊎ B → B ⊎ A
      other (inl h) = inr h
      other (inr h) = inl h
