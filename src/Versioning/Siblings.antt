-- ===== src/Versioning/Siblings.antt =====
-- The versions of a sibling set are concurrent with one another, and Resolve keeps it so.
use distributed_kv_data_stor.Prelude.{
  Bool, true, false, List, [], ◌∷◌, ◌++◌, ◌≡◌, refl, sym, ap, ◌∙◌, append-nil, inl, inr, Memᴰ,
  Bool-cases, arith, All, All-mem, All-of_mem,
}
use mathlib.Core.Bool.{true≢false}
use distributed_kv_data_stor.VectorClock.{Relation, before, concurrent, Snapshot}
use distributed_kv_data_stor.VectorClock.Order.{◌⊑◌, Causal, same, earlier, later, parallel}
use distributed_kv_data_stor.VectorClock.Laws.{
  ⊑_trans, compare-Causal, compare-flip, flip, not-⊑-Exceeds,
}
use distributed_kv_data_stor.Model.{DataItem, order}
use distributed_kv_data_stor.Versioning.{resolve, merge_siblings}
use distributed_kv_data_stor.Versioning.Shape.{
  superseded, covering, kept, fresh, resolve-eq, kept-mem, fresh-true,
}
use distributed_kv_data_stor.Versioning.Cover.{
  clock_of, superseded-⊑, covering-not_superseded, CoveredBy, covers-incoming,
}

concurrent_of : (r : Relation) → superseded r ≡ false → covering r ≡ false → r ≡ concurrent
concurrent_of r h k = ground arith

pub ⊑-covering : {a b : Snapshot} {r : Relation} → Causal a b r → b ⊑ a → covering r ≡ true
⊑-covering (same p q) h = refl
⊑-covering (earlier p x) h = absurd (not-⊑-Exceeds _ _ h x)
⊑-covering (later p x) h = refl
⊑-covering (parallel x y) h = absurd (not-⊑-Exceeds _ _ h y)

module _ {ℓ} {V : Type ℓ} where
  -- Any two versions at different places of the set are concurrent.
  abbrev pub IsAntichain : List (DataItem V) → Type ℓ
  IsAntichain [] = Unit
  IsAntichain (x ∷ xs) = All (λ y. order x y ≡ concurrent) xs × IsAntichain xs

  All-kept :
      (P : DataItem V → Type 0) (items : List (DataItem V)) (incoming : DataItem V)
      → All P items
      → All P (kept items incoming)
  All-kept P items incoming h =
      All-of_mem P (kept items incoming) (λ s m. All-mem P items h (kept-mem items incoming m).0)

  kept-IsAntichain :
      (items : List (DataItem V)) (incoming : DataItem V)
      → IsAntichain items
      → IsAntichain (kept items incoming)
  unfolding kept
  kept-IsAntichain [] incoming h = tt
  kept-IsAntichain (x ∷ items) incoming h = elim (Bool-cases (superseded (order x incoming))) [
    | inl e ↦ rw e (kept-IsAntichain items incoming h.1)
    | inr e ↦ rw e (
      All-kept (λ y. order x y ≡ concurrent) items incoming h.0,
      kept-IsAntichain items incoming h.1,
    )
  ]

  snoc-IsAntichain :
      (items : List (DataItem V)) (incoming : DataItem V)
      → IsAntichain items
      → ((s : DataItem V) → Memᴰ s items → order s incoming ≡ concurrent)
      → IsAntichain (items ++ incoming ∷ [])
  snoc-IsAntichain [] incoming h k = (tt, tt)
  snoc-IsAntichain (x ∷ items) incoming h k =
      (All-snoc items h.0, snoc-IsAntichain items incoming h.1 (λ s m. k s (Memᴰ.tail m)))
    where
      All-snoc :
          (ys : List (DataItem V))
          → All (λ y. order x y ≡ concurrent) ys
          → All (λ y. order x y ≡ concurrent) (ys ++ incoming ∷ [])
      All-snoc [] a = (k x (Memᴰ.head refl), tt)
      All-snoc (y ∷ ys) a = (a.0, All-snoc ys a.1)

  -- Resolve keeps the versions of a sibling set pairwise concurrent.
  pub resolve-IsAntichain :
      (existing : List (DataItem V)) (incoming : DataItem V)
      → IsAntichain existing
      → IsAntichain (resolve existing incoming)
  resolve-IsAntichain existing incoming h = elim (Bool-cases (fresh existing incoming)) [
    | inl e ↦ rw (resolve-eq existing incoming) (
        rw e (
          snoc-IsAntichain (kept existing incoming) incoming (kept-IsAntichain existing incoming h)
            (λ s m.
              let (m', k) = kept-mem existing incoming m in
              concurrent_of _ k (fresh-true existing incoming e m'))))
    | inr e ↦
        rw (resolve-eq existing incoming)
          (rw e (rw append-nil (kept-IsAntichain existing incoming h)))
  ]

  -- MergeSiblings keeps it too, whatever the second set is.
  pub merge_siblings-IsAntichain :
      (a b : List (DataItem V)) → IsAntichain a → IsAntichain (merge_siblings a b)
  unfolding merge_siblings
  merge_siblings-IsAntichain a [] h = h
  merge_siblings-IsAntichain a (item ∷ b) h =
      merge_siblings-IsAntichain (resolve a item) b (resolve-IsAntichain a item h)

  concurrent-not-⊑ : (x y : DataItem V) → order x y ≡ concurrent → clock_of x ⊑ clock_of y → ⊥
  unfolding flip
  concurrent-not-⊑ x y e h = true≢false (
      sym (⊑-covering (compare-Causal y.vector_clock x.vector_clock) h)
      ∙ ap covering (compare-flip x.vector_clock y.vector_clock ∙ ap flip e))

  concurrent-not-⊒ : (x y : DataItem V) → order x y ≡ concurrent → clock_of y ⊑ clock_of x → ⊥
  concurrent-not-⊒ x y e h =
      true≢false (sym (⊑-covering (compare-Causal x.vector_clock y.vector_clock) h) ∙ ap covering e)

  -- Of two versions of one sibling set, neither covers the other unless they are the same one.
  pub IsAntichain-⊑ :
      (items : List (DataItem V)) {x y : DataItem V}
      → IsAntichain items
      → Memᴰ x items
      → Memᴰ y items
      → clock_of x ⊑ clock_of y
      → x ≡ y
  IsAntichain-⊑ [] h mx my le = elim mx [ ]
  IsAntichain-⊑ (z ∷ items) h (Memᴰ.head e) (Memᴰ.head f) le = e ∙ sym f
  IsAntichain-⊑ (z ∷ items) {x} {y} h (Memᴰ.head e) (Memᴰ.tail my) le =
      absurd (concurrent-not-⊑ x y (rw e (All-mem _ items h.0 my)) le)
  IsAntichain-⊑ (z ∷ items) {x} {y} h (Memᴰ.tail mx) (Memᴰ.head f) le =
      absurd (concurrent-not-⊒ y x (rw f (All-mem _ items h.0 mx)) le)
  IsAntichain-⊑ (z ∷ items) h (Memᴰ.tail mx) (Memᴰ.tail my) le = IsAntichain-⊑ items h.1 mx my le

  kept-eq :
      (items : List (DataItem V)) (incoming : DataItem V)
      → ((s : DataItem V) → Memᴰ s items → superseded (order s incoming) ≡ false)
      → kept items incoming ≡ items
  unfolding kept
  kept-eq [] incoming h = refl
  kept-eq (x ∷ items) incoming h =
      rw (h x (Memᴰ.head refl))
        (ap (λ r. x ∷ r) (kept-eq items incoming (λ s m. h s (Memᴰ.tail m))))

  -- A write that one of the siblings already covers changes nothing: a replica that receives it
  -- late or twice holds the same versions in the same order.
  pub resolve_covered :
      (existing : List (DataItem V)) (incoming : DataItem V)
      → IsAntichain existing
      → CoveredBy existing (clock_of incoming)
      → resolve existing incoming ≡ existing
  resolve_covered existing incoming h w = rw (resolve-eq existing incoming) (
      rw (stale (fresh existing incoming) refl)
        (append-nil (kept existing incoming) ∙ kept-eq existing incoming stays))
    where
      stale : (b : Bool) → fresh existing incoming ≡ b → b ≡ false
      stale false e = refl
      stale true e =
          sym (⊑-covering (compare-Causal w.by.vector_clock incoming.vector_clock) w.below)
          ∙ fresh-true existing incoming e w.mem

      only : (s : DataItem V) → Memᴰ s existing → superseded (order s incoming) ≡ true → s ≡ w.by
      only s m e = IsAntichain-⊑ existing h m w.mem (
          ⊑_trans (clock_of s) (clock_of incoming) (clock_of w.by)
            (superseded-⊑ (compare-Causal s.vector_clock incoming.vector_clock) e) w.below)

      stays : (s : DataItem V) → Memᴰ s existing → superseded (order s incoming) ≡ false
      stays s m = elim (Bool-cases (superseded (order s incoming))) [
        | inr e ↦ e
        | inl e ↦ covering-not_superseded (order s incoming) (
            ⊑-covering (compare-Causal s.vector_clock incoming.vector_clock)
              (rw (only s m e) w.below))
      ]

  -- Resolving the same version twice is resolving it once.
  pub resolve-idempotent :
      (existing : List (DataItem V)) (incoming : DataItem V)
      → IsAntichain existing
      → resolve (resolve existing incoming) incoming ≡ resolve existing incoming
  resolve-idempotent existing incoming h =
      resolve_covered (resolve existing incoming) incoming (resolve-IsAntichain existing incoming h)
        (covers-incoming existing incoming)

  All-before :
      (items : List (DataItem V)) (incoming : DataItem V)
      → All (λ s. order s incoming ≡ before) items
      → (kept items incoming ≡ []) × (fresh items incoming ≡ true)
  unfolding kept fresh
  All-before [] incoming h = (refl, refl)
  All-before (x ∷ items) incoming h =
      let (k, f) = All-before items incoming h.1 in (rw h.0 k, rw h.0 f)

  -- A write that is after every sibling is the only version left.
  pub resolve-All_before :
      (existing : List (DataItem V)) (incoming : DataItem V)
      → All (λ s. order s incoming ≡ before) existing
      → resolve existing incoming ≡ incoming ∷ []
  resolve-All_before existing incoming h =
      let (k, f) = All-before existing incoming h in rw (resolve-eq existing incoming, k, f)
