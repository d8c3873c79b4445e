-- ===== src/Versioning/Origins.antt =====
-- Where the versions of a merged set come from: a set that took in one item more holds no version
-- that the set without it lacks, but for the item.
use distributed_kv_data_stor.Prelude.{
  Bool, true, false, List, [], ◌∷◌, ◌++◌, ◌≡◌, refl, sym, ◌∙◌, subst, ◌⊎◌, inl, inr, Memᴰ,
  Bool-cases, if◌then◌else◌,
}
use mathlib.Core.List
use mathlib.Core.Bool.{true≢false}
use distributed_kv_data_stor.VectorClock.{Relation, Snapshot}
use distributed_kv_data_stor.VectorClock.Order.{◌⊑◌, Causal, same, earlier, later, parallel}
use distributed_kv_data_stor.VectorClock.Laws.{⊑_trans, not-⊑-Exceeds, compare-Causal}
use distributed_kv_data_stor.Model.{DataItem, order}
use distributed_kv_data_stor.Versioning.{resolve, merge_siblings}
use distributed_kv_data_stor.Versioning.Shape.{
  superseded, kept, fresh, resolve-eq, kept-mem, mem-kept, fresh-false, fresh-true,
}
use distributed_kv_data_stor.Versioning.Cover.{
  clock_of, CoveredBy, covering-⊑, superseded-⊑, resolve-CoveredBy,
}
use distributed_kv_data_stor.Versioning.Siblings.{⊑-covering}

not_superseded-⊒ :
    {a b : Snapshot} {r : Relation} → Causal a b r → superseded r ≡ false → a ⊑ b → b ⊑ a
not_superseded-⊒ (same p q) e h = q
not_superseded-⊒ (earlier p x) e h = absurd (true≢false e)
not_superseded-⊒ (later p x) e h = p
not_superseded-⊒ (parallel x y) e h = absurd (not-⊑-Exceeds _ _ h x)

pub superseded-not_⊒ :
    {a b : Snapshot} {r : Relation} → Causal a b r → superseded r ≡ true → ¬ (b ⊑ a)
superseded-not_⊒ (same p q) e h = true≢false (sym e)
superseded-not_⊒ (earlier p x) e h = not-⊑-Exceeds _ _ h x
superseded-not_⊒ (later p x) e h = true≢false (sym e)
superseded-not_⊒ (parallel x y) e h = true≢false (sym e)

module _ {ℓ} {V : Type ℓ} where
  -- A survivor of Resolve is an old version that is not superseded, or the incoming one, which no
  -- old version covers.
  pub resolve-cases :
      (set : List (DataItem V)) (y : DataItem V) {x : DataItem V}
      → Memᴰ x (resolve set y)
      → (Memᴰ x set × (superseded (order x y) ≡ false)) ⊎ ((x ≡ y) × ¬ (CoveredBy set (clock_of y)))
  resolve-cases set y {x} m =
      elim (List.Memᴰ.append_cases (kept set y) (rw (resolve-eq set y) at m)) [
        | inl k ↦ inl (kept-mem set y k)
        | inr k ↦ inr (last (fresh set y) refl k)
      ]
    where
      last :
          (b : Bool)
          → fresh set y ≡ b
          → Memᴰ x (if b then y ∷ [] else [])
          → (x ≡ y) × ¬ (CoveredBy set (clock_of y))
      last true e k = (
        List.Memᴰ.eq_of_singleton k,
        λ w. true≢false (
            sym (⊑-covering (compare-Causal w.by.vector_clock y.vector_clock) w.below)
            ∙ fresh-true set y e w.mem),
      )
      last false e k = elim k [ ]

  pub mem-resolve :
      (set : List (DataItem V)) (y x : DataItem V)
      → Memᴰ x set
      → superseded (order x y) ≡ false
      → Memᴰ x (resolve set y)
  mem-resolve set y x m e = rw (resolve-eq set y) (List.Memᴰ.append_left _ (mem-kept set y m e))

  pub fresh-resolve :
      (set : List (DataItem V)) (y : DataItem V)
      → ¬ (CoveredBy set (clock_of y))
      → Memᴰ y (resolve set y)
  fresh-resolve set y new = elim (Bool-cases (fresh set y)) [
    | inl e ↦ rw (resolve-eq set y) (rw e (List.Memᴰ.append_right (kept set y) (Memᴰ.head refl)))
    | inr e ↦
        let (s, m, c) = fresh-false set y e in
        absurd (
          new (record {
            by = s;
            mem = m;
            below = covering-⊑ (compare-Causal s.vector_clock y.vector_clock) c;
          }))
  ]

  pub merge-append :
      (set b c : List (DataItem V))
      → merge_siblings set (b ++ c) ≡ merge_siblings (merge_siblings set b) c
  unfolding merge_siblings
  merge-append set [] c = refl
  merge-append set (y ∷ b) c = merge-append (resolve set y) b c

module _ {ℓ} {V : Type ℓ} (item : DataItem V) where
  -- `new` knows what `old` does, and holds only versions of `old` and the item.
  pub record Follows (old new : List (DataItem V)) : Type ℓ where
    pub known : (c : Snapshot) → CoveredBy old c → CoveredBy new c
    pub from : (x : DataItem V) → Memᴰ x new → Memᴰ x old ⊎ (x ≡ item)

  resolve-Follows :
      (old new : List (DataItem V)) (y : DataItem V)
      → Follows old new
      → Follows (resolve old y) (resolve new y)
  resolve-Follows old new y f = record {
    known = λ c w.
        (resolve-CoveredBy new y c).1
          (elim ((resolve-CoveredBy old y c).0 w) [ inl u ↦ inl (f.known c u) | inr b ↦ inr b ]);
    from = λ x m. elim (resolve-cases new y m) [
      | inl (k, e) ↦ elim (f.from x k) [ inl o ↦ inl (mem-resolve old y x o e) | inr i ↦ inr i ]
      | inr (e, free) ↦ inl (
          subst (λ t. Memᴰ t (resolve old y)) (sym e)
            (fresh-resolve old y (λ w. free (f.known (clock_of y) w))))
    ];
  }

  pub merge-Follows :
      (old new b : List (DataItem V))
      → Follows old new
      → Follows (merge_siblings old b) (merge_siblings new b)
  unfolding merge_siblings
  merge-Follows old new [] f = f
  merge-Follows old new (y ∷ b) f =
      merge-Follows (resolve old y) (resolve new y) b (resolve-Follows old new y f)

  -- Some version that the item supersedes covers the clock.
  pub record Below (c : Snapshot) : Type ℓ where
    pub by : DataItem V
    pub older : superseded (order by item) ≡ true
    pub below : c ⊑ clock_of by

  -- As `Follows`, but `new` may lack what the item supersedes, and holds nothing of it.
  pub record Ahead (old new : List (DataItem V)) : Type ℓ where
    pub known : (c : Snapshot) → CoveredBy old c → CoveredBy new c ⊎ Below c
    pub from : (x : DataItem V) → Memᴰ x new → Memᴰ x old ⊎ (x ≡ item)
    pub newer : (x : DataItem V) → Memᴰ x new → superseded (order x item) ≡ false

  -- A version that the item does not supersede is merged into both.
  pub keep-Ahead :
      (old new : List (DataItem V)) (y : DataItem V)
      → superseded (order y item) ≡ false
      → Ahead old new
      → Ahead (resolve old y) (resolve new y)
  keep-Ahead old new y plain a = record {
    known = λ c w. elim ((resolve-CoveredBy old y c).0 w) [
      | inl u ↦ elim (a.known c u) [
        | inl v ↦ inl ((resolve-CoveredBy new y c).1 (inl v))
        | inr b ↦ inr b
      ]
      | inr b ↦ inl ((resolve-CoveredBy new y c).1 (inr b))
    ];
    from = λ x m. elim (resolve-cases new y m) [
      | inl (k, e) ↦ elim (a.from x k) [ inl o ↦ inl (mem-resolve old y x o e) | inr i ↦ inr i ]
      | inr (e, free) ↦ inl (
          subst (λ t. Memᴰ t (resolve old y)) (sym e)
            (fresh-resolve old y (λ w. elim (a.known (clock_of y) w) [
              | inl v ↦ free v
              | inr b ↦
                  let under =
                    superseded-⊑ (compare-Causal b.by.vector_clock item.vector_clock) b.older in
                  let back =
                    not_superseded-⊒ (compare-Causal y.vector_clock item.vector_clock) plain
                      (⊑_trans (clock_of y) (clock_of b.by) (clock_of item) b.below under) in
                  superseded-not_⊒ (compare-Causal b.by.vector_clock item.vector_clock) b.older
                    (⊑_trans (clock_of item) (clock_of y) (clock_of b.by) back b.below)
            ])))
    ];
    newer = λ x m. elim (resolve-cases new y m) [
      | inl (k, _) ↦ a.newer x k
      | inr (e, _) ↦ subst (λ t. superseded (order t item) ≡ false) (sym e) plain
    ];
  }

  -- A version that the item covers goes into the old set only.
  pub drop-Ahead :
      (old new : List (DataItem V)) (y : DataItem V)
      → clock_of y ⊑ clock_of item
      → ((c : Snapshot) → c ⊑ clock_of y → CoveredBy new c ⊎ Below c)
      → Ahead old new
      → Ahead (resolve old y) new
  drop-Ahead old new y under covered a = record {
    known =
        λ c w. elim ((resolve-CoveredBy old y c).0 w) [ inl u ↦ a.known c u | inr b ↦ covered c b ];
    from = λ x m. elim (a.from x m) [
      | inr i ↦ inr i
      | inl o ↦ elim (Bool-cases (superseded (order x y))) [
        | inr e ↦ inl (mem-resolve old y x o e)
        | inl e ↦
            let low = superseded-⊑ (compare-Causal x.vector_clock y.vector_clock) e in
            let back =
              not_superseded-⊒ (compare-Causal x.vector_clock item.vector_clock) (a.newer x m)
                (⊑_trans (clock_of x) (clock_of y) (clock_of item) low under) in
            absurd (
              superseded-not_⊒ (compare-Causal x.vector_clock y.vector_clock) e
                (⊑_trans (clock_of y) (clock_of item) (clock_of x) under back))
      ]
    ];
    newer = a.newer;
  }
