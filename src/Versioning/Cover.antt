-- ===== src/Versioning/Cover.antt =====
-- What a sibling set knows: the clocks that one of its versions covers. Resolve and MergeSiblings
-- lose none of them and invent none.
use distributed_kv_data_stor.Prelude.{
  Bool, true, false, List, [], ◌∷◌, ◌≡◌, refl, ◌↔◌, ◌⊎◌, inl, inr, Memᴰ, Bool-cases, arith,
  if◌then◌else◌,
}
use mathlib.Core.Bool.{false≢true}
use mathlib.Core.List
use distributed_kv_data_stor.VectorClock.{Relation, Snapshot}
use distributed_kv_data_stor.VectorClock.Order.{◌⊑◌, Causal, same, earlier, later, parallel}
use distributed_kv_data_stor.VectorClock.Laws.{⊑_trans, compare-Causal}
use distributed_kv_data_stor.Model.{DataItem, order}
use distributed_kv_data_stor.Versioning.{resolve, merge_siblings}
use distributed_kv_data_stor.Versioning.Shape.{
  superseded, covering, kept, fresh, resolve-eq, kept-mem, mem-kept, fresh-false,
}

pub covering-⊑ : {a b : Snapshot} {r : Relation} → Causal a b r → covering r ≡ true → b ⊑ a
covering-⊑ (same p q) e = q
covering-⊑ (earlier p x) e = absurd (false≢true e)
covering-⊑ (later p x) e = p
covering-⊑ (parallel x y) e = absurd (false≢true e)

pub superseded-⊑ : {a b : Snapshot} {r : Relation} → Causal a b r → superseded r ≡ true → a ⊑ b
superseded-⊑ (same p q) e = absurd (false≢true e)
superseded-⊑ (earlier p x) e = p
superseded-⊑ (later p x) e = absurd (false≢true e)
superseded-⊑ (parallel x y) e = absurd (false≢true e)

pub covering-not_superseded : (r : Relation) → covering r ≡ true → superseded r ≡ false
covering-not_superseded r h = ground arith

module _ {ℓ} {V : Type ℓ} where
  abbrev pub clock_of : DataItem V → Snapshot
  clock_of item = item.vector_clock.state

  -- Some version of the set is at or after `c`.
  pub record CoveredBy (items : List (DataItem V)) (c : Snapshot) : Type ℓ where
    pub by : DataItem V
    pub mem : Memᴰ by items
    pub below : c ⊑ clock_of by

  pub covered_self :
      {items : List (DataItem V)} {s : DataItem V} → Memᴰ s items → CoveredBy items (clock_of s)
  covered_self {s = s} m = record { by = s; mem = m; below = λ n. omega arith }

  resolve-mem-kept :
      (existing : List (DataItem V)) (incoming : DataItem V) {s : DataItem V}
      → Memᴰ s (kept existing incoming)
      → Memᴰ s (resolve existing incoming)
  resolve-mem-kept existing incoming m =
      rw (resolve-eq existing incoming) (List.Memᴰ.append_left _ m)

  -- A survivor is an existing version or the incoming one.
  pub resolve-mem :
      (existing : List (DataItem V)) (incoming : DataItem V) {s : DataItem V}
      → Memᴰ s (resolve existing incoming)
      → Memᴰ s existing ⊎ (s ≡ incoming)
  resolve-mem existing incoming {s} m =
      elim (List.Memᴰ.append_cases (kept existing incoming)
        (rw (resolve-eq existing incoming) at m)) [
          | inl k ↦ inl (kept-mem existing incoming k).0
          | inr k ↦ inr (last (fresh existing incoming) k)
        ]
    where
      last : (b : Bool) → Memᴰ s (if b then incoming ∷ [] else []) → s ≡ incoming
      last true k = List.Memᴰ.eq_of_singleton k
      last false k = elim k [ ]

  pub covers-incoming :
      (existing : List (DataItem V)) (incoming : DataItem V)
      → CoveredBy (resolve existing incoming) (clock_of incoming)
  covers-incoming existing incoming = elim (Bool-cases (fresh existing incoming)) [
    | inl e ↦ record {
      by = incoming;
      mem =
          rw (resolve-eq existing incoming)
            (rw e (List.Memᴰ.append_right (kept existing incoming) (Memᴰ.head refl)));
      below = λ n. omega arith;
    }
    | inr e ↦
        let (s, m, c) = fresh-false existing incoming e in
        record {
          by = s;
          mem =
              resolve-mem-kept existing incoming
                (mem-kept existing incoming m (covering-not_superseded _ c));
          below = covering-⊑ (compare-Causal s.vector_clock incoming.vector_clock) c;
        }
  ]

  widen :
      {items : List (DataItem V)} {c d : Snapshot} → c ⊑ d → CoveredBy items d → CoveredBy items c
  widen {c = c} {d = d} h w = record {
    by = w.by;
    mem = w.mem;
    below = ⊑_trans c d (clock_of w.by) h w.below;
  }

  covers-existing :
      (existing : List (DataItem V)) (incoming : DataItem V) {c : Snapshot}
      → CoveredBy existing c
      → CoveredBy (resolve existing incoming) c
  covers-existing existing incoming {c} w = elim (Bool-cases (superseded (order w.by incoming))) [
    | inl e ↦
        widen
          (⊑_trans c (clock_of w.by) (clock_of incoming) w.below
            (superseded-⊑ (compare-Causal w.by.vector_clock incoming.vector_clock) e))
          (covers-incoming existing incoming)
    | inr e ↦ record {
      by = w.by;
      mem = resolve-mem-kept existing incoming (mem-kept existing incoming w.mem e);
      below = w.below;
    }
  ]

  -- Resolve neither forgets nor invents history: it covers a clock exactly when the existing
  -- versions or the incoming one do.
  pub resolve-CoveredBy :
      (existing : List (DataItem V)) (incoming : DataItem V) (c : Snapshot)
      → CoveredBy (resolve existing incoming) c ↔ (CoveredBy existing c ⊎ (c ⊑ clock_of incoming))
  resolve-CoveredBy existing incoming c = (
    λ w. elim (resolve-mem existing incoming w.mem) [
      | inl m ↦ inl (record { by = w.by; mem = m; below = w.below })
      | inr e ↦ inr (rw (← e) w.below)
    ],
    λ s. elim s [
      | inl w ↦ covers-existing existing incoming w
      | inr h ↦ widen h (covers-incoming existing incoming)
    ],
  )

  -- MergeSiblings covers a clock exactly when one of the two sets does.
  pub merge_siblings-CoveredBy :
      (a b : List (DataItem V)) (c : Snapshot)
      → CoveredBy (merge_siblings a b) c ↔ (CoveredBy a c ⊎ CoveredBy b c)
  unfolding merge_siblings
  merge_siblings-CoveredBy a [] c = (inl, λ s. elim s [ inl w ↦ w | inr w ↦ elim w.mem [ ] ])
  merge_siblings-CoveredBy a (item ∷ b) c = (
    λ w. elim ((merge_siblings-CoveredBy (resolve a item) b c).0 w) [
      | inl v ↦ elim ((resolve-CoveredBy a item c).0 v) [
        | inl u ↦ inl u
        | inr h ↦ inr (record { by = item; mem = Memᴰ.head refl; below = h })
      ]
      | inr v ↦ inr (record { by = v.by; mem = Memᴰ.tail v.mem; below = v.below })
    ],
    λ s. (merge_siblings-CoveredBy (resolve a item) b c).1 (elim s [
      | inl w ↦ inl ((resolve-CoveredBy a item c).1 (inl w))
      | inr w ↦ elim (List.Memᴰ.cases_cons w.mem) [
        | inl e ↦ inl ((resolve-CoveredBy a item c).1 (inr (rw (← e) w.below)))
        | inr m ↦ inr (record { by = w.by; mem = m; below = w.below })
      ]
    ]),
  )
