-- ===== src/MemTable/Origins.antt =====
-- What a read of a table holds after Put, besides the versions that it held before: the item only.
use distributed_kv_data_stor.Prelude.{
  Bool, true, false, List, [], ◌∷◌, ◌++◌, ◌≡◌, refl, sym, ap, ◌∙◌, subst, ◌⊎◌, inl, inr, Memᴰ,
  Bool-cases, arith, if◌then◌else◌,
}
use mathlib.Core.List
use distributed_kv_data_stor.VectorClock.Order.{◌⊑◌}
use distributed_kv_data_stor.VectorClock.Laws.{⊑_trans, compare-Causal}
use distributed_kv_data_stor.Model.{DataItem, order}
use distributed_kv_data_stor.Versioning.{resolve, merge_siblings}
use distributed_kv_data_stor.Versioning.Shape.{superseded, kept, fresh, resolve-eq}
use distributed_kv_data_stor.Versioning.Cover.{
  clock_of, CoveredBy, superseded-⊑, resolve-CoveredBy, merge_siblings-CoveredBy,
}
use distributed_kv_data_stor.Versioning.Origins.{
  resolve-cases, merge-append, superseded-not_⊒, Follows, Ahead, keep-Ahead, drop-Ahead,
}
use distributed_kv_data_stor.MemTable.{holds_item, other_items, newest_first}
use distributed_kv_data_stor.MemTable.Laws.{IsPointerTest, other_items-mem, newest_first-CoveredBy}

module _ {V : Type 0} (same : DataItem V → DataItem V → Bool) (pointers : IsPointerTest same)
    (item : DataItem V) where
  -- The versions that Resolve keeps, after the item.
  moved-Ahead :
      (a old new : List (DataItem V))
      → CoveredBy new (clock_of item)
      → Ahead item old new
      → Ahead item (merge_siblings old a) (merge_siblings new (other_items same item (kept a item)))
  unfolding merge_siblings kept other_items
  moved-Ahead [] old new present h = h
  moved-Ahead (y ∷ a) old new present h = elim (Bool-cases (superseded (order y item))) [
    | inl e ↦ rw e (
        moved-Ahead a (resolve old y) new present (
          drop-Ahead item old new y
            (superseded-⊑ (compare-Causal y.vector_clock item.vector_clock) e)
            (λ c b. inr (record { by = y; older = e; below = b })) h))
    | inr e ↦ elim (Bool-cases (same y item)) [
      | inl f ↦
          let at : y ≡ item = pointers y item f in
          rw (e, f)
            (moved-Ahead a (resolve old y) new present (
              drop-Ahead item old new y
                (subst (λ t. clock_of t ⊑ clock_of item) (sym at) (λ n. omega arith))
                (λ c b. inl (record {
                  by = present.by;
                  mem = present.mem;
                  below =
                      ⊑_trans c (clock_of item) (clock_of present.by)
                        (subst (λ t. c ⊑ clock_of t) at b) present.below;
                }))
                h))
      | inr f ↦
          rw (e, f)
            (moved-Ahead a (resolve old y) (resolve new y)
              ((resolve-CoveredBy new y (clock_of item)).1 (inl present))
              (keep-Ahead item old new y e h))
    ]
  ]

  kept-Ahead :
      (a old new : List (DataItem V))
      → Ahead item old new
      → Ahead item (merge_siblings old a) (merge_siblings new (kept a item))
  unfolding merge_siblings kept
  kept-Ahead [] old new h = h
  kept-Ahead (y ∷ a) old new h = elim (Bool-cases (superseded (order y item))) [
    | inl e ↦ rw e (
        kept-Ahead a (resolve old y) new (
          drop-Ahead item old new y
            (superseded-⊑ (compare-Causal y.vector_clock item.vector_clock) e)
            (λ c b. inr (record { by = y; older = e; below = b })) h))
    | inr e ↦ rw e (kept-Ahead a (resolve old y) (resolve new y) (keep-Ahead item old new y e h))
  ]

  other_items-none :
      (items : List (DataItem V))
      → holds_item same item items ≡ false
      → other_items same item items ≡ items
  unfolding holds_item other_items
  other_items-none [] h = refl
  other_items-none (y ∷ items) h = ground (arith, h, other_items-none items)

  other_items-append :
      (a b : List (DataItem V))
      → other_items same item (a ++ b) ≡ other_items same item a ++ other_items same item b
  unfolding other_items
  other_items-append [] b = refl
  other_items-append (y ∷ a) b = ground (arith, other_items-append a b)

  -- More of the item adds nothing but the item.
  merge-only :
      (set b : List (DataItem V)) (x : DataItem V)
      → ((y : DataItem V) → Memᴰ y b → y ≡ item)
      → Memᴰ x (merge_siblings set b)
      → Memᴰ x set ⊎ (x ≡ item)
  unfolding merge_siblings
  merge-only set [] x only m = inl m
  merge-only set (y ∷ b) x only m =
      elim (merge-only (resolve set y) b x (λ z k. only z (Memᴰ.tail k)) m) [
        | inr i ↦ inr i
        | inl k ↦ elim (resolve-cases set y k) [
          | inl (old, _) ↦ inl old
          | inr (e, _) ↦ inr (e ∙ only y (Memᴰ.head refl))
        ]
      ]

  last_item : Bool → List (DataItem V)
  last_item b = if b then item ∷ [] else []

  last_item-only : (b : Bool) (y : DataItem V) → Memᴰ y (last_item b) → y ≡ item
  unfolding last_item
  last_item-only true y m = List.Memᴰ.eq_of_singleton m
  last_item-only false y m = elim m [ ]

  start-Ahead : Ahead item [] (resolve [] item)
  unfolding resolve
  start-Ahead = record {
    known = λ c w. elim w.mem [ ];
    from = λ x m. inr (List.Memᴰ.eq_of_singleton m);
    newer = λ x m. elim (Bool-cases (superseded (order x item))) [
      | inr e ↦ e
      | inl e ↦ absurd (
          superseded-not_⊒ (compare-Causal x.vector_clock item.vector_clock) e (
            subst (λ t. clock_of item ⊑ clock_of t) (sym (List.Memᴰ.eq_of_singleton m))
              (λ n. omega arith)))
    ];
  }

  empty-Ahead : Ahead item [] []
  empty-Ahead = record {
    known = λ c w. elim w.mem [ ];
    from = λ x m. elim m [ ];
    newer = λ x m. elim m [ ];
  }

  -- What Put stores, read back: versions that were read before, or the item.
  put-from :
      (a : List (DataItem V)) (x : DataItem V)
      → Memᴰ x (merge_siblings [] (newest_first same item (resolve a item)))
      → Memᴰ x (merge_siblings [] a) ⊎ (x ≡ item)
  unfolding newest_first merge_siblings last_item
  put-from a x m =
      let tail : List (DataItem V) = last_item (fresh a item) in
      let whole : resolve a item ≡ kept a item ++ tail = resolve-eq a item in
      elim (Bool-cases (holds_item same item (resolve a item))) [
        | inl e ↦
            let others = other_items same item in
            let front =
              moved-Ahead a [] (resolve [] item)
                ((resolve-CoveredBy [] item (clock_of item)).1 (inr (λ n. omega arith)))
                start-Ahead in
            let split : merge_siblings (resolve [] item) (others (resolve a item))
                ≡ merge_siblings (merge_siblings (resolve [] item) (others (kept a item)))
                    (others tail) =
              ap (merge_siblings (resolve [] item))
                (ap others whole ∙ other_items-append (kept a item) tail)
              ∙ merge-append (resolve [] item) (others (kept a item)) (others tail) in
            let moved : Memᴰ x (merge_siblings (resolve [] item) (others (resolve a item))) =
              rw e at m in
            elim (merge-only (merge_siblings (resolve [] item) (others (kept a item))) (others tail)
              x (λ y k. last_item-only (fresh a item) y (other_items-mem same pointers item tail k))
              (subst (λ l. Memᴰ x l) split moved)) [ inl k ↦ front.from x k | inr i ↦ inr i ]
        | inr e ↦
            let front = kept-Ahead a [] [] empty-Ahead in
            let stays : other_items same item (resolve a item) ≡ kept a item ++ tail =
              other_items-none (resolve a item) e ∙ whole in
            let unmoved : Memᴰ x (merge_siblings [] (other_items same item (resolve a item))) =
              rw e at m in
            elim (merge-only (merge_siblings [] (kept a item)) tail x
              (last_item-only (fresh a item))
              (subst (λ l. Memᴰ x l)
                (ap (merge_siblings []) stays ∙ merge-append [] (kept a item) tail) unmoved)) [
                  | inl k ↦ front.from x k
                  | inr i ↦ inr i
                ]
      ]

  pub put-Follows :
      (a : List (DataItem V))
      → Follows item
          (merge_siblings [] a)
          (merge_siblings [] (newest_first same item (resolve a item)))
  put-Follows a = record {
    known = λ c w. elim ((merge_siblings-CoveredBy [] a c).0 w) [
      | inl u ↦ elim u.mem [ ]
      | inr u ↦ (merge_siblings-CoveredBy [] (newest_first same item (resolve a item)) c).1 (
          inr (
            (newest_first-CoveredBy same pointers item (resolve a item) c).1
              ((resolve-CoveredBy a item c).1 (inl u))))
    ];
    from = put-from a;
  }
