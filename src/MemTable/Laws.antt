-- ===== src/MemTable/Laws.antt =====
-- What a memtable holds for each key after each operation.
use distributed_kv_data_stor.Prelude.{
  Str, str_eq, ◌≡◌, sym, ap, subst, ◌∙◌, Bool, true, false, none, some, List, [], ◌∷◌, ◌++◌,
  if◌then◌else◌, arith, Bool-cases, inl, inr, ◌⊎◌, ◌↔◌, Memᴰ, skip-mem, mem-skip,
}
use mathlib.Core.List
use distributed_kv_data_stor.VectorClock.{Snapshot}
use distributed_kv_data_stor.GoMap.{GoMap, insert, lookup-insert}
use distributed_kv_data_stor.Model.{DataItem}
use distributed_kv_data_stor.Versioning.Cover.{CoveredBy}
use distributed_kv_data_stor.Compaction.{versions_of, flatten_key}
use distributed_kv_data_stor.Compaction.Merging.{EnteredBy, EnteredBy-append, flatten_key-EnteredBy}
use distributed_kv_data_stor.MemTable.{Btree, holds_item, other_items, newest_first, entries_of}

-- A btree holds the last items put in for a key, and Ascend visits each key once with them.
pub record IsBtree {I : Type 0} (B : Btree I) : Type 0 where
  pub get_empty : (key : Str) → B.get key B.empty ≡ none
  pub get_put :
      (k key : Str) (i : I) (t : B.Tree)
      → B.get key (B.replace_or_insert k i t) ≡ (if str_eq k key then some i else B.get key t)
  pub get_delete :
      (k key : Str) (t : B.Tree)
      → B.get key (B.delete k t) ≡ (if str_eq k key then none else B.get key t)
  pub ascend_get :
      (key : Str) (i : I) (t : B.Tree) → Memᴰ (key, i) (B.ascend t) ↔ (B.get key t ≡ some i)

-- Pointers that are equal point to one item.
abbrev pub IsPointerTest : {V : Type 0} → (DataItem V → DataItem V → Bool) → Type 0
IsPointerTest same = (x y : DataItem _) → same x y ≡ true → x ≡ y

module _ {V : Type 0} (same : DataItem V → DataItem V → Bool) (pointers : IsPointerTest same) where
  pub other_items-mem :
      (item : DataItem V) (survivors : List (DataItem V)) {s : DataItem V}
      → Memᴰ s (other_items same item survivors)
      → Memᴰ s survivors
  unfolding other_items
  other_items-mem item [] m = elim m [ ]
  other_items-mem item (x ∷ survivors) m =
      elim (skip-mem (same x item) x (other_items same item survivors) m) [
        | inl k ↦ Memᴰ.tail (other_items-mem item survivors k)
        | inr (_, e) ↦ Memᴰ.head e
      ]

  mem-other_items :
      (item : DataItem V) (survivors : List (DataItem V)) {s : DataItem V}
      → Memᴰ s survivors
      → same s item ≡ false
      → Memᴰ s (other_items same item survivors)
  unfolding other_items
  mem-other_items item [] m e = elim m [ ]
  mem-other_items item (x ∷ survivors) {s} m e =
      mem-skip (same x item) x (other_items same item survivors) (elim (List.Memᴰ.cases_cons m) [
        | inl here ↦ inr (ap (λ t. same t item) (sym here) ∙ e, here)
        | inr k ↦ inl (mem-other_items item survivors k e)
      ])

  holds_item-mem :
      (item : DataItem V) (survivors : List (DataItem V))
      → holds_item same item survivors ≡ true
      → Memᴰ item survivors
  unfolding holds_item
  holds_item-mem item [] h = absurd (ground arith)
  holds_item-mem item (x ∷ survivors) h = elim (Bool-cases (same x item)) [
    | inl e ↦ Memᴰ.head (sym (pointers x item e))
    | inr e ↦ Memᴰ.tail (holds_item-mem item survivors (ground (arith, e)))
  ]

  mem-holds_item :
      (item s : DataItem V) (survivors : List (DataItem V))
      → Memᴰ s survivors
      → same s item ≡ true
      → holds_item same item survivors ≡ true
  unfolding holds_item
  mem-holds_item item s [] m e = elim m [ ]
  mem-holds_item item s (x ∷ survivors) m e = elim (List.Memᴰ.cases_cons m) [
    | inl here ↦
        let k : same x item ≡ true = ap (λ t. same t item) (sym here) ∙ e in ground (arith, k)
    | inr k ↦ let rest = mem-holds_item item s survivors k e in ground (arith, rest)
  ]

  -- Moving the item to the front keeps the versions of the set.
  pub newest_first-mem :
      (item s : DataItem V) (survivors : List (DataItem V))
      → Memᴰ s (newest_first same item survivors) ↔ Memᴰ s survivors
  unfolding newest_first
  newest_first-mem item s survivors = elim (Bool-cases (holds_item same item survivors)) [
    | inl e ↦
        rw (e, newest_first)
          (
            λ m. elim (List.Memᴰ.cases_cons m) [
              | inl here ↦
                  subst (λ t. Memᴰ t survivors) (sym here) (holds_item-mem item survivors e)
              | inr k ↦ other_items-mem item survivors k
            ],
            λ m. elim (Bool-cases (same s item)) [
              | inl f ↦ Memᴰ.head (pointers s item f)
              | inr f ↦ Memᴰ.tail (mem-other_items item survivors m f)
            ],
          )
    | inr e ↦
        rw (e, newest_first)
          (
            other_items-mem item survivors,
            λ m. elim (Bool-cases (same s item)) [
              | inl f ↦ absurd (ground (arith, mem-holds_item item s survivors m f))
              | inr f ↦ mem-other_items item survivors m f
            ],
          )
  ]

  pub newest_first-CoveredBy :
      (item : DataItem V) (survivors : List (DataItem V)) (c : Snapshot)
      → CoveredBy (newest_first same item survivors) c ↔ CoveredBy survivors c
  newest_first-CoveredBy item survivors c = (
    λ w. record {
      by = w.by;
      mem = (newest_first-mem item w.by survivors).0 w.mem;
      below = w.below;
    },
    λ w. record {
      by = w.by;
      mem = (newest_first-mem item w.by survivors).1 w.mem;
      below = w.below;
    },
  )

module _ {V : Type 0} where
  pub versions_of-insert :
      (k key : Str) (items : List (DataItem V)) (m : GoMap (List (DataItem V)))
      → versions_of key (insert k items m) ≡ (if str_eq k key then items else versions_of key m)
  unfolding versions_of
  versions_of-insert k key items m = ground (arith, lookup-insert k key items m)

  pub covers-append :
      (xs ys : List (DataItem V)) (c : Snapshot)
      → CoveredBy (xs ++ ys) c ↔ (CoveredBy xs c ⊎ CoveredBy ys c)
  covers-append xs ys c = (
    λ w. elim (List.Memᴰ.append_cases xs w.mem) [
      | inl k ↦ inl (record { by = w.by; mem = k; below = w.below })
      | inr k ↦ inr (record { by = w.by; mem = k; below = w.below })
    ],
    λ s. elim s [
      | inl w ↦ record { by = w.by; mem = List.Memᴰ.append_left ys w.mem; below = w.below }
      | inr w ↦ record { by = w.by; mem = List.Memᴰ.append_right xs w.mem; below = w.below }
    ],
  )

  -- What the entries of a list of visited pairs are about.
  pub entries_of-EnteredBy :
      (visited : List (Str × List (DataItem V))) (key : Str) (c : Snapshot)
      → EnteredBy (entries_of visited) key c
        ↔ ((items : List (DataItem V)) × Memᴰ (key, items) visited × CoveredBy items c)
  unfolding entries_of
  entries_of-EnteredBy [] key c = (λ w. elim w.mem [ ], λ (items, m, w). elim m [ ])
  entries_of-EnteredBy ((k, items) ∷ rest) key c =
      let parts = EnteredBy-append (flatten_key k items) (entries_of rest) key c in
      let first = flatten_key-EnteredBy k items key c in
      let others = entries_of-EnteredBy rest key c in
      (
        λ w. elim (parts.0 w) [
          | inl v ↦ let (at, u) = first.0 v in (items, Memᴰ.head (ap (λ t. (t, items)) (sym at)), u)
          | inr v ↦ let (found, m, u) = others.0 v in (found, Memᴰ.tail m, u)
        ],
        λ (found, m, u). parts.1 (elim (List.Memᴰ.cases_cons m) [
          | inl e ↦
              inl (first.1 (ap (λ t. t.0) (sym e), subst (λ l. CoveredBy l c) (ap (λ t. t.1) e) u))
          | inr k ↦ inr (others.1 (found, k, u))
        ]),
      )
