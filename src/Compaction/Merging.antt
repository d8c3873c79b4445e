-- ===== src/Compaction/Merging.antt =====
-- The merge of a compaction neither forgets nor invents a version of any key.
use distributed_kv_data_stor.Prelude.{
  Str, str_eq, str_eq_iff, ◌≡◌, refl, sym, ap, subst, ◌∙◌, Option, none, some, List, [], ◌∷◌, ◌++◌,
  if◌then◌else◌, arith, Bool-cases, Option-cases, inl, inr, ◌⊎◌, ◌↔◌, Memᴰ, Result, Result-cases,
  ok, ◌>>=◌,
}
use mathlib.Core.List
use distributed_kv_data_stor.VectorClock.{Snapshot}
use distributed_kv_data_stor.VectorClock.Order.{◌⊑◌}
use distributed_kv_data_stor.Model.{DataItem}
use distributed_kv_data_stor.Versioning.{merge_siblings}
use distributed_kv_data_stor.Versioning.Cover.{clock_of, CoveredBy, merge_siblings-CoveredBy}
use distributed_kv_data_stor.GoMap.{GoMap, lookup, insert, keys, lookup-insert}
use distributed_kv_data_stor.VectorClock.Order.{keys-mem}
use distributed_kv_data_stor.Membership.{sorted}
use distributed_kv_data_stor.Membership.Sorted.{sorted-mem}
use distributed_kv_data_stor.Compaction.{
  Entry, versions_of, merge_entries, flatten_key, flatten, merge_sources, merge,
}

module _ {V : Type 0} where
  -- One of the entries is a version of the key that covers the clock.
  pub record EnteredBy (entries : List (Entry V)) (key : Str) (c : Snapshot) : Type 0 where
    pub by : Entry V
    pub mem : Memᴰ by entries
    pub of_key : by.key ≡ key
    pub below : c ⊑ clock_of by.item

  versions_of-insert :
      (k key : Str) (items : List (DataItem V)) (m : GoMap (List (DataItem V)))
      → versions_of key (insert k items m) ≡ (if str_eq k key then items else versions_of key m)
  unfolding versions_of
  versions_of-insert k key items m = ground (arith, lookup-insert k key items m)

  one_item : (item : DataItem V) (c : Snapshot) → CoveredBy (item ∷ []) c → c ⊑ clock_of item
  one_item item c w =
      subst (λ (x : DataItem V). c ⊑ clock_of x) (List.Memᴰ.eq_of_singleton w.mem) w.below

  -- One entry merged in.
  merged-one :
      (e : Entry V) (key : Str) (m : GoMap (List (DataItem V))) (c : Snapshot)
      → CoveredBy
          (versions_of key (insert e.key (merge_siblings (versions_of e.key m) (e.item ∷ [])) m))
          c
        ↔ (CoveredBy (versions_of key m) c ⊎ ((e.key ≡ key) × (c ⊑ clock_of e.item)))
  merged-one e key m c = elim (Bool-cases (str_eq e.key key)) [
    | inr ne ↦
        rw (versions_of-insert e.key key (merge_siblings (versions_of e.key m) (e.item ∷ [])) m) (
          rw ne (
            inl,
            λ s. elim s [ inl w ↦ w | inr q ↦ absurd (ground (arith, str_eq_iff e.key key)) ],
          ))
    | inl same ↦
        let one : e.key ≡ key = (str_eq_iff e.key key).0 same in
        rw (versions_of-insert e.key key (merge_siblings (versions_of e.key m) (e.item ∷ [])) m) (
          rw same (
            λ w. elim ((merge_siblings-CoveredBy (versions_of e.key m) (e.item ∷ []) c).0 w) [
              | inl v ↦ inl (subst (λ k. CoveredBy (versions_of k m) c) one v)
              | inr v ↦ inr (one, one_item e.item c v)
            ],
            λ s. (merge_siblings-CoveredBy (versions_of e.key m) (e.item ∷ []) c).1 (elim s [
              | inl w ↦ inl (subst (λ k. CoveredBy (versions_of k m) c) (sym one) w)
              | inr q ↦ inr (record { by = e.item; mem = Memᴰ.head refl; below = q.1 })
            ]),
          ))
  ]

  -- Merging entries into what was merged before covers, for every key, exactly what was covered
  -- before and what the entries of the key cover.
  pub merge_entries-EnteredBy :
      (entries : List (Entry V)) (key : Str) (m : GoMap (List (DataItem V))) (c : Snapshot)
      → CoveredBy (versions_of key (merge_entries entries m)) c
        ↔ (CoveredBy (versions_of key m) c ⊎ EnteredBy entries key c)
  unfolding merge_entries
  merge_entries-EnteredBy [] key m c = (inl, λ s. elim s [ inl w ↦ w | inr w ↦ elim w.mem [ ] ])
  merge_entries-EnteredBy (e ∷ entries) key m c =
      let m1 = insert e.key (merge_siblings (versions_of e.key m) (e.item ∷ [])) m in
      let rest = merge_entries-EnteredBy entries key m1 c in
      let one = merged-one e key m c in
      (
        λ w. elim (rest.0 w) [
          | inl v ↦ elim (one.0 v) [
            | inl u ↦ inl u
            | inr q ↦ inr (record { by = e; mem = Memᴰ.head refl; of_key = q.0; below = q.1 })
          ]
          | inr v ↦
              inr (record { by = v.by; mem = Memᴰ.tail v.mem; of_key = v.of_key; below = v.below })
        ],
        λ s. rest.1 (elim s [
          | inl w ↦ inl (one.1 (inl w))
          | inr w ↦ elim (List.Memᴰ.cases_cons w.mem) [
            | inl f ↦ inl (
                one.1 (
                  inr (
                    subst (λ (x : Entry V). (x.key ≡ key) × (c ⊑ clock_of x.item)) f
                      (w.of_key, w.below))))
            | inr k ↦ inr (record { by = w.by; mem = k; of_key = w.of_key; below = w.below })
          ]
        ]),
      )

  pub EnteredBy-append :
      (xs ys : List (Entry V)) (key : Str) (c : Snapshot)
      → EnteredBy (xs ++ ys) key c ↔ (EnteredBy xs key c ⊎ EnteredBy ys key c)
  EnteredBy-append xs ys key c = (
    λ w. elim (List.Memᴰ.append_cases xs w.mem) [
      | inl k ↦ inl (record { by = w.by; mem = k; of_key = w.of_key; below = w.below })
      | inr k ↦ inr (record { by = w.by; mem = k; of_key = w.of_key; below = w.below })
    ],
    λ s. elim s [
      | inl w ↦ record {
        by = w.by;
        mem = List.Memᴰ.append_left ys w.mem;
        of_key = w.of_key;
        below = w.below;
      }
      | inr w ↦ record {
        by = w.by;
        mem = List.Memᴰ.append_right xs w.mem;
        of_key = w.of_key;
        below = w.below;
      }
    ],
  )

  pub flatten_key-EnteredBy :
      (k : Str) (items : List (DataItem V)) (key : Str) (c : Snapshot)
      → EnteredBy (flatten_key k items) key c ↔ ((k ≡ key) × CoveredBy items c)
  unfolding flatten_key
  flatten_key-EnteredBy k [] key c = (λ w. elim w.mem [ ], λ q. elim q.1.mem [ ])
  flatten_key-EnteredBy k (item ∷ items) key c = (
    λ w. elim (List.Memᴰ.cases_cons w.mem) [
      | inl e ↦ (
        ap (λ (x : Entry V). x.key) (sym e) ∙ w.of_key,
        record {
          by = item;
          mem = Memᴰ.head refl;
          below = subst (λ (x : Entry V). c ⊑ clock_of x.item) e w.below;
        },
      )
      | inr m ↦
          let (same, v) =
            (flatten_key-EnteredBy k items key c).0
              (record { by = w.by; mem = m; of_key = w.of_key; below = w.below }) in
          (same, record { by = v.by; mem = Memᴰ.tail v.mem; below = v.below })
    ],
    λ (same, v). elim (List.Memᴰ.cases_cons v.mem) [
      | inl e ↦ record {
        by = record { key = k; item = item };
        mem = Memᴰ.head refl;
        of_key = same;
        below = subst (λ (x : DataItem V). c ⊑ clock_of x) e v.below;
      }
      | inr m ↦
          let w =
            (flatten_key-EnteredBy k items key c).1
              (same, record { by = v.by; mem = m; below = v.below }) in
          record { by = w.by; mem = Memᴰ.tail w.mem; of_key = w.of_key; below = w.below }
    ],
  )

  flatten-EnteredBy :
      (ks : List Str) (m : GoMap (List (DataItem V))) (key : Str) (c : Snapshot)
      → EnteredBy (flatten ks m) key c ↔ (Memᴰ key ks × CoveredBy (versions_of key m) c)
  unfolding flatten
  flatten-EnteredBy [] m key c = (λ w. elim w.mem [ ], λ q. elim q.0 [ ])
  flatten-EnteredBy (k ∷ ks) m key c =
      let parts = EnteredBy-append (flatten_key k (versions_of k m)) (flatten ks m) key c in
      let first = flatten_key-EnteredBy k (versions_of k m) key c in
      let rest = flatten-EnteredBy ks m key c in
      (
        λ w. elim (parts.0 w) [
          | inl v ↦
              let (same, u) = first.0 v in
              (Memᴰ.head (sym same), subst (λ j. CoveredBy (versions_of j m) c) same u)
          | inr v ↦ let (n, u) = rest.0 v in (Memᴰ.tail n, u)
        ],
        λ (n, u). parts.1 (elim (List.Memᴰ.cases_cons n) [
          | inl e ↦ inl (first.1 (sym e, subst (λ j. CoveredBy (versions_of j m) c) e u))
          | inr l ↦ inr (rest.1 (l, u))
        ]),
      )

  covered-key :
      (key : Str) (m : GoMap (List (DataItem V))) (c : Snapshot)
      → CoveredBy (versions_of key m) c
      → Memᴰ key (keys m)
  unfolding versions_of
  covered-key key m c w = elim (Option-cases (lookup key m)) [
    | inl gone ↦
        elim (subst
          (λ (o : Option (List (DataItem V))).
            Memᴰ w.by (elim o [ none ↦ [] | some items ↦ items ]))
          gone w.mem) [ ]
    | inr (items, e) ↦ keys-mem m key items e
  ]

  -- Every entry of every source, in order.
  unfoldable pub read_all :
      {A E : Type 0} → (A → Result E (List (Entry V))) → List A → Result E (List (Entry V))
  read_all read [] = ok []
  read_all read (src ∷ sources) = do
    entries ← read src
    rest ← read_all read sources
    ok (entries ++ rest)

  merge_entries-append :
      (xs ys : List (Entry V)) (m : GoMap (List (DataItem V)))
      → merge_entries (xs ++ ys) m ≡ merge_entries ys (merge_entries xs m)
  unfolding merge_entries
  merge_entries-append [] ys m = refl
  merge_entries-append (e ∷ xs) ys m =
      merge_entries-append xs ys
        (insert e.key (merge_siblings (versions_of e.key m) (e.item ∷ [])) m)

  merge_sources_lem :
      {A E : Type 0} (read : A → Result E (List (Entry V))) (sources : List A)
      (m m' : GoMap (List (DataItem V)))
      → merge_sources read sources m ≡ ok m'
      → (entries : List (Entry V)) × (read_all read sources ≡ ok entries)
        × (m' ≡ merge_entries entries m)
  unfolding merge_sources read_all merge_entries
  merge_sources_lem read [] m m' h = ([], refl, ground arith)
  merge_sources_lem read (src ∷ sources) m m' h = elim (Result-cases (read src)) [
    | inr (e, k) ↦ absurd (ground arith)
    | inl (entries, k) ↦
        let (rest, l, same) =
          merge_sources_lem read sources (merge_entries entries m) m' (ground arith) in
        (entries ++ rest, rw k (rw l refl), same ∙ sym (merge_entries-append entries rest m))
  ]

  -- A merge that succeeds has read every source, and for every key its result covers a clock
  -- exactly when an entry of the key in some source does.
  pub merge-EnteredBy :
      {A E : Type 0} (read : A → Result E (List (Entry V))) (sources : List A)
      (merged : List (Entry V))
      → merge read sources ≡ ok merged
      → (entries : List (Entry V)) × (read_all read sources ≡ ok entries)
        × ((key : Str) (c : Snapshot) → EnteredBy merged key c ↔ EnteredBy entries key c)
  unfolding merge versions_of lookup
  merge-EnteredBy read sources merged h = elim (Result-cases (merge_sources read sources [])) [
    | inr (e, k) ↦ absurd (ground arith)
    | inl (m, k) ↦
        let (entries, whole, same) = merge_sources_lem read sources [] m k in
        let flat : flatten (sorted (keys m)) m ≡ merged = ground arith in
        (
          entries,
          whole,
          λ key c.
              let out = flatten-EnteredBy (sorted (keys m)) m key c in
              let held = merge_entries-EnteredBy entries key [] c in
              (
                λ w.
                    let (_, v) = out.0 (subst (λ l. EnteredBy l key c) (sym flat) w) in
                    elim (held.0 (subst (λ n. CoveredBy (versions_of key n) c) same v)) [
                      | inl u ↦ elim u.mem [ ]
                      | inr u ↦ u
                    ],
                λ w.
                    let v =
                      subst (λ n. CoveredBy (versions_of key n) c) (sym same) (held.1 (inr w)) in
                    subst (λ l. EnteredBy l key c) flat
                      (out.1 ((sorted-mem key (keys m)).1 (covered-key key m c v), v)),
              ),
        )
  ]
