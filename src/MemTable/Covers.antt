-- ===== src/MemTable/Covers.antt =====
-- Which history a memtable knows for each key, after each operation.
use distributed_kv_data_stor.Prelude.{
  iff_trans, ℕ, Str, str_eq, str_eq_iff, str_eq_refl, ◌≡◌, ◌≢◌, refl, sym, subst, ◌∙◌, Bool, false,
  Option, none, some, List, [], ◌∷◌, ◌++◌, if◌then◌else◌, arith, Bool-cases, Option-cases, inl, inr,
  ◌⊎◌, ◌↔◌, Memᴰ,
}
use mathlib.Core.List
use distributed_kv_data_stor.VectorClock.{Snapshot}
use distributed_kv_data_stor.VectorClock.Order.{◌⊑◌}
use distributed_kv_data_stor.GoMap.{GoMap, lookup, insert, lookup-insert}
use distributed_kv_data_stor.Model.{DataItem}
use distributed_kv_data_stor.Versioning.{resolve, merge_siblings}
use distributed_kv_data_stor.Versioning.Cover.{
  clock_of, CoveredBy, resolve-CoveredBy, merge_siblings-CoveredBy,
}
use distributed_kv_data_stor.Compaction.{Entry, versions_of}
use distributed_kv_data_stor.Compaction.Merging.{EnteredBy}
use distributed_kv_data_stor.MemTable.{
  Btree, MemTable, newest_first, note_key, group_older, new, current, replace_set, put,
  put_back_keys, put_back_older, replace, snapshot,
}
use distributed_kv_data_stor.MemTable.Laws.{
  IsBtree, IsPointerTest, newest_first-CoveredBy, entries_of-EnteredBy, versions_of-insert,
  covers-append,
}

module _ {V : Type 0} (B : Btree (List (DataItem V))) (tree : IsBtree B) (marshal : V → Option Str)
    (same : DataItem V → DataItem V → Bool) where
  pub current-replace_set :
      (k key : Str) (old items : List (DataItem V)) (m : MemTable B.Tree)
      → current B marshal same key (replace_set B marshal same k old items m)
        ≡ (if str_eq k key then items else current B marshal same key m)
  unfolding current replace_set
  current-replace_set k key old items m = elim (Bool-cases (str_eq k key)) [
    | inl e ↦ rw (tree.get_put k key items m.tree, current, replace_set) (rw e refl)
    | inr e ↦ rw (tree.get_put k key items m.tree, current, replace_set) (rw e refl)
  ]

  pub current-replace :
      (k key : Str) (items : List (DataItem V)) (m : MemTable B.Tree)
      → current B marshal same key (replace B marshal same k items m)
        ≡ (if str_eq k key then items else current B marshal same key m)
  unfolding replace current
  current-replace k key [] m = elim (Bool-cases (str_eq k key)) [
    | inl e ↦ rw (tree.get_delete k key m.tree, current, replace) (rw e refl)
    | inr e ↦ rw (tree.get_delete k key m.tree, current, replace) (rw e refl)
  ]
  current-replace k key (item ∷ items) m =
      current-replace_set k key (current B marshal same k m) (item ∷ items) m

  pub current-new : (key : Str) (n : ℕ) → current B marshal same key (new B marshal same n) ≡ []
  unfolding current new
  current-new key n = rw (tree.get_empty key, current) refl

  -- A set merged behind the table's own.
  merged_back-CoveredBy :
      (k key : Str) (items : List (DataItem V)) (m : MemTable B.Tree) (c : Snapshot)
      → CoveredBy
          (current B marshal same key (
            replace_set B marshal same k
              (current B marshal same k m)
              (merge_siblings (current B marshal same k m) items)
              m))
          c
        ↔ (CoveredBy (current B marshal same key m) c ⊎ ((k ≡ key) × CoveredBy items c))
  merged_back-CoveredBy k key items m c =
      rw
        (current-replace_set k key (current B marshal same k m)
          (merge_siblings (current B marshal same k m) items) m)
        (elim (Bool-cases (str_eq k key)) [
          | inr e ↦
              rw e
                (inl, λ s. elim s [ inl w ↦ w | inr q ↦ absurd (ground (arith, str_eq_iff k key)) ])
          | inl e ↦
              let one : k ≡ key = (str_eq_iff k key).0 e in
              rw e (
                λ w. elim ((merge_siblings-CoveredBy (current B marshal same k m) items c).0 w) [
                  | inl v ↦ inl (subst (λ j. CoveredBy (current B marshal same j m) c) one v)
                  | inr v ↦ inr (one, v)
                ],
                λ s. (merge_siblings-CoveredBy (current B marshal same k m) items c).1 (elim s [
                  | inl w ↦ inl (subst (λ j. CoveredBy (current B marshal same j m) c) (sym one) w)
                  | inr q ↦ inr q.1
                ]),
              )
        ])

  put_back_keys-CoveredBy :
      (older : GoMap (List (DataItem V))) (ks : List Str) (key : Str) (m : MemTable B.Tree)
      (c : Snapshot)
      → CoveredBy (current B marshal same key (put_back_keys B marshal same older ks m)) c ↔ (
          CoveredBy (current B marshal same key m) c
          ⊎ (Memᴰ key ks × CoveredBy (versions_of key older) c))
  unfolding put_back_keys
  put_back_keys-CoveredBy older [] key m c = (inl, λ s. elim s [ inl w ↦ w | inr q ↦ elim q.0 [ ] ])
  put_back_keys-CoveredBy older (k ∷ ks) key m c =
      let merged = merge_siblings (current B marshal same k m) (versions_of k older) in
      let rest =
        put_back_keys-CoveredBy older ks key
          (replace_set B marshal same k (current B marshal same k m) merged m) c in
      let one = merged_back-CoveredBy k key (versions_of k older) m c in
      (
        λ w. elim (rest.0 w) [
          | inl v ↦ elim (one.0 v) [
            | inl u ↦ inl u
            | inr (at, u) ↦
                inr (Memᴰ.head (sym at), subst (λ j. CoveredBy (versions_of j older) c) at u)
          ]
          | inr (n, u) ↦ inr (Memᴰ.tail n, u)
        ],
        λ s. rest.1 (elim s [
          | inl w ↦ inl (one.1 (inl w))
          | inr (n, u) ↦ elim (List.Memᴰ.cases_cons n) [
            | inl e ↦ inl (one.1 (inr (sym e, subst (λ j. CoveredBy (versions_of j older) c) e u)))
            | inr n' ↦ inr (n', u)
          ]
        ]),
      )

  -- A Put merges the item into the set of its key.
  pub put-CoveredBy :
      IsPointerTest same
      → (key : Str) (item : DataItem V) (m : MemTable B.Tree) (c : Snapshot)
      → CoveredBy (current B marshal same key (put B marshal same key item m).1) c
        ↔ (CoveredBy (current B marshal same key m) c ⊎ (c ⊑ clock_of item))
  unfolding put
  put-CoveredBy pointers key item m c =
      let items = newest_first same item (resolve (current B marshal same key m) item) in
      rw (current-replace_set key key (current B marshal same key m) items m) (
        rw (str_eq_refl key) (
          iff_trans
            (newest_first-CoveredBy same pointers item (resolve (current B marshal same key m) item)
              c)
            (resolve-CoveredBy (current B marshal same key m) item c)))

  -- What the table holds of the key after a Put.
  pub current-put :
      (key : Str) (item : DataItem V) (m : MemTable B.Tree)
      → current B marshal same key (put B marshal same key item m).1
        ≡ newest_first same item (resolve (current B marshal same key m) item)
  unfolding put
  current-put key item m =
      let old = current B marshal same key m in
      current-replace_set key key old (newest_first same item (resolve old item)) m
      ∙ rw (str_eq_refl key) refl

  pub put-elsewhere :
      (key other : Str) (item : DataItem V) (m : MemTable B.Tree)
      → key ≢ other
      → current B marshal same other (put B marshal same key item m).1
        ≡ current B marshal same other m
  unfolding put
  put-elsewhere key other item m ne =
      let apart : str_eq key other ≡ false = ground (arith, str_eq_iff key other) in
      let items = newest_first same item (resolve (current B marshal same key m) item) in
      current-replace_set key other (current B marshal same key m) items m ∙ rw apart refl

-- Every key that older has is among the keys.
abbrev Listed : {V : Type 0} → List Str → GoMap (List (DataItem V)) → Type 0
Listed ks older =
    (key : Str) (items : List (DataItem _)) → lookup key older ≡ some items → Memᴰ key ks

module _ {V : Type 0} where
  note_key-Listed :
      (key : Str) (items : List (DataItem V)) (ks : List Str) (older : GoMap (List (DataItem V)))
      → Listed ks older
      → Listed (note_key key ks older) (insert key items older)
  unfolding note_key
  note_key-Listed key items ks older h k found e = elim (Option-cases (lookup key older)) [
    | inl gone ↦
        rw (gone, note_key)
          (elim (Bool-cases (str_eq key k)) [
            | inl same ↦ List.Memᴰ.append_right ks (Memᴰ.head (sym ((str_eq_iff key k).0 same)))
            | inr apart ↦
                List.Memᴰ.append_left (key ∷ [])
                  (h k found (ground (arith, lookup-insert key k items older)))
          ])
    | inr (old, there) ↦
        rw (there, note_key)
          (elim (Bool-cases (str_eq key k)) [
            | inl same ↦ subst (λ t. Memᴰ t ks) ((str_eq_iff key k).0 same) (h key old there)
            | inr apart ↦ h k found (ground (arith, lookup-insert key k items older))
          ])
  ]

  covered-Listed :
      (ks : List Str) (older : GoMap (List (DataItem V))) (key : Str) (c : Snapshot)
      → Listed ks older
      → CoveredBy (versions_of key older) c
      → Memᴰ key ks
  unfolding versions_of
  covered-Listed ks older key c h w = elim (Option-cases (lookup key older)) [
    | inl gone ↦
        elim (subst
          (λ (o : Option (List (DataItem V))).
            Memᴰ w.by (elim o [ none ↦ [] | some items ↦ items ]))
          gone w.mem) [ ]
    | inr (items, e) ↦ h key items e
  ]

  pub EnteredBy-cons :
      (e : Entry V) (entries : List (Entry V)) (key : Str) (c : Snapshot)
      → EnteredBy (e ∷ entries) key c
        ↔ (((e.key ≡ key) × (c ⊑ clock_of e.item)) ⊎ EnteredBy entries key c)
  EnteredBy-cons e entries key c = (
    λ w. elim (List.Memᴰ.cases_cons w.mem) [
      | inl f ↦
          inl (subst (λ (x : Entry V). (x.key ≡ key) × (c ⊑ clock_of x.item)) f (w.of_key, w.below))
      | inr k ↦ inr (record { by = w.by; mem = k; of_key = w.of_key; below = w.below })
    ],
    λ s. elim s [
      | inl q ↦ record { by = e; mem = Memᴰ.head refl; of_key = q.0; below = q.1 }
      | inr w ↦ record { by = w.by; mem = Memᴰ.tail w.mem; of_key = w.of_key; below = w.below }
    ],
  )

  -- One entry grouped.
  grouped-one :
      (e : Entry V) (key : Str) (older : GoMap (List (DataItem V))) (c : Snapshot)
      → CoveredBy (versions_of key (insert e.key (versions_of e.key older ++ e.item ∷ []) older)) c
        ↔ (CoveredBy (versions_of key older) c ⊎ ((e.key ≡ key) × (c ⊑ clock_of e.item)))
  grouped-one e key older c =
      rw (versions_of-insert e.key key (versions_of e.key older ++ e.item ∷ []) older)
        (elim (Bool-cases (str_eq e.key key)) [
          | inr ne ↦ rw ne (
            inl,
            λ s. elim s [ inl w ↦ w | inr q ↦ absurd (ground (arith, str_eq_iff e.key key)) ],
          )
          | inl at ↦
              let one : e.key ≡ key = (str_eq_iff e.key key).0 at in
              let parts = covers-append (versions_of e.key older) (e.item ∷ []) c in
              rw at (
                λ w. elim (parts.0 w) [
                  | inl v ↦ inl (subst (λ j. CoveredBy (versions_of j older) c) one v)
                  | inr v ↦ inr (
                    one,
                    subst (λ (x : DataItem V). c ⊑ clock_of x) (List.Memᴰ.eq_of_singleton v.mem)
                        v.below,
                  )
                ],
                λ s. parts.1 (elim s [
                  | inl w ↦ inl (subst (λ j. CoveredBy (versions_of j older) c) (sym one) w)
                  | inr q ↦ inr (record { by = e.item; mem = Memᴰ.head refl; below = q.1 })
                ]),
              )
        ])

  -- What PutBackOlder groups: the entries of each key, with their keys.
  record Grouped (entries : List (Entry V)) (ks : List Str)
      (before after : GoMap (List (DataItem V))) : Type 0 where
    listed : Listed ks after
    covers :
        (key : Str) (c : Snapshot)
        → CoveredBy (versions_of key after) c
          ↔ (CoveredBy (versions_of key before) c ⊎ EnteredBy entries key c)

  group_older-Grouped :
      (entries : List (Entry V)) (ks : List Str) (older : GoMap (List (DataItem V)))
      → Listed ks older
      → Grouped entries (group_older entries ks older).0 older (group_older entries ks older).1
  unfolding group_older
  group_older-Grouped [] ks older h = record {
    listed = h;
    covers = λ key c. (inl, λ s. elim s [ inl w ↦ w | inr w ↦ elim w.mem [ ] ]);
  }
  group_older-Grouped (e ∷ entries) ks older h =
      let items = versions_of e.key older ++ e.item ∷ [] in
      let rest =
        group_older-Grouped entries (note_key e.key ks older) (insert e.key items older)
          (note_key-Listed e.key items ks older h) in
      record {
        listed = rest.listed;
        covers = λ key c.
            let one = grouped-one e key older c in
            let cons = EnteredBy-cons e entries key c in
            (
              λ w. elim ((rest.covers key c).0 w) [
                | inl v ↦ elim (one.0 v) [ inl u ↦ inl u | inr q ↦ inr (cons.1 (inl q)) ]
                | inr v ↦ inr (cons.1 (inr v))
              ],
              λ s. (rest.covers key c).1 (elim s [
                | inl w ↦ inl (one.1 (inl w))
                | inr w ↦ elim (cons.0 w) [ inl q ↦ inl (one.1 (inr q)) | inr v ↦ inr v ]
              ]),
            );
      }

module _ {V : Type 0} (B : Btree (List (DataItem V))) (tree : IsBtree B) (marshal : V → Option Str)
    (same : DataItem V → DataItem V → Bool) where
  -- Entries put back add their history, and no other.
  pub put_back_older-CoveredBy :
      (entries : List (Entry V)) (key : Str) (m : MemTable B.Tree) (c : Snapshot)
      → CoveredBy (current B marshal same key (put_back_older B marshal same entries m)) c
        ↔ (CoveredBy (current B marshal same key m) c ⊎ EnteredBy entries key c)
  unfolding put_back_older versions_of lookup
  put_back_older-CoveredBy entries key m c =
      let groups = group_older-Grouped entries [] [] (λ key items e. absurd (ground (arith, e))) in
      let (ks, older) = group_older entries [] [] in
      let back = put_back_keys-CoveredBy B tree marshal same older ks key m c in
      (
        λ w. elim (back.0 w) [
          | inl v ↦ inl v
          | inr (n, v) ↦ elim ((groups.covers key c).0 v) [ inl u ↦ elim u.mem [ ] | inr u ↦ inr u ]
        ],
        λ s. back.1 (elim s [
          | inl w ↦ inl w
          | inr w ↦
              let v : CoveredBy (versions_of key older) c = (groups.covers key c).1 (inr w) in
              inr (covered-Listed ks older key c groups.listed v, v)
        ]),
      )

  -- The snapshot has the history of the table.
  pub snapshot-EnteredBy :
      (m : MemTable B.Tree) (key : Str) (c : Snapshot)
      → EnteredBy (snapshot B marshal same m) key c ↔ CoveredBy (current B marshal same key m) c
  unfolding snapshot current
  snapshot-EnteredBy m key c =
      let visited = entries_of-EnteredBy (B.ascend m.tree) key c in
      (
        λ w.
            let (items, n, v) = visited.0 w in
            rw ((tree.ascend_get key items m.tree).0 n, current) v,
        λ w. elim (Option-cases (B.get key m.tree)) [
          | inl gone ↦
              elim (subst
                (λ (o : Option (List (DataItem V))).
                  Memᴰ w.by (elim o [ none ↦ [] | some items ↦ items ]))
                gone w.mem) [ ]
          | inr (items, e) ↦ visited.1 (
            items,
            (tree.ascend_get key items m.tree).1 e,
            subst
                (λ (o : Option (List (DataItem V))).
                  CoveredBy (elim o [ none ↦ [] | some items ↦ items ]) c)
                e w,
          )
        ],
      )
