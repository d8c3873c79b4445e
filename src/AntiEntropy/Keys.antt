-- ===== src/AntiEntropy/Keys.antt =====
-- After a key is reconciled both nodes know the same of it.
use distributed_kv_data_stor.Prelude.{
  iff_trans, or_comm, Str, ◌≡◌, refl, sym, ap, subst, ◌∙◌, Bool, true, none, List, [], ◌∷◌, ok,
  arith, Bool-cases, Option-cases, inl, inr, ◌⊎◌, ◌↔◌, Memᴰ,
}
use mathlib.Core.Option.{some-ne-none}
use mathlib.Core.List
use mathlib.Core.List.{reverse}
use distributed_kv_data_stor.DataStore.Writes.{reverse-mem}
use distributed_kv_data_stor.VectorClock.{Relation, equal, before, after, concurrent, Snapshot}
use distributed_kv_data_stor.VectorClock.Order.{◌⊑◌}
use distributed_kv_data_stor.VectorClock.Laws.{⊑_trans, compare-Causal}
use distributed_kv_data_stor.Model.{DataItem, order}
use distributed_kv_data_stor.Versioning.Cover.{clock_of, CoveredBy, covering-⊑}
use distributed_kv_data_stor.Versioning.Shape.{covering}
use distributed_kv_data_stor.Persister.{Persister, Found}
use distributed_kv_data_stor.Persister.Contract.{IsMergingStore}
use distributed_kv_data_stor.DataStore.{DataStore, get, merge_replicated}
use distributed_kv_data_stor.AntiEntropy.{
  is_covering, is_covered, missing_from, Delivery, delivered, lost, unanswered, push_failed, Sides,
  merge_all, push, push_missing, exchange, reconcile_key,
}

-- Reads of the storage do not fail.
abbrev pub IsReadable : {V : Type 0} → Persister V → Type 0
IsReadable p = (key : Str) (s : p.State) → (r : Found _) × (p.get_all key s ≡ ok r)

is_covering-covering : (r : Relation) → is_covering r ≡ covering r
unfolding is_covering
is_covering-covering equal = refl
is_covering-covering before = refl
is_covering-covering after = refl
is_covering-covering concurrent = refl

module _ {V : Type 0} where
  covered-below :
      (set : List (DataItem V)) (item : DataItem V) (c : Snapshot)
      → is_covered set item ≡ true
      → c ⊑ clock_of item
      → CoveredBy set c
  unfolding is_covered is_covering
  covered-below [] item c h b = absurd (ground arith)
  covered-below (have ∷ set) item c h b = elim (Bool-cases (is_covering (order have item))) [
    | inl e ↦
        let newer : covering (order have item) ≡ true =
          sym (is_covering-covering (order have item)) ∙ e in
        record {
          by = have;
          mem = Memᴰ.head refl;
          below =
              ⊑_trans c (clock_of item) (clock_of have) b
                (covering-⊑ (compare-Causal have.vector_clock item.vector_clock) newer);
        }
    | inr e ↦
        let w = covered-below set item c (ground (arith, e)) b in
        record { by = w.by; mem = Memᴰ.tail w.mem; below = w.below }
  ]

  -- The versions that are missing are those of incoming that bring something new.
  pub missing_from-CoveredBy :
      (set incoming : List (DataItem V)) (c : Snapshot)
      → (CoveredBy set c ⊎ CoveredBy (missing_from set incoming) c)
        ↔ (CoveredBy set c ⊎ CoveredBy incoming c)
  unfolding missing_from
  missing_from-CoveredBy set [] c = ((λ w. w), (λ w. w))
  missing_from-CoveredBy set (item ∷ incoming) c =
      let rest = missing_from-CoveredBy set incoming c in
      elim (Bool-cases (is_covered set item)) [
        | inl e ↦ rw e (
          λ w. elim (rest.0 w) [
            | inl u ↦ inl u
            | inr u ↦ inr (record { by = u.by; mem = Memᴰ.tail u.mem; below = u.below })
          ],
          λ w. elim w [
            | inl u ↦ inl u
            | inr u ↦ elim (List.Memᴰ.cases_cons u.mem) [
              | inl f ↦ inl (
                  covered-below set item c e (subst (λ (x : DataItem V). c ⊑ clock_of x) f u.below))
              | inr m ↦ rest.1 (inr (record { by = u.by; mem = m; below = u.below }))
            ]
          ],
        )
        | inr e ↦ rw e (
          λ w. elim w [
            | inl u ↦ inl u
            | inr u ↦ elim (List.Memᴰ.cases_cons u.mem) [
              | inl f ↦ inr (record {
                by = item;
                mem = Memᴰ.head refl;
                below = subst (λ (x : DataItem V). c ⊑ clock_of x) f u.below;
              })
              | inr m ↦ elim (rest.0 (inr (record { by = u.by; mem = m; below = u.below }))) [
                | inl z ↦ inl z
                | inr z ↦ inr (record { by = z.by; mem = Memᴰ.tail z.mem; below = z.below })
              ]
            ]
          ],
          λ w. elim w [
            | inl u ↦ inl u
            | inr u ↦ elim (List.Memᴰ.cases_cons u.mem) [
              | inl f ↦ inr (record {
                by = item;
                mem = Memᴰ.head refl;
                below = subst (λ (x : DataItem V). c ⊑ clock_of x) f u.below;
              })
              | inr m ↦ elim (rest.1 (inr (record { by = u.by; mem = m; below = u.below }))) [
                | inl z ↦ inl z
                | inr z ↦ inr (record { by = z.by; mem = Memᴰ.tail z.mem; below = z.below })
              ]
            ]
          ],
        )
      ]

module _ {V : Type 0} (p : Persister V) (store : IsMergingStore p) (readable : IsReadable p) where
  -- What the storage covers for a key.
  abbrev pub StoreCovers : Str → DataStore p → Snapshot → Type 0
  StoreCovers key ds c = CoveredBy ((readable key ds.state).0).items c

  merge_all-StoreCovers :
      (key : Str) (items : List (DataItem V)) (ds ds' : DataStore p) (c : Snapshot)
      → merge_all p key items ds ≡ (none, ds')
      → StoreCovers key ds' c ↔ (StoreCovers key ds c ⊎ CoveredBy items c)
  unfolding merge_all merge_replicated
  merge_all-StoreCovers key [] ds ds' c h =
      subst (λ d. StoreCovers key d c ↔ (StoreCovers key ds c ⊎ CoveredBy {V = V} [] c))
        (ap (λ t. t.1) h) (inl, λ s. elim s [ inl w ↦ w | inr w ↦ elim w.mem [ ] ])
  merge_all-StoreCovers key (item ∷ items) ds ds' c h =
      elim (Option-cases (p.put key item ds.state).0) [
        | inr (x, k) ↦ absurd (ground (arith, k))
        | inl k ↦
            let ds1 : DataStore p = record ds { state = (p.put key item ds.state).1 } in
            let rest = merge_all-StoreCovers key items ds1 ds' c (ground (arith, k)) in
            let one =
              store.put_merges key item ds.state ds1.state (readable key ds.state).0
                (readable key ds1.state).0 (ap (λ e. (e, ds1.state)) k) (readable key ds.state).1
                (readable key ds1.state).1 c in
            (
              λ w. elim (rest.0 w) [
                | inl u ↦ elim (one.0 u) [
                  | inl z ↦ inl z
                  | inr b ↦ inr (record { by = item; mem = Memᴰ.head refl; below = b })
                ]
                | inr u ↦ inr (record { by = u.by; mem = Memᴰ.tail u.mem; below = u.below })
              ],
              λ w. rest.1 (elim w [
                | inl u ↦ inl (one.1 (inl u))
                | inr u ↦ elim (List.Memᴰ.cases_cons u.mem) [
                  | inl f ↦ inl (one.1 (inr (subst (λ (x : DataItem V). c ⊑ clock_of x) f u.below)))
                  | inr m ↦ inr (record { by = u.by; mem = m; below = u.below })
                ]
              ]),
            )
      ]

module _ {A : Type 0} where
  mem-reverse_aux :
      (xs acc : List A) {x : A} → Memᴰ x (List.reverse_aux xs acc) → Memᴰ x xs ⊎ Memᴰ x acc
  mem-reverse_aux [] acc m = inr m
  mem-reverse_aux (y ∷ ys) acc m = elim (mem-reverse_aux ys (y ∷ acc) m) [
    | inl k ↦ inl (Memᴰ.tail k)
    | inr k ↦ elim (List.Memᴰ.cases_cons k) [ inl e ↦ inl (Memᴰ.head e) | inr l ↦ inr l ]
  ]

  mem-reverse : (xs : List A) {x : A} → Memᴰ x (reverse xs) → Memᴰ x xs
  mem-reverse xs m = elim (mem-reverse_aux xs [] m) [ inl k ↦ k | inr k ↦ elim k [ ] ]

reversed-CoveredBy :
    {V : Type 0} (items : List (DataItem V)) (c : Snapshot)
    → CoveredBy (reverse items) c ↔ CoveredBy items c
reversed-CoveredBy items c = (
  λ w. record { by = w.by; mem = mem-reverse items w.mem; below = w.below },
  λ w. record { by = w.by; mem = reverse-mem items w.mem; below = w.below },
)

-- One side with what it lacked of the other.
exchanged :
    {V : Type 0} (mine theirs : List (DataItem V)) (c : Snapshot)
    → (CoveredBy mine c ⊎ CoveredBy (missing_from (reverse mine) (reverse theirs)) c)
      ↔ (CoveredBy mine c ⊎ CoveredBy theirs c)
exchanged mine theirs c =
    let some_missing = missing_from-CoveredBy (reverse mine) (reverse theirs) c in
    let a = reversed-CoveredBy mine c in
    let b = reversed-CoveredBy theirs c in
    (
      λ w. elim (some_missing.0 (elim w [ inl u ↦ inl (a.1 u) | inr u ↦ inr u ])) [
        | inl u ↦ inl (a.0 u)
        | inr u ↦ inr (b.0 u)
      ],
      λ w. elim (some_missing.1 (elim w [ inl u ↦ inl (a.1 u) | inr u ↦ inr (b.1 u) ])) [
        | inl u ↦ inl (a.0 u)
        | inr u ↦ inr u
      ],
    )

module _ {V : Type 0} (p q : Persister V) (store : IsMergingStore p) (other : IsMergingStore q)
    (readable : IsReadable p) (other_readable : IsReadable q) where
  -- After a reconciliation both sides cover what either covered before.
  pub record Converged (key : Str) (from to : Sides p q) : Type 0 where
    pub here :
        (c : Snapshot)
        → StoreCovers p store readable key to.local c ↔ (
            StoreCovers p store readable key from.local c
            ⊎ StoreCovers q other other_readable key from.remote c)
    pub there :
        (c : Snapshot)
        → StoreCovers q other other_readable key to.remote c ↔ (
            StoreCovers p store readable key from.local c
            ⊎ StoreCovers q other other_readable key from.remote c)

  push_missing-StoreCovers :
      (fate : Delivery) (key : Str) (items : List (DataItem V)) (sides to : Sides p q)
      (c : Snapshot)
      → push_missing p q fate key items sides ≡ record { error = none; sides = to }
      → (to.local ≡ sides.local)
        × (StoreCovers q other other_readable key to.remote c
            ↔ (StoreCovers q other other_readable key sides.remote c ⊎ CoveredBy items c))
  unfolding push_missing push
  push_missing-StoreCovers fate key [] sides to c h =
      let same : sides ≡ to = ap (λ r. r.sides) h in
      (
        ap (λ t. t.local) (sym same),
        subst
            (λ t.
              StoreCovers q other other_readable key t.remote c
              ↔ (StoreCovers q other other_readable key sides.remote c ⊎ CoveredBy {V = V} [] c))
            same (inl, λ s. elim s [ inl w ↦ w | inr w ↦ elim w.mem [ ] ]),
      )
  push_missing-StoreCovers lost key (item ∷ items) sides to c h =
      absurd (some-ne-none push_failed (ap (λ r. r.error) h))
  push_missing-StoreCovers unanswered key (item ∷ items) sides to c h =
      absurd (some-ne-none push_failed (ap (λ r. r.error) h))
  push_missing-StoreCovers delivered key (item ∷ items) sides to c h =
      elim (Option-cases (merge_all q key (item ∷ items) sides.remote).0) [
        | inr (x, k) ↦ absurd (ground (arith, ap (λ r. r.error) h, k))
        | inl k ↦
            let remote : DataStore q = (merge_all q key (item ∷ items) sides.remote).1 in
            let same : record sides { remote = remote } ≡ to =
              ground (arith, ap (λ r. r.sides) h, k) in
            let merged =
              merge_all-StoreCovers q other other_readable key (item ∷ items) sides.remote remote c
                (ap (λ e. (e, remote)) k) in
            (
              ap (λ t. t.local) (sym same),
              subst
                  (λ t. StoreCovers q other other_readable key t.remote c ↔ (
                    StoreCovers q other other_readable key sides.remote c
                    ⊎ CoveredBy (item ∷ items) c))
                  same merged,
            )
      ]

  -- If reconciling a key ends without an error, then both nodes cover for the key exactly what one of
  -- them covered before: the two sets merged. It relies on both storages keeping the promise of a
  -- Persister, and on reads that do not fail.
  pub reconcile_key-Converged :
      (fetches : Bool) (fate : Delivery) (key : Str) (sides to : Sides p q)
      → reconcile_key p q fetches fate key sides ≡ record { error = none; sides = to }
      → Converged key sides to
  unfolding reconcile_key get exchange
  reconcile_key-Converged fetches fate key sides to h =
      let mine : List (DataItem V) = (readable key sides.local.state).0.items in
      let theirs : List (DataItem V) = (other_readable key sides.remote.state).0.items in
      let mine_read = (readable key sides.local.state).1 in
      let theirs_read = (other_readable key sides.remote.state).1 in
      let step : exchange p q fate key (reverse mine) (reverse theirs) sides
          ≡ record { error = none; sides = to } =
        elim (Bool-cases fetches) [
          | inl e ↦ ground (arith, h, mine_read, theirs_read, e)
          | inr e ↦ absurd (ground (arith, ap (λ r. r.error) h, mine_read, theirs_read, e))
        ] in
      let to_pull : List (DataItem V) = missing_from (reverse mine) (reverse theirs) in
      let to_push : List (DataItem V) = missing_from (reverse theirs) (reverse mine) in
      elim (Option-cases (merge_all p key to_pull sides.local).0) [
        | inr (x, k) ↦ absurd (ground (arith, ap (λ r. r.error) step, k))
        | inl k ↦
            let local : DataStore p = (merge_all p key to_pull sides.local).1 in
            let pushed : push_missing p q fate key to_push (record sides { local = local })
                ≡ record { error = none; sides = to } =
              ground (arith, step, k) in
            let pull = λ (c : Snapshot).
              merge_all-StoreCovers p store readable key to_pull sides.local local c
                (ap (λ e. (e, local)) k) in
            let sent = λ (c : Snapshot).
              push_missing-StoreCovers fate key to_push (record sides { local = local }) to c
                pushed in
            record {
              here = λ c.
                  subst
                    (λ d.
                      StoreCovers p store readable key d c
                      ↔ (CoveredBy mine c ⊎ CoveredBy theirs c))
                    (sym (sent c).0) (iff_trans (pull c) (exchanged mine theirs c));
              there = λ c. iff_trans (sent c).1 (iff_trans (exchanged theirs mine c) or_comm);
            }
      ]
