-- ===== src/Hints/Delivered.antt =====
-- What a delivery retires from the hint store, and what it leaves.
use distributed_kv_data_stor.Prelude.{
  ℕ, ◌≤◌, Str, str_eq, str_eq_refl, str_eq_iff, contains_byte, cut-append, ◌≡◌, sym, subst, ◌∙◌,
  true, false, none, List, [], ◌∷◌, ok, arith, Bool-cases, Option-cases, inl, inr, Memᴰ,
  if◌then◌else◌,
}
use mathlib.Core.List
use distributed_kv_data_stor.GoMap.{insert}
use distributed_kv_data_stor.VectorClock.{version, from_snapshot, snapshot}
use distributed_kv_data_stor.VectorClock.Order.{◌⊑◌}
use distributed_kv_data_stor.VectorClock.Laws.{⊑_trans, version-insert, version-copy}
use distributed_kv_data_stor.Model.{DataItem}
use distributed_kv_data_stor.Versioning.{union_vector_clock}
use distributed_kv_data_stor.Versioning.Cover.{clock_of, covered_self}
use distributed_kv_data_stor.Versioning.Siblings.{IsAntichain-⊑}
use distributed_kv_data_stor.Versioning.Union.{union_vector_clock_lub}
use distributed_kv_data_stor.Persister.{Persister, Found}
use distributed_kv_data_stor.Persister.Contract.{IsMergingStore}
use distributed_kv_data_stor.Hints.{
  delivered_entry, storage_key, split_key, is_marker, live_items, marker, HintStore, mark_delivered,
}

-- splitKey takes back apart what storageKey put together, for a target without the separator.
pub split_key-storage_key :
    (target key : Str)
    → contains_byte 0 target ≡ false
    → split_key (storage_key target key) ≡ record { before = target; after = key; found = true }
unfolding split_key storage_key
split_key-storage_key target key h = cut-append 0 target key h

module _ {V : Type 0} where
  mem-live_items :
      (items : List (DataItem V)) (x : DataItem V)
      → Memᴰ x (live_items items)
      → Memᴰ x items × (is_marker x ≡ false)
  unfolding live_items
  mem-live_items [] x m = elim m [ ]
  mem-live_items (y ∷ items) x m =
      let later = mem-live_items items x in
      elim (Bool-cases (is_marker y)) [
        | inl e ↦
            let w = later (subst (λ (l : List (DataItem V)). Memᴰ x l) (ground (arith, e)) m) in
            (Memᴰ.tail w.0, w.1)
        | inr e ↦
            elim (List.Memᴰ.cases_cons (subst (λ (l : List (DataItem V)). Memᴰ x l) (rest e) m)) [
              | inl f ↦ (Memᴰ.head f, rw f e)
              | inr k ↦ let w = later k in (Memᴰ.tail w.0, w.1)
            ]
      ]
    where
      rest : is_marker y ≡ false → live_items (y ∷ items) ≡ y ∷ live_items items
      rest e = ground (arith, e)

  -- An item that knows of a delivery is a marker.
  is_marker-version :
      (x : DataItem V) → 1 ≤ version (clock_of x) delivered_entry → is_marker x ≡ true
  unfolding is_marker version snapshot
  is_marker-version x h = ground (arith, version-copy (clock_of x) delivered_entry)

  version-marker :
      (addr : ℕ) (nothing : V) (delivered : List (DataItem V)) (node : Str)
      → version (clock_of (marker addr nothing delivered)) node
        ≡ (if str_eq delivered_entry node then 1 else version (union_vector_clock delivered) node)
  unfolding marker from_snapshot
  version-marker addr nothing delivered node =
      version-copy (insert delivered_entry 1 (union_vector_clock delivered)) node
      ∙ version-insert delivered_entry node 1 (union_vector_clock delivered)

  not_marker-version :
      (x : DataItem V) → is_marker x ≡ false → version (clock_of x) delivered_entry ≡ 0
  not_marker-version x h = elim (Bool-cases (is_marker x)) [
    | inl e ↦ absurd (ground (arith, h, e))
    | inr e ↦ ground (arith, is_marker-version x, e)
  ]

  -- The marker is after every item that it retires.
  marker-after :
      (addr : ℕ) (nothing : V) (delivered : List (DataItem V)) (d : DataItem V)
      → Memᴰ d delivered
      → is_marker d ≡ false
      → clock_of d ⊑ clock_of (marker addr nothing delivered)
  marker-after addr nothing delivered d m h node =
      let known = version-marker addr nothing delivered node in
      elim (Bool-cases (str_eq delivered_entry node)) [
        | inl e ↦
            let same : delivered_entry ≡ node = (str_eq_iff delivered_entry node).0 e in
            let zero : version (clock_of d) node ≡ 0 =
              subst (λ n. version (clock_of d) n ≡ 0) same (not_marker-version d h) in
            omega (arith, zero)
        | inr e ↦
            let there : version (clock_of (marker addr nothing delivered)) node
                ≡ version (union_vector_clock delivered) node =
              ground (arith, known, e) in
            omega (arith, there, (union_vector_clock_lub delivered).0 d m node)
      ]

  -- A version that the marker covers is covered by what was delivered.
  below-marker :
      (addr : ℕ) (nothing : V) (delivered : List (DataItem V)) (x : DataItem V)
      → is_marker x ≡ false
      → clock_of x ⊑ clock_of (marker addr nothing delivered)
      → clock_of x ⊑ union_vector_clock delivered
  below-marker addr nothing delivered x h le node =
      let known = version-marker addr nothing delivered node in
      elim (Bool-cases (str_eq delivered_entry node)) [
        | inl e ↦
            let same : delivered_entry ≡ node = (str_eq_iff delivered_entry node).0 e in
            let zero : version (clock_of x) node ≡ 0 =
              subst (λ n. version (clock_of x) n ≡ 0) same (not_marker-version x h) in
            omega (arith, zero)
        | inr e ↦
            let there : version (clock_of (marker addr nothing delivered)) node
                ≡ version (union_vector_clock delivered) node =
              ground (arith, known, e) in
            omega (arith, there, le node)
      ]

  -- What a delivery of some items does to the versions held for their target and key.
  pub record Retires (delivered from to : List (DataItem V)) : Type 0 where
    pub gone :
        (d x : DataItem V)
        → Memᴰ d delivered
        → is_marker d ≡ false
        → Memᴰ x (live_items to)
        → ¬ (clock_of x ⊑ clock_of d)
    pub kept :
        (x : DataItem V)
        → Memᴰ x (live_items from)
        → ¬ (clock_of x ⊑ union_vector_clock delivered)
        → (y : DataItem V) × (Memᴰ y to × ((clock_of x ⊑ clock_of y) × (clock_of y ⊑ clock_of x)))

module _ {V : Type 0} (p : Persister V) (promise : IsMergingStore p) where
  stored_marker :
      (addr : ℕ) (nothing : V) (target key : Str) (d : DataItem V) (ds : List (DataItem V))
      (s s' : HintStore p)
      → mark_delivered p addr nothing target key (d ∷ ds) s ≡ (none, s')
      → p.put (storage_key target key) (marker addr nothing (d ∷ ds)) s.engine ≡ (none, s'.engine)
  unfolding mark_delivered
  stored_marker addr nothing target key d ds s s' h =
      elim (Option-cases
        (p.put (storage_key target key) (marker addr nothing (d ∷ ds)) s.engine).0) [
          | inl e ↦ ground (arith, h, e)
          | inr (x, e) ↦ absurd (ground (arith, h, e))
        ]

  -- MarkDelivered, if it succeeds, retires what was delivered: no version that is pending afterwards
  -- is a delivered one or older than it. A pending version that the union of the delivered clocks
  -- does not cover stays, with its clock. At least one item was delivered.
  pub mark_delivered-Retires :
      (addr : ℕ) (nothing : V) (target key : Str) (d : DataItem V) (ds : List (DataItem V))
      (s s' : HintStore p) (r r' : Found V)
      → mark_delivered p addr nothing target key (d ∷ ds) s ≡ (none, s')
      → p.get_all (storage_key target key) s.engine ≡ ok r
      → p.get_all (storage_key target key) s'.engine ≡ ok r'
      → Retires (d ∷ ds) r.items r'.items
  mark_delivered-Retires addr nothing target key d ds s s' r r' h before after =
      let mark : DataItem V = marker addr nothing (d ∷ ds) in
      let merged =
        promise.put_merges (storage_key target key) mark s.engine s'.engine r r'
          (stored_marker addr nothing target key d ds s s' h) before after in
      let old = promise.reads_siblings (storage_key target key) s.engine r before in
      let new = promise.reads_siblings (storage_key target key) s'.engine r' after in
      record {
        gone = λ gone x m live held below.
            let (mem, plain) = mem-live_items r'.items x held in
            let top = (merged (clock_of mark)).1 (inr (λ n. omega arith)) in
            let covered : clock_of x ⊑ clock_of mark =
              ⊑_trans (clock_of x) (clock_of gone) (clock_of mark) below
                (marker-after addr nothing (d ∷ ds) gone m live) in
            let same : x ≡ top.by =
              IsAntichain-⊑ r'.items new mem top.mem
                (⊑_trans (clock_of x) (clock_of mark) (clock_of top.by) covered top.below) in
            let above : clock_of mark ⊑ clock_of x =
              subst (λ (z : DataItem V). clock_of mark ⊑ clock_of z) (sym same) top.below in
            ground (
              arith,
              plain,
              is_marker-version x,
              above delivered_entry,
              version-marker addr nothing (d ∷ ds) delivered_entry,
              str_eq_refl delivered_entry,
            );
        kept = λ x held fresh.
            let (mem, plain) = mem-live_items r.items x held in
            let top = (merged (clock_of x)).1 (inl (covered_self mem)) in
            (
              top.by,
              (
                top.mem,
                (
                  top.below,
                  elim ((merged (clock_of top.by)).0 (covered_self top.mem)) [
                    | inl w ↦
                        let same : x ≡ w.by = IsAntichain-⊑ r.items old mem w.mem (
                          ⊑_trans (clock_of x) (clock_of top.by) (clock_of w.by) top.below
                            w.below) in
                        subst (λ (z : DataItem V). clock_of top.by ⊑ clock_of z) (sym same) w.below
                    | inr le ↦ absurd (
                        fresh (
                          below-marker addr nothing (d ∷ ds) x plain
                            (⊑_trans (clock_of x) (clock_of top.by) (clock_of mark) top.below le)))
                  ],
                ),
              ),
            );
      }
