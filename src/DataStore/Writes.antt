-- ===== src/DataStore/Writes.antt =====
-- What the writes of a DataStore do to the versions that a reader sees.
use distributed_kv_data_stor.Prelude.{
  ℕ, ◌+◌, ◌<◌, Str, ◌≡◌, refl, sym, ap, ◌∙◌, subst, true, false, not, Option, none, some, List, [],
  ◌∷◌, Memᴰ, ◌⊎◌, inl, inr, ◌↔◌, Result-cases, ok, arith, Option-cases,
}
use mathlib.Core.List
use mathlib.Core.List.{reverse}
use distributed_kv_data_stor.VectorClock.{Snapshot, u32_mod, version, equal, build_from_context}
use distributed_kv_data_stor.VectorClock.Order.{◌⊑◌, same}
use distributed_kv_data_stor.VectorClock.Laws.{⊑_trans, Causal-unique, compare-Causal}
use distributed_kv_data_stor.Model.{DataItem, order}
use distributed_kv_data_stor.Versioning.{union_vector_clock}
use distributed_kv_data_stor.Versioning.Cover.{clock_of, CoveredBy, covered_self}
use distributed_kv_data_stor.Versioning.Siblings.{IsAntichain, IsAntichain-⊑}
use distributed_kv_data_stor.Versioning.Union.{union_vector_clock_lub, build-after}
use distributed_kv_data_stor.Persister.{Persister, Found}
use distributed_kv_data_stor.Persister.Contract.{IsMergingStore, is_empty}
use distributed_kv_data_stor.DataStore.{DataStore, load, put, base_of, new_item, persist}

module _ {ℓ} {A : Type ℓ} where
  reverse_aux-mem :
      (xs acc : List A) {x : A} → Memᴰ x xs ⊎ Memᴰ x acc → Memᴰ x (List.reverse_aux xs acc)
  reverse_aux-mem [] acc (inl m) = elim m [ ]
  reverse_aux-mem [] acc (inr m) = m
  reverse_aux-mem (y ∷ ys) acc (inl (Memᴰ.head e)) =
      reverse_aux-mem ys (y ∷ acc) (inr (Memᴰ.head e))
  reverse_aux-mem (y ∷ ys) acc (inl (Memᴰ.tail m)) = reverse_aux-mem ys (y ∷ acc) (inl m)
  reverse_aux-mem (y ∷ ys) acc (inr m) = reverse_aux-mem ys (y ∷ acc) (inr (Memᴰ.tail m))

  pub reverse-mem : (xs : List A) {x : A} → Memᴰ x xs → Memᴰ x (reverse xs)
  reverse-mem xs m = reverse_aux-mem xs [] (inl m)

module _ {V : Type 0} (p : Persister V) where
  persist_lem :
      (key : Str) (built item : DataItem V) (ds ds' : DataStore p)
      → persist p key built ds ≡ (some item, ds')
      → (item ≡ built) × (p.put key built ds.state ≡ (none, ds'.state))
  unfolding persist
  persist_lem key built item ds ds' h = elim (Option-cases (p.put key built ds.state).0) [
    | inl e ↦ (ground arith, ground arith)
    | inr (x, e) ↦ absurd (ground arith)
  ]

  -- A Put that returns an item has handed exactly that item to the persister, without an error.
  pub put_lem :
      (addr : ℕ) (key : Str) (value : V) (context : Option Snapshot) (ds ds' : DataStore p)
      (item : DataItem V)
      → put p addr key value context ds ≡ (some item, ds')
      → (base : Snapshot) × (base_of p context key ds ≡ ok base)
        × (item ≡ new_item p addr value false base ds)
        × (p.put key item ds.state ≡ (none, ds'.state))
  unfolding put
  put_lem addr key value context ds ds' item h = elim (Result-cases (base_of p context key ds)) [
    | inr (e, f) ↦ absurd (ground arith)
    | inl (base, f) ↦
        let (exact, stored) =
          persist_lem key (new_item p addr value false base ds) item ds ds' (ground arith) in
        (base, f, exact, rw exact stored)
  ]

-- The versions that a read returns all have the clock of `item`, and there is one.
pub record OnlyVersion {V : Type 0} (items : List (DataItem V)) (item : DataItem V) : Type 0 where
  pub all_equal : (x : DataItem V) → Memᴰ x items → order x item ≡ equal
  pub present : CoveredBy items (clock_of item)

module _ {V : Type 0} where
  -- A sibling set that covers what `item` covers, and no more, is a version with its clock.
  cover-OnlyVersion :
      (items : List (DataItem V)) (item : DataItem V)
      → IsAntichain items
      → ((c : Snapshot) → CoveredBy items c ↔ (c ⊑ clock_of item))
      → OnlyVersion items item
  cover-OnlyVersion items item anti cover = record {
    all_equal = λ x m.
        let below = (cover (clock_of x)).0 (covered_self m) in
        let top = (cover (clock_of item)).1 (λ n. omega arith) in
        let e : x ≡ top.by =
          IsAntichain-⊑ items anti m top.mem
            (⊑_trans (clock_of x) (clock_of item) (clock_of top.by) below top.below) in
        Causal-unique (compare-Causal x.vector_clock item.vector_clock)
          (same below (subst (λ (z : DataItem V). clock_of item ⊑ clock_of z) (sym e) top.below));
    present = (cover (clock_of item)).1 (λ n. omega arith);
  }

module _ {V : Type 0} (p : Persister V) (promise : IsMergingStore p) where
  -- What the key had is covered by the base that a write without a context takes.
  base-covers :
      (key : Str) (ds : DataStore p) (r : Found V) (base : Snapshot)
      → p.get_all key ds.state ≡ ok r
      → base_of p none key ds ≡ ok base
      → (c : Snapshot) → CoveredBy r.items c
      → c ⊑ base
  unfolding base_of load
  base-covers key ds r base h e c w =
      let found : r.found ≡ true = promise.reads_found key ds.state r h ∙ nonempty r.items w.mem in
      let whole : union_vector_clock (reverse r.items) ≡ base = ground arith in
      let below = (union_vector_clock_lub (reverse r.items)).0 w.by (reverse-mem r.items w.mem) in
      ⊑_trans c (clock_of w.by) base w.below (subst (λ b. clock_of w.by ⊑ b) whole below)
    where
      nonempty : (items : List (DataItem V)) → Memᴰ w.by items → not (is_empty items) ≡ true
      nonempty [] m = elim m [ ]
      nonempty (_ ∷ _) m = refl

  -- A Put that names no context and succeeds supersedes everything that the key had: whatever is
  -- read afterwards has the clock of the new item, and something is. The writer's counter must not
  -- wrap.
  pub put-supersedes :
      (addr : ℕ) (key : Str) (value : V) (ds ds' : DataStore p) (item : DataItem V)
      (base : Snapshot) (r r' : Found V)
      → put p addr key value none ds ≡ (some item, ds')
      → p.get_all key ds.state ≡ ok r
      → p.get_all key ds'.state ≡ ok r'
      → base_of p none key ds ≡ ok base
      → version base ds.clock_id + 1 < u32_mod
      → OnlyVersion r'.items item
  unfolding new_item
  put-supersedes addr key value ds ds' item base r r' h before after based small =
      let (b, e, same_item, stored) = put_lem p addr key value none ds ds' item h in
      let same_base : b ≡ base = ground arith in
      let merged = promise.put_merges key item ds.state ds'.state r r' stored before after in
      cover-OnlyVersion r'.items item (promise.reads_siblings key ds'.state r' after) λ c. (
        λ w. elim ((merged c).0 w) [
          | inr le ↦ le
          | inl old ↦
              let built : item.vector_clock ≡ build_from_context base ds.clock_id =
                ap (λ (x : DataItem V). x.vector_clock) same_item
                ∙ ap (λ s. build_from_context s ds.clock_id) same_base in
              rw built (
                build-after c base ds.clock_id (base-covers key ds r base before based c old) small)
        ],
        λ le. (merged c).1 (inr le),
      )
