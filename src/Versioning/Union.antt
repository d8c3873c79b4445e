-- ===== src/Versioning/Union.antt =====
-- UnionVectorClock is the least clock that covers every version, and a write built on it
-- supersedes them all.
use distributed_kv_data_stor.Prelude.{
  ℕ, ◌+◌, ◌≤◌, ◌<◌, Str, str_eq_iff, str_eq_refl, List, [], ◌∷◌, ◌≡◌, refl, Memᴰ, arith, ltb,
  if◌then◌else◌, All-of_mem,
}
use distributed_kv_data_stor.GoMap.{lookup, insert, copy, IsMap, copy-IsMap, lookup-entry}
use distributed_kv_data_stor.VectorClock.{
  Snapshot, u32_mod, version, snapshot, before, build_from_context,
}
use distributed_kv_data_stor.VectorClock.Order.{◌⊑◌, earlier}
use distributed_kv_data_stor.VectorClock.Laws.{
  ⊑_trans, version-insert, version-copy, compare-Causal, Causal-unique, version-build_from_context,
}
use distributed_kv_data_stor.Model.{DataItem, order}
use distributed_kv_data_stor.Versioning.{raise_entries, union_loop, union_vector_clock, resolve}
use distributed_kv_data_stor.Versioning.Cover.{clock_of}
use distributed_kv_data_stor.Versioning.Siblings.{resolve-All_before}

-- One round of the inner loop.
abbrev raise_entry : Str → ℕ → Snapshot → Snapshot
raise_entry node v union = if ltb (version union node) v then insert node v union else union

raise_entry-⊑ : (node : Str) (v : ℕ) (u : Snapshot) → u ⊑ raise_entry node v u
raise_entry-⊑ node v u n = ground (arith, version-insert node n v u, str_eq_iff node n)

raise_entry-ge : (node : Str) (v : ℕ) (u : Snapshot) → v ≤ version (raise_entry node v u) node
raise_entry-ge node v u = ground (arith, version-insert node node v u, str_eq_refl node)

raise_entry-le :
    (node : Str) (v : ℕ) (u s : Snapshot) → u ⊑ s → v ≤ version s node → raise_entry node v u ⊑ s
raise_entry-le node v u s h k n = ground (arith, version-insert node n v u, str_eq_iff node n, h n)

raise_entries-⊑ : (es u : Snapshot) → u ⊑ raise_entries es u
unfolding raise_entries
raise_entries-⊑ [] u = λ n. omega arith
raise_entries-⊑ ((node, v) ∷ es) u =
    ⊑_trans u (raise_entry node v u) _ (raise_entry-⊑ node v u)
      (raise_entries-⊑ es (raise_entry node v u))

raise_entries-ge : (es u : Snapshot) → es ⊑ raise_entries es u
unfolding raise_entries version lookup
raise_entries-ge [] u n = omega arith
raise_entries-ge ((node, v) ∷ es) u n = ground (
  arith,
  str_eq_iff node n,
  raise_entry-ge node v u,
  raise_entries-⊑ es (raise_entry node v u) node,
  raise_entries-ge es (raise_entry node v u) n,
)

raise_entries-le :
    (es u s : Snapshot)
    → u ⊑ s
    → ((node : Str) (v : ℕ) → Memᴰ (node, v) es → v ≤ version s node)
    → raise_entries es u ⊑ s
unfolding raise_entries
raise_entries-le [] u s h k = h
raise_entries-le ((node, v) ∷ es) u s h k =
    raise_entries-le es (raise_entry node v u) s
      (raise_entry-le node v u s h (k node v (Memᴰ.head refl))) (λ n w m. k n w (Memᴰ.tail m))

entry-version : (m : Snapshot) (k : Str) (v : ℕ) → IsMap m → Memᴰ (k, v) m → version m k ≡ v
unfolding version
entry-version m k v h e = ground (arith, lookup-entry m k v h e)

pub build-after :
    (c u : Snapshot) (node : Str)
    → c ⊑ u
    → version u node + 1 < u32_mod
    → (n : Str) → version c n ≤ version (build_from_context u node).state n
build-after c u node h k n =
    ground (arith, h n, version-build_from_context u node n, str_eq_iff node n)

module _ {ℓ} {V : Type ℓ} where
  union_loop-⊑ : (items : List (DataItem V)) (u : Snapshot) → u ⊑ union_loop items u
  unfolding union_loop
  union_loop-⊑ [] u = λ n. omega arith
  union_loop-⊑ (item ∷ items) u =
      let u' = raise_entries (snapshot item.vector_clock) u in
      ⊑_trans u u' _ (raise_entries-⊑ (snapshot item.vector_clock) u) (union_loop-⊑ items u')

  union_loop-ge :
      (items : List (DataItem V)) (u : Snapshot) {item : DataItem V}
      → Memᴰ item items
      → clock_of item ⊑ union_loop items u
  unfolding union_loop
  union_loop-ge [] u m = elim m [ ]
  union_loop-ge (x ∷ items) u (Memᴰ.tail m) =
      union_loop-ge items (raise_entries (snapshot x.vector_clock) u) m
  union_loop-ge (x ∷ items) u {item} (Memᴰ.head e) = rw e (λ n. omega (
    arith,
    version-copy (clock_of x) n,
    raise_entries-ge (copy (clock_of x)) u n,
    union_loop-⊑ items (raise_entries (snapshot x.vector_clock) u) n,
  ))

  union_loop-le :
      (items : List (DataItem V)) (u s : Snapshot)
      → u ⊑ s
      → ((item : DataItem V) → Memᴰ item items → clock_of item ⊑ s)
      → union_loop items u ⊑ s
  unfolding union_loop
  union_loop-le [] u s h k = h
  union_loop-le (x ∷ items) u s h k =
      union_loop-le items (raise_entries (snapshot x.vector_clock) u) s
        (raise_entries-le (copy (clock_of x)) u s h (λ node v m. omega (
          arith,
          entry-version (copy (clock_of x)) node v (copy-IsMap (clock_of x)) m,
          version-copy (clock_of x) node,
          k x (Memᴰ.head refl) node,
        )))
        (λ item m. k item (Memᴰ.tail m))

  -- UnionVectorClock is the least upper bound of the versions' clocks: it covers each of them, and
  -- every clock that covers them all covers it.
  pub union_vector_clock_lub :
      (items : List (DataItem V))
      → ((item : DataItem V) → Memᴰ item items → clock_of item ⊑ union_vector_clock items)
        × ((s : Snapshot)
            → ((item : DataItem V) → Memᴰ item items → clock_of item ⊑ s)
            → union_vector_clock items ⊑ s)
  unfolding union_vector_clock version lookup
  union_vector_clock_lub items =
      (λ item m. union_loop-ge items [] m, λ s k. union_loop-le items [] s (λ n. omega arith) k)

  -- A write whose clock is built on the union of the siblings' clocks replaces them all, as long
  -- as the writer's counter does not wrap.
  pub resolve-union :
      (existing : List (DataItem V)) (incoming : DataItem V) (node : Str)
      → incoming.vector_clock ≡ build_from_context (union_vector_clock existing) node
      → version (union_vector_clock existing) node + 1 < u32_mod
      → resolve existing incoming ≡ incoming ∷ []
  resolve-union existing incoming node e h =
      resolve-All_before existing incoming (All-of_mem _ existing older)
    where
      u : Snapshot
      u = union_vector_clock existing

      older : (s : DataItem V) → Memᴰ s existing → order s incoming ≡ before
      older s m =
          let below = (union_vector_clock_lub existing).0 s m in
          rw e (
            Causal-unique (compare-Causal s.vector_clock (build_from_context u node)) (
              earlier (build-after (clock_of s) u node below h) (
                node,
                ground
                    (arith, below node, version-build_from_context u node node, str_eq_refl node),
              )))
