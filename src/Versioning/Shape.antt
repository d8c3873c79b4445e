-- ===== src/Versioning/Shape.antt =====
-- The loop of Resolve in closed form: which existing versions are kept, and when the incoming one
-- survives.
use mathlib.Core.Bool.{true≢false}
use distributed_kv_data_stor.Prelude.{
  Bool, true, false, not, ◌&&◌, List, [], ◌∷◌, ◌++◌, ◌≡◌, refl, append_assoc, append-nil, arith,
  if◌then◌else◌, Memᴰ, skip-mem, mem-skip, inl, inr, Bool-cases,
}
use distributed_kv_data_stor.VectorClock.{Relation, equal, before, after, concurrent}
use distributed_kv_data_stor.Model.{DataItem, order}
use distributed_kv_data_stor.Versioning.{Resolution, settle, resolve_loop, resolve}

abbrev pub superseded : Relation → Bool
superseded before = true
superseded _ = false

abbrev pub covering : Relation → Bool
covering equal = true
covering after = true
covering _ = false

module _ {ℓ} {V : Type ℓ} where
  -- The existing versions that `incoming` does not supersede, in their order.
  unfoldable pub kept : List (DataItem V) → DataItem V → List (DataItem V)
  kept [] incoming = []
  kept (item ∷ items) incoming =
      let rest = kept items incoming in
      if superseded (order item incoming) then rest else item ∷ rest

  -- No existing version covers `incoming`.
  unfoldable pub fresh : List (DataItem V) → DataItem V → Bool
  fresh [] incoming = true
  fresh (item ∷ items) incoming = not (covering (order item incoming)) && fresh items incoming

  settle-eq :
      (rel : Relation) (item : DataItem V) (r : Resolution V)
      → settle rel item r ≡ record {
        survivors = if superseded rel then r.survivors else r.survivors ++ item ∷ [];
        incoming_survives = r.incoming_survives && not (covering rel);
      }
  unfolding settle
  settle-eq equal item r = ground arith
  settle-eq before item r = ground arith
  settle-eq after item r = ground arith
  settle-eq concurrent item r = ground arith

  resolve_loop-eq :
      (existing : List (DataItem V)) (incoming : DataItem V) (r : Resolution V)
      → resolve_loop existing incoming r ≡ record {
        survivors = r.survivors ++ kept existing incoming;
        incoming_survives = r.incoming_survives && fresh existing incoming;
      }
  unfolding resolve_loop kept fresh
  resolve_loop-eq [] incoming r = ground (arith, append-nil r.survivors)
  resolve_loop-eq (item ∷ existing) incoming r =
      rw (resolve_loop-eq existing incoming (settle (order item incoming) item r)) (
        rw (settle-eq (order item incoming) item r)
          (ground (arith, append_assoc r.survivors (item ∷ []) (kept existing incoming))))

  -- Resolve keeps the existing versions that the incoming one does not supersede, in their order,
  -- and appends the incoming one when none of the existing ones covers it.
  pub resolve-eq :
      (existing : List (DataItem V)) (incoming : DataItem V)
      → resolve existing incoming
        ≡ kept existing incoming ++ (if fresh existing incoming then incoming ∷ [] else [])
  unfolding resolve
  resolve-eq existing incoming =
      rw (resolve_loop-eq existing incoming (record { survivors = []; incoming_survives = true }))
        (ground (arith, append-nil (kept existing incoming)))

  pub kept-mem :
      (items : List (DataItem V)) (incoming : DataItem V) {s : DataItem V}
      → Memᴰ s (kept items incoming)
      → Memᴰ s items × (superseded (order s incoming) ≡ false)
  unfolding kept
  kept-mem [] incoming m = elim m [ ]
  kept-mem (item ∷ items) incoming m =
      elim (skip-mem (superseded (order item incoming)) item (kept items incoming) m) [
        | inl k ↦ let (k', e) = kept-mem items incoming k in (Memᴰ.tail k', e)
        | inr (e, eq) ↦ (Memᴰ.head eq, rw eq e)
      ]

  pub mem-kept :
      (items : List (DataItem V)) (incoming : DataItem V) {s : DataItem V}
      → Memᴰ s items
      → superseded (order s incoming) ≡ false
      → Memᴰ s (kept items incoming)
  unfolding kept
  mem-kept [] incoming m e = elim m [ ]
  mem-kept (item ∷ items) incoming (Memᴰ.head eq) e =
      mem-skip _ item (kept items incoming) (inr (rw eq at e, eq))
  mem-kept (item ∷ items) incoming (Memᴰ.tail m) e =
      mem-skip _ item (kept items incoming) (inl (mem-kept items incoming m e))

  -- When the incoming version does not survive, an existing one covers it.
  pub fresh-false :
      (items : List (DataItem V)) (incoming : DataItem V)
      → fresh items incoming ≡ false
      → (s : DataItem V) × Memᴰ s items × (covering (order s incoming) ≡ true)
  unfolding fresh
  fresh-false [] incoming h = absurd (true≢false h)
  fresh-false (item ∷ items) incoming h = elim (Bool-cases (covering (order item incoming))) [
    | inl e ↦ (item, Memᴰ.head refl, e)
    | inr e ↦ let (s, m, c) = fresh-false items incoming (ground arith) in (s, Memᴰ.tail m, c)
  ]

  pub fresh-true :
      (items : List (DataItem V)) (incoming : DataItem V) {s : DataItem V}
      → fresh items incoming ≡ true
      → Memᴰ s items
      → covering (order s incoming) ≡ false
  unfolding fresh
  fresh-true [] incoming h m = elim m [ ]
  fresh-true (item ∷ items) incoming h (Memᴰ.head eq) = rw eq (ground arith)
  fresh-true (item ∷ items) incoming h (Memᴰ.tail m) = fresh-true items incoming (ground arith) m
