-- ===== src/DataStore/Reads.antt =====
-- Reads of a DataStore, its rollback, and what a failed read stops.
use distributed_kv_data_stor.Prelude.{
  ℕ, Str, ◌≡◌, refl, sym, ap, subst, ◌∙◌, true, false, not, Option, none, List, [], ◌∷◌, Memᴰ,
  skip-mem, mem-skip, inl, inr, ◌↔◌, Result-cases, ok, err, arith, Bool-cases,
}
use mathlib.Core.List
use mathlib.Core.List.{reverse, reverse-reverse}
use distributed_kv_data_stor.VectorClock.{Snapshot}
use distributed_kv_data_stor.Model.{DataItem}
use distributed_kv_data_stor.Persister.{Persister, StorageError, Found}
use distributed_kv_data_stor.Persister.Contract.{IsMergingStore, is_empty}
use distributed_kv_data_stor.DataStore.{
  DataStore, storage_error, get, get_live_items, alive, put, delete, restore_versions,
}

module _ {V : Type 0} (p : Persister V) where
  pub get-ok :
      (key : Str) (ds : DataStore p) (f : Found V)
      → get p key ds ≡ ok f
      → (r : Found V) × (p.get_all key ds.state ≡ ok r)
        × (f.items ≡ reverse r.items)
        × (f.found ≡ r.found)
  unfolding get
  get-ok key ds f h = elim (Result-cases (p.get_all key ds.state)) [
    | inr (e, k) ↦ absurd (ground arith)
    | inl (r, k) ↦ (r, k, ground arith, ground arith)
  ]

  -- A write that must read first and cannot read does nothing: Put without a context returns nil,
  -- Delete reports the storage error, and the store is as it was.
  pub write_needs_read :
      (addr : ℕ) (key : Str) (value : V) (ds : DataStore p) (e : StorageError)
      → p.get_all key ds.state ≡ err e
      → (put p addr key value none ds ≡ (none, ds))
        × ((context : Option Snapshot) → delete p addr value key context ds ≡ (storage_error e, ds))
  unfolding put delete
  write_needs_read addr key value ds e h = (ground arith, λ context. ground arith)

  live_iff :
      (items : List (DataItem V)) (x : DataItem V)
      → Memᴰ x (alive p items) ↔ (Memᴰ x items × (x.is_deleted ≡ false))
  unfolding alive
  live_iff [] x = (λ m. elim m [ ], λ m. elim m.0 [ ])
  live_iff (y ∷ ys) x = (
    λ m. elim (skip-mem y.is_deleted y (alive p ys) m) [
      | inl k ↦ let (k', l) = (live_iff ys x).0 k in (Memᴰ.tail k', l)
      | inr (l, e) ↦ (Memᴰ.head e, ap (λ (z : DataItem V). z.is_deleted) e ∙ l)
    ],
    λ m. mem-skip y.is_deleted y (alive p ys) (elim (List.Memᴰ.cases_cons m.0) [
      | inl e ↦ inr (ap (λ (z : DataItem V). z.is_deleted) (sym e) ∙ m.1, e)
      | inr k ↦ inl ((live_iff ys x).1 (k, m.1))
    ]),
  )

module _ {V : Type 0} (p : Persister V) (promise : IsMergingStore p) where
  empty_found : (f : Found V) → f.found ≡ not (is_empty f.items) → f.found ≡ false → f.items ≡ []
  empty_found f h e = ground arith

  live_items-eq :
      (key : Str) (ds : DataStore p) (f : Found V)
      → get p key ds ≡ ok f
      → f.found ≡ true
      → get_live_items p key ds
        ≡ record { items = alive p f.items; found = not (is_empty (alive p f.items)) }
  unfolding get_live_items get
  live_items-eq key ds f h e = ground arith

  no_live_items-eq :
      (key : Str) (ds : DataStore p) (f : Found V)
      → get p key ds ≡ ok f
      → f.found ≡ false
      → get_live_items p key ds ≡ record { items = []; found = false }
  unfolding get_live_items get
  no_live_items-eq key ds f h e = ground arith

  not_found-nil :
      (key : Str) (ds : DataStore p) (f : Found V)
      → get p key ds ≡ ok f
      → f.found ≡ false
      → f.items ≡ []
  not_found-nil key ds f h e =
      let (r, k, same_items, same_found) = get-ok p key ds f h in
      same_items
      ∙ ap reverse (empty_found r (promise.reads_found key ds.state r k) (sym same_found ∙ e))

  -- GetLiveItems returns exactly the versions of Get that are not tombstones, in a store that can
  -- be read, and says found exactly when there is one.
  pub get_live_items-alive :
      (key : Str) (ds : DataStore p) (f : Found V)
      → get p key ds ≡ ok f
      → ((x : DataItem V)
          → Memᴰ x (get_live_items p key ds).items ↔ (Memᴰ x f.items × (x.is_deleted ≡ false)))
        × ((get_live_items p key ds).found ≡ not (is_empty (get_live_items p key ds).items))
  get_live_items-alive key ds f h = elim (Bool-cases f.found) [
    | inl e ↦ rw (live_items-eq key ds f h e) (λ x. live_iff p f.items x, refl)
    | inr e ↦
        rw (no_live_items-eq key ds f h e)
          (λ x. (λ m. elim m [ ], λ m. subst (Memᴰ x) (not_found-nil key ds f h e) m.0), refl)
  ]

  -- After a rollback that succeeds, Get returns the versions that were put back, in their order.
  pub get-restore_versions :
      (key : Str) (items : List (DataItem V)) (ds ds' : DataStore p) (f : Found V)
      → restore_versions p key items ds ≡ (none, ds')
      → get p key ds' ≡ ok f
      → f.items ≡ items
  unfolding restore_versions
  get-restore_versions key items ds ds' f h k =
      let (r, e, same_items, _) = get-ok p key ds' f k in
      same_items
      ∙ ap reverse
          (promise.restore_replaces key (reverse items) ds.state ds'.state r (ground arith) e)
      ∙ reverse-reverse items
