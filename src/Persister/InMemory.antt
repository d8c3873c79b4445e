-- ===== src/Persister/InMemory.antt =====
-- A persister that keeps its promise, for concrete inputs: the sibling sets of the keys in memory,
-- merged as internal/versioning/resolve.go does.
use distributed_kv_data_stor.Prelude.{
  Str, str_eq, str_eq_iff, str_eq_refl, ◌≡◌, ◌≢◌, refl, sym, ap, subst, ◌∙◌, ◌↔◌, ◌⊎◌, inl, inr,
  Memᴰ, Bool, false, not, Option, none, some, List, [], ◌∷◌, Result, ok, err, All, Bool-cases,
  if◌then◌else◌,
}
use mathlib.Core.Option.{some-ne-none}
use distributed_kv_data_stor.VectorClock.{Relation, concurrent}
use distributed_kv_data_stor.Model.{DataItem, order}
use distributed_kv_data_stor.Versioning.{resolve}
use distributed_kv_data_stor.VectorClock.Order.{◌⊑◌}
use distributed_kv_data_stor.Versioning.Cover.{clock_of, CoveredBy, resolve-CoveredBy, resolve-mem}
use distributed_kv_data_stor.Versioning.Siblings.{IsAntichain, resolve-IsAntichain}
use distributed_kv_data_stor.Persister.{StorageError, storage_failed, Found, Persister}
use distributed_kv_data_stor.Persister.Contract.{is_empty, IsMergingStore}

pub record SiblingSet (V : Type 0) : Type 0 where
  pub items : List (DataItem V)
  pub pairwise : IsAntichain items

abbrev pub Sets : Type 0 → Type 0
Sets V = Str → SiblingSet V

concurrent_or : (r : Relation) → Option (r ≡ concurrent)
concurrent_or concurrent = some refl
concurrent_or _ = none

module _ {V : Type 0} where
  all_concurrent :
      (x : DataItem V) (items : List (DataItem V))
      → Option (All (λ y. order x y ≡ concurrent) items)
  unfolding concurrent_or
  all_concurrent x [] = some tt
  all_concurrent x (y ∷ items) = elim (concurrent_or (order x y)) [
    | none ↦ none
    | some e ↦ elim (all_concurrent x items) [ none ↦ none | some h ↦ some (e, h) ]
  ]

  pub antichain_or : (items : List (DataItem V)) → Option (IsAntichain items)
  unfolding all_concurrent
  antichain_or [] = some tt
  antichain_or (x ∷ items) = elim (all_concurrent x items) [
    | none ↦ none
    | some h ↦ elim (antichain_or items) [ none ↦ none | some k ↦ some (h, k) ]
  ]

  abbrev pub found_in : SiblingSet V → Found V
  found_in set = record { items = set.items; found = not (is_empty set.items) }

  abbrev pub set_at : Str → SiblingSet V → Sets V → Sets V
  set_at key set sets other = if str_eq other key then set else sets other

  abbrev pub merged_with : DataItem V → SiblingSet V → SiblingSet V
  merged_with item set = record {
    items = resolve set.items item;
    pairwise = resolve-IsAntichain set.items item set.pairwise;
  }

  -- A list that is no sibling set is not restored.
  unfoldable pub restore_in : Str → List (DataItem V) → Sets V → Option StorageError × Sets V
  unfolding antichain_or
  restore_in key items sets = elim (antichain_or items) [
    | none ↦ (some storage_failed, sets)
    | some h ↦ (none, set_at key (record { items = items; pairwise = h }) sets)
  ]

  abbrev pub in_memory : Persister V
  in_memory = record {
    State = Sets V;
    put = λ key item sets. (none, set_at key (merged_with item (sets key)) sets);
    get_all = λ key sets. ok (found_in (sets key));
    restore = restore_in;
    keys = λ sets. err storage_failed;
  }

  at_self : (key : Str) (set : SiblingSet V) (sets : Sets V) → set_at key set sets key ≡ set
  at_self key set sets = rw (str_eq_refl key) refl

  at_other :
      (key other : Str) (set : SiblingSet V) (sets : Sets V)
      → key ≢ other
      → set_at key set sets other ≡ sets other
  at_other key other set sets ne = elim (Bool-cases (str_eq other key)) [
    | inl e ↦ absurd (ne (sym ((str_eq_iff other key).0 e)))
    | inr e ↦ rw e refl
  ]

  abbrev items_of : Result StorageError (Found V) → List (DataItem V)
  items_of (ok f) = f.items
  items_of (err _) = []

  abbrev found_of : Result StorageError (Found V) → Bool
  found_of (ok f) = f.found
  found_of (err _) = false

  read-items :
      (set : SiblingSet V) (r : Found V)
      → ◌≡◌ {A = Result StorageError (Found V)} (ok (found_in set)) (ok r)
      → set.items ≡ r.items
  read-items set r h = ap items_of h

  restored :
      (key : Str) (items : List (DataItem V)) (sets sets' : Sets V)
      → restore_in key items sets ≡ (none, sets')
      → (sets' key).items ≡ items
  unfolding restore_in
  restored key items sets sets' h = go (antichain_or items) refl
    where
      outcome_of : Option (IsAntichain items) → Option StorageError × Sets V
      outcome_of none = (some storage_failed, sets)
      outcome_of (some h) = (none, set_at key (record { items = items; pairwise = h }) sets)

      go : (o : Option (IsAntichain items)) → antichain_or items ≡ o → (sets' key).items ≡ items
      go none e = absurd (some-ne-none storage_failed (ap (λ x. x.0) (sym (ap outcome_of e) ∙ h)))
      go (some k) e =
          ap (λ (x : Option StorageError × Sets V). (x.1 key).items)
            (sym (sym (ap outcome_of e) ∙ h))
          ∙ ap (λ (x : SiblingSet V). x.items)
              (at_self key (record { items = items; pairwise = k }) sets)

  restored_elsewhere :
      (key other : Str) (items : List (DataItem V)) (sets : Sets V)
      → key ≢ other
      → (restore_in key items sets).1 other ≡ sets other
  unfolding restore_in
  restored_elsewhere key other items sets ne = go (antichain_or items)
    where
      go :
          (o : Option (IsAntichain items))
          → (elim o as (λ _. Option StorageError × Sets V) [
            | none ↦ (some storage_failed, sets)
            | some h ↦ (none, set_at key (record { items = items; pairwise = h }) sets)
          ]).1
              other
            ≡ sets other
      go none = refl
      go (some h) = at_other key other (record { items = items; pairwise = h }) sets ne

  stored-items :
      (key : Str) (item : DataItem V) (sets sets' : Sets V) (r r' : Found V)
      → ◌≡◌ {A = Option StorageError × Sets V}
          (none, set_at key (merged_with item (sets key)) sets)
          (none, sets')
      → ◌≡◌ {A = Result StorageError (Found V)} (ok (found_in (sets key))) (ok r)
      → ◌≡◌ {A = Result StorageError (Found V)} (ok (found_in (sets' key))) (ok r')
      → r'.items ≡ resolve r.items item
  stored-items key item sets sets' r r' h k l =
      sym (read-items (sets' key) r' l)
      ∙ ap (λ (x : Option StorageError × Sets V). (x.1 key).items) (sym h)
      ∙ ap (λ (x : SiblingSet V). x.items) (at_self key (merged_with item (sets key)) sets)
      ∙ ap (λ items. resolve items item) (read-items (sets key) r k)

  pub in_memory-IsMergingStore : IsMergingStore in_memory
  in_memory-IsMergingStore = record {
    reads_siblings =
        λ key sets r h. subst IsAntichain (read-items (sets key) r h) (sets key).pairwise;
    reads_found = λ key sets r h.
        ap found_of (sym h) ∙ ap (λ l. not (is_empty l)) (read-items (sets key) r h);
    put_merges = λ key item sets sets' r r' h k l c.
        subst (λ items. CoveredBy items c ↔ (CoveredBy r.items c ⊎ (c ⊑ clock_of item)))
          (sym (stored-items key item sets sets' r r' h k l)) (resolve-CoveredBy r.items item c);
    put_from = λ key item sets sets' r r' h k l x m.
        resolve-mem r.items item
          (subst (λ items. Memᴰ x items) (stored-items key item sets sets' r r' h k l) m);
    put_elsewhere = λ key other item sets ne.
        ap (λ set. ok (found_in set)) (at_other key other (merged_with item (sets key)) sets ne);
    restore_replaces = λ key items sets sets' r h k.
        sym (read-items (sets' key) r k) ∙ restored key items sets sets' h;
    restore_elsewhere = λ key other items sets ne.
        ap (λ set. ok (found_in set)) (restored_elsewhere key other items sets ne);
  }
