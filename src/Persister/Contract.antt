-- ===== src/Persister/Contract.antt =====
-- What a DataStore relies on of its Persister: of the promises that the comments of
-- internal/store/persister.go make, those on which versions a read returns. The order of the
-- versions, Keys and durability are not stated here.
use distributed_kv_data_stor.Prelude.{
  Str, ◌≡◌, ◌≢◌, ◌↔◌, ◌⊎◌, Memᴰ, Bool, true, false, not, none, List, [], ◌∷◌, ok,
}
use distributed_kv_data_stor.VectorClock.{Snapshot}
use distributed_kv_data_stor.VectorClock.Order.{◌⊑◌}
use distributed_kv_data_stor.Model.{DataItem}
use distributed_kv_data_stor.Versioning.Cover.{clock_of, CoveredBy}
use distributed_kv_data_stor.Versioning.Siblings.{IsAntichain}
use distributed_kv_data_stor.Persister.{Persister, Found}

abbrev pub is_empty {ℓ} : {A : Type ℓ} → List A → Bool
is_empty [] = true
is_empty (_ ∷ _) = false

-- A read returns a sibling set, and `found` tells whether it has any. A Put that succeeds merges
-- the item into the key's set by the causality rules: the set covers what it did and the item, and
-- each of its versions was there before or is the item itself. A Restore that succeeds replaces the
-- set verbatim. Neither touches another key.
pub record IsMergingStore {V : Type 0} (p : Persister V) : Type 0 where
  pub reads_siblings :
      (key : Str) (s : p.State) (r : Found V) → p.get_all key s ≡ ok r → IsAntichain r.items
  pub reads_found :
      (key : Str) (s : p.State) (r : Found V)
      → p.get_all key s ≡ ok r
      → r.found ≡ not (is_empty r.items)
  pub put_merges :
      (key : Str) (item : DataItem V) (s s' : p.State) (r r' : Found V)
      → p.put key item s ≡ (none, s')
      → p.get_all key s ≡ ok r
      → p.get_all key s' ≡ ok r'
      → (c : Snapshot) → CoveredBy r'.items c ↔ (CoveredBy r.items c ⊎ (c ⊑ clock_of item))
  pub put_from :
      (key : Str) (item : DataItem V) (s s' : p.State) (r r' : Found V)
      → p.put key item s ≡ (none, s')
      → p.get_all key s ≡ ok r
      → p.get_all key s' ≡ ok r'
      → (x : DataItem V) → Memᴰ x r'.items
      → Memᴰ x r.items ⊎ (x ≡ item)
  pub put_elsewhere :
      (key other : Str) (item : DataItem V) (s : p.State)
      → key ≢ other
      → p.get_all other (p.put key item s).1 ≡ p.get_all other s
  pub restore_replaces :
      (key : Str) (items : List (DataItem V)) (s s' : p.State) (r : Found V)
      → p.restore key items s ≡ (none, s')
      → p.get_all key s' ≡ ok r
      → r.items ≡ items
  pub restore_elsewhere :
      (key other : Str) (items : List (DataItem V)) (s : p.State)
      → key ≢ other
      → p.get_all other (p.restore key items s).1 ≡ p.get_all other s
