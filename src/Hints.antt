-- ===== src/Hints.antt =====
-- internal/hints/hints.go: the store of the writes that wait for a replica to come back, over a
-- storage engine of its own, which is a Persister. The counters are uint64 and wrap.
pub mod Delivered
pub mod Examples
use distributed_kv_data_stor.Prelude.{
  ℕ, ◌+◌, ◌^◌, ◌%◌, Str, str_eq, contains_byte, Cut, cut, Bool, true, false, not, ◌&&◌, ◌||◌,
  Option, none, some, List, [], ◌∷◌, ◌++◌, Result, ok, err, if◌then◌else◌,
}
use distributed_kv_data_stor.GoMap.{GoMap, lookup, insert}
use distributed_kv_data_stor.VectorClock.{from_snapshot, snapshot}
use distributed_kv_data_stor.Model.{DataItem}
use distributed_kv_data_stor.Versioning.{union_vector_clock}
use distributed_kv_data_stor.Membership.{sorted}
use distributed_kv_data_stor.Persister.{Persister, StorageError, Found}

abbrev pub sep : ℕ
sep = 0

abbrev pub delivered_entry : Str
delivered_entry = sep ∷ b'd' ∷ b'e' ∷ b'l' ∷ b'i' ∷ b'v' ∷ b'e' ∷ b'r' ∷ b'e' ∷ b'd' ∷ []

abbrev pub u64_mod : ℕ
u64_mod = 2 ^ 64

pub data HintError : Type 0 where
  invalid_target : HintError
  reserved_entry : HintError
  storage_error : StorageError → HintError

pub record Hint (V : Type 0) : Type 0 where
  pub key : Str
  pub items : List (DataItem V)

unfoldable pub storage_key : Str → Str → Str
storage_key target key = target ++ sep ∷ key

unfoldable pub split_key : Str → Cut
unfolding cut
split_key stored = cut sep stored

-- The loop of Targets, with `seen`.
unfoldable pub targets_loop : List Str → GoMap Bool → List Str
unfolding split_key lookup insert
targets_loop [] seen = []
targets_loop (k ∷ ks) seen =
    let c = split_key k in
    let next = targets_loop ks (insert c.before true seen) in
    let skipped = targets_loop ks seen in
    if c.found
    then elim (lookup c.before seen) [ none ↦ c.before ∷ next | some _ ↦ skipped ]
    else skipped

module _ {V : Type 0} where
  unfoldable pub is_marker : DataItem V → Bool
  unfolding lookup snapshot
  is_marker item = elim (lookup delivered_entry (snapshot item.vector_clock)) [
    | none ↦ false
    | some _ ↦ true
  ]

  -- The items that are not markers.
  unfoldable pub live_items : List (DataItem V) → List (DataItem V)
  unfolding is_marker
  live_items [] = []
  live_items (item ∷ items) =
      let rest = live_items items in if is_marker item then rest else item ∷ rest

  -- `if len(live) > 0 { pending = append(pending, ...) }`
  unfoldable pub with_hint : Str → List (DataItem V) → List (Hint V) → List (Hint V)
  with_hint key [] pending = pending
  with_hint key (item ∷ items) pending = record { key = key; items = item ∷ items } ∷ pending

  -- The item that retires `delivered`; `nothing` is the nil value, `addr` its address.
  unfoldable pub marker : ℕ → V → List (DataItem V) → DataItem V
  unfolding union_vector_clock insert from_snapshot
  marker addr nothing delivered = record {
    addr = addr;
    value = nothing;
    vector_clock = from_snapshot (insert delivered_entry 1 (union_vector_clock delivered));
    last_updated_by = delivered_entry;
    is_deleted = true;
  }

  unfoldable pub item_count : List (DataItem V) → ℕ
  item_count [] = 0
  item_count (_ ∷ items) = item_count items + 1

module _ {V : Type 0} (p : Persister V) where
  pub record HintStore : Type 0 where
    pub engine : p.State
    pub created : ℕ
    pub delivered : ℕ

  unfoldable pub add_hint : Str → Str → DataItem V → HintStore → Option HintError × HintStore
  unfolding contains_byte is_marker storage_key
  add_hint target key item s =
      let (e, engine) = p.put (storage_key target key) item s.engine in
      let stored : Option HintError × HintStore = elim e [
        | some x ↦ (some (storage_error x), record s { engine = engine })
        | none ↦ (none, record s { engine = engine; created = (s.created + 1) % u64_mod })
      ] in
      let checked = if is_marker item then (some reserved_entry, s) else stored in
      elim target [
        | [] ↦ (some invalid_target, s)
        | c ∷ cs ↦ if contains_byte sep (c ∷ cs) then (some invalid_target, s) else checked
      ]

  unfoldable pub targets : HintStore → Result StorageError (List Str)
  unfolding targets_loop sorted
  targets s = elim (p.keys s.engine) [ err e ↦ err e | ok ks ↦ ok (sorted (targets_loop ks [])) ]

  -- The loop of Pending.
  unfoldable pub pending_loop : Str → List Str → HintStore → Result StorageError (List (Hint V))
  unfolding split_key live_items with_hint str_eq
  pending_loop target [] s = ok []
  pending_loop target (k ∷ ks) s =
      let rest = pending_loop target ks s in
      let c = split_key k in
      if c.found && str_eq c.before target
      then elim (p.get_all k s.engine) [
        | err e ↦ err e
        | ok r ↦ elim rest [
          | err e ↦ err e
          | ok later ↦ ok (with_hint c.after (live_items r.items) later)
        ]
      ]
      else rest

  unfoldable pub pending : Str → HintStore → Result StorageError (List (Hint V))
  unfolding pending_loop
  pending target s = elim (p.keys s.engine) [ err e ↦ err e | ok ks ↦ pending_loop target ks s ]

  -- The loop of PendingItems.
  unfoldable pub pending_items_loop : List Str → HintStore → Result StorageError ℕ
  unfolding split_key live_items item_count
  pending_items_loop [] s = ok 0
  pending_items_loop (k ∷ ks) s =
      let rest = pending_items_loop ks s in
      if (split_key k).found
      then elim (p.get_all k s.engine) [
        | err e ↦ err e
        | ok r ↦ elim rest [ err e ↦ err e | ok n ↦ ok (item_count (live_items r.items) + n) ]
      ]
      else rest

  unfoldable pub pending_items : HintStore → Result StorageError ℕ
  unfolding pending_items_loop
  pending_items s = elim (p.keys s.engine) [ err e ↦ err e | ok ks ↦ pending_items_loop ks s ]

  unfoldable pub mark_delivered :
      ℕ → V → Str → Str → List (DataItem V) → HintStore → Option StorageError × HintStore
  unfolding storage_key marker item_count
  mark_delivered addr nothing target key [] s = (none, s)
  mark_delivered addr nothing target key (d ∷ ds) s =
      let (e, engine) = p.put (storage_key target key) (marker addr nothing (d ∷ ds)) s.engine in
      elim e [
        | some x ↦ (some x, record s { engine = engine })
        | none ↦ (
          none,
          record s { engine = engine; delivered = (s.delivered + item_count (d ∷ ds)) % u64_mod },
        )
      ]
