-- ===== src/MemTable/Trees.antt =====
-- A tree and an equality of pointers that keep the laws, for concrete inputs: an association list
-- with one entry for each key, and the comparison of all fields.
use distributed_kv_data_stor.Prelude.{
  ℕ, Str, str_eq, str_eq_iff, ◌≡◌, refl, sym, ap, ap₂, ◌∙◌, Bool, true, false, not, ◌&&◌, some, [],
  ◌∷◌, arith, Bool-cases, inl, inr, Memᴰ, ◌==◌,
}
use distributed_kv_data_stor.VectorClock.{Snapshot}
use distributed_kv_data_stor.GoMap.{
  GoMap, lookup, insert, erase, IsMap, insert-IsMap, lookup-insert, lookup-erase, lookup-entry,
}
use distributed_kv_data_stor.Model.{DataItem}
use distributed_kv_data_stor.MemTable.{Btree}
use distributed_kv_data_stor.MemTable.Laws.{IsBtree, IsPointerTest}

module _ {I : Type 0} where
  pub erase-IsMap : (k : Str) (m : GoMap I) → IsMap m → IsMap (erase k m)
  unfolding erase lookup
  erase-IsMap k [] h = tt
  erase-IsMap k ((j, w) ∷ m) h = elim (Bool-cases (str_eq j k)) [
    | inl e ↦ rw e (erase-IsMap k m h.1)
    | inr e ↦ rw e (ground (arith, lookup-erase k j m, h.0), erase-IsMap k m h.1)
  ]

  entry-lookup : (m : GoMap I) (k : Str) (i : I) → lookup k m ≡ some i → Memᴰ (k, i) m
  unfolding lookup
  entry-lookup [] k i h = absurd (ground arith)
  entry-lookup ((j, w) ∷ m) k i h = elim (Bool-cases (str_eq j k)) [
    | inl e ↦
        let at : j ≡ k = (str_eq_iff j k).0 e in
        let found : w ≡ i = ground (arith, e) in
        Memᴰ.head (ap₂ (λ a b. (a, b)) (sym at) (sym found))
    | inr e ↦ Memᴰ.tail (entry-lookup m k i (ground (arith, e)))
  ]

pub record Sorted (I : Type 0) : Type 0 where
  pub entries : GoMap I
  pub once : IsMap entries

-- A tree of entries.
abbrev pub list_tree : (I : Type 0) → Btree I
list_tree I = record {
  Tree = Sorted I;
  empty = record { entries = []; once = tt };
  get = λ k t. lookup k t.entries;
  replace_or_insert =
      λ k i t. record { entries = insert k i t.entries; once = insert-IsMap k i t.entries t.once };
  delete = λ k t. record { entries = erase k t.entries; once = erase-IsMap k t.entries t.once };
  ascend = λ t. t.entries;
}

pub list_tree-IsBtree : (I : Type 0) → IsBtree (list_tree I)
unfolding lookup
list_tree-IsBtree I = record {
  get_empty = λ k. refl;
  get_put = λ k key i t. lookup-insert k key i t.entries;
  get_delete = λ k key t. lookup-erase k key t.entries;
  ascend_get = λ key i t. (lookup-entry t.entries key i t.once, entry-lookup t.entries key i);
}

unfoldable same_clock : Snapshot → Snapshot → Bool
unfolding str_eq
same_clock [] [] = true
same_clock [] (b ∷ bs) = false
same_clock (a ∷ as') [] = false
same_clock (a ∷ as') (b ∷ bs) = str_eq a.0 b.0 && a.1 == b.1 && same_clock as' bs

same_clock-eq : (a b : Snapshot) → same_clock a b ≡ true → a ≡ b
unfolding same_clock
same_clock-eq [] [] h = refl
same_clock-eq [] (b ∷ bs) h = absurd (ground arith)
same_clock-eq (a ∷ as') [] h = absurd (ground arith)
same_clock-eq (a ∷ as') (b ∷ bs) h =
    let node : a.0 ≡ b.0 = (str_eq_iff a.0 b.0).0 (ground arith) in
    let count : a.1 ≡ b.1 = ground arith in
    let rest : as' ≡ bs = same_clock-eq as' bs (ground arith) in ground (arith, node, count, rest)

unfoldable same_flag : Bool → Bool → Bool
same_flag true b = b
same_flag false b = not b

same_flag-eq : (a b : Bool) → same_flag a b ≡ true → a ≡ b
unfolding same_flag
same_flag-eq a b h = ground arith

abbrev item_of : ℕ → ℕ → Snapshot → Str → Bool → DataItem ℕ
item_of addr value clock author deleted = record {
  addr = addr;
  value = value;
  vector_clock = record { state = clock };
  last_updated_by = author;
  is_deleted = deleted;
}

unfoldable pub same_item : DataItem ℕ → DataItem ℕ → Bool
unfolding same_clock str_eq same_flag
same_item x y =
    x.addr == y.addr
    && x.value == y.value
    && same_clock x.vector_clock.state y.vector_clock.state
    && str_eq x.last_updated_by y.last_updated_by
    && same_flag x.is_deleted y.is_deleted

pub same_item-IsPointerTest : IsPointerTest same_item
unfolding same_item
same_item-IsPointerTest x y h =
    let addr : x.addr ≡ y.addr = ground arith in
    let value : x.value ≡ y.value = ground arith in
    let clock : x.vector_clock.state ≡ y.vector_clock.state =
      same_clock-eq x.vector_clock.state y.vector_clock.state (ground arith) in
    let author : x.last_updated_by ≡ y.last_updated_by =
      (str_eq_iff x.last_updated_by y.last_updated_by).0 (ground arith) in
    let flag : x.is_deleted ≡ y.is_deleted =
      same_flag-eq x.is_deleted y.is_deleted (ground arith) in
    ap (λ a. item_of a x.value x.vector_clock.state x.last_updated_by x.is_deleted) addr
    ∙ ap (λ v. item_of y.addr v x.vector_clock.state x.last_updated_by x.is_deleted) value
    ∙ ap (λ c. item_of y.addr y.value c x.last_updated_by x.is_deleted) clock
    ∙ ap (λ u. item_of y.addr y.value y.vector_clock.state u x.is_deleted) author
    ∙ ap (λ d. item_of y.addr y.value y.vector_clock.state y.last_updated_by d) flag
