-- ===== src/Membership/Valid.antt =====
-- The member sets that validateMembers accepts, and that a view can be built of every one of them.
use distributed_kv_data_stor.Prelude.{
  ℕ, ◌≤◌, ◌<◌, Str, str_eq, str_eq_iff, contains_byte, ◌≡◌, ◌≢◌, refl, sym, ap, subst, ◌∙◌, false,
  none, List, [], ◌∷◌, ◌||◌, Memᴰ, ◌↔◌, arith, Option-cases, Bool-cases, ok, inl, inr, map, length,
  All, All-of_mem, All-mem,
}
use mathlib.Core.List
use mathlib.Core.Bool.{true≢false}
use distributed_kv_data_stor.VectorClock.Order.{keys-mem}
use distributed_kv_data_stor.GoMap.{
  GoMap, IsMap, lookup, insert, lookup-insert, keys, copy, copy-IsMap, lookup-copy,
}
use distributed_kv_data_stor.HashRing.Claims.{Distinct}
use distributed_kv_data_stor.HashRing.Members.{new_hash_ring_from_members-IsRingOf}
use distributed_kv_data_stor.Membership.Sorted.{
  sorted-mem, sorted-Distinct, keys-lookup, keys-Distinct,
}
use distributed_kv_data_stor.Membership.{
  sorted, address, check_members, validate_members, View, build_view, virtual_nodes_per_physical,
}

-- An id and its address, each as it must be by itself.
abbrev pub IsGoodId : GoMap Str → Str → Type 0
IsGoodId members id =
    (str_eq id [] ≡ false)
    × ((contains_byte b'#' id || contains_byte 0 id) ≡ false)
    × (str_eq (address id members) [] ≡ false)

check-cons :
    (id : Str) (ids : List Str) (members by_addr : GoMap Str)
    → (check_members (id ∷ ids) members by_addr ≡ none) ↔ (
        IsGoodId members id
        × (lookup (address id members) by_addr ≡ none)
        × (check_members ids members (insert (address id members) id by_addr) ≡ none))
unfolding check_members
check-cons id ids members by_addr = elim (Option-cases (lookup (address id members) by_addr)) [
  | inl e ↦ (λ h. ground arith, λ g. ground arith)
  | inr (other, e) ↦ (λ h. absurd (ground arith), λ g. absurd (ground arith))
]

-- No address of these ids has an entry.
abbrev Unused : List Str → GoMap Str → Type 0
Unused addrs by_addr = (a : Str) → Memᴰ a addrs → lookup a by_addr ≡ none

Unused-cons :
    (addr id : Str) (addrs : List Str) (by_addr : GoMap Str)
    → Unused addrs (insert addr id by_addr) ↔ ((Memᴰ addr addrs → ⊥) × Unused addrs by_addr)
Unused-cons addr id addrs by_addr = (
  λ h. (
    λ m. ground (arith, lookup-insert addr addr id by_addr, h addr m, str_eq_iff addr addr),
    λ a m. ground (arith, lookup-insert addr a id by_addr, h a m),
  ),
  λ (new, old) a m. elim (Bool-cases (str_eq addr a)) [
    | inl e ↦ absurd (new (subst (λ b. Memᴰ b addrs) (sym ((str_eq_iff addr a).0 e)) m))
    | inr e ↦ ground (arith, lookup-insert addr a id by_addr, old a m)
  ],
)

check_members_iff :
    (ids : List Str) (members by_addr : GoMap Str)
    → (check_members ids members by_addr ≡ none) ↔ (
        All (IsGoodId members) ids
        × Unused (map (λ id. address id members) ids) by_addr
        × Distinct (map (λ id. address id members) ids))
unfolding check_members
check_members_iff [] members by_addr = (λ h. (tt, λ a m. elim m [ ], tt), λ g. refl)
check_members_iff (id ∷ ids) members by_addr =
    let addr = address id members in
    let addrs = map (λ j. address j members) ids in
    let step = check-cons id ids members by_addr in
    let rest = check_members_iff ids members (insert addr id by_addr) in
    let moved = Unused-cons addr id addrs by_addr in
    (
      λ h.
          let (good, free, more) = step.0 h in
          let (all, unused, distinct) = rest.0 more in
          let (new, old) = moved.0 unused in
          (
            (good, all),
            λ a m. elim (List.Memᴰ.cases_cons m) [
              | inl e ↦ ap (λ b. lookup b by_addr) e ∙ free
              | inr k ↦ old a k
            ],
            (new, distinct),
          ),
      λ ((good, all), unused, (new, distinct)). step.1 (
        good,
        unused addr (Memᴰ.head refl),
        rest.1 (all, moved.1 (new, λ a m. unused a (Memᴰ.tail m)), distinct),
      ),
    )

Distinct-map :
    (f : Str → Str) (xs : List Str)
    → Distinct xs
    → ((x y : Str) → Memᴰ x xs → Memᴰ y xs → f x ≡ f y → x ≡ y)
    → Distinct (map f xs)
Distinct-map f [] d h = tt
Distinct-map f (x ∷ xs) d h = (
  λ m.
      let (y, k, e) = List.Memᴰ.of_map f xs m in
      d.0 (subst (λ z. Memᴰ z xs) (sym (h x y (Memᴰ.head refl) (Memᴰ.tail k) (sym e))) k),
  Distinct-map f xs d.1 (λ a b m k. h a b (Memᴰ.tail m) (Memᴰ.tail k)),
)

map-Distinct :
    (f : Str → Str) (xs : List Str)
    → Distinct (map f xs)
    → (x y : Str) → Memᴰ x xs
    → Memᴰ y xs
    → f x ≡ f y
    → x ≡ y
map-Distinct f [] d x y m k e = elim m [ ]
map-Distinct f (z ∷ xs) d x y m k e = elim (List.Memᴰ.cases_cons m) [
  | inl p ↦ elim (List.Memᴰ.cases_cons k) [
    | inl q ↦ p ∙ sym q
    | inr l ↦ absurd (d.0 (subst (λ a. Memᴰ a (map f xs)) (sym e ∙ ap f p) (List.Memᴰ.map f l)))
  ]
  | inr n ↦ elim (List.Memᴰ.cases_cons k) [
    | inl q ↦ absurd (d.0 (subst (λ a. Memᴰ a (map f xs)) (e ∙ ap f q) (List.Memᴰ.map f n)))
    | inr l ↦ map-Distinct f xs d.1 x y n l e
  ]
]

-- What validateMembers is for.
pub record IsMembership (members : GoMap Str) (n : ℕ) : Type 0 where
  pub some_member : 0 < length members
  pub enough : n ≤ length members
  pub good_ids : (id : Str) → Memᴰ id (keys members) → IsGoodId members id
  pub own_addresses :
      (id other : Str)
      → Memᴰ id (keys members)
      → Memᴰ other (keys members)
      → address id members ≡ address other members
      → id ≡ other

validate-check :
    (members : GoMap Str) (n : ℕ)
    → (validate_members members n ≡ none) ↔ (
        (0 < length members)
        × (n ≤ length members)
        × (check_members (sorted (keys members)) members [] ≡ none))
unfolding validate_members
validate-check members n = (λ h. (ground arith, ground arith, ground arith), λ g. ground arith)

-- validateMembers accepts a member set exactly if it has a member and N members at least, every id
-- is non-empty and free of '#' and NUL, every address is non-empty, and no two members share one.
pub validate_members-IsMembership :
    (members : GoMap Str) (n : ℕ)
    → IsMap members
    → (validate_members members n ≡ none) ↔ IsMembership members n
unfolding lookup
validate_members-IsMembership members n m =
    let ids = sorted (keys members) in
    let f : Str → Str = λ id. address id members in
    let inner = check_members_iff ids members [] in
    (
      λ h.
          let (positive, enough, checked) = (validate-check members n).0 h in
          let (good, _, distinct) = inner.0 checked in
          record {
            some_member = positive;
            enough = enough;
            good_ids =
                λ id k. All-mem (IsGoodId members) ids good ((sorted-mem id (keys members)).1 k);
            own_addresses = λ id other k l e.
                map-Distinct f ids distinct id other ((sorted-mem id (keys members)).1 k)
                  ((sorted-mem other (keys members)).1 l) e;
          },
      λ v. (validate-check members n).1 (
        v.some_member,
        v.enough,
        inner.1 (
          All-of_mem (IsGoodId members) ids
              (λ id k. v.good_ids id ((sorted-mem id (keys members)).0 k)),
          λ a k. refl,
          Distinct-map f ids (sorted-Distinct (keys members) (keys-Distinct members m))
              (λ x y k l e.
                v.own_addresses x y ((sorted-mem x (keys members)).0 k)
                  ((sorted-mem y (keys members)).0 l) e),
        ),
      ),
    )

keys-copy :
    (members : GoMap Str) (id : Str) → Memᴰ id (keys (copy members)) → Memᴰ id (keys members)
keys-copy members id k = elim (Option-cases (lookup id members)) [
  | inl gone ↦ absurd (keys-lookup (copy members) id k (lookup-copy id members ∙ gone))
  | inr (addr, e) ↦ keys-mem members id addr e
]

-- A view can be built of every member set that validateMembers accepts.
pub build_view-valid :
    (fingerprint : GoMap Str → ℕ → Str) (epoch : ℕ) (members : GoMap Str) (n : ℕ)
    → IsMap members
    → validate_members members n ≡ none
    → (v : View) × (build_view fingerprint epoch members n ≡ ok v)
unfolding build_view
build_view-valid fingerprint epoch members n m h =
    let valid = (validate_members-IsMembership members n m).0 h in
    let ids = sorted (keys (copy members)) in
    let (ring, built) = (new_hash_ring_from_members-IsRingOf virtual_nodes_per_physical ids).0 (
      All-of_mem (λ id. id ≢ []) ids
          (λ id k.
            let good =
              valid.good_ids id
                (keys-copy members id ((sorted-mem id (keys (copy members))).0 k)) in
            λ e. true≢false (sym ((str_eq_iff id []).1 e) ∙ good.0)),
      sorted-Distinct (keys (copy members)) (keys-Distinct (copy members) (copy-IsMap members)),
    ) in
    (
      record {
        epoch = epoch;
        fingerprint = fingerprint (copy members) n;
        members = copy members;
        ring = ring;
      },
      rw (built, build_view) refl,
    )
