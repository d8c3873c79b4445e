-- ===== src/HashRing/Sorted.antt =====
-- sort.Slice on the positions: the same elements in strictly rising order, which determines the
-- list.
use distributed_kv_data_stor.Prelude.{
  ℕ, ◌≤◌, ◌<◌, ◌≡◌, refl, ap₂, List, [], ◌∷◌, Memᴰ, ◌⊎◌, inl, inr, ◌↔◌, All, All-mem, All-of_mem,
  Bool-cases, arith, leb,
}
use mathlib.Core.List
use native.Mathlib.Decide.{ℕ_discrete}
use distributed_kv_data_stor.HashRing.{sort, insert_sorted}
use distributed_kv_data_stor.HashRing.Claims.{Distinct}

-- Strictly rising.
abbrev pub IsRising : List ℕ → Type 0
IsRising [] = Unit
IsRising (x ∷ xs) = All (λ y. x < y) xs × IsRising xs

insert_sorted-mem : (x y : ℕ) (xs : List ℕ) → Memᴰ y (insert_sorted x xs) ↔ ((y ≡ x) ⊎ Memᴰ y xs)
unfolding insert_sorted
insert_sorted-mem x y [] = (
  λ m. inl (List.Memᴰ.eq_of_singleton m),
  λ s. elim s [ inl e ↦ Memᴰ.head e | inr m ↦ elim m [ ] ],
)
insert_sorted-mem x y (z ∷ zs) = elim (Bool-cases (leb x z)) [
  | inl e ↦
      rw e (λ m. List.Memᴰ.cases_cons m, λ s. elim s [ inl f ↦ Memᴰ.head f | inr m ↦ Memᴰ.tail m ])
  | inr e ↦ rw e (
    λ m. elim (List.Memᴰ.cases_cons m) [
      | inl f ↦ inr (Memᴰ.head f)
      | inr k ↦ elim ((insert_sorted-mem x y zs).0 k) [ inl f ↦ inl f | inr l ↦ inr (Memᴰ.tail l) ]
    ],
    λ s. elim s [
      | inl f ↦ Memᴰ.tail ((insert_sorted-mem x y zs).1 (inl f))
      | inr m ↦ elim (List.Memᴰ.cases_cons m) [
        | inl f ↦ Memᴰ.head f
        | inr k ↦ Memᴰ.tail ((insert_sorted-mem x y zs).1 (inr k))
      ]
    ],
  )
]

pub sort-mem : (y : ℕ) (xs : List ℕ) → Memᴰ y (sort xs) ↔ Memᴰ y xs
unfolding sort
sort-mem y [] = (λ m. m, λ m. m)
sort-mem y (x ∷ xs) = (
  λ m. elim ((insert_sorted-mem x y (sort xs)).0 m) [
    | inl e ↦ Memᴰ.head e
    | inr k ↦ Memᴰ.tail ((sort-mem y xs).0 k)
  ],
  λ m.
      (insert_sorted-mem x y (sort xs)).1
        (elim (List.Memᴰ.cases_cons m) [ inl e ↦ inl e | inr k ↦ inr ((sort-mem y xs).1 k) ]),
)

insert_sorted-IsRising :
    (x : ℕ) (xs : List ℕ) → IsRising xs → (Memᴰ x xs → ⊥) → IsRising (insert_sorted x xs)
unfolding insert_sorted
insert_sorted-IsRising x [] r new = (tt, tt)
insert_sorted-IsRising x (z ∷ zs) r new = elim (Bool-cases (leb x z)) [
  | inl e ↦ rw e (
    All-of_mem _ (z ∷ zs) (λ y m. elim (List.Memᴰ.cases_cons m) [
      | inl f ↦ elim (ℕ_discrete x z) [ yes g ↦ absurd (new (Memᴰ.head g)) | no ne ↦ ground arith ]
      | inr k ↦ let lt = All-mem _ zs r.0 k in ground arith
    ]),
    r,
  )
  | inr e ↦ rw e (
    All-of_mem _ (insert_sorted x zs) (λ y m. elim ((insert_sorted-mem x y zs).0 m) [
      | inl f ↦ ground arith
      | inr k ↦ All-mem _ zs r.0 k
    ]),
    insert_sorted-IsRising x zs r.1 (λ m. new (Memᴰ.tail m)),
  )
]

pub sort-IsRising : (xs : List ℕ) → Distinct xs → IsRising (sort xs)
unfolding sort
sort-IsRising [] d = tt
sort-IsRising (x ∷ xs) d =
    insert_sorted-IsRising x (sort xs) (sort-IsRising xs d.1) (λ m. d.0 ((sort-mem x xs).0 m))

-- Two rising lists with the same elements are equal.
pub IsRising-unique :
    (xs ys : List ℕ) → IsRising xs → IsRising ys → ((a : ℕ) → Memᴰ a xs ↔ Memᴰ a ys) → xs ≡ ys
IsRising-unique [] [] r s h = refl
IsRising-unique [] (y ∷ ys) r s h = elim ((h y).1 (Memᴰ.head refl)) [ ]
IsRising-unique (x ∷ xs) [] r s h = elim ((h x).0 (Memᴰ.head refl)) [ ]
IsRising-unique (x ∷ xs) (y ∷ ys) r s h =
    ap₂ (λ a l. a ∷ l) same_head (IsRising-unique xs ys r.1 s.1 (λ a. (through a, back a)))
  where
    least : (x ≤ y)
    least = elim (List.Memᴰ.cases_cons ((h y).1 (Memᴰ.head refl))) [
      | inl e ↦ omega arith
      | inr m ↦ let lt = All-mem _ xs r.0 m in omega arith
    ]

    most : (y ≤ x)
    most = elim (List.Memᴰ.cases_cons ((h x).0 (Memᴰ.head refl))) [
      | inl e ↦ omega arith
      | inr m ↦ let lt = All-mem _ ys s.0 m in omega arith
    ]

    same_head : x ≡ y
    same_head = omega (arith, least, most)

    through : (a : ℕ) → Memᴰ a xs → Memᴰ a ys
    through a m = elim (List.Memᴰ.cases_cons ((h a).0 (Memᴰ.tail m))) [
      | inr k ↦ k
      | inl e ↦ let lt = All-mem _ xs r.0 m in absurd (omega (arith, same_head))
    ]

    back : (a : ℕ) → Memᴰ a ys → Memᴰ a xs
    back a m = elim (List.Memᴰ.cases_cons ((h a).1 (Memᴰ.tail m))) [
      | inr k ↦ k
      | inl e ↦ let lt = All-mem _ ys s.0 m in absurd (omega (arith, same_head))
    ]
