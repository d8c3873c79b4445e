-- ===== src/Membership/Sorted.antt =====
-- The ids of a member set, sorted: the same ids, each once.
use distributed_kv_data_stor.Prelude.{
  Str, str_lt, str_eq_iff, ◌≢◌, sym, none, List, [], ◌∷◌, Memᴰ, ◌↔◌, arith, Bool-cases, inl, inr,
}
use mathlib.Core.List
use distributed_kv_data_stor.GoMap.{GoMap, IsMap, lookup, keys}
use distributed_kv_data_stor.HashRing.Claims.{Distinct}
use distributed_kv_data_stor.Membership.{insert_string, sorted}

insert_string-mem : (s x : Str) (ts : List Str) → Memᴰ x (insert_string s ts) ↔ Memᴰ x (s ∷ ts)
unfolding insert_string
insert_string-mem s x [] = (λ m. m, λ m. m)
insert_string-mem s x (t ∷ ts) = elim (Bool-cases (str_lt t s)) [
  | inr e ↦ rw (e, insert_string) (λ m. m, λ m. m)
  | inl e ↦
      rw (e, insert_string)
        (
          λ m. elim (List.Memᴰ.cases_cons m) [
            | inl f ↦ Memᴰ.tail (Memᴰ.head f)
            | inr k ↦ elim (List.Memᴰ.cases_cons ((insert_string-mem s x ts).0 k)) [
              | inl f ↦ Memᴰ.head f
              | inr l ↦ Memᴰ.tail (Memᴰ.tail l)
            ]
          ],
          λ m. elim (List.Memᴰ.cases_cons m) [
            | inl f ↦ Memᴰ.tail ((insert_string-mem s x ts).1 (Memᴰ.head f))
            | inr k ↦ elim (List.Memᴰ.cases_cons k) [
              | inl f ↦ Memᴰ.head f
              | inr l ↦ Memᴰ.tail ((insert_string-mem s x ts).1 (Memᴰ.tail l))
            ]
          ],
        )
]

insert_string-Distinct :
    (s : Str) (ts : List Str) → Distinct (s ∷ ts) → Distinct (insert_string s ts)
unfolding insert_string
insert_string-Distinct s [] d = d
insert_string-Distinct s (t ∷ ts) d = elim (Bool-cases (str_lt t s)) [
  | inr e ↦ rw (e, insert_string) d
  | inl e ↦
      rw (e, insert_string)
        (
          λ m. elim (List.Memᴰ.cases_cons ((insert_string-mem s t ts).0 m)) [
            | inl f ↦ d.0 (Memᴰ.head (sym f))
            | inr l ↦ d.1.0 l
          ],
          insert_string-Distinct s ts (λ m. d.0 (Memᴰ.tail m), d.1.1),
        )
]

pub sorted-mem : (x : Str) (ss : List Str) → Memᴰ x (sorted ss) ↔ Memᴰ x ss
unfolding sorted
sorted-mem x [] = (λ m. m, λ m. m)
sorted-mem x (s ∷ ss) = (
  λ m. elim (List.Memᴰ.cases_cons ((insert_string-mem s x (sorted ss)).0 m)) [
    | inl f ↦ Memᴰ.head f
    | inr l ↦ Memᴰ.tail ((sorted-mem x ss).0 l)
  ],
  λ m. (insert_string-mem s x (sorted ss)).1 (elim (List.Memᴰ.cases_cons m) [
    | inl f ↦ Memᴰ.head f
    | inr l ↦ Memᴰ.tail ((sorted-mem x ss).1 l)
  ]),
)

pub sorted-Distinct : (ss : List Str) → Distinct ss → Distinct (sorted ss)
unfolding sorted
sorted-Distinct [] d = tt
sorted-Distinct (s ∷ ss) d =
    insert_string-Distinct s (sorted ss) (λ m. d.0 ((sorted-mem s ss).0 m), sorted-Distinct ss d.1)

pub keys-lookup : {V : Type 0} (m : GoMap V) (k : Str) → Memᴰ k (keys m) → lookup k m ≢ none
unfolding keys lookup
keys-lookup [] k e = elim e [ ]
keys-lookup ((j, v) ∷ m) k (Memᴰ.head e) = λ h. ground (arith, str_eq_iff j k, sym e)
keys-lookup ((j, v) ∷ m) k (Memᴰ.tail e) = λ h. ground (arith, keys-lookup m k e)

pub keys-Distinct : {V : Type 0} (m : GoMap V) → IsMap m → Distinct (keys m)
unfolding keys
keys-Distinct [] h = tt
keys-Distinct ((k, v) ∷ m) h = (λ e. keys-lookup m k e h.0, keys-Distinct m h.1)
