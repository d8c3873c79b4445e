-- ===== src/HashRing/Preference.antt =====
-- What GetPreferenceList promises: the first distinct nodes clockwise from the key.
use distributed_kv_data_stor.Prelude.{
  ℕ, zero, suc, ◌≤◌, ◌<◌, Str, str_eq, str_eq_iff, ◌≡◌, refl, sym, ap, ◌∙◌, Bool, true, false, ◌||◌,
  none, some, List, [], ◌∷◌, ◌++◌, map, arith, if◌then◌else◌, length, length-append, take,
  Bool-cases, inl, inr, append-nil, append_assoc, Memᴰ,
}
use distributed_kv_data_stor.GoMap.{GoMap, lookup, insert, lookup-insert}
use distributed_kv_data_stor.HashRing.{HashRing, node_at, get_preference_list}
use distributed_kv_data_stor.HashRing.Fnv.{hash_key}
use distributed_kv_data_stor.HashRing.Sorted.{IsRising}
use distributed_kv_data_stor.HashRing.Clockwise.{at_or_after, positions_below, clockwise-start}
use distributed_kv_data_stor.HashRing.Walk.{gather, clockwise, start, get_preference_list-gather}

pub contains : Str → List Str → Bool
contains id [] = false
contains id (j ∷ ids) = str_eq j id || contains id ids

pub contains-mem : (id : Str) (ids : List Str) → contains id ids ≡ true → Memᴰ id ids
unfolding contains
contains-mem id [] h = absurd (cc)
contains-mem id (j ∷ ids) h = elim (Bool-cases (str_eq j id)) [
  | inl e ↦ Memᴰ.head (sym ((str_eq_iff j id).0 e))
  | inr e ↦ Memᴰ.tail (contains-mem id ids (ground arith))
]

pub mem-contains : (id : Str) (ids : List Str) → Memᴰ id ids → contains id ids ≡ true
unfolding contains
mem-contains id [] m = elim m [ ]
mem-contains id (j ∷ ids) (Memᴰ.head e) = ground (arith, str_eq_iff j id)
mem-contains id (j ∷ ids) (Memᴰ.tail m) = ground (arith, mem-contains id ids m)

contains-snoc :
    (id j : Str) (ids : List Str) → contains id (ids ++ j ∷ []) ≡ contains id ids || str_eq j id
unfolding contains
contains-snoc id j [] = ground arith
contains-snoc id j (k ∷ ids) = ground (arith, contains-snoc id j ids)

-- `found` and then the nodes that are not yet listed, each where it first stands.
unfoldable pub distinct_onto : List Str → List Str → List Str
unfolding contains
distinct_onto [] found = found
distinct_onto (node_id ∷ nodes) found =
    distinct_onto nodes (if contains node_id found then found else found ++ node_id ∷ [])

distinct_onto-extends :
    (nodes found : List Str) → (rest : List Str) × (distinct_onto nodes found ≡ found ++ rest)
unfolding distinct_onto
distinct_onto-extends [] found = ([], sym (append-nil found))
distinct_onto-extends (n ∷ nodes) found = elim (Bool-cases (contains n found)) [
  | inl e ↦ rw e (distinct_onto-extends nodes found)
  | inr e ↦ rw e (
      let (rest, f) = distinct_onto-extends nodes (found ++ n ∷ []) in
      (n ∷ rest, f ∙ append_assoc found (n ∷ []) rest))
]

take-append : (n : ℕ) (xs ys : List Str) → length xs ≡ n → take n (xs ++ ys) ≡ xs
take-append zero [] ys h = refl
take-append zero (x ∷ xs) ys h = absurd (omega arith)
take-append (suc n) [] ys h = absurd (omega arith)
take-append (suc n) (x ∷ xs) ys h = ap (λ l. x ∷ l) (take-append n xs ys (omega arith))

pub take-short : (n : ℕ) (xs : List Str) → length xs ≤ n → take n xs ≡ xs
take-short zero [] h = refl
take-short zero (x ∷ xs) h = elim h [ ]
take-short (suc n) [] h = refl
take-short (suc n) (x ∷ xs) h = ap (λ l. x ∷ l) (take-short n xs (omega arith))

-- `seen` is the set of the nodes listed so far.
abbrev Agrees : GoMap Bool → List Str → Type 0
Agrees seen pref =
    (id : Str) → contains id pref ≡ elim (lookup id seen) [ none ↦ false | some _ ↦ true ]

Agrees-insert :
    (seen : GoMap Bool) (pref : List Str) (node_id : Str)
    → Agrees seen pref
    → Agrees (insert node_id true seen) (pref ++ node_id ∷ [])
Agrees-insert seen pref node_id h id =
    ground (arith, contains-snoc id node_id pref, lookup-insert node_id id true seen, h id)

gather-take :
    (factor : ℕ) (nodes : List Str) (seen : GoMap Bool) (pref : List Str)
    → Agrees seen pref
    → length pref < factor
    → gather factor nodes seen pref ≡ take factor (distinct_onto nodes pref)
unfolding gather distinct_onto
gather-take factor [] seen pref a lt = sym (take-short factor pref (omega arith))
gather-take factor (n ∷ nodes) seen pref a lt =
    let (rest, e) = distinct_onto-extends nodes (pref ++ n ∷ []) in
    let more = pref ++ n ∷ [] in
    ground (
      arith,
      a n,
      length-append {0} pref (n ∷ []),
      e,
      λ (q : length more ≡ factor). take-append factor more rest q,
      gather-take factor nodes seen pref a lt,
      λ (q : length more < factor).
          gather-take factor nodes (insert n true seen) more (Agrees-insert seen pref n a) q,
    )

-- GetPreferenceList lists the first `factor` distinct nodes met from its start on.
pub get_preference_list-distinct :
    (hr : HashRing) (key : Str) (factor : ℕ)
    → 0 < factor
    → get_preference_list hr key factor
      ≡ take factor (distinct_onto (map (node_at hr) (clockwise hr.ring (start hr.ring key))) [])
unfolding contains lookup
get_preference_list-distinct hr key factor h =
    get_preference_list-gather hr key factor
    ∙ gather-take factor (map (node_at hr) (clockwise hr.ring (start hr.ring key))) [] []
        (λ id. refl) h

-- On a ring whose positions rise, as those of a built ring do, and for a positive factor:
-- GetPreferenceList returns the first `factor` distinct nodes met going once round the ring
-- clockwise from the key, first the positions that are not below the key's hash and then those that
-- are.
pub get_preference_list-eq :
    (hr : HashRing) (key : Str) (factor : ℕ)
    → IsRising hr.ring
    → 0 < factor
    → get_preference_list hr key factor
      ≡ take factor (
          distinct_onto
            (map
              (node_at hr)
              (at_or_after (hash_key key) hr.ring ++ positions_below (hash_key key) hr.ring))
            [])
get_preference_list-eq hr key factor r h =
    get_preference_list-distinct hr key factor h
    ∙ ap (λ l. take factor (distinct_onto (map (node_at hr) l) [])) (clockwise-start hr.ring key r)
