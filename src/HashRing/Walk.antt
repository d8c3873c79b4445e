-- ===== src/HashRing/Walk.antt =====
-- The walk of GetPreferenceList visits the ring once, clockwise from the key's position.
use distributed_kv_data_stor.Prelude.{
  ℕ, zero, suc, ◌+◌, ◌-◌, ◌%◌, ◌≤◌, ◌<◌, Str, ◌≡◌, refl, ap, ap₂, ◌∙◌, Bool, true, none, some, List,
  [], ◌∷◌, ◌++◌, map, arith, ◌==◌, leb, if◌then◌else◌, length, get_or, take, drop,
}
use native.Mathlib.Nat.{mod-eq_of_lt, mod-eq-sub-mod}
use distributed_kv_data_stor.GoMap.{GoMap, lookup, insert}
use distributed_kv_data_stor.HashRing.Fnv.{hash_key}
use distributed_kv_data_stor.HashRing.{HashRing, node_at, search_from, walk, get_preference_list}

-- The positions that the rounds from `i` on look at.
visit : List ℕ → ℕ → ℕ → ℕ → List ℕ
visit ring index zero i = []
visit ring index (suc left) i =
    get_or ring ((index + i) % length ring) 0 ∷ visit ring index left (i + 1)

-- The body of the walk over the nodes it meets.
unfoldable pub gather : ℕ → List Str → GoMap Bool → List Str → List Str
gather factor [] seen pref = pref
gather factor (node_id ∷ nodes) seen pref =
    let more = pref ++ node_id ∷ [] in
    let skipped = gather factor nodes seen pref in
    let taken = gather factor nodes (insert node_id true seen) more in
    elim (lookup node_id seen) [
      | some _ ↦ skipped
      | none ↦ if length more == factor then more else taken
    ]

walk-gather :
    (hr : HashRing) (index factor left i : ℕ) (seen : GoMap Bool) (pref : List Str)
    → walk hr index factor left i seen pref
      ≡ gather factor (map (node_at hr) (visit hr.ring index left i)) seen pref
unfolding walk gather visit
walk-gather hr index factor zero i seen pref = refl
walk-gather hr index factor (suc left) i seen pref =
    let node_id = node_at hr (get_or hr.ring ((index + i) % length hr.ring) 0) in
    ground (
      arith,
      walk-gather hr index factor left (i + 1) seen pref,
      walk-gather hr index factor left (i + 1) (insert node_id true seen) (pref ++ node_id ∷ []),
    )

drop-get_or : (xs : List ℕ) (n : ℕ) → n < length xs → drop n xs ≡ get_or xs n 0 ∷ drop (n + 1) xs
drop-get_or [] n h = elim h [ ]
drop-get_or (x ∷ xs) zero h = refl
drop-get_or (x ∷ xs) (suc n) h =
    let e : suc n + 1 ≡ suc (n + 1) = omega arith in rw e (drop-get_or xs n (omega arith))

-- The rounds whose position lies `k` after the front of the list, with no wrap among them.
visit-run :
    (ring : List ℕ) (index left i k : ℕ)
    → ((j m : ℕ) → j < left → m ≡ index + i + j → m % length ring ≡ k + j)
    → k + left ≤ length ring
    → visit ring index left i ≡ take left (drop k ring)
unfolding visit
visit-run ring index zero i k at fits = refl
visit-run ring index (suc left) i k at fits =
    let here : (index + i) % length ring ≡ k =
      at 0 (index + i) (omega arith) (omega arith) ∙ (omega arith) in
    rw here (
      rw (drop-get_or ring k (omega arith)) (
        ap (λ l. get_or ring k 0 ∷ l)
          (visit-run ring index left (i + 1) (k + 1)
            (λ j m lt e. at (j + 1) m (omega arith) (omega arith) ∙ (omega arith)) (omega arith))))

visit-append :
    (ring : List ℕ) (index a b i : ℕ)
    → visit ring index (a + b) i ≡ visit ring index a i ++ visit ring index b (i + a)
unfolding visit
visit-append ring index zero b i =
    let e : 0 + b ≡ b = omega arith in let f : i + 0 ≡ i = omega arith in rw (e, f)
visit-append ring index (suc a) b i =
    let e : suc a + b ≡ suc (a + b) = omega arith in
    let f : i + suc a ≡ i + 1 + a = omega arith in
    rw (e, f)
      (ap (λ l. get_or ring ((index + i) % length ring) 0 ∷ l)
        (visit-append ring index a b (i + 1)))

take-all : (n : ℕ) (xs : List ℕ) → length xs ≤ n → take n xs ≡ xs
take-all zero [] h = refl
take-all zero (x ∷ xs) h = elim h [ ]
take-all (suc n) [] h = refl
take-all (suc n) (x ∷ xs) h = ap (λ l. x ∷ l) (take-all n xs (omega arith))

length-drop : (n : ℕ) (xs : List ℕ) → length (drop n xs) ≡ length xs - n
length-drop zero xs = omega arith
length-drop (suc n) [] = omega arith
length-drop (suc n) (x ∷ xs) = omega (arith, length-drop n xs)

-- The positions from the place `index` of the ring on, and then those before it.
abbrev pub clockwise : List ℕ → ℕ → List ℕ
clockwise ring index = drop index ring ++ take index ring

visit-clockwise :
    (ring : List ℕ) (index : ℕ)
    → index < length ring
    → visit ring index (length ring) 0 ≡ clockwise ring index
visit-clockwise ring index h =
    let e : length ring ≡ (length ring - index) + index = omega arith in
    ap (λ n. visit ring index n 0) e
    ∙ visit-append ring index (length ring - index) index 0
    ∙ ap₂ (λ l r. l ++ r)
        (visit-run ring index (length ring - index) 0 index
            (λ j m lt e. mod-eq_of_lt (omega arith) ∙ (omega arith)) (omega arith)
          ∙ take-all (length ring - index) (drop index ring)
              (omega (arith, length-drop index ring)))
        (visit-run ring index index (0 + (length ring - index)) 0
          (λ j m lt e. mod-eq-sub-mod (omega arith) ∙ mod-eq_of_lt (omega arith) ∙ (omega arith))
          (omega arith))

search_from-le : (target : ℕ) (ring : List ℕ) → search_from target ring ≤ length ring
unfolding search_from
search_from-le target [] = omega arith
search_from-le target (pos ∷ ring) = ground (arith, search_from-le target ring)

-- Where the walk starts: the first position that is not below the key's hash, or the first of all.
unfoldable pub start : List ℕ → Str → ℕ
start ring key =
    let found = search_from (hash_key key) ring in if leb (length ring) found then 0 else found

start-lt : (ring : List ℕ) (key : Str) → 0 < length ring → start ring key < length ring
unfolding start
start-lt ring key h = ground (arith, search_from-le (hash_key key) ring)

-- GetPreferenceList gathers the nodes that it meets going once round the ring, clockwise from the
-- key's position.
pub get_preference_list-gather :
    (hr : HashRing) (key : Str) (factor : ℕ)
    → get_preference_list hr key factor
      ≡ gather factor (map (node_at hr) (clockwise hr.ring (start hr.ring key))) [] []
unfolding get_preference_list start visit
get_preference_list-gather hr key factor =
    walk-gather hr (start hr.ring key) factor (length hr.ring) 0 [] []
    ∙ ap (λ l. gather factor (map (node_at hr) l) [] [])
        (whole hr.ring (start hr.ring key) (start-lt hr.ring key))
  where
    whole :
        (ring : List ℕ) (index : ℕ)
        → (0 < length ring → index < length ring)
        → visit ring index (length ring) 0 ≡ clockwise ring index
    whole [] zero h = refl
    whole [] (suc n) h = refl
    whole (x ∷ xs) index h = visit-clockwise (x ∷ xs) index (h (omega arith))
