-- ===== src/HashRing/Clockwise.antt =====
-- Where the walk of GetPreferenceList starts: the binary search cuts the rising ring at the target.
use distributed_kv_data_stor.Prelude.{
  ℕ, zero, suc, ◌≤◌, ◌<◌, Str, ◌≡◌, refl, sym, ap, ap₂, ◌∙◌, true, false, List, [], ◌∷◌, ◌++◌, leb,
  ltb, if◌then◌else◌, length, take, drop, Bool-cases, inl, inr, append-nil, arith, All,
}
use distributed_kv_data_stor.HashRing.Fnv.{hash_key}
use distributed_kv_data_stor.HashRing.{search_from}
use distributed_kv_data_stor.HashRing.Sorted.{IsRising}
use distributed_kv_data_stor.HashRing.Walk.{clockwise, start}

-- The positions that are not below the target, and those that are.
unfoldable pub at_or_after : ℕ → List ℕ → List ℕ
at_or_after target [] = []
at_or_after target (pos ∷ ring) =
    let rest = at_or_after target ring in if leb target pos then pos ∷ rest else rest

unfoldable pub positions_below : ℕ → List ℕ → List ℕ
positions_below target [] = []
positions_below target (pos ∷ ring) =
    let rest = positions_below target ring in if ltb pos target then pos ∷ rest else rest

all_above :
    (target pos : ℕ) (ring : List ℕ)
    → target ≤ pos
    → All (λ y. pos < y) ring
    → (at_or_after target ring ≡ ring) × (positions_below target ring ≡ [])
unfolding at_or_after positions_below
all_above target pos [] h all = (refl, refl)
all_above target pos (y ∷ ring) h all =
    let rest = all_above target pos ring h all.1 in
    let lt : pos < y = all.0 in (ground (arith, rest.0, lt, h), ground (arith, rest.1, lt, h))

search_from-cuts :
    (target : ℕ) (ring : List ℕ)
    → IsRising ring
    → (drop (search_from target ring) ring ≡ at_or_after target ring)
      × (take (search_from target ring) ring ≡ positions_below target ring)
unfolding search_from at_or_after positions_below
search_from-cuts target [] r = (refl, refl)
search_from-cuts target (pos ∷ ring) r = elim (Bool-cases (leb target pos)) [
  | inl e ↦
      let above = all_above target pos ring (ground (arith, e)) r.0 in
      let not_below : ltb pos target ≡ false = ground (arith, e) in
      rw (e, not_below) (ap (λ l. pos ∷ l) (sym above.0), sym above.1)
  | inr e ↦
      let rest = search_from-cuts target ring r.1 in
      let below : ltb pos target ≡ true = ground (arith, e) in
      rw (e, below) (rest.0, ap (λ l. pos ∷ l) rest.1)
]

drop-all : (n : ℕ) (xs : List ℕ) → length xs ≤ n → drop n xs ≡ []
drop-all zero [] h = refl
drop-all zero (x ∷ xs) h = elim h [ ]
drop-all (suc n) [] h = refl
drop-all (suc n) (x ∷ xs) h = drop-all n xs (omega arith)

take-whole : (n : ℕ) (xs : List ℕ) → length xs ≤ n → take n xs ≡ xs
take-whole zero [] h = refl
take-whole zero (x ∷ xs) h = elim h [ ]
take-whole (suc n) [] h = refl
take-whole (suc n) (x ∷ xs) h = ap (λ l. x ∷ l) (take-whole n xs (omega arith))

-- On a rising ring the walk meets the positions from the key's hash on, and then those below it.
pub clockwise-start :
    (ring : List ℕ) (key : Str)
    → IsRising ring
    → clockwise ring (start ring key)
      ≡ at_or_after (hash_key key) ring ++ positions_below (hash_key key) ring
unfolding start
clockwise-start ring key r =
    let found : ℕ = search_from (hash_key key) ring in
    let (after, below) = search_from-cuts (hash_key key) ring r in
    elim (Bool-cases (leb (length ring) found)) [
      | inl e ↦
          let past : length ring ≤ found = ground (arith, e) in
          let none_after : at_or_after (hash_key key) ring ≡ [] =
            sym after ∙ drop-all found ring past in
          let all_below : positions_below (hash_key key) ring ≡ ring =
            sym below ∙ take-whole found ring past in
          rw (e, none_after, all_below) (append-nil ring)
      | inr e ↦ rw e (ap₂ (λ a b. a ++ b) after below)
    ]
