-- ===== src/GoMap.antt =====
-- Go's `map[string]V`, as an association list with one entry for each key. The laws do not depend
-- on the order of the entries: Go's iteration order is unspecified.
use distributed_kv_data_stor.Prelude.{
  Str, str_eq, str_eq_iff, ◌≡◌, refl, Option, none, some, List, [], ◌∷◌, Memᴰ, Bool-cases, inl, inr,
  str_eq_sym, str_eq_refl, ap, arith, if◌then◌else◌,
}

abbrev pub GoMap {ℓ} : Type ℓ → Type ℓ
GoMap V = List (Str × V)

module _ {ℓ} {V : Type ℓ} where
  -- v, ok := m[k]
  unfoldable pub lookup : Str → GoMap V → Option V
  unfolding str_eq
  lookup k [] = none
  lookup k ((j, v) ∷ m) = if str_eq j k then some v else lookup k m

  -- m[k] = v
  unfoldable pub insert : Str → V → GoMap V → GoMap V
  unfolding str_eq
  insert k v [] = (k, v) ∷ []
  insert k v ((j, w) ∷ m) = if str_eq j k then (j, v) ∷ m else (j, w) ∷ insert k v m

  -- delete(m, k)
  unfoldable pub erase : Str → GoMap V → GoMap V
  unfolding str_eq
  erase k [] = []
  erase k ((j, w) ∷ m) = let rest = erase k m in if str_eq j k then rest else (j, w) ∷ rest

  -- for k := range m
  unfoldable pub keys : GoMap V → List Str
  keys [] = []
  keys ((k, v) ∷ m) = k ∷ keys m

  -- maps.Clone, and `for k, v := range m { out[k] = v }` from an empty `out`.
  unfoldable pub copy : GoMap V → GoMap V
  unfolding insert
  copy [] = []
  copy ((k, v) ∷ m) = insert k v (copy m)

  pub lookup-insert :
      (k j : Str) (v : V) (m : GoMap V)
      → lookup j (insert k v m) ≡ (if str_eq k j then some v else lookup j m)
  unfolding lookup insert
  lookup-insert k j v [] = refl
  lookup-insert k j v ((i, w) ∷ m) =
      ground (arith, str_eq_iff k j, str_eq_iff i k, str_eq_iff i j, lookup-insert k j v m)

  pub lookup-erase :
      (k j : Str) (m : GoMap V) → lookup j (erase k m) ≡ (if str_eq k j then none else lookup j m)
  unfolding lookup erase
  lookup-erase k j [] = ground arith
  lookup-erase k j ((i, w) ∷ m) =
      ground (arith, str_eq_iff k j, str_eq_iff i k, str_eq_iff i j, lookup-erase k j m)

  pub lookup-copy : (j : Str) (m : GoMap V) → lookup j (copy m) ≡ lookup j m
  unfolding lookup copy
  lookup-copy j [] = refl
  lookup-copy j ((k, v) ∷ m) = ground (arith, lookup-insert k j v (copy m), lookup-copy j m)

  -- One entry for each key, as in a Go map.
  abbrev pub IsMap : GoMap V → Type ℓ
  IsMap [] = Unit
  IsMap ((k, v) ∷ m) = (lookup k m ≡ none) × IsMap m

  pub insert-IsMap : (k : Str) (v : V) (m : GoMap V) → IsMap m → IsMap (insert k v m)
  unfolding insert lookup
  insert-IsMap k v [] h = (refl, tt)
  insert-IsMap k v ((j, w) ∷ m) h = elim (Bool-cases (str_eq j k)) [
    | inl e ↦ rw e h
    | inr e ↦ rw e (ground (arith, lookup-insert k j v m, str_eq_sym j k), insert-IsMap k v m h.1)
  ]

  pub copy-IsMap : (m : GoMap V) → IsMap (copy m)
  unfolding copy
  copy-IsMap [] = tt
  copy-IsMap ((k, v) ∷ m) = insert-IsMap k v (copy m) (copy-IsMap m)

  -- In a map the entry of a key is what a lookup finds.
  pub lookup-entry : (m : GoMap V) (k : Str) (v : V) → IsMap m → Memᴰ (k, v) m → lookup k m ≡ some v
  unfolding lookup
  lookup-entry [] k v h e = elim e [ ]
  lookup-entry ((j, w) ∷ m) k v h (Memᴰ.head e) =
      ground (arith, ap (λ p. p.0) e, ap (λ p. p.1) e, str_eq_refl j, str_eq_iff j k)
  lookup-entry ((j, w) ∷ m) k v h (Memᴰ.tail e) =
      ground (arith, lookup-entry m k v h.1 e, h.0, str_eq_iff j k)
