-- ===== src/VectorClock/Order.antt =====
-- CompareSnapshots decides the pointwise order of the versions.
use mathlib.Core.Bool.{false≢true}
use distributed_kv_data_stor.Prelude.{
  ◌≤◌, ◌<◌, Str, str_eq, str_eq_iff, ◌≡◌, refl, sym, ap, ◌∙◌, Bool, true, false, some, List, [],
  ◌∷◌, Memᴰ, arith, ◌⊎◌, inl, inr, Bool-cases, Option-cases,
}
use native.Mathlib.Decide.{dec_lt}
use distributed_kv_data_stor.GoMap.{GoMap, lookup, insert, keys, lookup-insert}
use distributed_kv_data_stor.VectorClock.{
  Relation, equal, before, after, concurrent, Snapshot, version, Flags, mark, tally, scan, verdict,
  seen_nodes, compare_snapshots,
}

-- Every version of `a` is at most the one of `b`.
infix 50 ◌⊑◌
abbrev pub ◌⊑◌ : Snapshot → Snapshot → Type 0
a ⊑ b = (node : Str) → version a node ≤ version b node

-- At some node `a` is ahead of `b`.
abbrev pub Exceeds : Snapshot → Snapshot → Type 0
Exceeds a b = (node : Str) × (version b node < version a node)

-- What each verdict says of two clocks; no two of the four can hold together.
pub data Causal (a b : Snapshot) : Relation → Type 0 where
  same : a ⊑ b → b ⊑ a → Causal a b equal
  earlier : a ⊑ b → Exceeds b a → Causal a b before
  later : b ⊑ a → Exceeds a b → Causal a b after
  parallel : Exceeds a b → Exceeds b a → Causal a b concurrent

pub keys-mem : {V : Type 0} (m : GoMap V) (k : Str) (v : V) → lookup k m ≡ some v → Memᴰ k (keys m)
unfolding lookup keys
keys-mem [] k v h = absurd (cc)
keys-mem ((j, w) ∷ m) k v h = elim (Bool-cases (str_eq j k)) [
  | inl e ↦ Memᴰ.head (sym ((str_eq_iff j k).0 e))
  | inr e ↦ Memᴰ.tail (keys-mem m k v (ground arith))
]

mem-keys : {V : Type 0} (m : GoMap V) (k : Str) → Memᴰ k (keys m) → (v : V) × (lookup k m ≡ some v)
unfolding lookup keys
mem-keys [] k h = elim h [ ]
mem-keys ((j, w) ∷ m) k (Memᴰ.head e) = (w, ground (arith, str_eq_iff j k))
mem-keys ((j, w) ∷ m) k (Memᴰ.tail h) = elim (Bool-cases (str_eq j k)) [
  | inl e ↦ (w, rw e)
  | inr e ↦ rw e (mem-keys m k h)
]

mark-keeps :
    (ks : List Str) (seen : GoMap Bool) (k : Str)
    → lookup k seen ≡ some true
    → lookup k (mark ks seen) ≡ some true
unfolding mark
mark-keeps [] seen k h = h
mark-keeps (j ∷ ks) seen k h =
    mark-keeps ks (insert j true seen) k (ground (arith, lookup-insert j k true seen))

mark-mem :
    (ks : List Str) (seen : GoMap Bool) (k : Str) → Memᴰ k ks → lookup k (mark ks seen) ≡ some true
unfolding mark
mark-mem [] seen k h = elim h [ ]
mark-mem (j ∷ ks) seen k (Memᴰ.head e) =
    mark-keeps ks (insert j true seen) k
      (ground (arith, lookup-insert j k true seen, str_eq_iff j k))
mark-mem (j ∷ ks) seen k (Memᴰ.tail h) = mark-mem ks (insert j true seen) k h

-- A node whose version is not 0 in one of the clocks is visited.
version-pos-mem : (a : Snapshot) (k : Str) → 0 < version a k → Memᴰ k (keys a)
unfolding version
version-pos-mem a k h = elim (Option-cases (lookup k a)) [
  | inl e ↦ absurd (ground arith)
  | inr (v, e) ↦ keys-mem a k v e
]

seen_nodes-mem :
    (a b : Snapshot) (k : Str)
    → (0 < version a k) ⊎ (0 < version b k)
    → Memᴰ k (keys (seen_nodes a b))
unfolding seen_nodes
seen_nodes-mem a b k (inl h) =
    keys-mem _ k true (mark-keeps (keys b) _ k (mark-mem (keys a) [] k (version-pos-mem a k h)))
seen_nodes-mem a b k (inr h) = keys-mem _ k true (mark-mem (keys b) _ k (version-pos-mem b k h))

module _ (a b : Snapshot) where
  tally-greater :
      (k : Str) (f : Flags)
      → (tally a b k f).is_this_greater ≡ true
      → (f.is_this_greater ≡ true) ⊎ (version b k < version a k)
  unfolding tally
  tally-greater k f h = ground arith

  tally-not_greater :
      (k : Str) (f : Flags)
      → (tally a b k f).is_this_greater ≡ false
      → (f.is_this_greater ≡ false) × (version a k ≤ version b k)
  unfolding tally
  tally-not_greater k f h = ground arith

  scan-greater :
      (ks : List Str) (f : Flags)
      → (scan a b ks f).is_this_greater ≡ true
      → (f.is_this_greater ≡ true) ⊎ Exceeds a b
  unfolding scan
  scan-greater [] f h = inl h
  scan-greater (k ∷ ks) f h = elim (scan-greater ks (tally a b k f) h) [
    | inr x ↦ inr x
    | inl g ↦ elim (tally-greater k f g) [ inl g' ↦ inl g' | inr lt ↦ inr (k, lt) ]
  ]

  scan-not_greater :
      (ks : List Str) (f : Flags)
      → (scan a b ks f).is_this_greater ≡ false
      → (f.is_this_greater ≡ false) × ((k : Str) → Memᴰ k ks → version a k ≤ version b k)
  unfolding scan
  scan-not_greater [] f h = (h, λ k m. elim m [ ])
  scan-not_greater (k ∷ ks) f h =
      let (g, rest) = scan-not_greater ks (tally a b k f) h in
      let (g', here) = tally-not_greater k f g in (g', λ j m. pick j m here rest)
    where
      pick :
          (j : Str)
          → Memᴰ j (k ∷ ks)
          → version a k ≤ version b k
          → ((i : Str) → Memᴰ i ks → version a i ≤ version b i)
          → version a j ≤ version b j
      pick j (Memᴰ.head e) here rest = rw e here
      pick j (Memᴰ.tail m) here rest = rest j m

-- The same scan with the clocks exchanged.
abbrev swap : Flags → Flags
swap f = record { is_this_greater = f.is_other_greater; is_other_greater = f.is_this_greater }

tally-swap : (a b : Snapshot) (k : Str) (f : Flags) → swap (tally a b k f) ≡ tally b a k (swap f)
unfolding tally
tally-swap a b k f = ground arith

scan-swap :
    (a b : Snapshot) (ks : List Str) (f : Flags) → swap (scan a b ks f) ≡ scan b a ks (swap f)
unfolding scan
scan-swap a b [] f = refl
scan-swap a b (k ∷ ks) f = scan-swap a b ks (tally a b k f) ∙ ap (scan b a ks) (tally-swap a b k f)

verdict-Causal :
    (a b : Snapshot) (f : Flags)
    → ((f.is_this_greater ≡ true → Exceeds a b) × (f.is_this_greater ≡ false → a ⊑ b))
    → ((f.is_other_greater ≡ true → Exceeds b a) × (f.is_other_greater ≡ false → b ⊑ a))
    → Causal a b (verdict f)
unfolding verdict
verdict-Causal a b f this other = elim (Bool-cases f.is_this_greater) [
  | inl t ↦ elim (Bool-cases f.is_other_greater) [
    | inl o ↦ rw (t, o) (parallel (this.0 t) (other.0 o))
    | inr o ↦ rw (t, o) (later (other.1 o) (this.0 t))
  ]
  | inr t ↦ elim (Bool-cases f.is_other_greater) [
    | inl o ↦ rw (t, o) (earlier (this.1 t) (other.0 o))
    | inr o ↦ rw (t, o) (same (this.1 t) (other.1 o))
  ]
]

abbrev unset : Flags
unset = record { is_this_greater = false; is_other_greater = false }

-- Every node at which a version may differ is scanned, so the flag tells the whole order.
scan-Exceeds :
    (a b : Snapshot) (ks : List Str)
    → ((k : Str) → 0 < version a k → Memᴰ k ks)
    → ((scan a b ks unset).is_this_greater ≡ true → Exceeds a b)
      × ((scan a b ks unset).is_this_greater ≡ false → a ⊑ b)
scan-Exceeds a b ks all = (
  λ h. elim (scan-greater a b ks unset h) [ inl e ↦ absurd (false≢true e) | inr x ↦ x ],
  λ h k. elim (dec_lt 0 (version a k)) [
    | yes p ↦ (scan-not_greater a b ks unset h).1 k (all k p)
    | no p ↦ omega arith
  ],
)

-- CompareSnapshots answers with the relation that the two clocks are in: equal, before or after
-- in the pointwise order, or concurrent when each is ahead at some node.
pub compare_snapshots-Causal : (a b : Snapshot) → Causal a b (compare_snapshots a b)
unfolding compare_snapshots
compare_snapshots-Causal a b =
    let ks = keys (seen_nodes a b) in
    verdict-Causal a b (scan a b ks unset)
      (scan-Exceeds a b ks (λ k p. seen_nodes-mem a b k (inl p)))
      (rw (ap (λ (f : Flags). f.is_this_greater) (scan-swap a b ks unset))
        (scan-Exceeds b a ks (λ k p. seen_nodes-mem a b k (inr p))))
