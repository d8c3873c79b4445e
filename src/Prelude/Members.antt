-- ===== src/Prelude/Members.antt =====
-- Membership with its position (the library's `Memᴰ`), and predicates on every element.
use mathlib.Core.Path.{◌≡◌, refl, sym, subst}
use mathlib.Core.Logic.{◌⊎◌, inl, inr}
use mathlib.Core.Bool.{Bool, true, false, true≢false}
use distributed_kv_data_stor.Prelude.Tests.{if◌then◌else◌}
use mathlib.Core.List.{List, [], ◌∷◌, ◌++◌, Memᴰ}

-- `P` holds of every element.
abbrev pub All {ℓ κ} : {A : Type ℓ} → (A → Type κ) → List A → Type κ
All P [] = Unit
All P (x ∷ xs) = P x × All P xs

module _ {ℓ κ} {A : Type ℓ} (P : A → Type κ) where
  pub All-append : (xs ys : List A) → All P xs → All P ys → All P (xs ++ ys)
  All-append [] ys hx hy = hy
  All-append (x ∷ xs) ys hx hy = (hx.0, All-append xs ys hx.1 hy)

  pub All-mem : {a : A} (xs : List A) → All P xs → Memᴰ a xs → P a
  All-mem [] h m = elim m [ ]
  All-mem (x ∷ xs) h (Memᴰ.head e) = subst P (sym e) h.0
  All-mem (x ∷ xs) h (Memᴰ.tail m) = All-mem xs h.1 m

  pub All-of_mem : (xs : List A) → ((a : A) → Memᴰ a xs → P a) → All P xs
  All-of_mem [] h = tt
  All-of_mem (x ∷ xs) h = (h x (Memᴰ.head refl), All-of_mem xs (λ a m. h a (Memᴰ.tail m)))

-- An element of a list whose head is dropped on a test.
pub skip-mem {ℓ} :
    {A : Type ℓ} (b : Bool) (x : A) (xs : List A) {s : A}
    → Memᴰ s (if b then xs else x ∷ xs)
    → Memᴰ s xs ⊎ ((b ≡ false) × (s ≡ x))
skip-mem true x xs m = inl m
skip-mem false x xs (Memᴰ.head e) = inr (refl, e)
skip-mem false x xs (Memᴰ.tail m) = inl m

pub mem-skip {ℓ} :
    {A : Type ℓ} (b : Bool) (x : A) (xs : List A) {s : A}
    → Memᴰ s xs ⊎ ((b ≡ false) × (s ≡ x))
    → Memᴰ s (if b then xs else x ∷ xs)
mem-skip true x xs (inl m) = m
mem-skip true x xs (inr (e, _)) = absurd (true≢false e)
mem-skip false x xs (inl m) = Memᴰ.tail m
mem-skip false x xs (inr (_, e)) = Memᴰ.head e
