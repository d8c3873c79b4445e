-- ===== src/Prelude/Logic.antt =====
-- Equivalences composed.
use mathlib.Core.Logic.{◌↔◌, ◌⊎◌, inl, inr}

pub iff_trans {ℓ κ ι} : {A : Type ℓ} {B : Type κ} {C : Type ι} → A ↔ B → B ↔ C → A ↔ C
iff_trans f g = (λ a. g.0 (f.0 a), λ c. f.1 (g.1 c))

pub or_comm {ℓ κ} : {A : Type ℓ} {B : Type κ} → (A ⊎ B) ↔ (B ⊎ A)
or_comm =
    (λ w. elim w [ inl a ↦ inr a | inr b ↦ inl b ], λ w. elim w [ inl b ↦ inr b | inr a ↦ inl a ])
