-- ===== src/Prelude/Iff.antt =====
-- Chains of equivalences between statements.
use mathlib.Core.Logic.{◌↔◌, ◌⊎◌, inl, inr}

pub iff_trans : {A B C : Type 0} → A ↔ B → B ↔ C → A ↔ C
iff_trans f g = (λ a. g.0 (f.0 a), λ c. f.1 (g.1 c))

pub iff_sym : {A B : Type 0} → A ↔ B → B ↔ A
iff_sym f = (f.1, f.0)

sum_map : {A B C D : Type 0} → (A → B) → (C → D) → A ⊎ C → B ⊎ D
sum_map f g (inl a) = inl (f a)
sum_map f g (inr c) = inr (g c)

pub iff_sum : {A B C D : Type 0} → A ↔ B → C ↔ D → (A ⊎ C) ↔ (B ⊎ D)
iff_sum f g = (sum_map f.0 g.0, sum_map f.1 g.1)

pub iff_refl : {A : Type 0} → A ↔ A
iff_refl = (λ a. a, λ a. a)

sum_rotate : {A B C : Type 0} → A ⊎ B ⊎ C → (B ⊎ A) ⊎ C
sum_rotate (inl a) = inl (inr a)
sum_rotate (inr (inl b)) = inl (inl b)
sum_rotate (inr (inr c)) = inr c

sum_unrotate : {A B C : Type 0} → (B ⊎ A) ⊎ C → A ⊎ B ⊎ C
sum_unrotate (inl (inl b)) = inr (inl b)
sum_unrotate (inl (inr a)) = inl a
sum_unrotate (inr c) = inr (inr c)

pub iff_rotate : {A B C : Type 0} → (A ⊎ B ⊎ C) ↔ ((B ⊎ A) ⊎ C)
iff_rotate = (sum_rotate, sum_unrotate)
