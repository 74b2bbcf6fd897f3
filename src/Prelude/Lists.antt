-- ===== src/Prelude/Lists.antt =====
-- Lists under native lengths and Boolean tests, with membership as a family that can be matched.
use Prim.Native.Nat.{ℕ, suc, ◌+◌, ◌≤◌}
use mathlib.Core.Path.{◌≡◌, refl, sym, ap}
use mathlib.Core.Logic.{◌↔◌, ◌⊎◌, inl, inr, ⊎_elim}
use mathlib.Core.Bool.{Bool, true, false, ◌||◌}
use mathlib.Core.List.{List, [], ◌∷◌, ◌++◌, map, Memᴰ}
use mathlib.Core.List.Memᴰ
use native.Mathlib.Omega.{arith}
use governor_api.Prelude.Tests.{if◌then◌else◌, Bool-cases}

module _ {ℓ} {A : Type ℓ} where
  abbrev pub length : List A → ℕ
  length [] = 0
  length (x ∷ xs) = suc (length xs)

  abbrev pub filter : (A → Bool) → List A → List A
  filter p [] = []
  filter p (x ∷ xs) = let rest = filter p xs in if p x then x ∷ rest else rest

  abbrev pub any : (A → Bool) → List A → Bool
  any p [] = false
  any p (x ∷ xs) = p x || any p xs

module _ {ℓ} {A : Type ℓ} where
  pub length-append : (xs ys : List A) → length (xs ++ ys) ≡ length xs + length ys
  length-append [] ys = omega arith
  length-append (x ∷ xs) ys = omega (arith, length-append xs ys)

  pub length-filter-le : (p : A → Bool) (xs : List A) → length (filter p xs) ≤ length xs
  length-filter-le p [] = omega arith
  length-filter-le p (x ∷ xs) = ground (arith, length-filter-le p xs)

  pub Memᴰ-cons : (a x : A) (xs : List A) → Memᴰ a (x ∷ xs) ↔ ((a ≡ x) ⊎ Memᴰ a xs)
  Memᴰ-cons a x xs = (Memᴰ.cases_cons, ⊎_elim Memᴰ.head Memᴰ.tail)

  pub Memᴰ-append : (a : A) (xs ys : List A) → Memᴰ a (xs ++ ys) ↔ (Memᴰ a xs ⊎ Memᴰ a ys)
  Memᴰ-append a xs ys = (Memᴰ.append_cases xs, ⊎_elim (Memᴰ.append_left ys) (Memᴰ.append_right xs))

  pub Memᴰ-filter :
      (p : A → Bool) (a : A) (xs : List A) → Memᴰ a (filter p xs) ↔ (Memᴰ a xs × (p a ≡ true))
  Memᴰ-filter p a [] = (λ m. absurd (Memᴰ.not-nil m), λ (m, _). absurd (Memᴰ.not-nil m))
  Memᴰ-filter p a (x ∷ xs) =
      ground (arith, Memᴰ-filter p a xs, Memᴰ-cons a x xs, Memᴰ-cons a x (filter p xs))

  pub any_iff :
      (p : A → Bool) (xs : List A) → (any p xs ≡ true) ↔ ((a : A) × Memᴰ a xs × (p a ≡ true))
  any_iff p xs = (found xs, λ (a, m, e). finds xs a m e)
    where
      found : (ys : List A) → any p ys ≡ true → (a : A) × Memᴰ a ys × (p a ≡ true)
      found [] h = cc
      found (y ∷ ys) h = elim (Bool-cases (p y)) [
        | inl e ↦ (y, Memᴰ.head refl, e)
        | inr e ↦ let (a, m, q) = found ys (ground arith) in (a, Memᴰ.tail m, q)
      ]

      finds : (ys : List A) (a : A) → Memᴰ a ys → p a ≡ true → any p ys ≡ true
      finds [] a m q = absurd (Memᴰ.not-nil m)
      finds (y ∷ ys) a (Memᴰ.head e) q = ground arith
      finds (y ∷ ys) a (Memᴰ.tail m) q = ground (arith, finds ys a m q)

module _ {ℓ κ} {A : Type ℓ} {B : Type κ} where
  abbrev pub flat_map : (A → List B) → List A → List B
  flat_map f [] = []
  flat_map f (x ∷ xs) = f x ++ flat_map f xs

  pub Memᴰ-flat_map :
      (f : A → List B) (b : B) (xs : List A)
      → Memᴰ b (flat_map f xs) ↔ ((a : A) × Memᴰ a xs × Memᴰ b (f a))
  Memᴰ-flat_map f b xs = (found xs, λ (a, m, n). finds xs a m n)
    where
      found : (ys : List A) → Memᴰ b (flat_map f ys) → (a : A) × Memᴰ a ys × Memᴰ b (f a)
      found [] m = absurd (Memᴰ.not-nil m)
      found (y ∷ ys) m = elim (Memᴰ.append_cases (f y) m) [
        | inl here ↦ (y, Memᴰ.head refl, here)
        | inr there ↦ let (a, n, k) = found ys there in (a, Memᴰ.tail n, k)
      ]

      finds : (ys : List A) (a : A) → Memᴰ a ys → Memᴰ b (f a) → Memᴰ b (flat_map f ys)
      finds [] a m k = absurd (Memᴰ.not-nil m)
      finds (y ∷ ys) a (Memᴰ.head e) k = Memᴰ.append_left (flat_map f ys) (rw e at k)
      finds (y ∷ ys) a (Memᴰ.tail m) k = Memᴰ.append_right (f y) (finds ys a m k)

  pub length-map : (f : A → B) (xs : List A) → length (map f xs) ≡ length xs
  length-map f [] = refl
  length-map f (x ∷ xs) = ap suc (length-map f xs)

module _ {ℓ κ} {A : Type ℓ} {B : Type κ} (f : A → B) (b : B) where
  pub Memᴰ-map : (xs : List A) → Memᴰ b (map f xs) → (a : A) × Memᴰ a xs × (b ≡ f a)
  Memᴰ-map xs m = let (a, n, e) = Memᴰ.of_map f xs m in (a, n, sym e)
