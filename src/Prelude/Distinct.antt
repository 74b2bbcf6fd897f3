-- ===== src/Prelude/Distinct.antt =====
-- Lists whose entries have different keys: tables with a primary or a unique key.
use mathlib.Core.Path.{◌≡◌, refl, sym, ◌∙◌}
use mathlib.Core.Logic.{◌≢◌, inl, inr}
use mathlib.Core.Bool.{Bool}
use mathlib.Core.List.{List, [], ◌∷◌, ◌++◌, map, Memᴰ}
use mathlib.Core.List.Memᴰ
use governor_api.Prelude.Tests.{Bool-cases}
use governor_api.Prelude.Lists.{filter, Memᴰ-filter, Memᴰ-map}

module _ {A B : Type 0} (key : A → B) where
  abbrev pub HasDistinct : List A → Type 0
  HasDistinct [] = Unit {0}
  HasDistinct (x ∷ xs) = ((y : A) → Memᴰ y xs → key y ≢ key x) × HasDistinct xs

  pub filter-HasDistinct : (p : A → Bool) (xs : List A) → HasDistinct xs → HasDistinct (filter p xs)
  filter-HasDistinct p [] d = d
  filter-HasDistinct p (x ∷ xs) (apart, d) = elim (Bool-cases (p x)) [
    | inl kept ↦ rw kept (λ y m. apart y ((Memᴰ-filter p y xs).0 m).0, filter-HasDistinct p xs d)
    | inr gone ↦ rw gone (filter-HasDistinct p xs d)
  ]

  pub append-HasDistinct :
      (xs : List A) (new : A)
      → HasDistinct xs
      → ((y : A) → Memᴰ y xs → key y ≢ key new)
      → HasDistinct (xs ++ new ∷ [])
  append-HasDistinct [] new d fresh = (λ y m. absurd (Memᴰ.not-nil m), tt)
  append-HasDistinct (x ∷ xs) new (apart, d) fresh = (
    λ y m e. elim (Memᴰ.append_cases xs m) [
      | inl old ↦ apart y old e
      | inr last ↦
          let is_new = Memᴰ.eq_of_singleton last in fresh x (Memᴰ.head refl) (cc (e, is_new))
    ],
    append-HasDistinct xs new d (λ y m. fresh y (Memᴰ.tail m)),
  )

  pub map-HasDistinct :
      (f : A → A) (xs : List A)
      → HasDistinct xs
      → ((y : A) → Memᴰ y xs → key (f y) ≡ key y)
      → HasDistinct (map f xs)
  map-HasDistinct f [] d same = d
  map-HasDistinct f (x ∷ xs) (apart, d) same = (
    λ y m e.
        let (z, n, is) = Memᴰ-map f y xs m in
        let of_z = same z (Memᴰ.tail n) in
        let of_x = same x (Memᴰ.head refl) in apart z n (cc (e, is, of_z, of_x)),
    map-HasDistinct f xs d (λ y m. same y (Memᴰ.tail m)),
  )

  pub HasDistinct-same :
      (xs : List A) (x y : A) → HasDistinct xs → Memᴰ x xs → Memᴰ y xs → key x ≡ key y → x ≡ y
  HasDistinct-same [] x y d m n e = absurd (Memᴰ.not-nil m)
  HasDistinct-same (z ∷ zs) x y (apart, d) (Memᴰ.head p) (Memᴰ.head q) e = p ∙ sym q
  HasDistinct-same (z ∷ zs) x y (apart, d) (Memᴰ.head p) (Memᴰ.tail n) e =
      absurd (apart y n (cc (e, p)))
  HasDistinct-same (z ∷ zs) x y (apart, d) (Memᴰ.tail m) (Memᴰ.head q) e =
      absurd (apart x m (cc (e, q)))
  HasDistinct-same (z ∷ zs) x y (apart, d) (Memᴰ.tail m) (Memᴰ.tail n) e =
      HasDistinct-same zs x y d m n e
