-- ===== src/Api/Writes/Loaded.antt =====
-- Deleting the rows that a query has loaded leaves the rows for which its test fails.
use governor_api.Prelude.{
  String, ◌≡◌, ap, ◌↔◌, inl, inr, Bool, true, false, not, not-true, List, Memᴰ, Memᴰ-filter,
  any_iff, filter, Bool-cases, HasDistinct, HasDistinct-same, ◌==◌, eq_iff, eq_refl,
}
use governor_api.Api.Writes.{is_loaded, delete_all}

module _ {A : Type 0} (id : A → String) (p : A → Bool) (rows : List A) where
  pub is_loaded-mem : (x : A) → Memᴰ x rows → p x ≡ true → is_loaded id (filter p rows) x ≡ true
  is_loaded-mem x listed holds =
      (any_iff (λ y. id y == id x) (filter p rows)).1
        (x, (Memᴰ-filter p x rows).1 (listed, holds), eq_refl (id x))

  pub delete_all-mem :
      (x : A) → Memᴰ x (delete_all id (filter p rows) rows) → Memᴰ x rows × (p x ≡ false)
  delete_all-mem x kept =
      let (listed, test) =
        (Memᴰ-filter (λ y. not (is_loaded id (filter p rows) y)) x rows).0 kept in
      elim (Bool-cases (p x)) [
        | inl holds ↦ absurd (cc (is_loaded-mem x listed holds, not-true test))
        | inr fails ↦ (listed, fails)
      ]

  pub delete_all_iff :
      HasDistinct id rows
      → (x : A) → Memᴰ x (delete_all id (filter p rows) rows) ↔ (Memᴰ x rows × (p x ≡ false))
  delete_all_iff ids x = (
    delete_all-mem x,
    λ (listed, fails). elim (Bool-cases (is_loaded id (filter p rows) x)) [
      | inl loaded ↦
          let (y, found, same) = (any_iff (λ y. id y == id x) (filter p rows)).0 loaded in
          let (y_listed, holds) = (Memᴰ-filter p y rows).0 found in
          let is_x =
            HasDistinct-same id rows y x ids y_listed listed ((eq_iff (id y) (id x)).0 same) in
          absurd (cc (ap p is_x, holds, fails))
      | inr other ↦
          (Memᴰ-filter (λ y. not (is_loaded id (filter p rows) y)) x rows).1 (listed, ap not other)
    ],
  )
