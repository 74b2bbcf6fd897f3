-- ===== src/Db/Keys.antt =====
-- Tables with a primary key and a unique pair of columns, under the statements that INSERT a row, and
-- UPDATE or DELETE one by its primary key.
use governor_api.Prelude.{
  String, ◌≡◌, ◌≢◌, refl, sym, ap, inl, inr, Bool, List, [], ◌∷◌, ◌++◌, map, filter, Memᴰ,
  HasDistinct, filter-HasDistinct, append-HasDistinct, map-HasDistinct, HasDistinct-same, ◌==◌,
  if◌then◌else◌, eq-cases,
}

module _ {A : Type 0} (id : A → String) (pair : A → String × String) where
  abbrev pub HasKeys : List A → Type 0
  HasKeys rows = HasDistinct id rows × HasDistinct pair rows

  pub insert-HasKeys :
      (rows : List A) (new : A)
      → HasKeys rows
      → ((y : A) → Memᴰ y rows → id y ≢ id new)
      → ((y : A) → Memᴰ y rows → pair y ≢ pair new)
      → HasKeys (rows ++ new ∷ [])
  insert-HasKeys rows new (ids, pairs) fresh apart =
      (append-HasDistinct id rows new ids fresh, append-HasDistinct pair rows new pairs apart)

  pub delete-HasKeys : (rows : List A) (p : A → Bool) → HasKeys rows → HasKeys (filter p rows)
  delete-HasKeys rows p (ids, pairs) =
      (filter-HasDistinct id p rows ids, filter-HasDistinct pair p rows pairs)

  pub save-HasKeys :
      (rows : List A) (old new : A)
      → HasKeys rows
      → Memᴰ old rows
      → id new ≡ id old
      → pair new ≡ pair old
      → HasKeys (map (λ row. if id row == id new then new else row) rows)
  save-HasKeys rows old new (ids, pairs) listed same_id same_pair =
      let save = λ (row : A). if id row == id new then new else row in
      (
        map-HasDistinct id save rows ids (λ y m. elim (eq-cases (id y) (id new)) [
          | inl (hit, e) ↦ rw hit (sym e)
          | inr (miss, _) ↦ rw miss refl
        ]),
        map-HasDistinct pair save rows pairs (λ y m. elim (eq-cases (id y) (id new)) [
          | inl (hit, e) ↦
              let is_old = HasDistinct-same id rows y old ids m listed (cc (e, same_id)) in
              rw hit (cc (ap pair is_old, same_pair))
          | inr (miss, _) ↦ rw miss refl
        ]),
      )
