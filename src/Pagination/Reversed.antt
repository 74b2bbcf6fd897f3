-- ===== src/Pagination/Reversed.antt =====
-- The other direction of a column lists the same rows backwards.
use mathlib.Core.List.Memᴰ
use mathlib.Core.List.{reverse, reverse-cons}
use governor_api.Prelude.{
  ◌≡◌, refl, sym, ap, subst, ◌∙◌, ◌↔◌, ⊎_elim, Bool, true, String, List, [], ◌∷◌, ◌++◌, Memᴰ,
  length, length-append, HasDistinct, arith,
}
use governor_api.Db.{User}
use governor_api.Pagination.{order_by}
use governor_api.Pagination.Sorted.{Orders, IsSorted, order_by-IsSorted, mem-order_by, order_by-mem}

pub length-reverse : (xs : List User) → length (reverse xs) ≡ length xs
length-reverse [] = refl
length-reverse (x ∷ xs) =
    ap length (reverse-cons x xs)
    ∙ omega (arith, length-append (reverse xs) (x ∷ []), length-reverse xs)

pub mem-reverse : (a : User) (xs : List User) → Memᴰ a (reverse xs) → Memᴰ a xs
mem-reverse a [] m = m
mem-reverse a (x ∷ xs) m =
    ⊎_elim (λ l. Memᴰ.tail (mem-reverse a xs l)) (λ e. Memᴰ.head (Memᴰ.eq_of_singleton e))
      (Memᴰ.append_cases (reverse xs) (subst (Memᴰ a) (reverse-cons x xs) m))

pub reverse-mem : (a : User) (xs : List User) → Memᴰ a xs → Memᴰ a (reverse xs)
reverse-mem a (x ∷ xs) (Memᴰ.head e) =
    subst (Memᴰ a) (sym (reverse-cons x xs)) (Memᴰ.append_right (reverse xs) (Memᴰ.head e))
reverse-mem a (x ∷ xs) (Memᴰ.tail m) =
    subst (Memᴰ a) (sym (reverse-cons x xs)) (Memᴰ.append_left (x ∷ []) (reverse-mem a xs m))
reverse-mem a [] m = m

module _ (key : User → String) (before : User → User → Bool) (o : Orders key before) where
  append-IsSorted :
      (xs ys : List User)
      → IsSorted key before o xs
      → IsSorted key before o ys
      → ((x y : User) → Memᴰ x xs → Memᴰ y ys → before x y ≡ true)
      → IsSorted key before o (xs ++ ys)
  append-IsSorted [] ys sorted sorted' across = sorted'
  append-IsSorted (x ∷ xs) ys (below, sorted) sorted' across = (
    λ z m. ⊎_elim (below z) (across x z (Memᴰ.head refl)) (Memᴰ.append_cases xs m),
    append-IsSorted xs ys sorted sorted' (λ a b m n. across a b (Memᴰ.tail m) n),
  )

  same_head :
      (x y : User) (xs ys : List User)
      → ((z : User) → Memᴰ z xs → before x z ≡ true)
      → ((z : User) → Memᴰ z ys → before y z ≡ true)
      → ((a : User) → Memᴰ a (x ∷ xs) ↔ Memᴰ a (y ∷ ys))
      → x ≡ y
  same_head x y xs ys below below' same =
      ⊎_elim (λ e. e)
        (λ m.
          ⊎_elim sym (λ n. cc (o.trans x y x (below y n) (below' x m), o.irrefl x))
            (Memᴰ.cases_cons ((same y).1 (Memᴰ.head refl))))
        (Memᴰ.cases_cons ((same x).0 (Memᴰ.head refl)))

  in_tail :
      (a x y : User) (xs ys : List User) → x ≡ y → before x a ≡ true → Memᴰ a (y ∷ ys) → Memᴰ a ys
  in_tail a x y xs ys heads later m =
      ⊎_elim (λ e. cc (ap (before x) (e ∙ sym heads), later, o.irrefl x)) (λ l. l)
        (Memᴰ.cases_cons m)

  -- There is only one sorted list of the same rows.
  IsSorted-unique :
      (xs ys : List User)
      → IsSorted key before o xs
      → IsSorted key before o ys
      → ((a : User) → Memᴰ a xs ↔ Memᴰ a ys)
      → xs ≡ ys
  IsSorted-unique [] [] s t same = refl
  IsSorted-unique [] (y ∷ ys) s t same = absurd (Memᴰ.not-nil ((same y).1 (Memᴰ.head refl)))
  IsSorted-unique (x ∷ xs) [] s t same = absurd (Memᴰ.not-nil ((same x).0 (Memᴰ.head refl)))
  IsSorted-unique (x ∷ xs) (y ∷ ys) (below, s) (below', t) same =
      let heads = same_head x y xs ys below below' same in
      let tails = IsSorted-unique xs ys s t (λ a. (
        λ m. in_tail a x y xs ys heads (below a m) ((same a).0 (Memᴰ.tail m)),
        λ m. in_tail a y x ys xs (sym heads) (below' a m) ((same a).1 (Memᴰ.tail m)),
      )) in
      ap (λ z. z ∷ xs) heads ∙ ap (λ l. y ∷ l) tails

module _ (key : User → String) (before turned : User → User → Bool) (o : Orders key before)
    (o' : Orders key turned) (turns : (x y : User) → turned x y ≡ before y x) where
  reverse-IsSorted :
      (xs : List User) → IsSorted key before o xs → IsSorted key turned o' (reverse xs)
  reverse-IsSorted [] sorted = tt
  reverse-IsSorted (x ∷ xs) (below, sorted) =
      subst (IsSorted key turned o') (sym (reverse-cons x xs)) (
        append-IsSorted key turned o' (reverse xs) (x ∷ []) (reverse-IsSorted xs sorted)
          (λ y m. absurd (Memᴰ.not-nil m), tt)
          (λ y z m n.
            turns y z
            ∙ ap (λ w. before w y) (Memᴰ.eq_of_singleton n)
            ∙ below y (mem-reverse y xs m)))

  pub order_by-turned :
      (rows : List User)
      → HasDistinct key rows
      → order_by turned rows ≡ reverse (order_by before rows)
  order_by-turned rows d =
      IsSorted-unique key turned o' (order_by turned rows) (reverse (order_by before rows))
        (order_by-IsSorted key turned o' rows d)
        (reverse-IsSorted (order_by before rows) (order_by-IsSorted key before o rows d))
        (λ a. (
          λ m.
              reverse-mem a (order_by before rows)
                (order_by-mem key before o a rows (mem-order_by key turned o' a rows m)),
          λ m.
              order_by-mem key turned o' a rows
                (mem-order_by key before o a rows (mem-reverse a (order_by before rows) m)),
        ))
