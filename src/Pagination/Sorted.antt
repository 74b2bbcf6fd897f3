-- ===== src/Pagination/Sorted.antt =====
-- ORDER BY on a key: the order, and the rows after a cursor.
use mathlib.Core.List.Memᴰ
use mathlib.Core.List.{append_assoc, append-nil}
use governor_api.Prelude.{
  suc, arith, String, ◌≡◌, ◌≢◌, refl, sym, ap, subst, ◌∙◌, ◌⊎◌, inl, inr, ⊎_elim, Bool, true, false,
  List, [], ◌∷◌, ◌++◌, Memᴰ, filter, Memᴰ-filter, length, Bool-cases, HasDistinct, if◌then◌else◌,
}
use governor_api.Db.{User}
use governor_api.Pagination.{insert, order_by, before_by}

filter-append :
    (p : User → Bool) (xs ys : List User) → filter p (xs ++ ys) ≡ filter p xs ++ filter p ys
filter-append p [] ys = refl
filter-append p (x ∷ xs) ys = elim (Bool-cases (p x)) [
  | inl kept ↦ rw kept (ap (λ l. x ∷ l) (filter-append p xs ys))
  | inr gone ↦ rw gone (filter-append p xs ys)
]

filter_none :
    (p : User → Bool) (xs : List User) → ((x : User) → Memᴰ x xs → p x ≡ false) → filter p xs ≡ []
filter_none p [] fails = refl
filter_none p (x ∷ xs) fails =
    rw (fails x (Memᴰ.head refl)) (filter_none p xs (λ y m. fails y (Memᴰ.tail m)))

pub filter_all :
    (p : User → Bool) (xs : List User) → ((x : User) → Memᴰ x xs → p x ≡ true) → filter p xs ≡ xs
filter_all p [] holds = refl
filter_all p (x ∷ xs) holds =
    rw (holds x (Memᴰ.head refl)) (ap (λ l. x ∷ l) (filter_all p xs (λ y m. holds y (Memᴰ.tail m))))

pub filter_ext :
    (p q : User → Bool) (xs : List User) → ((x : User) → p x ≡ q x) → filter p xs ≡ filter q xs
filter_ext p q [] same = refl
filter_ext p q (x ∷ xs) same = elim (Bool-cases (q x)) [
  | inl kept ↦ rw (same x, kept) (ap (λ l. x ∷ l) (filter_ext p q xs same))
  | inr gone ↦ rw (same x, gone) (filter_ext p q xs same)
]

-- A strict order of texts, as that of a column.
pub record IsOrder (less : String → String → Bool) : Type 0 where
  pub irrefl : (s : String) → less s s ≡ false
  pub trans : (s t u : String) → less s t ≡ true → less t u ≡ true → less s u ≡ true
  pub total : (s t : String) → s ≢ t → less s t ≡ false → less t s ≡ true

-- The order of rows by a key, in one direction.
pub record Orders (key : User → String) (before : User → User → Bool) : Type 0 where
  pub irrefl : (x : User) → before x x ≡ false
  pub trans : (x y z : User) → before x y ≡ true → before y z ≡ true → before x z ≡ true
  pub total : (x y : User) → key y ≢ key x → before x y ≡ false → before y x ≡ true

pub before_by-Orders :
    (less : String → String → Bool) (lower : String → String) (ascending : Bool)
    (key : User → String)
    → IsOrder less
    → Orders key (before_by less lower ascending key)
before_by-Orders less lower true key o = record {
  irrefl = λ x. o.irrefl (key x);
  trans = λ x y z. o.trans (key x) (key y) (key z);
  total = λ x y apart. o.total (key x) (key y) (λ e. apart (sym e));
}
before_by-Orders less lower false key o = record {
  irrefl = λ x. o.irrefl (key x);
  trans = λ x y z p q. o.trans (key z) (key y) (key x) q p;
  total = λ x y apart. o.total (key y) (key x) apart;
}

module _ (key : User → String) (before : User → User → Bool) (o : Orders key before) where
  abbrev pub IsSorted : List User → Type 0
  IsSorted [] = Unit {0}
  IsSorted (x ∷ xs) = ((y : User) → Memᴰ y xs → before x y ≡ true) × IsSorted xs

  mem-insert : (a x : User) (ys : List User) → Memᴰ a (insert before x ys) → (a ≡ x) ⊎ Memᴰ a ys
  mem-insert a x [] m = inl (Memᴰ.eq_of_singleton m)
  mem-insert a x (y ∷ ys) m = elim (Bool-cases (before x y)) [
    | inl first ↦ Memᴰ.cases_cons (rw first at m)
    | inr later ↦
        ⊎_elim (λ e. inr (Memᴰ.head e))
          (λ m. ⊎_elim inl (λ l. inr (Memᴰ.tail l)) (mem-insert a x ys m))
          (Memᴰ.cases_cons (rw later at m))
  ]

  insert-IsSorted :
      (x : User) (ys : List User)
      → IsSorted ys
      → ((y : User) → Memᴰ y ys → key y ≢ key x)
      → IsSorted (insert before x ys)
  insert-IsSorted x [] sorted apart = (λ y m. absurd (Memᴰ.not-nil m), tt)
  insert-IsSorted x (y ∷ ys) (below, sorted) apart = elim (Bool-cases (before x y)) [
    | inl first ↦ rw first (
      λ z m. ⊎_elim (λ e. rw e first) (λ l. o.trans x y z first (below z l)) (Memᴰ.cases_cons m),
      (below, sorted),
    )
    | inr later ↦
        let y_first = o.total x y (apart y (Memᴰ.head refl)) later in
        rw later (
          λ z m. ⊎_elim (λ e. rw e y_first) (below z) (mem-insert z x ys m),
          insert-IsSorted x ys sorted (λ z m. apart z (Memᴰ.tail m)),
        )
  ]

  pub mem-order_by : (a : User) (rows : List User) → Memᴰ a (order_by before rows) → Memᴰ a rows
  unfolding order_by
  mem-order_by a [] m = m
  mem-order_by a (x ∷ xs) m =
      ⊎_elim Memᴰ.head (λ l. Memᴰ.tail (mem-order_by a xs l))
        (mem-insert a x (order_by before xs) m)

  insert-mem : (a x : User) (ys : List User) → (a ≡ x) ⊎ Memᴰ a ys → Memᴰ a (insert before x ys)
  insert-mem a x [] (inl e) = Memᴰ.head e
  insert-mem a x [] (inr m) = Memᴰ.tail m
  insert-mem a x (y ∷ ys) listed = elim (Bool-cases (before x y)) [
    | inl first ↦ rw first (⊎_elim Memᴰ.head Memᴰ.tail listed)
    | inr later ↦ rw later (
        ⊎_elim (λ e. Memᴰ.tail (insert-mem a x ys (inl e)))
          (λ m. ⊎_elim Memᴰ.head (λ l. Memᴰ.tail (insert-mem a x ys (inr l))) (Memᴰ.cases_cons m))
          listed)
  ]

  pub order_by-mem : (a : User) (rows : List User) → Memᴰ a rows → Memᴰ a (order_by before rows)
  unfolding order_by
  order_by-mem a (x ∷ xs) (Memᴰ.head e) = insert-mem a x (order_by before xs) (inl e)
  order_by-mem a (x ∷ xs) (Memᴰ.tail m) =
      insert-mem a x (order_by before xs) (inr (order_by-mem a xs m))
  order_by-mem a [] m = m

  length-insert : (x : User) (ys : List User) → length (insert before x ys) ≡ suc (length ys)
  length-insert x [] = refl
  length-insert x (y ∷ ys) = ground (arith, length-insert x ys)

  pub length-order_by : (rows : List User) → length (order_by before rows) ≡ length rows
  unfolding order_by
  length-order_by [] = refl
  length-order_by (x ∷ xs) = length-insert x (order_by before xs) ∙ ap suc (length-order_by xs)

  pub order_by-IsSorted :
      (rows : List User) → HasDistinct key rows → IsSorted (order_by before rows)
  unfolding order_by
  order_by-IsSorted [] d = tt
  order_by-IsSorted (x ∷ xs) (apart, d) =
      insert-IsSorted x (order_by before xs) (order_by-IsSorted xs d)
        (λ y m. apart y (mem-order_by y xs m))

  -- A row that comes before all of a list is inserted at its head.
  insert_first :
      (x : User) (ys : List User)
      → ((y : User) → Memᴰ y ys → before x y ≡ true)
      → insert before x ys ≡ x ∷ ys
  insert_first x [] below = refl
  insert_first x (y ∷ ys) below = rw (below y (Memᴰ.head refl)) refl

  filter-insert :
      (p : User → Bool) (x : User) (ys : List User)
      → IsSorted ys
      → filter p (insert before x ys) ≡ (if p x then insert before x (filter p ys) else filter p ys)
  filter-insert p x [] sorted = refl
  filter-insert p x (y ∷ ys) (below, sorted) = elim (Bool-cases (before x y)) [
    | inl first ↦ elim (Bool-cases (p x)) [
      | inl kept ↦
          rw (first, kept)
            (sym (
              insert_first x (filter p (y ∷ ys)) (λ z m.
                ⊎_elim (λ e. rw e first) (λ l. o.trans x y z first (below z l))
                  (Memᴰ.cases_cons ((Memᴰ-filter p z (y ∷ ys)).0 m).0))))
      | inr gone ↦ rw (first, gone) refl
    ]
    | inr later ↦
        let deeper = filter-insert p x ys sorted in
        elim (Bool-cases (p x)) [
          | inl kept ↦ elim (Bool-cases (p y)) [
            | inl y_kept ↦ rw (kept, y_kept, later, y_kept) (ap (λ l. y ∷ l) (rw kept at deeper))
            | inr y_gone ↦ rw (later, kept, y_gone) (rw kept at deeper)
          ]
          | inr gone ↦ elim (Bool-cases (p y)) [
            | inl y_kept ↦ rw (gone, y_kept, later, y_kept) (ap (λ l. y ∷ l) (rw gone at deeper))
            | inr y_gone ↦ rw (later, gone, y_gone) (rw gone at deeper)
          ]
        ]
  ]

  pub filter-order_by :
      (p : User → Bool) (rows : List User)
      → HasDistinct key rows
      → order_by before (filter p rows) ≡ filter p (order_by before rows)
  unfolding order_by
  filter-order_by p [] d = refl
  filter-order_by p (x ∷ xs) (apart, d) =
      let deeper = filter-order_by p xs d in
      let insert_x = filter-insert p x (order_by before xs) (order_by-IsSorted xs d) in
      elim (Bool-cases (p x)) [
        | inl kept ↦ rw kept (ap (insert before x) deeper ∙ sym (rw kept at insert_x))
        | inr gone ↦ rw gone (deeper ∙ sym (rw gone at insert_x))
      ]

  -- Where a sorted list is cut, the rows after the cut come after those before it.
  pub IsSorted-across :
      (front back : List User)
      → IsSorted (front ++ back)
      → (x y : User) → Memᴰ x front
      → Memᴰ y back
      → before x y ≡ true
  IsSorted-across (z ∷ front) back (below, sorted) x y (Memᴰ.head e) n =
      rw e (below y (Memᴰ.append_right front n))
  IsSorted-across (z ∷ front) back (below, sorted) x y (Memᴰ.tail m) n =
      IsSorted-across front back sorted x y m n
  IsSorted-across [] back sorted x y m n = absurd (Memᴰ.not-nil m)

  pub IsSorted-front : (front back : List User) → IsSorted (front ++ back) → IsSorted front
  IsSorted-front [] back sorted = tt
  IsSorted-front (x ∷ front) back (below, sorted) =
      (λ y m. below y (Memᴰ.append_left back m), IsSorted-front front back sorted)

  asym : (x y : User) → before x y ≡ true → before y x ≡ false
  asym x y forth = elim (Bool-cases (before y x)) [
    | inl back ↦ cc (o.trans x y x forth back, o.irrefl x)
    | inr stays ↦ stays
  ]

  -- The rows that come after the last one before the cut are those after the cut.
  pub filter-after :
      (front rest : List User) (l : User)
      → IsSorted ((front ++ l ∷ []) ++ rest)
      → filter (before l) ((front ++ l ∷ []) ++ rest) ≡ rest
  filter-after front rest l sorted =
      filter-append (before l) (front ++ l ∷ []) rest
      ∙ ap (λ r. r ++ filter (before l) rest)
          (filter_none (before l) (front ++ l ∷ []) (λ x m.
            ⊎_elim
              (λ in_front. asym x l (
                IsSorted-across front (l ∷ []) (IsSorted-front (front ++ l ∷ []) rest sorted) x l
                  in_front (Memᴰ.head refl)))
              (λ e. ap (before l) (Memᴰ.eq_of_singleton e) ∙ o.irrefl l)
              (Memᴰ.append_cases front m)))
      ∙ filter_all (before l) rest (λ y m.
        IsSorted-across (front ++ l ∷ []) rest sorted l y (Memᴰ.append_right front (Memᴰ.head refl))
          m)

  -- The rows that come before the first one after the cut are those before the cut.
  pub filter-before :
      (front back : List User) (f : User)
      → IsSorted (front ++ f ∷ back)
      → filter (λ u. before u f) (front ++ f ∷ back) ≡ front
  filter-before front back f sorted =
      let across = IsSorted-across front (f ∷ back) sorted in
      let behind =
        IsSorted-across (front ++ f ∷ []) back
          (subst IsSorted (sym (append_assoc front (f ∷ []) back)) sorted) in
      filter-append (λ u. before u f) front (f ∷ back)
      ∙ ap (λ r. r ++ filter (λ u. before u f) (f ∷ back))
          (filter_all (λ u. before u f) front (λ x m. across x f m (Memᴰ.head refl)))
      ∙ ap (λ r. front ++ r)
          (filter_none (λ u. before u f) (f ∷ back)
            (λ y m.
              ⊎_elim (λ e. ap (λ u. before u f) e ∙ o.irrefl f)
                (λ l. asym f y (behind f y (Memᴰ.append_right front (Memᴰ.head refl)) l))
                (Memᴰ.cases_cons m)))
      ∙ append-nil front
