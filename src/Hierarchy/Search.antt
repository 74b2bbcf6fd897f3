-- ===== src/Hierarchy/Search.antt =====
-- The search ends, and what its answers mean for one starting group.
use mathlib.Core.List.Memᴰ
use governor_api.Prelude.{
  ℕ, zero, suc, ◌≤◌, ◌<◌, String, ◌≡◌, refl, sym, ◌↔◌, inl, inr, ⊎_elim, Bool, true, false, not,
  ◌||◌, Option, some, List, [], ◌∷◌, ◌++◌, Memᴰ, length, filter, length-filter-le, arith, ◌==◌,
  eq_iff, eq_refl, eq-cases, Bool-cases, Option-cases,
}
use governor_api.Hierarchy.{Adjacency, lookup, contains, any_walk, walk_node}
use governor_api.Hierarchy.Walks.{Walk, HasCycle, Walk-snoc}
use governor_api.Hierarchy.Adjacency.{Edge}

pub contains_iff :
    (list : List String) (item : String) → (contains list item ≡ true) ↔ Memᴰ item list
unfolding contains
contains_iff [] item = (λ e. cc, λ m. absurd (Memᴰ.not-nil m))
contains_iff (i ∷ list) item =
    let (into, back) = contains_iff list item in
    elim (eq-cases i item) [
      | inl (test, e) ↦ rw test (λ _. Memᴰ.head (sym e), λ _. refl)
      | inr (test, ne) ↦
          rw test (
            λ h. Memᴰ.tail (into h),
            λ m. ⊎_elim (λ e. absurd (ne (sym e))) back (Memᴰ.cases_cons m),
          )
    ]

contains-append :
    (list : List String) (i item : String)
    → contains (list ++ i ∷ []) item ≡ contains list item || (i == item)
unfolding contains
contains-append [] i item = ground arith
contains-append (j ∷ list) i item = ground (arith, contains-append list i item)

-- The entries whose key has not been visited.
pub fresh : List String → Adjacency → ℕ
fresh visited h = length (filter (λ entry. not (contains visited entry.0)) h)

fresh-le :
    (visited : List String) (id : String) (h : Adjacency)
    → fresh (visited ++ id ∷ []) h ≤ fresh visited h
unfolding fresh
fresh-le visited id [] = omega arith
fresh-le visited id ((k, ms) ∷ h) =
    rw (contains-append visited id k) (ground (arith, fresh-le visited id h))

fresh-lt :
    (visited : List String) (id : String) (h : Adjacency) (ms : List String)
    → lookup id h ≡ some ms
    → contains visited id ≡ false
    → fresh (visited ++ id ∷ []) h < fresh visited h
unfolding fresh lookup
fresh-lt visited id [] ms e new = cc
fresh-lt visited id ((k, ms') ∷ h) ms e new = elim (eq-cases k id) [
  | inl (test, same) ↦
      rw (contains-append visited id k, same, eq_refl id, new)
        (ground (arith, fresh-le visited id h))
  | inr (test, ne) ↦
      rw (contains-append visited id k)
        (ground (arith, fresh-lt visited id h ms, eq_iff k id, eq_iff id k))
]

pub fresh-nil : (h : Adjacency) → fresh [] h ≤ length h
unfolding fresh
fresh-nil h = length-filter-le _ h

-- `any_walk` in terms of the walks that it makes.
pub any_walk-true :
    (walk : String → Option Bool) (es : List String)
    → any_walk walk es ≡ some true
    → (e : String) × Memᴰ e es × (walk e ≡ some true)
unfolding any_walk
any_walk-true walk [] h = cc
any_walk-true walk (e ∷ es) h = elim (Option-cases (walk e)) [
  | inl lost ↦ cc (rw (lost, any_walk) at h)
  | inr (true, found) ↦ (e, Memᴰ.head refl, found)
  | inr (false, found) ↦
      let (e', m, f) = any_walk-true walk es (rw (found, any_walk) at h) in (e', Memᴰ.tail m, f)
]

pub any_walk-false :
    (walk : String → Option Bool) (es : List String)
    → any_walk walk es ≡ some false
    → (e : String) → Memᴰ e es
    → walk e ≡ some false
unfolding any_walk
any_walk-false walk [] h e m = absurd (Memᴰ.not-nil m)
any_walk-false walk (x ∷ es) h e m = elim (Option-cases (walk x)) [
  | inl lost ↦ cc (rw (lost, any_walk) at h)
  | inr (true, found) ↦ cc (rw (found, any_walk) at h)
  | inr (false, found) ↦
      ⊎_elim (λ same. rw same found) (any_walk-false walk es (rw (found, any_walk) at h) e)
        (Memᴰ.cases_cons m)
]

pub any_walk-total :
    (walk : String → Option Bool) (es : List String)
    → ((e : String) → Memᴰ e es → (b : Bool) × (walk e ≡ some b))
    → (b : Bool) × (any_walk walk es ≡ some b)
unfolding any_walk
any_walk-total walk [] h = (false, refl)
any_walk-total walk (e ∷ es) h =
    go (h e (Memᴰ.head refl)) (any_walk-total walk es (λ e' m. h e' (Memᴰ.tail m)))
  where
    go :
        (b : Bool) × (walk e ≡ some b)
        → (b : Bool) × (any_walk walk es ≡ some b)
        → (b : Bool) × (any_walk walk (e ∷ es) ≡ some b)
    go (true, found) rest = (true, rw (found, any_walk))
    go (false, found) (b, ends) = (b, rw (found, any_walk) ends)

-- Fuel above the number of keys not yet visited is enough.
pub walk_node_total :
    (fuel : ℕ) (h : Adjacency) (id : String) (visited : List String)
    → fresh visited h < fuel
    → (b : Bool) × (walk_node fuel h id visited ≡ some b)
unfolding walk_node
walk_node_total zero h id visited lt = absurd (omega arith)
walk_node_total (suc fuel) h id visited lt = elim (Option-cases (lookup id h)) [
  | inl missing ↦ (false, rw (missing, walk_node))
  | inr (ms, found) ↦ elim (Bool-cases (contains visited id)) [
    | inl again ↦ (true, rw (found, walk_node) (rw again))
    | inr new ↦
        let (b, ends) =
          any_walk-total (λ e. walk_node fuel h e (visited ++ id ∷ [])) ms
            (λ e m.
              walk_node_total fuel h e (visited ++ id ∷ [])
                (omega (arith, fresh-lt visited id h ms found new))) in
        (b, rw (found, walk_node) (rw new ends))
  ]
]

-- The invariant of the descent: every group visited so far leads to the present one.
abbrev LeadsTo : Adjacency → List String → String → Type 0
LeadsTo h visited id = (x : String) → Memᴰ x visited → (n : ℕ) × Walk (Edge h) (suc n) x id

LeadsTo-step :
    (h : Adjacency) (visited : List String) (id e : String)
    → LeadsTo h visited id
    → Edge h id e
    → LeadsTo h (visited ++ id ∷ []) e
LeadsTo-step h visited id e leads edge x m = elim (Memᴰ.append_cases visited m) [
  | inl before ↦
      let (n, walk) = leads x before in (suc n, Walk-snoc (Edge h) (suc n) x id e walk edge)
  | inr last ↦ (0, rw (Memᴰ.eq_of_singleton last) (e, edge, refl))
]

pub walk_node_sound :
    (fuel : ℕ) (h : Adjacency) (id : String) (visited : List String)
    → LeadsTo h visited id
    → walk_node fuel h id visited ≡ some true
    → HasCycle (Edge h)
unfolding walk_node
walk_node_sound zero h id visited leads e = cc
walk_node_sound (suc fuel) h id visited leads e = elim (Option-cases (lookup id h)) [
  | inl missing ↦ cc (rw (missing, walk_node) at e)
  | inr (ms, found) ↦ elim (Bool-cases (contains visited id)) [
    | inl again ↦ let (n, walk) = leads id ((contains_iff visited id).0 again) in (id, n, walk)
    | inr new ↦
        let (x, m, deeper) =
          any_walk-true (λ x. walk_node fuel h x (visited ++ id ∷ [])) ms
            (rw new at (rw (found, walk_node) at e)) in
        walk_node_sound fuel h x (visited ++ id ∷ [])
          (LeadsTo-step h visited id x leads (rw found m)) deeper
  ]
]

-- The answer false bounds the length of every walk from the group.
pub walk_node_complete :
    (fuel : ℕ) (h : Adjacency) (id : String) (visited : List String)
    → walk_node fuel h id visited ≡ some false
    → (n : ℕ) (w : String) → Walk (Edge h) n id w
    → n < fuel
unfolding walk_node
walk_node_complete zero h id visited e n w walk = cc
walk_node_complete (suc fuel) h id visited e zero w walk = omega arith
walk_node_complete (suc fuel) h id visited e (suc n) w (v, edge, walk) =
    elim (Option-cases (lookup id h)) [
      | inl missing ↦ absurd (Memᴰ.not-nil (rw missing at edge))
      | inr (ms, found) ↦ elim (Bool-cases (contains visited id)) [
        | inl again ↦ cc (rw again at (rw (found, walk_node) at e))
        | inr new ↦
            let deeper =
              any_walk-false (λ x. walk_node fuel h x (visited ++ id ∷ [])) ms
                (rw new at (rw (found, walk_node) at e)) v (rw found at edge) in
            omega (arith, walk_node_complete fuel h v (visited ++ id ∷ []) deeper n w walk)
      ]
    ]
