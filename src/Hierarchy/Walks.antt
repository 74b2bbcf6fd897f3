-- ===== src/Hierarchy/Walks.antt =====
-- Walks along a relation between groups, by their length, and cycles.
use governor_api.Prelude.{ℕ, zero, suc, ◌+◌, ◌≤◌, String, ◌≡◌, refl, subst, arith}

abbrev pub Relation : Type 1
Relation = String → String → Type 0

module _ (E : Relation) where
  abbrev pub Walk : ℕ → String → String → Type 0
  Walk zero u w = u ≡ w
  Walk (suc n) u w = (v : String) × E u v × Walk n v w

  abbrev pub HasCycle : Type 0
  HasCycle = (u : String) × (n : ℕ) × Walk (suc n) u u

  Walk-cast : {m n : ℕ} (u w : String) → m ≡ n → Walk m u w → Walk n u w
  Walk-cast u w e p = subst (λ k. Walk k u w) e p

  pub Walk-append : (m n : ℕ) (u v w : String) → Walk m u v → Walk n v w → Walk (m + n) u w
  Walk-append zero n u v w e q = Walk-cast {m = n} u w (omega arith) (rw e q)
  Walk-append (suc m) n u v w (x, e, p) q =
      Walk-cast {m = suc (m + n)} u w (omega arith) (x, e, Walk-append m n x v w p q)

  pub Walk-snoc : (n : ℕ) (u v w : String) → Walk n u v → E v w → Walk (suc n) u w
  Walk-snoc zero u v w e edge = (w, rw e edge, refl)
  Walk-snoc (suc n) u v w (x, first, walk) edge = (x, first, Walk-snoc n x v w walk edge)

  -- A cycle can be followed for as long as one likes.
  pub Walk-longer :
      (u : String) (n : ℕ) → Walk (suc n) u u → (f : ℕ) → (k : ℕ) × (f ≤ k) × Walk k u u
  Walk-longer u n p zero = (suc n, omega arith, p)
  Walk-longer u n p (suc f) =
      let (k, le, q) = Walk-longer u n p f in
      (suc n + k, omega arith, Walk-append (suc n) k u u u p q)

-- Walks along one relation are walks along another that has its edges.
pub Walk-mono :
    (E F : Relation)
    → ((u v : String) → E u v → F u v)
    → (n : ℕ) (u w : String) → Walk E n u w
    → Walk F n u w
Walk-mono E F f zero u w e = e
Walk-mono E F f (suc n) u w (v, e, p) = (v, f u v e, Walk-mono E F f n v w p)
