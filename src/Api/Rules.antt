-- ===== src/Api/Rules.antt =====
-- Rules for what holds at the end of a handler, one for each way to build it: `Post` of an outcome
-- and a state where the handler stops, and `K` of a value and a state where it goes on.
use governor_api.Prelude.{
  ℕ, ◌≡◌, refl, ◌⊎◌, inl, inr, Bool, true, false, Option, none, some, if◌then◌else◌,
}
use governor_api.Api.{
  Call, Env, State, Outcome, ok, returned, panicked, hung, Handler, continue, ◌>>=◌, pure,
  send_error, rollback_with_error, await, or_panic, check, check_tx, one_tx, one,
}

abbrev pub Post : Type 1
Post = Outcome (Unit {0}) → State → Type 0

module _ {A : Type 0} (P : Post) (K : A → State → Type 0) where
  abbrev pub After : Outcome A × State → Type 0
  After (ok a, s) = K a s
  After (returned, s) = P returned s
  After (panicked, s) = P panicked s
  After (hung, s) = P hung s

-- At the end of a whole handler.
pub After-end :
    (P : Post) (r : Outcome (Unit {0}) × State) → After P (λ _ s. P (ok tt) s) r → P r.0 r.1
After-end P (ok tt, s) h = h
After-end P (returned, s) h = h
After-end P (panicked, s) h = h
After-end P (hung, s) h = h

pub After-bind :
    {A B : Type 0} (P : Post) (K : B → State → Type 0) (r : Outcome A × State) (f : A → Handler B)
    → After P (λ a s. After P K (f a s)) r
    → After P K (continue r f)
After-bind P K (ok a, s) f h = h
After-bind P K (returned, s) f h = h
After-bind P K (panicked, s) f h = h
After-bind P K (hung, s) f h = h

-- What the rule for a call asks: of the state after an early return, and of the state that goes on.
module _ (P : Post) {B : Type 0} (K : B → State → Type 0) (env : Env) (s : State) where
  pub After-check :
      (call : Call) (code : ℕ) (f : Unit {0} → Handler B)
      → (env.fails call ≡ true → P returned (record s { response = some code }))
      → (env.fails call ≡ false → After P K (f tt s))
      → After P K (continue (check env call code s) f)
  After-check call code f bad good = go (env.fails call) refl
    where
      go :
          (b : Bool)
          → env.fails call ≡ b
          → After P K (((if b then send_error code else pure tt) >>= f) s)
      go true e = bad e
      go false e = good e

  pub After-check_tx :
      (call : Call) (code : ℕ) (f : Unit {0} → Handler B)
      → (env.fails call ≡ true → P returned (record s { tx = none; response = some code }))
      → (env.fails call ≡ false → After P K (f tt s))
      → After P K (continue (check_tx env call code s) f)
  After-check_tx call code f bad good = go (env.fails call) refl
    where
      go :
          (b : Bool)
          → env.fails call ≡ b
          → After P K (((if b then rollback_with_error true code else pure tt) >>= f) s)
      go true e = bad e
      go false e = good e

  pub After-one_tx :
      {A : Type 0} (call : Call) (missing failed : ℕ) (o : Option A) (f : A → Handler B)
      → ((code : ℕ)
          → (env.fails call ≡ true) ⊎ (o ≡ none)
          → P returned (record s { tx = none; response = some code }))
      → ((x : (a : A) × (o ≡ some a)) → After P K (f x.0 s))
      → After P K ((one_tx env call missing failed o >>= f) s)
  After-one_tx call missing failed none f bad good =
      bad (if env.fails call then failed else missing) (inr refl)
  After-one_tx call missing failed (some a) f bad good = go (env.fails call) refl
    where
      go :
          (b : Bool)
          → env.fails call ≡ b
          → After P K (((if b then rollback_with_error true failed else pure a) >>= f) s)
      go true e = bad failed (inl e)
      go false e = good (a, refl)

  pub After-one :
      {A : Type 0} (call : Call) (missing failed : ℕ) (o : Option A) (f : A → Handler B)
      → ((code : ℕ)
          → (env.fails call ≡ true) ⊎ (o ≡ none)
          → P returned (record s { response = some code }))
      → ((x : (a : A) × (o ≡ some a)) → After P K (f x.0 s))
      → After P K ((one env call missing failed o >>= f) s)
  After-one call missing failed none f bad good =
      bad (if env.fails call then failed else missing) (inr refl)
  After-one call missing failed (some a) f bad good = go (env.fails call) refl
    where
      go :
          (b : Bool)
          → env.fails call ≡ b
          → After P K (((if b then send_error failed else pure a) >>= f) s)
      go true e = bad failed (inl e)
      go false e = good (a, refl)

  pub After-await :
      {A : Type 0} (o : Option A) (f : A → Handler B)
      → (o ≡ none → P hung s)
      → ((x : (a : A) × (o ≡ some a)) → After P K (f x.0 s))
      → After P K ((await o >>= f) s)
  After-await none f bad good = bad refl
  After-await (some a) f bad good = good (a, refl)

pub After-or_panic :
    {A B : Type 0} (P : Post) (K : B → State → Type 0) (s : State) (o : Option A)
    (f : A → Handler B)
    → (o ≡ none → P panicked s)
    → ((x : (a : A) × (o ≡ some a)) → After P K (f x.0 s))
    → After P K ((or_panic o >>= f) s)
After-or_panic P K s none f bad good = bad refl
After-or_panic P K s (some a) f bad good = good (a, refl)

pub After-if :
    {B : Type 0} (P : Post) (K : B → State → Type 0) (s : State) (b : Bool) (m n : Handler B)
    → (b ≡ true → After P K (m s))
    → (b ≡ false → After P K (n s))
    → After P K ((if b then m else n) s)
After-if P K s true m n yes_case no_case = yes_case refl
After-if P K s false m n yes_case no_case = no_case refl

pub After-match :
    {A B : Type 0} (P : Post) (K : B → State → Type 0) (s : State) (o : Option A) (m : Handler B)
    (f : A → Handler B)
    → (o ≡ none → After P K (m s))
    → ((x : (a : A) × (o ≡ some a)) → After P K (f x.0 s))
    → After P K ((elim o as (λ _. Handler B) [ none ↦ m | some a ↦ f a ]) s)
After-match P K s none m f none_case some_case = none_case refl
After-match P K s (some a) m f none_case some_case = some_case (a, refl)

pub After-weaken :
    (P Q : Post) (r : Outcome (Unit {0}) × State)
    → ((o : Outcome (Unit {0})) (t : State) → P o t → Q o t)
    → After P (λ _ t. P (ok tt) t) r
    → After Q (λ _ t. Q (ok tt) t) r
After-weaken P Q (ok tt, s) weaker h = weaker (ok tt) s h
After-weaken P Q (returned, s) weaker h = weaker returned s h
After-weaken P Q (panicked, s) weaker h = weaker panicked s h
After-weaken P Q (hung, s) weaker h = weaker hung s h
