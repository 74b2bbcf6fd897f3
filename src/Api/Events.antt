-- ===== src/Api/Events.antt =====
-- The events of a change of memberships: the loop that publishes a difference publishes all of it, or
-- a first part where the event bus fails.
use mathlib.Core.List.{append_assoc, append-nil}
use governor_api.Prelude.{
  ℕ, suc, String, ◌≡◌, refl, sym, ap, subst, Option, none, some, List, [], ◌∷◌, ◌++◌, map, nat_eq,
  if◌then◌else◌,
}
use governor_api.Membership.{EnumeratedMembership}
use governor_api.Api.{
  Env, Action, Event, members, actor_id, State, returned, Handler, emit, send_error, ◌>>◌, ◌>>=◌,
  pure,
}
use governor_api.Api.Rules.{Post, After, After-if}

module _ (env : Env) where
  -- c.BindJSON(&req)
  abbrev pub bind_json {ℓ} : {A : Type ℓ} → Option A → Handler A
  bind_json none = send_error 400
  bind_json (some req) = pure req

  abbrev pub member_event : Action → String → String → Event
  member_event action group_id user_id = record {
    subject = members;
    action = action;
    audit_id = env.audit_id;
    group_id = group_id;
    user_id = user_id;
    application_id = "";
    actor_id = actor_id env;
  }

  abbrev pub members_event : Action → EnumeratedMembership → Event
  members_event action m = member_event action m.group_id m.user_id

  -- The loop over the difference; the bus fails at event number `env.fails_at`, if there are as many.
  pub publish_members : ℕ → Action → List EnumeratedMembership → Handler (Unit {0})
  publish_members i action [] = pure tt
  publish_members i action (m ∷ ms) =
      let rest = publish_members (suc i) action ms in
      if nat_eq i env.fails_at then send_error 400 else (emit (members_event action m) >> rest)

abbrev pub published_all : Env → Action → List EnumeratedMembership → State → State
published_all env action ms s = record s {
  published = s.published ++ map (members_event env action) ms;
}

publish-cons :
    (env : Env) (action : Action) (m : EnumeratedMembership) (ms : List EnumeratedMembership)
    (s : State)
    → published_all env action ms
        (record s { published = s.published ++ members_event env action m ∷ [] })
      ≡ published_all env action (m ∷ ms) s
publish-cons env action m ms s =
    ap (λ (l : List Event). record s { published = l })
      (append_assoc s.published (members_event env action m ∷ [])
        (map (members_event env action) ms))

-- The loop goes on with every event published, or stops with the events of a first part.
pub After-publish_members :
    (P : Post) (K : Unit {0} → State → Type 0) (env : Env) (i : ℕ) (action : Action)
    (ms : List EnumeratedMembership) (s : State)
    → ((sent rest : List EnumeratedMembership)
        → sent ++ rest ≡ ms
        → P returned (record (published_all env action sent s) { response = some 400 }))
    → K tt (published_all env action ms s)
    → After P K (publish_members env i action ms s)
unfolding publish_members
After-publish_members P K env i action [] s part whole =
    subst (λ (l : List Event). K tt (record s { published = l })) (append-nil s.published) whole
After-publish_members P K env i action (m ∷ ms) s part whole =
    After-if P K s (nat_eq i env.fails_at) (send_error 400)
      (emit (members_event env action m) >> publish_members env (suc i) action ms)
      (λ _.
        subst (λ (l : List Event). P returned (record s { published = l; response = some 400 }))
          (append-nil s.published) (part [] (m ∷ ms) refl))
      (λ _.
        let s' = record s { published = s.published ++ members_event env action m ∷ [] } in
        After-publish_members P K env (suc i) action ms s'
          (λ sent rest e.
            subst (λ (t : State). P returned (record t { response = some 400 }))
              (sym (publish-cons env action m sent s)) (part (m ∷ sent) rest (ap (λ l. m ∷ l) e)))
          (subst (K tt) (sym (publish-cons env action m ms s)) whole))

pub After-bind_json :
    {A B : Type 0} (P : Post) (K : B → State → Type 0) (env : Env) (s : State) (body : Option A)
    (f : A → Handler B)
    → P returned (record s { response = some 400 })
    → ((x : (a : A) × (body ≡ some a)) → After P K (f x.0 s))
    → After P K ((bind_json env body >>= f) s)
After-bind_json P K env s none f bad good = bad
After-bind_json P K env s (some a) f bad good = good (a, refl)

-- The same, where the refusal depends on the body.
pub After-bound :
    {A B : Type 0} (P : Post) (K : B → State → Type 0) (env : Env) (s : State) (body : Option A)
    (f : A → Handler B)
    → (body ≡ none → P returned (record s { response = some 400 }))
    → ((x : (a : A) × (body ≡ some a)) → After P K (f x.0 s))
    → After P K ((bind_json env body >>= f) s)
After-bound P K env s none f bad good = bad refl
After-bound P K env s (some a) f bad good = good (a, refl)
