-- ===== src/Api/Writes/Runs.antt =====
-- Rules for the shared statements, and what a run of a handler built from them does.
use mathlib.Core.List.{append_assoc, append-nil}
use governor_api.Prelude.{
  ℕ, suc, inl, inr, Bool-cases, ◌≡◌, ◌≢◌, refl, sym, ap, ◌∙◌, subst, none, some, List, [], ◌∷◌,
  ◌++◌, if◌then◌else◌,
}
use governor_api.Db.{Db, AuditEvent}
use governor_api.Api.{
  Call, audit, audit_context, commit_tx, publish_last, Env, Event, State, Outcome, ok, returned,
  Handler, continue, view,
}
use governor_api.Api.Rules.{Post, After, After-bind, After-check, After-check_tx}
use governor_api.Api.Audit.{insert_audit}
use governor_api.Api.Writes.{publish_each, change_rows, write, commit_audited, announce}

-- The rows that a committed run stores, the events before the last one, and the last one if there is
-- one.
pub record Effect (A : Type 0) : Type 0 where
  pub result : A → Db
  pub first : A → List Event
  pub last : A → List Event
  pub code : ℕ

abbrev pub stored : {A : Type 0} → Effect A → State → A → State
stored effect s a = record s {
  db = effect.result a;
  tx = none;
  published = s.published ++ effect.first a;
}

pub data WriteRun {A : Type 0} (effect : Effect A) (s : State) (o : Outcome (Unit {0})) (t : State)
    : Type 0 where
  refused :
      (code : ℕ)
      → o ≡ returned
      → t ≡ record s { tx = none; response = some code }
      → WriteRun effect s o t
  -- the event bus fails at the last event
  untold :
      (a : A)
      → o ≡ returned
      → effect.last a ≢ []
      → t ≡ record (stored effect s a) { response = some 400 }
      → WriteRun effect s o t
  done :
      (a : A)
      → o ≡ ok tt
      → t ≡ record (stored effect s a) {
        published = s.published ++ (effect.first a ++ effect.last a);
        response = some effect.code;
      }
      → WriteRun effect s o t

-- What holds before, and of all rows that are stored, holds after.
pub WriteRun-keeps :
    {A : Type 0} (Q : Db → Type 0) (effect : Effect A) (s : State) (o : Outcome (Unit {0}))
    (t : State)
    → Q s.db
    → ((a : A) → Q (effect.result a))
    → WriteRun effect s o t
    → Q t.db
WriteRun-keeps Q effect s o t before after (refused _ _ is) =
    subst Q (sym (ap (λ (x : State). x.db) is)) before
WriteRun-keeps Q effect s o t before after (untold a _ _ is) =
    subst Q (sym (ap (λ (x : State). x.db) is)) (after a)
WriteRun-keeps Q effect s o t before after (done a _ is) =
    subst Q (sym (ap (λ (x : State). x.db) is)) (after a)

-- An early return before the transaction.
pub early :
    {A : Type 0} (effect : Effect A) (s : State)
    → s.tx ≡ none
    → (code : ℕ) → WriteRun effect s returned (record s { response = some code })
early effect s idle code =
    refused code refl (ap (λ tx. record s { tx = tx; response = some code }) idle)

module _ (P : Post) {B : Type 0} (K : B → State → Type 0) (env : Env) (s : State) where
  pub After-write :
      (call : Call) (change : Db → Db) (f : Unit {0} → Handler B)
      → P returned (record s { tx = none; response = some 400 })
      → ((x : Unit {0}) → After P K (f tt (record s { tx = some (change (view s)) })))
      → After P K (continue (write env call change s) f)
  After-write call change f bad good = After-bind P K (write env call change s) f (
      After-check_tx P (λ a t. After P K (f a t)) env s call 400 (λ _. change_rows change)
        (λ _. bad) (λ _. good tt))

  pub After-commit_audited :
      (event : AuditEvent) (f : Unit {0} → Handler B)
      → P returned (record s { tx = none; response = some 400 })
      → ((x : Unit {0})
          → After P K (f tt (record s { db = insert_audit event (view s); tx = none })))
      → After P K (continue (commit_audited env event s) f)
  After-commit_audited event f bad good =
      let K' = λ (a : Unit {0}) (t : State). After P K (f a t) in
      let waiting = record s { tx = some (insert_audit event (view s)) } in
      After-bind P K (commit_audited env event s) f (
        After-bind P K' (write env audit (insert_audit event) s) _ (
          After-check_tx P _ env s audit 400 (λ _. change_rows (insert_audit event)) (λ _. bad)
            (λ _.
              After-check_tx P K' env waiting audit_context 400 _ (λ _. bad)
                (λ _. After-check_tx P K' env waiting commit_tx 400 _ (λ _. bad) (λ _. good tt)))))

-- The events that reach the bus.
abbrev pub heard : Env → ℕ → List Event → List Event
heard env i [] = []
heard env i (event ∷ events) =
    let rest = heard env (suc i) events in if env.is_lost i then rest else event ∷ rest

pub publish_each-heard :
    (env : Env) (i : ℕ) (events : List Event) (s : State)
    → publish_each env i events s
      ≡ (ok tt, record s { published = s.published ++ heard env i events })
publish_each-heard env i [] s =
    ap (λ (l : List Event). (ok tt, record s { published = l })) (sym (append-nil s.published))
publish_each-heard env i (event ∷ events) s = elim (Bool-cases (env.is_lost i)) [
  | inl lost ↦ rw lost (publish_each-heard env (suc i) events s)
  | inr sent ↦ rw sent (
      publish_each-heard env (suc i) events (record s { published = s.published ++ event ∷ [] })
      ∙ ap (λ (l : List Event). (ok tt, record s { published = l }))
          (append_assoc s.published (event ∷ []) (heard env (suc i) events)))
]

-- The end of a handler whose rows are stored, with the last event.
pub After-announce :
    {A : Type 0} (effect : Effect A) (env : Env) (s : State) (a : A) (event : Event) (t : State)
    → effect.last a ≡ event ∷ []
    → t ≡ stored effect s a
    → After (WriteRun effect s) (λ _. WriteRun effect s (ok tt)) (announce env event effect.code t)
After-announce effect env s a event t is_last is =
    After-check (WriteRun effect s) (λ _. WriteRun effect s (ok tt)) env t publish_last 400 _
      (λ _.
        untold a refl (λ e. cc (is_last, e))
          (ap (λ (x : State). record x { response = some 400 }) is))
      (λ _. done a refl (
        ap
          (λ (x : State). record x {
            published = x.published ++ event ∷ [];
            response = some effect.code;
          })
          is
        ∙ ap
            (λ (l : List Event). record (stored effect s a) {
              published = l;
              response = some effect.code;
            })
            (append_assoc s.published (effect.first a) (event ∷ [])
              ∙ ap (λ l. s.published ++ (effect.first a ++ l)) (sym is_last))))

-- Where no event comes before the last one.
pub stored_alone :
    {A : Type 0} (effect : Effect A) (s : State) (a : A)
    → effect.first a ≡ []
    → record s { db = effect.result a; tx = none } ≡ stored effect s a
stored_alone effect s a alone =
    ap (λ (l : List Event). record s { db = effect.result a; tx = none; published = l })
      (sym (append-nil s.published) ∙ ap (λ l. s.published ++ l) (sym alone))
