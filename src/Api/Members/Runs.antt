-- ===== src/Api/Members/Runs.antt =====
-- What the handlers that add and remove a member announce, and the rows they look up.
use governor_api.Prelude.{
  not-true, not-false, String, ◌≡◌, ◌≢◌, refl, true, false, not, none, some, List, ◌++◌,
  if◌then◌else◌,
}
use governor_api.Db.{Db, User}
use governor_api.Hierarchy.Cycle.{IsAcyclic}
use governor_api.Membership.{EnumeratedMembership, memberships_by_user}
use governor_api.Membership.ByUser.{memberships_by_user-IsEnumeration}
use governor_api.Api.{Env, Action, State, Outcome, ok, returned, respond, ◌>>◌}
use governor_api.Api.Rules.{Post, After, After-bind, After-if}
use governor_api.Api.Events.{publish_members, published_all, After-publish_members}
use governor_api.Api.Members.{is_active_user}

pub user-enumerates : (db : Db) (u : String) → IsAcyclic db → memberships_by_user db u ≢ none
user-enumerates db u acyclic e =
    let (rows, ends, _) = memberships_by_user-IsEnumeration db u acyclic in cc

-- Nothing for a user who is not active; else all events of the difference, or a first part of them
-- where the event bus fails.
pub data Told (env : Env) (action : Action) (user : User) (s : State)
    (diff : List EnumeratedMembership) (o : Outcome (Unit {0})) (t : State) : Type 0 where
  silent :
      is_active_user user ≡ false
      → o ≡ ok tt
      → t.response ≡ some 204
      → t.published ≡ s.published
      → Told env action user s diff o t
  told :
      is_active_user user ≡ true
      → o ≡ ok tt
      → t.response ≡ some 204
      → t.published ≡ (published_all env action diff s).published
      → Told env action user s diff o t
  cut_off :
      (sent : List EnumeratedMembership) (rest : List EnumeratedMembership)
      → sent ++ rest ≡ diff
      → is_active_user user ≡ true
      → o ≡ returned
      → t.response ≡ some 400
      → t.published ≡ (published_all env action sent s).published
      → Told env action user s diff o t

-- The end of both handlers.
pub After-announce :
    (P : Post) (env : Env) (action : Action) (user : User) (s : State) (done : Db)
    (diff : List EnumeratedMembership)
    → ((o : Outcome (Unit {0})) (t : State)
        → t.db ≡ done
        → t.tx ≡ none
        → Told env action user s diff o t
        → P o t)
    → After P
        (λ _ t. P (ok tt) t)
        ((if not (is_active_user user)
            then respond 204
            else (publish_members env 0 action diff >> respond 204))
          (record s { db = done; tx = none }))
After-announce P env action user s done diff run =
    let at_commit = record s { db = done; tx = none } in
    let K = λ (_ : Unit {0}) (t : State). P (ok tt) t in
    After-if P K at_commit (not (is_active_user user)) (respond 204)
      (publish_members env 0 action diff >> respond 204)
      (λ e. run (ok tt) _ refl refl (silent (not-true e) refl refl refl))
      (λ e. After-bind P K (publish_members env 0 action diff at_commit) _ (
        After-publish_members P _ env 0 action diff at_commit
          (λ sent rest split.
            run returned _ refl refl (cut_off sent rest split (not-false e) refl refl refl))
          (run (ok tt) _ refl refl (told (not-false e) refl refl refl))))
