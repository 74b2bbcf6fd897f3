-- ===== src/Api/Applications/Process.antt =====
-- processGroupAppRequest: who decides on a request for a link, and what every run does to the rows.
use governor_api.Prelude.{
  String, ◌≡◌, ◌≢◌, refl, sym, ap, subst, ◌∙◌, true, false, not, not-false, Option, none, some,
  List, ◌==◌, eq_iff, any_iff,
}
use governor_api.Db.{Db, Group, User, Application, GroupApplicationRequest}
use governor_api.Hierarchy.Cycle.{IsAcyclic}
use governor_api.Membership.{EnumeratedMembership, memberships_by_user}
use governor_api.Membership.Enumeration.{IsMember}
use governor_api.Membership.Gained.{user-IsEnumeration}
use governor_api.Api.{
  begin_tx, find_group_row, find_app_row, find_row, exists_row, memberships_before, insert_row,
  delete_row, audit, audit_context, commit_tx, publish_request, publish_last, Env, State, ok,
  send_error,
}
use governor_api.Api.Chain.{◌>>=◌}
use governor_api.Api.Rules.{
  Post, After, After-end, After-check, After-check_tx, After-one, After-await, After-if,
  After-match,
}
use governor_api.Api.Events.{After-bind_json}
use governor_api.Api.Audit.{insert_audit, audit_group_application_denied}
use governor_api.Api.Writes.Runs.{After-write}
use governor_api.Api.Members.{group_of_request}
use governor_api.Api.Applications.{
  find_application, link_exists, find_app_request, new_link, insert_link, delete_app_request,
  is_approver, audit_approved_link, approve_app_request, deny_app_request, concerns,
  process_app_request_as, process_group_app_request,
}

-- Who decides: a member, direct or not, of the approver group of the application, who has not asked
-- for the link.
pub record Approver (env : Env) (gid rid : String) (db : Db) : Type 0 where
  pub actor : User
  pub group : Group
  pub request : GroupApplicationRequest
  pub app : Application
  pub acts : env.user ≡ some actor
  pub found_group : group_of_request env db gid ≡ some group
  pub found : find_app_request env db rid ≡ some request
  pub concerned : concerns env request group.id ≡ true
  pub not_own : request.requester_user_id ≢ actor.id
  pub found_app : find_application env db request.application_id ≡ some app
  pub approves : app.approver_group_id ≡ some request.approver_group_id
  pub member : IsMember db request.approver_group_id actor.id

abbrev pub linked_rows : Env → GroupApplicationRequest → Db → Db
linked_rows env request db =
    let link = new_link env request.group_id request.application_id in
    audit_approved_link env link (delete_app_request env request (insert_link env link db))

abbrev pub denied_rows : Env → GroupApplicationRequest → Db → Db
denied_rows env request db =
    insert_audit (audit_group_application_denied env.audit_id env.user request)
      (delete_app_request env request db)

pub data AppRun (env : Env) (gid rid : String) (body : Option String) (db after : Db) : Type 0 where
  unchanged : after ≡ db → AppRun env gid rid body db after
  dropped :
      (a : Approver env gid rid db)
      → body ≡ some "approve"
      → link_exists env db a.request.group_id a.request.application_id ≡ true
      → after ≡ delete_app_request env a.request db
      → AppRun env gid rid body db after
  approved :
      (a : Approver env gid rid db)
      → body ≡ some "approve"
      → link_exists env db a.request.group_id a.request.application_id ≡ false
      → after ≡ linked_rows env a.request db
      → AppRun env gid rid body db after
  denied :
      (a : Approver env gid rid db)
      → body ≡ some "deny"
      → after ≡ denied_rows env a.request db
      → AppRun env gid rid body db after

module _ (env : Env) (gid rid : String) (body : Option String) (s : State) where
  abbrev Done : Post
  Done o t = AppRun env gid rid body s.db t.db

  abbrev Good : Unit {0} → State → Type 0
  Good _ t = Done (ok tt) t

  module _ (a : Approver env gid rid s.db) where
    approve-AppRun :
        body ≡ some "approve" → After Done Good (approve_app_request env s.db a.request s)
    unfolding approve_app_request
    approve-AppRun is =
        let r = a.request in
        let link = new_link env r.group_id r.application_id in
        do
          _ ← After-check Done Good env s exists_row 500 _ (λ _. unchanged refl)
          After-if Done Good s (link_exists env s.db r.group_id r.application_id) _ _
              (λ there.
                After-check Done Good env s delete_row 400 _ (λ _. unchanged refl)
                  (λ _. dropped a is there refl))
              (λ absent. do
                _ ← After-check Done Good env s begin_tx 400 _ (λ _. unchanged refl)
                let started = record s { tx = some s.db }
                _ ←
                    After-write Done Good env started insert_row (insert_link env link) _
                      (unchanged refl)
                let inserted = insert_link env link s.db
                _ ←
                    After-write Done Good env (record s { tx = some inserted }) delete_row
                      (delete_app_request env r) _ (unchanged refl)
                let cleared = delete_app_request env r inserted
                _ ←
                    After-write Done Good env (record s { tx = some cleared }) audit
                      (audit_approved_link env link) _ (unchanged refl)
                let waiting = record s { tx = some (linked_rows env r s.db) }
                _ ← After-check_tx Done Good env waiting audit_context 400 _ (λ _. unchanged refl)
                _ ← After-check_tx Done Good env waiting commit_tx 400 _ (λ _. unchanged refl)
                let stored = record s { db = linked_rows env r s.db; tx = none }
                _ ←
                    After-check Done Good env stored publish_request 400 _
                      (λ _. approved a is absent refl)
                After-check Done Good env _ publish_last 400 _ (λ _. approved a is absent refl)
                    (λ _. approved a is absent refl))

    deny-AppRun : body ≡ some "deny" → After Done Good (deny_app_request env a.request s)
    unfolding deny_app_request
    deny-AppRun is =
        let r = a.request in
        do
          _ ← After-check Done Good env s begin_tx 400 _ (λ _. unchanged refl)
          let started = record s { tx = some s.db }
          _ ← After-check Done Good env started delete_row 400 _ (λ _. unchanged refl)
          let cleared = record s { tx = some (delete_app_request env r s.db) }
          _ ←
              After-write Done Good env cleared audit
                (insert_audit (audit_group_application_denied env.audit_id env.user r)) _
                (unchanged refl)
          let waiting = record s { tx = some (denied_rows env r s.db) }
          _ ← After-check_tx Done Good env waiting commit_tx 400 _ (λ _. unchanged refl)
          let stored = record s { db = denied_rows env r s.db; tx = none }
          _ ← After-check_tx Done Good env stored audit_context 400 _ (λ _. denied a is refl)
          After-check Done Good env stored publish_last 400 _ (λ _. denied a is refl)
              (λ _. denied a is refl)

-- The loop finds the group among the memberships only if the user is a member of it.
approver-IsMember :
    (env : Env) (db : Db) (r : GroupApplicationRequest) (u : String)
    (rows : List EnumeratedMembership)
    → IsAcyclic db
    → memberships_by_user db u ≡ some rows
    → is_approver env r rows ≡ true
    → IsMember db r.approver_group_id u
approver-IsMember env db r u rows acyclic is hit =
    let (m, listed, same) = (any_iff (λ m. r.approver_group_id == m.group_id) rows).0 hit in
    let (member, of_user) =
      (user-IsEnumeration db u acyclic rows is).sound m.group_id m.user_id
        (m, listed, refl, refl, refl) in
    subst (λ x. IsMember db x u) (sym ((eq_iff r.approver_group_id m.group_id).0 same))
      (subst (IsMember db m.group_id) of_user member)

process_app_request_as-AppRun :
    (env : Env) (actor : User) (gid rid : String) (body : Option String) (s : State)
    → env.user ≡ some actor
    → IsAcyclic s.db
    → After
        (Done env gid rid body s)
        (Good env gid rid body s)
        (process_app_request_as env actor gid rid body s)
unfolding process_app_request_as
process_app_request_as-AppRun env actor gid rid body s acts acyclic =
    let P = Done env gid rid body s in
    let K = Good env gid rid body s in
    do
      (group, found_group) ←
          After-one P K env s find_group_row 404 500 (group_of_request env s.db gid) _
            (λ _ _. unchanged refl)
      (r, found) ←
          After-one P K env s find_row 404 500 (find_app_request env s.db rid) _
            (λ _ _. unchanged refl)
      concerned ←
          After-if P K s (not (concerns env r group.id)) (send_error 400) _ (λ _. unchanged refl)
      not_own ←
          After-if P K s (r.requester_user_id == actor.id) (send_error 400) _ (λ _. unchanged refl)
      (app, found_app) ←
          After-one P K env s find_app_row 400 500 (find_application env s.db r.application_id) _
            (λ _ _. unchanged refl)
      (approver, needs) ← After-match P K s app.approver_group_id _ _ (λ _. unchanged refl)
      same ←
          After-if P K s (not (r.approver_group_id == approver)) (send_error 400) _
            (λ _. unchanged refl)
      _ ← After-check P K env s memberships_before 500 _ (λ _. unchanged refl)
      (rows, is) ← After-await P K env s (memberships_by_user s.db actor.id) _ (λ _. unchanged refl)
      hit ← After-if P K s (not (is_approver env r rows)) (send_error 401) _ (λ _. unchanged refl)
      let a : Approver env gid rid s.db = record {
        actor = actor;
        group = group;
        request = r;
        app = app;
        acts = acts;
        found_group = found_group;
        found = found;
        concerned = not-false concerned;
        not_own = not_same not_own;
        found_app = found_app;
        approves = needs ∙ ap some (sym ((eq_iff r.approver_group_id approver).0 (not-false same)));
        member = approver-IsMember env s.db r actor.id rows acyclic is (not-false hit);
      }
      (action, bound) ← After-bind_json P K env s body _ (unchanged refl)
      other ← After-if P K s (action == "approve") (approve_app_request env s.db r) _ (λ e.
          approve-AppRun env gid rid body s a (bound ∙ ap some ((eq_iff action "approve").0 e)))
      After-if P K s (action == "deny") (deny_app_request env r) (send_error 400)
          (λ e. deny-AppRun env gid rid body s a (bound ∙ ap some ((eq_iff action "deny").0 e)))
          (λ _. unchanged refl)
  where
    not_same : {a b : String} → (a == b) ≡ false → a ≢ b
    not_same {a} {b} differ e = cc ((eq_iff a b).1 e, differ)

-- In a database with no cycle of groups, every run of processGroupAppRequest, whichever calls fail,
-- leaves the rows as they were or ends the request: of an approval the rows have the link, if there
-- was none, with both audit events, and of a denial its audit event; an approval of a link that is
-- there only removes the request. Who decides is a member, direct or not, of the approver group of
-- the application, and has not asked for the link.
pub process_group_app_request-AppRun :
    (env : Env) (gid rid : String) (body : Option String) (s : State)
    → IsAcyclic s.db
    → AppRun env gid rid body s.db (process_group_app_request env gid rid body s).1.db
unfolding process_group_app_request
process_group_app_request-AppRun env gid rid body s acyclic =
    let P = Done env gid rid body s in
    let K = Good env gid rid body s in
    After-end P (process_group_app_request env gid rid body s) (do
      (actor, acts) ← After-match P K s env.user _ _ (λ _. unchanged refl)
      process_app_request_as-AppRun env actor gid rid body s acts acyclic)
