-- ===== src/Api/Applications/Links.antt =====
-- What every run of addGroupApplication and removeGroupApplication does.
use governor_api.Prelude.{
  ap, Bool-cases, any_iff, eq_iff, ◌==◌, arith, Memᴰ, String, ◌≡◌, ◌≢◌, List, ◌++◌, refl, ◌⊎◌, inl,
  inr, true, false, not, not-false, Option, none, some, [], ◌∷◌,
}
use governor_api.Db.{Db, Group, Application, GroupApplication, is_null}
use governor_api.Api.{
  Call, Action, Event, Outcome, begin_tx, find_group_row, find_app_row, find_row, exists_row,
  insert_row, delete_row, Env, create, delete, application_links, State, ok, returned, send_error,
}
use governor_api.Api.Chain.{◌>>=◌}
use governor_api.Api.Rules.{Post, After-end, After-check, After-one, After-if, After-weaken}
use governor_api.Api.Audit.{audit_group_application_created, audit_group_application_deleted}
use governor_api.Api.Writes.Runs.{
  Effect, WriteRun, refused, early, stored_alone, After-write, After-commit_audited, After-announce,
}
use governor_api.Api.Members.{group_of_request}
use governor_api.Api.Applications.{
  application_of_request, is_link, find_link, link_exists, new_link, insert_link, delete_link,
  add_group_application, remove_group_application,
}

null_of_true : {A : Type 0} (o : Option A) → is_null o ≡ true → o ≡ none
null_of_true none e = refl
null_of_true (some a) e = cc

-- No link of a group to an application, but for deleted ones.
abbrev pub NotLinked : Db → String → String → Type 0
NotLinked db group_id application_id =
    (l : GroupApplication)
    → Memᴰ l db.group_applications
    → l.group_id ≡ group_id
    → l.application_id ≡ application_id
    → l.deleted_at ≢ none

not_linked :
    (env : Env) (db : Db) (g a : String) → link_exists env db g a ≡ false → NotLinked db g a
not_linked env db g a absent l listed of_group of_app alive =
    let same_group : (l.group_id == g) ≡ true = (eq_iff l.group_id g).1 of_group in
    let same_app : (l.application_id == a) ≡ true = (eq_iff l.application_id a).1 of_app in
    let live : is_null l.deleted_at ≡ true = ap is_null alive in
    let found =
      (any_iff (is_link env g a) db.group_applications).1
        (l, listed, ground (arith, same_group, same_app, live)) in
    cc (found, absent)

pub link_exists-NotLinked :
    (env : Env) (db : Db) (g a : String) → NotLinked db g a → link_exists env db g a ≡ false
link_exists-NotLinked env db g a absent = elim (Bool-cases (link_exists env db g a)) [
  | inr is ↦ is
  | inl there ↦
      let (l, listed, test) = (any_iff (is_link env g a) db.group_applications).0 there in
      let of_group : (l.group_id == g) ≡ true = ground (arith, test) in
      let of_app : (l.application_id == a) ≡ true = ground (arith, test) in
      let alive : is_null l.deleted_at ≡ true = ground (arith, test) in
      absurd (
        absent l listed ((eq_iff l.group_id g).0 of_group) ((eq_iff l.application_id a).0 of_app)
          (null_of_true l.deleted_at alive))
]

-- A link that is not there, to an application that needs no approval.
pub record Addition (env : Env) (gid oid : String) (db : Db) : Type 0 where
  pub group : Group
  pub app : Application
  pub found_group : group_of_request env db gid ≡ some group
  pub found_app : application_of_request env db oid ≡ some app
  pub absent : NotLinked db group.id app.id
  pub needs_none : app.approver_group_id ≡ none

-- The audit event of a link, and the event that is published.
abbrev pub link_recorded : Env → String → String → String → Db → Db
link_recorded env action group_id application_id db = record db {
  audit_events =
      db.audit_events
      ++ record {
        parent_id = some env.audit_id;
        actor_id = elim env.user [ none ↦ none | some actor ↦ some actor.id ];
        action = action;
        subject_group_id = some group_id;
        subject_user_id = none;
        subject_application_id = some application_id;
      }
        ∷ [];
}

abbrev pub link_told : Env → Action → String → String → List Event
link_told env action group_id application_id =
    record {
      subject = application_links;
      action = action;
      audit_id = env.audit_id;
      group_id = group_id;
      user_id = "";
      application_id = application_id;
      actor_id = elim env.user [ none ↦ "" | some actor ↦ actor.id ];
    }
    ∷ []

abbrev pub addition : (env : Env) (gid oid : String) (db : Db) → Effect (Addition env gid oid db)
addition env gid oid db = record {
  result = λ a. link_recorded env "group.application.linked" a.group.id a.app.id (record db {
    group_applications =
        db.group_applications
        ++ record {
          id = env.fresh_id;
          group_id = a.group.id;
          application_id = a.app.id;
          deleted_at = none;
        }
          ∷ [];
  });
  first = λ a. [];
  last = λ a. link_told env create a.group.id a.app.id;
  code = 204;
}

-- addGroupApplication answers with its transaction still open.
abbrev pub LeftOpen : State → Outcome (Unit {0}) → State → Type 0
LeftOpen s o t = (o ≡ returned) × (t ≡ record s { tx = some s.db; response = some 400 })

add-WriteRun :
    (env : Env) (gid oid : String) (s : State)
    → s.tx ≡ none
    → (((env.fails insert_row ≡ true)
          × LeftOpen s
              (add_group_application env gid oid s).0
              (add_group_application env gid oid s).1)
        ⊎ WriteRun
            (addition env gid oid s.db)
            s
            (add_group_application env gid oid s).0
            (add_group_application env gid oid s).1)
unfolding add_group_application
add-WriteRun env gid oid s idle =
    let effect = addition env gid oid s.db in
    let P : Post =
      λ o t. ((env.fails insert_row ≡ true) × LeftOpen s o t) ⊎ WriteRun effect s o t in
    let K = λ (_ : Unit {0}) (t : State). P (ok tt) t in
    let stop : P returned (record s { tx = none; response = some 400 }) =
      inr (refused 400 refl refl) in
    After-end P (add_group_application env gid oid s) (do
      (group, found_group) ←
          After-one P K env s find_group_row 404 500 (group_of_request env s.db gid) _
            (λ code _. inr (early effect s idle code))
      (app, found_app) ←
          After-one P K env s find_app_row 404 500 (application_of_request env s.db oid) _
            (λ code _. inr (early effect s idle code))
      _ ← After-check P K env s exists_row 500 _ (λ _. inr (early effect s idle 500))
      absent ←
          After-if P K s (link_exists env s.db group.id app.id) (send_error 409) _
            (λ _. inr (early effect s idle 409))
      needs_none ←
          After-if P K s (not (is_null app.approver_group_id)) (send_error 400) _
            (λ _. inr (early effect s idle 400))
      _ ← After-check P K env s begin_tx 400 _ (λ _. inr (early effect s idle 400))
      _ ←
          After-check P K env (record s { tx = some s.db }) insert_row 400 _
            (λ f. inl (f, (refl, refl)))
      let link = new_link env group.id app.id
      let waiting = record s { tx = some (insert_link env link s.db) }
      _ ←
          After-commit_audited P K env waiting
            (audit_group_application_created env.audit_id env.user link) _ stop
      let a : Addition env gid oid s.db = record {
        group = group;
        app = app;
        found_group = found_group;
        found_app = found_app;
        absent = not_linked env s.db group.id app.id absent;
        needs_none = null_of_true app.approver_group_id (not-false needs_none);
      }
      After-weaken (WriteRun effect s) P _ (λ _ _ h. inr h)
          (After-announce effect env s a _ _ refl (stored_alone effect s a refl)))

-- Every run of addGroupApplication, whichever calls fail, is a refusal that changes nothing, or
-- commits exactly a link that was not there, to an application that needs no approval, with its audit
-- event, and then publishes the event of the link, unless the event bus fails, or it is a run whose
-- insert fails. And for such a link, if the insert fails and no other call does, the answer leaves the
-- transaction open.
pub add_group_application-WriteRun :
    (env : Env) (gid oid : String) (s : State)
    → s.tx ≡ none
    → (((env.fails insert_row ≡ true)
          × LeftOpen s
              (add_group_application env gid oid s).0
              (add_group_application env gid oid s).1)
        ⊎ WriteRun
            (addition env gid oid s.db)
            s
            (add_group_application env gid oid s).0
            (add_group_application env gid oid s).1)
      × (Addition env gid oid s.db
          → env.fails insert_row ≡ true
          → ((call : Call) → call ≢ insert_row → env.fails call ≡ false)
          → LeftOpen s
              (add_group_application env gid oid s).0
              (add_group_application env gid oid s).1)
unfolding add_group_application
add_group_application-WriteRun env gid oid s idle = (
  add-WriteRun env gid oid s idle,
  λ a fails works.
      rw
        (
          a.found_group,
          works find_group_row (λ e. cc),
          a.found_app,
          works find_app_row (λ e. cc),
          works exists_row (λ e. cc),
          link_exists-NotLinked env s.db a.group.id a.app.id a.absent,
          a.needs_none,
          works begin_tx (λ e. cc),
          fails,
        )
        (refl, refl),
)

pub record Removal (env : Env) (gid oid : String) (db : Db) : Type 0 where
  pub group : Group
  pub app : Application
  pub link : GroupApplication
  pub found_group : group_of_request env db gid ≡ some group
  pub found_app : application_of_request env db oid ≡ some app
  pub found : find_link env db group.id app.id ≡ some link

abbrev pub removal : (env : Env) (gid oid : String) (db : Db) → Effect (Removal env gid oid db)
removal env gid oid db = record {
  result = λ a.
      link_recorded env "group.application.unlinked" a.link.group_id a.link.application_id
        (delete_link env a.link db);
  first = λ a. [];
  last = λ a. link_told env delete a.group.id a.app.id;
  code = 204;
}

-- Every run of removeGroupApplication, whichever calls fail, is a refusal that changes nothing, or
-- commits exactly that the link is deleted, with its audit event, and then publishes the event of the
-- unlinking, unless the event bus fails.
pub remove_group_application-WriteRun :
    (env : Env) (gid oid : String) (s : State)
    → s.tx ≡ none
    → WriteRun
        (removal env gid oid s.db)
        s
        (remove_group_application env gid oid s).0
        (remove_group_application env gid oid s).1
unfolding remove_group_application
remove_group_application-WriteRun env gid oid s idle =
    let effect = removal env gid oid s.db in
    let P : Post = WriteRun effect s in
    let K = λ (_ : Unit {0}) (t : State). P (ok tt) t in
    let stop : P returned (record s { tx = none; response = some 400 }) = refused 400 refl refl in
    After-end P (remove_group_application env gid oid s) (do
      (group, found_group) ←
          After-one P K env s find_group_row 404 500 (group_of_request env s.db gid) _
            (λ code _. early effect s idle code)
      (app, found_app) ←
          After-one P K env s find_app_row 404 500 (application_of_request env s.db oid) _
            (λ code _. early effect s idle code)
      (link, found) ←
          After-one P K env s find_row 404 500 (find_link env s.db group.id app.id) _
            (λ code _. early effect s idle code)
      _ ← After-check P K env s begin_tx 400 _ (λ _. early effect s idle 400)
      _ ← After-write P K env (record s { tx = some s.db }) delete_row (delete_link env link) _ stop
      let waiting = record s { tx = some (delete_link env link s.db) }
      _ ←
          After-commit_audited P K env waiting
            (audit_group_application_deleted env.audit_id env.user link) _ stop
      let a : Removal env gid oid s.db = record {
        group = group;
        app = app;
        link = link;
        found_group = found_group;
        found_app = found_app;
        found = found;
      }
      After-announce effect env s a _ _ refl (stored_alone effect s a refl))
