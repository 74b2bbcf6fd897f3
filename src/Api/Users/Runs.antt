-- ===== src/Api/Users/Runs.antt =====
-- createUser and deleteUser: every run.
use mathlib.Core.List.{append-nil}
use governor_api.Prelude.{
  String, ◌≡◌, refl, sym, ap, subst, ◌∙◌, true, not, not-true, not-false, Option, none, some, List,
  [], ◌∷◌, ◌++◌, ◌==◌,
}
use governor_api.Db.{Db, User, find_user}
use governor_api.Db.Keys.{delete-HasKeys}
use governor_api.Api.{
  Call, begin_tx, find_user_row, exists_row, insert_row, delete_row, delete_memberships,
  delete_requests, Env, Action, create, delete, Event, State, Handler, continue, ok, returned,
  send_error, rollback_with_error, respond, view,
}
use governor_api.Api.Rules.{
  Post, After, After-end, After-check, After-check_tx, After-one, After-if, After-bind,
}
use governor_api.Api.Chain.{◌>>=◌}
use governor_api.Api.Audit.{insert_audit, audit_user_deleted}
use governor_api.Api.Events.{After-bind_json}
use governor_api.Api.Sound.{IsSound, member_pair}
use governor_api.Api.Writes.{change_rows, write, announce, is_loaded}
use governor_api.Api.Writes.Runs.{
  Effect, WriteRun, refused, done, early, stored, stored_alone, After-write, After-commit_audited,
  After-announce, WriteRun-keeps,
}
use governor_api.Api.Members.{is_active_user}
use governor_api.Api.Users.{
  UserReq, is_user_status, given_number, new_user_row, email_exists, user_event, announce_user,
  write_user, add_user, create_user, memberships_of_user, requests_of_user, drop_user_memberships,
  drop_user_requests, soft_delete_user, delete_user,
}
use governor_api.Api.Users.Creation.{
  told, user_recorded, Registered, registered_user, registration, not-email_exists, number_given,
  status_given,
}

pub After-announce_user :
    {A : Type 0} (effect : Effect A) (env : Env) (s : State) (a : A) (user : User) (action : Action)
    → effect.first a ≡ []
    → effect.last a ≡ told env user action
    → effect.code ≡ 202
    → After
        (WriteRun effect s)
        (λ _. WriteRun effect s (ok tt))
        (announce_user env user action (record s { db = effect.result a; tx = none }))
After-announce_user effect env s a user action alone is_last is_code =
    let P : Post = WriteRun effect s in
    let K = λ (_ : Unit {0}) (t : State). P (ok tt) t in
    let at_commit = record s { db = effect.result a; tx = none } in
    After-if P K at_commit (not (is_active_user user)) (respond 202)
      (announce env (user_event env action user.id) 202)
      (λ e.
        let none_last : effect.last a ≡ [] = is_last ∙ rw (not-true e) refl in
        done a refl (
          ap (λ (l : List Event). record at_commit { published = l; response = some 202 })
            (sym (append-nil s.published)
              ∙ ap (λ l. s.published ++ l)
                  (ap (λ l. l ++ []) (sym alone) ∙ ap (λ l. effect.first a ++ l) (sym none_last)))
          ∙ ap
              (λ code. record (stored effect s a) {
                published = s.published ++ (effect.first a ++ effect.last a);
                response = some code;
              })
              (sym is_code)))
      (λ e.
        let is_event : effect.last a ≡ user_event env action user.id ∷ [] =
          is_last ∙ rw (not-false e) refl in
        subst (λ code. After P K (announce env (user_event env action user.id) code at_commit))
          is_code (After-announce effect env s a _ _ is_event (stored_alone effect s a alone)))

pub After-write_user :
    (P : Post) {B : Type 0} (K : B → State → Type 0) (env : Env) (s : State) (call : Call)
    (user : User) (change : Db → Db) (f : Unit {0} → Handler B)
    → P returned (record s { tx = none; response = some 400 })
    → (is_user_status user.status ≡ true
        → After P K (f tt (record s { tx = some (change (view s)) })))
    → After P K (continue (write_user env call user change s) f)
After-write_user P K env s call user change f bad good =
    After-bind P K (write_user env call user change s) f (
      After-if P (λ a t. After P K (f a t)) s (is_user_status user.status) (write env call change)
        (rollback_with_error true 400)
        (λ e.
          After-check_tx P (λ a t. After P K (f a t)) env s call 400 (λ _. change_rows change)
            (λ _. bad) (λ _. good e))
        (λ _. bad))

-- Every run of createUser, whichever calls fail, is a refusal that changes nothing, or commits
-- exactly the user of the request with the audit event: a user with a name, with an email that no
-- live user has, whatever the capitals, with the fields that are given, and pending if neither a
-- status nor an external identifier is given; then it publishes the event of the creation, unless
-- the event bus fails, and none for a user who is pending.
pub create_user-WriteRun :
    (env : Env) (body : Option UserReq) (s : State)
    → s.tx ≡ none
    → WriteRun (registration env body s.db) s (create_user env body s).0 (create_user env body s).1
unfolding create_user
create_user-WriteRun env body s idle =
    let effect = registration env body s.db in
    let P : Post = WriteRun effect s in
    let K = λ (_ : Unit {0}) (t : State). P (ok tt) t in
    let stop : P returned (record s { tx = none; response = some 400 }) = refused 400 refl refl in
    let back = early effect s idle in
    After-end P (create_user env body s) (do
      (req, bound) ← After-bind_json P K env s body _ (back 400)
      has_email ← After-if P K s (req.email == "") (send_error 400) _ (λ _. back 400)
      has_name ← After-if P K s (req.name == "") (send_error 400) _ (λ _. back 400)
      _ ← After-check P K env s exists_row 500 _ (λ _. back 500)
      absent ← After-if P K s (email_exists env s.db req.email) (send_error 409) _ (λ _. back 409)
      (github_id, number) ← After-bind_json P K env s (given_number req.github_id none) _ (back 400)
      let user = new_user_row env req github_id
      _ ← After-check P K env s begin_tx 400 _ (λ _. back 400)
      let started = record s { tx = some s.db }
      in_enum ← After-write_user P K env started insert_row user (add_user env user) _ stop
      let waiting = record s { tx = some (add_user env user s.db) }
      _ ← After-commit_audited P K env waiting _ _ stop
      let (status, first_is, first, is_status) = status_given req in_enum
      let a : Registered env body s.db = record {
        req = req;
        github_id = github_id;
        bound = bound;
        has_email = has_email;
        has_name = has_name;
        absent = not-email_exists env s.db req.email absent;
        number = number_given req.github_id github_id number;
        status = status;
        first = first;
        in_enum = is_status;
      }
      let same : user ≡ registered_user env req github_id status =
          ap (λ (s : Option String). record user { status = s }) first_is
      subst
          (λ (u : User). After P K (
            announce_user env u create (record s {
              db =
                  user_recorded env "user.created" env.fresh_id
                    (record s.db { users = s.db.users ++ u ∷ [] });
              tx = none;
            })))
          (sym same)
          (After-announce_user effect env s a (registered_user env req github_id status) create refl
            refl refl))

pub record Removed (env : Env) (id : String) (db : Db) : Type 0 where
  pub user : User
  pub found : find_user db id ≡ some user

abbrev pub removal : (env : Env) (id : String) (db : Db) → Effect (Removed env id db)
removal env id db = record {
  result = λ a. insert_audit (audit_user_deleted env.audit_id env.user a.user) (
      soft_delete_user env a.user (
        drop_user_requests env (requests_of_user env db a.user)
          (drop_user_memberships env (memberships_of_user env db a.user) db)));
  first = λ a. [];
  last = λ a. told env a.user delete;
  code = 202;
}

-- Every run of deleteUser, whichever calls fail, is a refusal that changes nothing, or commits that
-- the user is deleted, with the user's memberships and requests and the audit event; then it
-- publishes the event of the deletion, unless the event bus fails, and none for a pending user.
pub delete_user-WriteRun :
    (env : Env) (id : String) (s : State)
    → s.tx ≡ none
    → WriteRun (removal env id s.db) s (delete_user env id s).0 (delete_user env id s).1
unfolding delete_user
delete_user-WriteRun env id s idle =
    let effect = removal env id s.db in
    let P : Post = WriteRun effect s in
    let K = λ (_ : Unit {0}) (t : State). P (ok tt) t in
    let stop : P returned (record s { tx = none; response = some 400 }) = refused 400 refl refl in
    let in_tx = λ (db : Db). record s { tx = some db } in
    After-end P (delete_user env id s) (do
      (user, found) ←
          After-one P K env s find_user_row 404 500 (find_user s.db id) _
            (λ code _. early effect s idle code)
      _ ← After-check P K env s begin_tx 400 _ (λ _. early effect s idle 400)
      let without = drop_user_memberships env (memberships_of_user env s.db user)
      _ ← After-write P K env (in_tx s.db) delete_memberships without _ stop
      let two = without s.db
      let drop = drop_user_requests env (requests_of_user env s.db user)
      _ ← After-write P K env (in_tx two) delete_requests drop _ stop
      let three = drop two
      _ ← After-write P K env (in_tx three) delete_row (soft_delete_user env user) _ stop
      _ ← After-commit_audited P K env (in_tx (soft_delete_user env user three)) _ _ stop
      After-announce_user effect env s (record { user = user; found = found }) user delete refl refl
          refl)

pub create_user-IsSound :
    (env : Env) (body : Option UserReq) (s : State)
    → s.tx ≡ none
    → IsSound s.db
    → IsSound (create_user env body s).1.db
create_user-IsSound env body s idle sound =
    WriteRun-keeps IsSound (registration env body s.db) s _ _ sound
      (λ a. record {
        acyclic = sound.acyclic;
        member_keys = sound.member_keys;
        hierarchy_keys = sound.hierarchy_keys;
      })
      (create_user-WriteRun env body s idle)

pub delete_user-IsSound :
    (env : Env) (id : String) (s : State)
    → s.tx ≡ none
    → IsSound s.db
    → IsSound (delete_user env id s).1.db
delete_user-IsSound env id s idle sound =
    WriteRun-keeps IsSound (removal env id s.db) s _ _ sound
      (λ a. record {
        acyclic = sound.acyclic;
        member_keys =
            delete-HasKeys (λ m. m.id) member_pair s.db.memberships
              (λ m. not (is_loaded (λ m. m.id) (memberships_of_user env s.db a.user) m))
              sound.member_keys;
        hierarchy_keys = sound.hierarchy_keys;
      })
      (delete_user-WriteRun env id s idle)
