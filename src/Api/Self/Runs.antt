-- ===== src/Api/Self/Runs.antt =====
-- What every run of removeAuthenticatedUserGroup and updateAuthenticatedUser does.
use mathlib.Core.List.{append-nil}
use governor_api.Prelude.{
  ℕ, String, ◌≡◌, refl, sym, ap, ◌∙◌, Bool-cases, inl, inr, not, not-true, not-false, Option, none,
  some, List, [], ◌∷◌, ◌++◌, map, ◌==◌, if◌then◌else◌,
}
use governor_api.Db.{Db, Group, User, GroupMembership}
use governor_api.Db.Keys.{delete-HasKeys}
use governor_api.Api.{
  begin_tx, find_group_row, find_row, update_row, delete_row, audit, audit_context, commit_tx,
  preferences, preferences_after, Env, update, delete, members, Event, State, ok, returned,
  send_error, pure, respond,
}
use governor_api.Api.Rules.{
  Post, After, After-end, After-bind, After-check, After-check_tx, After-one, After-if, After-match,
}
use governor_api.Api.Chain.{◌>>=◌}
use governor_api.Api.Sound.{IsSound, member_pair}
use governor_api.Api.Audit.{
  insert_audit, audit_user_updated, audit_group_membership_deleted,
  audit_notification_preferences_updated,
}
use governor_api.Api.Events.{member_event, After-bind_json}
use governor_api.Api.Writes.{announce}
use governor_api.Api.Writes.Runs.{
  Effect, WriteRun, refused, done, early, stored_alone, After-write, After-commit_audited,
  After-announce, WriteRun-keeps,
}
use governor_api.Api.Members.{is_active_user, group_of_request, find_membership, delete_membership}
use governor_api.Api.Members.Remove.{left}
use governor_api.Api.Users.{user_event, save_user}
use governor_api.Api.Users.Creation.{user_recorded}
use governor_api.Api.Self.{
  AuthenticatedUserReq, given_field, leave_group, remove_authenticated_user_group, edited_user,
  update_preferences, finish_edit, edit_user, update_authenticated_user,
}

-- A user of the context, and its direct membership of the group.
pub record Leaving (env : Env) (gid : String) (db : Db) : Type 0 where
  pub user : User
  pub group : Group
  pub old : GroupMembership
  pub is_user : env.user ≡ some user
  pub found_group : group_of_request env db gid ≡ some group
  pub found : find_membership env db group.id user.id ≡ some old

-- The event of the departure, with the text of the path in the place of the group's identifier.
abbrev pub departure : Env → String → User → List Event
departure env gid user =
    if is_active_user user
    then record {
      subject = members;
      action = delete;
      audit_id = env.audit_id;
      group_id = gid;
      user_id = user.id;
      application_id = "";
      actor_id = elim env.user [ none ↦ "" | some actor ↦ actor.id ];
    }
      ∷ []
    else []

abbrev pub leaving : (env : Env) (gid : String) (db : Db) → Effect (Leaving env gid db)
leaving env gid db = record {
  result = λ a. left env db a.old;
  first = λ a. [];
  last = λ a. departure env gid a.user;
  code = 204;
}

After-departure :
    (env : Env) (gid : String) (s : State) (a : Leaving env gid s.db)
    → After
        (WriteRun (leaving env gid s.db) s)
        (λ _. WriteRun (leaving env gid s.db) s (ok tt))
        ((if not (is_active_user a.user)
            then respond 204
            else announce env (member_event env delete gid a.user.id) 204)
          (record s { db = left env s.db a.old; tx = none }))
After-departure env gid s a =
    let effect = leaving env gid s.db in
    let P : Post = WriteRun effect s in
    let K = λ (_ : Unit {0}) (t : State). P (ok tt) t in
    let at_commit = record s { db = left env s.db a.old; tx = none } in
    After-if P K at_commit (not (is_active_user a.user)) (respond 204)
      (announce env (member_event env delete gid a.user.id) 204)
      (λ e.
        let none_last : departure env gid a.user ≡ [] = rw (not-true e) refl in
        done a refl (
          ap (λ (l : List Event). record at_commit { published = l; response = some 204 })
            (sym (append-nil s.published) ∙ ap (λ l. s.published ++ l) (sym none_last))))
      (λ e.
        let is_event : departure env gid a.user ≡ member_event env delete gid a.user.id ∷ [] =
          rw (not-false e) refl in
        After-announce effect env s a _ _ is_event (stored_alone effect s a refl))

-- Every run of removeAuthenticatedUserGroup, whichever calls fail, is a refusal that changes nothing,
-- or commits exactly the removal of the direct membership of the acting user of the group of the
-- request, and the audit event of it; then it publishes the event of the departure to the subject of
-- members, unless the event bus fails, and none for a user who is neither active nor suspended. The
-- event names the group by the text of the path, which may be a slug.
pub remove_authenticated_user_group-WriteRun :
    (env : Env) (gid : String) (s : State)
    → s.tx ≡ none
    → WriteRun
        (leaving env gid s.db)
        s
        (remove_authenticated_user_group env gid s).0
        (remove_authenticated_user_group env gid s).1
unfolding remove_authenticated_user_group
remove_authenticated_user_group-WriteRun env gid s idle =
    let effect = leaving env gid s.db in
    let P : Post = WriteRun effect s in
    let K = λ (_ : Unit {0}) (t : State). P (ok tt) t in
    let stop : P returned (record s { tx = none; response = some 400 }) = refused 400 refl refl in
    After-end P (remove_authenticated_user_group env gid s) (
      After-match P K s env.user (send_error 401) (leave_group env gid)
        (λ _. early effect s idle 401)
        (λ (user, is_user). do
          (group, found_group) ←
              After-one P K env s find_group_row 404 500 (group_of_request env s.db gid) _
                (λ code _. early effect s idle code)
          (old, found) ←
              After-one P K env s find_row 404 500 (find_membership env s.db group.id user.id) _
                (λ code _. early effect s idle code)
          _ ← After-check P K env s begin_tx 400 _ (λ _. early effect s idle 400)
          _ ←
              After-write P K env (record s { tx = some s.db }) delete_row
                (delete_membership env old) _ stop
          let waiting = record s { tx = some (delete_membership env old s.db) }
          _ ←
              After-commit_audited P K env waiting
                (audit_group_membership_deleted env.audit_id env.user old) _ stop
          After-departure env gid s (record {
            user = user;
            group = group;
            old = old;
            is_user = is_user;
            found_group = found_group;
            found = found;
          })))

-- A body of a user of the context.
pub record Edited (env : Env) (body : Option AuthenticatedUserReq) : Type 0 where
  pub user : User
  pub req : AuthenticatedUserReq
  pub is_user : env.user ≡ some user
  pub bound : body ≡ some req

abbrev pub editing :
    (env : Env) (body : Option AuthenticatedUserReq) (db : Db) → Effect (Edited env body)
editing env body db = record {
  result = λ a.
      let new = record a.user {
        avatar_url = given_field a.req.avatar_url a.user.avatar_url;
        github_username = given_field a.req.github_username a.user.github_username;
      } in
      let saved =
        user_recorded env "user.updated" a.user.id
          (record db { users = map (λ u. if u.id == a.user.id then new else u) db.users }) in
      if a.req.has_preferences
      then user_recorded env "notification_preferences.updated" a.user.id saved
      else saved;
  first = λ a. [];
  last = λ a. user_event env update a.user.id ∷ [];
  code = 202;
}

After-finish_edit :
    (env : Env) (body : Option AuthenticatedUserReq) (s : State) (a : Edited env body) (db : Db)
    → db ≡ (editing env body s.db).result a
    → After
        (WriteRun (editing env body s.db) s)
        (λ _. WriteRun (editing env body s.db) s (ok tt))
        (finish_edit env a.user (record s { tx = some db }))
After-finish_edit env body s a db is =
    let effect = editing env body s.db in
    let P : Post = WriteRun effect s in
    let K = λ (_ : Unit {0}) (t : State). P (ok tt) t in
    do
      _ ←
          After-check_tx P K env (record s { tx = some db }) commit_tx 400 _
            (λ _. refused 400 refl refl)
      After-announce effect env s a _ _ refl
          (ap (λ (x : Db). record s { db = x; tx = none }) is ∙ stored_alone effect s a refl)

-- Every run of updateAuthenticatedUser, whichever calls fail, is a refusal that changes nothing, or
-- commits the avatar and the name at GitHub that the request gives in the row of the acting user, and
-- the audit events, and then publishes the event of the update, unless the event bus fails.
pub update_authenticated_user-WriteRun :
    (env : Env) (body : Option AuthenticatedUserReq) (s : State)
    → s.tx ≡ none
    → WriteRun
        (editing env body s.db)
        s
        (update_authenticated_user env body s).0
        (update_authenticated_user env body s).1
unfolding update_authenticated_user
update_authenticated_user-WriteRun env body s idle =
    let effect = editing env body s.db in
    let P : Post = WriteRun effect s in
    let K = λ (_ : Unit {0}) (t : State). P (ok tt) t in
    let stop : (code : ℕ) → P returned (record s { tx = none; response = some code }) =
      λ code. refused code refl refl in
    After-end P (update_authenticated_user env body s) (
      After-match P K s env.user (send_error 401) (edit_user env body)
        (λ _. early effect s idle 401)
        (λ (user, is_user). do
          (req, bound) ← After-bind_json P K env s body _ (early effect s idle 400)
          _ ← After-check P K env s begin_tx 400 _ (λ _. early effect s idle 400)
          _ ←
              After-write P K env (record s { tx = some s.db }) update_row
                (save_user env (edited_user env user req)) _ (stop 400)
          let unaudited = record s { tx = some (save_user env (edited_user env user req) s.db) }
          _ ←
              After-write P K env unaudited audit
                (insert_audit (audit_user_updated env.audit_id env.user user)) _ (stop 400)
          let saved =
              insert_audit (audit_user_updated env.audit_id env.user user)
                (save_user env (edited_user env user req) s.db)
          let waiting = record s { tx = some saved }
          _ ← After-check_tx P K env waiting audit_context 400 _ (λ _. stop 400)
          let a : Edited env body = record {
            user = user;
            req = req;
            is_user = is_user;
            bound = bound;
          }
          let K' = λ (_ : Unit {0}) (t : State). After P K (finish_edit env user t)
          After-bind P K
              ((if req.has_preferences then update_preferences env user else pure tt) waiting)
              (λ _. finish_edit env user)
              (After-if P K' waiting req.has_preferences (update_preferences env user) (pure tt)
                (λ given. do
                  _ ← After-check_tx P K' env waiting preferences 400 _ (λ _. stop 400)
                  let noted =
                      insert_audit
                        (audit_notification_preferences_updated env.audit_id env.user user) saved
                  _ ←
                      After-check_tx P K' env (record s { tx = some noted }) preferences_after 500 _
                        (λ _. stop 500)
                  After-finish_edit env body s a noted (rw given refl))
                (λ absent. After-finish_edit env body s a saved (rw absent refl)))))

pub remove_authenticated_user_group-IsSound :
    (env : Env) (gid : String) (s : State)
    → s.tx ≡ none
    → IsSound s.db
    → IsSound (remove_authenticated_user_group env gid s).1.db
remove_authenticated_user_group-IsSound env gid s idle sound =
    WriteRun-keeps IsSound (leaving env gid s.db) s _ _ sound
      (λ a. record {
        acyclic = sound.acyclic;
        member_keys =
            delete-HasKeys (λ m. m.id) member_pair s.db.memberships (λ m. not (m.id == a.old.id))
              sound.member_keys;
        hierarchy_keys = sound.hierarchy_keys;
      })
      (remove_authenticated_user_group-WriteRun env gid s idle)

pub update_authenticated_user-IsSound :
    (env : Env) (body : Option AuthenticatedUserReq) (s : State)
    → s.tx ≡ none
    → IsSound s.db
    → IsSound (update_authenticated_user env body s).1.db
update_authenticated_user-IsSound env body s idle sound =
    WriteRun-keeps IsSound (editing env body s.db) s _ _ sound edited
      (update_authenticated_user-WriteRun env body s idle)
  where
    edited : (a : Edited env body) → IsSound ((editing env body s.db).result a)
    edited a = elim (Bool-cases a.req.has_preferences) [
      | inl given ↦ rw given (record {
        acyclic = sound.acyclic;
        member_keys = sound.member_keys;
        hierarchy_keys = sound.hierarchy_keys;
      })
      | inr absent ↦ rw absent (record {
        acyclic = sound.acyclic;
        member_keys = sound.member_keys;
        hierarchy_keys = sound.hierarchy_keys;
      })
    ]
