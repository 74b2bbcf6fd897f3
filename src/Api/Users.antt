-- ===== src/Api/Users.antt =====
-- createUser, updateUser and deleteUser of pkg/api/v1alpha1/users.go. The column `status` has the type
-- user_status of db/migrations, so that the database refuses other texts, and the default `active`.
pub mod Runs
pub mod Creation
pub mod Update
pub mod Moves
pub mod Status
use governor_api.Prelude.{
  ℤ, String, Bool, false, true, not, ◌&&◌, ◌||◌, Option, none, some, List, [], ◌∷◌, ◌++◌, map,
  filter, any, parse_int, ◌==◌, if◌then◌else◌,
}
use governor_api.Db.{Db, User, GroupMembership, GroupMembershipRequest, is_null, find_user}
use governor_api.Api.{
  Call, begin_tx, find_user_row, exists_row, find_row, insert_row, update_row, delete_row,
  delete_memberships, delete_requests, Env, Action, create, update, delete, Event, users, Handler,
  ◌>>=◌, ◌>>◌, send_error, rollback_with_error, respond, committed_rows, begin, check, one,
  actor_id,
}
use governor_api.Api.Events.{bind_json, member_event}
use governor_api.Api.Audit.{audit_user_created_with_actor, audit_user_updated, audit_user_deleted}
use governor_api.Api.Writes.{write, commit_audited, announce, publish_each, delete_all}
use governor_api.Api.Members.{status_of, is_active_user}

pub record UserReq : Type 0 where
  pub avatar_url : String
  pub email : String
  pub external_id : String
  pub github_id : String
  pub github_username : String
  pub name : String
  pub status : String

-- req == (UserReq{})
abbrev pub is_empty : UserReq → Bool
is_empty req =
    req.avatar_url == ""
    && req.email == ""
    && req.external_id == ""
    && req.github_id == ""
    && req.github_username == ""
    && req.name == ""
    && req.status == ""

abbrev pub is_user_status : Option String → Bool
is_user_status none = true
is_user_status (some status) = status == "pending" || status == "active" || status == "suspended"

-- A field of the request that is given replaces the old value.
abbrev pub given : String → Option String → Option String
given text old = if text == "" then old else some text

-- `none` for an identifier that is not a number.
abbrev pub given_number : String → Option ℤ → Option (Option ℤ)
given_number text old =
    if text == "" then some old else elim (parse_int text) [ none ↦ none | some n ↦ some (some n) ]

-- The status of a new user, after the insert.
abbrev pub first_status : UserReq → Option String
first_status req =
    if not (req.status == "")
    then some req.status
    else (if req.external_id == "" then some "pending" else some "active")

-- The status after an update, and whether that activates the user; `none` where it is refused.
abbrev pub next_status : User → String → Option (Option String × Bool)
next_status user status =
    if status == ""
    then some (user.status, false)
    else (if status == "pending"
        then none
        else (if not (status_of user == "active") && status == "suspended"
            then none
            else some (some status, status_of user == "pending" && status == "active")))

module _ (env : Env) where
  abbrev pub new_user_row : UserReq → Option ℤ → User
  new_user_row req github_id = record {
    id = env.fresh_id;
    external_id = given req.external_id none;
    name = req.name;
    email = req.email;
    status = first_status req;
    avatar_url = given req.avatar_url none;
    github_id = github_id;
    github_username = given req.github_username none;
    deleted_at = none;
  }

  -- Users are not found by the email of a deleted one.
  abbrev pub email_exists : Db → String → Bool
  email_exists db email =
      any (λ u. env.lower u.email == env.lower email && is_null u.deleted_at) db.users

  abbrev pub user_event : Action → String → Event
  user_event action user_id = record {
    subject = users;
    action = action;
    audit_id = env.audit_id;
    group_id = "";
    user_id = user_id;
    application_id = "";
    actor_id = actor_id env;
  }

  -- An early return where a field is refused.
  abbrev pub or_400 : {A : Type 0} → Option A → Handler A
  or_400 = bind_json env

  -- The last event, for active and suspended users only.
  abbrev pub announce_user : User → Action → Handler (Unit {0})
  announce_user user action =
      if not (is_active_user user)
      then respond 202
      else announce env (user_event action user.id) 202

  abbrev pub write_user : Call → User → (Db → Db) → Handler (Unit {0})
  write_user call user change =
      if is_user_status user.status then write env call change else rollback_with_error true 400

  abbrev pub add_user : User → Db → Db
  add_user row db = record db { users = db.users ++ row ∷ [] }

  abbrev pub save_user : User → Db → Db
  save_user new db = record db { users = map (λ u. if u.id == new.id then new else u) db.users }

  unfoldable pub create_user : Option UserReq → Handler (Unit {0})
  create_user body = do
    req ← bind_json env body
    if req.email == "" then send_error 400 else do
      if req.name == "" then send_error 400 else do
        rows ← committed_rows
        check env exists_row 500
        if email_exists rows req.email then send_error 409 else do
          github_id ← or_400 (given_number req.github_id none)
          let user = new_user_row req github_id
          check env begin_tx 400
          _ ← begin
          write_user insert_row user (add_user user)
          commit_audited env (audit_user_created_with_actor env.audit_id env.user user)
          announce_user user create

  abbrev pub updated_user : User → UserReq → Option String → Option ℤ → User
  updated_user user req status github_id = record user {
    avatar_url = given req.avatar_url user.avatar_url;
    email = if req.email == "" then user.email else req.email;
    external_id = given req.external_id user.external_id;
    name = if req.name == "" then user.name else req.name;
    status = status;
    github_id = github_id;
    github_username = given req.github_username user.github_username;
  }

  abbrev pub direct_events : Db → String → List Event
  direct_events rows user_id =
      map (λ m. member_event env create m.group_id user_id)
        (filter (λ m. m.user_id == user_id) rows.memberships)

  -- The events of a pending user who is made active.
  unfoldable pub activate : User → Handler (Unit {0})
  activate user = do
    publish_each env 0 (user_event create user.id ∷ [])
    check env find_row 500
    rows ← committed_rows
    publish_each env 1 (direct_events rows user.id)
    respond 202

  unfoldable pub update_user : String → Option UserReq → Handler (Unit {0})
  update_user id body = do
    rows ← committed_rows
    original ← one env find_user_row 404 500 (find_user rows id)
    req ← bind_json env body
    if is_empty req then send_error 400 else do
      (status, user_activated) ← or_400 (next_status original req.status)
      github_id ← or_400 (given_number req.github_id original.github_id)
      let user = updated_user original req status github_id
      check env begin_tx 400
      _ ← begin
      write_user update_row user (save_user user)
      commit_audited env (audit_user_updated env.audit_id env.user original)
      if is_active_user user && user_activated then activate user else announce_user user update

  abbrev pub memberships_of_user : Db → User → List GroupMembership
  memberships_of_user db user = filter (λ m. m.user_id == user.id) db.memberships

  abbrev pub requests_of_user : Db → User → List GroupMembershipRequest
  requests_of_user db user = filter (λ r. r.user_id == user.id) db.requests

  abbrev pub drop_user_memberships : List GroupMembership → Db → Db
  drop_user_memberships loaded db = record db {
    memberships = delete_all (λ m. m.id) loaded db.memberships;
  }

  abbrev pub drop_user_requests : List GroupMembershipRequest → Db → Db
  drop_user_requests loaded db = record db { requests = delete_all (λ r. r.id) loaded db.requests }

  abbrev pub soft_delete_user : User → Db → Db
  soft_delete_user user db = record db {
    users =
        map (λ u. if u.id == user.id then record u { deleted_at = some env.now } else u) db.users;
  }

  unfoldable pub delete_user : String → Handler (Unit {0})
  delete_user id = do
    rows ← committed_rows
    user ← one env find_user_row 404 500 (find_user rows id)
    check env begin_tx 400
    _ ← begin
    write env delete_memberships (drop_user_memberships (memberships_of_user rows user))
    write env delete_requests (drop_user_requests (requests_of_user rows user))
    write env delete_row (soft_delete_user user)
    commit_audited env (audit_user_deleted env.audit_id env.user user)
    announce_user user delete
