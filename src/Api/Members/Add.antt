-- ===== src/Api/Members/Add.antt =====
-- addGroupMember: every run of it.
use governor_api.Prelude.{
  ℕ, String, ◌≡◌, ◌≢◌, refl, sym, subst, Option, none, some, List, [], ◌∷◌, ◌++◌, Memᴰ,
}
use governor_api.Db.{Db, Group, User, GroupMembership, find_user}
use governor_api.Hierarchy.Cycle.{IsAcyclic}
use governor_api.Membership.{EnumeratedMembership, memberships_by_user}
use governor_api.Membership.Diff.{find_member_diff}
use governor_api.Api.{
  begin_tx, find_group_row, find_user_row, exists_row, memberships_before, insert_row, audit,
  audit_context, memberships_after, commit_tx, Env, create, State, Outcome, ok, returned,
}
use governor_api.Api.Rules.{
  Post, After, After-end, After-check, After-check_tx, After-one, After-await, After-if,
}
use governor_api.Db.Keys.{insert-HasKeys}
use governor_api.Api.Sound.{IsSound, IsFresh, member_pair, not-membership_exists}
use governor_api.Api.Chain.{◌>>=◌}
use governor_api.Api.Events.{After-bind_json}
use governor_api.Api.Hierarchies.Add.{Unchanged}
use governor_api.Api.Members.{
  AddGroupMemberReq, group_of_request, membership_exists, new_membership, add_group_member,
}
use governor_api.Api.Members.Runs.{user-enumerates, Told, After-announce}

-- The rows with the membership that the request asks for, and its audit event.
abbrev pub joined : Env → Db → String → String → AddGroupMemberReq → Db
joined env db group_id user_id req = record db {
  memberships =
      db.memberships
      ++ record {
        id = env.fresh_id;
        group_id = group_id;
        user_id = user_id;
        is_admin = req.is_admin;
        expires_at = req.expires_at;
        admin_expires_at = req.admin_expires_at;
      }
        ∷ [];
  audit_events =
      db.audit_events
      ++ record {
        parent_id = some env.audit_id;
        actor_id = elim env.user [ none ↦ none | some actor ↦ some actor.id ];
        action = "group.member.added";
        subject_group_id = some group_id;
        subject_user_id = some user_id;
        subject_application_id = none;
      }
        ∷ [];
}

-- A committed run.
pub record Joined (env : Env) (gid uid : String) (body : Option AddGroupMemberReq) (s : State)
    (o : Outcome (Unit {0})) (t : State) : Type 0 where
  pub group : Group
  pub user : User
  pub req : AddGroupMemberReq
  pub before : List EnumeratedMembership
  pub after : List EnumeratedMembership
  pub bound : body ≡ some req
  pub found_group : group_of_request env s.db gid ≡ some group
  pub found_user : find_user s.db uid ≡ some user
  pub not_in_group :
      (m : GroupMembership) → Memᴰ m s.db.memberships → member_pair m ≢ (group.id, user.id)
  pub stored : t.db ≡ joined env s.db group.id user.id req
  pub enumerated_before : memberships_by_user s.db user.id ≡ some before
  pub enumerated_after : memberships_by_user t.db user.id ≡ some after
  pub closed : t.tx ≡ none
  pub announced : Told env create user s (find_member_diff before after) o t

pub data JoinRun (env : Env) (gid uid : String) (body : Option AddGroupMemberReq) (s : State)
    (o : Outcome (Unit {0})) (t : State) : Type 0 where
  refused :
      (code : ℕ)
      → Unchanged s t
      → t.tx ≡ none
      → o ≡ returned
      → t.response ≡ some code
      → JoinRun env gid uid body s o t
  committed : Joined env gid uid body s o t → JoinRun env gid uid body s o t

module _ (env : Env) (gid uid : String) (s : State) (idle : s.tx ≡ none)
    (acyclic : IsAcyclic s.db) where
  add-JoinRun :
      (body : Option AddGroupMemberReq)
      → After
          (JoinRun env gid uid body s)
          (λ _ t. JoinRun env gid uid body s (ok tt) t)
          (add_group_member env gid uid body s)
  unfolding add_group_member
  add-JoinRun body =
      let P : Post = JoinRun env gid uid body s in
      let K = λ (_ : Unit {0}) (t : State). P (ok tt) t in
      let started = record s { tx = some s.db } in
      let early : (code : ℕ) → P returned (record s { response = some code }) =
        λ code. refused code (refl, refl) idle refl refl in
      let stop : (code : ℕ) → P returned (record started { tx = none; response = some code }) =
        λ code. refused code (refl, refl) refl refl refl in
      do
        (group, fg) ←
            After-one P K env s find_group_row 404 500 (group_of_request env s.db gid) _
              (λ code _. early code)
        (user, fu) ←
            After-one P K env s find_user_row 404 500 (find_user s.db uid) _ (λ code _. early code)
        (req, bound) ← After-bind_json P K env s body _ (early 400)
        _ ← After-check P K env s exists_row 500 _ (λ _. early 500)
        new ← After-if P K s (membership_exists env s.db group.id user.id) _ _ (λ _. early 409)
        let done = joined env s.db group.id user.id req
        let waiting = record s { tx = some done }
        _ ← After-check P K env s begin_tx 400 _ (λ _. early 400)
        _ ← After-check_tx P K env started memberships_before 400 _ (λ _. stop 400)
        (before, is_before) ←
            After-await P K env started (memberships_by_user s.db user.id) _
              (λ e. absurd (user-enumerates s.db user.id acyclic e))
        _ ← After-check_tx P K env started insert_row 400 _ (λ _. stop 400)
        _ ← After-check_tx P K env _ audit 400 _ (λ _. stop 400)
        _ ← After-check_tx P K env waiting audit_context 400 _ (λ _. stop 400)
        _ ← After-check_tx P K env waiting memberships_after 400 _ (λ _. stop 400)
        (after, is_after) ←
            After-await P K env waiting (memberships_by_user done user.id) _
              (λ e. absurd (user-enumerates done user.id acyclic e))
        _ ← After-check_tx P K env waiting commit_tx 400 _ (λ _. stop 400)
        After-announce P env create user s done (find_member_diff before after)
            (λ o t stored closed told. committed (record {
              group = group;
              user = user;
              req = req;
              before = before;
              after = after;
              bound = bound;
              found_group = fg;
              found_user = fu;
              not_in_group = not-membership_exists env s.db group.id user.id new;
              stored = stored;
              enumerated_before = is_before;
              enumerated_after = rw stored is_after;
              closed = closed;
              announced = told;
            }))

-- While the hierarchies have no cycle, every run of addGroupMember, whichever calls fail, is a
-- refusal that changes nothing, or commits exactly the new membership, of a live group and a user who
-- was not in it, and its audit event; then it publishes the memberships that the user has gained, or
-- a first part of them where the event bus fails, and nothing for a user who is not active.
pub add_group_member-JoinRun :
    (env : Env) (gid uid : String) (body : Option AddGroupMemberReq) (s : State)
    → s.tx ≡ none
    → IsAcyclic s.db
    → JoinRun env gid uid body s
        (add_group_member env gid uid body s).0
        (add_group_member env gid uid body s).1
add_group_member-JoinRun env gid uid body s idle acyclic =
    After-end (JoinRun env gid uid body s) (add_group_member env gid uid body s)
      (add-JoinRun env gid uid s idle acyclic body)

pub add_group_member-IsSound :
    (env : Env) (gid uid : String) (body : Option AddGroupMemberReq) (s : State)
    → s.tx ≡ none
    → IsFresh env s.db
    → IsSound s.db
    → IsSound (add_group_member env gid uid body s).1.db
add_group_member-IsSound env gid uid body s idle fresh sound =
    elim (add_group_member-JoinRun env gid uid body s idle sound.acyclic) [
      | refused _ (same, _) _ _ _ ↦ subst IsSound (sym same) sound
      | committed r ↦ subst IsSound (sym r.stored) (record {
        acyclic = sound.acyclic;
        member_keys =
            insert-HasKeys (λ m. m.id) member_pair s.db.memberships
              (new_membership env r.group.id r.user.id r.req) sound.member_keys fresh.no_member
              r.not_in_group;
        hierarchy_keys = sound.hierarchy_keys;
      })
    ]
