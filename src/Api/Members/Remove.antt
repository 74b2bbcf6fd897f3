-- ===== src/Api/Members/Remove.antt =====
-- removeGroupMember: every run of it.
use governor_api.Prelude.{
  ℕ, String, ◌≡◌, refl, sym, subst, not, ◌==◌, none, some, List, [], ◌∷◌, ◌++◌, filter,
}
use governor_api.Db.{Db, Group, User, GroupMembership, find_user}
use governor_api.Hierarchy.Cycle.{IsAcyclic}
use governor_api.Membership.{EnumeratedMembership, memberships_by_user}
use governor_api.Membership.Diff.{find_member_diff}
use governor_api.Api.{
  begin_tx, find_group_row, find_user_row, find_row, memberships_before, delete_row, audit,
  audit_context, memberships_after, commit_tx, Env, delete, State, Outcome, ok, returned,
}
use governor_api.Api.Rules.{
  Post, After, After-end, After-check, After-check_tx, After-one, After-await,
}
use governor_api.Db.Keys.{delete-HasKeys}
use governor_api.Api.Sound.{IsSound, member_pair}
use governor_api.Api.Chain.{◌>>=◌}
use governor_api.Api.Hierarchies.Add.{Unchanged}
use governor_api.Api.Members.{group_of_request, find_membership, remove_group_member}
use governor_api.Api.Members.Runs.{user-enumerates, Told, After-announce}

-- The rows without the membership, and its audit event.
abbrev pub left : Env → Db → GroupMembership → Db
left env db old = record db {
  memberships = filter (λ row. not (row.id == old.id)) db.memberships;
  audit_events =
      db.audit_events
      ++ record {
        parent_id = some env.audit_id;
        actor_id = elim env.user [ none ↦ none | some actor ↦ some actor.id ];
        action = "group.member.removed";
        subject_group_id = some old.group_id;
        subject_user_id = some old.user_id;
        subject_application_id = none;
      }
        ∷ [];
}

-- A committed run.
pub record Left (env : Env) (gid uid : String) (s : State) (o : Outcome (Unit {0})) (t : State)
    : Type 0 where
  pub group : Group
  pub user : User
  pub old : GroupMembership
  pub before : List EnumeratedMembership
  pub after : List EnumeratedMembership
  pub found_group : group_of_request env s.db gid ≡ some group
  pub found_user : find_user s.db uid ≡ some user
  pub found : find_membership env s.db group.id user.id ≡ some old
  pub stored : t.db ≡ left env s.db old
  pub enumerated_before : memberships_by_user s.db user.id ≡ some before
  pub enumerated_after : memberships_by_user t.db user.id ≡ some after
  pub closed : t.tx ≡ none
  pub announced : Told env delete user s (find_member_diff after before) o t

pub data LeaveRun (env : Env) (gid uid : String) (s : State) (o : Outcome (Unit {0})) (t : State)
    : Type 0 where
  refused :
      (code : ℕ)
      → Unchanged s t
      → t.tx ≡ none
      → o ≡ returned
      → t.response ≡ some code
      → LeaveRun env gid uid s o t
  committed : Left env gid uid s o t → LeaveRun env gid uid s o t

module _ (env : Env) (gid uid : String) (s : State) (idle : s.tx ≡ none)
    (acyclic : IsAcyclic s.db) where
  remove-LeaveRun :
      After
        (LeaveRun env gid uid s)
        (λ _ t. LeaveRun env gid uid s (ok tt) t)
        (remove_group_member env gid uid s)
  unfolding remove_group_member
  remove-LeaveRun =
      let P : Post = LeaveRun env gid uid s in
      let K = λ (_ : Unit {0}) (t : State). P (ok tt) t in
      let started = record s { tx = some s.db } in
      let early : (code : ℕ) → P returned (record s { response = some code }) =
        λ code. refused code (refl, refl) idle refl refl in
      let stop : (code : ℕ) → P returned (record started { tx = none; response = some code }) =
        λ code. refused code (refl, refl) refl refl refl in
      do
        (group, fg) ←
            After-one P K env s find_group_row 404 500 (group_of_request env s.db gid) _
              (λ code _. early code)
        (user, fu) ←
            After-one P K env s find_user_row 404 500 (find_user s.db uid) _ (λ code _. early code)
        (old, found) ←
            After-one P K env s find_row 404 500 (find_membership env s.db group.id user.id) _
              (λ code _. early code)
        let done = left env s.db old
        let waiting = record s { tx = some done }
        _ ← After-check P K env s begin_tx 400 _ (λ _. early 400)
        _ ← After-check_tx P K env started memberships_before 400 _ (λ _. stop 400)
        (before, is_before) ←
            After-await P K env started (memberships_by_user s.db user.id) _
              (λ e. absurd (user-enumerates s.db user.id acyclic e))
        _ ← After-check_tx P K env started delete_row 400 _ (λ _. stop 400)
        _ ← After-check_tx P K env _ audit 400 _ (λ _. stop 400)
        _ ← After-check_tx P K env waiting audit_context 400 _ (λ _. stop 400)
        _ ← After-check_tx P K env waiting memberships_after 400 _ (λ _. stop 400)
        (after, is_after) ←
            After-await P K env waiting (memberships_by_user done user.id) _
              (λ e. absurd (user-enumerates done user.id acyclic e))
        _ ← After-check_tx P K env waiting commit_tx 400 _ (λ _. stop 400)
        After-announce P env delete user s done (find_member_diff after before)
            (λ o t stored closed told. committed (record {
              group = group;
              user = user;
              old = old;
              before = before;
              after = after;
              found_group = fg;
              found_user = fu;
              found = found;
              stored = stored;
              enumerated_before = is_before;
              enumerated_after = rw stored is_after;
              closed = closed;
              announced = told;
            }))

-- While the hierarchies have no cycle, every run of removeGroupMember, whichever calls fail, is a
-- refusal that changes nothing, or commits exactly the removal of the direct membership of the user
-- and its audit event; then it publishes the memberships that the user has lost, or a first part of
-- them where the event bus fails, and nothing for a user who is not active.
pub remove_group_member-LeaveRun :
    (env : Env) (gid uid : String) (s : State)
    → s.tx ≡ none
    → IsAcyclic s.db
    → LeaveRun env gid uid s
        (remove_group_member env gid uid s).0
        (remove_group_member env gid uid s).1
remove_group_member-LeaveRun env gid uid s idle acyclic =
    After-end (LeaveRun env gid uid s) (remove_group_member env gid uid s)
      (remove-LeaveRun env gid uid s idle acyclic)

pub remove_group_member-IsSound :
    (env : Env) (gid uid : String) (s : State)
    → s.tx ≡ none
    → IsSound s.db
    → IsSound (remove_group_member env gid uid s).1.db
remove_group_member-IsSound env gid uid s idle sound =
    elim (remove_group_member-LeaveRun env gid uid s idle sound.acyclic) [
      | refused _ (same, _) _ _ _ ↦ subst IsSound (sym same) sound
      | committed r ↦ subst IsSound (sym r.stored) (record {
        acyclic = sound.acyclic;
        member_keys =
            delete-HasKeys (λ m. m.id) member_pair s.db.memberships (λ m. not (m.id == r.old.id))
              sound.member_keys;
        hierarchy_keys = sound.hierarchy_keys;
      })
    ]
