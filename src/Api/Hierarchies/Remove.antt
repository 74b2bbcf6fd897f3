-- ===== src/Api/Hierarchies/Remove.antt =====
-- removeMemberGroup and updateMemberGroup: every run of them.
use governor_api.Prelude.{
  ℕ, String, ◌≡◌, refl, sym, subst, not, none, some, List, Memᴰ-filter, filter, ◌&&◌, ◌==◌,
}
use governor_api.Db.{Db, GroupHierarchy, live}
use governor_api.Hierarchy.Cycle.{LiveEdge, IsAcyclic, HasCycle-mono}
use governor_api.Membership.{EnumeratedMembership, all_memberships}
use governor_api.Api.{
  Env, delete, State, Outcome, ok, returned, find_row, memberships_before, delete_row, audit,
  audit_context, memberships_after, commit_tx, begin_tx,
}
use governor_api.Db.Keys.{delete-HasKeys}
use governor_api.Api.Sound.{IsSound, hierarchy_pair}
use governor_api.Api.Chain.{◌>>=◌}
use governor_api.Api.Rules.{
  Post, After, After-end, After-check, After-check_tx, After-one_tx, After-await,
}
use governor_api.Api.Audit.{insert_audit, audit_group_hierarchy_deleted}
use governor_api.Api.Hierarchies.{find_hierarchy, delete_hierarchy, remove_member_group}
use governor_api.Api.Hierarchies.Links.{enumerates}
use governor_api.Api.Hierarchies.Add.{Unchanged, Told, After-tell}

abbrev pub removed : Env → Db → GroupHierarchy → Db
removed env db old =
    insert_audit (audit_group_hierarchy_deleted env.audit_id env.user old)
      (delete_hierarchy env old db)

removed-IsAcyclic :
    (env : Env) (db : Db) (old : GroupHierarchy) → IsAcyclic db → IsAcyclic (removed env db old)
removed-IsAcyclic env db old acyclic cycle =
    let test = λ (r : GroupHierarchy). live db r.parent_group_id && live db r.member_group_id in
    let stays = λ (r : GroupHierarchy). not (r.id == old.id) in
    acyclic (
      HasCycle-mono (LiveEdge (removed env db old)) (LiveEdge db)
        (λ u v (row, n, p, q).
          let (listed, alive) = (Memᴰ-filter test row (filter stays db.hierarchies)).0 n in
          let (in_table, _) = (Memᴰ-filter stays row db.hierarchies).0 listed in
          (row, (Memᴰ-filter test row db.hierarchies).1 (in_table, alive), p, q))
        cycle)

-- A committed run: the row of the pair is gone, and the events are those of the memberships lost.
pub record Removed (env : Env) (parent member : String) (s : State) (o : Outcome (Unit {0}))
    (t : State) : Type 0 where
  pub old : GroupHierarchy
  pub before : List EnumeratedMembership
  pub after : List EnumeratedMembership
  pub found : find_hierarchy env s.db parent member ≡ some old
  pub stored : t.db ≡ removed env s.db old
  pub acyclic : IsAcyclic t.db
  pub enumerated_before : all_memberships s.db ≡ some before
  pub enumerated_after : all_memberships t.db ≡ some after
  pub closed : t.tx ≡ none
  pub announced : Told env delete parent s after before o t

pub data RemoveRun (env : Env) (parent member : String) (s : State) (o : Outcome (Unit {0}))
    (t : State) : Type 0 where
  refused :
      (code : ℕ)
      → Unchanged s t
      → t.tx ≡ none
      → o ≡ returned
      → t.response ≡ some code
      → RemoveRun env parent member s o t
  committed : Removed env parent member s o t → RemoveRun env parent member s o t

remove-RemoveRun :
    (env : Env) (parent member : String) (s : State)
    → s.tx ≡ none
    → IsAcyclic s.db
    → After
        (RemoveRun env parent member s)
        (λ _ t. RemoveRun env parent member s (ok tt) t)
        (remove_member_group env parent member s)
unfolding remove_member_group
remove-RemoveRun env parent member s idle acyclic =
    let P : Post = RemoveRun env parent member s in
    let K = λ (_ : Unit {0}) (t : State). P (ok tt) t in
    let started = record s { tx = some s.db } in
    let stop : (code : ℕ) → P returned (record started { tx = none; response = some code }) =
      λ code. refused code (refl, refl) refl refl refl in
    do
      _ ← After-check P K env s begin_tx 400 _ (λ _. refused 400 (refl, refl) idle refl refl)
      (old, found) ←
          After-one_tx P K env started find_row 404 400 (find_hierarchy env s.db parent member) _
            (λ code _. stop code)
      let done = removed env s.db old
      let waiting = record s { tx = some done }
      let stays_acyclic = removed-IsAcyclic env s.db old acyclic
      _ ← After-check_tx P K env started memberships_before 400 _ (λ _. stop 400)
      (before, is_before) ←
          After-await P K env started (all_memberships s.db) _
            (λ e. absurd (enumerates s.db acyclic e))
      _ ← After-check_tx P K env started delete_row 400 _ (λ _. stop 400)
      _ ← After-check_tx P K env _ audit 400 _ (λ _. stop 400)
      _ ← After-check_tx P K env waiting audit_context 400 _ (λ _. stop 400)
      _ ← After-check_tx P K env waiting memberships_after 400 _ (λ _. stop 400)
      (after, is_after) ←
          After-await P K env waiting (all_memberships done) _
            (λ e. absurd (enumerates done stays_acyclic e))
      _ ← After-check_tx P K env waiting commit_tx 400 _ (λ _. stop 400)
      After-tell P env delete parent after before s done (λ o t stored closed told.
          committed (record {
            old = old;
            before = before;
            after = after;
            found = found;
            stored = stored;
            acyclic = subst IsAcyclic (sym stored) stays_acyclic;
            enumerated_before = is_before;
            enumerated_after = rw stored is_after;
            closed = closed;
            announced = told;
          }))

-- While the hierarchies have no cycle, every run of removeMemberGroup, whichever calls fail, is a
-- refusal that changes nothing, or commits exactly the removal of the row of the pair and its audit
-- event, keeps the hierarchies free of cycles, and publishes the events of the memberships lost and
-- of the hierarchy, in this order, or a first part of them where the event bus fails.
pub remove_member_group-RemoveRun :
    (env : Env) (parent member : String) (s : State)
    → s.tx ≡ none
    → IsAcyclic s.db
    → RemoveRun env parent member s
        (remove_member_group env parent member s).0
        (remove_member_group env parent member s).1
remove_member_group-RemoveRun env parent member s idle acyclic =
    After-end (RemoveRun env parent member s) (remove_member_group env parent member s)
      (remove-RemoveRun env parent member s idle acyclic)

pub remove_member_group-IsSound :
    (env : Env) (parent member : String) (s : State)
    → s.tx ≡ none
    → IsSound s.db
    → IsSound (remove_member_group env parent member s).1.db
remove_member_group-IsSound env parent member s idle sound =
    elim (remove_member_group-RemoveRun env parent member s idle sound.acyclic) [
      | refused _ (same, _) _ _ _ ↦ subst IsSound (sym same) sound
      | committed r ↦ subst IsSound (sym r.stored) (record {
        acyclic = removed-IsAcyclic env s.db r.old sound.acyclic;
        member_keys = sound.member_keys;
        hierarchy_keys =
            delete-HasKeys (λ h. h.id) hierarchy_pair s.db.hierarchies (λ h. not (h.id == r.old.id))
              sound.hierarchy_keys;
      })
    ]
