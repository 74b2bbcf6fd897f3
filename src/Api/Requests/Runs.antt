-- ===== src/Api/Requests/Runs.antt =====
-- processGroupRequest: every run of it.
use mathlib.Core.Option
use governor_api.Prelude.{
  not-false, String, ◌≡◌, ◌≢◌, refl, sym, ap, subst, ◌∙◌, inl, inr, false, not, Option, none, some,
  ◌==◌, eq_iff,
}
use governor_api.Db.{Db, User, find_user}
use governor_api.Membership.{memberships_by_user}
use governor_api.Membership.Diff.{find_member_diff}
use governor_api.Api.{
  begin_tx, find_group_row, find_user_row, find_row, exists_row, memberships_before, delete_row,
  audit_context, memberships_after, commit_tx, publish_request, create, Env, State, Outcome,
  Handler, returned, send_error, respond,
}
use governor_api.Api.Chain.{◌>>=◌}
use governor_api.Api.Rules.{
  Post, After, After-end, After-bind, After-check, After-check_tx, After-one, After-await, After-if,
}
use governor_api.Api.Events.{publish_members, After-publish_members, After-bind_json}
use governor_api.Api.Audit.{audit_group_membership_denied, audit_group_membership_approved-unknown}
use governor_api.Api.Members.{is_active_user, group_of_request}
use governor_api.Api.Requests.{
  find_request, delete_request, asked, audit_end, audit_approval, approve_request, deny_request,
  process_as, process_group_request,
}
use governor_api.Api.Requests.Process.{
  Decided, ProcessRun, unchanged, dropped, approved, denied, After-audited, After-already,
  After-apply,
}

module _ (env : Env) (gid rid : String) (s : State) (d : Decided env gid rid s.db) where
  approve-ProcessRun :
      After
        (λ _ t. ProcessRun env gid rid (some "approve") s.db t)
        (λ _ t. ProcessRun env gid rid (some "approve") s.db t)
        (approve_request env s.db d.request s)
  unfolding approve_request
  approve-ProcessRun =
      let P : Post = λ _ t. ProcessRun env gid rid (some "approve") s.db t in
      let K = λ (_ : Unit {0}) (t : State). P returned t in
      let r = d.request in
      let started = record s { tx = some s.db } in
      do
        (user, _) ←
            After-one P K env s find_user_row 400 500 (find_user s.db r.user_id) _
              (λ _ _. unchanged refl)
        _ ← After-check P K env s exists_row 500 _ (λ _. unchanged refl)
        open_way ← After-already P K env s.db r s _ (unchanged refl) (λ settled.
            After-check P K env s delete_row 400 _ (λ _. unchanged refl)
              (λ _. dropped d refl settled refl))
        _ ← After-check P K env s begin_tx 400 _ (λ _. unchanged refl)
        _ ← After-check_tx P K env started memberships_before 400 _ (λ _. unchanged refl)
        (before, _) ←
            After-await P K env started (memberships_by_user s.db user.id) _ (λ _. unchanged refl)
        let rest = After-apply P K env s.db r started _ open_way (unchanged refl) (unchanged refl)
        rest (λ (applied, grants) tx. do
          let deleted = delete_request env r applied
          _ ← After-check_tx P K env (record s { tx = tx }) delete_row 400 _ (λ _. unchanged refl)
          (result, is) ←
              After-audited P K env (audit_approval env r deleted) (record s { tx = some deleted })
                _ (unchanged refl)
          let waiting = record s { tx = some result }
          _ ← After-check_tx P K env waiting audit_context 400 _ (λ _. unchanged refl)
          _ ← After-check_tx P K env waiting memberships_after 400 _ (λ _. unchanged refl)
          (after, _) ←
              After-await P K env waiting (memberships_by_user result user.id) _
                (λ _. unchanged refl)
          _ ← After-check_tx P K env waiting commit_tx 400 _ (λ _. unchanged refl)
          let finish : (t : State)
                → t.db ≡ result
                → ProcessRun env gid rid (some "approve") s.db t =
              λ t e. elim grants [
                | inl a ↦ approved d applied refl a (is ∙ ap some (sym e))
                | inr (other, neither) ↦ absurd (not_unknown other neither deleted result is)
              ]
          let at_commit = record s { db = result; tx = none }
          _ ←
              After-if P K at_commit (not (is_active_user user)) (respond 204) _
                (λ _. finish _ refl)
          _ ← After-check P K env at_commit publish_request 400 _ (λ _. finish _ refl)
          After-bind P K (publish_members env 0 create (find_member_diff before after) _) _ (
              After-publish_members P _ env 0 create (find_member_diff before after) _
                (λ _ _ _. finish _ refl) (finish _ refl)))
    where
      not_unknown :
          (d.request.kind == "new_member") ≡ false
          → (d.request.kind == "admin_promotion") ≡ false
          → (db result : Db) → audit_approval env d.request db ≢ some result
      not_unknown other neither db result is =
          let unknown : audit_approval env d.request db ≡ none = ap (Option.map _) (
            audit_group_membership_approved-unknown env.audit_id env.user (asked env d.request)
              d.request.kind other neither) in
          cc (unknown, is)

  deny-ProcessRun :
      After
        (λ _ t. ProcessRun env gid rid (some "deny") s.db t)
        (λ _ t. ProcessRun env gid rid (some "deny") s.db t)
        (deny_request env d.request s)
  unfolding deny_request
  deny-ProcessRun =
      let P : Post = λ _ t. ProcessRun env gid rid (some "deny") s.db t in
      let K = λ (_ : Unit {0}) (t : State). P returned t in
      let deleted = delete_request env d.request s.db in
      do
        _ ← After-check P K env s begin_tx 400 _ (λ _. unchanged refl)
        _ ← After-check P K env (record s { tx = some s.db }) delete_row 400 _ (λ _. unchanged refl)
        (result, is) ←
            After-audited P K env (audit_end env audit_group_membership_denied d.request deleted)
              (record s { tx = some deleted }) _ (unchanged refl)
        _ ←
            After-check_tx P K env (record s { tx = some result }) commit_tx 400 _
              (λ _. unchanged refl)
        let at_commit = record s { db = result; tx = none }
        _ ← After-check_tx P K env at_commit audit_context 400 _ (λ _. denied d refl is)
        After-check P K env at_commit publish_request 400 _ (λ _. denied d refl is)
            (λ _. denied d refl is)

process_as-ProcessRun :
    (env : Env) (actor : User) (gid rid : String) (body : Option String) (s : State)
    → env.user ≡ some actor
    → After
        (λ _ t. ProcessRun env gid rid body s.db t)
        (λ _ t. ProcessRun env gid rid body s.db t)
        (process_as env actor gid rid body s)
unfolding process_as
process_as-ProcessRun env actor gid rid body s acts =
    let P : Post = λ _ t. ProcessRun env gid rid body s.db t in
    let K = λ (_ : Unit {0}) (t : State). P returned t in
    do
      (group, fg) ←
          After-one P K env s find_group_row 404 500 (group_of_request env s.db gid) _
            (λ _ _. unchanged refl)
      (r, found) ←
          After-one P K env s find_row 404 500 (find_request env s.db rid) _ (λ _ _. unchanged refl)
      of_group ←
          After-if P K s (not (r.group_id == group.id)) (send_error 400) _ (λ _. unchanged refl)
      not_own ← After-if P K s (r.user_id == actor.id) (send_error 400) _ (λ _. unchanged refl)
      let d : Decided env gid rid s.db = record {
        actor = actor;
        group = group;
        request = r;
        acts = acts;
        found_group = fg;
        found = found;
        of_group = (eq_iff r.group_id group.id).0 (not-false of_group);
        not_own = λ e. differ e not_own;
      }
      (action, bound) ← After-bind_json P K env s body _ (unchanged refl)
      other ← After-if P K s (action == "approve") (approve_request env s.db r) _ (λ e.
          decided bound ((eq_iff action "approve").0 e) _ (approve-ProcessRun env gid rid s d))
      After-if P K s (action == "deny") (deny_request env r) (send_error 400)
          (λ e. decided bound ((eq_iff action "deny").0 e) _ (deny-ProcessRun env gid rid s d))
          (λ _. unchanged refl)
  where
    differ : {a b : String} → a ≡ b → (a == b) ≢ false
    differ {a} {b} e f = cc ((eq_iff a b).1 e, f)

    decided :
        {action verdict : String}
        → body ≡ some action
        → action ≡ verdict
        → (run : Outcome (Unit {0}) × State)
        → After
            (λ _ t. ProcessRun env gid rid (some verdict) s.db t)
            (λ _ t. ProcessRun env gid rid (some verdict) s.db t)
            run
        → After
            (λ _ t. ProcessRun env gid rid body s.db t)
            (λ _ t. ProcessRun env gid rid body s.db t)
            run
    decided bound is run h =
        subst
          (λ (b : Option String).
            After (λ _ t. ProcessRun env gid rid b s.db t) (λ _ t. ProcessRun env gid rid b s.db t)
              run)
          (sym (bound ∙ ap some is)) h

pub process_group_request-ProcessRun :
    (env : Env) (gid rid : String) (body : Option String) (s : State)
    → ProcessRun env gid rid body s.db (process_group_request env gid rid body s).1
unfolding process_group_request
process_group_request-ProcessRun env gid rid body s =
    After-end (λ _ t. ProcessRun env gid rid body s.db t) (process_group_request env gid rid body s)
      (go env.user refl)
  where
    go :
        (o : Option User)
        → env.user ≡ o
        → (let run : Handler (Unit {0}) = elim o [
          | none ↦ send_error 401
          | some actor ↦ process_as env actor gid rid body
        ] in
            After
              (λ _ t. ProcessRun env gid rid body s.db t)
              (λ _ t. ProcessRun env gid rid body s.db t)
              (run s))
    go none acts = unchanged refl
    go (some actor) acts = process_as-ProcessRun env actor gid rid body s acts
