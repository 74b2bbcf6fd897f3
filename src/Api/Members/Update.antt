-- ===== src/Api/Members/Update.antt =====
-- updateGroupMember: every run of it, and that nobody promotes themselves.
use governor_api.Prelude.{
  ℕ, String, ◌≡◌, refl, sym, ap, subst, ◌∙◌, map, ◌⊎◌, inl, inr, Bool, true, false, not, Option,
  none, some, [], ◌∷◌, ◌++◌, Memᴰ, Memᴰ-map, ◌&&◌, ◌==◌, eq_iff, if◌then◌else◌, arith, Bool-cases,
}
use governor_api.Db.{Db, Group, User, GroupMembership, AuditEvent, find_user, find-some}
use governor_api.Api.{
  begin_tx, find_group_row, find_user_row, find_row, update_row, audit, audit_context, commit_tx,
  publish_last, Env, update, State, Outcome, ok, returned,
}
use governor_api.Api.Rules.{
  Post, After, After-end, After-check, After-check_tx, After-one, After-if,
}
use governor_api.Db.Keys.{save-HasKeys}
use governor_api.Api.Sound.{IsSound, member_pair}
use governor_api.Api.Chain.{◌>>=◌}
use governor_api.Api.Events.{member_event, After-bind_json}
use governor_api.Api.Audit.{insert_audit}
use governor_api.Api.Hierarchies.Add.{Unchanged}
use governor_api.Api.Members.{
  UpdateGroupMemberReq, group_of_request, find_membership, save_membership, changes_own,
  update_audit, update_group_member,
}

abbrev pub changed : GroupMembership → UpdateGroupMemberReq → GroupMembership
changed old req = record old { is_admin = req.is_admin; admin_expires_at = req.admin_expires_at }

-- The action that is recorded of a change of the rights.
abbrev pub change_action : Bool → Bool → String
change_action false true = "group.member.promoted"
change_action true false = "group.member.demoted"
change_action true true = "group.member.updated"
change_action false false = "group.member.updated"

-- The rows with the new rights of the membership, and the audit event.
abbrev pub promoted : Env → Db → GroupMembership → UpdateGroupMemberReq → Db
promoted env db old req = record db {
  memberships = map (λ row. if row.id == old.id then changed old req else row) db.memberships;
  audit_events =
      db.audit_events
      ++ record {
        parent_id = some env.audit_id;
        actor_id = elim env.user [ none ↦ none | some actor ↦ some actor.id ];
        action = change_action old.is_admin req.is_admin;
        subject_group_id = some old.group_id;
        subject_user_id = some old.user_id;
        subject_application_id = none;
      }
        ∷ [];
}

update_audit-promoted :
    (env : Env) (db : Db) (old : GroupMembership) (req : UpdateGroupMemberReq)
    → update_audit env old (changed old req) (save_membership env (changed old req) db)
      ≡ promoted env db old req
update_audit-promoted env db old req =
    ap (λ (event : AuditEvent). insert_audit event (save_membership env (changed old req) db))
      (go old.is_admin req.is_admin)
  where
    event : String → AuditEvent
    event action = record {
      parent_id = some env.audit_id;
      actor_id = elim env.user [ none ↦ none | some actor ↦ some actor.id ];
      action = action;
      subject_group_id = some old.group_id;
      subject_user_id = some old.user_id;
      subject_application_id = none;
    }

    go :
        (a b : Bool)
        → (if b && not a
            then event "group.member.promoted"
            else (if a && not b
                then event "group.member.demoted"
                else event "group.member.updated"))
          ≡ event (change_action a b)
    go true true = refl
    go true false = refl
    go false true = refl
    go false false = refl

-- The actor of a change that passes the guard gives rights up, if it is their own membership.
own_step_down :
    (env : Env) (user : User) (old : GroupMembership) (is_admin : Bool)
    → changes_own env user old is_admin ≡ false
    → (actor : User) → env.user ≡ some actor
    → actor.id ≡ user.id
    → (old.is_admin ≡ true) × (is_admin ≡ false)
own_step_down env user old is_admin guard actor acts same =
    let eq : (actor.id == user.id) ≡ true = (eq_iff actor.id user.id).1 same in
    let guard' : (actor.id == user.id && not (old.is_admin && not is_admin)) ≡ false =
      rw acts at guard in
    go old.is_admin is_admin (rw eq at guard')
  where
    go : (a b : Bool) → not (a && not b) ≡ false → (a ≡ true) × (b ≡ false)
    go true true e = cc e
    go true false e = (refl, refl)
    go false b e = cc e

-- A committed run.
pub record Promoted (env : Env) (gid uid : String) (body : Option UpdateGroupMemberReq) (s : State)
    (o : Outcome (Unit {0})) (t : State) : Type 0 where
  pub group : Group
  pub user : User
  pub req : UpdateGroupMemberReq
  pub old : GroupMembership
  pub bound : body ≡ some req
  pub found_group : group_of_request env s.db gid ≡ some group
  pub found_user : find_user s.db uid ≡ some user
  pub found : find_membership env s.db group.id user.id ≡ some old
  pub gives_up :
      (actor : User)
      → env.user ≡ some actor
      → actor.id ≡ user.id
      → (old.is_admin ≡ true) × (req.is_admin ≡ false)
  pub stored : t.db ≡ promoted env s.db old req
  pub closed : t.tx ≡ none
  pub announced :
      ((o ≡ ok tt)
        × (t.response ≡ some 204)
        × (t.published ≡ s.published ++ member_event env update group.id user.id ∷ []))
      ⊎ ((o ≡ returned) × (t.response ≡ some 400) × (t.published ≡ s.published))

pub data PromoteRun (env : Env) (gid uid : String) (body : Option UpdateGroupMemberReq) (s : State)
    (o : Outcome (Unit {0})) (t : State) : Type 0 where
  refused :
      (code : ℕ)
      → Unchanged s t
      → t.tx ≡ none
      → o ≡ returned
      → t.response ≡ some code
      → PromoteRun env gid uid body s o t
  committed : Promoted env gid uid body s o t → PromoteRun env gid uid body s o t

module _ (env : Env) (gid uid : String) (s : State) (idle : s.tx ≡ none) where
  update-PromoteRun :
      (body : Option UpdateGroupMemberReq)
      → After
          (PromoteRun env gid uid body s)
          (λ _ t. PromoteRun env gid uid body s (ok tt) t)
          (update_group_member env gid uid body s)
  unfolding update_group_member
  update-PromoteRun body =
      let P : Post = PromoteRun env gid uid body s in
      let K = λ (_ : Unit {0}) (t : State). P (ok tt) t in
      let started = record s { tx = some s.db } in
      let early : (code : ℕ) → P returned (record s { response = some code }) =
        λ code. refused code (refl, refl) idle refl refl in
      let stop : (code : ℕ) → P returned (record started { tx = none; response = some code }) =
        λ code. refused code (refl, refl) refl refl refl in
      do
        (group, fg) ←
            After-one P K env s find_group_row 404 500 (group_of_request env s.db gid) _
              (λ code _. early code)
        (user, fu) ←
            After-one P K env s find_user_row 404 500 (find_user s.db uid) _ (λ code _. early code)
        (req, bound) ← After-bind_json P K env s body _ (early 400)
        (old, found) ←
            After-one P K env s find_row 404 500 (find_membership env s.db group.id user.id) _
              (λ code _. early code)
        not_own ← After-if P K s (changes_own env user old req.is_admin) _ _ (λ _. early 400)
        let done =
            update_audit env old (changed old req) (save_membership env (changed old req) s.db)
        let waiting = record s { tx = some done }
        _ ← After-check P K env s begin_tx 400 _ (λ _. early 400)
        _ ← After-check_tx P K env started update_row 400 _ (λ _. stop 400)
        _ ← After-check_tx P K env _ audit 400 _ (λ _. stop 400)
        _ ← After-check_tx P K env waiting audit_context 400 _ (λ _. stop 400)
        _ ← After-check_tx P K env waiting commit_tx 400 _ (λ _. stop 400)
        let run : (o : Outcome (Unit {0})) (t : State) → t.db ≡ done → t.tx ≡ none → _ → P o t =
            λ o t stored closed announced. committed (record {
              group = group;
              user = user;
              req = req;
              old = old;
              bound = bound;
              found_group = fg;
              found_user = fu;
              found = found;
              gives_up = own_step_down env user old req.is_admin not_own;
              stored = stored ∙ update_audit-promoted env s.db old req;
              closed = closed;
              announced = announced;
            })
        After-check P K env (record s { db = done; tx = none }) publish_last 400 _
            (λ _. run returned _ refl refl (inr (refl, refl, refl)))
            (λ _. run (ok tt) _ refl refl (inl (refl, refl, refl)))

-- Every run of updateGroupMember, whichever calls fail, is a refusal that changes nothing, or commits
-- exactly the new rights and their expiry in the direct membership of the user, with the audit event
-- of a promotion, of a demotion or of another change, and publishes the event of the member unless
-- the event bus fails. Of the acting user's own membership it only takes the rights of an admin away.
pub update_group_member-PromoteRun :
    (env : Env) (gid uid : String) (body : Option UpdateGroupMemberReq) (s : State)
    → s.tx ≡ none
    → PromoteRun env gid uid body s
        (update_group_member env gid uid body s).0
        (update_group_member env gid uid body s).1
update_group_member-PromoteRun env gid uid body s idle =
    After-end (PromoteRun env gid uid body s) (update_group_member env gid uid body s)
      (update-PromoteRun env gid uid s idle body)

-- Whatever a user asks of updateGroupMember, each membership of theirs with admin rights afterwards
-- is a row, unchanged, from before.
pub no_self_promotion :
    (env : Env) (gid uid : String) (body : Option UpdateGroupMemberReq) (s : State) (actor : User)
    (row : GroupMembership)
    → s.tx ≡ none
    → env.user ≡ some actor
    → Memᴰ row (update_group_member env gid uid body s).1.db.memberships
    → row.user_id ≡ actor.id
    → row.is_admin ≡ true
    → Memᴰ row s.db.memberships
no_self_promotion env gid uid body s actor row idle acts listed own admin =
    elim (update_group_member-PromoteRun env gid uid body s idle) [
      | refused code (same, _) _ _ _ ↦ subst (λ (db : Db). Memᴰ row db.memberships) same listed
      | committed p ↦
          let new = changed p.old p.req in
          let (r, m, e) =
            Memᴰ-map (λ (r : GroupMembership). if r.id == new.id then new else r) row
              s.db.memberships (subst (λ (db : Db). Memᴰ row db.memberships) p.stored listed) in
          elim (Bool-cases (r.id == new.id)) [
            | inl hit ↦
                let is_new : row ≡ new = rw hit at e in
                let (_, pair) =
                  find-some (λ m. m.group_id == p.group.id && m.user_id == p.user.id)
                    s.db.memberships p.found in
                let of_user : p.old.user_id ≡ p.user.id =
                  (eq_iff p.old.user_id p.user.id).0 (ground arith) in
                let is_actor : actor.id ≡ p.user.id = cc (own, of_user, is_new) in
                let (_, stepped) = p.gives_up actor acts is_actor in
                let kept : true ≡ false =
                  sym admin ∙ ap (λ (m : GroupMembership). m.is_admin) is_new ∙ stepped in
                absurd (cc kept)
            | inr other ↦
                let is_r : row ≡ r = rw other at e in
                subst (λ x. Memᴰ x s.db.memberships) (sym is_r) m
          ]
    ]

pub update_group_member-IsSound :
    (env : Env) (gid uid : String) (body : Option UpdateGroupMemberReq) (s : State)
    → s.tx ≡ none
    → IsSound s.db
    → IsSound (update_group_member env gid uid body s).1.db
update_group_member-IsSound env gid uid body s idle sound =
    elim (update_group_member-PromoteRun env gid uid body s idle) [
      | refused _ (same, _) _ _ _ ↦ subst IsSound (sym same) sound
      | committed r ↦
          let (listed, _) =
            find-some (λ m. m.group_id == r.group.id && m.user_id == r.user.id) s.db.memberships
              r.found in
          subst IsSound (sym r.stored) (record {
            acyclic = sound.acyclic;
            member_keys =
                save-HasKeys (λ m. m.id) member_pair s.db.memberships r.old (changed r.old r.req)
                  sound.member_keys listed refl refl;
            hierarchy_keys = sound.hierarchy_keys;
          })
    ]
