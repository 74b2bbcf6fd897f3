-- ===== src/Api/Hierarchies/Add.antt =====
-- addMemberGroup: every run of it, what it keeps, and what it announces.
use mathlib.Core.List.{append-nil}
use governor_api.Prelude.{
  ℕ, String, ◌≡◌, refl, sym, subst, ◌⊎◌, inl, inr, true, false, Option, none, some, List, [], ◌∷◌,
  ◌++◌,
}
use governor_api.Db.{Db, Group, find_group}
use governor_api.Hierarchy.{would_create_cycle}
use governor_api.Hierarchy.Cycle.{IsAcyclic, would_create_cycle_decides}
use governor_api.Membership.{EnumeratedMembership, all_memberships}
use governor_api.Membership.Diff.{find_member_diff}
use governor_api.Db.Keys.{insert-HasKeys}
use governor_api.Api.Sound.{IsSound, IsFresh, hierarchy_pair, not-linked}
use governor_api.Api.Chain.{◌>>=◌}
use governor_api.Api.{
  ◌>>◌, check, emit, respond, Env, Action, create, State, Outcome, ok, returned, panicked,
  find_parent, find_member, exists_row, cycle_check, memberships_before, insert_row, audit,
  audit_context, memberships_after, commit_tx, publish_last, begin_tx,
}
use governor_api.Api.Rules.{
  Post, After, After-end, After-bind, After-check, After-check_tx, After-one_tx, After-await,
  After-if,
}
use governor_api.Api.Hierarchies.{
  AddMemberGroupReq, hierarchies_event, new_hierarchy, linked, add_member_group,
}
use governor_api.Api.Hierarchies.Links.{added, before-IsAcyclic, added-IsAcyclic, enumerates}
use governor_api.Api.Events.{publish_members, published_all, After-publish_members}

-- Nothing has changed.
abbrev pub Unchanged : State → State → Type 0
Unchanged s t = (t.db ≡ s.db) × (t.published ≡ s.published)

-- All events are published and the response is 204, or the bus failed and it is 400.
abbrev pub Told :
    Env
    → Action
    → String
    → State
    → List EnumeratedMembership
    → List EnumeratedMembership
    → Outcome (Unit {0})
    → State
    → Type 0
Told env action group_id s first second o t =
    ((o ≡ ok tt)
      × (t.response ≡ some 204)
      × (t.published
          ≡ (published_all env action (find_member_diff first second) s).published
            ++ hierarchies_event env action group_id ∷ []))
    ⊎ ((o ≡ returned)
        × (t.response ≡ some 400)
        × (sent : List EnumeratedMembership) × (rest : List EnumeratedMembership) × (sent ++ rest
            ≡ find_member_diff first second)
        × (t.published ≡ (published_all env action sent s).published))

-- The end of both handlers that announce a change of memberships.
pub After-tell :
    (P : Post) (env : Env) (action : Action) (group_id : String)
    (first second : List EnumeratedMembership) (s : State) (done : Db)
    → ((o : Outcome (Unit {0})) (t : State)
        → t.db ≡ done
        → t.tx ≡ none
        → Told env action group_id s first second o t
        → P o t)
    → After P
        (λ _ t. P (ok tt) t)
        ((publish_members env 0 action (find_member_diff first second)
            >> (check env publish_last 400
                >> (emit (hierarchies_event env action group_id) >> respond 204)))
          (record s { db = done; tx = none }))
After-tell P env action group_id first second s done run =
    let K = λ (_ : Unit {0}) (t : State). P (ok tt) t in
    let diff = find_member_diff first second in
    let at_commit = record s { db = done; tx = none } in
    After-bind P K (publish_members env 0 action diff at_commit) _ (
      After-publish_members P _ env 0 action diff at_commit
        (λ sent rest split. run returned _ refl refl (inr (refl, refl, sent, rest, split, refl)))
        (After-check P K env (published_all env action diff at_commit) publish_last 400 _
          (λ _. run returned _ refl refl (inr (refl, refl, diff, [], append-nil _, refl)))
          (λ _. run (ok tt) _ refl refl (inl (refl, refl, refl)))))

-- A committed run: the check, the two enumerations, and the events.
pub record Added (env : Env) (parent_group_id : String) (body : Option AddMemberGroupReq)
    (s : State) (o : Outcome (Unit {0})) (t : State) : Type 0 where
  pub req : AddMemberGroupReq
  pub parent : Group
  pub member : Group
  pub before : List EnumeratedMembership
  pub after : List EnumeratedMembership
  pub bound : body ≡ some req
  pub found_parent : find_group s.db parent_group_id ≡ some parent
  pub found_member : find_group s.db req.member_group_id ≡ some member
  pub not_linked : linked env s.db parent.id member.id ≡ false
  pub no_cycle : would_create_cycle s.db parent.id member.id ≡ some false
  pub stored : t.db ≡ added env s.db parent.id member.id req.expires_at
  pub enumerated_before : all_memberships s.db ≡ some before
  pub enumerated_after : all_memberships t.db ≡ some after
  pub closed : t.tx ≡ none
  pub announced : Told env create parent_group_id s before after o t

-- What a run of the handler comes to.
pub data AddRun (env : Env) (parent_group_id : String) (body : Option AddMemberGroupReq) (s : State)
    (o : Outcome (Unit {0})) (t : State) : Type 0 where
  refused :
      (code : ℕ)
      → Unchanged s t
      → t.tx ≡ none
      → o ≡ returned
      → t.response ≡ some code
      → AddRun env parent_group_id body s o t
  duplicate :
      (req : AddMemberGroupReq) (parent member : Group)
      → body ≡ some req
      → find_group s.db parent_group_id ≡ some parent
      → find_group s.db req.member_group_id ≡ some member
      → linked env s.db parent.id member.id ≡ true
      → Unchanged s t
      → t.tx ≡ some s.db
      → o ≡ panicked
      → AddRun env parent_group_id body s o t
  committed : Added env parent_group_id body s o t → AddRun env parent_group_id body s o t

module _ (env : Env) (parent_group_id : String) (s : State) (idle : s.tx ≡ none) where
  add-AddRun :
      (body : Option AddMemberGroupReq)
      → After
          (AddRun env parent_group_id body s)
          (λ _ t. AddRun env parent_group_id body s (ok tt) t)
          (add_member_group env parent_group_id body s)
  unfolding add_member_group
  add-AddRun none = refused 400 (refl, refl) idle refl refl
  add-AddRun (some req) =
      let P : Post = AddRun env parent_group_id (some req) s in
      let K = λ (_ : Unit {0}) (t : State). P (ok tt) t in
      let started = record s { tx = some s.db } in
      let stop : (code : ℕ) → P returned (record started { tx = none; response = some code }) =
        λ code. refused code (refl, refl) refl refl refl in
      do
        _ ← After-check P K env s begin_tx 400 _ (λ _. refused 400 (refl, refl) idle refl refl)
        (parent, fp) ←
            After-one_tx P K env started find_parent 404 500 (find_group s.db parent_group_id) _
              (λ code _. stop code)
        (member, fm) ←
            After-one_tx P K env started find_member 404 500 (find_group s.db req.member_group_id) _
              (λ code _. stop code)
        _ ← After-check_tx P K env started exists_row 500 _ (λ _. stop 500)
        new ←
            After-if P K started (linked env s.db parent.id member.id) _ _
              (λ old. duplicate req parent member refl fp fm old (refl, refl) refl refl)
        _ ← After-check_tx P K env started cycle_check 500 _ (λ _. stop 500)
        (cycle, answer) ←
            After-await P K env started (would_create_cycle s.db parent.id member.id) _
              (λ e. cc (e, (would_create_cycle_decides s.db parent.id member.id).1))
        clear ← After-if P K started cycle _ _ (λ _. stop 400)
        let answer' : would_create_cycle s.db parent.id member.id ≡ some false = rw clear at answer
        let done = added env s.db parent.id member.id req.expires_at
        let waiting = record s { tx = some done }
        _ ← After-check_tx P K env started memberships_before 400 _ (λ _. stop 400)
        (before, is_before) ←
            After-await P K env started (all_memberships s.db) _
              (λ e. absurd (enumerates s.db (before-IsAcyclic s.db parent.id member.id answer') e))
        _ ← After-check_tx P K env started insert_row 400 _ (λ _. stop 400)
        _ ← After-check_tx P K env _ audit 400 _ (λ _. stop 400)
        _ ← After-check_tx P K env waiting audit_context 400 _ (λ _. stop 400)
        _ ← After-check_tx P K env waiting memberships_after 400 _ (λ _. stop 400)
        (after, is_after) ← After-await P K env waiting (all_memberships done) _ (λ e. absurd (
            enumerates done (added-IsAcyclic env s.db parent.id member.id req.expires_at answer')
              e))
        _ ← After-check_tx P K env waiting commit_tx 400 _ (λ _. stop 400)
        After-tell P env create parent_group_id before after s done (λ o t stored closed told.
            committed (record {
              req = req;
              parent = parent;
              member = member;
              before = before;
              after = after;
              bound = refl;
              found_parent = fp;
              found_member = fm;
              not_linked = new;
              no_cycle = answer';
              stored = stored;
              enumerated_before = is_before;
              enumerated_after = rw stored is_after;
              closed = closed;
              announced = told;
            }))

-- Every run of addMemberGroup, whichever calls fail, is one of three: a request that is refused with
-- an error response and changes nothing; one for a pair that is linked already, which panics with
-- the transaction open; and one that commits exactly the new hierarchy and its audit event, after a
-- check that found no cycle, and publishes the events of the memberships gained and of the
-- hierarchy, in this order, or a first part of them where the event bus fails.
pub add_member_group-AddRun :
    (env : Env) (parent_group_id : String) (body : Option AddMemberGroupReq) (s : State)
    → s.tx ≡ none
    → AddRun env parent_group_id body s
        (add_member_group env parent_group_id body s).0
        (add_member_group env parent_group_id body s).1
add_member_group-AddRun env parent_group_id body s idle =
    After-end (AddRun env parent_group_id body s) (add_member_group env parent_group_id body s)
      (add-AddRun env parent_group_id s idle body)

-- addMemberGroup never creates a cycle: if the hierarchies between groups that are not deleted have
-- none before, they have none after, whatever the request and whichever calls fail.
pub add_member_group-IsAcyclic :
    (env : Env) (parent_group_id : String) (body : Option AddMemberGroupReq) (s : State)
    → s.tx ≡ none
    → IsAcyclic s.db
    → IsAcyclic (add_member_group env parent_group_id body s).1.db
add_member_group-IsAcyclic env parent_group_id body s idle acyclic =
    go (add_member_group-AddRun env parent_group_id body s idle)
  where
    go :
        {o : Outcome (Unit {0})} {t : State}
        → AddRun env parent_group_id body s o t
        → IsAcyclic t.db
    go (refused code same _ _ _) = subst IsAcyclic (sym same.0) acyclic
    go (duplicate req p m _ _ _ _ same _ _) = subst IsAcyclic (sym same.0) acyclic
    go (committed a) =
        subst IsAcyclic (sym a.stored)
          (added-IsAcyclic env s.db a.parent.id a.member.id a.req.expires_at a.no_cycle)

pub add_member_group-IsSound :
    (env : Env) (parent_group_id : String) (body : Option AddMemberGroupReq) (s : State)
    → s.tx ≡ none
    → IsFresh env s.db
    → IsSound s.db
    → IsSound (add_member_group env parent_group_id body s).1.db
add_member_group-IsSound env parent_group_id body s idle fresh sound =
    elim (add_member_group-AddRun env parent_group_id body s idle) [
      | refused _ (same, _) _ _ _ ↦ subst IsSound (sym same) sound
      | duplicate _ _ _ _ _ _ _ (same, _) _ _ ↦ subst IsSound (sym same) sound
      | committed r ↦ subst IsSound (sym r.stored) (record {
        acyclic = added-IsAcyclic env s.db r.parent.id r.member.id r.req.expires_at r.no_cycle;
        member_keys = sound.member_keys;
        hierarchy_keys =
            insert-HasKeys (λ h. h.id) hierarchy_pair s.db.hierarchies
              (new_hierarchy env r.parent.id r.member.id r.req.expires_at) sound.hierarchy_keys
              fresh.no_hierarchy
              (not-linked env s.db r.req.member_group_id r.parent r.member r.found_member
                r.not_linked);
      })
    ]
