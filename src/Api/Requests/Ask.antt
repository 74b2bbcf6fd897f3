-- ===== src/Api/Requests/Ask.antt =====
-- createGroupRequest and deleteGroupRequest: what a run does to the rows.
use governor_api.Prelude.{
  not-false, String, ◌≡◌, ◌≢◌, refl, sym, subst, ◌∙◌, ◌⊎◌, inl, inr, true, false, not, Option, none,
  some, eq_of_some, ap, filter, Memᴰ, ◌==◌, eq_iff, eq-cases,
}
use governor_api.Db.{Db, Group, User, GroupMembershipRequest}
use governor_api.Api.{
  panicked, ok, begin_tx, find_group_row, find_row, insert_row, delete_row, audit_context,
  commit_tx, publish_request, Env, State, Handler, returned, send_error,
}
use governor_api.Api.Chain.{◌>>=◌}
use governor_api.Api.Rules.{
  Post, After, After-end, After-check, After-check_tx, After-one, After-if, After-or_panic,
  After-match,
}
use governor_api.Api.Events.{After-bind_json, After-bound}
use governor_api.Api.Audit.{audit_group_membership_request_created, audit_group_membership_revoked}
use governor_api.Api.Members.{group_of_request, membership_exists}
use governor_api.Api.Requests.{
  CreateGroupMemberReq, relations, find_request, has_request, delete_request, insert_request,
  new_request, kind_of, kind_fits, audit_end, owns_request, create_as, create_group_request,
  delete_group_request,
}
use governor_api.Api.Requests.Process.{After-audited}
use governor_api.Api.Requests.Asks.{
  request_pair, Asks, request_recorded, requested, not-has_request, relations-loaded, kind_of-Fits,
}

-- A request that was created: by the actor, for a group in which it makes sense, and the only one.
pub record Created (env : Env) (gid : String) (body : Option CreateGroupMemberReq) (db : Db)
    (t : State) : Type 0 where
  pub actor : User
  pub group : Group
  pub req : CreateGroupMemberReq
  pub kind : String
  pub action : String
  pub acts : env.user ≡ some actor
  pub has_relations : env.has_relations ≡ true
  pub bound : body ≡ some req
  pub found_group : group_of_request env db gid ≡ some group
  pub asks : Asks db group.id actor.id req kind action
  pub only :
      (r : GroupMembershipRequest) → Memᴰ r db.requests → request_pair r ≢ (group.id, actor.id)
  pub stored :
      t.db
      ≡ request_recorded env action group.id actor.id (requested env db group.id actor.id req kind)

abbrev pub CreateRun : Env → String → Option CreateGroupMemberReq → Db → State → Type 0
CreateRun env gid body db t = (t.db ≡ db) ⊎ Created env gid body db t

-- The action that is recorded of the end of a request of a kind.
pub data Revokes : String → String → Type 0 where
  revokes_joining : Revokes "new_member" "group.member.request.revoked"
  revokes_promotion : Revokes "admin_promotion" "admin.promotion.request.revoked"

-- A request that was revoked: of the group, and of the actor if a user acts; a service has no user.
pub record Revoked (env : Env) (gid rid : String) (db : Db) (t : State) : Type 0 where
  pub group : Group
  pub request : GroupMembershipRequest
  pub action : String
  pub found_group : group_of_request env db gid ≡ some group
  pub found : find_request env db rid ≡ some request
  pub of_group : request.group_id ≡ group.id
  pub own : (actor : User) → env.user ≡ some actor → request.user_id ≡ actor.id
  pub recorded : Revokes request.kind action
  pub stored :
      t.db
      ≡ request_recorded env action request.group_id request.user_id
          (record db { requests = filter (λ r. not (r.id == request.id)) db.requests })

abbrev pub RevokeRun : Env → String → String → Db → State → Type 0
RevokeRun env gid rid db t = (t.db ≡ db) ⊎ Revoked env gid rid db t

owned :
    (env : Env) (r : GroupMembershipRequest)
    → owns_request env r ≡ true
    → (actor : User) → env.user ≡ some actor
    → r.user_id ≡ actor.id
owned env r own actor acts = (eq_iff r.user_id actor.id).0 (rw acts at own)

revoked_as :
    (env : Env) (r : GroupMembershipRequest) (db result : Db)
    → audit_end env audit_group_membership_revoked r db ≡ some result
    → (action : String) × Revokes r.kind action
      × (result ≡ request_recorded env action r.group_id r.user_id db)
revoked_as env r db result is = elim (eq-cases r.kind "new_member") [
  | inl (hit, e) ↦ (
    "group.member.request.revoked",
    subst (λ k. Revokes k "group.member.request.revoked") (sym e) revokes_joining,
    eq_of_some (sym (rw hit at is)),
  )
  | inr (miss, _) ↦ elim (eq-cases r.kind "admin_promotion") [
    | inl (hit, e) ↦ (
      "admin.promotion.request.revoked",
      subst (λ k. Revokes k "admin.promotion.request.revoked") (sym e) revokes_promotion,
      eq_of_some (sym (rw (miss, hit) at is)),
    )
    | inr (unknown, _) ↦ let nothing : none ≡ some result = rw (miss, unknown) at is in cc nothing
  ]
]

-- Every run of deleteGroupRequest, whichever calls fail, leaves the rows as they were, or removes
-- exactly a request of the group with its audit event. If a user acts it is a request of that user;
-- of a service, which has no user, it may be a request of anybody.
pub delete_group_request-RevokeRun :
    (env : Env) (gid rid : String) (s : State)
    → RevokeRun env gid rid s.db (delete_group_request env gid rid s).1
unfolding delete_group_request
delete_group_request-RevokeRun env gid rid s =
    let P : Post = λ _ t. RevokeRun env gid rid s.db t in
    let K = λ (_ : Unit {0}) (t : State). P returned t in
    After-end P (delete_group_request env gid rid s) (do
      (group, fg) ←
          After-one P K env s find_group_row 404 500 (group_of_request env s.db gid) _
            (λ _ _. inl refl)
      (r, found) ←
          After-one P K env s find_row 404 500 (find_request env s.db rid) _ (λ _ _. inl refl)
      of_group ← After-if P K s (not (r.group_id == group.id)) (send_error 400) _ (λ _. inl refl)
      own ← After-if P K s (not (owns_request env r)) (send_error 400) _ (λ _. inl refl)
      let deleted = delete_request env r s.db
      _ ← After-check P K env s begin_tx 400 _ (λ _. inl refl)
      _ ← After-check_tx P K env (record s { tx = some s.db }) delete_row 400 _ (λ _. inl refl)
      (result, is) ←
          After-audited P K env (audit_end env audit_group_membership_revoked r deleted)
            (record s { tx = some deleted }) _ (inl refl)
      let waiting = record s { tx = some result }
      _ ← After-check_tx P K env waiting audit_context 400 _ (λ _. inl refl)
      _ ← After-check_tx P K env waiting commit_tx 400 _ (λ _. inl refl)
      let (action, recorded, stored) = revoked_as env r deleted result is
      let done : (t : State) → t.db ≡ result → RevokeRun env gid rid s.db t = λ t e. inr (record {
        group = group;
        request = r;
        found_group = fg;
        found = found;
        of_group = (eq_iff r.group_id group.id).0 (not-false of_group);
        own = owned env r (not-false own);
        action = action;
        recorded = recorded;
        stored = e ∙ stored;
      })
      After-check P K env (record s { db = result; tx = none }) publish_request 400 _
          (λ _. done _ refl) (λ _. done _ refl))

create_as-CreateRun :
    (env : Env) (actor : User) (gid : String) (body : Option CreateGroupMemberReq) (s : State)
    → env.user ≡ some actor
    → After
        (λ _ t. CreateRun env gid body s.db t)
        (λ _ t. CreateRun env gid body s.db t)
        (create_as env actor gid body s)
unfolding create_as
create_as-CreateRun env actor gid body s acts =
    let P : Post = λ _ t. CreateRun env gid body s.db t in
    let K = λ (_ : Unit {0}) (t : State). P returned t in
    do
      (req, bound) ← After-bind_json P K env s body _ (inl refl)
      (kind, of_kind) ← After-kind P K s (kind_of env req) _ (inl refl)
      (group, fg) ←
          After-one P K env s find_group_row 404 500 (group_of_request env s.db gid) _
            (λ _ _. inl refl)
      (loaded, has) ← After-or_panic P K s (relations env s.db) _ (λ _. inl refl)
      let (is_set, same) = relations-loaded env s.db loaded has
      fits ←
          After-if P K s (not (kind_fits env kind (membership_exists env loaded group.id actor.id)))
            (send_error 400) _ (λ _. inl refl)
      only ←
          After-if P K s (has_request env loaded group.id actor.id) (send_error 409) _
            (λ _. inl refl)
      let request = new_request env group.id actor.id req kind
      let inserted = insert_request env request s.db
      _ ← After-check P K env s begin_tx 400 _ (λ _. inl refl)
      _ ← After-check_tx P K env (record s { tx = some s.db }) insert_row 400 _ (λ _. inl refl)
      (result, is) ←
          After-audited P K env
            (audit_end env audit_group_membership_request_created request inserted)
            (record s { tx = some inserted }) _ (inl refl)
      let waiting = record s { tx = some result }
      _ ← After-check_tx P K env waiting audit_context 400 _ (λ _. inl refl)
      _ ← After-check_tx P K env waiting commit_tx 400 _ (λ _. inl refl)
      let fitting =
          subst
            (λ (db : Db). kind_fits env kind (membership_exists env db group.id actor.id) ≡ true)
            same (not-false fits)
      let (action, asks, stored) =
          kind_of-Fits env s.db group actor req kind of_kind fitting result is
      let done : (t : State) → t.db ≡ result → CreateRun env gid body s.db t = λ t e. inr (record {
        actor = actor;
        group = group;
        req = req;
        kind = kind;
        acts = acts;
        bound = bound;
        action = action;
        has_relations = is_set;
        found_group = fg;
        asks = asks;
        only =
            not-has_request env s.db group.id actor.id
              (subst (λ (db : Db). has_request env db group.id actor.id ≡ false) same only);
        stored = e ∙ stored;
      })
      After-check P K env (record s { db = result; tx = none }) publish_request 400 _
          (λ _. done _ refl) (λ _. done _ refl)
  where
    After-kind :
        (P : Post) (K : Unit {0} → State → Type 0) (s : State) (o : Option String)
        (f : String → Handler (Unit {0}))
        → P returned (record s { response = some 400 })
        → ((x : (k : String) × (o ≡ some k)) → After P K (f x.0 s))
        → (let run : Handler (Unit {0}) = elim o [ none ↦ send_error 400 | some k ↦ f k ] in
            After P K (run s))
    After-kind P K s none f bad good = bad
    After-kind P K s (some k) f bad good = good (k, refl)

run-CreateRun :
    (env : Env) (gid : String) (body : Option CreateGroupMemberReq) (s : State)
    → CreateRun env gid body s.db (create_group_request env gid body s).1
unfolding create_group_request
run-CreateRun env gid body s =
    After-end (λ _ t. CreateRun env gid body s.db t) (create_group_request env gid body s)
      (go env.user refl)
  where
    go :
        (o : Option User)
        → env.user ≡ o
        → (let run : Handler (Unit {0}) = elim o [
          | none ↦ send_error 401
          | some actor ↦ create_as env actor gid body
        ] in
            After
              (λ _ t. CreateRun env gid body s.db t)
              (λ _ t. CreateRun env gid body s.db t)
              (run s))
    go none acts = inl refl
    go (some actor) acts = create_as-CreateRun env actor gid body s acts

-- A request of a known kind by a user whose relations are not loaded, for a group that is found.
pub record Unloaded (env : Env) (gid : String) (body : Option CreateGroupMemberReq) (db : Db)
    : Type 0 where
  pub actor : User
  pub group : Group
  pub req : CreateGroupMemberReq
  pub acts : env.user ≡ some actor
  pub not_loaded : env.has_relations ≡ false
  pub bound : body ≡ some req
  pub known_kind : (req.kind ≡ "") ⊎ ((req.kind ≡ "new_member") ⊎ (req.kind ≡ "admin_promotion"))
  pub found_group : group_of_request env db gid ≡ some group

kind_is_known :
    (env : Env) (req : CreateGroupMemberReq)
    → (req.kind ≡ "") ⊎ ((req.kind ≡ "new_member") ⊎ (req.kind ≡ "admin_promotion"))
    → (kind : String) × (kind_of env req ≡ some kind)
kind_is_known env req (inl e) = ("new_member", rw e refl)
kind_is_known env req (inr (inl e)) = ("new_member", rw e refl)
kind_is_known env req (inr (inr e)) = ("admin_promotion", rw e refl)

Unloaded-panics :
    (env : Env) (gid : String) (body : Option CreateGroupMemberReq) (s : State)
    → Unloaded env gid body s.db
    → env.fails find_group_row ≡ false
    → ((create_group_request env gid body s).0 ≡ panicked)
      × ((create_group_request env gid body s).1 ≡ s)
unfolding create_group_request create_as
Unloaded-panics env gid body s u works =
    let P : Post = λ o t. (o ≡ panicked) × (t ≡ s) in
    let K = λ (_ : Unit {0}) (t : State). P (ok tt) t in
    let (known, is_known) = kind_is_known env u.req u.known_kind in
    After-end P (create_group_request env gid body s) (
      After-match P K s env.user (send_error 401) (λ actor. create_as env actor gid body)
        (λ e. cc (e, u.acts))
        (λ (actor, acts). do
          (req, bound) ← After-bound P K env s body _ (λ e. cc (e, u.bound))
          let same : req ≡ u.req = eq_of_some (sym bound ∙ u.bound)
          After-match P K s (kind_of env req) (send_error 400) _
              (λ e. cc (e, is_known, ap (kind_of env) same))
              (λ (kind, of_kind). do
                (group, found) ←
                    After-one P K env s find_group_row 404 500 (group_of_request env s.db gid) _
                      (λ _ why. elim why [ inl e ↦ cc (e, works) | inr e ↦ cc (e, u.found_group) ])
                After-or_panic P K s (relations env s.db) _ (λ _. (refl, refl))
                    (λ (loaded, has).
                      let (set, _) = relations-loaded env s.db loaded has in
                      cc (set, u.not_loaded)))))

-- Every run of createGroupRequest, whichever calls fail, leaves the rows as they were, or adds
-- exactly the request of the body for the actor, with its audit event: to join a group that the
-- actor is not a direct member of, also where no kind is given, or for admin rights in one that the
-- actor is, in each case with no request of the actor pending there. It adds none for a user whose
-- relations are not loaded, as of one whom the middleware has just registered: there, for a known
-- kind and a group that is found without a failure, the handler panics.
pub create_group_request-CreateRun :
    (env : Env) (gid : String) (body : Option CreateGroupMemberReq) (s : State)
    → CreateRun env gid body s.db (create_group_request env gid body s).1
      × (Unloaded env gid body s.db
          → env.fails find_group_row ≡ false
          → ((create_group_request env gid body s).0 ≡ panicked)
            × ((create_group_request env gid body s).1 ≡ s))
create_group_request-CreateRun env gid body s =
    (run-CreateRun env gid body s, Unloaded-panics env gid body s)
