-- ===== src/Api/Auth/Pass.antt =====
-- mwGroupAuthRequired as a whole: what it lets pass and what it refuses.
use governor_api.Prelude.{
  not-true, ℕ, String, ◌≡◌, refl, sym, subst, ◌∙◌, ◌⊎◌, inl, inr, ⊎_elim, Bool, true, false, not,
  some, List, ◌==◌, ◌&&◌, ◌||◌, eq_iff, arith,
}
use governor_api.Db.{Db, Group, User, is_null, find_group, find-some}
use governor_api.Hierarchy.{contains}
use governor_api.Hierarchy.Cycle.{IsAcyclic}
use governor_api.Membership.{EnumeratedMembership, memberships_by_user}
use governor_api.Membership.Enumeration.{IsMember, IsEnumeration}
use governor_api.Membership.ByUser.{only_user}
use governor_api.Api.{
  find_group_row, find_user_row, memberships_before, admin_groups, Env, State, returned, pure,
  send_error,
}
use governor_api.Api.Members.Runs.{user-enumerates}
use governor_api.Membership.Gained.{user-IsEnumeration}
use governor_api.Api.Chain.{◌>>=◌}
use governor_api.Api.Rules.{Post, After, After-check, After-one, After-await, After-if}
use governor_api.Api.Auth.{
  AuthRole, auth_role_user, auth_role_admin, auth_role_group_member, auth_role_group_admin,
  auth_role_admin_or_group_admin, auth_role_admin_or_group_admin_or_group_approver, Token, Context,
  Flags, no_context, no_flags, populate_models, governs, decide, user_of_token, group_auth_required,
}
use governor_api.Api.Auth.Scan.{ScanResult, scan_lem}
use governor_api.Api.Auth.Groups.{
  IsAdminNow, IsApprover, Allowed, populated-IsMember, populated-admin, governs_iff,
}

-- What the flags say of a user and a group.
pub record AreTrue (now : ℕ) (db : Db) (group : Group) (u : String) (flags : Flags) : Type 0 where
  pub member : flags.member ≡ true → IsMember db group.id u
  pub admin : flags.admin ≡ true → IsAdminNow now db group.id u
  pub approver : flags.approver ≡ true → IsApprover db group u

or-cases : (a b : Bool) → a || b ≡ true → (a ≡ true) ⊎ (b ≡ true)
or-cases true b e = inl refl
or-cases false b e = inr e

module _ (env : Env) (slugs : List String) (db : Db) (group : Group) (u : String)
    (rows : List EnumeratedMembership) (enumerates : IsEnumeration (only_user u) db rows) where
  -- The last part lets pass only whom the role allows.
  pub After-decide :
      (P : Post) (K : Context → State → Type 0) (role : AuthRole) (s : State) (flags : Flags)
      (ctx : Context)
      → AreTrue env.now db group u flags
      → ((code : ℕ) → P returned (record s { response = some code }))
      → (Allowed env.now role db slugs group u → K ctx s)
      → After P K (decide env role db slugs (populate_models db rows) flags ctx s)
  After-decide P K auth_role_group_member s flags ctx are stop pass =
      After-if P K s flags.member (pure ctx) (send_error 401) (λ e. pass (are.member e))
        (λ _. stop 401)
  After-decide P K auth_role_group_admin s flags ctx are stop pass =
      After-if P K s flags.admin (pure ctx) (send_error 401) (λ e. pass (are.admin e))
        (λ _. stop 401)
  After-decide P K auth_role_admin_or_group_admin s flags ctx are stop pass =
      let (governor, _) = governs_iff env db u rows enumerates slugs in
      let gov = governs env db slugs (populate_models db rows) in
      do
        _ ← After-check P K env s admin_groups 500 _ (λ _. stop 500)
        After-if P K s (flags.admin || gov) (pure ctx) (send_error 401)
            (λ e. pass (
              ⊎_elim (λ a. inl (are.admin a)) (λ g. inr (governor g)) (or-cases flags.admin gov e)))
            (λ _. stop 401)
  After-decide P K auth_role_admin_or_group_admin_or_group_approver s flags ctx are stop pass =
      let (governor, _) = governs_iff env db u rows enumerates slugs in
      let gov = governs env db slugs (populate_models db rows) in
      do
        _ ← After-check P K env s admin_groups 500 _ (λ _. stop 500)
        After-if P K s (flags.admin || gov || flags.approver) (pure ctx) (send_error 401)
            (λ e. pass (
              ⊎_elim
                (λ r.
                  ⊎_elim (λ a. inl (are.admin a)) (λ g. inr (inl (governor g)))
                    (or-cases flags.admin gov r))
                (λ a. inr (inr (are.approver a))) (or-cases (flags.admin || gov) flags.approver e)))
            (λ _. stop 401)
  After-decide P K auth_role_user s flags ctx are stop pass = stop 401
  After-decide P K auth_role_admin s flags ctx are stop pass = stop 401

  -- The flags of the loop are true, for the group that the request names.
  pub scan-AreTrue :
      (id : String) (is_uuid : env.is_uuid id ≡ true)
      → id ≡ group.id
      → memberships_by_user db u ≡ some rows
      → (r : ScanResult env id group.approver_group is_uuid (populate_models db rows) no_flags)
      → AreTrue env.now db group u r.result
  scan-AreTrue id is_uuid named answer r = record {
    member = λ set. elim (r.member set) [
      | inl e ↦ cc
      | inr (m, listed, is) ↦
          subst (λ g. IsMember db g u) (is ∙ named)
            (populated-IsMember env db u rows enumerates m listed)
    ];
    admin = λ set. elim (r.admin set) [
      | inl e ↦ cc
      | inr (m, listed, (is, rights)) ↦
          subst (λ g. IsAdminNow env.now db g u) (is ∙ named)
            (populated-admin env db u rows enumerates m answer listed rights)
    ];
    approver = λ set. elim (r.approver set) [
      | inl e ↦ cc
      | inr (m, listed, is) ↦ (m.group_id, is, populated-IsMember env db u rows enumerates m listed)
    ];
  }

-- A request that passes: it has no OIDC scope, and is left to its other scopes, or its group and
-- user exist and the role allows the user.
pub data Passes (env : Env) (role : AuthRole) (slugs : List String) (token : Token) (id : String)
    (s : State) (ctx : Context) (t : State) : Type 0 where
  no_scope :
      contains token.roles "openid" ≡ false
      → ctx ≡ no_context
      → t ≡ s
      → Passes env role slugs token id s ctx t
  allowed :
      (group : Group) (user : User)
      → find_group s.db id ≡ some group
      → user_of_token env s.db token.user ≡ some user
      → Allowed env.now role s.db slugs group user.id
      → ctx.current_user ≡ some user
      → t ≡ s
      → Passes env role slugs token id s ctx t

-- A request that is refused changes nothing.
abbrev pub Refuses : State → Post
Refuses s o t = (o ≡ returned) × ((code : ℕ) × (t ≡ record s { response = some code }))

pub find_group-id : (db : Db) (id : String) (g : Group) → find_group db id ≡ some g → g.id ≡ id
find_group-id db id g found =
    let (_, test) = find-some (λ g. g.id == id && is_null g.deleted_at) db.groups found in
    (eq_iff g.id id).0 (ground (arith, test))

-- While the hierarchies have no cycle, mwGroupAuthRequired for a request with a UUID always
-- answers, and it lets a user pass only if the role allows it: a member of the group, direct or
-- not; a direct member with admin rights that have not expired; or, for the roles that say so, a
-- member of a governor admin group, or of the approver group of the group. A request without the
-- OIDC scope is not checked. Nothing changes.
pub group_auth_required-Allowed :
    (env : Env) (role : AuthRole) (slugs : List String) (token : Token) (id : String) (s : State)
    → IsAcyclic s.db
    → env.is_uuid id ≡ true
    → After
        (Refuses s)
        (Passes env role slugs token id s)
        (group_auth_required env role slugs token id s)
unfolding group_auth_required
group_auth_required-Allowed env role slugs token id s acyclic is_uuid =
    let P = Refuses s in
    let K = Passes env role slugs token id s in
    let stop : (code : ℕ) → P returned (record s { response = some code }) =
      λ code. (refl, (code, refl)) in
    do
      scope ←
          After-if P K s (not (contains token.roles "openid")) (pure no_context) _
            (λ e. no_scope (not-true e) refl refl)
      _ ← After-if P K s (token.user == "") (send_error 401) _ (λ _. stop 401)
      _ ← After-if P K s (id == "") (send_error 401) _ (λ _. stop 401)
      (group, fg) ←
          After-one P K env s find_group_row 401 500 (find_group s.db id) _ (λ code _. stop code)
      (user, fu) ←
          After-one P K env s find_user_row 401 500 (user_of_token env s.db token.user) _
            (λ code _. stop code)
      _ ← After-check P K env s memberships_before 500 _ (λ _. stop 500)
      (rows, is) ←
          After-await P K env s (memberships_by_user s.db user.id) _
            (λ e. absurd (user-enumerates s.db user.id acyclic e))
      let enumerates = user-IsEnumeration s.db user.id acyclic rows is
      let named : id ≡ group.id = sym (find_group-id s.db id group fg)
      let loop = scan_lem env id group.approver_group is_uuid (populate_models s.db rows) no_flags
      let flags = loop.result
      rw loop.returns (
          After-decide env slugs s.db group user.id rows enumerates P K role s flags _
            (scan-AreTrue env slugs s.db group user.id rows enumerates id is_uuid named is loop)
            stop (λ may. allowed group user fg fu may refl refl))
