-- ===== src/Api/Auth/Admit.antt =====
-- mwGroupAuthRequired does not turn away the members of a group, or the governor admins.
use governor_api.Prelude.{
  String, ◌≡◌, ◌≢◌, refl, sym, ◌∙◌, subst, eq_of_some, ap, inr, ⊎_elim, Bool, true, false, not,
  some, List, ◌==◌, ◌||◌,
}
use governor_api.Db.{Db, Group, User, find_group}
use governor_api.Hierarchy.{contains}
use governor_api.Hierarchy.Cycle.{IsAcyclic}
use governor_api.Membership.{EnumeratedMembership, memberships_by_user}
use governor_api.Membership.Enumeration.{IsMember, IsEnumeration}
use governor_api.Membership.ByUser.{only_user}
use governor_api.Api.{
  Call, find_group_row, find_user_row, memberships_before, admin_groups, Env, State, pure,
  send_error,
}
use governor_api.Api.Members.Runs.{user-enumerates}
use governor_api.Api.Chain.{◌>>=◌}
use governor_api.Api.Rules.{Post, After, After-check, After-one, After-await, After-if}
use governor_api.Api.Auth.{
  AuthRole, auth_role_user, auth_role_admin, auth_role_group_member, auth_role_group_admin,
  auth_role_admin_or_group_admin, auth_role_admin_or_group_admin_or_group_approver, Token, Context,
  Flags, no_context, no_flags, populate_models, governs, decide, user_of_token, group_auth_required,
}
use governor_api.Api.Auth.Scan.{scan_lem}
use governor_api.Api.Auth.Groups.{IsGovernor, populated-finds, governs_iff}
use governor_api.Membership.Gained.{user-IsEnumeration}
use governor_api.Api.Auth.Pass.{find_group-id}

-- The users who are admitted under a role, whatever the order of their memberships.
abbrev pub Admits : AuthRole → Db → List String → Group → String → Type 0
Admits auth_role_group_member db slugs group u = IsMember db group.id u
Admits auth_role_admin_or_group_admin db slugs group u = IsGovernor db slugs u
Admits auth_role_admin_or_group_admin_or_group_approver db slugs group u = IsGovernor db slugs u
Admits auth_role_group_admin db slugs group u = ⊥
Admits auth_role_user db slugs group u = ⊥
Admits auth_role_admin db slugs group u = ⊥

not_or : (a b : Bool) → b ≡ true → a || b ≢ false
not_or true b e f = cc
not_or false b e f = cc (e, f)

or_left : (a b : Bool) → a || b ≡ false → a ≡ false
or_left true b e = e
or_left false b e = refl

module _ (env : Env) (works : (c : Call) → env.fails c ≡ false) where
  no_failure : (c : Call) → env.fails c ≢ true
  no_failure c e = cc (e, works c)

  module _ (slugs : List String) (db : Db) (group : Group) (u : String)
      (rows : List EnumeratedMembership) (enumerates : IsEnumeration (only_user u) db rows) where
    decide-Admits :
        (P : Post) (K : Context → State → Type 0) (role : AuthRole) (s : State) (flags : Flags)
        (ctx : Context)
        → (IsMember db group.id u → flags.member ≡ true)
        → Admits role db slugs group u
        → K ctx s
        → After P K (decide env role db slugs (populate_models db rows) flags ctx s)
    decide-Admits P K auth_role_group_member s flags ctx finds may k =
        After-if P K s flags.member (pure ctx) (send_error 401) (λ _. k) (λ e. cc (e, finds may))
    decide-Admits P K auth_role_admin_or_group_admin s flags ctx finds may k =
        let (_, governs') = governs_iff env db u rows enumerates slugs in
        let gov = governs env db slugs (populate_models db rows) in
        do
          _ ← After-check P K env s admin_groups 500 _ (λ e. absurd (no_failure admin_groups e))
          After-if P K s (flags.admin || gov) (pure ctx) (send_error 401) (λ _. k)
              (λ e. absurd (not_or flags.admin gov (governs' may) e))
    decide-Admits P K auth_role_admin_or_group_admin_or_group_approver s flags ctx finds may k =
        let (_, governs') = governs_iff env db u rows enumerates slugs in
        let gov = governs env db slugs (populate_models db rows) in
        do
          _ ← After-check P K env s admin_groups 500 _ (λ e. absurd (no_failure admin_groups e))
          After-if P K s (flags.admin || gov || flags.approver) (pure ctx) (send_error 401) (λ _. k)
              (λ e. absurd (
                not_or flags.admin gov (governs' may)
                  (or_left (flags.admin || gov) flags.approver e)))
    decide-Admits P K auth_role_group_admin s flags ctx finds may k = absurd may
    decide-Admits P K auth_role_user s flags ctx finds may k = absurd may
    decide-Admits P K auth_role_admin s flags ctx finds may k = absurd may

  -- While the hierarchies have no cycle and no call fails, mwGroupAuthRequired lets pass a user with
  -- the OIDC scope, for a group by its UUID: under the role of a group member every member, direct or
  -- not, and under the two roles that include governor admins every member of one of their groups.
  pub group_auth_required-Admits :
      (role : AuthRole) (slugs : List String) (token : Token) (id : String) (s : State)
      (group : Group) (user : User)
      → IsAcyclic s.db
      → env.is_uuid id ≡ true
      → contains token.roles "openid" ≡ true
      → (token.user == "") ≡ false
      → (id == "") ≡ false
      → find_group s.db id ≡ some group
      → user_of_token env s.db token.user ≡ some user
      → Admits role s.db slugs group user.id
      → After
          (λ _ _. ⊥)
          (λ ctx t. (ctx.current_user ≡ some user) × (t ≡ s))
          (group_auth_required env role slugs token id s)
  unfolding group_auth_required
  group_auth_required-Admits role slugs token id s group user acyclic is_uuid scope named_user named
        fg fu may =
      let P : Post = λ _ _. ⊥ in
      let K = λ (ctx : Context) (t : State). (ctx.current_user ≡ some user) × (t ≡ s) in
      do
        _ ←
            After-if P K s (not (contains token.roles "openid")) (pure no_context) _
              (λ e. absurd (not_both scope e))
        _ ← After-if P K s (token.user == "") (send_error 401) _ (λ e. cc (e, named_user))
        _ ← After-if P K s (id == "") (send_error 401) _ (λ e. cc (e, named))
        (g, fg') ←
            After-one P K env s find_group_row 401 500 (find_group s.db id) _
              (λ _ why. ⊎_elim (no_failure find_group_row) (λ e. cc (e, fg)) why)
        (v, fu') ←
            After-one P K env s find_user_row 401 500 (user_of_token env s.db token.user) _
              (λ _ why. ⊎_elim (no_failure find_user_row) (λ e. cc (e, fu)) why)
        let may' : Admits role s.db slugs g v.id =
            subst (λ (x : User). Admits role s.db slugs g x.id) (eq_of_some (sym fu ∙ fu'))
              (subst (λ x. Admits role s.db slugs x user.id) (eq_of_some (sym fg ∙ fg')) may)
        _ ← After-check P K env s memberships_before 500 _ (no_failure memberships_before)
        (rows, is) ←
            After-await P K env s (memberships_by_user s.db v.id) _
              (λ e. absurd (user-enumerates s.db v.id acyclic e))
        let enumerates = user-IsEnumeration s.db v.id acyclic rows is
        let loop = scan_lem env id g.approver_group is_uuid (populate_models s.db rows) no_flags
        rw loop.returns (
            decide-Admits slugs s.db g v.id rows enumerates P K role s loop.result _
              (λ member.
                let (m, listed, of_g) = populated-finds env s.db v.id rows enumerates g.id member in
                loop.finds (inr (m, listed, of_g ∙ find_group-id s.db id g fg')))
              may' (ap some (eq_of_some (sym fu' ∙ fu)), refl))
    where
      not_both : {b : Bool} → b ≡ true → not b ≢ true
      not_both e f = cc (e, f)
