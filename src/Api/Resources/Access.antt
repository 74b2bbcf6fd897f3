-- ===== src/Api/Resources/Access.antt =====
-- Whom the middlewares before the handlers of resources let pass, exactly.
use governor_api.Prelude.{
  String, ◌≡◌, refl, sym, subst, ◌∙◌, inl, inr, true, false, not, none, some, any, not-true,
  not-false, ◌↔◌, ◌==◌, eq_iff, any_iff, eq_of_some, List,
}
use governor_api.Db.{Db, User}
use governor_api.Hierarchy.{contains}
use governor_api.Hierarchy.Cycle.{IsAcyclic}
use governor_api.Membership.{EnumeratedMembership, memberships_by_user}
use governor_api.Membership.Enumeration.{IsMember, IsEnumeration}
use governor_api.Membership.ByUser.{only_user}
use governor_api.Membership.Gained.{user-IsEnumeration}
use governor_api.Api.{memberships_before, Env, State, pure, send_error}
use governor_api.Api.Members.Runs.{user-enumerates}
use governor_api.Api.Chain.{◌>>=◌}
use governor_api.Api.Rules.{After, After-bind, After-check, After-await, After-if, After-match}
use governor_api.Api.Auth.{Token, Context}
use governor_api.Api.Resources.May.{
  Names, May, Names-same, differ, RefusesAccess, GrantsAccess, refusal, After-find, After-enabled,
  Goes,
}
use governor_api.Api.Resources.{
  ResourcePath, Loaded, find_erd_for_extension_resource, admin_group_of, in_admin_group, auth_user,
  is_gov_admin, resource_group_auth, enabled_check, resource_access,
}

-- The loop finds a group among the memberships exactly if the user is a member of it.
listed-IsMember_iff :
    (db : Db) (u group : String) (rows : List EnumeratedMembership)
    → IsEnumeration (only_user u) db rows
    → (any (λ m. m.group_id == group) rows ≡ true) ↔ IsMember db group u
listed-IsMember_iff db u group rows enumerates = (
  (λ hit.
      let (m, listed, same) = (any_iff (λ m. m.group_id == group) rows).0 hit in
      let (member, is_u) = enumerates.sound m.group_id m.user_id (m, listed, refl, refl, refl) in
      subst (λ x. IsMember db x u) ((eq_iff m.group_id group).0 same)
        (subst (IsMember db m.group_id) is_u member)),
  (λ member.
      let (m, listed, same, _, _) = enumerates.complete group u member refl in
      (any_iff (λ m. m.group_id == group) rows).1 (m, listed, (eq_iff m.group_id group).1 same)),
)

module _ (env : Env) (path : ResourcePath) (token : Token) (ctx : Context) (s : State) (user : User)
    (scope : contains token.roles "openid" ≡ true) (is_user : ctx.current_user ≡ some user)
    (plain : is_gov_admin env path ctx ≡ false) where
  -- A user who is not a governor admin may pass only by the admin group of the definition.
  by_group :
      (l k : Loaded)
      → Names env path s.db l
      → May env path token ctx s.db k
      → (group : String) × (admin_group_of env path l.erd ≡ some group)
        × IsMember s.db group user.id
  by_group l k names may =
      let same = sym (Names-same env path s.db l k names may.named) in
      elim may.entitled [
        | inl service ↦ absurd (differ scope service)
        | inr (v, is_v, inl admin) ↦ absurd (differ admin plain)
        | inr (v, is_v, inr (group, is_group, member)) ↦ (
          group,
          subst (λ (x : Loaded). admin_group_of env path x.erd ≡ some group) same is_group,
          subst (λ (x : User). IsMember s.db group x.id) (eq_of_some (sym is_v ∙ is_user)) member,
        )
      ]

  module _ (acyclic : IsAcyclic s.db) where
    After-in_admin_group :
        (l : Loaded)
        → Names env path s.db l
        → After
            (RefusesAccess env path token ctx s)
            (Goes env path token ctx s)
            (in_admin_group env path user l s)
    After-in_admin_group l names =
        let P = RefusesAccess env path token ctx s in
        do
          (group, is_group) ←
              After-match P (Goes env path token ctx s) s (admin_group_of env path l.erd) _ _
                (λ missing.
                  refusal env path token ctx s 403 (λ calm k may.
                    let (_, there, _) = by_group l k names may in cc (missing, there)))
          _ ← After-check P (Goes env path token ctx s) env s memberships_before 500 _ (λ fails.
              refusal env path token ctx s 500 (λ calm k may. cc (fails, calm memberships_before)))
          (rows, is) ←
              After-await P (Goes env path token ctx s) env s (memberships_by_user s.db user.id) _
                (λ e. absurd (user-enumerates s.db user.id acyclic e))
          let enumerates = user-IsEnumeration s.db user.id acyclic rows is
          let listed_iff = listed-IsMember_iff s.db user.id group rows enumerates
          After-if P (Goes env path token ctx s) s (any (λ m. m.group_id == group) rows)
              (pure (some l)) (send_error 403)
              (λ hit.
                After-enabled env path token ctx s (some l)
                  (λ k same. subst (Names env path s.db) (eq_of_some same) names)
                  (λ k k_names.
                    let of_k =
                      subst (λ (x : Loaded). admin_group_of env path x.erd ≡ some group)
                        (Names-same env path s.db l k names k_names) is_group in
                    inr (user, is_user, inr (group, of_k, listed_iff.0 hit))))
              (λ miss. refusal env path token ctx s 403 (λ calm k may.
                let (other, there, member) = by_group l k names may in
                differ
                  (listed_iff.1 (
                    subst (λ x. IsMember s.db x user.id) (eq_of_some (sym there ∙ is_group))
                      member))
                  miss))

-- While the hierarchies have no cycle, mwSystemExtensionResourceGroupAuth and
-- mwExtensionResourcesEnabledCheck in sequence always answer and change nothing. They let a request
-- pass only to a definition and an extension that the path names and that are both enabled, and only
-- from a service, a governor admin, or a member, direct or not, of the admin group of the definition;
-- and where no call fails they let all of these pass.
pub resource_access-GrantsAccess :
    (env : Env) (path : ResourcePath) (token : Token) (ctx : Context) (s : State)
    → IsAcyclic s.db
    → After
        (RefusesAccess env path token ctx s)
        (GrantsAccess env path token ctx s)
        (resource_access env path token ctx s)
unfolding resource_access
resource_access-GrantsAccess env path token ctx s acyclic =
    let P = RefusesAccess env path token ctx s in
    let K = Goes env path token ctx s in
    let no_loaded : (l : Loaded) → none ≡ some l → Names env path s.db l = λ l e. cc in
    After-bind P (GrantsAccess env path token ctx s) (resource_group_auth env path token ctx s)
      (enabled_check env path)
      (do
        scope ←
            After-if P K s (not (contains token.roles "openid")) (pure none) _
              (λ e. After-enabled env path token ctx s none no_loaded (λ _ _. inl (not-true e)))
        (user, is_user) ←
            After-match P K s ctx.current_user (send_error 401) (auth_user env path ctx) (λ nobody.
              refusal env path token ctx s 401
                (λ calm l may. no_user (not-false scope) nobody l may))
        plain ← After-if P K s (is_gov_admin env path ctx) (pure none) _ (λ admin.
            After-enabled env path token ctx s none no_loaded
              (λ _ _. inr (user, is_user, inl admin)))
        After-bind P K (find_erd_for_extension_resource env path s) (in_admin_group env path user) (
            After-find env path token ctx s _ (λ (l, names).
              After-in_admin_group env path token ctx s user (not-false scope) is_user plain acyclic
                l names)))
  where
    no_user :
        contains token.roles "openid" ≡ true
        → ctx.current_user ≡ none
        → (l : Loaded) → ¬ May env path token ctx s.db l
    no_user scope nobody l may = elim may.entitled [
      | inl service ↦ differ scope service
      | inr (v, is_v, _) ↦ cc (nobody, is_v)
    ]
