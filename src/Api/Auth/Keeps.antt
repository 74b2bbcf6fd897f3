-- ===== src/Api/Auth/Keeps.antt =====
-- mwGroupAuthRequired changes no row.
use governor_api.Prelude.{String, ◌≡◌, refl, sym, ap, subst, not, ◌==◌, ◌||◌, List}
use governor_api.Db.{Db, find_group}
use governor_api.Hierarchy.{contains}
use governor_api.Membership.{EnumeratedMembership, memberships_by_user}
use governor_api.Api.{
  find_group_row, find_user_row, memberships_before, admin_groups, Env, State, Outcome, ok,
  returned, panicked, hung, Handler, continue, pure, send_error,
}
use governor_api.Api.Chain.{◌>>=◌}
use governor_api.Api.Rules.{
  Post, After, After-check, After-one, After-await, After-or_panic, After-if,
}
use governor_api.Api.Auth.{
  AuthRole, auth_role_user, auth_role_admin, auth_role_group_member, auth_role_group_admin,
  auth_role_admin_or_group_admin, auth_role_admin_or_group_admin_or_group_approver, Token, Context,
  Flags, no_context, no_flags, populate_models, scan, governs, decide, user_of_token,
  group_auth_required,
}

-- Refused or not, the rows and the transaction stay.
abbrev pub Stays : State → Post
Stays s o t = (t.db ≡ s.db) × (t.tx ≡ s.tx)

module _ (env : Env) (slugs : List String) (s : State) where
  stay :
      (K : Context → State → Type 0) (role : AuthRole) (rows : List EnumeratedMembership)
      (flags : Flags) (ctx : Context)
      → K ctx s
      → After (Stays s) K (decide env role s.db slugs rows flags ctx s)
  stay K auth_role_group_member rows flags ctx k =
      After-if (Stays s) K s flags.member (pure ctx) (send_error 401) (λ _. k) (λ _. (refl, refl))
  stay K auth_role_group_admin rows flags ctx k =
      After-if (Stays s) K s flags.admin (pure ctx) (send_error 401) (λ _. k) (λ _. (refl, refl))
  stay K auth_role_admin_or_group_admin rows flags ctx k = do
    _ ← After-check (Stays s) K env s admin_groups 500 _ (λ _. (refl, refl))
    After-if (Stays s) K s (flags.admin || governs env s.db slugs rows) (pure ctx) (send_error 401)
        (λ _. k) (λ _. (refl, refl))
  stay K auth_role_admin_or_group_admin_or_group_approver rows flags ctx k = do
    _ ← After-check (Stays s) K env s admin_groups 500 _ (λ _. (refl, refl))
    After-if (Stays s) K s (flags.admin || governs env s.db slugs rows || flags.approver) (pure ctx)
        (send_error 401) (λ _. k) (λ _. (refl, refl))
  stay K auth_role_user rows flags ctx k = (refl, refl)
  stay K auth_role_admin rows flags ctx k = (refl, refl)

  pub group_auth_required-Stays :
      (role : AuthRole) (token : Token) (id : String)
      → After (Stays s) (λ _ t. t ≡ s) (group_auth_required env role slugs token id s)
  unfolding group_auth_required
  group_auth_required-Stays role token id =
      let P = Stays s in
      let K = λ (_ : Context) (t : State). t ≡ s in
      do
        _ ← After-if P K s (not (contains token.roles "openid")) (pure no_context) _ (λ _. refl)
        _ ← After-if P K s (token.user == "") (send_error 401) _ (λ _. (refl, refl))
        _ ← After-if P K s (id == "") (send_error 401) _ (λ _. (refl, refl))
        (group, _) ←
            After-one P K env s find_group_row 401 500 (find_group s.db id) _ (λ _ _. (refl, refl))
        (user, _) ←
            After-one P K env s find_user_row 401 500 (user_of_token env s.db token.user) _
              (λ _ _. (refl, refl))
        _ ← After-check P K env s memberships_before 500 _ (λ _. (refl, refl))
        (rows, _) ← After-await P K env s (memberships_by_user s.db user.id) _ (λ _. (refl, refl))
        (flags, _) ←
            After-or_panic P K s
              (scan env id group.approver_group (populate_models s.db rows) no_flags) _
              (λ _. (refl, refl))
        stay K role (populate_models s.db rows) flags _ refl

-- A request that the middleware refuses changes no row.
pub continue-keeps :
    (Q : Db → Type 0) {A : Type 0} (s : State) (r : Outcome A × State) (f : A → Handler (Unit {0}))
    → After (Stays s) (λ _ t. t ≡ s) r
    → Q s.db
    → ((a : A) → r ≡ (ok a, s) → Q (f a s).1.db)
    → Q (continue r f).1.db
continue-keeps Q s (ok a, t) f same before goes =
    subst (λ x. Q (f a x).1.db) (sym same) (goes a (ap (λ x. (ok a, x)) same))
continue-keeps Q s (returned, t) f (same, _) before goes = subst Q (sym same) before
continue-keeps Q s (panicked, t) f (same, _) before goes = subst Q (sym same) before
continue-keeps Q s (hung, t) f (same, _) before goes = subst Q (sym same) before
