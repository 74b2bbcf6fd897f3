-- ===== src/Api/Login/Runs.antt =====
-- mwUserAuthRequired: every run of it, and what it lets pass.
use governor_api.Prelude.{
  ℕ, String, ◌≡◌, ◌≢◌, refl, sym, subst, ◌∙◌, eq_of_some, ◌↔◌, inl, inr, Bool, true, false, not,
  not-true, not-false, Option, none, some, List, [], ◌∷◌, ◌++◌, length, nat_eq, ◌==◌, eq_iff,
}
use governor_api.Db.{Db, User, find}
use governor_api.Hierarchy.{contains}
use governor_api.Hierarchy.Cycle.{IsAcyclic}
use governor_api.Membership.{memberships_by_user}
use governor_api.Membership.Enumeration.{IsMember}
use governor_api.Api.{
  Call, begin_tx, find_user_row, insert_row, audit, audit_context, memberships_before, commit_tx,
  publish_last, admin_groups, Env, State, ok, returned, Handler, pure, send_error,
}
use governor_api.Api.Chain.{◌>>=◌}
use governor_api.Api.Rules.{After, After-check, After-check_tx, After-await, After-if}
use governor_api.Api.Events.{After-bound}
use governor_api.Api.Members.Runs.{user-enumerates}
use governor_api.Api.Auth.{
  AuthRole, auth_role_user, auth_role_admin, auth_role_group_member, auth_role_group_admin,
  auth_role_admin_or_group_admin, auth_role_admin_or_group_admin_or_group_approver, Token, Context,
  OidcUserInfo, no_context, user_of_token,
}
use governor_api.Api.Auth.Groups.{IsGovernor, governs-IsGovernor}
use governor_api.Membership.Gained.{user-IsEnumeration}
use governor_api.Api.Login.{
  known_context, users_event, register, decide_user, known, user_auth_required,
}
use governor_api.Api.Login.Passes.{
  newcomer, registered, login_context, IsConfirmed, MayPass, LoginPasses, MayLogin, LoginStops,
  skips_login, has_row, registers,
}

denied :
    (env : Env) (role : AuthRole) (slugs : List String) (token : Token) (header : List String)
    (user_info : Option OidcUserInfo) (db : Db) (user : User)
    → user_of_token env db token.user ≡ some user
    → ¬ MayPass role db slugs user.id
    → ¬ MayLogin env role slugs token header user_info db
denied env role slugs token header user_info db user found may_not (_, _, inl (v, is_v, may)) =
    may_not (subst (λ (x : User). MayPass role db slugs x.id) (eq_of_some (sym is_v ∙ found)) may)
denied env role slugs token header user_info db user found may_not (_, _, inr (missing, _, _)) =
    cc (found, missing)

unconfirmed :
    (env : Env) (role : AuthRole) (slugs : List String) (token : Token) (header : List String)
    (user_info : Option OidcUserInfo) (db : Db)
    → user_of_token env db token.user ≡ none
    → (nat_eq (length header) 2 ≡ true
        → (info : OidcUserInfo) → user_info ≡ some info
        → ¬ IsConfirmed token info)
    → ¬ MayLogin env role slugs token header user_info db
unconfirmed env role slugs token header user_info db missing no_info (_, _, inl (v, is_v, _)) =
    cc (missing, is_v)
unconfirmed env role slugs token header user_info db missing no_info
      (_, _, inr (_, two, (info, bound, confirmed))) =
    no_info two info bound confirmed

decide-LoginPasses :
    (env : Env) (slugs : List String) (token : Token) (header : List String)
    (user_info : Option OidcUserInfo) (s : State) (user : User) (is_admin : Bool)
    → user_of_token env s.db token.user ≡ some user
    → (is_admin ≡ true) ↔ IsGovernor s.db slugs user.id
    → (role : AuthRole)
    → After
        (LoginStops env role slugs token header user_info s)
        (LoginPasses env role slugs token user_info s)
        (decide_user env role user is_admin s)
decide-LoginPasses env slugs token header user_info s user is_admin found iff = decides
  where
    refusal :
        (role : AuthRole)
        → ¬ MayPass role s.db slugs user.id
        → LoginStops env role slugs token header user_info s returned
            (record s { response = some 401 })
    refusal role may_not =
        (refl, inl refl, λ _. denied env role slugs token header user_info s.db user found may_not)

    decides :
        (role : AuthRole)
        → After
            (LoginStops env role slugs token header user_info s)
            (LoginPasses env role slugs token user_info s)
            (decide_user env role user is_admin s)
    decides auth_role_user = has_row user is_admin found tt iff refl refl
    decides auth_role_admin =
        After-if (LoginStops env auth_role_admin slugs token header user_info s)
          (LoginPasses env auth_role_admin slugs token user_info s) s is_admin
          (pure (known_context env user is_admin)) (send_error 401)
          (λ e. has_row user is_admin found (iff.0 e) iff refl refl)
          (λ e. refusal auth_role_admin (λ governor. let yes = iff.1 governor in cc (e, yes)))
    decides auth_role_group_member = refusal auth_role_group_member (λ may. may)
    decides auth_role_group_admin = refusal auth_role_group_admin (λ may. may)
    decides auth_role_admin_or_group_admin = refusal auth_role_admin_or_group_admin (λ may. may)
    decides auth_role_admin_or_group_admin_or_group_approver =
        refusal auth_role_admin_or_group_admin_or_group_approver (λ may. may)

module _ (env : Env) (role : AuthRole) (slugs : List String) (token : Token) (header : List String)
    (user_info : Option OidcUserInfo) (s : State) where
  -- Where a call fails nothing is said of who may pass.
  failed :
      (call : Call)
      → env.fails call ≡ true
      → ((c : Call) → env.fails c ≡ false)
      → ¬ MayLogin env role slugs token header user_info s.db
  failed call fails calm _ = cc (fails, calm call)

  unlike : {a b : String} → not (a == b) ≡ true → a ≢ b
  unlike {a} {b} differ same = cc (differ, (eq_iff a b).1 same)

  register-LoginPasses :
      user_of_token env s.db token.user ≡ none
      → After
          (LoginStops env role slugs token header user_info s)
          (LoginPasses env role slugs token user_info s)
          (register env token header user_info s)
  unfolding register
  register-LoginPasses missing =
      let P = LoginStops env role slugs token header user_info s in
      let K = LoginPasses env role slugs token user_info s in
      let stop : (code : ℕ)
          → (nat_eq (length header) 2 ≡ true
              → (info : OidcUserInfo) → user_info ≡ some info
              → ¬ IsConfirmed token info)
          → P returned (record s { response = some code }) =
        λ code why. (
          refl,
          inl refl,
          λ _. unconfirmed env role slugs token header user_info s.db missing why,
        ) in
      do
        _ ←
            After-if P K s (not (nat_eq (length header) 2)) (send_error 401) _
              (λ other. stop 401 (λ two _ _ _. cc (other, two)))
        (info, bound) ←
            After-bound P K env s user_info _ (λ nothing. stop 400 (λ _ i is _. cc (nothing, is)))
        let same_info : (i : OidcUserInfo) → user_info ≡ some i → i ≡ info =
            λ i is. eq_of_some (sym is ∙ bound)
        named ← After-if P K s (info.name == "") (send_error 400) _ (λ empty. stop 400 (λ _ i is c.
            let no_name =
              subst (λ (x : OidcUserInfo). (x.name == "") ≡ false) (same_info i is) c.named in
            cc (empty, no_name)))
        email ← After-if P K s (not (info.email == token.subject)) (send_error 400) _ (λ other.
            stop 400 (λ _ i is c.
              unlike other
                (subst (λ (x : OidcUserInfo). x.email ≡ token.subject) (same_info i is) c.email)))
        sub ← After-if P K s (not (info.sub == token.user)) (send_error 400) _ (λ other.
            stop 400 (λ _ i is c.
              unlike other
                (subst (λ (x : OidcUserInfo). x.sub ≡ token.user) (same_info i is) c.sub)))
        let confirmed : IsConfirmed token info = record {
          named = named;
          email = (eq_iff info.email token.subject).0 (not-false email);
          sub = (eq_iff info.sub token.user).0 (not-false sub);
        }
        let done = registered env s.db info
        let waiting = record s { tx = some done }
        _ ← After-check P K env s begin_tx 400 _ (λ e. (refl, inl refl, failed begin_tx e))
        _ ←
            After-check P K env (record s { tx = some s.db }) insert_row 400 _
              (λ e. (refl, inl refl, failed insert_row e))
        _ ← After-check_tx P K env _ audit 400 _ (λ e. (refl, inl refl, failed audit e))
        _ ←
            After-check_tx P K env waiting audit_context 400 _
              (λ e. (refl, inl refl, failed audit_context e))
        _ ←
            After-check_tx P K env waiting commit_tx 400 _
              (λ e. (refl, inl refl, failed commit_tx e))
        After-check P K env (record s { db = done; tx = none }) publish_last 400 _
            (λ e. (
              refl,
              inr (info, bound, missing, confirmed, refl),
              λ calm _. cc (e, calm publish_last),
            ))
            (λ _. registers info bound missing confirmed refl refl refl)

  known-LoginPasses :
      (user : User)
      → IsAcyclic s.db
      → user_of_token env s.db token.user ≡ some user
      → After
          (LoginStops env role slugs token header user_info s)
          (LoginPasses env role slugs token user_info s)
          (known env role slugs s.db user s)
  unfolding known
  known-LoginPasses user acyclic found =
      let P = LoginStops env role slugs token header user_info s in
      let K = LoginPasses env role slugs token user_info s in
      do
        _ ←
            After-check P K env s memberships_before 500 _
              (λ e. (refl, inl refl, failed memberships_before e))
        (rows, is) ←
            After-await P K env s (memberships_by_user s.db user.id) _
              (λ e. absurd (user-enumerates s.db user.id acyclic e))
        _ ← After-check P K env s admin_groups 500 _ (λ e. (refl, inl refl, failed admin_groups e))
        let enumerates = user-IsEnumeration s.db user.id acyclic rows is
        let iff =
            governs-IsGovernor env s.db user.id rows
              (λ m n.
                let (member, is_u) =
                  enumerates.sound m.group_id m.user_id (m, n, refl, refl, refl) in
                subst (IsMember s.db m.group_id) is_u member)
              (λ g member.
                let (m, n, is_g, _, _) = enumerates.complete g user.id member refl in (m, n, is_g))
              slugs
        decide-LoginPasses env slugs token header user_info s user _ found iff role

-- While the hierarchies have no cycle, mwUserAuthRequired always answers. It lets a user with a row
-- pass under the role of a user, and under the role of an admin exactly as a member of a governor
-- admin group, and says in the context whether the user is one. A user without a row whom the
-- provider confirms is registered, with the audit event, and passes; whatever else stops changes no
-- row, unless it is the event bus that fails after the registration. Where no call fails, none of
-- these users is stopped.
pub user_auth_required-LoginPasses :
    (env : Env) (role : AuthRole) (slugs : List String) (token : Token) (header : List String)
    (user_info : Option OidcUserInfo) (s : State)
    → IsAcyclic s.db
    → After
        (LoginStops env role slugs token header user_info s)
        (LoginPasses env role slugs token user_info s)
        (user_auth_required env role slugs token header user_info s)
unfolding user_auth_required
user_auth_required-LoginPasses env role slugs token header user_info s acyclic =
    let P = LoginStops env role slugs token header user_info s in
    let K = LoginPasses env role slugs token user_info s in
    do
      _ ←
          After-if P K s (not (contains token.roles "openid")) (pure no_context) _
            (λ e. skips_login (not-true e) refl refl)
      _ ←
          After-if P K s (token.user == "") (send_error 401) _
            (λ e. (refl, inl refl, λ _ (_, some_user, _). cc (e, some_user)))
      _ ←
          After-check P K env s find_user_row 500 _
            (λ e. (refl, inl refl, failed env role slugs token header user_info s find_user_row e))
      go (user_of_token env s.db token.user) refl
  where
    go :
        (o : Option User)
        → user_of_token env s.db token.user ≡ o
        → (let run : Handler Context = elim o [
          | none ↦ register env token header user_info
          | some user ↦ known env role slugs s.db user
        ] in
            After
              (LoginStops env role slugs token header user_info s)
              (LoginPasses env role slugs token user_info s)
              (run s))
    go none missing = register-LoginPasses env role slugs token header user_info s missing
    go (some user) found =
        known-LoginPasses env role slugs token header user_info s user acyclic found

-- The first request of a user whom the provider confirms passes under every role, that of an admin
-- too, if no call fails.
pub first_request_passes :
    (env : Env) (role : AuthRole) (slugs : List String) (token : Token) (header : List String)
    (info : OidcUserInfo) (s : State)
    → ((c : Call) → env.fails c ≡ false)
    → contains token.roles "openid" ≡ true
    → (token.user == "") ≡ false
    → user_of_token env s.db token.user ≡ none
    → nat_eq (length header) 2 ≡ true
    → IsConfirmed token info
    → user_auth_required env role slugs token header (some info) s ≡ (
      ok (login_context (newcomer env info) false false),
      record s {
        db = registered env s.db info;
        tx = none;
        published = s.published ++ users_event env env.fresh_id ∷ [];
      },
    )
unfolding user_auth_required register find
first_request_passes env role slugs token header info s works scope named_user missing two
      confirmed =
    let email = (eq_iff info.email token.subject).1 confirmed.email in
    let sub = (eq_iff info.sub token.user).1 confirmed.sub in
    rw
      (
        scope,
        named_user,
        works find_user_row,
        missing,
        two,
        confirmed.named,
        email,
        sub,
        works begin_tx,
        works insert_row,
        works audit,
        works audit_context,
        works commit_tx,
        works publish_last,
      )
      refl
