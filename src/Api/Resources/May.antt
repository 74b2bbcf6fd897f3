-- ===== src/Api/Resources/May.antt =====
-- Who may change the resources of a definition, and the steps that the two middlewares share.
use governor_api.Prelude.{
  ℕ, String, ◌≡◌, ◌≢◌, refl, sym, ap, subst, ◌∙◌, ◌⊎◌, ⊎_elim, Bool, true, false, not, Option, none,
  some, not-true, not-false, eq_of_some,
}
use governor_api.Db.{Db, User, Extension, ExtensionResourceDefinition}
use governor_api.Hierarchy.{contains}
use governor_api.Membership.Enumeration.{IsMember}
use governor_api.Api.{Call, find_extension_row, Env, State, returned, send_error}
use governor_api.Api.Chain.{◌>>=◌}
use governor_api.Api.Rules.{Post, After, After-bind, After-one, After-if, After-match}
use governor_api.Api.Auth.{Token, Context}
use governor_api.Api.Auth.Pass.{Refuses}
use governor_api.Api.Resources.{
  ResourcePath, Loaded, find_extension, find_erd, find_erd_for_extension_resource, admin_group_of,
  is_gov_admin, load, if_enabled, enabled_check,
}

-- The extension and the definition of a path.
pub record Names (env : Env) (path : ResourcePath) (db : Db) (l : Loaded) : Type 0 where
  pub extension_is : find_extension env path db ≡ some l.extension
  pub erd_is : find_erd env path db l.extension ≡ some l.erd

-- Who may change the resources of a definition: a service, a governor admin, and a member, direct or
-- not, of the admin group of the definition.
abbrev pub Entitled : Env → ResourcePath → Token → Context → Db → Loaded → Type 0
Entitled env path token ctx db l =
    (contains token.roles "openid" ≡ false)
    ⊎ ((user : User) × (ctx.current_user ≡ some user)
        × ((is_gov_admin env path ctx ≡ true)
            ⊎ ((group : String) × (admin_group_of env path l.erd ≡ some group)
                × IsMember db group user.id)))

pub record May (env : Env) (path : ResourcePath) (token : Token) (ctx : Context) (db : Db)
    (l : Loaded) : Type 0 where
  pub named : Names env path db l
  pub entitled : Entitled env path token ctx db l
  pub extension_enabled : l.extension.enabled ≡ true
  pub erd_enabled : l.erd.enabled ≡ true

pub Names-same :
    (env : Env) (path : ResourcePath) (db : Db) (l k : Loaded)
    → Names env path db l
    → Names env path db k
    → l ≡ k
Names-same env path db l k a b =
    let e : l.extension ≡ k.extension = eq_of_some (sym a.extension_is ∙ b.extension_is) in
    let d : l.erd ≡ k.erd =
      eq_of_some
        (sym a.erd_is ∙ subst (λ x. find_erd env path db x ≡ some k.erd) (sym e) b.erd_is) in
    ap (λ (x : Extension). record l { extension = x }) e
    ∙ ap (λ (x : ExtensionResourceDefinition). record k { erd = x }) d

pub differ : {b : Bool} → b ≡ true → b ≢ false
differ e f = cc (e, f)

module _ (env : Env) (path : ResourcePath) (token : Token) (ctx : Context) (s : State) where
  -- A refusal changes nothing, and where no call fails nobody may pass.
  abbrev pub RefusesAccess : Post
  RefusesAccess o t =
      Refuses s o t
      × (((call : Call) → env.fails call ≡ false) → (l : Loaded) → ¬ May env path token ctx s.db l)

  abbrev pub GrantsAccess : Loaded → State → Type 0
  GrantsAccess l t = May env path token ctx s.db l × (t ≡ s)

  abbrev pub Calm : Type 0
  Calm = (call : Call) → env.fails call ≡ false

  abbrev pub refusal :
      (code : ℕ)
      → (Calm → (l : Loaded) → ¬ May env path token ctx s.db l)
      → RefusesAccess returned (record s { response = some code })
  refusal code nobody = ((refl, (code, refl)), nobody)

  pub After-find :
      (K : Loaded → State → Type 0)
      → ((x : (l : Loaded) × Names env path s.db l) → K x.0 s)
      → After RefusesAccess K (find_erd_for_extension_resource env path s)
  After-find K good = do
    (extension, is) ←
        After-one RefusesAccess K env s find_extension_row 404 400 (find_extension env path s.db) _
          (λ code why. refusal code (λ calm l may.
            ⊎_elim (λ fails. cc (fails, calm find_extension_row))
              (λ missing. cc (missing, may.named.extension_is)) why))
    (erd, erd_is) ← After-match RefusesAccess K s (find_erd env path s.db extension) _ _ (λ missing.
        refusal 404 (λ calm l may.
          let same = eq_of_some (sym is ∙ may.named.extension_is) in
          cc (subst (λ x. find_erd env path s.db x ≡ none) same missing, may.named.erd_is)))
    good
        (record { extension = extension; erd = erd }, record { extension_is = is; erd_is = erd_is })

  pub After-enabled :
      (saved : Option Loaded)
      → ((l : Loaded) → saved ≡ some l → Names env path s.db l)
      → ((l : Loaded) → Names env path s.db l → Entitled env path token ctx s.db l)
      → After RefusesAccess GrantsAccess (enabled_check env path saved s)
  After-enabled saved named entitled =
      let K =
        λ (l : Loaded) (t : State). After RefusesAccess GrantsAccess (if_enabled env path l t) in
      After-bind RefusesAccess GrantsAccess (load env path saved s) (if_enabled env path)
        (load_again K saved refl (λ (l, names). finish l names))
    where
      load_again :
          (K : Loaded → State → Type 0) (o : Option Loaded)
          → o ≡ saved
          → ((x : (l : Loaded) × Names env path s.db l) → K x.0 s)
          → After RefusesAccess K (load env path o s)
      load_again K none is good = After-find K good
      load_again K (some l) is good = good (l, named l (sym is))

      finish :
          (l : Loaded)
          → Names env path s.db l
          → After RefusesAccess GrantsAccess (if_enabled env path l s)
      finish l names = do
        on ←
            After-if RefusesAccess GrantsAccess s (not l.extension.enabled) (send_error 400) _
              (λ off. refusal 400 (λ calm k may.
                let same = Names-same env path s.db l k names may.named in
                differ may.extension_enabled
                  (subst (λ (x : Loaded). x.extension.enabled ≡ false) same (not-true off))))
        erd_on ←
            After-if RefusesAccess GrantsAccess s (not l.erd.enabled) (send_error 400) _ (λ off.
              refusal 400 (λ calm k may.
                let same = Names-same env path s.db l k names may.named in
                differ may.erd_enabled
                  (subst (λ (x : Loaded). x.erd.enabled ≡ false) same (not-true off))))
        (
          record {
            named = names;
            entitled = entitled l names;
            extension_enabled = not-false on;
            erd_enabled = not-false erd_on;
          },
          refl,
        )

  -- What is left to do after mwSystemExtensionResourceGroupAuth.
  abbrev pub Goes : Option Loaded → State → Type 0
  Goes saved t = After RefusesAccess GrantsAccess (enabled_check env path saved t)
