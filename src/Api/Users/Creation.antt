-- ===== src/Api/Users/Creation.antt =====
-- createUser: the requests it accepts, and what it commits and publishes.
use governor_api.Prelude.{
  ℤ, String, ◌≡◌, ◌≢◌, ◌⊎◌, inl, inr, ◌&&◌, and_iff, any_iff, eq_iff, eq-cases, eq_of_some,
  parse_int, Memᴰ, arith, refl, sym, ap, true, false, Option, none, some, List, [], ◌∷◌, ◌++◌, ◌==◌,
  if◌then◌else◌,
}
use governor_api.Db.{Db, User, is_null}
use governor_api.Api.{Env, Action, create, Event, users}
use governor_api.Api.Writes.Runs.{Effect}
use governor_api.Api.Members.{is_active_user}
use governor_api.Api.Users.{UserReq, is_user_status, first_status, given_number, email_exists}

-- The event of a user, where it is published.
abbrev pub told : Env → User → Action → List Event
told env user action =
    if is_active_user user
    then record {
      subject = users;
      action = action;
      audit_id = env.audit_id;
      group_id = "";
      user_id = user.id;
      application_id = "";
      actor_id = elim env.user [ none ↦ "" | some actor ↦ actor.id ];
    }
      ∷ []
    else []

-- The audit event of a user.
abbrev pub user_recorded : Env → String → String → Db → Db
user_recorded env action user_id db = record db {
  audit_events =
      db.audit_events
      ++ record {
        parent_id = some env.audit_id;
        actor_id = elim env.user [ none ↦ none | some actor ↦ some actor.id ];
        action = action;
        subject_group_id = none;
        subject_user_id = some user_id;
        subject_application_id = none;
      }
        ∷ [];
}

-- A text that is given.
abbrev pub if_given : String → Option String
if_given text = if text == "" then none else some text

-- A request for a new user, whose email no user has, in capitals or not.
pub record Registered (env : Env) (body : Option UserReq) (db : Db) : Type 0 where
  pub req : UserReq
  pub github_id : Option ℤ
  pub bound : body ≡ some req
  pub has_email : (req.email == "") ≡ false
  pub has_name : (req.name == "") ≡ false
  pub absent :
      (u : User) → Memᴰ u db.users → u.deleted_at ≡ none → env.lower u.email ≢ env.lower req.email
  pub number :
      ((req.github_id ≡ "") × (github_id ≡ none))
      ⊎ ((n : ℤ) × (parse_int req.github_id ≡ some n) × (github_id ≡ some n))
  pub status : String
  pub first :
      ((req.status ≢ "") × (status ≡ req.status))
      ⊎ ((req.status ≡ "")
          × (((req.external_id ≡ "") × (status ≡ "pending"))
              ⊎ ((req.external_id ≢ "") × (status ≡ "active"))))
  pub in_enum : (status ≡ "pending") ⊎ ((status ≡ "active") ⊎ (status ≡ "suspended"))

abbrev pub registered_user : (env : Env) (req : UserReq) → Option ℤ → String → User
registered_user env req github_id status = record {
  id = env.fresh_id;
  external_id = if_given req.external_id;
  name = req.name;
  email = req.email;
  status = some status;
  avatar_url = if_given req.avatar_url;
  github_id = github_id;
  github_username = if_given req.github_username;
  deleted_at = none;
}

abbrev pub registration :
    (env : Env) (body : Option UserReq) (db : Db) → Effect (Registered env body db)
registration env body db = record {
  result = λ a.
      let user = registered_user env a.req a.github_id a.status in
      user_recorded env "user.created" env.fresh_id (record db { users = db.users ++ user ∷ [] });
  first = λ a. [];
  last = λ a. told env (registered_user env a.req a.github_id a.status) create;
  code = 202;
}

pub not-email_exists :
    (env : Env) (db : Db) (email : String)
    → email_exists env db email ≡ false
    → (u : User) → Memᴰ u db.users
    → u.deleted_at ≡ none
    → env.lower u.email ≢ env.lower email
not-email_exists env db email absent u listed live same =
    let test = λ (u : User). env.lower u.email == env.lower email && is_null u.deleted_at in
    let equal : (env.lower u.email == env.lower email) ≡ true =
      (eq_iff (env.lower u.email) (env.lower email)).1 same in
    let is_live : is_null u.deleted_at ≡ true = ap is_null live in
    let found = (any_iff test db.users).1 (u, listed, (and_iff _ _).1 (equal, is_live)) in
    cc (found, absent)

pub number_given :
    (text : String) (number : Option ℤ)
    → given_number text none ≡ some number
    → ((text ≡ "") × (number ≡ none)) ⊎ ((n : ℤ) × (parse_int text ≡ some n) × (number ≡ some n))
number_given text number is = elim (eq-cases text "") [
  | inl (hit, e) ↦ inl (e, eq_of_some (sym (rw hit at is)))
  | inr (miss, _) ↦ inr (go (parse_int text) refl (rw miss at is))
]
  where
    go :
        (o : Option ℤ)
        → parse_int text ≡ o
        → (elim o [ none ↦ none | some n ↦ some (some n) ]) ≡ some number
        → (n : ℤ) × (parse_int text ≡ some n) × (number ≡ some n)
    go none read given = cc
    go (some n) read given = (n, read, eq_of_some (sym given))

pub status_given :
    (req : UserReq)
    → is_user_status (first_status req) ≡ true
    → (status : String) × (first_status req ≡ some status)
      × (((req.status ≢ "") × (status ≡ req.status))
          ⊎ ((req.status ≡ "")
              × (((req.external_id ≡ "") × (status ≡ "pending"))
                  ⊎ ((req.external_id ≢ "") × (status ≡ "active")))))
      × ((status ≡ "pending") ⊎ ((status ≡ "active") ⊎ (status ≡ "suspended")))
status_given req in_enum = elim (eq-cases req.status "") [
  | inl (hit, e) ↦ elim (eq-cases req.external_id "") [
    | inl (none_given, is) ↦
        ("pending", rw (hit, none_given) refl, inr (e, inl (is, refl)), inl refl)
    | inr (some_given, is) ↦
        ("active", rw (hit, some_given) refl, inr (e, inr (is, refl)), inr (inl refl))
  ]
  | inr (miss, apart) ↦ (
    req.status,
    rw miss refl,
    inl (apart, refl),
    ground (
      arith,
      rw miss at in_enum,
      eq_iff req.status "pending",
      eq_iff req.status "active",
      eq_iff req.status "suspended",
    ),
  )
]
