-- ===== src/Api/Users/Update.antt =====
-- updateUser: every run, and that it keeps the database sound.
use governor_api.Prelude.{
  ℤ, ℕ, String, ◌≡◌, ◌≢◌, ◌↔◌, ◌∙◌, map, eq_iff, ◌==◌, if◌then◌else◌, refl, sym, ap, subst, Bool,
  true, false, ◌&&◌, and_iff, Option, none, some, List, [], ◌∷◌, ◌++◌,
}
use mathlib.Core.List.{append_assoc}
use governor_api.Db.{Db, User, find_user}
use governor_api.Api.{
  begin_tx, find_user_row, find_row, update_row, Env, create, update, Event, State, Outcome, ok,
  returned, panicked, hung, send_error,
}
use governor_api.Api.Rules.{Post, After, After-end, After-check, After-one, After-if}
use governor_api.Api.Chain.{◌>>=◌}
use governor_api.Api.Events.{After-bind_json}
use governor_api.Api.Sound.{IsSound}
use governor_api.Api.Writes.Runs.{
  Effect, WriteRun, refused, early, heard, publish_each-heard, After-commit_audited, WriteRun-keeps,
}
use governor_api.Api.Members.{is_active_user}
use governor_api.Api.Users.{
  UserReq, is_empty, is_user_status, given_number, next_status, user_event, announce_user,
  save_user, updated_user, direct_events, activate, update_user,
}
use governor_api.Api.Users.Creation.{told, user_recorded}
use governor_api.Api.Users.Runs.{After-announce_user, After-write_user}
use governor_api.Api.Users.Moves.{Activates, Follows, next_status-Follows, moves_lem}

-- A request for a user that is there, with a status that the user may get.
pub record Updated (env : Env) (id : String) (body : Option UserReq) (db : Db) : Type 0 where
  pub original : User
  pub req : UserReq
  pub status : Option String
  pub user_activated : Bool
  pub github_id : Option ℤ
  pub found : find_user db id ≡ some original
  pub bound : body ≡ some req
  pub not_empty : is_empty req ≡ false
  pub moves : next_status original req.status ≡ some (status, user_activated)
  pub follows : Follows original req.status status
  pub activation : (user_activated ≡ true) ↔ Activates original req
  pub number : given_number req.github_id original.github_id ≡ some github_id
  pub in_enum : is_user_status status ≡ true

module _ (env : Env) (id : String) (body : Option UserReq) (db : Db) where
  -- The old row with the fields that are given.
  abbrev pub new_row : Updated env id body db → User
  new_row a = record a.original {
    avatar_url = if a.req.avatar_url == "" then a.original.avatar_url else some a.req.avatar_url;
    email = if a.req.email == "" then a.original.email else a.req.email;
    external_id =
        if a.req.external_id == "" then a.original.external_id else some a.req.external_id;
    name = if a.req.name == "" then a.original.name else a.req.name;
    status = a.status;
    github_id = a.github_id;
    github_username =
        if a.req.github_username == ""
        then a.original.github_username
        else some a.req.github_username;
  }

  abbrev pub update_result : Updated env id body db → Db
  update_result a =
      user_recorded env "user.updated" a.original.id
        (record db { users = map (λ u. if u.id == a.original.id then new_row a else u) db.users })

  pub record Plain : Type 0 where
    pub updated : Updated env id body db
    pub not_activated : ¬ Activates updated.original updated.req

  -- An update that does not activate the user.
  abbrev pub updating : Effect Plain
  updating = record {
    result = λ a. update_result a.updated;
    first = λ a. [];
    last = λ a. told env (new_row a.updated) update;
    code = 202;
  }

  -- The events of an activation, without those that the event bus loses.
  abbrev pub creation_heard : Updated env id body db → List Event
  creation_heard a = heard env 0 (user_event env create a.original.id ∷ [])

  abbrev pub members_heard : Updated env id body db → List Event
  members_heard a = heard env 1 (direct_events env db a.original.id)

  pub data UpdateRun (s : State) (o : Outcome (Unit {0})) (t : State) : Type 0 where
    plain : WriteRun updating s o t → UpdateRun s o t
    activated :
        (a : Updated env id body db)
        → Activates a.original a.req
        → o ≡ ok tt
        → t ≡ record s {
          db = update_result a;
          tx = none;
          published = s.published ++ (creation_heard a ++ members_heard a);
          response = some 202;
        }
        → UpdateRun s o t
    -- the query for the memberships fails
    cut_off :
        (a : Updated env id body db)
        → Activates a.original a.req
        → o ≡ returned
        → t ≡ record s {
          db = update_result a;
          tx = none;
          published = s.published ++ creation_heard a;
          response = some 500;
        }
        → UpdateRun s o t

After-plain :
    (env : Env) (id : String) (body : Option UserReq) (db : Db) (s : State)
    (r : Outcome (Unit {0}) × State)
    → After
        (WriteRun (updating env id body db) s)
        (λ _. WriteRun (updating env id body db) s (ok tt))
        r
    → After (UpdateRun env id body db s) (λ _. UpdateRun env id body db s (ok tt)) r
After-plain env id body db s (ok x, t) h = plain h
After-plain env id body db s (returned, t) h = plain h
After-plain env id body db s (panicked, t) h = plain h
After-plain env id body db s (hung, t) h = plain h

After-activate :
    (env : Env) (id : String) (body : Option UserReq) (s : State) (a : Updated env id body s.db)
    → Activates a.original a.req
    → After
        (UpdateRun env id body s.db s)
        (λ _. UpdateRun env id body s.db s (ok tt))
        (activate env
          (new_row env id body s.db a)
          (record s { db = update_result env id body s.db a; tx = none }))
unfolding activate
After-activate env id body s a activates =
    let P : Post = UpdateRun env id body s.db s in
    let K = λ (_ : Unit {0}) (t : State). P (ok tt) t in
    let at_commit = record s { db = update_result env id body s.db a; tx = none } in
    let first = creation_heard env id body s.db a in
    let after_first = record at_commit { published = s.published ++ first } in
    rw (publish_each-heard env 0 (user_event env create a.original.id ∷ []) at_commit) (do
      _ ← After-check P K env after_first find_row 500 _ (λ _. cut_off a activates refl refl)
      rw (publish_each-heard env 1 (direct_events env s.db a.original.id) after_first) (
          activated a activates refl (
            ap (λ (l : List Event). record at_commit { published = l; response = some 202 })
              (append_assoc s.published first (members_heard env id body s.db a)))))

-- Every run of updateUser, whichever calls fail, is a refusal that changes nothing, or commits
-- exactly the fields that the request gives, with a status that the user may get (the old one, or
-- the one given, which is never pending, and suspended only for an active user), and the audit
-- event. For a user who is not activated by it it then publishes the event of the update, unless
-- the event bus fails, and none for a user who is neither active nor suspended. For a pending user
-- who is made active it publishes instead the event of the creation, and an event for each row of
-- the user in the table of memberships, but for those that the event bus loses, and only the first
-- of them if the query for the rows fails.
pub update_user-UpdateRun :
    (env : Env) (id : String) (body : Option UserReq) (s : State)
    → s.tx ≡ none
    → UpdateRun env id body s.db s (update_user env id body s).0 (update_user env id body s).1
unfolding update_user
update_user-UpdateRun env id body s idle =
    let effect = updating env id body s.db in
    let P : Post = UpdateRun env id body s.db s in
    let K = λ (_ : Unit {0}) (t : State). P (ok tt) t in
    let stop : P returned (record s { tx = none; response = some 400 }) =
      plain (refused 400 refl refl) in
    let back = λ (code : ℕ). plain (early effect s idle code) in
    After-end P (update_user env id body s) (do
      (original, found) ←
          After-one P K env s find_user_row 404 500 (find_user s.db id) _ (λ code _. back code)
      (req, bound) ← After-bind_json P K env s body _ (back 400)
      not_empty ← After-if P K s (is_empty req) (send_error 400) _ (λ _. back 400)
      ((status, user_activated), moves) ←
          After-bind_json P K env s (next_status original req.status) _ (back 400)
      (github_id, number) ←
          After-bind_json P K env s (given_number req.github_id original.github_id) _ (back 400)
      let user = updated_user env original req status github_id
      _ ← After-check P K env s begin_tx 400 _ (λ _. back 400)
      let started = record s { tx = some s.db }
      in_enum ← After-write_user P K env started update_row user (save_user env user) _ stop
      let waiting = record s { tx = some (save_user env user s.db) }
      _ ← After-commit_audited P K env waiting _ _ stop
      let (activation, moved) = moves_lem original req.status status user_activated moves
      let a : Updated env id body s.db = record {
        original = original;
        req = req;
        status = status;
        user_activated = user_activated;
        github_id = github_id;
        found = found;
        bound = bound;
        not_empty = not_empty;
        moves = moves;
        follows = next_status-Follows original req.status status user_activated moves;
        activation = activation;
        number = number;
        in_enum = in_enum;
      }
      let at_commit = record s { db = update_result env id body s.db a; tx = none }
      After-if P K at_commit (is_active_user user && user_activated) (activate env user)
          (announce_user env user update)
          (λ e.
            After-activate env id body s a
              (activation.0 ((and_iff (is_active_user user) user_activated).0 e).1))
          (λ e. After-plain env id body s.db s _ (
            After-announce_user effect env s
              (record {
                updated = a;
                not_activated = λ (pending, active).
                    let given = moved (λ empty. absurd (apart (sym empty ∙ active))) in
                    let on = activation.1 (pending, active) in
                    let is_active = activated_is_active user (given ∙ ap some active) in
                    let both = (and_iff (is_active_user user) user_activated).1 (is_active, on) in
                    cc (both, e);
              })
              user update refl refl refl)))
  where
    apart : ◌≢◌ {A = String} "" "active"
    apart e = let equal = (eq_iff "" "active").1 e in cc equal

    activated_is_active : (user : User) → user.status ≡ some "active" → is_active_user user ≡ true
    activated_is_active user is = rw is refl

pub UpdateRun-keeps :
    (Q : Db → Type 0) (env : Env) (id : String) (body : Option UserReq) (db : Db) (s : State)
    (o : Outcome (Unit {0})) (t : State)
    → Q s.db
    → ((a : Updated env id body db) → Q (update_result env id body db a))
    → UpdateRun env id body db s o t
    → Q t.db
UpdateRun-keeps Q env id body db s o t before after (plain run) =
    WriteRun-keeps Q (updating env id body db) s o t before (λ a. after a.updated) run
UpdateRun-keeps Q env id body db s o t before after (activated a _ _ is) =
    subst Q (sym (ap (λ (x : State). x.db) is)) (after a)
UpdateRun-keeps Q env id body db s o t before after (cut_off a _ _ is) =
    subst Q (sym (ap (λ (x : State). x.db) is)) (after a)

pub update_user-IsSound :
    (env : Env) (id : String) (body : Option UserReq) (s : State)
    → s.tx ≡ none
    → IsSound s.db
    → IsSound (update_user env id body s).1.db
update_user-IsSound env id body s idle sound =
    UpdateRun-keeps IsSound env id body s.db s _ _ sound
      (λ a. record {
        acyclic = sound.acyclic;
        member_keys = sound.member_keys;
        hierarchy_keys = sound.hierarchy_keys;
      })
      (update_user-UpdateRun env id body s idle)
