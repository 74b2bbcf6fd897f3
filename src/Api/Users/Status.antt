-- ===== src/Api/Users/Status.antt =====
-- The status of a user, as a state machine: a pending user is activated once, and an active one is
-- suspended and made active again.
use governor_api.Prelude.{
  String, and_iff, ◌≡◌, ◌≢◌, refl, sym, ap, subst, ◌∙◌, inl, inr, Bool, true, false, not, ◌&&◌,
  Option, none, some, Memᴰ, Memᴰ-map, Bool-cases, ◌==◌, eq_iff, eq-cases, eq_of_some, arith,
  if◌then◌else◌,
}
use governor_api.Db.{Db, User, find-some, is_null}
use governor_api.Api.{Env, State}
use governor_api.Api.Writes.Runs.{WriteRun-keeps}
use governor_api.Api.Members.{status_of}
use governor_api.Api.Users.{UserReq, is_user_status, next_status, update_user, delete_user}
use governor_api.Api.Users.Runs.{removal, delete_user-WriteRun}
use governor_api.Api.Users.Update.{new_row, UpdateRun-keeps, update_user-UpdateRun}
use governor_api.Api.Server.{idle}

pub data StatusStep : Option String → Option String → Type 0 where
  stays : (status : Option String) → StatusStep status status
  becomes_active : (status : Option String) → StatusStep status (some "active")
  suspends : StatusStep (some "active") (some "suspended")

-- A text of the nullable column.
status_text :
    (user : User) (text : String)
    → text ≢ ""
    → (status_of user == text) ≡ true
    → user.status ≡ some text
status_text user text full e = go user.status refl
  where
    go : (o : Option String) → user.status ≡ o → user.status ≡ some text
    go none is =
        let same : (◌==◌ "" text) ≡ true = rw is at e in
        absurd (full (sym ((eq_iff "" text).0 same)))
    go (some x) is =
        let same : (x == text) ≡ true = rw is at e in is ∙ ap some ((eq_iff x text).0 same)

active-full : ◌≢◌ {A = String} "active" ""
active-full = ground (arith, eq_iff "active" "")

pending-full : ◌≢◌ {A = String} "pending" ""
pending-full = ground (arith, eq_iff "pending" "")

-- The guards of updateUser, with the type of the column, allow exactly the steps, and activation is
-- the step from pending to active.
pub next_status-StatusStep :
    (user : User) (asked : String) (status : Option String) (activated : Bool)
    → next_status user asked ≡ some (status, activated)
    → is_user_status status ≡ true
    → StatusStep user.status status
      × (activated ≡ true → (user.status ≡ some "pending") × (status ≡ some "active"))
next_status-StatusStep user asked status activated moves in_enum = elim (eq-cases asked "") [
  | inl (hit, _) ↦
      let e = eq_of_some (rw hit at moves) in
      (
        subst (StatusStep user.status) (ap (λ p. p.0) e) (stays user.status),
        λ yes. cc (ap (λ p. p.1) e, yes),
      )
  | inr (miss, _) ↦ elim (eq-cases asked "pending") [
    | inl (hit, _) ↦ cc (rw (miss, hit) at moves)
    | inr (other, _) ↦
        elim (Bool-cases (not (status_of user == "active") && asked == "suspended")) [
          | inl refuses ↦ cc (rw (miss, other, refuses) at moves)
          | inr passes ↦
              let e = eq_of_some (rw (miss, other, passes) at moves) in
              let is : some asked ≡ status = ap (λ p. p.0) e in
              (
                step is other passes (subst (λ o. is_user_status o ≡ true) (sym is) in_enum),
                λ yes.
                    let both = (status_of user == "pending") in
                    let (pending, active) =
                      (and_iff both (asked == "active")).0 (ap (λ p. p.1) e ∙ yes) in
                    (
                      status_text user "pending" pending-full pending,
                      sym is ∙ ap some ((eq_iff asked "active").0 active),
                    ),
              )
        ]
  ]
]
  where
    step :
        some asked ≡ status
        → (asked == "pending") ≡ false
        → (not (status_of user == "active") && asked == "suspended") ≡ false
        → is_user_status (some asked) ≡ true
        → StatusStep user.status status
    step is other passes known = elim (eq-cases asked "active") [
      | inl (_, same) ↦
          subst (StatusStep user.status) (ap some (sym same) ∙ is) (becomes_active user.status)
      | inr (not_active, _) ↦
          let suspended : (asked == "suspended") ≡ true =
            ground (arith, known, other, not_active) in
          let was_active : (status_of user == "active") ≡ true =
            ground (arith, passes, suspended) in
          subst (λ o. StatusStep o status) (sym (status_text user "active" active-full was_active))
            (subst (StatusStep (some "active"))
              (ap some (sym ((eq_iff asked "suspended").0 suspended)) ∙ is) suspends)
    ]

-- Each user in the second database is one of the first, with a status that is a step away.
abbrev pub Steps : Db → Db → Type 0
Steps before after =
    (u : User)
    → Memᴰ u after.users
    → (old : User) × Memᴰ old before.users × (old.id ≡ u.id) × StatusStep old.status u.status

none_moves : (db : Db) → Steps db db
none_moves db u listed = (u, listed, refl, stays u.status)

-- Every run of updateUser, whichever calls fail, changes the status of a user only by a step of the
-- machine: to active, or from active to suspended; never to pending.
pub update_user-Steps :
    (env : Env) (id : String) (body : Option UserReq) (s : State)
    → s.tx ≡ none
    → Steps s.db (update_user env id body s).1.db
update_user-Steps env id body s no_tx =
    UpdateRun-keeps (Steps s.db) env id body s.db s _ _ (none_moves s.db)
      (λ a u' listed'.
        let new = new_row env id body s.db a in
        let (u, listed, is) =
          Memᴰ-map (λ (u : User). if u.id == new.id then new else u) u' s.db.users listed' in
        elim (eq-cases u.id new.id) [
          | inl (hit, same) ↦
              let e : u' ≡ new = rw hit at is in
              let (was, _) =
                find-some (λ u. u.id == id && is_null u.deleted_at) s.db.users a.found in
              let (step, _) =
                next_status-StatusStep a.original a.req.status a.status a.user_activated a.moves
                  a.in_enum in
              (
                a.original,
                was,
                sym (ap (λ (x : User). x.id) e),
                subst (λ (x : User). StatusStep a.original.status x.status) (sym e) step,
              )
          | inr (miss, _) ↦
              let e : u' ≡ u = rw miss at is in
              (
                u,
                listed,
                sym (ap (λ (x : User). x.id) e),
                subst (λ (x : User). StatusStep u.status x.status) (sym e) (stays u.status),
              )
        ])
      (update_user-UpdateRun env id body s no_tx)

delete_user-Steps :
    (env : Env) (id : String) (s : State) → s.tx ≡ none → Steps s.db (delete_user env id s).1.db
delete_user-Steps env id s no_tx =
    WriteRun-keeps (Steps s.db) (removal env id s.db) s _ _ (none_moves s.db)
      (λ a u' listed'.
        let drop =
          λ (u : User). if u.id == a.user.id then record u { deleted_at = some env.now } else u in
        let (u, listed, is) = Memᴰ-map drop u' s.db.users listed' in
        let (same, step) = dropped env a.user u u' is in (u, listed, same, step))
      (delete_user-WriteRun env id s no_tx)
  where
    dropped :
        (env : Env) (user u u' : User)
        → u' ≡ (if u.id == user.id then record u { deleted_at = some env.now } else u)
        → (u.id ≡ u'.id) × StatusStep u.status u'.status
    dropped env user u u' is = elim (Bool-cases (u.id == user.id)) [
      | inl hit ↦
          let e : u' ≡ record u { deleted_at = some env.now } = rw hit at is in
          (
            sym (ap (λ (x : User). x.id) e),
            subst (λ (x : User). StatusStep u.status x.status) (sym e) (stays u.status),
          )
      | inr miss ↦
          let e : u' ≡ u = rw miss at is in
          (
            sym (ap (λ (x : User). x.id) e),
            subst (λ (x : User). StatusStep u.status x.status) (sym e) (stays u.status),
          )
    ]

-- The databases after updates and deletions of users, by any caller and with any calls that fail.
pub data UsersReach (start : Db) : Db → Type 0 where
  begins : UsersReach start start
  updates :
      {db : Db} (env : Env) (id : String) (body : Option UserReq)
      → UsersReach start db
      → UsersReach start (update_user env id body (idle db)).1.db
  deletes :
      {db : Db} (env : Env) (id : String)
      → UsersReach start db
      → UsersReach start (delete_user env id (idle db)).1.db

not-step-pending : {s t : Option String} → StatusStep s t → t ≡ some "pending" → s ≡ some "pending"
not-step-pending (stays status) e = e
not-step-pending (becomes_active status) e = absurd (active-pending (eq_of_some e))
  where
    active-pending : ◌≢◌ {A = String} "active" "pending"
    active-pending = ground (arith, eq_iff "active" "pending")
not-step-pending suspends e = absurd (suspended-pending (eq_of_some e))
  where
    suspended-pending : ◌≢◌ {A = String} "suspended" "pending"
    suspended-pending = ground (arith, eq_iff "suspended" "pending")

-- After any sequence of updates and deletions a user is pending only if one with the same identifier
-- was pending at the start: nobody becomes pending again.
pub UsersReach-pending :
    (start db : Db)
    → UsersReach start db
    → (u : User) → Memᴰ u db.users
    → u.status ≡ some "pending"
    → (old : User) × Memᴰ old start.users × (old.id ≡ u.id) × (old.status ≡ some "pending")
UsersReach-pending start db begins u listed e = (u, listed, refl, e)
UsersReach-pending start db (updates {db = before} env id body reach) u listed e =
    let (v, v_listed, same, step) = update_user-Steps env id body (idle before) refl u listed in
    let (w, w_listed, w_same, pending) =
      UsersReach-pending start before reach v v_listed (not-step-pending step e) in
    (w, w_listed, w_same ∙ same, pending)
UsersReach-pending start db (deletes {db = before} env id reach) u listed e =
    let (v, v_listed, same, step) = delete_user-Steps env id (idle before) refl u listed in
    let (w, w_listed, w_same, pending) =
      UsersReach-pending start before reach v v_listed (not-step-pending step e) in
    (w, w_listed, w_same ∙ same, pending)
