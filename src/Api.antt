-- ===== src/Api.antt =====
-- The request handlers of pkg/api/v1alpha1, as actions on the database, the open transaction, the
-- events published and the response.
-- What a request finds outside the process is its `Env`: which of its calls of the database, the
-- event bus and the audit log fail, the identifier that the database gives to a new row, the time,
-- and what the middlewares put into the context. A call that fails changes nothing, and so does a
-- commit that fails. A transaction sees the committed rows and its own.
pub mod Rules
pub mod Chain
pub mod Audit
pub mod Events
pub mod Writes
pub mod Hierarchies
pub mod Members
pub mod Sound
pub mod Requests
pub mod Auth
pub mod Login
pub mod Groups
pub mod Applications
pub mod Resources
pub mod Users
pub mod Self
pub mod Server
use governor_api.Prelude.{
  ℕ, suc, String, Bool, true, false, Option, none, some, List, [], ◌∷◌, ◌++◌, if◌then◌else◌,
}
use governor_api.Db.{User, Db, AuditEvent}

pub data Call : Type 0 where
  begin_tx find_parent find_member find_row exists_row cycle_check memberships_before : Call
  insert_row update_row delete_row audit audit_context memberships_after commit_tx : Call
  find_group_row find_user_row find_app_row find_extension_row admin_groups : Call
  delete_memberships delete_requests delete_organizations delete_applications : Call
  publish_members publish_request publish_last preferences preferences_after : Call

pub record Env : Type 0 where
  pub fails : Call → Bool
  -- the members event at which the event bus fails first, if it does
  pub fails_at : ℕ
  -- the events that are lost in a loop that goes on where the event bus fails
  pub is_lost : ℕ → Bool
  pub fresh_id : String
  -- uuid.Parse succeeds
  pub is_uuid : String → Bool
  -- slug.Make
  pub slug_of : String → String
  -- LOWER of the database
  pub lower : String → String
  pub audit_id : String
  pub now : ℕ
  pub user : Option User
  -- The user was loaded with its memberships and requests, so that `R` is not nil.
  pub has_relations : Bool

-- pkg/events/v1alpha1/events.go
pub data Action : Type 0 where
  create update delete approve deny revoke : Action

pub data Subject : Type 0 where
  users groups members member_requests hierarchies applications : Subject
  application_links application_link_requests : Subject

pub record Event : Type 0 where
  pub subject : Subject
  pub action : Action
  pub audit_id : String
  pub group_id : String
  pub user_id : String
  pub application_id : String
  pub actor_id : String

pub record State : Type 0 where
  pub db : Db
  pub tx : Option Db
  pub published : List Event
  pub response : Option ℕ

-- A handler goes on with a value, returns early, panics, or waits for a query that does not end.
pub data Outcome {ℓ} (A : Type ℓ) : Type ℓ where
  ok : A → Outcome A
  returned panicked hung : Outcome A

abbrev pub Handler {ℓ} : Type ℓ → Type ℓ
Handler A = State → Outcome A × State

module _ {ℓ κ} {A : Type ℓ} {B : Type κ} where
  abbrev pub continue : Outcome A × State → (A → Handler B) → Outcome B × State
  continue (ok a, s) f = f a s
  continue (returned, s) f = (returned, s)
  continue (panicked, s) f = (panicked, s)
  continue (hung, s) f = (hung, s)

  infixl 5 ◌>>=◌
  abbrev pub ◌>>=◌ : Handler A → (A → Handler B) → Handler B
  ◌>>=◌ m f s = continue (m s) f

infixl 5 ◌>>◌
abbrev pub ◌>>◌ {ℓ} : {B : Type ℓ} → Handler (Unit {0}) → Handler B → Handler B
m >> k = m >>= λ _. k

module _ {ℓ} {A : Type ℓ} where
  abbrev pub pure : A → Handler A
  pure a s = (ok a, s)

  -- sendError(c, code, …); return
  abbrev pub send_error : ℕ → Handler A
  send_error code s = (returned, record s { response = some code })

  -- rollbackWithError(c, tx, err, code, …); return: the message is built from `err` first, which
  -- panics if there is no error. The outcome of the rollback itself only changes the message.
  abbrev pub rollback_with_error : Bool → ℕ → Handler A
  rollback_with_error true code s = (returned, record s { tx = none; response = some code })
  rollback_with_error false code s = (panicked, s)

  -- A query that may not end.
  abbrev pub await : Option A → Handler A
  await none s = (hung, s)
  await (some a) s = (ok a, s)

  -- A pointer that is used without a test.
  abbrev pub or_panic : Option A → Handler A
  or_panic none s = (panicked, s)
  or_panic (some a) s = (ok a, s)

abbrev pub respond : ℕ → Handler (Unit {0})
respond code s = (ok tt, record s { response = some code })

abbrev pub set_tx : Option Db → Handler (Unit {0})
set_tx tx s = (ok tt, record s { tx = tx })

-- What the transaction sees.
abbrev pub view : State → Db
view s = elim s.tx [ none ↦ s.db | some t ↦ t ]

-- What a query outside a transaction reads.
abbrev pub committed_rows : Handler Db
committed_rows s = (ok s.db, s)

-- BeginTx, if it succeeds: the transaction starts from the committed rows.
abbrev pub begin : Handler Db
begin s = (ok s.db, record s { tx = some s.db })

-- tx.Commit(), if it succeeds
abbrev pub commit : Handler (Unit {0})
commit s = (ok tt, record s { db = view s; tx = none })

abbrev pub emit : Event → Handler (Unit {0})
emit event s = (ok tt, record s { published = s.published ++ event ∷ [] })

module _ (env : Env) where
  -- A call outside a transaction: `if err := …; err != nil { sendError(c, code, …); return }`.
  abbrev pub check : Call → ℕ → Handler (Unit {0})
  check call code = if env.fails call then send_error code else pure tt

  -- One row of a query outside a transaction.
  abbrev pub one {ℓ} : {A : Type ℓ} → Call → ℕ → ℕ → Option A → Handler A
  one call missing failed none = send_error (if env.fails call then failed else missing)
  one call missing failed (some a) = if env.fails call then send_error failed else pure a

  -- The same in a transaction, which is rolled back.
  abbrev pub check_tx : Call → ℕ → Handler (Unit {0})
  check_tx call code = if env.fails call then rollback_with_error true code else pure tt

  -- One row of a query in a transaction: the code for a missing row and that for a failure.
  abbrev pub one_tx {ℓ} : {A : Type ℓ} → Call → ℕ → ℕ → Option A → Handler A
  one_tx call missing failed none =
      rollback_with_error true (if env.fails call then failed else missing)
  one_tx call missing failed (some a) =
      if env.fails call then rollback_with_error true failed else pure a

  -- getCtxActorID
  abbrev pub actor_id : String
  actor_id = elim env.user [ none ↦ "" | some u ↦ u.id ]
