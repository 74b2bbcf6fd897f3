-- ===== src/Api/Writes.antt =====
-- What the handlers of groups, users and links share: a statement in a transaction, which is rolled
-- back where it fails; the audit event of the change, the audit context of the request and the commit;
-- and the event at the end. Each handler of the source writes them out.
pub mod Runs
pub mod Loaded
use governor_api.Prelude.{
  ℕ, suc, String, Bool, not, some, List, [], ◌∷◌, any, filter, ◌==◌, if◌then◌else◌,
}
use governor_api.Db.{Db, AuditEvent}
use governor_api.Api.{
  Call, audit, audit_context, commit_tx, publish_last, Env, Event, Handler, ◌>>=◌, ◌>>◌, ok, pure,
  view, commit, emit, respond, check, check_tx,
}
use governor_api.Api.Audit.{insert_audit}

-- A statement that changes the rows that the transaction sees.
abbrev pub change_rows : (Db → Db) → Handler (Unit {0})
change_rows change s = (ok tt, record s { tx = some (change (view s)) })

module _ (env : Env) where
  abbrev pub write : Call → (Db → Db) → Handler (Unit {0})
  write call change = check_tx env call 400 >> change_rows change

  abbrev pub commit_audited : AuditEvent → Handler (Unit {0})
  commit_audited event = do
    write audit (insert_audit event)
    check_tx env audit_context 400
    check_tx env commit_tx 400
    commit

  abbrev pub announce : Event → ℕ → Handler (Unit {0})
  announce event code = do check env publish_last 400; emit event; respond code

  -- A loop that logs the failures of the event bus and goes on.
  abbrev pub publish_each : ℕ → List Event → Handler (Unit {0})
  publish_each i [] = pure tt
  publish_each i (event ∷ events) =
      let rest = publish_each (suc i) events in if env.is_lost i then rest else (emit event >> rest)

-- Rows that were loaded before, deleted by their primary keys.
abbrev pub is_loaded {ℓ} : {A : Type ℓ} → (A → String) → List A → A → Bool
is_loaded id loaded row = any (λ x. id x == id row) loaded

abbrev pub delete_all {ℓ} : {A : Type ℓ} → (A → String) → List A → List A → List A
delete_all id loaded = filter (λ row. not (is_loaded id loaded row))
