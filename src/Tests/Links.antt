-- ===== src/Tests/Links.antt =====
-- Runs of the handlers of links to applications: `deploy` needs the approval of `staff`, of which ann
-- is a member by `dev`, and `wiki` needs none.
use mathlib.Core.List.Memᴰ
use governor_api.Prelude.{◌≡◌, ◌≢◌, refl, ◌⊎◌, true, false, none, some, [], ◌∷◌}
use governor_api.Db.{Db, Application, GroupApplicationRequest, find}
use governor_api.Api.{Call, insert_row, Env}
use governor_api.Api.Writes.Runs.{WriteRun}
use governor_api.Api.Server.{idle}
use governor_api.Api.Applications.{
  add_group_application, process_group_app_request, process_app_request_as, approve_app_request,
}
use governor_api.Api.Applications.Links.{
  Addition, addition, LeftOpen, add_group_application-WriteRun,
}
use governor_api.Api.Applications.Process.{AppRun, process_group_app_request-AppRun}
use governor_api.Api.Applications.Unique.{IsUnique, begins, adds, processes, LinksReach-IsUnique}
use governor_api.Tests.Sample.{sample, calm, state_of}
use governor_api.Tests.Requests.{sample-IsSound}

abbrev wiki : Application
wiki = record {
  id = "wiki";
  name = "Wiki";
  slug = "wiki";
  approver_group_id = none;
  deleted_at = none;
}

abbrev deploy : Application
deploy = record wiki { id = "deploy"; name = "Deploy"; approver_group_id = some "staff" }

abbrev dev_asks : GroupApplicationRequest
dev_asks = record {
  id = "r1";
  group_id = "dev";
  application_id = "deploy";
  approver_group_id = "staff";
  requester_user_id = "bob";
  note = none;
}

abbrev asked : Db
asked = record sample { applications = wiki ∷ deploy ∷ []; app_requests = dev_asks ∷ [] }

-- The insert fails, and nothing else.
abbrev broken : Env
broken = record calm { fails = λ call. elim call [ insert_row ↦ true | _ ↦ false ] }

add_group_application-WriteRun_example :
    (((broken.fails insert_row ≡ true)
        × LeftOpen
            (state_of asked)
            (add_group_application broken "dev" "wiki" (state_of asked)).0
            (add_group_application broken "dev" "wiki" (state_of asked)).1)
      ⊎ WriteRun
          (addition broken "dev" "wiki" asked)
          (state_of asked)
          (add_group_application broken "dev" "wiki" (state_of asked)).0
          (add_group_application broken "dev" "wiki" (state_of asked)).1)
    × (Addition broken "dev" "wiki" asked
        → broken.fails insert_row ≡ true
        → ((call : Call) → call ≢ insert_row → broken.fails call ≡ false)
        → LeftOpen
            (state_of asked)
            (add_group_application broken "dev" "wiki" (state_of asked)).0
            (add_group_application broken "dev" "wiki" (state_of asked)).1)
add_group_application-WriteRun_example =
    add_group_application-WriteRun broken "dev" "wiki" (state_of asked) refl

left_open : (add_group_application broken "dev" "wiki" (state_of asked)).1.tx ≡ some asked
unfolding add_group_application find
left_open = refl

linked : (add_group_application calm "dev" "wiki" (state_of asked)).1.response ≡ some 204
unfolding add_group_application find
linked = refl

needs_approval : (add_group_application calm "dev" "deploy" (state_of asked)).1.response ≡ some 400
unfolding add_group_application find
needs_approval = refl

process_group_app_request-AppRun_example :
    AppRun calm "dev" "r1"
      (some "approve")
      asked
      (process_group_app_request calm "dev" "r1" (some "approve") (state_of asked)).1.db
process_group_app_request-AppRun_example =
    process_group_app_request-AppRun calm "dev" "r1" (some "approve") (state_of asked)
      sample-IsSound.acyclic

approves : (approve_app_request calm asked dev_asks (state_of asked)).1.db.app_requests ≡ []
unfolding approve_app_request
approves = refl

not_own_request :
    (process_group_app_request calm "dev" "r1" (some "approve") (
      state_of (record asked {
        app_requests = record dev_asks { requester_user_id = "ann" } ∷ [];
      }))).1.response
    ≡ some 400
unfolding process_group_app_request process_app_request_as find
not_own_request = refl

asked-IsUnique : IsUnique asked
asked-IsUnique = record {
  acyclic = sample-IsSound.acyclic;
  links = tt;
  asked = (λ _ m. absurd (Memᴰ.not-nil m), tt);
}

LinksReach-IsUnique_example :
    IsUnique
      (process_group_app_request calm "dev" "r1"
        (some "approve")
        (idle (add_group_application calm "dev" "wiki" (idle asked)).1.db)).1.db
LinksReach-IsUnique_example =
    LinksReach-IsUnique asked
      (process_group_app_request calm "dev" "r1" (some "approve")
        (idle (add_group_application calm "dev" "wiki" (idle asked)).1.db)).1.db
      asked-IsUnique (processes calm "dev" "r1" (some "approve") (adds calm "dev" "wiki" begins))
