-- ===== src/Tests/Joining.antt =====
-- Runs of the requests to join a group.
use governor_api.Prelude.{◌≡◌, false, none, some, [], ◌∷◌}
use governor_api.Db.{Db, User, GroupMembershipRequest}
use governor_api.Api.Requests.{CreateGroupMemberReq, create_group_request, delete_group_request}
use governor_api.Api.Requests.Ask.{
  CreateRun, Unloaded, RevokeRun, create_group_request-CreateRun, delete_group_request-RevokeRun,
}
use governor_api.Api.{find_group_row, panicked}
use governor_api.Tests.Sample.{sample, calm, ann, state_of}

abbrev bob : User
bob = record {
  id = "bob";
  external_id = some "x2";
  name = "Bob";
  email = "bob@example.com";
  status = some "active";
  avatar_url = none;
  github_id = none;
  github_username = none;
  deleted_at = none;
}

abbrev bob_asks : GroupMembershipRequest
bob_asks = record {
  id = "r1";
  group_id = "dev";
  user_id = "bob";
  is_admin = false;
  note = "";
  expires_at = none;
  kind = "new_member";
  admin_expires_at = none;
}

abbrev asking : Db
asking = record sample { users = ann ∷ bob ∷ []; requests = bob_asks ∷ [] }

delete_group_request-RevokeRun_example :
    RevokeRun
      (record calm { user = some bob })
      "dev"
      "r1"
      (state_of asking).db
      (delete_group_request (record calm { user = some bob }) "dev" "r1" (state_of asking)).1
delete_group_request-RevokeRun_example =
    delete_group_request-RevokeRun (record calm { user = some bob }) "dev" "r1" (state_of asking)

abbrev ask : CreateGroupMemberReq
ask = record {
  is_admin = false;
  note = "please";
  expires_at = none;
  admin_expires_at = none;
  kind = "";
}

create_group_request-CreateRun_example :
    CreateRun calm "staff"
      (some ask)
      (state_of sample).db
      (create_group_request calm "staff" (some ask) (state_of sample)).1
    × (Unloaded calm "staff" (some ask) (state_of sample).db
        → calm.fails find_group_row ≡ false
        → ((create_group_request calm "staff" (some ask) (state_of sample)).0 ≡ panicked)
          × ((create_group_request calm "staff" (some ask) (state_of sample)).1 ≡ state_of sample))
create_group_request-CreateRun_example =
    create_group_request-CreateRun calm "staff" (some ask) (state_of sample)
