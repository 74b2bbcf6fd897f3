-- ===== src/Api/Server/Reach.antt =====
-- What holds after any sequence of requests.
use governor_api.Prelude.{Option, String, List}
use governor_api.Db.{Db}
use governor_api.Api.{Env}
use governor_api.Api.Sound.{IsSound, IsFresh}
use governor_api.Api.Auth.{OidcUserInfo, Token}
use governor_api.Api.Server.{Request, serve, idle, UserRequest, serve_user}
use governor_api.Api.Server.Keeps.{serve-IsSound, serve_user-IsSound}

-- The databases after a sequence of requests, each of any caller, with any calls that fail, and with
-- an identifier for a new row that no row has and no hierarchy refers to.
pub data Reachable (slugs : List String) (start : Db) : Db → Type 0 where
  initially : Reachable slugs start start
  after :
      {db : Db} (env : Env) (token : Token) (request : Request)
      → Reachable slugs start db
      → IsFresh env db
      → Reachable slugs start (serve env slugs token request (idle db)).1.db
  after_user :
      {db : Db} (env : Env) (token : Token) (header : List String) (user_info : Option OidcUserInfo)
      (request : UserRequest)
      → Reachable slugs start db
      → IsFresh env db
      → Reachable slugs start (serve_user env slugs token header user_info request (idle db)).1.db

-- From a sound database, every sequence of the requests that change groups, members, hierarchies
-- and users, those by which users change their own row or leave a group included, or create, revoke
-- or decide on a request to join, where the database gives to each new row an identifier that no
-- row has and no hierarchy refers to, leads to a sound one: no cycle among the hierarchies, and no
-- two rows with the same identifier or of the same pair in either table.
pub Reachable-IsSound :
    (slugs : List String) (start db : Db) → IsSound start → Reachable slugs start db → IsSound db
Reachable-IsSound slugs start db sound initially = sound
Reachable-IsSound slugs start db sound (after env token request before fresh) =
    serve-IsSound env slugs token request _ fresh (Reachable-IsSound slugs start _ sound before)
Reachable-IsSound slugs start db sound
      (after_user env token header user_info request before fresh) =
    serve_user-IsSound env slugs token header user_info request _ fresh
      (Reachable-IsSound slugs start _ sound before)
