-- ===== src/Api/Applications/Unique.antt =====
-- What a sequence of requests about links keeps: there is at most one live link, and at most one
-- pending request, of a group and an application.
use governor_api.Prelude.{
  String, ◌≡◌, ◌≢◌, refl, sym, ap, subst, inl, inr, Bool, Bool-cases, true, false, not, ◌==◌,
  eq_iff, Option, none, some, List, [], ◌∷◌, ◌++◌, map, filter, if◌then◌else◌, Memᴰ, Memᴰ-filter,
  any_iff, HasDistinct, filter-HasDistinct, append-HasDistinct, arith,
}
use governor_api.Db.{Db, GroupApplication, GroupApplicationRequest, is_null}
use governor_api.Hierarchy.Cycle.{IsAcyclic}
use governor_api.Api.{Env, State}
use governor_api.Api.Server.{idle}
use governor_api.Api.Writes.Runs.{WriteRun-keeps}
use governor_api.Api.Applications.{
  CreateGroupAppReq, new_link, new_app_request, delete_app_request, is_link, link_exists,
  app_request_exists, is_pending, add_group_application, remove_group_application,
  create_group_app_request, delete_group_app_request, process_group_app_request,
}
use governor_api.Api.Applications.Links.{
  link_exists-NotLinked, addition, removal, add_group_application-WriteRun,
  remove_group_application-WriteRun,
}
use governor_api.Api.Applications.Asks.{
  asking, revoking, create_group_app_request-WriteRun, delete_group_app_request-WriteRun,
}
use governor_api.Api.Applications.Process.{
  AppRun, unchanged, dropped, approved, denied, process_group_app_request-AppRun,
}

abbrev pub link_pair : GroupApplication → String × String
link_pair l = (l.group_id, l.application_id)

abbrev pub request_pair : GroupApplicationRequest → String × String
request_pair r = (r.group_id, r.application_id)

abbrev pub is_live_link : GroupApplication → Bool
is_live_link l = is_null l.deleted_at

abbrev pub live_links : Db → List GroupApplication
live_links db = filter is_live_link db.group_applications

-- The hierarchies have no cycle, and the pairs of the live links, and of the requests, are different.
pub record IsUnique (db : Db) : Type 0 where
  pub acyclic : IsAcyclic db
  pub links : HasDistinct link_pair (live_links db)
  pub asked : HasDistinct request_pair db.app_requests

filter-append-one {ℓ} :
    {A : Type ℓ} (p : A → Bool) (xs : List A) (a : A)
    → p a ≡ true
    → filter p (xs ++ a ∷ []) ≡ filter p xs ++ a ∷ []
filter-append-one p [] a e = rw e refl
filter-append-one p (x ∷ xs) a e = elim (Bool-cases (p x)) [
  | inl kept ↦ rw kept (ap (λ l. x ∷ l) (filter-append-one p xs a e))
  | inr gone ↦ rw gone (filter-append-one p xs a e)
]

-- The live links after a deletion are those before it with another identifier.
live-delete_link :
    (env : Env) (old : GroupApplication) (rows : List GroupApplication)
    → filter is_live_link
        (map (λ l. if l.id == old.id then record l { deleted_at = some env.now } else l) rows)
      ≡ filter (λ l. not (l.id == old.id)) (filter is_live_link rows)
live-delete_link env old [] = refl
live-delete_link env old (l ∷ rows) =
    let rest = live-delete_link env old rows in
    elim (Bool-cases (l.id == old.id)) [
      | inl hit ↦ elim (Bool-cases (is_live_link l)) [
        | inl alive ↦ rw (hit, alive, hit) rest
        | inr dead ↦ rw (hit, dead) rest
      ]
      | inr miss ↦ elim (Bool-cases (is_live_link l)) [
        | inl alive ↦ rw (miss, alive, miss) (ap (λ x. l ∷ x) rest)
        | inr dead ↦ rw (miss, dead) rest
      ]
    ]

not-link_exists :
    (env : Env) (db : Db) (g a : String)
    → link_exists env db g a ≡ false
    → (l : GroupApplication) → Memᴰ l (live_links db)
    → link_pair l ≢ (g, a)
not-link_exists env db g a absent l listed same =
    let (stored, alive) = (Memᴰ-filter is_live_link l db.group_applications).0 listed in
    let of_group : (l.group_id == g) ≡ true = (eq_iff l.group_id g).1 (cc same) in
    let of_app : (l.application_id == a) ≡ true = (eq_iff l.application_id a).1 (cc same) in
    let found =
      (any_iff (is_link env g a) db.group_applications).1
        (l, stored, ground (arith, of_group, of_app, alive)) in
    cc (found, absent)

not-app_request_exists :
    (env : Env) (db : Db) (g a : String)
    → app_request_exists env db g a ≡ false
    → (r : GroupApplicationRequest) → Memᴰ r db.app_requests
    → request_pair r ≢ (g, a)
not-app_request_exists env db g a absent r listed same =
    let of_group : (r.group_id == g) ≡ true = (eq_iff r.group_id g).1 (cc same) in
    let of_app : (r.application_id == a) ≡ true = (eq_iff r.application_id a).1 (cc same) in
    let found =
      (any_iff (is_pending env g a) db.app_requests).1
        (r, listed, ground (arith, of_group, of_app)) in
    cc (found, absent)

-- A link that is not there is stored.
linked-HasDistinct :
    (env : Env) (db : Db) (new : GroupApplication)
    → link_exists env db new.group_id new.application_id ≡ false
    → new.deleted_at ≡ none
    → HasDistinct link_pair (live_links db)
    → HasDistinct link_pair (filter is_live_link (db.group_applications ++ new ∷ []))
linked-HasDistinct env db new absent alive links =
    subst (HasDistinct link_pair)
      (sym (filter-append-one is_live_link db.group_applications new (ap is_null alive)))
      (append-HasDistinct link_pair (live_links db) new links
        (not-link_exists env db new.group_id new.application_id absent))

-- A request is deleted, and the links are the same.
answered-IsUnique :
    (env : Env) (db : Db) (r : GroupApplicationRequest)
    → IsUnique db
    → IsUnique (delete_app_request env r db)
answered-IsUnique env db r unique = record {
  acyclic = unique.acyclic;
  links = unique.links;
  asked = filter-HasDistinct request_pair (λ x. not (x.id == r.id)) db.app_requests unique.asked;
}

add_group_application-IsUnique :
    (env : Env) (gid oid : String) (s : State)
    → s.tx ≡ none
    → IsUnique s.db
    → IsUnique (add_group_application env gid oid s).1.db
add_group_application-IsUnique env gid oid s idle unique =
    elim (add_group_application-WriteRun env gid oid s idle).0 [
      | inl (_, (_, is)) ↦ subst IsUnique (sym (ap (λ (t : State). t.db) is)) unique
      | inr run ↦
          WriteRun-keeps IsUnique (addition env gid oid s.db) s _ _ unique
            (λ a. record {
              acyclic = unique.acyclic;
              links =
                  linked-HasDistinct env s.db (new_link env a.group.id a.app.id)
                    (link_exists-NotLinked env s.db a.group.id a.app.id a.absent) refl unique.links;
              asked = unique.asked;
            })
            run
    ]

remove_group_application-IsUnique :
    (env : Env) (gid oid : String) (s : State)
    → s.tx ≡ none
    → IsUnique s.db
    → IsUnique (remove_group_application env gid oid s).1.db
remove_group_application-IsUnique env gid oid s idle unique =
    WriteRun-keeps IsUnique (removal env gid oid s.db) s _ _ unique
      (λ a. record {
        acyclic = unique.acyclic;
        links =
            subst (HasDistinct link_pair)
              (sym (live-delete_link env a.link s.db.group_applications))
              (filter-HasDistinct link_pair (λ l. not (l.id == a.link.id)) (live_links s.db)
                unique.links);
        asked = unique.asked;
      })
      (remove_group_application-WriteRun env gid oid s idle)

create_group_app_request-IsUnique :
    (env : Env) (gid : String) (body : Option CreateGroupAppReq) (s : State)
    → s.tx ≡ none
    → IsUnique s.db
    → IsUnique (create_group_app_request env gid body s).1.db
create_group_app_request-IsUnique env gid body s idle unique =
    WriteRun-keeps IsUnique (asking env gid body s.db) s _ _ unique
      (λ a. record {
        acyclic = unique.acyclic;
        links = unique.links;
        asked =
            append-HasDistinct request_pair s.db.app_requests
              (new_app_request env a.actor a.group.id a.app.id a.approver a.req) unique.asked
              (not-app_request_exists env s.db a.group.id a.app.id a.not_asked);
      })
      (create_group_app_request-WriteRun env gid body s idle)

delete_group_app_request-IsUnique :
    (env : Env) (gid rid : String) (s : State)
    → s.tx ≡ none
    → IsUnique s.db
    → IsUnique (delete_group_app_request env gid rid s).1.db
delete_group_app_request-IsUnique env gid rid s idle unique =
    WriteRun-keeps IsUnique (revoking env gid rid s.db) s _ _ unique
      (λ a.
        let rest = answered-IsUnique env s.db a.request unique in
        record { acyclic = rest.acyclic; links = rest.links; asked = rest.asked })
      (delete_group_app_request-WriteRun env gid rid s idle)

AppRun-IsUnique :
    (env : Env) (gid rid : String) (body : Option String) (db after : Db)
    → IsUnique db
    → AppRun env gid rid body db after
    → IsUnique after
AppRun-IsUnique env gid rid body db after unique (unchanged is) = subst IsUnique (sym is) unique
AppRun-IsUnique env gid rid body db after unique (dropped a _ _ is) =
    subst IsUnique (sym is) (answered-IsUnique env db a.request unique)
AppRun-IsUnique env gid rid body db after unique (approved a _ absent is) =
    let r = a.request in
    subst IsUnique (sym is) (record {
      acyclic = unique.acyclic;
      links =
          linked-HasDistinct env db (new_link env r.group_id r.application_id) absent refl
            unique.links;
      asked = (answered-IsUnique env db r unique).asked;
    })
AppRun-IsUnique env gid rid body db after unique (denied a _ is) =
    let rest = answered-IsUnique env db a.request unique in
    subst IsUnique (sym is)
      (record { acyclic = rest.acyclic; links = rest.links; asked = rest.asked })

-- The databases after requests about links, each of any caller and with any calls that fail.
pub data LinksReach (start : Db) : Db → Type 0 where
  begins : LinksReach start start
  adds :
      {db : Db} (env : Env) (gid oid : String)
      → LinksReach start db
      → LinksReach start (add_group_application env gid oid (idle db)).1.db
  removes :
      {db : Db} (env : Env) (gid oid : String)
      → LinksReach start db
      → LinksReach start (remove_group_application env gid oid (idle db)).1.db
  asks :
      {db : Db} (env : Env) (gid : String) (body : Option CreateGroupAppReq)
      → LinksReach start db
      → LinksReach start (create_group_app_request env gid body (idle db)).1.db
  revokes :
      {db : Db} (env : Env) (gid rid : String)
      → LinksReach start db
      → LinksReach start (delete_group_app_request env gid rid (idle db)).1.db
  processes :
      {db : Db} (env : Env) (gid rid : String) (body : Option String)
      → LinksReach start db
      → LinksReach start (process_group_app_request env gid rid body (idle db)).1.db

-- From a database with no cycle of groups, where the pairs of the live links are different and those
-- of the requests too, every sequence of links added or removed, and of requests for one created,
-- revoked or processed, leads to such a database: a group has at most one live link to an
-- application, and at most one request for it is pending.
pub LinksReach-IsUnique : (start db : Db) → IsUnique start → LinksReach start db → IsUnique db
LinksReach-IsUnique start db unique begins = unique
LinksReach-IsUnique start db unique (adds env gid oid reach) =
    add_group_application-IsUnique env gid oid _ refl (LinksReach-IsUnique start _ unique reach)
LinksReach-IsUnique start db unique (removes env gid oid reach) =
    remove_group_application-IsUnique env gid oid _ refl (LinksReach-IsUnique start _ unique reach)
LinksReach-IsUnique start db unique (asks env gid body reach) =
    create_group_app_request-IsUnique env gid body _ refl (LinksReach-IsUnique start _ unique reach)
LinksReach-IsUnique start db unique (revokes env gid rid reach) =
    delete_group_app_request-IsUnique env gid rid _ refl (LinksReach-IsUnique start _ unique reach)
LinksReach-IsUnique start db unique (processes env gid rid body reach) =
    let before = LinksReach-IsUnique start _ unique reach in
    AppRun-IsUnique env gid rid body _ _ before
      (process_group_app_request-AppRun env gid rid body _ before.acyclic)
