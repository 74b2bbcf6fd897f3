-- ===== src/Lib.antt =====
-- Governor API: access management by groups. Users are members of groups, groups are members of
-- groups (hierarchies), and the REST handlers change both, in transactions that end with events on a
-- bus. The development follows the path of a change: the rows of the database, the check that a
-- hierarchy makes no cycle, the enumeration of direct and indirect memberships, the handlers that
-- use both, those of groups and users, and the middlewares that decide who may call them.
--
-- - Db: the rows (internal/models), with the columns that the modelled code reads and writes.
-- - Hierarchy: HierarchyWouldCreateCycle of internal/dbtools/membership_enumeration.go. The map of
--   slices is an association list; `walk_node` recurs on fuel, one more than the keys of the map,
--   and the search is proved to end with it.
-- - Membership: the three recursive queries and FindMemberDiff of the same file. The SQL is read as
--   the lists of rows that it returns. `WITH RECURSIVE … UNION ALL` recurs on fuel, one more than
--   the rows of group_hierarchies (two more for the query with UNION), which is enough while the
--   hierarchies have no cycle; the result is `none` if rows are left when the fuel is used up.
-- - Api: the handlers of pkg/api/v1alpha1 as actions on the database, the open transaction, the
--   published events and the response. Calls of the database and of the bus fail where the
--   environment of the request says so, and each handler is followed to its end on every path. A
--   handler runs alone: no other request changes the rows between its reads and its writes.
--   `Api.Hierarchies` is pkg/api/v1alpha1/group_hierarchies.go, `Api.Audit` the audit events of
--   internal/dbtools/hooks.go.
--   `Api.Members` and `Api.Requests` are group_membership.go (members, and requests to join),
--   `Api.Auth` and `Api.Login` are the middlewares mwGroupAuthRequired and mwUserAuthRequired of
--   auth.go, `Api.Groups`, `Api.Users` and `Api.Applications` are groups.go, users.go and
--   group_applications.go, built from the statements of `Api.Writes` that their handlers repeat,
--   `Api.Self` the handlers of authenticated_user.go that write, and `Api.Server` has every route of
--   router.go that changes groups, members, hierarchies, requests to join or users, each with its
--   middleware. `Api.Sound` is what the database promises between two
--   requests. `Api.Rules` says how to follow a handler to its end, and `Api.Chain` lets such a
--   proof be written in the order of the handler's steps. `Api.Resources` has the middlewares
--   before the handlers of system resources (extension_resource_auth.go and
--   extension_lifecycle.go).
-- - Unique: Compile of pkg/jsonschema/unique_constraint.go, the compiler of the keyword `unique`
--   of the schemas of extension resources. A map is a list of fields, and of a number only its kind
--   matters.
-- - Pagination: pkg/api/v1beta1, the parameters and cursors of pagination.go and the pages of
--   listUsers of users.go. The rows that the filters select, the order of texts in the database and
--   its LOWER are arguments. A client that follows the next cursor recurs on fuel, one more than
--   the rows.
-- - Tests: a small database, runs of the program on it, and the theorems at it.
--
-- Identifiers and slugs are texts, and times are numbers. Error messages, logging, tracing, the
-- changesets of audit events, slug.Make, LOWER of the database and the generated query code of
-- internal/models are not modelled; nor are the HTTP framework, the driver of the database and the
-- client of the event bus, whose calls are the steps that may fail.
--
-- Not modelled are the listings of pkg/api/v1alpha1, which only read; the handlers of
-- organizations, applications, their types, extensions, definitions and resources, which have the
-- shape of those that are modelled; the rows of the notification preferences; Validate of the unique
-- constraint, which queries the resources; and the set-up of the server, the commands and
-- pkg/client, which are input and output.
mod Prelude
pub mod Db
pub mod Hierarchy
pub mod Membership
pub mod Api
pub mod Pagination
pub mod Unique
mod Tests
