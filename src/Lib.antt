-- ===== src/Lib.antt =====
-- MindCreek's gateway: who may do what on a knowledge base.
--
-- The gateway stands between employees and WeKnora, which stores the knowledge bases. It decides
-- itself who may read or edit one: the owner, users with a grant, and users to whom a publication is
-- visible. It creates knowledge bases from approved presets, lists what a user may see, binds
-- sessions to their users, and narrows each retrieval to the knowledge bases that the upstream shows
-- to the same credentials. This library models these parts of services/gateway/internal.
--
-- Parts, with the files of services/gateway/internal that they are about:
--   Authorization            authorization/decision.go: Decide and Authorize. The service reads
--                            through interfaces, here the record Readers; `repositories` are those
--                            that cmd/gateway/main.go passes. Roles, Reasons, Soundness and
--                            Lifecycle hold the theorems.
--   Grant                    grant/grant.go. Grant/Repository is grant/repository.go, with the table
--                            of database/migrations/000006. Grant/Requests and Grant/Service are
--                            grant/service.go. Uniqueness and Versions are about sequences of
--                            statements; Owner, Creation, Effect, Revocation and Expiry about
--                            whole requests.
--   Publication              publication/*.go, with the table of database/migrations/000008, laid
--                            out as Grant is.
--   Subscription             subscription/*.go and its table. Following is about the row of one
--                            follower, Effect about Subscribe and Effective, Outsiders about
--                            the rows outside an audience.
--   Ownership                ownership/resolver.go: who owns a knowledge base.
--   Profile, Audit, Revision profile/profile.go, audit/audit.go, revision/repository.go. Growth and
--                            Counting are about the revision numbers.
--   Catalog, Paging          catalog/service.go: the publications that a user may see, and the page
--                            of them, which it cuts out as library/service.go does.
--   Subscription/Listing     Service.List of subscription/service.go.
--   Library                  library/service.go: the knowledge bases of a user. Views is about what
--                            stands on a page, Distinct about the union with the subscriptions.
--   AgentScope               agentscope/resolver.go: the knowledge bases that an agent may use.
--   NativeAccess             nativeaccess/gate.go, ResolveActor. Sessions is store.go, with the
--                            tables of database/migrations/000015; Sessions/Binding is about
--                            sequences of its calls. Scope is scope.go, agent.go and
--                            agent_capabilities.go: Scope/Values reads the upstream's answers,
--                            Scope/Resolution is Resolve and CheckSession. Routes is routes.go.
--   RoutePolicy              policy/policy.go and routeaction/policy.go: how routes are classified,
--                            and the action that each needs.
--   Preset                   preset/preset.go: the approved configurations.
--   Space                    space/: Inputs is normalizeCreateInput, Requests the ledger of
--                            request_repository.go with the table of database/migrations/000003,
--                            Service and Creation the steps of Create in service.go.
--   Db, Http, Text, Json     the database and the environment of a request, the upstream service,
--   Result                   strings, decoded JSON, and calls that may fail.
--   Db/Transactions          what BeginTx ... Commit leaves, committed or rolled back.
--   Db/Times                 what a timestamptz column keeps of a time.
--   Frames                   the tables that a call leaves as they were.
--   Scenarios                concrete requests, at which the theorems are applied.
--
-- A method of Go is a function of the same name in snake_case; `after_find` and the like are what
-- follows a call within a method, one clause for each outcome. A call that reads or writes the
-- database has the type Exec Db E A = Db → Result E A × Db: what was written before an error stays
-- written, as in the source, whose services hold no transaction. An error is a constructor; the
-- text that wraps it is left out. Repositories return typed errors, so `errors.Is` is a match.
--
-- Db holds the tables as lists of rows in the order of insertion, and `faults`, which says of each
-- coming statement whether the database fails it. A theorem that quantifies over Db so covers every
-- pattern of failures. A writing statement checks the constraints of the migrations. Statements are
-- atomic, and Grant.Uniqueness interleaves those of any number of requests. A statement that fails
-- has changed nothing: an answer that is lost after the commit is not modelled. In a theorem about a
-- whole request no other request runs between its statements, so what the services do after a lost
-- race is modelled but not met there.
--
-- A time that is written to a timestamptz column, or compared with one, loses its nanoseconds
-- (PostgreSQL holds microseconds, the driver cuts the rest off). The Create methods return what they
-- were given, and the row may hold less; updates return the row.
--
-- Env is what a request finds outside: the clock (one reading per request), the generated
-- identifiers (none where the random source fails), whether an audit recorder is configured, the
-- upstream, the database's collation, strings.ToLower, and the size of marshalled JSON. These are
-- parameters of which nothing is assumed. A time is a natural number of nanoseconds after Go's zero
-- time. Identifiers and texts are native strings; lengths are in bytes or in runes as in the source.
-- int64 revisions stay below their bound because the constraints on the columns say so. Paging is
-- computed in Go's signed 64-bit arithmetic, with its wrap-around and the panics of a division by
-- zero and of a slice out of range. The methods are total; no fuel is used.
--
-- Catalog, Library, AgentScope, Scope and Space take what they call as a record of functions over
-- an arbitrary state, as the source takes interfaces; their theorems hold whatever these do.
-- Parameters of the same kind stand for code outside the repository: the upstream, regular
-- expressions, path.Clean, encoding/json, SHA-256, strconv.ParseUint and url.PathEscape.
--
-- Not modelled: HTTP handlers and the server; tokens and identity; the gate of native access and the
-- checks that it makes on bodies and responses (Gate.Wrap, ScopeService.Check, models.go,
-- history.go, response.go); the access gate; session scopes; notes; ingestion; the administration
-- of models; the MCP server. Of the modelled parts: revision Repository.ListActivity, space
-- GetProfile, Retired, the reading of files, and the decision that
-- Authorize returns together with ErrDenied.
pub mod Prelude
pub mod Result
pub mod Text
pub mod Http
pub mod Profile
pub mod Grant
pub mod Publication
pub mod Subscription
pub mod Revision
pub mod Audit
pub mod Db
pub mod Ownership
pub mod Frames
pub mod Authorization
pub mod Paging
pub mod Catalog
pub mod Library
pub mod AgentScope
pub mod Preset
pub mod Space
pub mod RoutePolicy
pub mod Json
pub mod NativeAccess
pub mod Scenarios
