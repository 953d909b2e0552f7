-- ===== src/Lib.antt =====
-- homepad-api, the API of a household's start page: a catalog of services, accounts of adults and
-- kids, sessions, and the status of the services from Gatus. This library models the program's own
-- logic in Go and proves what makes it correct.
--
-- The parts, and where they stand:
--   Base           the helpers of all: Boolean tests, lists, association lists, results, sorting, text
--   Session        internal/session/session.go: lifetimes, the session record, the clock
--   Session/UserAgent  sanitizeUserAgent of internal/session/session.go
--   Session/Contract   the interface Store of internal/session/session.go, and its calls as data
--   Session/Memory     internal/session/memory.go, the store in a map
--   Session/Pg         internal/session/pgstore.go, the store in a table, one statement per call
--   Session/Sweep      internal/session/sweep.go, a client of the interface by the laws `Sweepable`
--   Gatus          internal/gatus/poller.go: FetchAll, fillUptime, poll, PollNow, Run
--   Storage        the tables of migrations/*.sql as records, and actions on them
--   Storage/Users      the accounts of internal/storage/storage.go
--   Storage/Kids       internal/storage/kids.go: kid accounts and allow-lists
--   Storage/Catalog    ListServices, favorites and SetLayout of internal/storage/storage.go
--   Storage/Services   the writes of services of internal/storage/storage.go
--   Storage/Icons      GetIcon, PutIcon and DeleteIcon of internal/storage/storage.go
--   Storage/References the foreign keys of migrations/*.sql, and the deletions
--   Storage/Library    internal/storage/library.go, and internal/storage/seed.go in Storage/Library/Seed
--   Storage/Categories internal/storage/categories.go and internal/storage/collapse.go
--   Storage/Settings   internal/storage/system_settings.go
--   Api            what the handlers share, and internal/api/registration.go
--   Api/Sessions       internal/api/cookie.go, currentUser of auth.go and requireAdmin of library.go
--   Api/Guards         internal/api/kids.go, and the routes and their classes of internal/api/server.go
--   Api/Auth           internal/api/auth.go
--   Api/Accounts       internal/api/admin_accounts.go
--   Api/Catalog        internal/api/services.go and internal/api/favorites.go
--   Api/Services       the writes of services of internal/api/services.go
--   Api/Library        internal/api/library.go
--   Api/Icons          internal/api/icons.go
--   Api/Oidc           internal/api/oidc.go
--   Api/EnvConfig      internal/api/env_config.go
--   Api/Categories     internal/api/categories.go and internal/api/collapse.go
--   Api/Settings       internal/api/system.go, and handleStatusRefresh of services.go
--   Oidc           internal/oidc/oidc.go: the client of the identity provider
--   Oidc/Pending       the logins under way of internal/oidc/oidc.go
--   Oidc/Verify        internal/oidc/verify.go
--   Dbguard        internal/dbguard/guard.go
--   Samples        the household that the tests of Storage and Api use
--
-- How the state is modelled. A call of the memory store is a function on its map, a call of the
-- table's store a statement on its rows, which fails where the next of a list of faults says so. A
-- method of storage is an action on a `World`: the database, the faults to come, the clock, the
-- random draws to come, and the cookies of the response. A transaction begins and commits by a
-- statement each, and an error puts the database back. A handler is an action whose early return is
-- its error and whose last line is its value, both a response; the sessions that it uses are rows
-- of the same database, through Session/Pg. The poller's state is passed and given back.
--
-- A function of the source has its name in antt's spelling (`CreateKid` is `create_kid`, `Lookup` of
-- the session stores is `find`, `insert` of them `add`); a part of a long body that has a name of its
-- own says above it where it stands. There is no fuel: every loop of the code is over a list,
-- but for the search for a slug in AddFromLibrary, which has a thousand rounds in the code as here;
-- that they are enough below a thousand services is a result.
--
-- The sign-in with OIDC takes the provider's metadata and keys and the logins under way, and gives
-- them back beside the world.
--
-- Not modelled: HTTP, JSON, base64 and images themselves (a body comes in decoded, or as `none`),
-- bcrypt, sha256, RSA, the case folding and collation of Postgres, random ids, `mail.ParseAddress`
-- and the regular expressions of the favicon's search, which are arguments (`Ext`, `Net`, `Jose`,
-- `Web`); locks and concurrent requests, since each call or statement runs alone; Open, Migrate and
-- the program's entry, which are I/O; and the helpers of the tests, but for the check of the
-- database's name. A timeout is an answer that fails. The expiry of a token is an integer
-- without bounds, where `time.Unix` wraps near the ends of int64.
pub mod Base
pub mod Session
pub mod Gatus
pub mod Storage
pub mod Samples
pub mod Oidc
pub mod Api
pub mod Dbguard
