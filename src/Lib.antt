-- ===== src/Lib.antt =====
-- Redlaunch, a control panel for Docker Compose applications: a model of the parts of the Go program
-- that decide, and the theorems that make them correct.
--
-- Parts. Release tags order the versions that the updater offers. The registry keeps the images that
-- applications deploy; its retention policy chooses what to delete, in an order that a registry
-- accepts. The authorization server lets MCP clients act for the owner: it registers clients, issues
-- codes and tokens, rotates and revokes them, and shares its tables with the API tokens. The policies
-- of the reverse proxy hold for one application or, where it sets nothing, for all. Work on one Compose
-- project is serialized by the project locks. A self-update
-- keeps its state in a file and holds the lock of the installation, which the manager shares with its
-- detached helper. The owner logs in with a
-- password or Google and keeps a signed session.
--
-- Files:
--   Base        helpers: tests on numbers, lists, texts as code points, Go maps, error results
--   Release     internal/application/update.go: ParseReleaseVersion, CompareReleaseVersions,
--               IsNewerRelease
--   Registry    internal/application/registry_retention.go: SelectRegistryVersions in Retention/Select,
--               and PlanRegistryRetention in Retention/Graph (the closure retainChildren),
--               Retention/Sweep (the closure orderDeletion) and Retention/Plan (the whole function);
--               internal/application/registry.go in Names, versions.go in Versions, types in Types
--   OAuth       Types and Texts: internal/application/oauth.go and api_tokens.go; Store:
--               internal/store/oauth.go and api_tokens.go; Server: internal/service/oauth.go, a file for
--               each group of methods (Register, Authorize, Exchange, Refresh, Connections), and
--               sequences of calls in Calls; ApiTokens: internal/service/api_tokens.go
--   Proxy       internal/application/proxy_settings.go: the policies of the reverse proxy, their
--               validation and inheritance
--   Locks       internal/service/project_locks.go: the memory of projectLockManager in Manager, the steps
--               of acquire, tryAcquire and release in Callers, and what the interleavings keep
--   Update      internal/application/update.go: UpdateState; internal/service/update_state.go: the state
--               file in Validation, Files and Store, the lock of the installation in Lock; what writers
--               can do to each other in Writers and Races, and sequences of calls in Exclusion
--   Auth        internal/auth: local.go in Limiter (the table of attempts), Attempts, Throttle and Login,
--               password.go in Passwords and Hashes, auth.go in Users (identities), Sessions (texts),
--               Validation, Current, SessionTexts, AccountTexts and Acceptance; the validators of
--               usernames and email addresses of internal/application
--   Accounts    internal/store/local_users.go in Table, internal/service/users.go in Calls; changes of the
--               table in Moves, its order in Soundness and Keeping, sessions over it in Endings
--   Config      internal/config/dotenv.go: the parser in DotEnv, quoted values in Quoting, the process
--               environment in Precedence
--   Tests       the theorems at concrete inputs
--
-- State and operations. A method is a function from its arguments and the state to its result and the
-- new state; an error of Go is an `err` and a nil error an `ok`. The time of a call and the random
-- secrets that it draws are arguments. A call is taken as one step, and concurrent requests as a sequence of
-- calls: the code holds a mutex around its maps and around a whole refresh, and a transaction around
-- the tables, but interleavings inside a call are not
-- modelled, except for the project locks, whose callers interleave at every access to shared memory. Tables are lists of rows
-- with the constraints and the cascades of the schema, and a failed transaction leaves them unchanged.
-- The hash, the URL parser and the like are fields of the record Platform, a parameter throughout.
--
-- Numbers and texts. Times are nanoseconds since the zero time and do not wrap; a token's int64 and a
-- release's int keep their bounds in the parsers. A text is the list of the code points of valid UTF-8.
--
-- Fuel. The closures of PlanRegistryRetention call themselves along the manifest graph. The walk that
-- keeps children has one call more than the graph has keys, as it enters a key once; the relation Run
-- of Retention/Graph/Ended is its recursion without a bound. The walk that orders deletions has as many
-- as the graph has references and one more, as a path of unfinished calls repeats no digest; its fuel
-- runs out with an error of its own.
--
-- Not modelled: failures of the database and of the random source, the texts of error messages, the
-- HTTP handlers, Docker, processes and files other than those of the self-update, and the services that
-- mostly call them.
pub mod Base
pub mod Release
pub mod Registry
pub mod OAuth
pub mod Proxy
pub mod Locks
pub mod Update
pub mod Accounts
pub mod Auth
pub mod Config
mod Tests
