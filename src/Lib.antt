-- ===== src/Lib.antt =====
-- A verification library of shelf-auth, a service that registers users, logs them in, and gives
-- out access tokens and refresh tokens that are rotated at each use.
--
-- The parts, and the file that models each. Names are those of the Go code in this notation
-- (FindByHash is find_by_hash).
-- - Prelude and its modules: shared names, Boolean tests, lists, and the functions of package
--   strings that the code uses.
-- - Errors: the error values of internal/domain/errors.go and internal/security/errors.go, with
--   errors.Is and errors.As; Result is a Go pair of a value and an error.
-- - Platform: what the code relies on and does not implement, as parameters.
-- - Domain: internal/domain (Email, User, Session, identifiers, addresses). Domain/Lifecycle and
--   Domain/Emails prove their laws.
-- - Security: internal/security. Security/Password is the policy and the hashing, Security/Token
--   the opaque tokens, Security/Encoding their hexadecimal and base64 texts.
-- - Exec: the state. A World is the two tables of the database (migrations/001_init.up.sql)
--   and the number of external calls made so far, which picks the next answer of the clock, the
--   random source, the generator of identifiers and the failures of the database. An action gives
--   a Result and the next World, also beside an error, so what an action wrote before it
--   failed stays. Exec/Preserves, Exec/Inversion and Exec/Atomic are its proof rules.
-- - Repo: internal/repo/postgres. Repo/Users and Repo/Sessions have one function for each method;
--   a SQL statement is a function on the tables, and transaction is Begin, Commit and the deferred
--   Rollback. Repo/History is the invariant of the tables and what may happen to a session.
-- - Tokens: internal/tokens, the interfaces of the signer and the verifier, and the law of the
--   signer.
-- - Service: internal/service. Service/Register, Login, Refresh, Logout and Me are the methods of
--   AuthService, cut where the code has its steps; Service/Calls is a sequence of calls,
--   Service/Interleaving has calls that run at the same time, as a step relation, and Service/Ledger
--   is what the service promises about refresh tokens, without its tables.
-- - Http: internal/httpserver and internal/util. Http/Cookies, Http/Address, and the handlers in
--   Http/Register, Login, Refresh, Session (logout and me) and Jwks: functions from a request and
--   the world to one response and the next world.
--   Http/Auth is the authentication middleware, with the route of /me behind it, and Http/Routes
--   the table of routes and the probes.
-- - Keys: internal/auth. Keys/Signing is the key map of signer/signer.go and Keys/Tokens its
--   SignAccess and VerifyAccess, over the JWT library as a parameter; Keys/Published is the walk of
--   jwks/provider.go, Keys/Provider the key set that it caches; Keys/Consistency relates the two.
--   Keys/Loading is signer/load.go.
-- - Settings: internal/config and parseLevel of internal/logging. Pool: Open and Close
--   of internal/repo/postgres/postgres.go.
-- - Startup: cmd/shelf-auth/main.go, which puts the parts together: one signer serves the service
--   and the middleware, one provider the key set. Startup/Serving is the process after that, a
--   function of the events that happen to it: signals, the end of the server, ticks of the reloads,
--   the end of the shutdown. Startup/Running adds the requests to the routes, one after the other, each
--   with the keys that the process then has.
-- - Hashpw: tools/hashpw/main.go.
-- - Samples and Tests: a concrete platform and world, runs, and instances of the theorems.
--
-- Bounds. Recursion is structural everywhere, so there is no fuel. Times and durations are numbers
-- of nanoseconds that are not negative and do not wrap around: the years that a time.Time spans
-- are far from its bounds. PostgreSQL rounds a time to microseconds; the model stores it exactly.
-- A statement that fails has changed nothing, and a query with LIMIT 1 takes the first row in the
-- order of insertion. In Service/Calls each call runs alone, and in Startup/Running each request. In
-- Service/Interleaving a call is cut in two, after the row that it reads; each of its two parts runs
-- alone, so the transaction of Rotate is atomic there too. A parsed token may lack any claim: a time
-- that it lacks is not checked, as in jwx, and an audience is one of a list.
--
-- Not modelled: the calls of the logger; matching a path with a route, and what the middlewares
-- of chi do (which there are, in which order and with which options, is in Http/Routes/Cors); the
-- parsing of flags; requests that are under way during a shutdown: input and
-- output, or calls of libraries only. Tables of the migration that no code reads (roles) are left
-- out. Of a response's header fields only the refresh cookie, the security headers and those of the
-- key set are kept.
mod Prelude
pub mod Errors
pub mod Platform
pub mod Domain
pub mod Security
pub mod Exec
pub mod Repo
pub mod Tokens
pub mod Service
pub mod Http
pub mod Keys
pub mod Samples
pub mod Settings
pub mod Pool
pub mod Startup
pub mod Hashpw
mod Tests
