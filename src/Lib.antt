-- ===== src/Lib.antt =====
-- gowallet: a points wallet over SQLite with an HTTP API.
--
-- The program has three packages that meet only in cmd/gowallet/main.go: internal/wallet holds the
-- domain types, the access rule and the services over repository interfaces; internal/sqlitestore
-- implements the repositories over one SQLite connection; internal/httpapi authenticates requests,
-- decodes them, calls the services and maps their errors to HTTP. The library follows it:
--
-- Prelude (and its children): Boolean tests, lists, results and stateful actions, integers over the
--   native numbers with int64 bounds, insertion sort.
-- Wallet: internal/wallet. Wallet/Types has the structs, the string types with their constants and the
--   sentinel errors; Wallet/Repository the repository interfaces as records over a state; Wallet/Service,
--   Wallet/Audit and Wallet/Health the services; Wallet/Auth is Authorize and ParseRole; Wallet/Keeps has
--   what services keep of a state if the repository calls keep it, and Wallet/Raises which sentinel errors
--   they can give if the repository calls give only some.
-- Store: internal/sqlitestore. Store/Db has the tables of the last migration and the two seeded accounts;
--   Store/Queries one function for each statement of queries/queries.sql, its constraints included;
--   Store/Session the driver calls, any of which may fail, and BeginTx with Commit and the deferred
--   Rollback; Store/Ledger is RecordTransaction; Store/Accounts and Store/Audit are the other methods;
--   Store/Driver the test on the driver's error texts. Store/Book is an abstract book of accounts that
--   forgets rows, ids and clocks; Store/Schedule the interleavings of store calls that concurrent requests
--   make. Store/Migrations has the tables after each migration and Migrate. The other files prove properties
--   of these.
-- Http: internal/httpapi, a module for each file; Http/Text and Http/Time are the parts of Go's strings,
--   strconv and time packages that read a batch row; Http/Validator is newValidator, and Http/Router NewRouter with the middleware loop of
--   gen/types_server.gen.go; Http/Keeps has what requests keep of a state if the repository calls keep
--   it. Http/Contract has the response objects of gen/types_server.gen.go, with the statuses and bodies that
--   their Visit methods write and the Valid methods of their enumerated types, and compares the handlers
--   with them.
-- Config: loadConfig of cmd/gowallet/main.go.
-- System: the wiring of run in cmd/gowallet/main.go, and sequences of requests. System/Ingest compares the
--   summary of an upload with what it leaves in the store, and System/Reupload an upload with its repetition.
--   System/Api is what the two writing endpoints promise over the book, for one request and for sequences;
--   System/Startup is run from the migration to the router; System/Contract joins Http/Contract to the
--   store; System/Liveness, with Store/Sure, is about the answers of requests when no driver call fails.
-- Tests: the theorems and some runs at concrete inputs.
--
-- State is passed explicitly: a service or handler is a function from a state to its result and the
-- next state. A token's time to live is taken as not negative. The state of the store is `World`:
-- the tables, the clock, and a list that says which of the coming driver calls fail. A theorem for
-- all worlds holds whatever calls fail; `calm` is a world in which none fails. No definition runs on
-- fuel: all recursion is on lists and texts. Points are integers; the sum of a balance fails beyond
-- 64 bits as SQLite's SUM does. Instants are seconds and nanoseconds; the store keeps whole seconds.
--
-- Outside, as parameters with their documented behaviour: the error texts of the driver
-- (modernc.org/sqlite), github.com/pressly/goose, golang.org/x/crypto/bcrypt,
-- github.com/golang-jwt/jwt, time.ParseDuration, and whether github.com/getkin/kin-openapi loads and
-- validates the contract. Outside, as part of a request: chi's matching, kin-openapi's verdict,
-- encoding/json and encoding/csv. Not modelled: opening the database, PRAGMAs, listening and
-- logging, since they are calls of libraries; the down migrations, which the program never runs; the
-- generated strict server, which is unused (its response objects are modelled as the contract); time
-- that a login spends on the dummy hash. Statements run one at a time, as the store's single
-- connection makes them.
--
-- Three simplifications: the store's clock stands still over a sequence of requests (Store/Schedule lets
-- time pass between calls); a replayed ref leaves the AUTOINCREMENT counter, which SQLite may advance, so
-- ids here have no gaps there; a Commit that fails is taken to leave nothing.
pub mod Prelude
pub mod Wallet
pub mod Store
pub mod Http
pub mod Config
pub mod System
pub mod Tests
