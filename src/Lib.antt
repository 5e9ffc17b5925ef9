-- ===== src/Lib.antt =====
-- Agent GM (Go) serves a person's Google Messages to programs. A request passes the limiters and the
-- credentials of internal/authz; a mutation then runs through the pipeline of internal/core, which
-- inserts a row into the operations table of internal/store, calls libgm, and settles the row by
-- what came of it, which internal/gm classifies. The echo that the phone sends later settles the row
-- again, and sweeps of the store settle what a crash or a silent phone left.
--
-- Beside it, internal/accounts keeps the Google accounts: it starts as many as there are slots, moves
-- their states by the events of their backends, and tells the subscribers of a feed.
--
-- Files and the code that they follow:
--   Prelude         lists, Boolean tests, Go's int64, and a table of the database as its rows
--   Gm/Delivery     internal/gm/delivery.go: status table, delivery ladder, system events
--     Ladder, Bands   what the ladder and the bands of statuses amount to
--   Gm/Errors       internal/gm/errors.go: Classify and the classified errors
--     Classified      which errors get the codes that matter to a client
--   Store/Write     internal/store/store.go: one call of the writer, with its fate
--   Store/OperationRows  internal/store/operations.go: a row, and the transitions of its status
--   Store/Operations  internal/store/operations.go: InsertOperation, SettleOperation, the sweeps
--     Rules to History  the row invariant, each statement, and runs of statements over time;
--                   Outcomes: what a settlement and a giving up are to make of a row
--   Store/Erasure   internal/store/erasure.go: what EraseAccount does to the operations
--   Store/Credentials internal/store/authz.go: authorizations, tokens, and AuthzTx
--     Revoking        what no statement takes back, and what a revocation reaches
--   Store/Codes     internal/store/oauth.go: authorization codes, and the statement that consumes one
--     Consuming       codes that are consumed
--   Store/Accounts  internal/store/accounts.go: the rows of accounts, their order, their sweep
--     Sweeping        what the sweep leaves alone
--   Core/Requests   internal/core/operations.go: requests, their refusals and their surroundings
--   Core/Operations internal/core/operations.go: runOperation, settle, correlateEcho
--     Pipeline, Settle, Echo  their theorems
--   Core/Send       internal/core/send.go: SendWithRetry and ClassifyResolve; Retrying: its schedule
--   Authz/Scopes    internal/authz/scopes.go; Narrowing: inclusion and the text form
--   Authz/Limits, Buckets, Concurrency, Cooldown  internal/authz/limits.go; Rate, Slots and
--                   Escalation: what the limiters let through
--   Authz/Session, Rotation, Refresh  internal/authz/service.go: refreshSession, by its state and
--                   failures, its transaction, and its stages
--     Redeeming       what the transaction leaves of the tokens
--     Stages          the ways in which a refresh ends
--     Reuse, Spent, Once, Refused  a token presented twice, the scopes of a session, and the
--                   refusals that change no grant
--   Authz/Bearer    internal/authz/service.go: Authenticate
--   Authz/Exchange  internal/authz/oauth.go: ExchangeAuthorizationCode and the replay of a code;
--                   internal/oauth/token.go: the binding check
--     Stages          the ways in which an exchange ends
--     Bought, Replayed  what a granted exchange had, and what a second one of its code meets
--   Accounts/State, Feed  internal/accounts/state.go: what a state allows; the feed of changes
--     Delivering      what a subscriber gets
--   Accounts/Supervisor  internal/accounts/supervisor.go: transition, start and stop
--     Rebalancing     internal/accounts/lifecycle.go: rebalance and the operations that end with it
--     Stages, Slots, Bounded  the parts of a start, and the slots in use
--     Filling, Served  that rebalance ends, and what it leaves; Moves, Own and Others: what a start
--                     does to the row of its account and to the others
--     Events, Announced  Apply, as far as the rows and the feed go; what a change is from
--     HalfUp          a start whose session is not saved
--   Media/Ticket    internal/media/ticket.go: Mint and Verify; Redeeming: what a ticket is good for
--   Media/Cache     internal/media/cache.go and storeindex.go, internal/store/media.go: Evict
--     Evicting, Budget  that listed entries stay the only ones; what an eviction takes
--   Tests           the theorems at concrete inputs
--
-- Names are the source's in snake case, a method's receiver becomes an argument, and a comment
-- names the method where the two differ.
--
-- State. A table is the list of its rows in rowid order; a statement is a function of it. A call of
-- the store's writer takes its fate: it commits, it is rolled back, or it commits and the caller
-- sees an error, since the caller may give up waiting. What other goroutines do between two
-- statements of one request is a function that the request's environment holds, so each theorem
-- holds for every such interference that its hypotheses admit. The call of libgm is a function of
-- the environment as well, and the model records the operations that it is called for.
--
-- Numbers. Times are milliseconds since the epoch, durations in the in-memory limiters
-- nanoseconds; both are natural numbers. A token bucket counts in fractions of which a token
-- has 6 * 10^10, so the refill is exact where the source rounds a float64. The doubling of a
-- cooldown stops at the cap and is taken not to overflow int64, as it is 86,400,000 ms. Loops are
-- structural recursions, that of the cooldown on its steps; the loop of rebalance runs on fuel, one
-- more than there are accounts, since each round tries an account that it did not try before.
--
-- Parameters. SHA-256, HMAC, base64, the strings package, fmt, random identifiers and libgm are
-- arguments, and what is relied on of them is a named hypothesis with a witness. SQLite is relied on for its
-- transactions and for the uniqueness of keys, which the statements here check; a foreign key that is
-- violated is a transaction whose fate is to be rolled back.
--
-- Not modelled: HTTP, MCP and the command line client, which decode and encode; the OAuth
-- server apart from the exchange of a code; pairing; ingestion apart from correlateEcho; uploads, and
-- the files of the media cache apart from the paths that an eviction unlinks; SQL beyond the tables
-- named above; audit payloads and logging; libgm, a copy of another project's library.
mod Prelude
pub mod Gm
pub mod Store
pub mod Core
pub mod Authz
pub mod Accounts
pub mod Media
