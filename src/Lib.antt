-- ===== src/Lib.antt =====
-- Fleet: devices that run an agent, a Hub that relays to them, and Rooms in which Agents give
-- each other tasks. This library models the parts of it that hold state.
--
-- The Hub's payload caches (packages/fleet-hub/payload-cache.mjs)
--   PayloadCache models the class PayloadCache: a cache is a record of its three limits, its rows
--   in the order of their writes and its byte count; `make`, `delete`, `sweep`, `put` (the
--   source's `set`), `get` and `clear` are its methods. HubPayloads models HubPayloads,
--   `expiredResult` and `isTerminalResult` over three such caches.
--   A read of the clock is an argument, one for each place in the code that reads it, and no
--   theorem assumes that the clock goes forwards. The sizes of encoded keys and values are
--   parameters. The eviction loop runs on fuel, one more than the number of rows: each round
--   deletes a row, and with none left a row that passed the first test fits.
--
-- The Room authority (packages/fleet-worker/src/room-control.mjs and room-tasks.mjs)
--   It runs on the leader's device and decides what Agents may do in a Room.
--   Room/Types has the records and the requests of both files, and the error codes. Room/Ledger
--   is the store, one map for each key prefix. Room/Registry (Agents) and Room/Rooms (Rooms and
--   members) model the first file up to roomControl, and Room/Authority models roomControl. It runs
--   in a transaction of SQLite (packages/fleet-room/storage.mjs), which is taken to leave the store
--   as it was where the call throws. Of the second file, Room/Tasks models taskView to resumeParent, Room/Messages sendMessage and delegate,
--   Room/Execution claim to changeTask, and Room/Control localRoomControl. An error is a value
--   of `Code`, without its HTTP status and text.
--   Room/Lifecycle describes the life of a task as a relation of legal changes; Room/Writes,
--   Claims, Progress, Completion, Cancellation, Subtree, Delegation and Safety have the lemmas on
--   each operation's changes, and Room/Guarantees those on calls and runs of calls.
--   Room/Pages models pageWithinBudget, which the reads of a Room end with; the encoded size of
--   a row is a parameter. Room/Receipts is about repeated requests, Room/Members about who is in a
--   Room, and Room/Hidden about what roomControl shows of it to an Agent that is not.
--   Cancellation walks down the delegations nine times, as the code does; the depth of a task is
--   at most eight.
--
-- The request limiter (scripts/self-hosted/rate-limit.mjs)
--   RateLimit models fixedWindowLimit: a limiter is a record of its limit, its number of keys and
--   its counters, and `limit_call` is its method `limit`.
--
-- The session book (packages/fleet-worker/src/session.mjs)
--   SessionBook models createSessionBook and the functions beside it: which fingerprint owns a
--   ticket, which tickets of a fingerprint are live, and which a caller may see. SessionBook/Owners
--   is about books in which a ticket is claimed while nobody has it, or by the fingerprint that has
--   it: the Hub claims the ticket of an operation again where the operation is retried.
--
-- The Room relay (packages/fleet-room/relay.mjs)
--   Relay models the state of RoomRelay, registration, detach, prune and attach, Relay/Frames its
--   list, the frames that it receives and its calls, and Relay/Steps the handlers as one function
--   `step` of an event: a handler that awaits is two events, so that other events may come between.
--   A connection is named by a number that no other has. Each loop over the connections has a clock
--   of its own, so that a time-out may fall between two prunings of one handler. Relay/Soundness,
--   Joining, Runs, Kept and Answers have the lemmas on the relay's state, on who joins, on runs of
--   events, on what each part of a handler leaves pending, and on answers.
--
-- The device catalog (packages/fleet-worker/src/device-catalog.mjs)
--   DeviceCatalog models its rows, the index of an account's devices and that of their aliases, one
--   map for each key prefix, and DeviceCatalog/Batches the loops that read and write in batches of
--   128. The loop over pages runs on fuel, one for each page: a page that is not the last has a
--   row, so that one more than the number of rows is enough. DeviceCatalog/Aliases is about what a
--   reference leads to.
--
-- The high-security channel (packages/fleet-worker/src/tokenv1.mjs, src/lib/fleet/v1.server.ts)
--   Challenges models createChallengeBook with nextChallengeList and dropChallengeNonce;
--   Challenges/Lists, Agreement, Runs and Survival have the lemmas on lists, on the two maps and on
--   calls in any order. Tokens models parseAuthorization, fleetOaepValue, isTokenV1, isLegacyFlt and
--   challengeMessage, and Handshake models lookupHubActor and issueChallenge of the app's hub with
--   unwrapAuth and hashHubToken. RSA, SHA-256 and the JSON of a wrapped text are parameters, and so
--   are a nonce and the clock's reads. A nonce is 32 random bytes: where a lemma needs it, a
--   hypothesis says that the book does not hold it.
--
-- The operators' console and the accounts (packages/fleet-worker/src/ops.mjs, bind.mjs, ban.mjs and
-- oauth-account.mjs)
--   DeviceCounts models the counts of buildOverview, with what a plain object inherits as a
--   parameter, and Ops who is an admin, banTargetError and handleOpsRoute, with `setBanned` as a
--   parameter on a state; Ops/Guards and Ops/Counts are about these. Accounts models the three small
--   files.
--
-- The edge (packages/fleet-worker/src/edge-guard.mjs)
--   EdgeGuard models readBoundedBytes on a body's chunks, rateLimit and edgeRequestGuard.
--
-- The Worker's rows and handshake (packages/fleet-worker/src/presence.mjs and index.ts)
--   Presence models the fields that a device reports and what a list of computers shows;
--   WorkerHandshake models the methods challenge and resolveWrap over the Worker's store, and
--   WorkerHandshake/Wraps is about what a wrapped text resolves to.
--
-- How the program is modelled
--   A string is a sequence of code points. A request is a value of a data type, whose field types
--   stand for the checks of FIELDS and SCHEMAS; the checks that the operations make again (id,
--   version) are modelled. A request's fingerprint is the record whose JSON text the code takes.
--   The calls of the store are made one after another, as its queue of transactions makes them.
--
-- Base has what the parts share: results of code that may fail, equality, association lists and
-- text. Examples has runs on concrete inputs.
--
-- Not modelled: the reads of a Room (messages.read, tasks.list, tasks.get) but for their
-- paging, the database, the network, the minting and verifying of tokens, and the other parts of
-- the repository: the advertised update, result waiters, the framing of events, the Room
-- runner, recovery, the MCP protocol, plugins, the website, and the Go agent.
pub mod Base
pub mod PayloadCache
pub mod HubPayloads
pub mod Room
pub mod RateLimit
pub mod Challenges
pub mod Tokens
pub mod Handshake
pub mod DeviceCounts
pub mod Ops
pub mod Accounts
pub mod EdgeGuard
pub mod Presence
pub mod WorkerHandshake
pub mod SessionBook
pub mod Relay
pub mod DeviceCatalog
pub mod Examples
