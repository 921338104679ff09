-- ===== src/Lib.antt =====
-- bolt402: an L402 client with a Lightning wallet behind it, verified.
--
-- The client sends an HTTP request. A server that wants a payment answers 402 with a challenge: a
-- macaroon and a Lightning invoice. The client decodes the amount of the invoice, checks it against
-- its budget, has the Lightning backend pay, stores the token, sends the request again with the token,
-- and keeps a receipt.
--
-- Parts, and the files that model them:
-- - Prelude, Text, HashMap: Boolean tests, results with `>>=`, words of 64 bits, texts as lists of code
--   points with the string functions that the code uses, decimal numbers, and hash maps.
-- - Proto, for crates/bolt402-proto/src: Bolt11 (bolt11.rs), Challenge (challenge.rs), Token (token.rs),
--   Scheme (the prefix that both headers share), Errors (error.rs, client_error.rs), Port (port.rs).
-- - Core, for crates/bolt402-core/src: Budget (budget.rs), Cache (cache.rs), Receipt (receipt.rs), and
--   Client (client.rs), whose Flow has `request` and its helpers in the order of the source, and
--   Extract the reading of a 402 response. Builder has the builder and the caller's methods, and
--   Response what is read of an answer. Threads has the requests that run at the same time: the same
--   helpers cut at the awaits, and schedules of their steps.
-- - Mock, for crates/bolt402-mock/src: Challenge (challenge.rs), Backend (backend.rs), Server
--   (server.rs). Mock.Purchase puts the client, the server and the backend together.
-- - Sqlite, for crates/bolt402-sqlite/src (store.rs, error.rs, migration.rs): the store's operations,
--   the expiry of tokens and the schema's migration. The SQL statements are syntax, in
--   Sqlite.Statement; SQLite, which runs them, is a parameter, and Sqlite.Laws has what SQL says of
--   every statement and condition.
-- - Rest: what the wallets' REST backends use of reqwest, serde_json, hex, sha2 and base64.
-- - Lnd, for crates/bolt402-lnd/src: errors (error.rs), Rest (rest.rs) with the stream of updates in
--   Rest.Stream, and Grpc (grpc.rs). Lnd.Rest.Client puts the client and the backend together.
-- - Cln, for crates/bolt402-cln/src: errors (error.rs), Rest (rest.rs) and Grpc (grpc.rs).
-- - SwissKnife, for crates/bolt402-swissknife/src (backend.rs, types.rs), and Nwc, for
--   crates/bolt402-nwc/src (backend.rs, error.rs).
-- - Wasm, for crates/bolt402-wasm/src: client.rs, and Backends (backends.rs). Ffi, for
--   crates/bolt402-ffi/src/lib.rs: the calls of the C interface on the thread's error and the client.
-- - Python, for crates/bolt402-python/src/lib.rs: the exceptions, the response and the client as Python
--   sees them, and Backends, the wallets' backends and the clients that pay with them.
-- - Tests: runs on the inputs of the unit tests, and the theorems at concrete inputs.
--
-- How the code is modelled. A method behind a lock is a step on the state that the lock guards. The
-- client's `Session` is its mutable state together with the store and the world outside, in which the
-- servers, the Lightning node and the clock live; `Env` holds the calls that leave the client, and the
-- trace of a session lists them, the latest first. A step returns the new state also where it fails.
-- Numbers are `u64` as in a release build: sums and products wrap around (`add64`, `mul64`), and
-- decimal text that does not fit is refused. Every loop is structural recursion on its input, except
-- for printing a number, which has fuel for the twenty digits of a `u64`.
--
-- Parameters: Unicode lower case and `f64` (Proto.Std, with what is documented of them on ASCII and on
-- the range of `as u64`), base64, hex, SHA-256 and random bytes (Mock.Laws has what is relied on), the
-- HTTP stack, URL parsing, header validation and the clock (Env); for the wallets' backends the
-- answers of the node, the JSON parser on the types of the answers, the stubs of the gRPC services,
-- and the environment of the process (Rest, with the laws that are relied on in IsCrypto).
--
-- Not modelled: panics (poisoned locks,
-- debug arithmetic, an API key that is no header value), logging, derived serialisation, sockets,
-- and memory behind C pointers.
pub mod Cln
pub mod Core
pub mod Ffi
pub mod HashMap
pub mod Lnd
pub mod Mock
pub mod Nwc
pub mod Prelude
pub mod Proto
pub mod Python
pub mod Rest
pub mod Sqlite
pub mod SwissKnife
pub mod Tests
pub mod Text
pub mod Wasm
