-- ===== src/Lib.antt =====
-- Revaulter: an application asks for a cryptographic operation with a user's key; the request waits
-- in a database until the user confirms or cancels it in the browser, which runs the operation and
-- encrypts the result to the application. The server only stores, relays and guards. This
-- development models the Go code of its core and proves what that code promises.
--
-- The parts, and the files that model them (paths from the repository's root):
-- * internal/db/requests.go, RequestStore: Db/Requests. A table is the list of its rows; a method
--   takes the driver's answer to each of its statements (`Conn`), the times that it reads, and the
--   table, and answers with a result and the table. Types has the rows and the WHERE clauses, View
--   the methods by primary key, Lifecycle any history of statements, Outcomes and Once what
--   confirming, canceling and collecting do, Reads and Listing the two reads that also write.
--   CreateRequest is `create_request`, and so on for each method.
-- * internal/db/signing_keys.go, SigningKeyStore: Db/SigningKeys, in the same way; Slots has the two
--   unique indexes, Locks the keys that an automatic store may not replace, Access who sees and
--   changes a key, Rows what a statement keeps that holds of every key.
-- * internal/db/audit.go, AuditStore: Db/Audit. Records is about its rows over any history, Stored
--   about one INSERT, Cut, History and Pages about the pages of List.
-- * internal/db/auth.go, AuthStore: Db/Auth. Challenges has the challenges of passkey ceremonies;
--   Accounts the users (Settings) and their credentials (Passkeys), History any sequence of its
--   methods, Sealed, Touches and Untouched what they do to a user, Finalized the signup,
--   LastCredential and KeepsOne the two backends' deletion of a credential, Restricted the addresses
--   that a user allows, whose list AllowedIps normalizes, prints and parses.
-- * internal/server, the handlers: Server. State has what the handlers share: the tables, the
--   long-polls, the broker and the event queues, and ExecuteInTransaction of internal/db/db.go.
--   Middleware is middleware-auth.go, with parseAuthSessionToken of session_jwt.go and
--   util-ipallowlist.go, and Keyed who passes it with a request key and from where. AuditTrail is
--   audit.go and Logged what it leaves; Confirm is RouteV2APIConfirm of routes-api.go; CreateBody,
--   Create and Result are validateV2CreateBody, RouteV2RequestCreate (Stored has its row and event)
--   and RouteV2RequestResult of routes-request.go; Reads is the routes that only read, with
--   RouteV2APIAuditEvents of routes-audit.go, and Stream routeV2APIListStream; Expiry is
--   util-eventqueue.go; SigningKeys is routes-signing-keys.go, with Create and Public two of its
--   routes (Shown and Exact are about Public) and Proof verifySigningKeyPublicationProof, which
--   Verified describes without its checks (Signed, Lines and Accepted lead there); Notifications is
--   util-notifications.go, on the Go channels of Chan, where closing a channel twice or sending on a
--   closed one panics.
-- * internal/utils/broker/broker.go, the broker of the list of requests: Utils/Broker, on the same.
--   internal/utils/base64.go: Utils/Base64.
-- * internal/protocolv2, what all sides agree on: Protocol. types.go is in Labels (key labels and
--   notes), Algorithms, Timeouts (GetTimeout), Keys and Envelope, with jwk.go; signing_jwk.go in
--   SigningJwk; jwk_p384.go and the signatures of anchor.go in Anchors;
--   signing-key-publication.go in Publication.
-- * internal/clientcore/truststore.go, the anchors that a client has pinned: Clientcore/TrustStore.
-- Base holds what all share (text as bytes, Boolean tests, trimming and splitting), Sql what a
-- statement does to a table, with the laws of a table with a unique index in Sql/Keyed, of rows that
-- a WHERE hits in Sql/Rows, of ORDER BY in Sql/Ordered and of what holds of every row in Sql/Every.
--
-- How the parts interact: a handler takes the server's state and what the world answers while it
-- runs, and answers with a response and the state, or with `none` where Go panics. It runs the
-- methods of the stores, in a transaction where the code does, wakes the long-poll of the request's
-- state, publishes to the broker and calls the event queues. Db/Requests and Server/Result take the
-- writers that run between statements as arguments, and the histories are sequences of single
-- statements or handlers, as the database interleaves them.
--
-- Conventions. A time is in nanoseconds since 1970 and a column holds whole seconds (`unix`); no time
-- is before 1970, but for a deadline that a negative timeout gives, which counts as 1970. Text is a
-- list of bytes. A driver's answer is `up`, the statement ran, or `down`, it failed and changed
-- nothing; a foreign key that refuses a row is such a failure. A method that must run in a
-- transaction answers with the tables as the transaction has them; after an error, or when it cannot
-- commit, the tables are as before. ON CONFLICT decides on the index that it names before the primary
-- key does. A counter is an unbounded number; a time.Duration wraps around at 64 bits in
-- Protocol/Timeouts. An event queue is the list of the calls that it accepted. The metadata of an
-- audit event is kept as the text that is inserted, which PostgreSQL's cast to jsonb may rewrite.
-- What an error message adds to its first words is left out. Fuel: in Base/Trim the rounds are as
-- many as the bytes, of which each round removes one at least; a client's walk over the pages of the
-- audit log has one request for each row and one more; the digits of an int64 are 19 at most, and
-- Protocol/Publication gives 20 rounds to print them.
--
-- Parameters: what encoding/json writes and reads back (Json, a value survives the round trip and is
-- never empty text; Objects and Flags for metadata), what package net parses, prints
-- and compares (Db/Auth/AllowedIps, Server/Middleware), the token that the JWT library verifies,
-- uuid.Parse, time.ParseDuration, curves, PEM, PKIX, digests and signatures
-- (Crypto of Protocol/SigningJwk, AnchorCrypto of Protocol/Anchors, SHA-256 of the trust store).
-- The ids and times that the code draws are arguments.
--
-- Not modelled: the routes of accounts and passkeys, the signing of session tokens and the webhook
-- (planned: they compose what is here); the middlewares that only log or limit; backups; the
-- payloads of attestations and pubkey bundles; the rest of internal/clientcore, and
-- internal/integrity; the command-line programs, configuration, metrics, logging and the web client,
-- which are input and output around libraries; the two lists of rows ListForUser and ListCredentials.
pub mod Base
pub mod Sql
pub mod Time
pub mod Json
pub mod Protocol
pub mod Db
pub mod Chan
pub mod Server
pub mod Utils
pub mod Clientcore
