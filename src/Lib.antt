-- ===== src/Lib.antt =====
-- An OAuth 2.1 authorization server whose tokens are delegated from agent to agent. The paths
-- below are from the repository's root.
--
-- Data. `Value` is what a JSON object holds, with a `datetime` beside the JSON values (the claims
-- of a token before it is encoded); `Value/Times` has the times, in microseconds since year 1;
-- `Outcome` is a value or an exception, where `oauth` is OAuthError of src/errors.py, `token` and
-- `value` are the errors that the program catches or documents, and `uncaught` is any other
-- exception, a server error. `Models` is src/models.py.
--
-- What the program calls and does not implement is a parameter, the record `Platform`: PyJWT, the
-- keys of `cryptography`, argon2, CPython's object identities and order of sets, and the
-- collation of the database. `Draws` holds what a request reads from the clock and from the
-- random generator.
--
-- Claims. `Delegation` is src/services/delegation.py; its loop over nested `act` entries runs on
-- fuel 33, one more round than the longest chain that it lets through, and the fuel is never used
-- up. `Scopes` is src/services/scopes.py, `Tokens` is src/crypto/tokens.py, with the clock and
-- the identifier as arguments.
--
-- State. `Exec` is an action that reads and writes the database and may raise; what was written
-- stays written. `Storage` is src/storage/repositories.py over the four tables of
-- src/storage/migrations, each SQL statement one action; `Storage/Migrations` is the migration
-- runner of src/storage/database.py, in the transaction of its connection, where the SQL of a
-- file is a parameter, with the pool and `reset` beside it.
--
-- A request. `Forms` is src/api/forms.py; `Auth` and the files below it are src/auth,
-- src/storage/secrets.py and src/services/clients.py; `Grants` and the files below it are
-- src/grants; `Pipeline` is src/services/pipeline.py, the one path from a grant's result to a
-- recorded token; `Routes` is the token endpoint and the error handler of src/api/routes.py and
-- src/api/schemas.py. `Grants/Lineage` is the relation of a root token to the tokens that
-- exchanges derive from it, where `Value/Wire` says what a claim is read back as. A request is
-- read, its grant and its client are found, the grant resolves a result, and the pipeline
-- attenuates, mints, records and returns. `Config` is the settings of src/config.py, read from
-- the environment in `Startup`, and `Metadata` the discovery document and the request body of
-- src/api/metadata.py, which `Routes/Discovery` serves.
--
-- Requests at a time. Every handler is a coroutine of one event loop, and there may be more
-- servers over one database; servers with the same settings are one server here, since nothing of
-- a request is kept in its server. `Process` is a coroutine between two of its database statements;
-- `Pipeline/Statements`, `Auth/Clients/Statements` and `Routes/Statements` have the handler so,
-- and a grant and an authentication method carry their own code in both forms with the proof that
-- the two agree. `Concurrent` is a server with many requests under way: a sequence of events,
-- each of them an arrival, one statement of one handler, the loss of a handler's connection before
-- its statement is committed, or a write of another program. A handler has at most five
-- statements. A connection that is lost between a commit and its answer is not among the events.
-- `Process/Gated` is a coroutine that comes to nothing unless one of its statements passes a gate,
-- and `Concurrent/Credit` counts the tokens that the handlers under way may still make.
--
-- Keys and start. `Keys` is src/crypto/keys.py: the public JWK, the thumbprint and base64url;
-- `Keys/Store` is the key store, as servers over one key file whose operations on the file system
-- interleave and may each fail, with the permissions of its directory. A server has at most eight
-- operations. `Startup` is src/main.py: the bootstrap client, what a start writes, the pool from
-- its opening to its closing, and the server that is built.
--
-- `Examples` holds a concrete input for each theorem. `Shared` holds tests, lists, sorting and
-- words.
--
-- Not modelled: how the pool hands out its connections, and the signature check of
-- src/auth/private_key_jwt.py whose result is discarded.
pub mod Shared
pub mod Outcome
pub mod Value
pub mod Scopes
pub mod Delegation
pub mod Platform
pub mod Process
pub mod Models
pub mod Keys
pub mod Tokens
pub mod Exec
pub mod Storage
pub mod Forms
pub mod Auth
pub mod Config
pub mod Grants
pub mod Pipeline
pub mod Routes
pub mod Concurrent
pub mod Metadata
pub mod Startup
pub mod Examples
