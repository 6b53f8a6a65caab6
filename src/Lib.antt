-- ===== src/Lib.antt =====
-- The core of the authentication service: tokens, scopes, claims, grants and users, their storage, the
-- endpoints of OAuth 2.0 and of the compatibility API, and the pages of a user's account.
--
-- The parts, with their code from the repository's root:
--   * Token (crates/data-model/src/tokens.rs): `TokenType` with `prefix`, `match_prefix`, `generate` and
--     `check`, and `base62_encode`. The random generator is a stream of bytes, the CRC-32 a parameter.
--   * Scope (crates/oauth2-types/src/scope.rs): `ScopeToken` and `Scope`. A scope is the list of its
--     tokens, each once; Scope.Parse has the quotient that forgets their order.
--   * Claims (crates/jose/src/claims.rs): `insert` and the extractions of typed claims, `TimeOptions`,
--     `TimeNotAfter` and `TimeNotBefore`. The current time is an argument, and chrono's codec of times a
--     parameter.
--   * Model (crates/data-model/src, crates/oauth2-types/src/pkce.rs): the records, `Pkce::verify`, the
--     stages of an authorization grant, and in Model.Grant.Stages their state machine.
--   * Storage (crates/storage/src/oauth2): the database is a record of tables, a table the list of its
--     rows in the order of insertion, and a query a function from the database to an error or a result
--     with the new database. `NOW()` is an argument. Storage.Rows has the rows and errors,
--     Storage.Lookups and Storage.Sessions the joins and conversions that queries share,
--     Storage.AccessToken, Storage.RefreshToken, Storage.Grant, Storage.GrantLookup and
--     Storage.GrantStage the queries by table, Storage.Table and Storage.Constraints the keys,
--     Storage.Links the references of refresh tokens to access tokens.
--   * ClientAuth (crates/axum-utils/src/client_authorization.rs): the credentials of a request and their
--     verification. Decryption and JSON web tokens are a record of parameters.
--   * TokenEndpoint (crates/handlers/src/oauth2/token.rs): `post`, `authorization_code_grant` and
--     `refresh_token_grant`. A request ends with its answer and with the database as committed: what is
--     not committed is rolled back. The URL parser, the hashes, the codec of times, the signature of ID tokens and the
--     clock and randomness of a request are parameters.
--   * Storage.User with Emails and Verification (crates/storage/src/user.rs): users, passwords, browser
--     sessions, emails and the codes that verify them. Storage.Consent (oauth2/consent.rs): the scope
--     tokens that a user has consented to for a client.
--   * Authorization (crates/handlers/src/oauth2/authorization/complete.rs and consent.rs): `complete`
--     with its checks, and what a consent stores.
--   * Introspection (crates/handlers/src/oauth2/introspection.rs): the handler over the four kinds of
--     token.
--   * Compat (crates/data-model/src/compat.rs, crates/storage/src/compat.rs,
--     crates/handlers/src/compat): devices, sessions, tokens and single sign-on; the database is the
--     other one with four tables more. LoginPost, RefreshPost, LogoutPost and SsoPages are the handlers.
--   * Cookies (crates/axum-utils/src/session.rs and csrf.rs): a jar holds the values of two cookies,
--     whose encodings are parameters.
--   * Views (crates/handlers/src/views): the `post` handlers of login, logout, reauthentication,
--     registration, the change of a password, the verification and the management of emails. Argon2,
--     the parser of addresses, the policy and the mailer are parameters.
--   * Prelude and Time: the shared names, lemmas on lists and results, instants in microseconds.
--   * Tests: a small database and runs at concrete inputs.
--
-- `post` reads a client by its credentials (ClientAuth over Storage), then hands the transaction to one
-- of the two grants, which look rows up, add tokens and mark the grant or the refresh token as used.
--
-- Bounds: the loop of `base62_encode` recurs on the well-founded order of the numbers, so no fuel is
-- needed. A token's duration is stored in whole seconds up to the largest `i32`, a maximal age likewise.
-- Ids are unbounded, and instants do not lie before the epoch but for `max_auth_time`.
--
-- An `unwrap` that fails is an error of its own, and ends a request like the others.
--
-- A page signs its user in by the cookies, checks the CSRF token of its form, and calls the storage;
-- `complete` reads the consent that `post` of consent.rs stored and writes the rows that the token
-- endpoint exchanges.
--
-- Not modelled: connection errors of the database, which end a request like any other error;
-- transactions that overlap; foreign keys, but for what a deletion does; the conversion of client
-- rows; `get_user_emails`, whose order is a collation; the checks and the answer of an authorization
-- request, userinfo; the pages that are only rendered, and where a user is sent after one;
-- configuration, keys and start-up.
pub mod Prelude
pub mod Time
pub mod Token
pub mod Scope
pub mod Model
pub mod Storage
pub mod Claims
pub mod ClientAuth
pub mod Authorization
pub mod Introspection
pub mod Cookies
pub mod Views
pub mod Compat
pub mod TokenEndpoint
mod Tests
