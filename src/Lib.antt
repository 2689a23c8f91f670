-- ===== src/Lib.antt =====
-- Go Media Archive: a model of the program's rules and of the storage that they rely on, with the
-- theorems that make them correct.
--
-- The program is a server that keeps users, sessions, media items, grants on them and a security audit
-- in an SQLite database. Requests pass limiters of failed attempts, a session token names the account,
-- services check what the account may do, and repositories change the tables in transactions together
-- with the audit event of the change.
--
-- Files and the code that they model (Go files below internal):
--   Go: what the program uses of Go. Go/Text: texts as code points, trimming, UTF-8. Go/Time: instants
--     in nanoseconds since Go's zero time, durations. Go/Failure: the sentinel errors and `errors.Is`;
--     an error is the list of sentinels that it wraps. Go/Action: calls that change a state and may fail.
--   Identity: identity/user.go. Identity/Username: roles, IDs, `NormalizeUsername`; Identity/User: `User`,
--     `NewUser`, `UpdateDetails`, `SetActive`.
--   Media: media/permission.go (Permission, Grant), media/policy.go (Policy), and media/item.go (Item;
--     its record and types are in Grant). Content: content/location.go.
--   Audit: audit/event.go, with its closed kinds in Audit/Kinds.
--   Session: session/session.go. Credential: credential/password.go and credential/enrollment.go.
--   Limiter: application/authentication/limiter.go (Bucket, Attempts) and
--     application/passwords/limiter.go (Addresses).
--   Store: the tables of storage/sqlite/migrations as lists of rows (Tables), statements and
--     transactions (Statements), storage/sqlite/audit_repository.go (Events), user_repository.go (Users),
--     session_repository.go (Sessions), password_credential_repository.go (Credentials),
--     password_enrollment_repository.go (Enrollments), media_repository.go (Items),
--     content_location_repository.go (Contents) and media_grant_repository.go (Grants).
--     The Rows modules hold the effects of the SQL statements.
--   Services: application/users/service.go (Users), application/authentication/service.go
--     (Authentication), application/sessions/service.go (Sessions), application/passwords/service.go and
--     change_service.go with password/policy.go (Passwords), application/bootstrap/service.go with
--     storage/sqlite/admin_bootstrap.go (Bootstrap), of application/media the files service.go (Media),
--     grants.go (Grants), upload.go (Upload) and managed_deletion.go (Deletion), and the making of their
--     audit events (Events).
--   Api: api/content_range.go.
--   Tests: a small archive and a small library, and the theorems at them.
--
-- How they correspond. A function of the program that fails is a function into `Result`; one that
-- uses the database is an `Action` on a `World`: the tables, the failures of the driver to come, the
-- IDs that the generator of event IDs will return, the variable that the event factory of a user's
-- deletion assigns, and the keys under which the content store publishes files. An upload and a
-- managed deletion go through the interface of the content store (content/store.go), a record of
-- actions; its laws are a record too, and hypotheses of the theorems. A failure can meet any
-- statement, BeginTx and Commit included; a transaction that does not commit gives back the tables
-- that it found. Keys of the limiters are texts, their buckets functions of a key with `none` for a
-- missing one; their mutex makes each call one step. There is no fuel: the loops of the program that
-- are modelled run over lists, and their recursion is on those.
--
-- Parameters. `Platform` stands for uuid.Parse and UUID.String of github.com/google/uuid, for the lower
-- case of code points above ASCII and for mime.ParseMediaType. The password hasher, the verifier of
-- password hashes, utf8.Valid with utf8.RuneCount, the token hashes, the token generators and the
-- authenticator of the session service are arguments. Hypotheses on these: the verifier does not fail, in
-- one theorem; a media type that mime.ParseMediaType returns is its own media type, trimmed, and no longer
-- than the text that it was parsed from, where an item is validated twice. The clock is an argument
-- of each call that reads it; instants are natural numbers, so none lies before the year 1.
--
-- Left out. Timestamps are compared as instants, where SQL compares their RFC 3339 texts; the CHECK
-- constraints of the tables on their texts and timestamps are among the failures of the driver, and so are
-- rows that do not scan. The bytes of a file are named by a text. Listings of users, items and events with
-- their cursors, the reading of content and its audit, and the auditing directory are not modelled.
-- HTTP handlers, clients, commands, migrations, the file store and the build tools are input and output.
pub mod Base
pub mod Go
pub mod Identity
pub mod Audit
pub mod Media
pub mod Content
pub mod Session
pub mod Credential
pub mod Store
pub mod Services
pub mod Limiter
pub mod Api
pub mod Tests
