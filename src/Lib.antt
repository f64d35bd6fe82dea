-- ===== src/Lib.antt =====
-- A verification of the library back end: lending and returning copies, the queue for a title, the
-- editing of books and copies, the outbox of notifications and its worker, invitations, the roll of
-- members and its CSV import, sessions, passwords and roles, bookmarks and saved searches, the parsing
-- of a search, the routes of HTTP with who may call them, and the migrations of the schema.
--
-- The program is a Go service over PostgreSQL. Handlers call services (internal/service), services call
-- repositories (internal/repository/postgres), and each repository method is one SQL statement or one
-- transaction. The model has one value for the database, `Db` (Db/Rows), with a list of rows for each
-- table. A statement is a function on lists (Prelude/Table: find_where, update_where, count_where and
-- first_where for ORDER BY ... LIMIT 1). A transaction is a `Tx` that drops its changes on an error; a
-- service method is an `Action` that keeps what was done before an error (Db/Monads).
--
-- Files and the code that they model:
--   Domain/Types, Errors, Retention, Copies, Loans   internal/domain/domain.go and errors.go
--   Circulation/Copies, Borrow, Return      internal/repository/postgres/circulation_repo.go: `borrow`
--     (Borrow and SelfCheckout), `explain_unclaimable_copy`, `return_loan` (Return)
--   Circulation/Desk, Reminders             internal/service/circulation_service.go: `borrow_at_desk`
--     (Borrow), `self_checkout`, `return_at_desk` (Return with its hook), `notify_due_soon`
--   Catalogue/CopyEdit                      UpdateCopy of internal/service/catalogue_service.go and
--     internal/repository/postgres/catalogue_repo.go
--   Catalogue/Isbn                          internal/service/book_metadata.go: `valid_isbn` (validISBN)
--   Catalogue/Metadata, Books, NewBooks, Volumes   the records of books in catalogue_service.go,
--     book_metadata.go and catalogue_repo.go; their data in Domain/Books
--   Catalogue/Search                        `search` (Search), `search_where` (searchWhere) and `book_page`
--     (bookPage) of the same files
--   Reservations/Store, Service             internal/repository/postgres/reservation_repo.go and
--     internal/service/reservation_service.go
--   Notifications/Queue, Outbox             internal/repository/postgres/outbox_repo.go
--   Notifications/Worker, Deliverable       internal/queue/worker.go, internal/notify/deliverable.go
--   Notifications/Invitations               internal/repository/postgres/invitation_repo.go
--   Accounts/RateLimit                      internal/ratelimit/ratelimit.go
--   Accounts/Tokens, Sessions               internal/repository/postgres/token_repo.go and user_repo.go,
--     internal/service/auth_service.go, internal/auth, and Authenticate of
--     internal/transport/http/middleware/middleware.go
--   Accounts/Roles                          UpdateRole, UpdateStatus, SetRole and the role tests
--   Members/Register, Columns, Import       internal/service/member_service.go: `create_member` (Create),
--     `resend_invitation`, the columns of a file, `import_csv` (ImportCSV and its preview)
--   Readers/Bookmarks, SavedSearches        bookmark_repo.go and saved_search_repo.go of
--     internal/repository/postgres, with bookmark_service.go and saved_search_service.go of internal/service
--   Search/Numbers, Values, Query           internal/service/catalogue_query.go: `parse_catalogue_query`,
--     `validate_saved_query`, and strconv.Itoa and Atoi as `itoa` and `atoi`
--   Migrations/Apply, Lookups               internal/migrate/migrate.go: `apply` (Apply), `pending_names`
--   Http/Responses                          the answer to an error: response/response.go of
--     internal/transport/http
--   Http/Paths, Routes, Serve, Network      router.go and middleware/middleware.go of
--     internal/transport/http: the table of routes, `identify` (Authenticate), `throttle` (RateLimit)
--     with `client_ip`, and `serve`, the way from a request to a handler
--   Library                                 the services together, as sequences of calls
-- The other files of each folder hold theorems; Witnesses applies them to a small library.
--
-- Conventions. An id is a number, uuid.Nil is 0, and `next_id` stands for uuid_generate_v4. An instant
-- is a number of nanoseconds, and one `now` serves the service and the database within a call. Text is
-- a list of code points, and case and space are those of ASCII. No integer of the code comes near the
-- bounds of its type, so the naturals stand for int. Every definition is total by recursion on a list,
-- save `itoa`, which runs on fuel: a number is its own fuel, and `atoi-itoa` shows that it is enough.
-- Failures of the connection, context cancellation other than in the worker, and log
-- lines are not modelled. Calls run one after the other, except where a theorem is about two that
-- overlap: Circulation/Race gives each of two borrows the view that READ COMMITTED gives it, and
-- Catalogue/StaleEdit puts a borrow between the read and the write of an edit.
--
-- Parameters: what the mail and push providers answer (`Senders`), the shared rate limiter's answer
-- (`Shared`), the cryptography and Unicode tables (`Crypto`), random tokens and salts, the embedded SQL
-- files with their checksum and the effect of a script, the rows that the CSV reader yields, the
-- reading of an access token, and the database's full-text search, its order of titles
-- and how it puts rows in an order that is asked for (`TextSearch`).
--
-- Not modelled: the catalogue's lists for discovery and the desk, which only read; the Open Library
-- client; decoding and encoding in HTTP handlers; the headers that the middleware adds and its log
-- lines; the rendering of messages and the providers' clients with their signatures; configuration; the
-- simulator and the commands. Each is input and output or text for another program.
pub mod Prelude
pub mod Domain
pub mod Db
pub mod Circulation
pub mod Catalogue
pub mod Notifications
pub mod Reservations
pub mod Accounts
pub mod Library
pub mod Witnesses
pub mod Migrations
pub mod Members
pub mod Readers
pub mod Search
pub mod Http
