-- ===== src/Lib.antt =====
-- A model of mcpmem, a knowledge-graph memory server: its OAuth authorization server, its rate
-- limiter, its outbox of change events with webhook subscriptions and the delivery worker, its
-- attachments with the extraction of their text, and its index of embeddings.
--
-- How the parts interact. A client registers, or publishes its metadata (Oauth/Registration). A
-- human who has logged in approves scopes for it, which puts an authorization code into the store
-- (Oauth/Consent). The token endpoint (Oauth/Token) redeems authorization codes and refresh tokens
-- in the OAuth store (Oauth/Store) and issues token pairs there; the HTTP routes call it after the
-- rate limiter (Oauth/Limits) has let the peer through. A committed change of the graph (Changes)
-- raises the revision of its entity, is recorded as an event, queues the entity for the index
-- (Index), and `enqueue_matching` (Subscriptions) writes one delivery for each subscription that
-- wants the event into the outbox (Events). The worker (Webhook) claims one due delivery under a
-- lease, looks its subscription up, checks the endpoint, signs and sends the request, and completes
-- or retries the delivery under that lease. Attachment uploads (Attachments) arrive in chunks,
-- reserve their bytes in the budget of the workspace, and become attachments with an extraction
-- job; an extractor claims it, stores the text of the pages in segments, and queues the attachment
-- for the index. An indexer claims a queued owner for a profile under a lease and commits its
-- vectors, if the owner is still at the revision of the job; a new revision supersedes the lease. A
-- profile is rebuilt beside the serving one and activated once a full scan has found its vectors
-- current and they are published.
--
-- Files and code.
--   Oauth/Limits         crates/mcpmem-oauth/src/limits.rs: RateLimiter and Limits
--   Oauth/Store          crates/mcpmem-oauth/src/store.rs and migration 0004_oauth.sql: every method
--                        of Store over the tables of clients, logins, codes and tokens
--   Oauth/Token          crates/mcpmem-oauth/src/token.rs: grants, issue, validate, revoke
--   Oauth/Registration   crates/mcpmem-oauth/src/registration.rs: register,
--                        resolve_metadata_document and the rule for redirect URIs
--   Oauth/Consent        crates/mcpmem-oauth/src/consent.rs: offered, approve, deny, escape_html
--   Events               crates/mcpmem-core/src/events.rs: EventRepository over event_outbox
--   Subscriptions        crates/mcpmem-core/src/subscriptions.rs: SubscriptionRepository
--   Webhook              crates/mcpmem-webhook/src/lib.rs: validate_endpoint_inner, is_public, deliver,
--                        run_once and the startup audit
--   Attachments          crates/mcpmem-core/src/attachments.rs: AttachmentRepository and
--                        AttachmentJobRepository, over the tables of migration 0015_attachments.sql
--   Index                crates/mcpmem-core/src/jobs.rs: the queue of owners, IndexProfileRegistry
--                        (Index/Profiles), the full scan and the generations (Index/Scan), commit_chunks
--                        (Index/Commit), and the queue of the types (Index/Taxonomy)
--   Changes              crates/mcpmem-core/src/events.rs: persist_changes, and the provenance of
--                        crates/mcpmem-core/src/mutation.rs
--   Prelude              tables as lists of rows with SQL's SELECT, UPDATE, DELETE and COUNT, results,
--                        tests and texts
-- Each component has its records in Records, its operations in the file of its name, its theorems in
-- further modules named for what they show, and its tests in Examples. The operations of
-- uploads stand in Attachments/Admission and Attachments/Append as well, their MIME rules in
-- Attachments/Mime, the extraction in Attachments/Extraction and Attachments/Segments, deletion in
-- Attachments/Removal, the address check of the worker in Webhook/Addresses.
--
-- How code becomes definitions. A table is the list of its rows, a record a row; a method is a
-- function from the tables and its arguments to the new tables and its answer. A transaction is one
-- step: where it returns an error the tables are as before. Several processes that share a database
-- are sequences of such steps in any order (the modules Trace, Quota and Attempts). The clock that
-- a process reads and the Uuids and secrets that it draws are arguments. Numbers are natural:
-- clocks, sizes and counters of the source are never negative where they are used; a subtraction
-- whose result may be negative is rewritten as a sum on the other side, and the overflow checks of
-- the source compare with i64_max. Every loop runs over a table or a text, so no fuel is needed;
-- the chunk reader runs over the number of chunks that the upload's row counts.
--
-- Parameters stand for what the repository does not contain: SHA-256, HMAC, the URL parser, the
-- syntax of addresses, DNS, the secret provider, the JSON encoder, the HTTP client, the norm of a
-- vector of floats, what serde makes of a registration, and for attachments the entities that live
-- in the graph.
--
-- Not modelled: I/O failures of SQLite and the JSON text of columns, which the code passes on as
-- errors; the graph and the mutations that compute a change set; the merging of types; principals;
-- the consent page and the upstream login; text extraction from PDF and images; the test delivery
-- of webhooks; vector search, the embedding providers, configuration, HTTP routes, the web
-- interface.
mod Prelude
pub mod Oauth
pub mod Events
pub mod Subscriptions
pub mod Webhook
pub mod Attachments
pub mod Index
pub mod Changes
