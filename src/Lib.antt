-- ===== src/Lib.antt =====
-- Verification of the Core event hub (backend/app): a service that takes business events from the
-- modules of a municipality, stores each as evidence, routes it to the modules that subscribe to
-- its type, retries what was not delivered and keeps what cannot be delivered in a dead letter queue.
--
-- World.antt holds the state that the services share: the tables of the database session as lists of
-- rows, the messages that the broker took, and counters of the calls made. What the program takes from
-- outside is the record Env there: the clock, the generated identifiers, the broker's answer to each
-- publish and each declaration, pydantic's reading and dump of an envelope, jsonschema's errors and
-- check of a schema, whether jsonschema evaluates a schema at all, and the parsing of UUIDs. A theorem
-- about every Env holds for every behaviour of the broker. A new row has no identifier before the next flush, as in the session.
--
-- - Base, Text, Json, Errors: shared helpers, Python's text, parsed JSON, the errors (core/errors.py).
-- - Model: the rows (models/events.py, models/registry.py).
-- - Repositories: the queries (repositories/event_repository.py, repositories/registry_repository.py); in
--   Paging the pages of repositories/base.py, in Search the scope of a module and the search of the event
--   log, in Statistics the counts. The match of ilike is a parameter; newest_first and largest_first keep the
--   order of the table among equals, which the database leaves open.
-- - RetryPolicy: services/retry_policy.py. Envelope: services/envelope.py.
-- - Validation: services/validation.py, from the errors of jsonschema on; validate_data also gives the
--   error that jsonschema raises itself, and violation_of is what follows where it raises none.
-- - Messaging: messaging/broker.py (the messages), messaging/topology.py, and in Fake the broker in memory
--   (messaging/fake.py), whose routing keys have no line breaks.
-- - Hub: services/event_hub_service.py, method by method: Outcome (results and audits), Routing, Intake
--   (validation, rejection, malformed messages, ingest) and Reprocess. ingest is the method where jsonschema
--   yields its errors, ingest_or_raise the method with the error that it lets through.
-- - Delivery: services/delivery_service.py; Letters opens dead letters, Retries schedules the automatic ones,
--   Rejected reads rejected messages; Operator (Outcomes, Choice, Retry, Discard) and Due are the two parts
--   that an operator and the periodic scan drive.
-- - Registry: services/registry_service.py, cut into who may act (Authority), Modules, EventTypes,
--   Subscriptions with the declared topology, and Publications.
-- - Accounts: models/users.py, the logins of services/auth_service.py up to the token (Machines holds
--   those of modules and the rotation of their secrets), and services/user_service.py: Creation makes
--   accounts and sets passwords, Users updates and deletes. The hashes are parameters.
-- - Worker: workers/inbox_worker.py, the handlers of the two queues and a round of the retry loop, which
--   compose Hub and Delivery; a handler that raises leaves the tables as they were.
-- - Stats: services/stats_service.py: Distance and Words detect similar names, Alerts makes the
--   integration alerts, Dashboard the summary of a module without its processing times.
-- - Catalog: models/catalog.py, repositories/catalog_repository.py and services/catalog_service.py: Zonas,
--   Barrios and Items are the operations, Slugs the grammar of codes, Reach the states they lead to.
-- - Access: api/deps.py (who is calling) and, of api/v1/events.py, the listing of events and the view of
--   one. The check of a token is a parameter; Isolation composes it with the searches.
--
-- A method that may raise returns a Result with the world in which it was raised. Loops over rows are
-- structural recursion, so there is no fuel but in the decimal print of a number, where n + 1 steps are
-- enough for n. Times are natural numbers of microseconds. Numbers inside JSON are naturals, since the
-- program reads them for their truth only; the other values of a document that str would print are read
-- as absent where the source calls str on an eventId that is no text. Messages for people are left out
-- where no row keeps them. The retries of a dead letter are counted anew for each retry; within one
-- session the program may count those that it loaded first, which shows in attempt_number only.
--
-- Not modelled: logging, the other HTTP routes, tokens and hashing, the RabbitMQ adapter, the
-- global dashboard and the map of event types, the averages of processing times (floats), the listings of
-- the catalogues, the seeds and the front end.
pub mod Base
pub mod Text
pub mod Json
pub mod Model
pub mod RetryPolicy
pub mod Messaging
pub mod Envelope
pub mod Validation
pub mod World
pub mod Repositories
pub mod Hub
pub mod Errors
pub mod Delivery
pub mod Registry
pub mod Worker
pub mod Accounts
pub mod Stats
pub mod Catalog
pub mod Access
