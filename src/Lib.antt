-- ===== src/Lib.antt =====
-- LinkMint, a protocol of payment links: the Python services under linkmint-backend, as models with
-- the theorems that make them correct.
--
-- The program is a set of services, each with its own database schema, an outbox of events in that
-- schema, and a REST interface. A PayLink is created by paylink-service, which sends it to the chain
-- and reads its settlement back from the chain. invoice-subscription puts a PayLink behind an invoice
-- and marks the invoice paid when an event of the chain says that the PayLink was verified.
-- merchant-onboarding admits the merchants, fee-pricing-service quotes the fees,
-- notification-service delivers what the others report, ledger-python is the double-entry library
-- that services post to, and by idempotency-python requests and events take effect once.
--
-- The files:
--   Prelude            names, lists over native numbers, integers, tables (Prelude/Tables), methods
--                      that change a state and may raise (Prelude/Actions), database sessions
--                      (Prelude/Sessions), sorting, rounding, texts
--   Ledger             linkmint-backend/ledger-python/src/linkmint_ledger: entry.py (Ledger/Entry) and
--                      ledger.py (Ledger/Store): validate, post, reverse, the listings and balances
--   Invoice            linkmint-backend/invoice-subscription/app: domain/models.py (Invoice/Model),
--                      domain/services.py (Invoice/Service), the queries and the consumer
--                      (Invoice/Queries)
--   Notify             linkmint-backend/notification-service/app: delivery/runner.py,
--                      delivery/backoff.py and the store of deliveries (Notify/Delivery),
--                      domain/preferences.py with its requests and gate (Notify/Preferences),
--                      templating/render.py (Notify/Template), templating/registry.py, the rows and
--                      recipients (Notify/Intake), domain/service.py and events/consumer.py
--                      (Notify/Fanout), api/v1/inbox.py (Notify/Inbox)
--   PayLink            linkmint-backend/paylink-service/app: domain/models.py, domain/reconcile.py
--                      (PayLink/Model), chain/nonce.py (PayLink/Chain), domain/service.py
--                      (PayLink/Service, PayLink/Settle)
--   Pricing            linkmint-backend/fee-pricing-service/app: domain/models.py (Pricing/Quote),
--                      the rows, queries and domain/fx_service.py (Pricing/Rates),
--                      domain/pricing_service.py (Pricing/Service), domain/invoicing_service.py
--                      and sweeper/run.py (Pricing/Invoicing)
--   Merchant           linkmint-backend/merchant-onboarding/app: the state machine and the rows
--                      (Merchant/Status), merchants_service.py (Merchant/Service), bank accounts,
--                      contracts and the consumer (Merchant/Records)
--   Compliance         linkmint-backend/compliance-risk/app: domain/risk_engine.py
--                      (Compliance/Engine), the rows, queries and redaction (Compliance/Model),
--                      domain/risk_service.py and the consumer (Compliance/Risk),
--                      domain/kyc_service.py (Compliance/Kyc)
--   Idempotency        linkmint-backend/idempotency-python/src/linkmint_idempotency: the commands of
--                      Redis (Idempotency/Redis), store.py (Idempotency/Store), consumer.py
--                      (Idempotency/Consumer)
--   Identity           linkmint-backend/identity-service/app: the rows and queries (Identity/Model),
--                      domain/sessions_service.py (Identity/Sessions), domain/rbac.py
--                      (Identity/Rbac), domain/orgs_service.py (Identity/Orgs)
--
-- A method is a function from the state to a result or an error and a state. A service's state is a
-- session: what the database has committed, what the session's queries see, and what the publisher
-- was given. A request runs on a new session and what it has not committed is dropped. Tables are
-- association lists, queries are filters, sorts and cuts of them, and the primary keys and unique
-- indexes refuse a second row. For the services with a lifecycle, a module of that name states the
-- changes that a table may undergo; other modules prove that each method makes only such changes
-- (Conduct and Course), and the theorems on sequences of calls follow from the changes.
--
-- Everything recurses on its lists, so there is no fuel; the sweep of invoices takes 100 rows at
-- most and the schedule of retries has five entries, as in the code.
--
-- Parameters of the models are what is outside the Python code: Redis, the replies of the chain, of
-- paylink-service and of compliance-risk, the providers of messages, of rates and of identity
-- checks, ciphers and hashes, fresh identifiers and the time. Not modelled: HTTP and JSON, logging,
-- connections that fail in a commit, the interleaving of concurrent requests within one method (each
-- request runs alone), and decimal numbers of more than 28 digits. Also not modelled are the services
-- in Go, the frontend, the Python service admin-backoffice and, of identity-service, all but the
-- sessions and the organizations.
pub mod Prelude
pub mod Ledger
pub mod Invoice
pub mod Notify
pub mod PayLink
pub mod Pricing
pub mod Merchant
pub mod Compliance
pub mod Idempotency
pub mod Identity
