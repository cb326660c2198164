-- ===== src/Lib.antt =====
-- SOOMSUITE: a multi-tenant platform with a customer side (the agent SAMIIR, CRM, scheduling) and a
-- security side (the agent FATMA, scans, incidents, defensive actions), which a trust graph of
-- services keeps apart. This library models the part of it that decides what may happen.
--
-- Parts, and where they are modelled:
-- Prelude: names of the libraries, Boolean tests, lists, finite enumerations, texts.
-- Errors: packages/platform-core/src/platform_core/errors.py; `raise` is the `err` of a Result.
-- Schemas: the enumerations of packages/platform-core/src/platform_core/schemas/enums.py.
-- Store: operations of a database session as functions from the rows to a result and the rows;
--   `transaction` is `tenant_session` of packages/platform-core/src/platform_core/db/engine.py.
-- Security: packages/platform-core/src/platform_core/security. Crypto is the signed tokens of
--   crypto.py, Principal and Rbac are roles and permissions, Acl the trust graph of service_acl.py,
--   ServiceAuth the context of a verified request, Policy the engine of policy.py, Tools its registry
--   of agent tools, and Token the verification of service tokens with its cache of used ones.
--   RateLimit is the limiter in memory of ratelimit.py, whose clock counts nanoseconds; Idempotency
--   is the store of idempotency.py with its dictionary, where a response goes through JSON.
-- Approvals: services/approvals/src/approval_service. Policies is policies.py; Service and
--   Decision are the methods of `ApprovalService`; Api has the handlers with their callers,
--   permissions, transaction and audit record. Evolution is the relation of what a call may do to
--   a request, Steps shows it for each call, and Trace runs sequences of calls.
-- Scans: services/scanner-controller/src/scanner_controller. Gate is `evaluate_gate`, Service the
--   life of jobs, Findings `persist_findings`, Api the routes. The approval service is reached by
--   two calls, whose answers are parameters.
-- Incidents: services/fatma-soc/src/fatma_soc (incidents.py, risk.py). Risk classifies scores and
--   groups signals, Engine has the methods of `IncidentEngine`.
-- Defense: services/fatma-soc/src/fatma_soc (defense.py, preapproval.py, the routes of api.py on
--   actions); Changes shows what each session keeps. The providers and the approval service are
--   parameters.
-- Crm: services/crm/src/crm_service/service.py. Pipeline has the stages of the sales pipeline and
--   the erasure of a contact, Capture is `capture_contact`; Stages, Keeping and OnFile show what
--   they do.
-- Audit: services/audit/src/audit_service (chain.py, service.py). What the columns INET, JSONB and
--   TIMESTAMPTZ give back is a parameter.
-- Scheduling: services/scheduling/src/scheduling_service. Slots is the search for free slots of
--   slots.py and Spread its choice among them; Offers and Ends show what the search gives and when
--   it ends. Service has the rows, the table's constraints and `_db_busy`, Providers the choice of
--   a calendar provider and `_verify_slot`, Availability the offers, Bookings the methods that
--   change appointments, Api their routes. Lawful and Calendar show that the constraints are kept,
--   Trace runs sequences of calls.
-- Notifications: services/notifications/src/notifications_service. Templates is templates.py,
--   Service the queue and its claim, Delivery `_send` and `deliver`; Queueing runs sequences of
--   calls, Consent, Repeat and Stuck show what is sent, repeated and left.
-- Examples: runs on concrete data.
--
-- Conventions: a UUID is a number, a time is a number of seconds unless said otherwise, a float stands for its bits and is
-- compared by parameters. A table is the list of its rows. Where a file models one tenant's rows,
-- row-level security is assumed to hide all others; the approval service's rows carry their tenant.
-- An object that a session read and changed is flushed to the row it was read from. Hashes,
-- signatures, regular expressions, JSON, IP networks and calls of other services are fields of the
-- records named Externals. Loops run over lists, but for the two of the search for slots: they run on
-- fuel, which Scheduling/Ends.antt shows to be enough where the step is positive.
--
-- Not modelled: HTTP and serialization, realtime notices, metrics, the agents' language models, the
-- workflow engine, the gateways, the rest of the CRM, the remote calendars, Redis, and the services
-- for knowledge, messages and the intake of security events. Two sessions never interleave here:
-- each call is one step, but for requests under idempotency keys and, in Approvals/Race.antt, two
-- decisions on one request, whose halves are.
pub mod Prelude
pub mod Errors
pub mod Schemas
pub mod Security
pub mod Store
pub mod Approvals
pub mod Scans
pub mod Incidents
pub mod Audit
pub mod Defense
pub mod Crm
pub mod Examples
pub mod Scheduling
pub mod Notifications
