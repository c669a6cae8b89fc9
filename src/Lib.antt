-- ===== src/Lib.antt =====
-- Verification of gmcauditor, a web service that audits online stores for Google Merchant Center.
--
-- The program: a web server (internal/web) takes logins, plan-gated requests and the billing webhooks
-- of Gumroad; it enqueues audit jobs, which workers claim (internal/jobs) and run through the audit
-- pipeline (internal/audit/pipeline.go); the scheduler (internal/scheduler) enqueues audits of the
-- monitored stores; the differ compares an audit with the one before, and the alerts go out
-- (internal/monitoring). The pages of a workspace stand behind a chain of middlewares.
--
-- The files, and what they model:
--   Base: shared names, Boolean tests, lists and integers over the native numbers, tables (an
--     association list in place of a map or of a database table), texts, bytes and Base64.
--   Plans: internal/web/plan_limits.go, internal/web/plan_gate.go and cadenceFor of
--     internal/scheduler/gmc_refresh.go. The counts that the gates read are arguments.
--   LoginLimiter: internal/web/ratelimit.go. A method is a function on the table of the addresses.
--   Sessions: internal/auth/session.go on internal/auth/memdb.go; the rows are a heap, since two maps
--     point to them. The hash of tokens is a parameter.
--   Login: Login, Logout, safeLoginNext and firstSlug of internal/web/handlers.go, over LoginLimiter and
--     Sessions. The check of a password, the cookie's codec and the normal form of an address are
--     parameters.
--   Access: the middlewares of internal/web/auth_middleware.go and internal/web/middleware_tenant.go
--     with internal/auth/csrf.go, as cmd/server/main.go chains them. A handler is a function of request,
--     context and world; what it writes in the transaction is pending, and what it writes through the
--     pool is in the database at once. The slug is compared by the database's `lower`, a parameter.
--   Members: TransferOwnership, RemoveMembership and AcceptInvitation of internal/web/handlers_tenant.go
--     on the table memberships.
--   Tokens: the signed tokens of internal/gmc/state.go and of the unsubscribe links in
--     internal/monitoring/dispatcher.go, over Base64 as Base.Base64 has it. HMAC, JSON and the text of
--     identifiers are parameters.
--   Settings: internal/settings (service, cipher, registry, memdb): the cache over a backend, which is
--     an interface that the backend in memory fills. `Get` is two steps, between which other calls may
--     come. AES-GCM, the environment and the auditor are parameters.
--   Jobs: claim, handle and the marks of internal/jobs/jobs.go, and Enqueue of
--     internal/store/audit_jobs.go, on the table audit_jobs; System has the steps of a pool of workers.
--   Scheduler: claimDue, enqueueAudit, runOnce and Force of internal/scheduler/scheduler.go, on the tables
--     stores, audits and audit_jobs. Refresh: internal/scheduler/gmc_refresh.go, with the statements of
--     internal/gmc/store.go on store_gmc_connections; what Google answers is a parameter.
--   Differ: Compute of internal/audit/differ/differ.go.
--   Audit: internal/audit/pipeline.go with the data of internal/audit/audit.go and the budget of
--     internal/ai/ai.go. Score and Enrich are the stages 4 to 6, Pipeline the others and Run; the
--     crawler, the Merchant Center client, the AI client, the checks and the persister are parameters.
--   Alerts: internal/monitoring/dispatcher.go on its two tables, and the page of unsubscribe links of
--     internal/web/handlers_alerts.go.
--   Accounts: Signup, VerifyEmail, ResendVerification, Forgot and Reset of internal/web/handlers.go on the
--     tables users, tenants, memberships and the two of tokens; Entry joins them with Login.
--   Crawler: internal/crawler/crawler.go. The network and the parsers of addresses, HTML, XML and
--     robots.txt are parameters, redirects are followed as `CheckRedirect` has it; the fan-out is a list of tasks in the order in which they end.
--   Gmc: internal/gmc/client.go, the request with its retries and the calls on top of it.
--   Checks: internal/audit/checks/gmc.go, the checks of a Merchant Center account; Items has those of
--     the single products.
--   Billing: internal/billing and the webhook of internal/web/handlers_billing.go. Database has the
--     tables with the constraints of the migrations, and a transaction that a failed statement aborts.
--     HMAC, the parsers of times, numbers and identifiers and the calendar are parameters.
--
-- Times are natural numbers and identifiers too. Counters are unbounded, which they reach nowhere
-- near in 64 bits; durations of the client wrap. Three loops are on fuel: that over the AI batches
-- (Audit.Enrich.batches), with the number of issues, which is enough since every round serves at least
-- one; the sitemaps (Crawler.crawl_sitemap), with the source's own limit of depth; and the pages of the
-- products (Gmc.list_from), whose fuel is an argument, since the source has no bound.
--
-- Not modelled: the checks of a store's pages (HTML), the OAuth exchange, mails, the other
-- handlers of internal/web (administration, audits, mail, stores, monitoring), the other
-- repositories of SQL statements, and logging.
pub mod Base
pub mod Plans
pub mod LoginLimiter
pub mod Sessions
pub mod Login
pub mod Tokens
pub mod Access
pub mod Members
pub mod Settings
pub mod Jobs
pub mod Scheduler
pub mod Differ
pub mod Audit
pub mod Alerts
pub mod Billing
pub mod Accounts
pub mod Crawler
pub mod Gmc
pub mod Checks
