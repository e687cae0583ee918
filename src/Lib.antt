-- ===== src/Lib.antt =====
-- Verification of the email service with AWS SES, a Go program of three processes: cmd/api accepts
-- requests over HTTP and receives the events of SES, cmd/smtp accepts messages over SMTP, cmd/worker
-- delivers what both put into a queue in Redis. They share four tables of MySQL and the counters of
-- the rate limiter in Redis.
--
-- Base holds what all parts share: Boolean tests, lists over the native numbers, Go's int as an
-- integer, errors as values (internal/delivery/types.go), results, and the outcome of a call over the
-- network, which may arrive, be lost, or take effect with its reply lost. A call of a service takes
-- its outcome as an argument, so that each theorem says which outcomes it covers.
-- Redis and Sql are the interfaces of the two servers: records of operations with the laws that their
-- documentation gives. Text columns are compared by a Collation, an equivalence that need not be
-- equality, as in the collation of the migrations.
-- RateLimit models internal/ratelimit: Scripts the Lua scripts, Keys and Calendar the keys and dates,
-- Limiter the methods of RateLimiter (CheckHourlyLimit is check_hourly_limit, and so on). A script is
-- one step, since Redis runs it without interleaving. Keys expire by the clock of Redis, which
-- RateLimit/Expiry relates to the clocks of the callers.
-- Queue models internal/queue/queue.go: Push, Pop, Retry and the lengths, on two lists of Redis.
-- Repository models internal/repository: Models the rows, Logs, Stats, Blacklist and Clients the
-- statements of each file of that directory.
-- Tracking models internal/tracking/inject.go on bytes: Inject is the injector with its regular
-- expression written out as a matcher, Escape is net/url's QueryEscape and QueryUnescape.
-- Delivery models internal/delivery: Errors what errors are worth a retry, Mime buildRawMessage, Send
-- the calls of SES, over the interface Ses of the SDK, which may try a call several times by itself.
-- Worker models cmd/worker/main.go: process_job is processJob, work is one turn of the loop of run,
-- composed of the parts above, Worker/Run the loop; a panic of the injector is none. Worker/Pool is
-- Start and Wait: the loops of several workers as interleaved steps, one to take a job, one to process
-- it and one to act on the result.
-- Webhook models internal/webhook/handler.go: handle is Handle, process_notification is
-- processNotification. Tracking/Handlers models internal/tracking/handlers.go.
-- Smtp models cmd/smtp/main.go: the commands of a session (auth_plain, mail_from, rcpt_to, receive_data
-- for AuthPlain, Mail, Rcpt, Data), Smtp/Parse parseRawMessage, Smtp/Connections the counter of
-- NewSession and Logout as interleaved steps.
-- Auth models internal/auth: validate_api_key is ValidateAPIKey, validate_smtp_credentials is
-- ValidateSmtpCredentials, with the cache of Redis/Cache before the client repository; Auth/Snapshot is
-- the record that is cached. Middleware models internal/middleware.
-- Api models the handlers of cmd/api/main.go and internal/api/response.go: Api/Mail POST
-- /v1/email/send (post_send is the route with its middleware), Api/Admin the handlers that change
-- clients, Api/Reports those that read, Api/Page the pages, Api/Level newLogger. Webhook/Endpoint is the
-- route POST /webhooks/ses with the check of Webhook/Signature, which models
-- internal/webhook/middleware.go.
-- Config models internal/config/config.go: Env the helpers, Load populate, validate and Load.
-- Database models internal/repository/db.go (Start) and pkg/database/migrate.go (Migrate).
-- Tracking/Tokens models internal/tracking/tracker.go.
-- A DATETIME column holds whole seconds. Rows with equal keys come from the database in any order.
-- Fakes are concrete services in memory, for Examples, which runs the theorems on small inputs.
--
-- Every function terminates by structural recursion; the loop of NewDB counts the attempts that are
-- left, and the loops of the workers take the number of turns or the list of steps as an argument,
-- since they end only when the process is told to. Times are numbers of nanoseconds or milliseconds
-- without bound. The code's int64 would overflow in 2262.
-- Not modelled: the wiring of the three mains and their shutdown, the routing of gin, logging, and the
-- interleaving of workers within processJob. Parameters, since they are not in the
-- repository or only compute: bcrypt, crypto, base64, JSON, net/url, time.Parse, time.ParseDuration,
-- the quotient of floats, the migrate library, and the SDK of SES.
mod Base
pub mod Redis
pub mod RateLimit
pub mod Queue
pub mod Sql
pub mod Repository
pub mod Tracking
pub mod Delivery
pub mod Webhook
pub mod Worker
pub mod Smtp
pub mod Auth
pub mod Middleware
pub mod Api
pub mod Config
pub mod Database
mod Fakes
mod Examples
