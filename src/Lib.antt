-- ===== src/Lib.antt =====
-- A model of Upstat's ingest gateway (api/observability, TypeScript) and of the logic of its web
-- application (web/src), and their correctness.
--
-- The gateway takes telemetry from customers' services (OTLP) and browsers (events), checks who
-- sends, forwards the bytes to a private collector, and meters them. One request runs through:
-- the client's address (Net/ClientIp), the body's admission and reading (Net/Ingress), the source
-- limit and the key (Quota, ConfigCache), the key's own quota (Quota), the collector (Collector),
-- and metering (Usage), which writes its rows through the collector too. Gateway holds the whole
-- state and lifts each part's operations to it; Otlp and Events compose them, and their Http and
-- Grpc modules add the headers, the stream and the response of one request. Config is what the
-- process reads at startup.
--
-- Files and the code that they model, from the repository's root:
--   Errors        api/observability/src/errors: ApiError, unavailable, ErrorFilter.catch
--   Valkey        api/observability/src/valkey/valkey.service.ts: key, eval; the server is a
--                 parameter, Valkey/Memory an instance of it
--   Quota         api/observability/src/quota/quota.service.ts: take, TAKE_SCRIPT, salt, SALT_SCRIPT
--   Net           api/observability/src/net: setTrustProxy, peerAddress, resolveClientIp;
--                 declaredLength, readBody, receive
--   ConfigCache   api/observability/src/config-cache/config-cache.service.ts: reload, refresh,
--                 ensureFresh, load; ConfigCache/Lookup: lookup, lookupFresh, event, set
--   Consumer      api/observability/src/config-cache/config-consumer.service.ts: handle, start
--   Collector     api/observability/src/collector: IdTokenSigner, forward, logs
--   Usage         api/observability/src/usage/usage.service.ts: add, flushLocal, send; Usage/Flush:
--                 the scripts, flushValkey, flushDue
--   Gateway       the services' states together, and the calls that cross them
--   Otlp          api/observability/src/otlp/otlp.service.ts: authenticate, ingest; Otlp/Http:
--                 otlp.controller.ts; Otlp/Grpc: grpc.server.ts
--   Events        api/observability/src/events/events.service.ts: validate; Events/Batch:
--                 authenticate, authorize, accept; Events/Http: events.controller.ts
--   Config        api/observability/src/config/config.ts: the checks; Config/Load: loadConfig
--   Web           the web application's controllers and sign-in (web/src), each part by itself:
--   Web/Latest    the guard against late answers; Web/Requests: controllers/use-request.ts and
--                 runQuery of controllers/explorer.ts
--   Web/Tail      controllers/logs.ts: the live tail
--   Web/Sso       auth/sso-client.ts, auth/oauth-errors.ts; Web/Sso/Sessions:
--                 auth/sso-provider.ts and the guards of controllers/auth.ts
--   Web/Time      controllers/time-range.tsx: parseUrl, writeUrl; Web/Time/Provider: the provider's
--                 state, the address and the history of the tab; Web/Url: query strings
--   Web/Dashboards  controllers/dashboards.ts: dashboardToPortableJson; Web/Dashboards/Parse:
--                 parsePortableDashboard; Web/Dashboards/Import: importJson and the calls of
--                 models/repositories that it makes; Web/Json: JSON values
--   Web/Query     controllers/explorer.ts: splitQuery, joinQuery; Web/Query/Explorer: the pills of
--                 the bar and the metrics explorer with its address, without the server's answers
--   Web/Proxy     app/api/v1/[...path]/route.ts
--   Web/Keyboard  controllers/keyboard.ts; Web/Rows: controllers/virtual-window.ts
--   Common        what they share: results and exceptions as an action on a state, maps as
--                 association lists in insertion order, text and integers
--
-- The web application is event-driven: a hook's state is a record, what happens to it (a call, the
-- answer of an earlier call, a key, a timer, the browser's back button) is a value, and a run is a
-- list of these, in any order. React renders between two of them, so that refs which mirror a state
-- hold it. Each part is a state of its own.
--
-- How the code is read. A method that changes its object is a function from the state to a result
-- and the state, a thrown error is a result, and a promise that waits is split at its await where
-- another call can run in between (lookupFresh, refresh, readBody, receive). `Date.now()` is an
-- argument, in milliseconds; the gateway's clock is after 1970, so it is a natural number, and the
-- divisions that the code does in floating point are exact ones, rounded where the code rounds.
-- A Buffer is a list of bytes or, for salts, a text. A value of JSON.parse is a tree (Events) whose
-- objects have their fields in the order of Object.entries. Names are in this language's spelling.
--
-- What is not under the repository is a parameter: the store's commands (with the laws of the
-- documentation as records, which Valkey/Memory fills), sha256, Date.parse, JSON.parse,
-- toISOString, zlib, base64, isIP, Number of a text, random bytes, the contract's schemas, the
-- network's and the metadata server's answers (queues that a run consumes), and whether the store
-- answers (a Link of each call). A request's Instants are the readings of the clock at its steps.
-- The store in memory ignores expiry; no law speaks of it.
--
-- All functions are total and none takes fuel: they recurse on their arguments, and the digits of a
-- number (Common/Text) on the order of the numbers.
--
-- Not modelled: snapshots whose items are not of the contract's types, the framework's wiring, log
-- output, the Kafka client, the object store's clients and the schema contract; of the web
-- application, the rendering, the repositories that only call the API, and the mocks. What the API
-- replies to the calls of an import is a queue, in which a call that throws may have been served.
pub mod Common
pub mod Errors
pub mod Valkey
pub mod Quota
pub mod Net
pub mod ConfigCache
pub mod Collector
pub mod Usage
pub mod Gateway
pub mod Otlp
pub mod Events
pub mod Config
pub mod Consumer
pub mod Web
