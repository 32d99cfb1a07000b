-- ===== src/Lib.antt =====
-- A model of the gateway's own logic: approval requests for tool calls, policies, rate limits, the
-- result cache, the mapping of request ids, the whitelist of addresses, the sessions, what they may
-- use, and the token endpoint of OAuth. The definitions follow the TypeScript sources of src/; what
-- the gateway takes from the database, the JavaScript engine and other packages is an argument of
-- the definitions that use it.
--
-- How the parts work together. A tool call is first put to the policies (Policy), which allow it,
-- deny it or ask for an approval. An approval request (Approval) is a row of a table, found again
-- by the hash of the call; it is decided by an administrator, claimed once, executed and closed.
-- Calls are counted for each user (RateLimit), answers may be kept (ResultCache), and the ids of
-- requests are translated between a client, the gateway and a downstream server (RequestIds).
-- Before all of that an HTTP request passes the whitelist of addresses (Whitelist) and is given its
-- session (Sessions); its token may come from the token endpoint (OAuth). A session may use a tool
-- if no layer of settings forbids it (Access), and is told of a server's changes by the router
-- (Router).
--
-- Files, and what they are about:
--   Prelude: Boolean tests, lists, the stable sort, integers, and the JavaScript Map (Prelude/Dict).
--   Text: what the sources use of JavaScript's texts.
--   Enums, Json: src/types/enums.ts, and the values of JSON with texts as UTF-16 code units.
--   Approval/Table, Repository, Statements, Create: src/repositories/ApprovalRepository.ts. A
--     statement is a function of the table; exec and run play the statements of all clients in any
--     order; Create is createOrGetPending, with what other clients do while it waits.
--   Approval/Hasher, Redaction, Service: src/mcp/services/ApprovalRequestHasher.ts (computeHash) and
--     ApprovalService.ts (checkOrCreateApproval, redactArgs, sanitizeExecutionResult, the claims).
--   Approval/Lifecycle, Uniqueness, Once, Audit, Create/Answers, Create/Termination, Create/Atomic,
--     Hasher/Canonical, Redaction/Bounds, Service/Checks, Service/Limits: their laws. Hasher/Order is
--     an order of keys for the runs.
--   Policy/Glob, Evaluator, Engine: src/mcp/services/PolicyDslEvaluator.ts and PolicyEngine.ts.
--     Engine/Waiting has the evaluations that wait for the repository while others run.
--   Policy/Versions: src/repositories/PolicyRepository.ts.
--   RateLimit: src/security/RateLimitService.ts.
--   RequestIds: src/mcp/core/RequestIdMapper.ts. RequestIds/Agreement, Mapped, RoundTrip: its laws.
--   ResultCache/MemoryStore, PolicyResolver: src/mcp/core/cache/stores/MemoryResultCacheStore.ts and
--     src/mcp/core/cache/CachePolicyResolver.ts.
--   Whitelist/Addresses, Service, Middleware, Handler: src/security/IpWhitelistService.ts,
--     src/middleware/IpWhitelistMiddleware.ts and src/controllers/handlers/IpWhitelistHandler.ts.
--   Whitelist/Addresses/Blocks, Service/InForce, Handler/Kept: their laws.
--   Sessions/Client, Store, Calls, Interleaved: src/mcp/core/SessionStore.ts and the activity of
--     src/mcp/core/ClientSession.ts. Store has each stretch of code that runs without waiting, Calls
--     the whole calls, Interleaved the stretches of all calls in any order.
--   Sessions/Calls/Indexed, Calls/Removed, Calls/Updated, Interleaved/Reconnect,
--     Interleaved/Paired: their laws.
--   Access/Permissions, Session, Changes: the tests of src/mcp/core/ClientSession.ts before a server
--     is used, and comparePermissions of src/mcp/services/CapabilitiesService.ts.
--   Access/Session/Layers, Changes/Unseen: their laws.
--   Router, Router/Delivered, Once: src/mcp/core/GlobalRequestRouter.ts and its laws.
--   OAuth/Service, Tables, Authorize, Exchange, Refresh: src/oauth/services/OAuthService.ts and, from
--     src/oauth/controllers/OAuthController.ts, completeAuthorizationGrant, the two grants of the
--     token endpoint and revoke. OAuth/Interleaved has the requests of all clients, each cut where it
--     waits for the database, in any order.
--   OAuth/Flows, Flows/Final: src/oauth/services/DeskAuthorizationFlowService.ts and its law.
--   OAuth/Exchange/Checked, Interleaved/Once, Scopes, Granted, Updated, Within: their laws.
--   Approval/Examples, Policy/Examples, RateLimit/Examples, RequestIds/Examples,
--     ResultCache/Examples, Whitelist/Examples, Sessions/Examples, OAuth/Examples, Access/Examples,
--     Router/Examples: runs at concrete inputs.
--
-- State and operations. Each operation takes the state and returns it with its answer; a clock
-- reading is an argument, in milliseconds, and two readings are two arguments. Names are those of
-- the source in this language's spelling (createOrGetPending is create_or_get_pending). A map is an
-- association list in insertion order. `null` and `undefined` are `none`.
--
-- Bounds and fuel. createOrGetPending has the three retries of the source, and the writing of a
-- version of policies its three attempts; both are counted down, and what follows the last one is
-- the source's error. All other loops are recursions over the list, value or pattern that they
-- visit, so nothing runs out. Numbers are natural where the source has counts, times and sizes; a
-- subtraction of times that would be negative stops at 0, which gives the same tests. The number of
-- requests that remain (RateLimit) is an integer.
--
-- Code that waits. Where a theorem is about overlapping calls, the stretches of code between two
-- waits are steps that may come in any order (Approval/Statements, Policy/Engine/Waiting,
-- Sessions/Interleaved, OAuth/Interleaved); a step takes what the earlier ones of its call have left.
-- Elsewhere calls run one after the other; evaluate_call is an evaluation that nothing comes between.
--
-- Not modelled: timers, logging, HTTP, sockets, the connections to downstream servers, the merging
-- of capabilities, the other cache stores, the registration of OAuth clients and discovery.
pub mod Prelude
pub mod Enums
pub mod Json
pub mod Access
pub mod Approval
pub mod Policy
pub mod RateLimit
pub mod RequestIds
pub mod ResultCache
pub mod OAuth
pub mod Router
pub mod Sessions
pub mod Text
pub mod Whitelist
