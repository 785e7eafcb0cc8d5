-- ===== src/Lib.antt =====
-- Multi Agent Brain: who may ask the system for what, how drafts become canonical notes, and how
-- contexts are put together within a budget.
--
-- The program is a TypeScript monorepo. Three transports (apps/brain-api, apps/brain-cli,
-- apps/brain-mcp) hand requests with an actor context to the orchestrator of packages/orchestration,
-- which asks the authorization policy, looks the command up in the route table and calls the brain
-- or the coding controller; packages/application holds the services behind the controllers and
-- packages/infrastructure the stores, files and providers. Administrators issue, inspect and revoke
-- actor access tokens: the policy holds the revoked ids in memory, a file (or a table) holds them
-- across restarts, and a ledger in SQLite lists the tokens that were issued. A draft is validated and
-- promoted through an outbox, so that a promotion that fails half-way is kept and replayed. What is
-- retrieved is cut to a packet within a token budget, and packets become the context of a coding task.
--
-- Files and the code they model:
--   Contracts/Actor         packages/contracts/src/common/actor-context.ts (ActorContext)
--   Contracts/Commands      the commands of packages/orchestration/src/routing/task-family-router.ts
--                           and root/administrative-action.ts; Contracts/Names has their texts
--   Routing                 TaskFamilyRouter.route, the route table
--   Auth/Token              packages/orchestration/src/root/issued-actor-token.ts
--                           (issueActorAccessToken, verifyActorAccessToken)
--   Auth/Window, Lifecycle, Registry, Roles, Policy, Authorize, Inspect, Summary
--                           packages/orchestration/src/root/actor-authorization-policy.ts: instants
--                           and windows, the normalized registry, the role tables, the constructor
--                           and revokeIssuedTokenId, authorize and authorizeAdministrativeAction,
--                           inspectToken, getRegistrySummary
--   Orchestrator/Types, Memory, Handlers
--                           packages/orchestration/src/root/multi-agent-orchestrator.ts; the brain and
--                           the coding controller are records of operations on an abstract state
--   Revocation/Store        packages/infrastructure/src/auth/file-issued-token-revocation-store.ts
--   Revocation/Table        packages/infrastructure/src/sqlite/sqlite-revocation-store.ts
--   Revocation/Config       the reading of revoked ids in packages/infrastructure/src/config/env.ts
--   Ledger                  packages/infrastructure/src/sqlite/sqlite-issued-token-store.ts;
--                           SQLite may fail the statements of markTokenRevoked
--   Control                 the handler of /v1/system/auth/revoke-token in apps/brain-api/src/server.ts
--                           and resolveIssuedTokenIdForRevocation
--   Notes                   packages/domain/src: notes, frontmatter and chunks; Notes/Slug is slugify
--   Canonical               packages/application/src/services/canonical-note-service.ts
--   Promotion/Plan          what promoteDraft of
--                           packages/application/src/services/promotion-orchestrator-service.ts plans
--   Promotion/Draft         promoteDraft itself
--   Promotion/Outbox        the promotion outbox of
--                           packages/infrastructure/src/sqlite/sqlite-metadata-control-store.ts
--   Promotion/Process       processPromotionOutboxEntry and syncChunkState of the orchestrator service
--   Promotion/Replay        replayPendingPromotions of the same file
--   Validation              packages/application/src/services/note-validation-service.ts: Headings and
--                           Texts are what it reads, Service the rules, Valid says what a valid
--                           note is, Writable relates it to
--                           Canonical and Promotion/Plan
--   AgentContext            packages/application/src/services/agent-context-assembly-service.ts: Block is
--                           the text and its escaping, Budget the plan and the cut
--   Packet                  packages/application/src/services/context-packet-service.ts: Words are its
--                           texts and estimates, Selection its candidates, Budget its loop,
--                           Assembly the packet
--   Common                  shared tests, lists, sets and maps of JavaScript, strings, sorting
-- The modules below these hold their proofs: Authorize/Grant says in its own words when access is
-- granted, Authorize/Soundness relates it to the code; every Examples module runs the definitions on
-- concrete inputs.
--
-- How the code is written down:
--   * A method that changes its object takes the state and returns the new one. A method that throws
--     returns `Result`; the details of errors, which echo their inputs, and message texts are left
--     out.
--   * `Date.parse` and `toISOString`, HMAC, base64url, JSON and the file system are parameters:
--     `Auth.Platform.Platform`, `Revocation.Store.Json` and `Disk`, `Ledger.ArrayJson`. What a
--     theorem needs of them is among its hypotheses.
--   * An instant is a natural number, milliseconds since the earliest date of ECMAScript; the clock
--     is read by the caller and passed on.
--   * A service calls others through a record of ports over a state `W` that stands for all that is
--     behind them. A port that may throw is an `Effect`: what it changed before the throw stays
--     changed. `randomUUID` and the clock are arguments.
--   * A `Map` or `Set` is a list in the order of insertion; a SQL table is a list of rows, and each
--     statement is a function on it.
--   * Loops run along lists, so the definitions recurse on the list. The one that does not, the loop
--     of `enforceContextBudget`, is on fuel: each of its passes lowers one of five limits, so the sum
--     of the limits and one more is enough, which Packet/Budget/Laws proves.
--   * The length of a string counts its code points; JavaScript counts UTF-16 units, which is the
--     same in the basic plane.
--
-- Not modelled: what the controllers do; the application services but for promotion, validation,
-- canonical notes, packets and agent contexts; the vector and full-text indexes; the metadata store
-- but for its outbox; the vaults and providers; the transports but for the revocation; the
-- validation of requests; the Python coding runtime; the opening and closing of SQLite connections.
-- A write to a file either happens whole or leaves the file as it was. The statements of the SQLite
-- stores do not throw in the model, but for those of markTokenRevoked, where `Faults` says which one
-- fails. The chunks around a candidate come from a pure function, so an error of the metadata store
-- there, which the packet service passes on, is left out.
pub mod AgentContext
pub mod Auth
pub mod Canonical
pub mod Common
pub mod Contracts
pub mod Control
pub mod Ledger
pub mod Notes
pub mod Orchestrator
pub mod Packet
pub mod Promotion
pub mod Revocation
pub mod Routing
pub mod Validation
