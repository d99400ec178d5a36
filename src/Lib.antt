-- ===== src/Lib.antt =====
-- A verification library for flagraft, a feature flag server with SDKs.
--
-- The parts, and how they work together. Administrators write flags, environments, context fields
-- and targeting strategies into a PostgreSQL database; every write passes the guards of the
-- authentication plugin. Applications ask with a client key: the server loads the state of the
-- key's environment, evaluates flags against the caller's context, and the SDK caches the answers.
--
-- * Db (src/db/schema.ts): a table is a list of rows; Db.Find has the lookups that services share.
--   A service call is a function of the database and the time; ids of new rows, random tokens and
--   the clock are arguments. A call is one step: two that run at one time are not modelled. The
--   source locks rows for toggles and for the last owner; the limits of environments and of context
--   fields are counted without a lock.
-- * Outcome (src/plugins/errorHandler.ts): how a call ends, with what was written before a throw,
--   or nothing of it where the statements stand in a transaction. Response has toResponse.
-- * Evaluate (src/modules/client/evaluate.ts): Version has parseVersion, compareTuple,
--   compareVersions and versionSatisfies; Constraint has matchConstraint on texts; Flag has
--   strategyMatches and evaluateFlag, with what an object literal reads for a name that it inherits
--   from Object.prototype, and the TypeErrors that come of it; Plain and Decision prove.
--   JavaScript's numbers, dates and regular expressions are the record Runtime,
--   and IsOrdered says what IEEE 754 promises of comparisons between numbers that are no NaN.
-- * Client (src/modules/client/client.service.ts): State has loadEnvState, Answers has evaluateAll
--   and evaluateOne. An object literal is an association list.
-- * Strategies (src/modules/strategies): Rules has constraintError, Service has listStrategies and
--   replaceStrategies; Legal and Replacement prove. The package safe-regex is a parameter.
-- * Auth (src/plugins/auth.ts, src/auth/constants.ts): Guards has the decorators, Session the
--   preHandler hook. Token verification and SHA-256 are parameters, and so is what the key cache
--   holds; the update of a key's last use, which the source does not wait for, is left out.
-- * Cache (src/cache): createCache over the package bentocache, which is a parameter with the laws
--   that the code relies on; Fresh proves.
-- * Workspace has Projects (src/modules/projects/project.service.ts), Fields
--   (src/modules/context-fields/context-field.service.ts), Environments
--   (src/modules/environments/environment.service.ts) and Keys (src/modules/keys/key.service.ts);
--   Gone, Limits, Ceiling and Scopes prove. A deleted row takes along the rows that the foreign
--   keys of the schema cascade to.
-- * Flags (src/modules/flags/flag.service.ts): Create has initialEnabled, createFlag, patchFlag and
--   deleteFlag, Toggle has applyToggle, requestOrConfirmToggle and setFlagEnabled; Protected,
--   Approval, Machine and Sequences prove; Machine has the abstract machine of the approval flow.
-- * Transfer (src/modules/transfer): Document has the shapes of transfer.schema.ts, and of
--   transfer.service.ts Import has resolveEnvironment and filterStrategies, Apply the statements of
--   applyImport, Project its loop and importProject, and Export exportProject; the modules below
--   these prove. The texts of two errors, which list what zod reports, are a parameter. Unleash
--   (external/unleash.adapter.ts) has the operator tables and toUnleashConstraint, Types
--   inferFieldTypes, Convert convertStrategy, Native and Whole toNative, and Export fromNative; the
--   input is what zod has parsed.
-- * Users (src/modules/users/user.service.ts, src/modules/auth/auth.service.ts): Accounts, Invites,
--   Owners and Passwords, and Ownership with every operation as a step. argon2 is a parameter.
-- * Sdk (packages/sdk-js/src): Cache is TtlCache; Transport has the state and the requests of
--   FlagraftClient, and Client its calls. The network and what JavaScript reads of a header are the
--   record Platform.
-- * Tests has sample data, and each theorem at a concrete input.
--
-- Every function is structural recursion over its input, so that no fuel is needed. Numbers are
-- natural numbers; a difference of times that would be negative is 0, and the comparisons in which
-- such a difference stands answer for 0 as the source's do for the negative number.
--
-- Not modelled: routes and their schemas, mail, configuration, the command line and the admin UI,
-- which are input and output around the services; the Python SDK; most lists that only read; calls
-- of the SDK that wait for the network at the same time.
pub mod Prelude
pub mod Evaluate
pub mod Outcome
pub mod Db
pub mod Client
pub mod Strategies
pub mod Auth
pub mod Flags
pub mod Users
pub mod Sdk
pub mod Tests
pub mod Cache
pub mod Transfer
pub mod Workspace
