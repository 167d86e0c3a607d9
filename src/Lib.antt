-- ===== src/Lib.antt =====
-- Page2WebMCP turns a website, an OpenAPI document or a repository into a reviewed and verified
-- set of tools. Its control plane keeps workflow runs: a run goes through a chain of phases, each
-- a task that workers claim under a lease, and a log records what happened. The website gateway
-- stands between the workers and the target website: it leases browsers to runs, keeps the
-- checkpoints of suspended sessions, issues egress policies and checks each outbound request. A
-- discovered capability goes through a status machine before it is published.
--
-- Parts:
-- - Common: names passed on from the libraries; Tests and Lists (Boolean tests and lists over
--   native numbers), Dict (a JavaScript Map in insertion order), Text (the regular expressions
--   that texts are tested against), Sort (a stable sort), Throwing (a method that may throw, with
--   its state kept after a throw; Keeps and Ensures have the rules for invariants and results).
-- - Capability: packages/capability-ir/src/status.ts.
-- - Workflow.Phases, Workflow.Retry: WORKFLOW_PHASE_REGISTRY and workflowRetryDelayMs of
--   packages/database/src/workflow.ts.
-- - Workflow.Types, Store, Claim, Worker, SideEffects, Owner, Reconcile: the workflow methods of
--   InMemoryControlPlaneRepository (packages/database/src/control-plane.ts). Repository holds its
--   private maps; each method is a function with its name in snake_case (claimWorkflowTask is
--   claim_task, assertWorkflowTaskLease is assert_lease after workflow_task). Workflow.Calls has
--   the calls and their histories.
-- - Workflow.EventLog, TaskShape, Fencing, Replay, Cancelled, Exhausted and the children of
--   Claim, Phases and Store: what is proved of these methods.
-- - Gateway.Leases, Gateway.Checkpoints, Gateway.Egress, Gateway.Policies: the stores leases.ts,
--   checkpoints.ts, enforcement.ts and policies.ts of apps/website-gateway/src/stores.
-- - Gateway.Secrets, Gateway.Evidence: secrets.ts and evidence.ts of the same folder.
-- - Gateway.Ownership: createOwnershipStore and createReplayStore of
--   apps/website-gateway/src/stores/ownership.ts.
-- - Security: packages/security/src/security.ts. Ipv4 and Ipv6 have the address checks, Targets the
--   checks of resolved addresses, targets, redirects and requests, Evidence the sanitizer; Networks,
--   Print, Groups, Mapped, Blocked, Firewall, Safe, Size, Loops and Budget are proofs.
-- - Release: reviewCapability, saveVerification and publishRelease of InMemoryControlPlaneRepository
--   with the checks they call. Release.Types has the tables they use; Checks the pure checks,
--   Observation that of a candidate's observation and its attestation; Tables
--   the private methods; Review, Verify and Publish the methods, each in the steps that its
--   do blocks are made of.
-- - Projects: createProject, enqueueAnalysis, getAnalysisReplay and the reads of projects, sources,
--   snapshots and analyses of InMemoryControlPlaneRepository, and computeSourceIdentityHash of
--   packages/database/src/source-identity.ts. An enqueued analysis creates its workflow run by the
--   method of Workflow.Owner on the tables of Workflow.
-- - Cleanup: claimWebsiteAuthenticationCleanup, completeWebsiteAuthenticationCleanup and
--   retryWebsiteAuthenticationCleanup of InMemoryControlPlaneRepository (Queue), on the checkpoints
--   that the methods of Workflow close, and advanceWebsiteCleanupResources (Resources).
-- - Runs: claimAnalysis and heartbeatAnalysis of InMemoryControlPlaneRepository, on the tables of
--   Projects, Workflow and Cleanup together.
-- - Examples: the definitions at concrete values.
--
-- Conventions: a time is a number of milliseconds and a call reads the clock once, so that ISO
-- texts are compared as their times; ids, keys and hashes are texts. A method's asynchronous call
-- runs to its end before the next, as its body has no await. SHA-256 and the texts of randomUUID
-- are parameters (Env), and so is the result of Date.parse and of URL; random() is given in
-- billionths. #workflowCommands is split by the operation that its keys begin with, so that each
-- part holds results of one type. Records keep the fields that the modelled code reads or
-- writes. No loop of the stores runs on fuel: each is over a list that was read before it starts.
-- The sanitizer recurs on the levels that are left of the depth limit, 13 at the top; a decimal
-- print recurs on its number plus one, which is more than its digits. Host names and evidence are
-- lists of code units. Elsewhere a text is one of Unicode scalar
-- values, and its length is counted in UTF-16 units or UTF-8 bytes as the source counts it. What
-- Release takes of plans and manifests (capabilityPlanDigest, capabilityStateDigest,
-- plansFromManifest, liveCandidateVerifierScopeDigest, the canonical JSON of a verifier's payload) is a
-- record of operations, ReleaseEnv; what Projects takes of a source configuration
-- (parseStoredSourceConfiguration) is one of ProjectEnv. The size of canonical JSON and
-- the reading of ISO texts are ResourceEnv's, the origin of a URL and the digest of a worker's id
-- ClaimEnv's, the cipher, its random bytes and the UTF-8 length of a text those of the stores.
-- Projects, Workflow, Cleanup and Runs share one set of tables; Release has its own, in which a run
-- is the part of an analysis that its methods read.
--
-- Not modelled: startWorkflow and the links of evidence and plans, the wait of an analysis for a
-- user, its completion and its failure, the installations of the repository, the PostgreSQL
-- repository, the workflow controller, the gateway's HTTP routes, the compiler, the analyzers and
-- the providers.
pub mod Common
pub mod Capability
pub mod Workflow
pub mod Gateway
pub mod Security
pub mod Release
pub mod Projects
pub mod Cleanup
pub mod Runs
pub mod Examples
