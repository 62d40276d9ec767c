-- ===== src/Lib.antt =====
-- A model of the runtime of atlas-mcp, which plans, authorises, runs and records the operations that
-- an agent asks for, and of the workflows made of them.
--
-- The program's parts. A request names an operation and the evidence that will prove it. The policy
-- (packages/policy-core) classifies the operation and allows it, denies it, or asks for an approval of
-- its digest. The task controller (packages/runtime-core/src/task-controller.ts) plans a task, asks the
-- policy again when it is executed, calls an adapter, verifies the evidence, commits the idempotency
-- key and writes a receipt and a certificate. The workflow controller
-- (packages/runtime-core/src/workflow-controller.ts) changes a run only by events: it makes the events
-- of a change, replays them with the reducer (packages/runtime-core/src/workflow-events.ts), and stores
-- them with the run by a compare-and-swap on the run's version. All tables are in
-- packages/storage-sqlite.
--
-- The files.
-- - Prelude: tests, results that may be errors, lists, maps and sorting.
-- - Protocol: the types of packages/protocol/src/index.ts. Failure has a constructor for each message
--   that is thrown. A value of a type is one that its schema returned; times are numbers, and a number
--   that is only printed is its text.
-- - Policy: packages/policy-core/src/index.ts. Platform holds what comes from JavaScript and Node (the
--   case of letters, base names, the parts of a URL, SHA-256). Commands is classifyCommand, Classify is
--   classifyOperation, Evidence is defaultEvidenceFor, Grants is capabilityRefusal, Evaluate is
--   evaluatePolicy, Approval is validateApproval.
-- - Events: applyWorkflowEvent and rebuildWorkflow.
-- - Store: the workflow tables and the lease table. A transaction that throws has no result, so it
--   changes nothing.
-- - Workflow: the workflow controller. Transition is transition, whose mutation callback is the draft that
--   it leaves and the list that it emits; Control is pause, suspend, resume and cancel; Planning is plan;
--   Recovery is replay and the recovery of one run. Nodes, Keys and Statuses are the functions on node
--   states, idempotency keys and the status of a run. Advance runs the tasks of a node, with the task
--   controller as the interface TaskPort; Advance/Node is advanceNode, Advance/Once the choice of the
--   nodes and the transition of their results, Advance/Leased is advanceOnce and leasedAdvance. Graph is
--   validateWorkflow and Ready is readyNodeIds of packages/runtime-core/src/workflow-graph.ts.
-- - Guards: packages/runtime-core/src/circuit-breaker.ts, retry-guard.ts and verification-gate.ts of the
--   same folder.
-- - Tasks: the task controller and its tables. Begin is execute up to its first await, Execute the
--   attempts and the catch block, Finish the rest and execute as a whole. World holds what one run of
--   execute meets: the ids that it draws, the clock, the abort signal, the answers of the adapter and of
--   the verifier, and what other calls do to the store and to the breaker while it waits.
-- - Memory: LocalMemory.execute of packages/memory/src/index.ts (Execute) on the table memories of
--   packages/storage-sqlite (Table, Compact).
-- - Tests: concrete runs.
--
-- Loops are structural recursion on lists, on the attempts that are left for executeWithRetries, which
-- starts with all that the budget and the effect allow, and on the rounds that a bounded loop has left.
-- Two loops have fuel: the layers of a graph get a round for each node and one more, and the search of
-- hasDependency a step for each dependency of its start and of all nodes. Calls that the source starts
-- together (the nodes of an advance, the branches of a parallel node) are made one after the other.
--
-- Not modelled: the adapters of the browser, the desktop, terminals and files, the server, the SDK, the
-- command line and the evaluations, which are input and output around this core; encryption, redaction
-- and hashing, which are parameters; schema version fields, digests and redaction marks of receipts and
-- certificates; the queue of advances within one process; the listings that recovery starts from, and
-- the recovery of interrupted tasks; the verifier's predicates; the ranking of memories, which is
-- arithmetic on floating-point numbers.
pub mod Prelude
pub mod Protocol
pub mod Policy
pub mod Events
pub mod Store
pub mod Workflow
pub mod Guards
pub mod Memory
pub mod Tasks
pub mod Tests
