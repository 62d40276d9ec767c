-- ===== src/Tasks/World.antt =====
-- What a task controller is built with, and what it meets while a task runs: the cipher of
-- packages/runtime-core/src/payload-cipher.ts, the redaction of
-- packages/receipt-schema/src/index.ts, the verifier of packages/verifier-core/src/index.ts, the
-- adapter, the abort signal and the clock.
use atlas_mcp.Prelude.{ℕ, String, Bool, Option, List, Result}
use atlas_mcp.Protocol.Failure.{Failure}
use atlas_mcp.Protocol.Json.{Json, Fields}
use atlas_mcp.Protocol.Operation.{OperationKind, Operation}
use atlas_mcp.Protocol.Task.{EvidencePredicate, TaskRequest}
use atlas_mcp.Policy.Platform.{Platform}
use atlas_mcp.Policy.Evaluate.{LocalPolicy}
use atlas_mcp.Guards.Breaker.{BreakerOptions, Breaker}
use atlas_mcp.Tasks.Receipts.{EvidenceItem}
use atlas_mcp.Tasks.Store.{TaskStore}

-- `seal` and `open`, with the parse of what is opened; the context is the id of the task.
pub record Cipher : Type 0 where
  pub seal_request : TaskRequest → String → String
  pub open_request : String → String → Result Failure TaskRequest
  pub seal_result : Fields → String → String

-- `redactStructuredValue` on requests, results and messages
pub record Redaction : Type 0 where
  pub redact_request : TaskRequest → TaskRequest
  pub redact_result : Fields → Json
  pub redact_message : String → String

-- What a controller is constructed with.
pub record Setup : Type 0 where
  pub platform : Platform
  pub policy : LocalPolicy
  pub breaker_options : BreakerOptions
  pub capabilities : Option (List OperationKind)
  pub cipher : Cipher
  pub redaction : Redaction

-- The places at which `execute` reads the clock or looks at the signal.
pub data Moment : Type 0 where
  entered checked verifying ended certified : Moment
  attempt : ℕ → Moment
  answered : ℕ → Moment

-- One run of `execute`: the ids that it draws, the clock, the abort signal, what the adapter answers
-- to each attempt at an operation, what the verifier finds, and what other calls do to the store while it waits.
pub record World : Type 0 where
  pub receipt_id : String
  pub error_receipt_id : String
  pub certificate_id : String
  pub approval_id : String
  pub clock : Moment → ℕ
  pub aborted : Moment → Bool
  pub exhausted : Bool  -- `budgetExhausted`, when the error is handled
  pub reason : String  -- the message of `signal.reason`
  pub constraint_message : String  -- what SQLite reports for a primary key that is there
  pub number_text : ℕ → String  -- how JSON prints a number
  pub adapter : Operation → ℕ → Result String Fields
  pub verify : List EvidencePredicate → Fields → List EvidenceItem
  pub others : Moment → TaskStore → TaskStore
  pub others_breaker : Breaker → Breaker
