-- ===== src/Protocol/Failure.antt =====
-- The messages of the errors that the runtime throws, with the texts that they carry.
use atlas_mcp.Prelude.{String}
use atlas_mcp.Protocol.Workflow.{WorkflowStatus, EventType}
use atlas_mcp.Protocol.Operation.{OperationKind}
use atlas_mcp.Protocol.Task.{TaskStatus}

pub data Failure : Type 0 where
  schema_invalid : Failure
  -- workflow-events.ts
  event_sequence_invalid event_identity_invalid event_history_missing_created : Failure
  event_history_empty event_state_mismatch : Failure
  event_data_invalid event_type_unknown : EventType → Failure
  event_node_invalid : String → Failure
  -- workflow-graph.ts
  node_limit_exceeded node_id_duplicate dependency_cycle : Failure
  node_self_dependency approval_target_missing approval_must_precede_target : String → Failure
  compensation_target_missing compensation_target_not_operation : String → Failure
  condition_source_missing condition_source_not_operation : String → Failure
  dependency_missing : String → String → Failure
  -- the model's own: a loop ran out of the rounds that it was given
  out_of_fuel : Failure
  -- storage-sqlite
  workflow_not_found workflow_state_conflict definition_mismatch : Failure
  projection_id_mismatch projection_identity_mismatch constraint_failed : Failure
  task_payload_not_found : Failure
  -- workflow-controller.ts
  projection_event_mismatch workflow_not_paused workflow_not_haltable : Failure
  workflow_lease_held workflow_payload_not_found workflow_event_history_invalid : Failure
  workflow_policy_blocked workflow_condition_source_unavailable : String → Failure
  workflow_input_too_long workflow_input_not_a_choice : String → Failure
  workflow_halted : WorkflowStatus → Failure
  -- task-controller.ts
  task_not_found idempotency_key_invalid idempotency_attempt_invalid : Failure
  operation_capability_unavailable : OperationKind → Failure
  task_not_executable : TaskStatus → Failure
  approval_action_digest_mismatch approval_required approval_id_mismatch : Failure
  approval_phrase_mismatch approval_expired : Failure
  receipt_not_found task_or_receipt_required : Failure
  -- memory
  memory_put_requires_key_and_value memory_scope_mismatch : Failure
  memory_superseded_record_immutable memory_supersedes_target_invalid : Failure
  memory_search_requires_query memory_delete_requires_id : Failure
  -- a text thrown by code outside of the model, such as an adapter
  thrown : String → Failure
