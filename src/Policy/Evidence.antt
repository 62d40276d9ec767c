-- ===== src/Policy/Evidence.antt =====
-- `defaultEvidenceFor` of packages/policy-core/src/index.ts.
use atlas_mcp.Prelude.{true, none, some, List, [], ◌∷◌}
use atlas_mcp.Protocol.Effect.{Effect}
use atlas_mcp.Protocol.Operation.{
  FileAction, TerminalAction, MemoryAction, FileOperation, Operation,
}
use atlas_mcp.Protocol.Task.{EvidencePredicate, file_exists, file_absent, result_equals, boolean}
use atlas_mcp.Policy.Platform.{Platform}
use atlas_mcp.Policy.Classify.{classify}

unfoldable pub file_evidence : FileAction → FileOperation → List EvidencePredicate
file_evidence FileAction.write o = file_exists o.path ∷ []
file_evidence FileAction.mkdir o = file_exists o.path ∷ []
file_evidence FileAction.delete o = file_absent o.path ∷ []
file_evidence FileAction.move o = elim o.destination [
  | none ↦ []
  | some d ↦ file_absent o.path ∷ file_exists d ∷ []
]
file_evidence _ o = []

unfoldable pub memory_evidence : MemoryAction → List EvidencePredicate
memory_evidence MemoryAction.put = result_equals "stored" (boolean true) ∷ []
memory_evidence MemoryAction.delete = result_equals "deleted" (boolean true) ∷ []
memory_evidence _ = []

unfoldable pub terminal_evidence : TerminalAction → List EvidencePredicate
terminal_evidence TerminalAction.send = result_equals "sent" (boolean true) ∷ []
terminal_evidence _ = []

-- The `switch` over the kind, for an operation that is no read.
unfoldable pub evidence_of : Operation → List EvidencePredicate
evidence_of (Operation.file o) = file_evidence o.action o
evidence_of (Operation.terminal o) = terminal_evidence o.action
evidence_of (Operation.browser o) = result_equals "success" (boolean true) ∷ []
evidence_of (Operation.memory o) = memory_evidence o.action
evidence_of (Operation.computer o) = result_equals "success" (boolean true) ∷ []
evidence_of Operation.system = []

-- `defaultEvidenceFor`
unfoldable pub default_evidence : Platform → Operation → List EvidencePredicate
default_evidence p o = elim (classify p o).effect [ Effect.read ↦ [] | _ ↦ evidence_of o ]
