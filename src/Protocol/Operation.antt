-- ===== src/Protocol/Operation.antt =====
-- The operations of packages/protocol/src/index.ts: the kinds, their actions, and the fields that
-- policy, evidence and memory read. A number that only ever is printed is its printed text.
use atlas_mcp.Prelude.{ℕ, String, List, Option, Bool}

pub data FileAction : Type 0 where
  list read stat hash write move delete mkdir : FileAction

pub data TerminalAction : Type 0 where
  run start status output stop send : TerminalAction

pub data BrowserAction : Type 0 where
  navigate back forward reload inspect wait click type fill_form select : BrowserAction
  press scroll screenshot upload download tabs tab_new tab_switch close : BrowserAction

pub data MemoryAction : Type 0 where
  put search list delete clear : MemoryAction

pub data ComputerAction : Type 0 where
  capabilities inspect screenshot click move drag type key scroll : ComputerAction

pub data MemoryScope : Type 0 where
  session task project workspace user procedural : MemoryScope

unfoldable pub MemoryScope-discrete : Discrete MemoryScope
MemoryScope-discrete = hlevel

pub record FileOperation : Type 0 where
  pub action : FileAction
  pub path : String
  pub destination : Option String

pub record TerminalOperation : Type 0 where
  pub action : TerminalAction
  pub command : Option String
  pub args : List String
  pub job_id : Option String

pub record BrowserOperation : Type 0 where
  pub action : BrowserAction
  pub url : Option String
  pub selector : Option String
  pub target_name : Option String

pub record MemoryOperation : Type 0 where
  pub action : MemoryAction
  pub id : Option String
  pub scope : MemoryScope
  pub key : Option String
  pub value : Option String
  pub query : Option String
  pub source : Option String
  pub confidence : String
  pub tags : List String
  pub speaker : Option String
  pub episode_id : Option String
  pub sequence : Option ℕ
  pub expires_at : Option ℕ
  pub supersedes_id : Option String
  pub include_superseded : Bool
  pub limit : ℕ

pub record ComputerOperation : Type 0 where
  pub action : ComputerAction
  pub coordinate_space : String
  pub x : Option String
  pub y : Option String

pub data Operation : Type 0 where
  file : FileOperation → Operation
  terminal : TerminalOperation → Operation
  browser : BrowserOperation → Operation
  memory : MemoryOperation → Operation
  computer : ComputerOperation → Operation
  system : Operation

pub data OperationKind : Type 0 where
  file terminal browser memory computer system : OperationKind

unfoldable pub OperationKind-discrete : Discrete OperationKind
OperationKind-discrete = hlevel

-- `operation.kind`
unfoldable pub kind_of : Operation → OperationKind
kind_of (Operation.file o) = OperationKind.file
kind_of (Operation.terminal o) = OperationKind.terminal
kind_of (Operation.browser o) = OperationKind.browser
kind_of (Operation.memory o) = OperationKind.memory
kind_of (Operation.computer o) = OperationKind.computer
kind_of Operation.system = OperationKind.system
