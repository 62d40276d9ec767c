-- ===== src/Policy/Classify.antt =====
-- `classifyOperation` of packages/policy-core/src/index.ts.
use atlas_mcp.Prelude.{String, Bool, true, false, none, some, List, [], ◌∷◌, if◌then◌else◌, or_else}
use atlas_mcp.Protocol.Effect.{Effect, Risk, CapabilityTrait, package_install, network}
use atlas_mcp.Protocol.Operation.{
  FileAction, TerminalAction, BrowserAction, MemoryAction, ComputerAction, MemoryScope,
  FileOperation, TerminalOperation, BrowserOperation, MemoryOperation, ComputerOperation, Operation,
}
use atlas_mcp.Policy.Platform.{Platform, concat}
use atlas_mcp.Policy.Commands.{classify_command, normalize_command, has_trait}

pub record Classified : Type 0 where
  pub effect : Effect
  pub risk : Risk
  pub capability : String
  pub target : String
  pub traits : List CapabilityTrait

unfoldable pub file_action_text : FileAction → String
file_action_text FileAction.list = "list"
file_action_text FileAction.read = "read"
file_action_text FileAction.stat = "stat"
file_action_text FileAction.hash = "hash"
file_action_text FileAction.write = "write"
file_action_text FileAction.move = "move"
file_action_text FileAction.delete = "delete"
file_action_text FileAction.mkdir = "mkdir"

unfoldable pub terminal_action_text : TerminalAction → String
terminal_action_text TerminalAction.run = "run"
terminal_action_text TerminalAction.start = "start"
terminal_action_text TerminalAction.status = "status"
terminal_action_text TerminalAction.output = "output"
terminal_action_text TerminalAction.stop = "stop"
terminal_action_text TerminalAction.send = "send"

unfoldable pub browser_action_text : BrowserAction → String
browser_action_text BrowserAction.navigate = "navigate"
browser_action_text BrowserAction.back = "back"
browser_action_text BrowserAction.forward = "forward"
browser_action_text BrowserAction.reload = "reload"
browser_action_text BrowserAction.inspect = "inspect"
browser_action_text BrowserAction.wait = "wait"
browser_action_text BrowserAction.click = "click"
browser_action_text BrowserAction.type = "type"
browser_action_text BrowserAction.fill_form = "fill_form"
browser_action_text BrowserAction.select = "select"
browser_action_text BrowserAction.press = "press"
browser_action_text BrowserAction.scroll = "scroll"
browser_action_text BrowserAction.screenshot = "screenshot"
browser_action_text BrowserAction.upload = "upload"
browser_action_text BrowserAction.download = "download"
browser_action_text BrowserAction.tabs = "tabs"
browser_action_text BrowserAction.tab_new = "tab_new"
browser_action_text BrowserAction.tab_switch = "tab_switch"
browser_action_text BrowserAction.close = "close"

unfoldable pub memory_action_text : MemoryAction → String
memory_action_text MemoryAction.put = "put"
memory_action_text MemoryAction.search = "search"
memory_action_text MemoryAction.list = "list"
memory_action_text MemoryAction.delete = "delete"
memory_action_text MemoryAction.clear = "clear"

unfoldable pub computer_action_text : ComputerAction → String
computer_action_text ComputerAction.capabilities = "capabilities"
computer_action_text ComputerAction.inspect = "inspect"
computer_action_text ComputerAction.screenshot = "screenshot"
computer_action_text ComputerAction.click = "click"
computer_action_text ComputerAction.move = "move"
computer_action_text ComputerAction.drag = "drag"
computer_action_text ComputerAction.type = "type"
computer_action_text ComputerAction.key = "key"
computer_action_text ComputerAction.scroll = "scroll"

unfoldable pub scope_text : MemoryScope → String
scope_text MemoryScope.session = "session"
scope_text MemoryScope.task = "task"
scope_text MemoryScope.project = "project"
scope_text MemoryScope.workspace = "workspace"
scope_text MemoryScope.user = "user"
scope_text MemoryScope.procedural = "procedural"

-- The tests of an action against the sets of the code.
abbrev pub file_reads : FileAction → Bool
file_reads FileAction.list = true
file_reads FileAction.read = true
file_reads FileAction.stat = true
file_reads FileAction.hash = true
file_reads _ = false

abbrev pub file_destroys : FileAction → Bool
file_destroys FileAction.delete = true
file_destroys _ = false

abbrev pub browser_reads : BrowserAction → Bool
browser_reads BrowserAction.navigate = true
browser_reads BrowserAction.back = true
browser_reads BrowserAction.forward = true
browser_reads BrowserAction.reload = true
browser_reads BrowserAction.inspect = true
browser_reads BrowserAction.wait = true
browser_reads BrowserAction.screenshot = true
browser_reads BrowserAction.tabs = true
browser_reads BrowserAction.tab_new = true
browser_reads BrowserAction.tab_switch = true
browser_reads BrowserAction.scroll = true
browser_reads _ = false

abbrev pub memory_reads : MemoryAction → Bool
memory_reads MemoryAction.search = true
memory_reads MemoryAction.list = true
memory_reads _ = false

abbrev pub memory_destroys : MemoryAction → Bool
memory_destroys MemoryAction.delete = true
memory_destroys MemoryAction.clear = true
memory_destroys _ = false

abbrev pub computer_reads : ComputerAction → Bool
computer_reads ComputerAction.capabilities = true
computer_reads ComputerAction.inspect = true
computer_reads ComputerAction.screenshot = true
computer_reads _ = false

abbrev pub positional : ComputerAction → Bool
positional ComputerAction.click = true
positional ComputerAction.move = true
positional ComputerAction.drag = true
positional _ = false

-- The effect and the risk of an action that destroys, reads or neither.
abbrev pub effect_of : (destroys reads : Bool) → Effect
effect_of destroys reads =
    if destroys then Effect.destructive else if reads then Effect.read else Effect.mutate

abbrev pub risk_of : (destroys reads : Bool) → Risk
risk_of destroys reads = if destroys then Risk.high else if reads then Risk.low else Risk.medium

unfoldable pub job_target : TerminalOperation → String
job_target o = concat ("job:" ∷ or_else o.job_id "unknown" ∷ [])

unfoldable pub classify_file : FileOperation → Classified
classify_file o = record {
  effect = effect_of (file_destroys o.action) (file_reads o.action);
  risk = risk_of (file_destroys o.action) (file_reads o.action);
  capability = concat ("file." ∷ file_action_text o.action ∷ []);
  target = o.path;
  traits = [];
}

-- The terminal actions that carry no command.
unfoldable pub classify_job : Effect → Risk → TerminalOperation → Classified
classify_job effect risk o = record {
  effect = effect;
  risk = risk;
  capability = concat ("terminal." ∷ terminal_action_text o.action ∷ []);
  target = job_target o;
  traits = [];
}

abbrev pub stops : TerminalAction → Bool
stops TerminalAction.stop = true
stops _ = false

-- The terminal actions that are classified by their command.
unfoldable pub classify_terminal : Platform → TerminalOperation → Classified
classify_terminal p o =
    let c = classify_command p (or_else o.command "") o.args in
    record {
      effect = effect_of false c.read;
      risk = if has_trait package_install c.traits then Risk.high else risk_of false c.read;
      capability = concat ("terminal." ∷ terminal_action_text o.action ∷ []);
      target =
          if stops o.action
          then job_target o
          else concat ("command:" ∷ normalize_command p (or_else o.command "") ∷ []);
      traits = c.traits;
    }

unfoldable pub terminal_by_action : TerminalAction → Platform → TerminalOperation → Classified
terminal_by_action TerminalAction.status p o = classify_job Effect.read Risk.low o
terminal_by_action TerminalAction.output p o = classify_job Effect.read Risk.low o
terminal_by_action TerminalAction.send p o = classify_job Effect.mutate Risk.medium o
terminal_by_action _ p o = classify_terminal p o

unfoldable pub browser_target : Platform → BrowserOperation → String
browser_target p o = elim o.url [
  | none ↦ or_else o.selector (or_else o.target_name "active-page")
  | some u ↦ p.without_query u
]

unfoldable pub classify_browser : Platform → BrowserOperation → Classified
classify_browser p o = record {
  effect = effect_of false (browser_reads o.action);
  risk = risk_of false (browser_reads o.action);
  capability = concat ("browser." ∷ browser_action_text o.action ∷ []);
  target = browser_target p o;
  traits = network ∷ [];
}

unfoldable pub classify_memory : MemoryOperation → Classified
classify_memory o = record {
  effect = effect_of (memory_destroys o.action) (memory_reads o.action);
  risk = risk_of (memory_destroys o.action) (memory_reads o.action);
  capability = concat ("memory." ∷ memory_action_text o.action ∷ []);
  target = concat (
      scope_text o.scope
      ∷ ":"
      ∷ memory_action_text o.action
      ∷ ":"
      ∷ or_else o.id (or_else o.key "*")
      ∷ []);
  traits = [];
}

unfoldable pub classify_computer : ComputerOperation → Classified
classify_computer o = record {
  effect = effect_of false (computer_reads o.action);
  risk = if computer_reads o.action then Risk.low else Risk.high;
  capability = concat ("computer." ∷ computer_action_text o.action ∷ []);
  target =
      if positional o.action
      then concat (o.coordinate_space ∷ ":" ∷ or_else o.x "?" ∷ "," ∷ or_else o.y "?" ∷ [])
      else "active-desktop";
  traits = [];
}

-- `classifyOperation`
unfoldable pub classify : Platform → Operation → Classified
classify p (Operation.file o) = classify_file o
classify p (Operation.terminal o) = terminal_by_action o.action p o
classify p (Operation.browser o) = classify_browser p o
classify p (Operation.memory o) = classify_memory o
classify p (Operation.computer o) = classify_computer o
classify p Operation.system = record {
  effect = Effect.read;
  risk = Risk.low;
  capability = "system.info";
  target = "local-system";
  traits = [];
}
