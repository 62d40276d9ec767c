-- ===== src/Policy/Commands.antt =====
-- The classification of terminal commands in packages/policy-core/src/index.ts.
use Prim.Native.Char.{Char, code}
use Prim.Native.String as Text
use atlas_mcp.Prelude.{
  String, Bool, true, false, ◌&&◌, ◌||◌, Option, none, some, List, [], ◌∷◌, ◌++◌, nat_eq, includes,
  ◌==◌, if◌then◌else◌, some_of, or_else,
}
use atlas_mcp.Protocol.Effect.{CapabilityTrait, package_install, network}
use atlas_mcp.Policy.Platform.{Platform}

abbrev slash : Char → Char
slash c = if nat_eq (code c) 92 then "/" else c

-- `command.replaceAll("\\", "/")`
unfoldable pub with_slashes : String → String
with_slashes Text.[] = ""
with_slashes (Text.◌∷◌ c s) = Text.◌∷◌ (slash c) (with_slashes s)

abbrev prefix_with : Char → Option String → Option String
prefix_with c none = none
prefix_with c (some s) = some (Text.◌∷◌ c s)

-- The text less a suffix that it ends with.
unfoldable pub strip_suffix : String → String → Option String
strip_suffix suffix Text.[] = if suffix == "" then some "" else none
strip_suffix suffix (Text.◌∷◌ c s) =
    let rest = strip_suffix suffix s in
    if suffix == Text.◌∷◌ c s then some "" else prefix_with c rest

abbrev pub executable_suffixes : List String
executable_suffixes = ".exe" ∷ ".cmd" ∷ ".bat" ∷ ".com" ∷ ".ps1" ∷ []

-- The name less the first of the suffixes that it ends with.
unfoldable pub strip_first : List String → String → String
strip_first [] name = name
strip_first (x ∷ xs) name = let rest = strip_first xs name in or_else (strip_suffix x name) rest

-- `normalizeCommandName`
unfoldable pub normalize_command : Platform → String → String
normalize_command p command =
    strip_first executable_suffixes (p.to_lower (p.basename (with_slashes command)))

abbrev pub value_taking_flags : List String
value_taking_flags =
    "-c" ∷ "-C" ∷ "--config" ∷ "--cwd" ∷ "--dir" ∷ "--prefix" ∷ "--workspace" ∷ "-w" ∷ "--filter"
    ∷ "--registry" ∷ []

-- `arg.startsWith("-")`
abbrev pub is_flag : String → Bool
is_flag Text.[] = false
is_flag (Text.◌∷◌ c s) = nat_eq (code c) 45

-- `subcommandOf`; `skip` says that the flag before takes this argument.
unfoldable pub subcommand_from : Platform → Bool → List String → Option String
subcommand_from p skip [] = none
subcommand_from p true (a ∷ as') = subcommand_from p false as'
subcommand_from p false (a ∷ as') =
    let rest = subcommand_from p (includes a value_taking_flags) as' in
    if includes a value_taking_flags || is_flag a then rest else some (p.to_lower a)

unfoldable pub subcommand_of : Platform → List String → Option String
subcommand_of p args = subcommand_from p false args

-- An entry of `PACKAGE_MANAGERS`.
pub record Manager : Type 0 where
  pub install : List String
  pub read : List String

abbrev pip_manager : Manager
pip_manager = record {
  install = "install" ∷ "download" ∷ "wheel" ∷ [];
  read = "list" ∷ "show" ∷ "freeze" ∷ "check" ∷ [];
}

-- `PACKAGE_MANAGERS[name]`. The names that `Object.prototype` has, `constructor` and `__proto__`, are
-- outside of the model: there the code reads a property of the prototype and throws.
unfoldable pub manager_of : String → Option Manager
manager_of name =
    if name == "npm"
    then some (record {
      install = "install" ∷ "i" ∷ "add" ∷ "ci" ∷ "update" ∷ "up" ∷ "publish" ∷ [];
      read = "ls" ∷ "list" ∷ "view" ∷ "info" ∷ "outdated" ∷ "why" ∷ "config" ∷ [];
    })
    else if name == "pnpm"
    then some (record {
      install = "install" ∷ "i" ∷ "add" ∷ "update" ∷ "up" ∷ "publish" ∷ "dlx" ∷ [];
      read = "ls" ∷ "list" ∷ "view" ∷ "info" ∷ "outdated" ∷ "why" ∷ "licenses" ∷ [];
    })
    else if name == "yarn"
    then some (record {
      install = "install" ∷ "add" ∷ "up" ∷ "upgrade" ∷ "publish" ∷ "dlx" ∷ [];
      read = "info" ∷ "why" ∷ "list" ∷ "outdated" ∷ [];
    })
    else if name == "pip"
    then some pip_manager
    else if name == "pip3"
    then some pip_manager
    else if name == "uv"
    then some (record {
      install = "add" ∷ "sync" ∷ "install" ∷ "pip" ∷ "tool" ∷ "publish" ∷ [];
      read = "tree" ∷ "lock" ∷ "version" ∷ [];
    })
    else if name == "cargo"
    then some (record {
      install = "install" ∷ "add" ∷ "update" ∷ "publish" ∷ "fetch" ∷ [];
      read = "tree" ∷ "metadata" ∷ "search" ∷ [];
    })
    else if name == "gem"
    then some (record {
      install = "install" ∷ "update" ∷ "push" ∷ [];
      read = "list" ∷ "info" ∷ "which" ∷ [];
    })
    else if name == "brew"
    then some (record {
      install = "install" ∷ "upgrade" ∷ "reinstall" ∷ "tap" ∷ [];
      read = "list" ∷ "info" ∷ "search" ∷ "outdated" ∷ [];
    })
    else if name == "apt"
    then some (record {
      install = "install" ∷ "upgrade" ∷ "full-upgrade" ∷ "update" ∷ [];
      read = "list" ∷ "show" ∷ "search" ∷ "policy" ∷ [];
    })
    else if name == "apt-get"
    then some (record {
      install = "install" ∷ "upgrade" ∷ "dist-upgrade" ∷ "update" ∷ [];
      read = "show" ∷ "download" ∷ [];
    })
    else if name == "go"
    then some (record {
      install = "install" ∷ "get" ∷ "mod" ∷ [];
      read = "list" ∷ "version" ∷ "env" ∷ "vet" ∷ [];
    })
    else none

abbrev pub always_installing : List String
always_installing = "npx" ∷ "pnpx" ∷ "uvx" ∷ "pipx" ∷ []

abbrev pub network_commands : List String
network_commands =
    "curl" ∷ "wget" ∷ "scp" ∷ "sftp" ∷ "ssh" ∷ "rsync" ∷ "nc" ∷ "ncat" ∷ "telnet" ∷ "ftp" ∷ []

abbrev pub network_git_actions : List String
network_git_actions = "clone" ∷ "fetch" ∷ "pull" ∷ "push" ∷ "submodule" ∷ "ls-remote" ∷ []

abbrev pub read_only_git_actions : List String
read_only_git_actions = "branch" ∷ "diff" ∷ "log" ∷ "rev-parse" ∷ "show" ∷ "status" ∷ "tag" ∷ []

abbrev pub read_commands : List String
read_commands =
    "cat" ∷ "findstr" ∷ "head" ∷ "ls" ∷ "pwd" ∷ "rg" ∷ "tail" ∷ "tasklist" ∷ "wc" ∷ "where" ∷ []

abbrev pub same_trait : CapabilityTrait → CapabilityTrait → Bool
same_trait package_install package_install = true
same_trait network network = true
same_trait _ _ = false

abbrev pub has_trait : CapabilityTrait → List CapabilityTrait → Bool
has_trait t ts = some_of (same_trait t) ts

-- `traits.add(t)`
unfoldable pub add_trait : CapabilityTrait → List CapabilityTrait → List CapabilityTrait
add_trait t ts = if has_trait t ts then ts else ts ++ t ∷ []

abbrev pub one_of : Option String → List String → Bool
one_of none xs = false
one_of (some s) xs = includes s xs

pub record CommandClass : Type 0 where
  pub read : Bool
  pub traits : List CapabilityTrait

-- The traits of a name and a subcommand, before the package managers.
unfoldable pub base_traits : String → Option String → List CapabilityTrait
base_traits name sub =
    let t1 = if includes name network_commands then add_trait network [] else [] in
    let t2 =
      if (name == "git") && one_of sub network_git_actions then add_trait network t1 else t1 in
    if includes name always_installing then add_trait network (add_trait package_install t2) else t2

-- The rest of `classifyCommand`, without a package manager that reads.
unfoldable pub plain_class : String → Option String → List CapabilityTrait → CommandClass
plain_class name sub ts = record {
  read = includes name read_commands || ((name == "git") && one_of sub read_only_git_actions);
  traits = ts;
}

-- `classifyCommand`, of a normalized name and a subcommand
unfoldable pub classify_name : String → Option String → CommandClass
classify_name name sub =
    let ts = base_traits name sub in
    elim (manager_of name) [
      | none ↦ plain_class name sub ts
      | some m ↦
          let installed =
            if one_of sub m.install then add_trait network (add_trait package_install ts) else ts in
          if one_of sub m.read
          then record { read = true; traits = installed ++ network ∷ [] }
          else plain_class name sub installed
    ]

-- `classifyCommand`
unfoldable pub classify_command : Platform → String → List String → CommandClass
classify_command p command args = classify_name (normalize_command p command) (subcommand_of p args)
