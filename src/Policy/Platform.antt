-- ===== src/Policy/Platform.antt =====
-- What packages/policy-core/src/index.ts takes from JavaScript and from Node: the case of letters,
-- the base name of a path, the parts of a URL, and SHA-256.
use Prim.Native.String.{◌++◌ as text_append}
use atlas_mcp.Prelude.{String, List, [], ◌∷◌}
use atlas_mcp.Protocol.Operation.{Operation}

pub record Platform : Type 0 where
  pub to_lower : String → String  -- toLowerCase
  pub basename : String → String  -- node:path
  pub protocol : String → String  -- new URL(url).protocol
  pub hostname : String → String  -- new URL(url).hostname
  pub without_query : String → String  -- new URL(url) less search and hash, as a text
  pub digest : String → Operation → String  -- sha256 of the canonical JSON of a task id and operation
  pub digest_prefix : String → String  -- digest.slice(0, 12)

-- A template literal: its parts joined.
unfoldable pub concat : List String → String
concat [] = ""
concat (s ∷ ss) = text_append s (concat ss)
