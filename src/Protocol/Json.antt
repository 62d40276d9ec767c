-- ===== src/Protocol/Json.antt =====
-- JSON values, as adapters return them. A number is its printed text.
use atlas_mcp.Prelude.{String, Bool, Option, none, some, ◌==◌, if◌then◌else◌}

mutual
  pub data Json : Type 0 where
    null : Json
    boolean : Bool → Json
    number : String → Json
    text : String → Json
    array : Items → Json
    object : Fields → Json

  pub data Items : Type 0 where
    nil : Items
    item : Json → Items → Items

  pub data Fields : Type 0 where
    end : Fields
    field : String → Json → Fields → Fields

-- `object[key]`; `none` is `undefined`.
unfoldable pub field_of : String → Fields → Option Json
field_of k end = none
field_of k (field j v fs) = let rest = field_of k fs in if j == k then some v else rest

-- `{ ...object, [key]: value }`, for an object that has each key once.
unfoldable pub set_field : String → Json → Fields → Fields
set_field k v end = field k v end
set_field k v (field j w fs) =
    let rest = set_field k v fs in if j == k then field k v fs else field j w rest
