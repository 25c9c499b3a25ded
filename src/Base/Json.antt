-- ===== src/Base/Json.antt =====
-- `any`, as `encoding/json` fills it with `UseNumber`: a plugin's nested spec is such a value.
use Prim.Native.String.{String}
use mathlib.Core.Bool.{Bool}

mutual
  pub data Value : Type 0 where
    null : Value
    bool : Bool → Value
    number : String → Value
    string : String → Value
    array : Items → Value
    object : Object → Value

  pub data Items : Type 0 where
    nil : Items
    cons : Value → Items → Items

  -- `map[string]any`
  pub data Object : Type 0 where
    empty : Object
    entry : String → Value → Object → Object
