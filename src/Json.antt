-- ===== src/Json.antt =====
-- src/revenue_sentinel/core/types.py: `JSONValue` and `JSONObject`, as the code reads them.
use revenue_sentinel.Base.{String, Bool, Option, none, some, str_eq, if◌then◌else◌}

mutual
  pub data Json : Type 0 where
    null : Json
    bool : Bool → Json
    -- An `int` or a `float`, by its literal: no code of the development computes with one.
    number : String → Json
    text : String → Json
    array : Items → Json
    object : Object → Json

  pub data Items : Type 0 where
    done : Items
    item : Json → Items → Items

  pub data Object : Type 0 where
    empty : Object
    field : String → Json → Object → Object

-- `arguments.get(key)`.
unfoldable pub get : Object → String → Option Json
get empty key = none
get (field name value rest) key = if str_eq name key then some value else get rest key

-- `value if isinstance(value, str) else None`.
pub as_text : Option Json → Option String
as_text (some (text s)) = some s
as_text _ = none

-- `value is True`.
pub is_true : Option Json → Bool
is_true (some (bool b)) = b
is_true _ = Bool.false
