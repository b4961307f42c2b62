-- ===== src/Api/Json.antt =====
-- JSON values, as `response.json()` returns them and `JSON.stringify` takes them. A number is kept as
-- the text that stands for it.
use text.Mathlib.Text.{◌==◌}
use elastic_ops.Prelude.{String, Bool, if◌then◌else◌}

mutual
  pub data Json : Type 0 where
    null : Json
    bool : Bool → Json
    num : String → Json
    str : String → Json
    arr : Items → Json
    obj : Fields → Json

  pub data Items : Type 0 where
    nil : Items
    cons : Json → Items → Items

  pub data Fields : Type 0 where
    end : Fields
    field : String → Json → Fields → Fields

-- What reading a property gives: a value, `undefined`, or a `TypeError` on `null`.
pub data Access : Type 0 where
  value : Json → Access
  undefined : Access
  type_error : Access

unfoldable pub lookup : String → Fields → Access
lookup k end = undefined
lookup k (field j v fs) = if j == k then value v else lookup k fs

unfoldable pub property : String → Json → Access
unfolding lookup
property k null = type_error
property k (obj fs) = lookup k fs
property k _ = undefined
