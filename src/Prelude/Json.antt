-- ===== src/Prelude/Json.antt =====
-- The values that JSON and YAML texts stand for: what the source has as `unknown` before it checks.
-- An object is its fields in order, no name twice.
use Prim.Native.String.{String}
use mathlib.Core.Bool.{Bool, true, false, not, ◌||◌}
use mathlib.Core.Option.{Option, none, some}
use package.text.Mathlib.Text.{◌==◌}
use zuul_proxy.Prelude.Tests.{eqb, if◌then◌else◌}
use zuul_proxy.Prelude.Number.{Number, nan, int, pos, negsuc}

-- `number` is an integer or NaN; any other number is a `fraction`, by its text.
mutual
  pub data Json : Type 0 where
    null : Json
    bool : Bool → Json
    number : Number → Json
    fraction : String → Json
    text : String → Json
    arr : Items → Json
    obj : Fields → Json

  pub data Items : Type 0 where
    nil : Items
    cons : Json → Items → Items

  pub data Fields : Type 0 where
    end : Fields
    field : String → Json → Fields → Fields

-- `fields[k]`; `none` stands for undefined.
unfoldable pub get_field : String → Fields → Option Json
get_field k end = none
get_field k (field j v fs) = if j == k then some v else get_field k fs

-- `k in fields`
abbrev pub has_field : String → Fields → Bool
has_field k end = false
has_field k (field j v fs) = j == k || has_field k fs

-- `v` counts as true in a condition.
abbrev pub is_truthy : Json → Bool
is_truthy null = false
is_truthy (bool b) = b
is_truthy (number nan) = false
is_truthy (number (int (pos n))) = not (eqb n 0)
is_truthy (number (int (negsuc n))) = true
is_truthy (fraction s) = true
is_truthy (text s) = not (s == "")
is_truthy (arr xs) = true
is_truthy (obj fs) = true

-- The text of the value in a template throws: an object with a field `toString`, which hides the
-- inherited method and is no function, or an array with such an item.
unfoldable mutual
  pub has_no_text : Json → Bool
  has_no_text null = false
  has_no_text (bool b) = false
  has_no_text (number n) = false
  has_no_text (fraction s) = false
  has_no_text (text s) = false
  has_no_text (arr vs) = item_has_no_text vs
  has_no_text (obj fs) = has_field "toString" fs

  pub item_has_no_text : Items → Bool
  item_has_no_text nil = false
  item_has_no_text (cons v vs) = has_no_text v || item_has_no_text vs

-- `v || null`, also of undefined
abbrev pub or_null : Option Json → Json
or_null none = null
or_null (some v) = if is_truthy v then v else null
