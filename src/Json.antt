-- ===== src/Json.antt =====
-- The JSON values that the JSONB columns hold (`definition_json`, `configuration_json`,
-- `input_json`) and Python's `dict.get` and truth test on them. A floating-point number is kept as
-- its text, since the modelled code only asks whether a value is one.
use pack_verse.Base.{String, Bool, true, false, Option, none, some, if◌then◌else◌, ◌==◌, string_eq}
use pack_verse.Base.Int.{ℤ, pos}

mutual
  pub data Value : Type 0 where
    null : Value
    boolean : Bool → Value
    int : ℤ → Value
    real : String → Value
    str : String → Value
    obj : Fields → Value
    arr : Items → Value

  pub data Fields : Type 0 where
    end : Fields
    field : String → Value → Fields → Fields

  pub data Items : Type 0 where
    nil : Items
    cons : Value → Items → Items

-- `d.get(key)`; an absent key and a null both give None to the callers that follow
abbrev pub get : String → Fields → Option Value
get k end = none
get k (field j v fs) = if j == k then some v else get k fs

-- `isinstance(v, str)`
abbrev pub as_str : Option Value → Option String
as_str (some (str s)) = some s
as_str _ = none

-- `isinstance(v, dict)`
abbrev pub as_obj : Option Value → Option Fields
as_obj (some (obj fs)) = some fs
as_obj _ = none

-- A string that is not empty: `isinstance(v, str) and v`.
abbrev pub as_name : Option Value → Option String
as_name v = elim (as_str v) [ none ↦ none | some s ↦ if s == "" then none else some s ]

-- `isinstance(v, int) and not isinstance(v, bool)`
abbrev pub as_order : Option Value → Option ℤ
as_order (some (int n)) = some n
as_order _ = none

-- `v if isinstance(v, int) else default`; a Python bool is an int
abbrev pub int_or : ℤ → Option Value → ℤ
int_or d (some (int n)) = n
int_or d (some (boolean true)) = pos 1
int_or d (some (boolean false)) = pos 0
int_or d _ = d
