-- ===== src/Base/Dict.antt =====
-- A Python dict with text keys as the list of its items.
use Prim.Native.String.{String}
use mathlib.Core.Option.{Option, none, some}
use mathlib.Core.List.{List, [], ◌∷◌}
use pack_verse.Base.Tests.{if◌then◌else◌}
use pack_verse.Base.Equality.{◌==◌, string_eq}

module _ {ℓ} {V : Type ℓ} where
  -- `items.get(key)`
  abbrev pub lookup : String → List (String × V) → Option V
  lookup key [] = none
  lookup key ((k, v) ∷ items) = if k == key then some v else lookup key items

-- `x if x is not None else default`
abbrev pub or_else {ℓ} : {A : Type ℓ} → Option A → A → A
or_else none default = default
or_else (some a) default = a

-- a text that is given and not empty
abbrev pub given : Option String → Option String
given none = none
given (some text) = if text == "" then none else some text
