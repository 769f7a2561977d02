-- ===== src/Prelude/Json.antt =====
-- JSON values, as the JSONField columns and the request bodies hold them. Numbers are the
-- non-negative integers: no field that the modelled code reads holds another number.
use Prim.Native.Nat.{ℕ}
use Prim.Native.String.{String}
use mathlib.Core.Bool.{Bool}
use mathlib.Core.Option.{Option, none, some}
use mathlib.Core.List.{List, [], ◌∷◌}
use runbook_platform.Prelude.Tests.{◌==◌, string_eq, if◌then◌else◌}

mutual
  pub data Json : Type 0 where
    null : Json
    bool : Bool → Json
    num : ℕ → Json
    str : String → Json
    arr : Items → Json
    obj : Fields → Json

  pub data Items : Type 0 where
    nil : Items
    cons : Json → Items → Items

  -- The first field of a name is the one that counts.
  pub data Fields : Type 0 where
    end : Fields
    field : String → Json → Fields → Fields

unfoldable pub lookup_field : String → Fields → Option Json
lookup_field k end = none
lookup_field k (field j v fs) = let rest = lookup_field k fs in if j == k then some v else rest

-- `d.get(k)` of a dict; a value that is no dict has no field.
unfoldable pub get_field : String → Json → Option Json
unfolding lookup_field
get_field k (obj fs) = lookup_field k fs
get_field k _ = none

unfoldable pub to_list : Items → List Json
to_list nil = []
to_list (cons x xs) = x ∷ to_list xs

-- The elements of a list value.
unfoldable pub elements : Option Json → List Json
unfolding to_list
elements (some (arr xs)) = to_list xs
elements _ = []
