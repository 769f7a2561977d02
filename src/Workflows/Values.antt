-- ===== src/Workflows/Values.antt =====
-- How apps/api/apps/workflows/validators.py reads a definition. The JSON schema has made sure of the
-- types by then: a value of another type than the code expects is a `type_error` here.
use Prim.Native.String.{String}
use mathlib.Core.Option.{Option, none, some}
use mathlib.Core.List.{List, []}
use runbook_platform.Prelude.Tests.{string_eq, if◌then◌else◌}
use runbook_platform.Prelude.Json.{Json, Fields, to_list}
use runbook_platform.Prelude.Effects.{Result, ok, err, type_error, invalid_workflow_definition}
use runbook_platform.Policies.Conditions.{is_falsy}

abbrev pub refuse {ℓ} : {A : Type ℓ} → String → Result A
refuse code = err (invalid_workflow_definition code)

-- A dict, as `x.get` needs one.
unfoldable pub dict_value : Json → Result Fields
dict_value (Json.obj fs) = ok fs
dict_value v = err type_error

-- `d.get(k, "")` of a text.
unfoldable pub text_or : String → Option Json → Result String
text_or d none = ok d
text_or d (some (Json.str s)) = ok s
text_or d (some v) = err type_error

-- `d.get(k, [])`
unfoldable pub list_or_empty : Option Json → Result (List Json)
list_or_empty none = ok []
list_or_empty (some (Json.arr xs)) = ok (to_list xs)
list_or_empty (some v) = err type_error

-- `d.get(k, {})`
unfoldable pub dict_or_new : Option Json → Result Fields
dict_or_new none = ok Fields.end
dict_or_new (some (Json.obj fs)) = ok fs
dict_or_new (some v) = err type_error

-- `d.get(k)` of a dict or None.
unfoldable pub optional_dict : Option Json → Result (Option Fields)
optional_dict none = ok none
optional_dict (some Json.null) = ok none
optional_dict (some (Json.obj fs)) = ok (some fs)
optional_dict (some v) = err type_error

-- `a.get("params") or a.get("inputs")`
unfoldable pub first_filled : Option Json → Option Json → Option Json
first_filled a b = if is_falsy a then b else a
