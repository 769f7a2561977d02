-- ===== src/Policies/Conditions.antt =====
-- The conditions of rules in apps/api/apps/policies/services.py: their validation and evaluation.
use Prim.Native.Nat.{ℕ}
use Prim.Native.String.{String}
use mathlib.Core.Bool.{Bool, true, false, ◌&&◌, ◌||◌, not}
use mathlib.Core.Option.{Option, none, some}
use mathlib.Core.List.{List, [], ◌∷◌}
use runbook_platform.Prelude.Tests.{leb, ◌==◌, string_eq, if◌then◌else◌}
use runbook_platform.Prelude.Tables.{any_row, all_rows}
use runbook_platform.Prelude.Json.{Json, Items, Fields, lookup_field, elements}
use runbook_platform.Prelude.Codes.{codes, text_ltb, break_at, int_of}
use runbook_platform.Prelude.Effects.{Error, domain_validation, type_error}
use runbook_platform.Policies.Model.{ConditionType, Outcome}
use runbook_platform.Runners.Registration.{contains}

-- What `zoneinfo` knows: whether a name is a zone, is none, or is refused as a name, and the day
-- and the time of day ("mon", "09:30") of an instant in a zone.
pub data ZoneLookup : Type 0 where
  known missing malformed : ZoneLookup

pub record Zones : Type 0 where
  pub zone_info : String → ZoneLookup
  pub local_day : String → ℕ → String
  pub local_time : String → ℕ → String

abbrev refused : Option Error
refused = some (domain_validation "invalid_condition_params")

-- `None`, `False`, 0, "", [] and {}.
abbrev pub is_falsy : Option Json → Bool
is_falsy none = true
is_falsy (some Json.null) = true
is_falsy (some (Json.bool b)) = not b
is_falsy (some (Json.num n)) = leb n 0
is_falsy (some (Json.str s)) = s == ""
is_falsy (some (Json.arr Items.nil)) = true
is_falsy (some (Json.obj Fields.end)) = true
is_falsy (some _) = false

abbrev is_text : Json → Bool
is_text (Json.str s) = true
is_text _ = false

-- `isinstance(values, list) and len(values) > 0`
abbrev is_filled_list : Option Json → Bool
is_filled_list (some (Json.arr (Items.cons x xs))) = true
is_filled_list _ = false

abbrev is_filled_text : Option Json → Bool
is_filled_text (some (Json.str s)) = not (s == "")
is_filled_text _ = false

-- An operator that the code knows.
pub data Operator : Type 0 where
  equals is_in unknown : Operator

abbrev operator_of_text : String → Operator
operator_of_text s = if s == "equals" then equals else if s == "in" then is_in else unknown

abbrev pub operator_of : Option Json → Operator
operator_of (some (Json.str s)) = operator_of_text s
operator_of _ = unknown

check_operands : Operator → Fields → Option Error
check_operands unknown params = refused
check_operands is_in params =
    let values = lookup_field "values" params in
    if not (is_filled_list values)
    then refused
    else if not (all_rows is_text (elements values))
    then refused
    else none
check_operands equals params =
    if is_filled_text (lookup_field "value" params) then none else refused

-- `_validate_enum_condition`
unfoldable pub check_enum : Fields → Option Error
unfolding check_operands
check_enum params = check_operands (operator_of (lookup_field "operator" params)) params

abbrev is_hashable : Json → Bool
is_hashable (Json.arr xs) = false
is_hashable (Json.obj fs) = false
is_hashable _ = true

abbrev valid_days : List String
valid_days = "mon" ∷ "tue" ∷ "wed" ∷ "thu" ∷ "fri" ∷ "sat" ∷ "sun" ∷ []

abbrev is_day : Json → Bool
is_day (Json.str s) = contains valid_days s
is_day _ = false

-- Two numbers that stand for an hour and a minute.
abbrev is_clock : Option ℕ → Option ℕ → Bool
is_clock (some h) (some m) = leb h 23 && leb m 59
is_clock _ _ = false

-- `val.split(":")` with two parts.
abbrev is_time_parts : List ℕ → Option (List ℕ) → Bool
is_time_parts h none = false
is_time_parts h (some m) = is_clock (int_of h) (int_of m)

-- A text in HH:MM format. A second colon makes the part after the first no number.
unfoldable pub is_time : String → Bool
is_time s = let (h, m) = break_at b':' (codes s) in is_time_parts h m

abbrev time_text : Option Json → Option String
time_text (some (Json.str s)) = if is_time s then some s else none
time_text _ = none

abbrev is_match_when : Option Json → Bool
is_match_when (some (Json.str s)) = s == "inside" || s == "outside"
is_match_when _ = false

abbrev check_times : Option String → Option String → Fields → Option Error
check_times (some start) (some end) params =
    if not (text_ltb start end)
    then refused
    else if is_match_when (lookup_field "match_when" params)
    then none
    else refused
check_times _ _ params = refused

check_days : Fields → Option Error
check_days params =
    let days = lookup_field "days_of_week" params in
    if not (is_filled_list days)
    then refused
    else if not (all_rows is_hashable (elements days))
    then some type_error
    else if not (all_rows is_day (elements days))
    then refused
    else check_times (time_text (lookup_field "start_time" params))
        (time_text (lookup_field "end_time" params)) params

check_zone : ZoneLookup → Fields → Option Error
unfolding check_days
check_zone ZoneLookup.known params = check_days params
check_zone ZoneLookup.missing params = refused
check_zone ZoneLookup.malformed params = some type_error

module _ (zones : Zones) where
  -- The key of `ZoneInfo` must be a text.
  check_zone_name : Option Json → Fields → Option Error
  unfolding check_zone
  check_zone_name (some (Json.str name)) params = check_zone (zones.zone_info name) params
  check_zone_name _ params = some type_error

  -- `_validate_time_window_condition`
  unfoldable pub check_time_window : Fields → Option Error
  unfolding check_zone_name
  check_time_window params =
      let zone = lookup_field "timezone" params in
      if is_falsy zone then refused else check_zone_name zone params

  -- `_validate_condition_params`: the error, if the parameters have one.
  unfoldable pub check_condition : ConditionType → Fields → Option Error
  check_condition (ConditionType.other s) params = some (domain_validation "unknown_condition_type")
  check_condition ConditionType.time_window params = check_time_window params
  check_condition _ params = check_enum params

-- `_validate_outcome`
unfoldable pub check_outcome : Outcome → Option Error
check_outcome (Outcome.other s) = some (domain_validation "invalid_outcome")
check_outcome _ = none

-- The facts that conditions compare; those of an action are what the snapshot holds.
pub record Facts : Type 0 where
  pub risk_level : Json
  pub step_type : Json
  pub action_type : Json
  pub action_version : Json
  pub execution_mode : Json
  pub idempotency_mode : Json
  pub mutates_target : Json
  pub evaluated_at : ℕ

-- `a == b` where one side is a text.
abbrev is_same_text : Json → Option Json → Bool
is_same_text (Json.str s) (some (Json.str t)) = s == t
is_same_text _ _ = false

abbrev matches_operands : Operator → Fields → Json → Bool
matches_operands equals params actual = is_same_text actual (lookup_field "value" params)
matches_operands is_in params actual =
    any_row (λ v. is_same_text actual (some v)) (elements (lookup_field "values" params))
matches_operands unknown params actual = false

-- `_evaluate_enum_condition` on validated parameters, whose operands are texts.
unfoldable pub matches_enum : Fields → Json → Bool
matches_enum params actual =
    matches_operands (operator_of (lookup_field "operator" params)) params actual

abbrev text_or : String → Option Json → String
text_or d (some (Json.str s)) = s
text_or d _ = d

module _ (zones : Zones) where
  -- `_evaluate_time_window_condition` on validated parameters, which have every key.
  unfoldable pub matches_window : Fields → ℕ → Bool
  matches_window params at =
      let zone = text_or "" (lookup_field "timezone" params) in
      let day = zones.local_day zone at in
      let time = zones.local_time zone at in
      let in_window =
        any_row (λ d. is_same_text (Json.str day) (some d))
          (elements (lookup_field "days_of_week" params))
        && (not (text_ltb time (text_or "" (lookup_field "start_time" params)))
            && text_ltb time (text_or "" (lookup_field "end_time" params))) in
      if text_or "inside" (lookup_field "match_when" params) == "inside"
      then in_window
      else not in_window

  -- `_evaluate_condition`
  unfoldable pub matches : ConditionType → Fields → Facts → Bool
  matches ConditionType.risk_level params f = matches_enum params f.risk_level
  matches ConditionType.step_type params f = matches_enum params f.step_type
  matches ConditionType.time_window params f = matches_window params f.evaluated_at
  matches ConditionType.action_type params f = matches_enum params f.action_type
  matches ConditionType.action_version params f = matches_enum params f.action_version
  matches ConditionType.execution_mode params f = matches_enum params f.execution_mode
  matches ConditionType.idempotency_mode params f = matches_enum params f.idempotency_mode
  matches ConditionType.mutates_target params f = matches_enum params f.mutates_target
  matches (ConditionType.other s) params f = false
