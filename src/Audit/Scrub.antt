-- ===== src/Audit/Scrub.antt =====
-- `_scrub_metadata` of apps/api/apps/audit/services.py. A dict has each key once.
use Prim.Native.String.{String}
use mathlib.Core.Path.{◌≡◌}
use mathlib.Core.Bool.{false}
use runbook_platform.Prelude.Tests.{if◌then◌else◌}
use runbook_platform.Prelude.Json.{Json, Items, Fields}
use runbook_platform.Prelude.Effects.{Result, ok, err, validation_error}
use runbook_platform.Audit.Keys.{is_rejected, is_forbidden}

abbrev pub with_field : String → Result Json → Result Fields → Result Fields
with_field key (ok v) (ok rest) = ok (Fields.field key v rest)
with_field key (ok v) (err e) = err e
with_field key (err e) rest = err e

abbrev pub with_item : Result Json → Result Items → Result Items
with_item (ok v) (ok rest) = ok (Items.cons v rest)
with_item (ok v) (err e) = err e
with_item (err e) rest = err e

abbrev pub as_dict : Result Fields → Result Json
as_dict (ok fs) = ok (Json.obj fs)
as_dict (err e) = err e

abbrev pub as_list : Result Items → Result Json
as_list (ok xs) = ok (Json.arr xs)
as_list (err e) = err e

unfoldable mutual
  pub scrub_metadata : Fields → Result Fields
  scrub_metadata Fields.end = ok Fields.end
  scrub_metadata (Fields.field key v fs) =
      let rest = scrub_metadata fs in
      let value = scrub_value v in
      if is_rejected key
      then err validation_error
      else if is_forbidden key
      then rest
      else with_field key value rest

  pub scrub_value : Json → Result Json
  scrub_value (Json.obj fs) = as_dict (scrub_metadata fs)
  scrub_value (Json.arr xs) = as_list (scrub_items xs)
  scrub_value Json.null = ok Json.null
  scrub_value (Json.bool b) = ok (Json.bool b)
  scrub_value (Json.num n) = ok (Json.num n)
  scrub_value (Json.str s) = ok (Json.str s)

  pub scrub_items : Items → Result Items
  scrub_items Items.nil = ok Items.nil
  scrub_items (Items.cons x xs) = with_item (scrub_value x) (scrub_items xs)

-- No field at any depth has a key that is refused or dropped.
unfoldable mutual
  pub IsClean : Fields → Type 0
  IsClean Fields.end = Unit
  IsClean (Fields.field key v fs) =
      ((is_rejected key ≡ false) × (is_forbidden key ≡ false)) × (IsCleanValue v × IsClean fs)

  pub IsCleanValue : Json → Type 0
  IsCleanValue (Json.obj fs) = IsClean fs
  IsCleanValue (Json.arr xs) = IsCleanList xs
  IsCleanValue _ = Unit

  pub IsCleanList : Items → Type 0
  IsCleanList Items.nil = Unit
  IsCleanList (Items.cons x xs) = IsCleanValue x × IsCleanList xs
