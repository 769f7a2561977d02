-- ===== src/Audit/Clean.antt =====
-- What `_scrub_metadata` of apps/api/apps/audit/services.py leaves.
use mathlib.Core.Path.{◌≡◌, refl, sym, subst}
use mathlib.Core.Logic.{inl, inr}
use native.Mathlib.Omega.{arith}
use mathlib.Core.Bool.{Bool, true, false}
use runbook_platform.Prelude.Tests.{Bool-cases, if◌then◌else◌}
use runbook_platform.Prelude.Json.{Json, Items, Fields}
use runbook_platform.Prelude.Effects.{Result, ok, err, validation_error}
use runbook_platform.Audit.Keys.{is_rejected, is_forbidden}
use runbook_platform.Audit.Scrub.{
  scrub_metadata, scrub_value, scrub_items, IsClean, IsCleanValue, IsCleanList,
}

-- Two passes that say what the one pass of the code does: whether a key that is refused is reached,
-- and what is left when the keys that are dropped are.
unfoldable mutual
  pub exposes : Fields → Bool
  exposes Fields.end = false
  exposes (Fields.field key v fs) =
      let rest = exposes fs in
      let value = exposes_value v in
      if is_rejected key
      then true
      else if is_forbidden key
      then rest
      else if value
      then true
      else rest

  pub exposes_value : Json → Bool
  exposes_value (Json.obj fs) = exposes fs
  exposes_value (Json.arr xs) = exposes_items xs
  exposes_value Json.null = false
  exposes_value (Json.bool b) = false
  exposes_value (Json.num n) = false
  exposes_value (Json.str s) = false

  pub exposes_items : Items → Bool
  exposes_items Items.nil = false
  exposes_items (Items.cons x xs) =
      let rest = exposes_items xs in if exposes_value x then true else rest

unfoldable mutual
  pub erase : Fields → Fields
  erase Fields.end = Fields.end
  erase (Fields.field key v fs) =
      let rest = erase fs in
      let value = erase_value v in if is_forbidden key then rest else Fields.field key value rest

  pub erase_value : Json → Json
  erase_value (Json.obj fs) = Json.obj (erase fs)
  erase_value (Json.arr xs) = Json.arr (erase_items xs)
  erase_value Json.null = Json.null
  erase_value (Json.bool b) = Json.bool b
  erase_value (Json.num n) = Json.num n
  erase_value (Json.str s) = Json.str s

  pub erase_items : Items → Items
  erase_items Items.nil = Items.nil
  erase_items (Items.cons x xs) = Items.cons (erase_value x) (erase_items xs)

abbrev pub refuse_if {ℓ} : {A : Type ℓ} → Bool → A → Result A
refuse_if true a = err validation_error
refuse_if false a = ok a

mutual
  unfolding scrub_metadata scrub_value scrub_items exposes exposes_value exposes_items erase
      erase_value erase_items

  scrub_metadata-passes : (fs : Fields) → scrub_metadata fs ≡ refuse_if (exposes fs) (erase fs)
  scrub_metadata-passes Fields.end = refl
  scrub_metadata-passes (Fields.field key v fs) =
      rw (scrub_value-passes v, scrub_metadata-passes fs)
        (elim (Bool-cases (is_rejected key)) [
          | inl e ↦ rw e refl
          | inr e ↦ rw e (elim (Bool-cases (is_forbidden key)) [
            | inl k ↦ rw k refl
            | inr k ↦ rw k (elim (Bool-cases (exposes_value v)) [
              | inl m ↦ rw m refl
              | inr m ↦
                  rw m (elim (Bool-cases (exposes fs)) [ inl n ↦ rw n refl | inr n ↦ rw n refl ])
            ])
          ])
        ])

  scrub_value-passes : (v : Json) → scrub_value v ≡ refuse_if (exposes_value v) (erase_value v)
  scrub_value-passes (Json.obj fs) =
      rw (scrub_metadata-passes fs)
        (elim (Bool-cases (exposes fs)) [ inl e ↦ rw e refl | inr e ↦ rw e refl ])
  scrub_value-passes (Json.arr xs) =
      rw (scrub_items-passes xs)
        (elim (Bool-cases (exposes_items xs)) [ inl e ↦ rw e refl | inr e ↦ rw e refl ])
  scrub_value-passes Json.null = refl
  scrub_value-passes (Json.bool b) = refl
  scrub_value-passes (Json.num n) = refl
  scrub_value-passes (Json.str s) = refl

  scrub_items-passes : (xs : Items) → scrub_items xs ≡ refuse_if (exposes_items xs) (erase_items xs)
  scrub_items-passes Items.nil = refl
  scrub_items-passes (Items.cons x xs) =
      rw (scrub_value-passes x, scrub_items-passes xs)
        (elim (Bool-cases (exposes_value x)) [
          | inl e ↦ rw e refl
          | inr e ↦
              rw e (elim (Bool-cases (exposes_items xs)) [ inl k ↦ rw k refl | inr k ↦ rw k refl ])
        ])

mutual
  unfolding exposes erase IsClean

  erase-IsClean : (fs : Fields) → exposes fs ≡ false → IsClean (erase fs)
  erase-IsClean Fields.end h = tt
  erase-IsClean (Fields.field key v fs) h = elim (Bool-cases (is_rejected key)) [
    | inl e ↦ absurd (ground (arith, h, e))
    | inr e ↦ elim (Bool-cases (is_forbidden key)) [
      | inl k ↦ rw k (erase-IsClean fs (ground (arith, h, e, k)))
      | inr k ↦ rw k (
        (e, k),
        (
          erase_value-IsClean v (ground (arith, h, e, k)),
          erase-IsClean fs (ground (arith, h, e, k)),
        ),
      )
    ]
  ]

  erase_value-IsClean : (v : Json) → exposes_value v ≡ false → IsCleanValue (erase_value v)
  erase_value-IsClean (Json.obj fs) h = erase-IsClean fs h
  erase_value-IsClean (Json.arr xs) h = erase_items-IsClean xs h
  erase_value-IsClean Json.null h = tt
  erase_value-IsClean (Json.bool b) h = tt
  erase_value-IsClean (Json.num n) h = tt
  erase_value-IsClean (Json.str s) h = tt

  erase_items-IsClean : (xs : Items) → exposes_items xs ≡ false → IsCleanList (erase_items xs)
  erase_items-IsClean Items.nil h = tt
  erase_items-IsClean (Items.cons x xs) h =
      (erase_value-IsClean x (ground (arith, h)), erase_items-IsClean xs (ground (arith, h)))

mutual
  unfolding scrub_metadata IsClean

  clean_kept : (fs : Fields) → IsClean fs → scrub_metadata fs ≡ ok fs
  clean_kept Fields.end h = refl
  clean_kept (Fields.field key v fs) h =
      rw (h.0.0, h.0.1, clean_value_kept v h.1.0, clean_kept fs h.1.1) refl

  clean_value_kept : (v : Json) → IsCleanValue v → scrub_value v ≡ ok v
  clean_value_kept (Json.obj fs) h = rw (clean_kept fs h) refl
  clean_value_kept (Json.arr xs) h = rw (clean_list_kept xs h) refl
  clean_value_kept Json.null h = refl
  clean_value_kept (Json.bool b) h = refl
  clean_value_kept (Json.num n) h = refl
  clean_value_kept (Json.str s) h = refl

  clean_list_kept : (xs : Items) → IsCleanList xs → scrub_items xs ≡ ok xs
  clean_list_kept Items.nil h = refl
  clean_list_kept (Items.cons x xs) h = rw (clean_value_kept x h.0, clean_list_kept xs h.1) refl

scrubbed : (fs gs : Fields) → scrub_metadata fs ≡ ok gs → (exposes fs ≡ false) × (gs ≡ erase fs)
scrubbed fs gs h = elim (Bool-cases (exposes fs)) [
  | inl e ↦ absurd (ground (arith, h, e, scrub_metadata-passes fs))
  | inr e ↦ (e, ground (arith, h, e, scrub_metadata-passes fs))
]

-- The one pass of the code does what two do: it raises exactly where a refused key is reached, and
-- else it leaves the metadata without the fields under dropped keys.
pub scrub_metadata-refuse_if : (fs : Fields) → scrub_metadata fs ≡ refuse_if (exposes fs) (erase fs)
scrub_metadata-refuse_if fs = scrub_metadata-passes fs

-- Scrubbed metadata has no refused and no dropped key at any depth, and scrubbing it again leaves
-- it as it is.
pub scrub_metadata-IsClean :
    (fs gs : Fields) → scrub_metadata fs ≡ ok gs → IsClean gs × (scrub_metadata gs ≡ ok gs)
scrub_metadata-IsClean fs gs h =
    let s = scrubbed fs gs h in
    let clean = subst IsClean (sym s.1) (erase-IsClean fs s.0) in (clean, clean_kept gs clean)
