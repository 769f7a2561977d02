-- ===== src/Workflows/Valid.antt =====
-- What a definition has that apps/api/apps/workflows/validators.py accepts.
use Prim.Native.String.{String}
use mathlib.Core.Path.{◌≡◌, refl, sym, ap, subst, ◌∙◌}
use mathlib.Core.Logic.{inl, inr}
use native.Mathlib.Omega.{arith}
use mathlib.Core.Bool.{Bool, true, false, ◌||◌}
use mathlib.Core.Option.{Option, none, some}
use mathlib.Core.List.{List, [], ◌∷◌}
use runbook_platform.Prelude.Tests.{◌==◌, string_eq, Bool-cases, if◌then◌else◌}
use runbook_platform.Prelude.Tables.{all_rows}
use runbook_platform.Prelude.Codes.{codes}
use runbook_platform.Prelude.Json.{Json, Fields, lookup_field, get_field}
use runbook_platform.Prelude.Effects.{ok}
use runbook_platform.Prelude.Results.{Gives, Gives-bind, Gives-then, Gives-ok, Gives-mono}
use runbook_platform.Runners.Registration.{contains}
use runbook_platform.Workflows.Values.{dict_value, text_or}
use runbook_platform.Workflows.Paths.{is_safe_path}
use runbook_platform.Workflows.Checks.{refuse_when, validate_artifact_path}
use runbook_platform.Workflows.Definitions.{check_artifacts, check_path}

unfoldable pub no_repeats : List String → Bool
no_repeats [] = true
no_repeats (x ∷ xs) = let rest = no_repeats xs in if contains xs x then false else rest

-- `xs` backwards in front of `ys`.
unfoldable pub onto : List String → List String → List String
onto [] ys = ys
onto (x ∷ xs) ys = onto xs (x ∷ ys)

abbrev pub text_of : String → Option Json → String
text_of d (some (Json.str s)) = s
text_of d _ = d

unfoldable pub artifact_keys : List Json → List String
artifact_keys [] = []
artifact_keys (a ∷ as') = text_of "" (get_field "key" a) ∷ artifact_keys as'

abbrev is_path_safe : Option Json → Bool
is_path_safe (some (Json.str s)) = is_safe_path (codes s)
is_path_safe _ = true

abbrev pub has_safe_path : Json → Bool
has_safe_path a = is_path_safe (get_field "path" a)

pub refuse_when-false :
    (b : Bool) (code : String) (x : Unit {0}) → refuse_when b code ≡ ok x → b ≡ false
unfolding refuse_when
refuse_when-false true code x h = absurd (ground (arith, h))
refuse_when-false false code x h = refl

pub text_or-text_of :
    (d : String) (v : Option Json) (s : String) → text_or d v ≡ ok s → s ≡ text_of d v
unfolding text_or
text_or-text_of d none s h = ground (arith, h)
text_or-text_of d (some (Json.str t)) s h = ground (arith, h)
text_or-text_of d (some Json.null) s h = absurd (ground (arith, h))
text_or-text_of d (some (Json.bool b)) s h = absurd (ground (arith, h))
text_or-text_of d (some (Json.num n)) s h = absurd (ground (arith, h))
text_or-text_of d (some (Json.arr xs)) s h = absurd (ground (arith, h))
text_or-text_of d (some (Json.obj fs)) s h = absurd (ground (arith, h))

pub dict_value-obj : (v : Json) (fs : Fields) → dict_value v ≡ ok fs → v ≡ Json.obj fs
unfolding dict_value
dict_value-obj (Json.obj gs) fs h = ground (arith, h)
dict_value-obj (Json.str t) fs h = absurd (ground (arith, h))
dict_value-obj Json.null fs h = absurd (ground (arith, h))
dict_value-obj (Json.bool b) fs h = absurd (ground (arith, h))
dict_value-obj (Json.num n) fs h = absurd (ground (arith, h))
dict_value-obj (Json.arr xs) fs h = absurd (ground (arith, h))

pub dict_value-get_field :
    (k : String) (v : Json) (fs : Fields) → dict_value v ≡ ok fs → get_field k v ≡ lookup_field k fs
unfolding get_field
dict_value-get_field k v fs h = ap (get_field k) (dict_value-obj v fs h)

pub no_repeats-new :
    (keys : List String) (key : String)
    → no_repeats keys ≡ true
    → contains keys key ≡ false
    → no_repeats (key ∷ keys) ≡ true
unfolding no_repeats
no_repeats-new keys key h new = rw new h

text_path :
    (s : String) (x : Unit {0})
    → validate_artifact_path (some (Json.str s)) ≡ ok x
    → is_safe_path (codes s) ≡ true
unfolding validate_artifact_path
text_path s x h = ground (arith, refuse_when-false _ _ x h)

check_path-is_path_safe :
    (kind : String) (path : Option Json) (x : Unit {0})
    → check_path kind path ≡ ok x
    → is_path_safe path ≡ true
unfolding check_path validate_artifact_path
check_path-is_path_safe kind none x h = refl
check_path-is_path_safe kind (some (Json.str s)) x h =
    elim (Bool-cases (kind == "file" || kind == "report")) [
      | inl e ↦ text_path s x (
          subst
            (λ b. (if b || true then validate_artifact_path (some (Json.str s)) else ok tt) ≡ ok x)
            e h)
      | inr e ↦ text_path s x (
          subst
            (λ b. (if b || true then validate_artifact_path (some (Json.str s)) else ok tt) ≡ ok x)
            e h)
    ]
check_path-is_path_safe kind (some Json.null) x h = refl
check_path-is_path_safe kind (some (Json.bool b)) x h = refl
check_path-is_path_safe kind (some (Json.num n)) x h = refl
check_path-is_path_safe kind (some (Json.arr xs)) x h = refl
check_path-is_path_safe kind (some (Json.obj fs)) x h = refl

-- What the artifacts of a step give when they are accepted.
pub record ArtifactsFine (keys : List String) (as' : List Json) (keys' : List String) : Type 0 where
  pub listed : keys' ≡ onto (artifact_keys as') keys
  pub distinct : no_repeats keys' ≡ true
  pub safe : all_rows has_safe_path as' ≡ true

pub check_artifacts-fine :
    (keys : List String) (as' : List Json)
    → no_repeats keys ≡ true
    → Gives (ArtifactsFine keys as') (check_artifacts keys as')
unfolding check_artifacts artifact_keys onto all_rows
check_artifacts-fine keys [] h =
    Gives-ok (ArtifactsFine keys []) keys (record { listed = refl; distinct = h; safe = refl })
check_artifacts-fine keys (a ∷ as') h =
    let P = ArtifactsFine keys (a ∷ as') in
    Gives-bind P (dict_value a) _ (λ artifact is_dict. Gives-bind P _ _ (λ key is_key.
      Gives-then P _ _ (λ x new. Gives-bind P _ _ (λ kind is_kind. Gives-then P _ _ (λ y path.
        Gives-mono {P = ArtifactsFine (key ∷ keys) as'} (check_artifacts (key ∷ keys) as')
          (λ keys' fine. record {
            listed =
                subst (λ k. keys' ≡ onto (artifact_keys as') (k ∷ keys))
                  (text_or-text_of "" (lookup_field "key" artifact) key is_key
                    ∙ ap (text_of "") (sym (dict_value-get_field "key" a artifact is_dict)))
                  fine.listed;
            distinct = fine.distinct;
            safe =
                rw
                  (subst (λ v. is_path_safe v ≡ true)
                    (sym (dict_value-get_field "path" a artifact is_dict))
                    (check_path-is_path_safe kind (lookup_field "path" artifact) y path))
                  fine.safe;
          })
          (check_artifacts-fine (key ∷ keys) as'
            (no_repeats-new keys key h (refuse_when-false _ _ x new))))))))
