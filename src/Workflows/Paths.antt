-- ===== src/Workflows/Paths.antt =====
-- The path checks of apps/api/apps/workflows/validators.py.
use Prim.Native.Nat.{ℕ, zero, suc}
use mathlib.Core.Path.{◌≡◌, refl}
use mathlib.Core.Logic.{inl, inr}
use native.Mathlib.Omega.{arith}
use mathlib.Core.Bool.{Bool, true, false, ◌&&◌, ◌||◌, not}
use mathlib.Core.Option.{Option, none, some}
use mathlib.Core.List.{List, [], ◌∷◌}
use runbook_platform.Prelude.Tests.{◌==◌, nat_eq, is_some, Bool-cases, if◌then◌else◌}
use runbook_platform.Prelude.Tables.{any_row}
use runbook_platform.Prelude.Codes.{codes, codes_beq}
use runbook_platform.Artifacts.Names.{replace_code}

-- `xs.startswith(p)`
unfoldable pub starts_with : List ℕ → List ℕ → Bool
starts_with [] xs = true
starts_with (c ∷ p) [] = false
starts_with (c ∷ p) (x ∷ xs) = let rest = starts_with p xs in if c == x then rest else false

abbrev into_first : ℕ → List (List ℕ) → List (List ℕ)
into_first x [] = (x ∷ []) ∷ []
into_first x (part ∷ parts) = (x ∷ part) ∷ parts

-- `xs.split(c)`
unfoldable pub split_on : ℕ → List ℕ → List (List ℕ)
split_on c [] = [] ∷ []
split_on c (x ∷ xs) = let rest = split_on c xs in if x == c then [] ∷ rest else into_first x rest

-- `path.replace("\\", "/").split("/")`
unfoldable pub parts_of : List ℕ → List (List ℕ)
unfolding split_on replace_code
parts_of path = split_on b'/' (replace_code b'\\' b'/' path)

-- `".." in parts`
unfoldable pub climbs : List ℕ → Bool
unfolding parts_of
climbs path = any_row (codes_beq (codes "..")) (parts_of path)

-- The tests of `_validate_artifact_path` on a text that is not empty.
unfoldable pub is_safe_path : List ℕ → Bool
unfolding climbs starts_with
is_safe_path path =
    (not (starts_with (codes "/") path) && not (climbs path))
    && not (starts_with (codes "~") path || starts_with (codes "//") path)

abbrev is_here : List ℕ → Bool
is_here part = codes_beq (codes "") part || codes_beq (codes ".") part

-- How a path is followed: up at "..", nowhere at "." and at an empty part, and else down. `none` if
-- it leaves the directory it starts in, which is `depth` levels up.
unfoldable pub walk : ℕ → List (List ℕ) → Option ℕ
walk depth [] = some depth
walk zero (part ∷ parts) =
    let down = walk 1 parts in
    let here = walk zero parts in
    if codes_beq (codes "..") part then none else if is_here part then here else down
walk (suc depth) (part ∷ parts) =
    let down = walk (suc (suc depth)) parts in
    let here = walk (suc depth) parts in
    let up = walk depth parts in
    if codes_beq (codes "..") part then up else if is_here part then here else down

walk-stays :
    (depth : ℕ) (parts : List (List ℕ))
    → any_row (codes_beq (codes "..")) parts ≡ false
    → is_some (walk depth parts) ≡ true
unfolding walk any_row
walk-stays depth [] h = refl
walk-stays zero (part ∷ parts) h = elim (Bool-cases (codes_beq (codes "..") part)) [
  | inl e ↦ absurd (ground (arith, h, e))
  | inr e ↦ rw e (elim (Bool-cases (is_here part)) [
    | inl k ↦ rw k (walk-stays zero parts (ground (arith, h, e)))
    | inr k ↦ rw k (walk-stays 1 parts (ground (arith, h, e)))
  ])
]
walk-stays (suc depth) (part ∷ parts) h = elim (Bool-cases (codes_beq (codes "..") part)) [
  | inl e ↦ absurd (ground (arith, h, e))
  | inr e ↦ rw e (elim (Bool-cases (is_here part)) [
    | inl k ↦ rw k (walk-stays (suc depth) parts (ground (arith, h, e)))
    | inr k ↦ rw k (walk-stays (suc (suc depth)) parts (ground (arith, h, e)))
  ])
]

-- A path that the tests accept does not start with a slash, and following it never leaves the
-- directory that it is relative to.
pub is_safe_path-walk :
    (path : List ℕ)
    → is_safe_path path ≡ true
    → (starts_with (codes "/") path ≡ false) × (is_some (walk 0 (parts_of path)) ≡ true)
unfolding is_safe_path climbs
is_safe_path-walk path h = (ground (arith, h), walk-stays 0 (parts_of path) (ground (arith, h)))
