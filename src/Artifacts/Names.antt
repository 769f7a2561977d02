-- ===== src/Artifacts/Names.antt =====
-- `_sanitize_filename` of apps/api/apps/artifacts/services.py, on the characters' numbers.
use Prim.Native.Nat.{ℕ, zero, suc}
use mathlib.Core.Bool.{Bool, true, false, ◌&&◌, ◌||◌, not}
use mathlib.Core.List.{List, [], ◌∷◌}
use runbook_platform.Prelude.Tests.{leb, ◌==◌, nat_eq, if◌then◌else◌}
use runbook_platform.Prelude.Tables.{select}
use runbook_platform.Prelude.Codes.{codes}

unfoldable pub contains_code : ℕ → List ℕ → Bool
contains_code c [] = false
contains_code c (x ∷ xs) = let rest = contains_code c xs in if x == c then true else rest

-- `name.rsplit(c, 1)[-1]`
unfoldable pub after_last : ℕ → List ℕ → List ℕ
unfolding contains_code
after_last c [] = []
after_last c (x ∷ xs) =
    let rest = after_last c xs in if contains_code c xs then rest else if x == c then xs else x ∷ xs

-- `name.replace(old, new)` of one character by another.
unfoldable pub replace_code : ℕ → ℕ → List ℕ → List ℕ
replace_code old new [] = []
replace_code old new (x ∷ xs) = (if x == old then new else x) ∷ replace_code old new xs

-- `[\x00-\x1f\x7f]`
abbrev pub is_control : ℕ → Bool
is_control c = leb c 31 || c == 127

abbrev pub is_path_code : ℕ → Bool
is_path_code c = c == b'/' || c == b'\\'

unfoldable pub drop_leading : ℕ → List ℕ → List ℕ
drop_leading c [] = []
drop_leading c (x ∷ xs) = let rest = drop_leading c xs in if x == c then rest else x ∷ xs

unfoldable pub take_codes : ℕ → List ℕ → List ℕ
take_codes zero xs = []
take_codes (suc n) [] = []
take_codes (suc n) (x ∷ xs) = x ∷ take_codes n xs

abbrev pub or_default : List ℕ → List ℕ
or_default [] = codes "artifact"
or_default (x ∷ xs) = x ∷ xs

abbrev pub is_ascii_word : ℕ → Bool
is_ascii_word c =
    ((leb b'a' c && leb c b'z') || (leb b'A' c && leb c b'Z'))
    || ((leb b'0' c && leb c b'9') || c == b'_')

-- The last part of a path, without control characters and with spaces joined.
unfoldable pub plain_name : List ℕ → List ℕ
unfolding after_last replace_code
plain_name name =
    let base = after_last b'/' (replace_code b'\\' b'/' name) in
    let printable = select (λ c. not (is_control c)) base in
    select (λ c. not (is_path_code c)) (replace_code b' ' b'_' printable)

-- What Unicode says of the characters beyond ASCII: which are letters or digits.
module _ (is_word_beyond : ℕ → Bool) where
  -- `[\w.\-]`
  abbrev pub is_name_code : ℕ → Bool
  is_name_code c =
      (if leb c 127 then is_ascii_word c else is_word_beyond c) || (c == b'.' || c == b'-')

  unfoldable pub replace_unsafe : List ℕ → List ℕ
  replace_unsafe [] = []
  replace_unsafe (x ∷ xs) = (if is_name_code x then x else b'_') ∷ replace_unsafe xs

  abbrev pub max_safe_name_length : ℕ
  max_safe_name_length = 200

  unfoldable pub sanitize_filename : List ℕ → List ℕ
  unfolding plain_name drop_leading take_codes replace_unsafe
  sanitize_filename name =
      take_codes max_safe_name_length
        (or_default (replace_unsafe (drop_leading b'.' (plain_name name))))
