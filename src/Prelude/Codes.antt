-- ===== src/Prelude/Codes.antt =====
-- Texts as lists of code points: what the code asks of Python's `str`, with `str.split`, `int`,
-- `str.lower` and comparison.
use Prim.Native.Nat.{ℕ, ◌+◌, ◌-◌, ◌*◌, Ordering}
use Prim.Native.Char.{code}
use Prim.Native.String.{String, compare}
use mathlib.Core.Bool.{Bool, true, false, ◌&&◌, ◌||◌}
use mathlib.Core.Option.{Option, none, some}
use mathlib.Core.List.{List, [], ◌∷◌}
use runbook_platform.Prelude.Tests.{leb, ◌==◌, nat_eq, if◌then◌else◌}

abbrev pub codes : String → List ℕ
codes String.[] = []
codes (String.◌∷◌ c s) = code c ∷ codes s

-- `s < t`, by code points.
abbrev pub text_ltb : String → String → Bool
text_ltb s t = elim (compare s t) [ Ordering.lt ↦ true | _ ↦ false ]

abbrev pub is_digit : ℕ → Bool
is_digit c = leb b'0' c && leb c b'9'

abbrev is_space : ℕ → Bool
is_space c = c == b' ' || (leb 9 c && leb c 13)

-- The characters up to the first `c`, and those after it if there is one.
unfoldable pub break_at : ℕ → List ℕ → List ℕ × Option (List ℕ)
break_at c [] = ([], none)
break_at c (x ∷ xs) =
    let rest = break_at c xs in if x == c then ([], some xs) else (x ∷ rest.0, rest.1)

unfoldable pub drop_spaces : List ℕ → List ℕ
drop_spaces [] = []
drop_spaces (x ∷ xs) = let rest = drop_spaces xs in if is_space x then rest else x ∷ xs

all_space : List ℕ → Bool
all_space [] = true
all_space (x ∷ xs) = is_space x && all_space xs

-- The digits from here on; one underscore may stand between two digits, and spaces at the end.
unfoldable pub digits_value : ℕ → List ℕ → Option ℕ
unfolding all_space
digits_value n [] = some n
digits_value n (x ∷ []) =
    if is_digit x then some (n * 10 + (x - b'0')) else if is_space x then some n else none
digits_value n (x ∷ (y ∷ rest)) =
    let more = digits_value (n * 10 + (x - b'0')) (y ∷ rest) in
    let over = digits_value n (y ∷ rest) in
    if is_digit x
    then more
    else if x == b'_' && is_digit y
    then over
    else if is_space x && all_space (y ∷ rest)
    then some n
    else none

first_digit : List ℕ → Option ℕ
unfolding digits_value
first_digit [] = none
first_digit (x ∷ xs) = if is_digit x then digits_value 0 (x ∷ xs) else none

-- With a sign in front. A text that `int` refuses and a number below 0 both give `none`.
unsigned : List ℕ → Option ℕ
unfolding first_digit
unsigned [] = none
unsigned (x ∷ xs) = if x == b'+' then first_digit xs else first_digit (x ∷ xs)

-- `-0` is 0.
zero_only : Option ℕ → Option ℕ
zero_only none = none
zero_only (some n) = if n == 0 then some 0 else none

signed : List ℕ → Option ℕ
unfolding unsigned zero_only first_digit
signed [] = none
signed (x ∷ xs) = if x == b'-' then zero_only (first_digit xs) else unsigned (x ∷ xs)

-- `int(s)` where it is at least 0; only the digits 0 to 9 and the ASCII spaces are known.
unfoldable pub int_of : List ℕ → Option ℕ
unfolding signed drop_spaces
int_of s = signed (drop_spaces s)

-- `str.lower`, as far as its ASCII characters go: the letters A to Z, and the Kelvin sign, which
-- alone of the other characters becomes an ASCII letter.
abbrev lower_code : ℕ → ℕ
lower_code c = if leb b'A' c && leb c b'Z' then c + 32 else if c == 8490 then b'k' else c

unfoldable pub lower_codes : List ℕ → List ℕ
lower_codes [] = []
lower_codes (c ∷ cs) = lower_code c ∷ lower_codes cs

unfoldable pub codes_beq : List ℕ → List ℕ → Bool
codes_beq [] [] = true
codes_beq (x ∷ xs) (y ∷ ys) = let rest = codes_beq xs ys in if x == y then rest else false
codes_beq _ _ = false
