-- ===== src/Prelude/Dumps.antt =====
-- The length of `json.dumps(value)`, which writes every character as ASCII, with ", " and ": "
-- between elements.
use Prim.Native.Nat.{ℕ, ◌+◌}
use Prim.Native.String
use Prim.Native.String.{String}
use mathlib.Core.Bool.{Bool, true, false, ◌||◌, ◌&&◌}
use mathlib.Core.List.{List, [], ◌∷◌}
use runbook_platform.Prelude.Tests.{leb, ltb, ◌==◌, nat_eq, if◌then◌else◌}
use runbook_platform.Prelude.Text.{id_text}
use runbook_platform.Prelude.Codes.{codes}
use runbook_platform.Prelude.Json.{Json, Items, Fields}

-- A character from 32 to 126 stands for itself, apart from the quote and the backslash; tab,
-- newline, return, backspace and form feed have a short form.
abbrev char_length : ℕ → ℕ
char_length c =
    if c == b'"' || c == b'\\'
    then 2
    else if leb 32 c && leb c 126
    then 1
    else if (leb 8 c && leb c 10) || (c == 12 || c == 13)
    then 2
    else if ltb c 65536
    then 6
    else 12

unfoldable pub codes_length : List ℕ → ℕ
codes_length [] = 0
codes_length (c ∷ cs) = char_length c + codes_length cs

unfoldable pub text_length : String → ℕ
unfolding codes_length
text_length s = 2 + codes_length (codes s)

abbrev has_items : Items → Bool
has_items Items.nil = false
has_items (Items.cons x xs) = true

abbrev has_fields : Fields → Bool
has_fields Fields.end = false
has_fields (Fields.field k v fs) = true

unfoldable mutual
  unfolding text_length

  pub dumps_length : Json → ℕ
  dumps_length Json.null = 4
  dumps_length (Json.bool true) = 4
  dumps_length (Json.bool false) = 5
  dumps_length (Json.num n) = String.count (id_text n)
  dumps_length (Json.str s) = text_length s
  dumps_length (Json.arr xs) = 2 + items_length xs
  dumps_length (Json.obj fs) = 2 + fields_length fs

  items_length : Items → ℕ
  items_length Items.nil = 0
  items_length (Items.cons x xs) =
      dumps_length x + ((if has_items xs then 2 else 0) + items_length xs)

  fields_length : Fields → ℕ
  fields_length Fields.end = 0
  fields_length (Fields.field k v fs) =
      (text_length k + 2 + dumps_length v) + ((if has_fields fs then 2 else 0) + fields_length fs)
