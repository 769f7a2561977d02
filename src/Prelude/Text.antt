-- ===== src/Prelude/Text.antt =====
-- `str(id)`: a primary key as the text that the services pass on.
use Prim.Native.Nat.{ℕ, zero, suc, ◌/◌, ◌%◌}
use Prim.Native.String
use Prim.Native.String.{String}
use runbook_platform.Prelude.Tests.{ltb, if◌then◌else◌}

digit : ℕ → String
digit zero = "0"
digit (suc zero) = "1"
digit (suc (suc zero)) = "2"
digit (suc (suc (suc zero))) = "3"
digit (suc (suc (suc (suc zero)))) = "4"
digit (suc (suc (suc (suc (suc zero))))) = "5"
digit (suc (suc (suc (suc (suc (suc zero)))))) = "6"
digit (suc (suc (suc (suc (suc (suc (suc zero))))))) = "7"
digit (suc (suc (suc (suc (suc (suc (suc (suc zero)))))))) = "8"
digit _ = "9"

-- The last digits of `n` in front of `tail`; a number has no more digits than its successor.
digits_before : ℕ → ℕ → String → String
digits_before zero n tail = tail
digits_before (suc fuel) n tail =
    let text = String.◌++◌ (digit (n % 10)) tail in
    let more = digits_before fuel (n / 10) text in if ltb n 10 then text else more

unfoldable pub id_text : ℕ → String
unfolding digits_before digit
id_text n = digits_before (suc n) n ""
