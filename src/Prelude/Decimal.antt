-- ===== src/Prelude/Decimal.antt =====
-- `str` of a Python `int` that is not negative: its decimal digits.
pub mod Laws
pub mod Padding
pub mod Width
use Prim.Native.Nat.{ℕ, zero, suc, ◌/◌, ◌%◌}
use Prim.Native.String.{String, ◌++◌}
use xieyi.Prelude.Tests.{ltb, if◌then◌else◌}

abbrev pub digit : ℕ → String
digit zero = "0"
digit (suc zero) = "1"
digit (suc (suc zero)) = "2"
digit (suc (suc (suc zero))) = "3"
digit (suc (suc (suc (suc zero)))) = "4"
digit (suc (suc (suc (suc (suc zero))))) = "5"
digit (suc (suc (suc (suc (suc (suc zero)))))) = "6"
digit (suc (suc (suc (suc (suc (suc (suc zero))))))) = "7"
digit (suc (suc (suc (suc (suc (suc (suc (suc zero)))))))) = "8"
digit _ = "9"

-- The quotient falls, so `n + 1` rounds are enough for `n`.
unfoldable pub str_rounds : ℕ → ℕ → String
str_rounds zero n = ""
str_rounds (suc fuel) n =
    let front = str_rounds fuel (n / 10) in if ltb n 10 then digit n else front ++ digit (n % 10)

unfoldable pub str : ℕ → String
unfolding str_rounds
str n = str_rounds (suc n) n
