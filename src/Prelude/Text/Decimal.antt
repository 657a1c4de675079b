-- ===== src/Prelude/Text/Decimal.antt =====
-- `str(n)` of a natural number.
use Prim.Native.Nat.{ℕ, zero, suc, ◌/◌, ◌%◌}
use Prim.Native.String.{String, ◌++◌}
use mathlib.Core.Path.{◌≡◌, refl}
use kontur.Prelude.Tests.{ltb, if◌then◌else◌}

abbrev digit : ℕ → String
digit zero = "0"
digit (suc zero) = "1"
digit (suc (suc zero)) = "2"
digit (suc (suc (suc zero))) = "3"
digit (suc (suc (suc (suc zero)))) = "4"
digit (suc (suc (suc (suc (suc zero))))) = "5"
digit (suc (suc (suc (suc (suc (suc zero)))))) = "6"
digit (suc (suc (suc (suc (suc (suc (suc zero))))))) = "7"
digit (suc (suc (suc (suc (suc (suc (suc (suc zero)))))))) = "8"
digit _ = "9"

-- A number has at most as many digits as its value and one.
digits_from : ℕ → ℕ → String
digits_from zero n = ""
digits_from (suc fuel) n =
    let front = digits_from fuel (n / 10) in if ltb n 10 then digit n else front ++ digit (n % 10)

unfoldable pub decimal : ℕ → String
unfolding digits_from
decimal n = digits_from (suc n) n

decimal_runs : decimal 1204 ≡ "1204"
unfolding decimal
decimal_runs = refl
