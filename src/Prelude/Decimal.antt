-- ===== src/Prelude/Decimal.antt =====
-- Decimal digits: `std::isdigit`, `std::to_string` on unsigned numbers.
use Prim.Native.Nat.{ℕ, zero, suc, ◌+◌, ◌/◌, ◌%◌}
use mathlib.Core.Bool.{Bool, true, false}
use mathlib.Core.List.{[], ◌∷◌, ◌++◌}
use windows_vds.Prelude.Tests.{ltb, within}
use windows_vds.Prelude.Text.{Bytes}

unfoldable pub is_digit : ℕ → Bool
is_digit c = within b'0' b'9' c

-- Division by ten ends after fewer rounds than the number itself.
unfoldable pub decimal : ℕ → ℕ → Bytes
decimal zero n = []
decimal (suc fuel) n = elim (ltb n 10) [
  | true ↦ (n + b'0') ∷ []
  | false ↦ decimal fuel (n / 10) ++ (n % 10 + b'0') ∷ []
]

unfoldable pub to_string : ℕ → Bytes
unfolding decimal
to_string n = decimal (suc n) n
