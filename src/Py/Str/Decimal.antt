-- ===== src/Py/Str/Decimal.antt =====
-- `str(n)` for a number that is not negative, as an f-string writes it.
use Prim.Native.Nat.{◌/◌, ◌%◌}
use honest_agent.Prelude.{ℕ, zero, suc, ◌+◌, ◌∷◌, [], ltb, if◌then◌else◌}
use honest_agent.Py.Str.{Str}

-- `fuel` bounds the digits that are written before those of `done`.
unfoldable pub decimal_digits : (fuel n : ℕ) (done : Str) → Str
decimal_digits zero n done = done
decimal_digits (suc fuel) n done =
    let rest = decimal_digits fuel (n / 10) ((48 + n % 10) ∷ done) in
    if ltb n 10 then (48 + n) ∷ done else rest

-- A number has no more digits than it counts, and one at least.
unfoldable pub decimal : ℕ → Str
unfolding decimal_digits
decimal n = decimal_digits (suc n) n []
