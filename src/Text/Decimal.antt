-- ===== src/Text/Decimal.antt =====
-- `std::stringstream << n` and `std::to_string`: the decimal digits of a number.
use lazy_team.Base.{ℕ, zero, suc, ◌+◌, ◌/◌, ◌%◌, [], ◌∷◌, ltb, if◌then◌else◌}
use lazy_team.Text.Search.{Bytes}

-- The digits of `n` in front of `out`. A number has fewer digits than `n + 1`.
unfoldable pub decimal_onto : ℕ → ℕ → Bytes → Bytes
decimal_onto zero n out = out
decimal_onto (suc fuel) n out =
    let more = decimal_onto fuel (n / 10) ((b'0' + n % 10) ∷ out) in
    if ltb n 10 then (b'0' + n) ∷ out else more

unfoldable pub decimal : ℕ → Bytes
unfolding decimal_onto
decimal n = decimal_onto (n + 1) n []
