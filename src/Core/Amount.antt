-- ===== src/Core/Amount.antt =====
-- Fixed-point amounts as texts: what packages/core/src/funds.ts and anchor/landing.ts share of JavaScript.
use koul.Base.{ℕ, zero, suc, ◌-◌, [], ◌∷◌, ◌++◌, Text, length}

abbrev pub zeros : ℕ → Text
zeros zero = []
zeros (suc n) = b'0' ∷ zeros n

-- `s.padStart(n, "0")`
abbrev pub pad_start : ℕ → Text → Text
pad_start n s = zeros (n - length s) ++ s

-- `s.padEnd(n, "0")`
abbrev pub pad_end : ℕ → Text → Text
pad_end n s = s ++ zeros (n - length s)
