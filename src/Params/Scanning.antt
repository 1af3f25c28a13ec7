-- ===== src/Params/Scanning.antt =====
-- The scanners of params.ts move forward only, and so the loop of extractParamTypes ends.
use chwire.Prelude.{ℕ, ◌<◌, List, length}
use chwire.Prelude.Scan.{Step, Forward}
use chwire.Params.{Types}

module _ (query : List ℕ) where
  abbrev len : ℕ
  len = length query

  module _ (i : ℕ) (result : Types) (h : i < len) where
    abbrev Moves : Step (ℕ × Types) → Type 0
    Moves = Forward (λ s. s.0) len (i, result)
