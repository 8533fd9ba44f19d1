-- ===== src/Exec/Risk/Allowed.antt =====
-- src/exec/risk.hpp: the list of assets that may be traded, separated by commas.
use low_latency_pipeline.Prelude.{ℕ, Bool, true, false, List, [], ◌∷◌, ◌==◌, if◌then◌else◌, take}
use low_latency_pipeline.Exec.Account.{same_bytes}

-- `set_allowed_assets` keeps what fits beside the terminating zero.
unfoldable pub allowed_assets : List ℕ → List ℕ
allowed_assets list = take 255 list

-- Up to the next comma.
unfoldable pub segment : List ℕ → List ℕ
segment [] = []
segment (c ∷ cs) = let rest = segment cs in if c == 44 then [] else c ∷ rest

-- The loop of `asset_allowed`: `at_start` tells that `p` stands at the start of a name, and not
-- on the way to the next comma.
unfoldable pub allowed_from : (asset : List ℕ) (at_start : Bool) → List ℕ → Bool
allowed_from asset at_start [] = false
allowed_from asset true (c ∷ cs) =
    let next = allowed_from asset true cs in
    let skip = allowed_from asset false cs in
    if same_bytes (segment (c ∷ cs)) asset then true else if c == 44 then next else skip
allowed_from asset false (c ∷ cs) =
    let next = allowed_from asset true cs in
    let skip = allowed_from asset false cs in if c == 44 then next else skip

unfoldable pub asset_allowed : (allowed asset : List ℕ) → Bool
asset_allowed allowed asset = allowed_from asset true allowed
