-- ===== src/Pool/Tests.antt =====
-- The theorem on `FixedMemoryPool` at a pool of two blocks.
use kac.Base.{some, List, [], ◌∷◌}
use kac.Pool.{Use, allocates, frees, writes, use_all}
use kac.Pool.Ledger.{Sound, fresh, use_all-Sound}

abbrev some_uses : List Use
some_uses =
    allocates ∷ allocates ∷ allocates ∷ writes 0 (some 7) ∷ frees 0 ∷ frees 0 ∷ allocates ∷ []

use_all-Sound_example : Sound 2 (use_all some_uses (fresh 2))
use_all-Sound_example = use_all-Sound 2 some_uses
