-- ===== src/Capability/Levels.antt =====
-- The classification levels and their ranks.
use selfconnect_runtime.Base.{ℕ, ◌<◌, String, ◌≡◌, refl, ◌≢◌, arith, string_eq, ok}
use selfconnect_runtime.Capability.Manifest.{classification_rank}

pub rank-secret : classification_rank "secret" ≡ ok 3
unfolding classification_rank string_eq
rank-secret = refl

-- Every other known level ranks lower.
pub rank-lt_secret :
    (level : String) (r : ℕ) → level ≢ "secret" → classification_rank level ≡ ok r → r < 3
unfolding classification_rank
rank-lt_secret level r ne h = ground arith
