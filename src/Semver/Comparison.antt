-- ===== src/Semver/Comparison.antt =====
-- scr/semver.py: the comparisons agree with each other.
use selfconnect_runtime.Base.{◌≡◌, not, ◌&&◌, ◌||◌, arith, string_eq}
use selfconnect_runtime.Semver.{Version, version_lt, version_eq}

-- Of two versions exactly one is less than the other, or they are equal.
pub version_lt_trichotomy :
    (v w : Version)
    → (not (version_lt v w) ≡ (version_lt w v || version_eq v w))
      × (version_eq v w ≡ (not (version_lt v w) && not (version_lt w v)))
unfolding version_lt version_eq
version_lt_trichotomy v w = (ground arith, ground arith)
