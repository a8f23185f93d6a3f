-- ===== src/Systable/Versions.antt =====
-- The order on system table versions of src/systable.c.
use dumphfdl.Common.{ℕ, ◌+◌, ◌≤◌, ◌<◌, ◌≡◌, ◌≢◌, ◌↔◌, ◌⊎◌, true, arith}
use dumphfdl.Util.{plus}
use dumphfdl.Systable.{systable_is_newer}

-- A version is newer than another if it is greater, or at least 2048 less; a distance of exactly
-- half the version space counts as a wrap. Nothing is newer than itself, and of two versions that
-- differ one at least is newer than the other: both are, when they differ by 2048 or more.
pub systable_is_newer_iff :
    (v_old v_new : ℕ)
    → ((systable_is_newer (plus v_old) (plus v_new) ≡ true)
        ↔ ((v_old < v_new) ⊎ (v_new + 2048 ≤ v_old)))
      × (v_old ≢ v_new
          → (systable_is_newer (plus v_old) (plus v_new) ≡ true)
            ⊎ (systable_is_newer (plus v_new) (plus v_old) ≡ true))
      × (v_old + 2048 ≤ v_new
          → (systable_is_newer (plus v_old) (plus v_new) ≡ true)
            × (systable_is_newer (plus v_new) (plus v_old) ≡ true))
unfolding systable_is_newer
systable_is_newer_iff v_old v_new = (
  (λ e. ground (arith, e), λ h. ground (arith, h)),
  λ ne. ground (arith, ne),
  λ far. (ground (arith, far), ground (arith, far)),
)
