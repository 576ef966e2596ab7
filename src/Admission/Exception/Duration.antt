-- ===== src/Admission/Exception/Duration.antt =====
-- The duration limit of an exception authority, an int64 number of nanoseconds.
use goalrail.Base.{ℕ, ◌*◌, ◌<◌, ◌≤◌, true, false, ◌≡◌, ◌↔◌, arith}
use goalrail.Admission.Exception.{exceeds_limit}

-- Where the limit in nanoseconds fits an int64, the test is exact.
pub exceeds_limit_iff :
    (elapsed seconds : ℕ)
    → seconds ≤ 9223372036
    → (exceeds_limit elapsed seconds ≡ true) ↔ (seconds * 1000000000 < elapsed)
unfolding exceeds_limit
exceeds_limit_iff elapsed seconds h = ground arith

-- No duration above the limit is admitted, also where the multiplication wraps.
pub exceeds_limit_sound :
    (elapsed seconds : ℕ) → exceeds_limit elapsed seconds ≡ false → elapsed ≤ seconds * 1000000000
unfolding exceeds_limit
exceeds_limit_sound elapsed seconds h = ground arith

-- A limit of 9223372037 to 18446744073 seconds wraps to a negative duration, so that every duration
-- exceeds it.
pub exceeds_limit_wraps :
    (elapsed seconds : ℕ)
    → 9223372037 ≤ seconds
    → seconds ≤ 18446744073
    → exceeds_limit elapsed seconds ≡ true
unfolding exceeds_limit
exceeds_limit_wraps elapsed seconds h k = ground arith
