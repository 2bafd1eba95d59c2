-- ===== src/Audit/Backoff.antt =====
-- The delay before the next attempt, `_retry_delay` of audit/dispatcher.py.
use native.Mathlib.Nat.{pow-le-pow_right, mul-le-mul_left}
use eidolon_data.Prelude.{ℕ, ◌+◌, ◌*◌, ◌^◌, ◌≤◌, min, max, ◌≡◌, arith}
use eidolon_data.Audit.Dispatcher.{retry_delay}

scale_mono : (base a b : ℕ) → a ≤ b → base * 2 ^ a ≤ base * 2 ^ b
scale_mono base a b h = mul-le-mul_left base (pow-le-pow_right {n = 2} (omega arith) h)

-- The delay never passes the maximum, is at least the base (or the maximum, if that is smaller),
-- does not fall from one attempt to the next, and is constant from the 16th attempt on.
pub retry_delay_bounds :
    (m n base maximum : ℕ)
    → m ≤ n
    → (retry_delay n base maximum ≤ maximum)
      × (min base maximum ≤ retry_delay m base maximum)
      × (retry_delay m base maximum ≤ retry_delay n base maximum)
      × (retry_delay (16 + n) base maximum ≡ retry_delay 16 base maximum)
unfolding retry_delay
retry_delay_bounds m n base maximum h =
    let grows = scale_mono base (min (max 0 m) 16) (min (max 0 n) 16) (omega arith) in
    let starts = scale_mono base 0 (min (max 0 m) 16) (omega arith) in
    let e : min (max 0 (16 + n)) 16 ≡ 16 = omega arith in
    (omega arith, omega arith, omega arith, rw e)
