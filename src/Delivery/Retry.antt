-- ===== src/Delivery/Retry.antt =====
-- `_retry_delay` of relay/publications/services.py.
use aleyacloud_relay.Base.{ℕ, suc, zero, ◌+◌, ◌^◌, ◌≤◌, arith, ◌≡◌}
use aleyacloud_relay.Delivery.{retry_delay}

power-positive : (n : ℕ) → 1 ≤ 2 ^ n
power-positive zero = omega arith
power-positive (suc n) = omega (arith, power-positive n)

power_mono : (n k : ℕ) → 2 ^ n ≤ 2 ^ (n + k)
power_mono n zero = let e : n + 0 ≡ n = omega arith in rw e (omega arith)
power_mono n (suc k) =
    let e : n + suc k ≡ suc (n + k) = omega arith in rw e (omega (arith, power_mono n k))

-- The delay after the first attempt or a later one is between two minutes and half an hour; a later
-- attempt waits no shorter; from the fifth attempt on it is half an hour.
retry_delay-bounds :
    (n k : ℕ)
    → (120 ≤ retry_delay (suc n))
      × (retry_delay (suc n) ≤ 1800)
      × (retry_delay n ≤ retry_delay (n + k))
      × (retry_delay (5 + k) ≡ 1800)
unfolding retry_delay
retry_delay-bounds n k = (
  omega (arith, power-positive n),
  omega arith,
  omega (arith, power_mono n k),
  omega (arith, power_mono 5 k),
)
