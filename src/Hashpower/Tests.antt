-- ===== src/Hashpower/Tests.antt =====
-- The theorems on weights at concrete difficulties.
use Prim.Native.Nat.{min}
use bitz_pool.Common.{◌-◌, ◌*◌, ◌^◌, ◌≤◌, ◌<◌, ◌≡◌, ◌↔◌, arith}
use bitz_pool.Hashpower.{real_hashpower_of, hashpower_of}
use bitz_pool.Hashpower.Growth.{real_hashpower_wraps}

real_hashpower_wraps_example :
    (80 < 70
      → (real_hashpower_of 80 ≡ 80 * 2 ^ (80 - 12)) × (hashpower_of 80 ≡ 80 * 2 ^ min (80 - 12) 12))
    × (real_hashpower_of 80 ≡ 0 ↔ 72 ≤ 80)
real_hashpower_wraps_example = real_hashpower_wraps 80 (omega arith) (omega arith)
