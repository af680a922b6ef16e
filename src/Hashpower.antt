-- ===== src/Hashpower.antt =====
-- The weight of a submission, in src/systems/client_message_handler_system.rs.
pub mod Growth
mod Tests
use bitz_pool.Common.{ℕ, ◌-◌, ◌%◌, ◌^◌, ltb, if◌then◌else◌}
use bitz_pool.Common.Word.{u64_mod, mul_u64}
use bitz_pool.State.{min_diff, min_hashpower, max_calculated_hashpower}

-- `MIN_HASHPOWER * 2u64.pow(diff - MIN_DIFF)`, with the wrap of a release build.
unfoldable pub real_hashpower_of : ℕ → ℕ
real_hashpower_of diff = mul_u64 min_hashpower ((2 ^ (diff - min_diff)) % u64_mod)

unfoldable pub hashpower_of : ℕ → ℕ
unfolding real_hashpower_of
hashpower_of diff =
    let real_hashpower = real_hashpower_of diff in
    if ltb max_calculated_hashpower real_hashpower then max_calculated_hashpower else real_hashpower
