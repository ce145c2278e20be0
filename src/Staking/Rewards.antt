-- ===== src/Staking/Rewards.antt =====
-- The days that count and what they pay: the arithmetic of instructions/unstake.rs and
-- claim_rewards.rs.
pub mod Days
use q2_26_accel_v1c70ryg0d.Prelude.{
  ℕ, ◌*◌, ◌/◌, ◌^◌, ltb, if◌then◌else◌, Result, ok, err, ◌>>=◌, ◌>>◌, ok_or,
}
use q2_26_accel_v1c70ryg0d.Prelude.Int.{ℤ, ◌-ℤ◌, checked_i64, div_trunc}
use q2_26_accel_v1c70ryg0d.Prelude.Words.{checked_u64, u64_of_i64}
use q2_26_accel_v1c70ryg0d.Staking.{
  ErrorCode, invalid_timestamp, invalid_rewards_bps, panicked, Chain, Host, mint_to, Config,
}

abbrev pub seconds_per_day : ℕ
seconds_per_day = 86_400

-- The whole days from a time to now.
unfoldable pub whole_days : ℤ → ℤ → Result ErrorCode ℤ
whole_days now since = do
  seconds ← ok_or (checked_i64 (now -ℤ since)) invalid_timestamp
  ok (div_trunc seconds seconds_per_day)

-- The build checks overflow, so `10u64.pow` panics.
unfoldable pub reward_amount : ℤ → Config → ℕ → Result ErrorCode ℕ
reward_amount days config decimals = do
  points ← ok_or (checked_u64 (u64_of_i64 days * config.rewards_bps)) invalid_rewards_bps
  unit ← ok_or (checked_u64 (10 ^ decimals)) panicked
  scaled ← ok_or (checked_u64 (points * unit)) invalid_rewards_bps
  ok (scaled / 10_000)

unfoldable pub pay : Host → ℕ → Chain → Result ErrorCode Chain
pay host amount w = if ltb 0 amount then host.invoke (mint_to amount) w else ok w
