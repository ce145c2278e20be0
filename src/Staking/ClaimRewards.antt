-- ===== src/Staking/ClaimRewards.antt =====
-- instructions/claim_rewards.rs.
pub mod Effects
use q2_26_accel_v1c70ryg0d.Prelude.{
  ℕ, ◌==◌, ◌&&◌, Bool, true, false, Option, none, some, List, [], ◌∷◌, ◌++◌, if◌then◌else◌, Result,
  ok, err, ◌>>=◌, ◌>>◌, guard, ok_or,
}
use q2_26_accel_v1c70ryg0d.Prelude.Int.{ℤ, pos, ◌+ℤ◌, ◌*ℤ◌, pos_part, neg_part, checked_i64}
use q2_26_accel_v1c70ryg0d.Prelude.Decimal.{show_i64}
use q2_26_accel_v1c70ryg0d.Staking.{
  Attribute, ErrorCode, asset_not_staked, arithmetic_overflow, Chain, Host, Accounts, RewardsMint,
  check_accounts, check_rewards_mint, update_attributes,
}
use q2_26_accel_v1c70ryg0d.Staking.Attributes.{key_last_claim, Clocks, no_clocks, scan}
use q2_26_accel_v1c70ryg0d.Staking.Rewards.{seconds_per_day, whole_days, reward_amount, pay}
use q2_26_accel_v1c70ryg0d.Staking.Unstake.{claimed_until}

abbrev pub is_zero : ℤ → Bool
is_zero a = pos_part a == 0 && neg_part a == 0

-- The end of the days that are paid.
unfoldable pub new_last_claim : ℤ → ℤ → Result ErrorCode ℤ
new_last_claim last_claim days = do
  seconds ← ok_or (checked_i64 (days *ℤ pos seconds_per_day)) arithmetic_overflow
  ok_or (checked_i64 (last_claim +ℤ seconds)) arithmetic_overflow

abbrev pub claimed_attributes : List Attribute → ℤ → List Attribute
claimed_attributes kept until =
    kept ++ (record { key = key_last_claim; value = show_i64 until } ∷ [])

-- From the check for a whole day on.
unfoldable pub claim_days :
    Host → Accounts → RewardsMint → Clocks → ℤ → ℤ → Chain → Result ErrorCode Chain
claim_days host a m c last_claim days w = do
  until ← new_last_claim last_claim days
  w1 ← host.invoke (update_attributes (claimed_attributes c.kept until)) w
  amount ← reward_amount days a.config m.decimals
  pay host amount w1

unfoldable pub claim_rewards : Host → Accounts → RewardsMint → Chain → Result ErrorCode Chain
claim_rewards host a m w = do
  check_accounts a
  check_rewards_mint a m
  attributes ← ok_or w.attributes asset_not_staked
  now ← host.unix_timestamp
  c ← scan true no_clocks attributes
  guard c.is_staked asset_not_staked
  let last_claim = claimed_until c.last_claim c.staked_at
  days ← whole_days now last_claim
  if is_zero days then ok w else claim_days host a m c last_claim days w
