-- ===== src/Staking/Unstake.antt =====
-- instructions/unstake.rs.
pub mod Effects
pub mod Payout
use q2_26_accel_v1c70ryg0d.Prelude.{
  ℕ, Bool, true, false, Option, none, some, List, [], ◌∷◌, ◌++◌, Result, ok, err, ◌>>=◌, ◌>>◌,
  guard, ok_or,
}
use q2_26_accel_v1c70ryg0d.Prelude.Int.{ℤ, pos, negsuc, leb_ℤ}
use q2_26_accel_v1c70ryg0d.Prelude.Decimal.{codes}
use q2_26_accel_v1c70ryg0d.Staking.{
  Attribute, ErrorCode, asset_not_staked, freeze_period_not_elapsed, Chain, Host, Accounts,
  RewardsMint, check_accounts, check_rewards_mint, update_attributes, update_freeze,
}
use q2_26_accel_v1c70ryg0d.Staking.Attributes.{
  key_staked, key_staked_at, key_last_claim, text_false, Clocks, no_clocks, scan,
}
use q2_26_accel_v1c70ryg0d.Staking.Rewards.{whole_days, reward_amount, pay}
use q2_26_accel_v1c70ryg0d.Staking.Counters.{update_collection_staked_count}

-- `last_claim.unwrap_or(staked_at)`
abbrev pub claimed_until : Option ℤ → ℤ → ℤ
claimed_until none staked_at = staked_at
claimed_until (some t) staked_at = t

abbrev pub unstaked_attributes : List Attribute → List Attribute
unstaked_attributes kept =
    kept
    ++ (record { key = key_staked; value = text_false }
        ∷ record { key = key_staked_at; value = codes "0" }
        ∷ record { key = key_last_claim; value = codes "0" }
        ∷ [])

-- The checks on the clocks, and the days that are paid.
unfoldable pub unstake_days : ℕ → ℤ → Clocks → Result ErrorCode ℤ
unstake_days freeze_period now c = do
  guard c.is_staked asset_not_staked
  staked_days ← whole_days now c.staked_at
  guard (leb_ℤ (pos freeze_period) staked_days) freeze_period_not_elapsed
  whole_days now (claimed_until c.last_claim c.staked_at)

unfoldable pub unstake : Host → Accounts → RewardsMint → Chain → Result ErrorCode Chain
unstake host a m w = do
  check_accounts a
  check_rewards_mint a m
  attributes ← ok_or w.attributes asset_not_staked
  now ← host.unix_timestamp
  c ← scan false no_clocks attributes
  days ← unstake_days a.config.freeze_period now c
  w1 ← host.invoke (update_attributes (unstaked_attributes c.kept)) w
  w2 ← host.invoke (update_freeze false) w1
  w3 ← update_collection_staked_count host (negsuc 0) w2
  amount ← reward_amount days a.config m.decimals
  pay host amount w3
