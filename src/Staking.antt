-- ===== src/Staking.antt =====
-- The staking program (programs/anchor-core-staking/src): its errors, its configuration, the
-- attributes that it keeps on an asset and on a collection, and the calls of other programs. Keys
-- are numbers: they are only compared.
pub mod Laws
pub mod Attributes
pub mod Rewards
pub mod Counters
pub mod Stake
pub mod Unstake
pub mod ClaimRewards
pub mod Setup
pub mod Ready
pub mod Program
pub mod Ran
pub mod Configs
pub mod Held
pub mod Frozen
mod Tests
use q2_26_accel_v1c70ryg0d.Prelude.{
  ℕ, Bool, true, false, Option, none, some, List, ◌==◌, Result, ok, err, ◌>>=◌, ◌>>◌, guard,
}
use q2_26_accel_v1c70ryg0d.Prelude.Int.{ℤ}
use q2_26_accel_v1c70ryg0d.Prelude.Decimal.{Text}

pub data ErrorCode : Type 0 where
  invalid_owner invalid_update_authority already_staked asset_not_staked : ErrorCode
  invalid_timestamp freeze_period_not_elapsed invalid_rewards_bps arithmetic_overflow : ErrorCode
  -- Anchor's own refusals, and a panic.
  constraint_seeds constraint_token_mint constraint_token_owner : ErrorCode
  constraint_associated_token_token_program account_not_associated_token_account : ErrorCode
  already_in_use account_not_initialized panicked : ErrorCode
  -- The error of another program.
  foreign : ℕ → ErrorCode

pub record Config : Type 0 where
  pub rewards_bps : ℕ
  pub freeze_period : ℕ
  pub rewards_bump : ℕ
  pub bump : ℕ

-- `initialize`
unfoldable pub initialize : ℕ → ℕ → ℕ → ℕ → Config
initialize rewards_bps freeze_period rewards_mint_bump config_bump = record {
  rewards_bps = rewards_bps;
  freeze_period = freeze_period;
  rewards_bump = rewards_mint_bump;
  bump = config_bump;
}

pub record Attribute : Type 0 where
  pub key : Text
  pub value : Text

-- The plugins of the asset and of its collection, `none` where there is none, and the rewards that
-- the owner's token account has received.
pub record Chain : Type 0 where
  pub attributes : Option (List Attribute)
  pub frozen : Option Bool
  pub collection_attributes : Option (List Attribute)
  pub rewards : ℕ

pub data Call : Type 0 where
  add_attributes update_attributes : List Attribute → Call
  add_freeze update_freeze : Bool → Call
  add_collection_attributes update_collection_attributes : List Attribute → Call
  mint_to : ℕ → Call

-- The clock and the other programs.
pub record Host : Type 0 where
  pub unix_timestamp : Result ErrorCode ℤ
  pub invoke : Call → Chain → Result ErrorCode Chain

-- The accounts of `Stake`, and of `Unstake` and `ClaimRewards` without the tokens.
pub record Accounts : Type 0 where
  pub owner : ℕ
  pub config_key : ℕ
  pub config : Config
  pub config_address : ℕ → ℕ → ℕ
  pub asset_owner : ℕ
  -- The collection in the asset's update authority, `none` if that is no collection.
  pub asset_collection : Option ℕ
  pub collection_key : ℕ
  pub collection_authority : ℕ
  pub update_authority : ℕ
  pub authority_address : ℕ → ℕ

abbrev pub is_collection : Option ℕ → ℕ → Bool
is_collection none k = false
is_collection (some c) k = c == k

-- The constraints in the order of the fields.
unfoldable pub check_accounts : Accounts → Result ErrorCode (Unit {0})
check_accounts a = do
  guard (a.config_key == a.config_address a.collection_key a.config.bump) constraint_seeds
  guard (a.asset_owner == a.owner) invalid_owner
  guard (is_collection a.asset_collection a.collection_key) invalid_update_authority
  guard (a.collection_authority == a.update_authority) invalid_update_authority
  guard (a.update_authority == a.authority_address a.collection_key) constraint_seeds

-- The rewards mint of `Unstake` and `ClaimRewards`.
pub record RewardsMint : Type 0 where
  pub key : ℕ
  pub address : ℕ → ℕ → ℕ
  pub decimals : ℕ

unfoldable pub check_rewards_mint : Accounts → RewardsMint → Result ErrorCode (Unit {0})
check_rewards_mint a m =
    guard (m.key == m.address a.config_key a.config.rewards_bump) constraint_seeds
