-- ===== src/Staking/Program.antt =====
-- `init_if_needed` of the reward account in unstake.rs and claim_rewards.rs, the dispatch of the
-- staking program (lib.rs), and sequences of transactions, each at its time.
use q2_26_accel_v1c70ryg0d.Prelude.{
  ℕ, Option, none, some, List, [], ◌∷◌, ◌==◌, Result, ok, err, ◌>>=◌, ◌>>◌, guard, ok_or,
}
use q2_26_accel_v1c70ryg0d.Prelude.Int.{ℤ}
use q2_26_accel_v1c70ryg0d.Prelude.Decimal.{Text}
use q2_26_accel_v1c70ryg0d.Staking.{
  ErrorCode, constraint_token_mint, constraint_token_owner,
  constraint_associated_token_token_program, account_not_associated_token_account,
  account_not_initialized, Config, Chain, Call, Host, Accounts, RewardsMint,
}
use q2_26_accel_v1c70ryg0d.Staking.Setup.{
  Asset, Collection, TokenAccount, World, write_at, SetupHost, InitializeAccounts,
  initialize_program, CollectionAccounts, create_collection, AssetAccounts, mint_asset,
}
use q2_26_accel_v1c70ryg0d.Staking.Stake.{stake}
use q2_26_accel_v1c70ryg0d.Staking.Unstake.{unstake}
use q2_26_accel_v1c70ryg0d.Staking.ClaimRewards.{claim_rewards}

-- The calls of the handlers on the plugins and the reward account, the set-up calls, and the
-- creation of an associated token account.
pub record ProgramHost : Type 0 where
  pub setup : SetupHost
  pub associated_address : (wallet mint token_program : ℕ) → ℕ
  pub invoke : Call → Chain → Result ErrorCode Chain
  pub create_token_account :
      (payer key mint owner token_program : ℕ) → World → Result ErrorCode World

pub record AssetCall : Type 0 where
  pub owner : ℕ
  pub config : ℕ
  pub asset : ℕ
  pub collection : ℕ
  pub update_authority : ℕ

-- The further accounts of `Unstake` and `ClaimRewards`.
pub record RewardsCall : Type 0 where
  pub on_asset : AssetCall
  pub rewards_mint : ℕ
  pub user_rewards_ata : ℕ
  pub token_program : ℕ

abbrev pub load {ℓ} : {A : Type ℓ} → Option A → Result ErrorCode A
load o = ok_or o account_not_initialized

abbrev pub accounts_of : ProgramHost → AssetCall → Config → Asset → Collection → Accounts
accounts_of h t config asset collection = record {
  owner = t.owner;
  config_key = t.config;
  config = config;
  config_address = h.setup.config_address;
  asset_owner = asset.owner;
  asset_collection = asset.collection;
  collection_key = t.collection;
  collection_authority = collection.update_authority;
  update_authority = t.update_authority;
  authority_address = h.setup.authority_address;
}

abbrev pub rewards_mint_of : ProgramHost → RewardsCall → ℕ → RewardsMint
rewards_mint_of h t decimals = record {
  key = t.rewards_mint;
  address = h.setup.rewards_mint_address;
  decimals = decimals;
}

-- What the handler works on, and the accounts as it leaves them.
abbrev pub chain_of : Asset → Collection → ℕ → Chain
chain_of asset collection rewards = record {
  attributes = asset.attributes;
  frozen = asset.frozen;
  collection_attributes = collection.attributes;
  rewards = rewards;
}

abbrev pub put : AssetCall → Asset → Collection → Chain → World → World
put t asset collection c w = record w {
  assets =
      write_at t.asset (record asset { attributes = c.attributes; frozen = c.frozen }) w.assets;
  collections =
      write_at t.collection (record collection { attributes = c.collection_attributes })
        w.collections;
}

abbrev pub host_at : ProgramHost → ℤ → Host
host_at h now = record { unix_timestamp = ok now; invoke = h.invoke }

unfoldable pub stake_asset : ProgramHost → ℤ → AssetCall → World → Result ErrorCode World
stake_asset h now t w = do
  config ← load (w.configs t.config)
  asset ← load (w.assets t.asset)
  collection ← load (w.collections t.collection)
  c ← stake (host_at h now) (accounts_of h t config asset collection) (chain_of asset collection 0)
  ok (put t asset collection c w)

-- `init_if_needed`: the account is created where none stands.
abbrev pub open_rewards_ata :
    ProgramHost → RewardsCall → Option TokenAccount → World → Result ErrorCode World
open_rewards_ata h t (some account) w = ok w
open_rewards_ata h t none w =
    h.create_token_account t.on_asset.owner t.user_rewards_ata t.rewards_mint t.on_asset.owner
      t.token_program w

unfoldable pub check_rewards_ata :
    ProgramHost → RewardsCall → TokenAccount → Result ErrorCode (Unit {0})
check_rewards_ata h t account = do
  guard (account.mint == t.rewards_mint) constraint_token_mint
  guard (account.owner == t.on_asset.owner) constraint_token_owner
  guard (account.token_program == t.token_program) constraint_associated_token_token_program
  guard (t.user_rewards_ata == h.associated_address t.on_asset.owner t.rewards_mint t.token_program)
      account_not_associated_token_account

-- `unstake` and `claim_rewards` with the accounts that they take.
unfoldable pub with_rewards :
    (Host → Accounts → RewardsMint → Chain → Result ErrorCode Chain)
    → ProgramHost
    → ℤ
    → RewardsCall
    → World
    → Result ErrorCode World
with_rewards handler h now t w = do
  config ← load (w.configs t.on_asset.config)
  asset ← load (w.assets t.on_asset.asset)
  collection ← load (w.collections t.on_asset.collection)
  decimals ← load (w.mints t.rewards_mint)
  w1 ← open_rewards_ata h t (w.tokens t.user_rewards_ata) w
  account ← load (w1.tokens t.user_rewards_ata)
  check_rewards_ata h t account
  c ←
      handler (host_at h now) (accounts_of h t.on_asset config asset collection)
        (rewards_mint_of h t decimals) (chain_of asset collection account.amount)
  ok (record (put t.on_asset asset collection c w1) {
    tokens = write_at t.user_rewards_ata (record account { amount = c.rewards }) w1.tokens;
  })

pub data Transaction : Type 0 where
  initialize_tx : InitializeAccounts → (rewards_bps freeze_period : ℕ) → Transaction
  create_collection_tx : CollectionAccounts → (name uri : Text) → Transaction
  mint_asset_tx : AssetAccounts → (name uri : Text) → Transaction
  stake_tx : AssetCall → Transaction
  claim_rewards_tx unstake_tx : RewardsCall → Transaction

unfoldable pub execute : ProgramHost → ℤ → Transaction → World → Result ErrorCode World
execute h now (initialize_tx a rewards_bps freeze_period) w = do
  collection ← load (w.collections a.collection)
  initialize_program h.setup (record a { collection_authority = collection.update_authority })
      rewards_bps freeze_period w
execute h now (create_collection_tx a name uri) w = create_collection h.setup a name uri w
execute h now (mint_asset_tx a name uri) w = do
  _ ← load (w.collections a.collection)
  mint_asset h.setup a name uri w
execute h now (stake_tx t) w = stake_asset h now t w
execute h now (claim_rewards_tx t) w = with_rewards claim_rewards h now t w
execute h now (unstake_tx t) w = with_rewards unstake h now t w

-- A transaction that fails is rolled back by the runtime.
abbrev pub settle : World → Result ErrorCode World → World
settle w (ok w') = w'
settle w (err e) = w

unfoldable pub execute_all : ProgramHost → List (ℤ × Transaction) → World → World
execute_all h [] w = w
execute_all h (t ∷ ts) w = execute_all h ts (settle w (execute h t.0 t.1 w))
