-- ===== src/Staking/Ran.antt =====
-- What a transaction of the staking program reads and writes (lib.rs).
use q2_26_accel_v1c70ryg0d.Prelude.{
  ℕ, ◌≡◌, sym, ap, ◌∙◌, Option, none, some, Result, ok, ok-inj, through, via, ok_or-eq-ok,
}
use q2_26_accel_v1c70ryg0d.Prelude.Int.{ℤ}
use q2_26_accel_v1c70ryg0d.Staking.{
  ErrorCode, account_not_initialized, Config, Chain, Call, Host, Accounts, RewardsMint,
}
use q2_26_accel_v1c70ryg0d.Staking.Laws.{perform}
use q2_26_accel_v1c70ryg0d.Staking.Setup.{
  SetupCall, Asset, Collection, TokenAccount, World, write_at, RecordsSetup,
}
use q2_26_accel_v1c70ryg0d.Staking.Stake.{stake}
use q2_26_accel_v1c70ryg0d.Staking.Program.{
  ProgramHost, AssetCall, RewardsCall, accounts_of, rewards_mint_of, chain_of, host_at, stake_asset,
  open_rewards_ata, check_rewards_ata, with_rewards,
}

-- What the other programs are documented to do: the calls on plugins and rewards as in `perform`;
-- no call writes a configuration of this program, and creating an account changes no asset that
-- stands.
pub record AreLawful (h : ProgramHost) : Type 0 where
  pub performs : (c : Call) (w w' : Chain) → h.invoke c w ≡ ok w' → w' ≡ perform c w
  pub records : RecordsSetup h.setup
  pub keeps :
      (c : SetupCall) (w w' : World) (k : ℕ) (asset : Asset)
      → h.setup.invoke c w ≡ ok w'
      → w.assets k ≡ some asset
      → w'.assets k ≡ some asset
  pub opens :
      (payer key mint owner token_program : ℕ) (w w' : World)
      → h.create_token_account payer key mint owner token_program w ≡ ok w'
      → (w'.configs ≡ w.configs) × (w'.assets ≡ w.assets)

-- A handler that ran on an asset: what was loaded, and what was written back.
pub record Ran (h : ProgramHost) (t : AssetCall) (w w' : World)
    (R : Accounts → Chain → Chain → Type 0) : Type 0 where
  pub config : Config
  pub config_at : w.configs t.config ≡ some config
  pub asset : Asset
  pub asset_at : w.assets t.asset ≡ some asset
  pub collection : Collection
  pub rewards : ℕ
  pub left : Chain
  pub ran : R (accounts_of h t config asset collection) (chain_of asset collection rewards) left
  pub configs : w'.configs ≡ w.configs
  pub assets :
      w'.assets
      ≡ write_at t.asset
          (record asset { attributes = left.attributes; frozen = left.frozen })
          w.assets

pub stake_asset-Ran :
    (h : ProgramHost) (now : ℤ) (t : AssetCall) (w w' : World)
    → stake_asset h now t w ≡ ok w'
    → Ran h t w w' (λ a x y. stake (host_at h now) a x ≡ ok y)
unfolding stake_asset
stake_asset-Ran h now t w w' e =
    let (config, config_at, e1) = ok_or-eq-ok (w.configs t.config) account_not_initialized _ e in
    let (asset, asset_at, e2) = ok_or-eq-ok (w.assets t.asset) account_not_initialized _ e1 in
    let (collection, _, e3) =
      ok_or-eq-ok (w.collections t.collection) account_not_initialized _ e2 in
    elim (through (stake (host_at h now) _ _) _ e3) [
      | via left ran e4 ↦ record {
        config = config;
        config_at = config_at;
        asset = asset;
        asset_at = asset_at;
        collection = collection;
        rewards = 0;
        left = left;
        ran = ran;
        configs = ap (λ z. z.configs) (sym (ok-inj e4));
        assets = ap (λ z. z.assets) (sym (ok-inj e4));
      }
    ]

open_rewards_ata-keeps :
    (h : ProgramHost) (t : RewardsCall) (o : Option TokenAccount) (w w' : World)
    → AreLawful h
    → open_rewards_ata h t o w ≡ ok w'
    → (w'.configs ≡ w.configs) × (w'.assets ≡ w.assets)
open_rewards_ata-keeps h t none w w' l e = l.opens _ _ _ _ _ w w' e
open_rewards_ata-keeps h t (some account) w w' l e =
    (ap (λ z. z.configs) (sym (ok-inj e)), ap (λ z. z.assets) (sym (ok-inj e)))

pub with_rewards-Ran :
    (handler : Host → Accounts → RewardsMint → Chain → Result ErrorCode Chain) (h : ProgramHost)
    (now : ℤ) (t : RewardsCall) (w w' : World)
    → AreLawful h
    → with_rewards handler h now t w ≡ ok w'
    → Ran h t.on_asset w w' (λ a x y. (m : RewardsMint) × (handler (host_at h now) a m x ≡ ok y))
unfolding with_rewards
with_rewards-Ran handler h now t w w' l e =
    let (config, config_at, e1) =
      ok_or-eq-ok (w.configs t.on_asset.config) account_not_initialized _ e in
    let (asset, asset_at, e2) =
      ok_or-eq-ok (w.assets t.on_asset.asset) account_not_initialized _ e1 in
    let (collection, _, e3) =
      ok_or-eq-ok (w.collections t.on_asset.collection) account_not_initialized _ e2 in
    let (decimals, _, e4) = ok_or-eq-ok (w.mints t.rewards_mint) account_not_initialized _ e3 in
    elim (through (open_rewards_ata h t (w.tokens t.user_rewards_ata) w) _ e4) [
      | via w1 opened e5 ↦
          let (same_configs, same_assets) = open_rewards_ata-keeps h t _ w w1 l opened in
          let (account, _, e6) =
            ok_or-eq-ok (w1.tokens t.user_rewards_ata) account_not_initialized _ e5 in
          elim (through (check_rewards_ata h t account) _ e6) [
            | via _ _ e7 ↦ elim (through (handler (host_at h now) _ _ _) _ e7) [
              | via left ran e8 ↦ record {
                config = config;
                config_at = config_at;
                asset = asset;
                asset_at = asset_at;
                collection = collection;
                rewards = account.amount;
                left = left;
                ran = (rewards_mint_of h t decimals, ran);
                configs = ap (λ z. z.configs) (sym (ok-inj e8)) ∙ same_configs;
                assets =
                    ap (λ z. z.assets) (sym (ok-inj e8))
                    ∙ ap (write_at t.on_asset.asset _) same_assets;
              }
            ]
          ]
    ]
