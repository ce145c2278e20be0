-- ===== src/Staking/Setup.antt =====
-- Setting the staking program up (instructions/initialize.rs, create_collection.rs and mint_asset.rs)
-- and what `initialize` establishes for the instructions that follow. The signatures are checked by
-- the runtime; `system_program` and `mpl_core_program` are fixed by their types and addresses.
use q2_26_accel_v1c70ryg0d.Prelude.{
  is_some, ℕ, ◌+◌, ◌≡◌, Option, some, List, ◌∷◌, ◌==◌, Result, ok, ◌>>=◌, ◌>>◌, guard, Bool,
  if◌then◌else◌, reject_if,
}
use q2_26_accel_v1c70ryg0d.Prelude.Decimal.{Text}
use q2_26_accel_v1c70ryg0d.Staking.{
  ErrorCode, invalid_update_authority, constraint_seeds, already_in_use, Attribute, Config,
  initialize, Accounts, RewardsMint,
}

-- The calls of other programs. `signer` is the address that the signer seeds derive.
pub data SetupCall : Type 0 where
  create_account : (payer key space : ℕ) → SetupCall
  create_mint : (payer key decimals authority : ℕ) → SetupCall
  create_collection_v2 :
      (collection payer update_authority signer : ℕ) → (name uri : Text) → SetupCall
  create_v2 : (asset collection authority payer owner signer : ℕ) → (name uri : Text) → SetupCall

-- What an asset's account and a collection's account hold.
pub record Asset : Type 0 where
  pub owner : ℕ
  -- The collection in the update authority, `none` if that is no collection.
  pub collection : Option ℕ
  pub attributes : Option (List Attribute)
  pub frozen : Option Bool

pub record Collection : Type 0 where
  pub update_authority : ℕ
  pub attributes : Option (List Attribute)

pub record TokenAccount : Type 0 where
  pub mint : ℕ
  pub owner : ℕ
  pub token_program : ℕ
  pub amount : ℕ

-- The accounts by their addresses (of a mint, its decimals), and the set-up calls that other
-- programs have accepted, the last one first.
pub record World : Type 0 where
  pub configs : ℕ → Option Config
  pub assets : ℕ → Option Asset
  pub collections : ℕ → Option Collection
  pub mints : ℕ → Option ℕ
  pub tokens : ℕ → Option TokenAccount
  pub sent : List SetupCall

abbrev pub write_at {ℓ} : {A : Type ℓ} → ℕ → A → (ℕ → Option A) → ℕ → Option A
write_at k a f n = if n == k then some a else f n

pub record SetupHost : Type 0 where
  pub config_address : (collection bump : ℕ) → ℕ
  pub config_bump : (collection : ℕ) → ℕ
  pub authority_address : (collection : ℕ) → ℕ
  pub rewards_mint_address : (config bump : ℕ) → ℕ
  pub rewards_mint_bump : (config : ℕ) → ℕ
  pub invoke : SetupCall → World → Result ErrorCode World

pub record InitializeAccounts : Type 0 where
  pub admin : ℕ
  pub config : ℕ
  pub collection : ℕ
  pub collection_authority : ℕ
  pub update_authority : ℕ
  pub rewards_mint : ℕ

-- `Config::DISCRIMINATOR.len() + Config::INIT_SPACE`
abbrev pub config_space : ℕ
config_space = 8 + (2 + 2 + 1 + 1)

-- The `init` attributes run before the other ones; the handler's configuration is written back at the
-- end.
unfoldable pub initialize_program :
    SetupHost
    → InitializeAccounts
    → (rewards_bps freeze_period : ℕ) → World
    → Result ErrorCode World
initialize_program h a rewards_bps freeze_period w = do
  guard (a.config == h.config_address a.collection (h.config_bump a.collection)) constraint_seeds
  reject_if (is_some (w.configs a.config)) already_in_use
  w1 ← h.invoke (create_account a.admin a.config config_space) w
  guard (a.rewards_mint == h.rewards_mint_address a.config (h.rewards_mint_bump a.config))
      constraint_seeds
  w2 ← h.invoke (create_mint a.admin a.rewards_mint 6 a.config) w1
  guard (a.collection_authority == a.update_authority) invalid_update_authority
  guard (a.update_authority == h.authority_address a.collection) constraint_seeds
  ok (record w2 {
    configs =
        write_at a.config
          (initialize rewards_bps freeze_period (h.rewards_mint_bump a.config)
            (h.config_bump a.collection))
          w2.configs;
  })

pub record CollectionAccounts : Type 0 where
  pub payer : ℕ
  pub collection : ℕ
  pub update_authority : ℕ

unfoldable pub create_collection :
    SetupHost → CollectionAccounts → (name uri : Text) → World → Result ErrorCode World
create_collection h a name uri w = do
  guard (a.update_authority == h.authority_address a.collection) constraint_seeds
  h.invoke
      (create_collection_v2 a.collection a.payer a.update_authority
        (h.authority_address a.collection) name uri)
      w

pub record AssetAccounts : Type 0 where
  pub user : ℕ
  pub asset : ℕ
  pub collection : ℕ
  pub update_authority : ℕ

unfoldable pub mint_asset :
    SetupHost → AssetAccounts → (name uri : Text) → World → Result ErrorCode World
mint_asset h a name uri w = do
  guard (a.update_authority == h.authority_address a.collection) constraint_seeds
  h.invoke
      (create_v2 a.asset a.collection a.update_authority a.user a.user
        (h.authority_address a.collection) name uri)
      w

-- A set-up call that succeeds writes no configuration.
abbrev pub RecordsSetup : SetupHost → Type 0
RecordsSetup h =
    (c : SetupCall) (w w' : World)
    → h.invoke c w ≡ ok w'
    → (w'.configs ≡ w.configs) × (w'.sent ≡ c ∷ w.sent)

-- The accounts of a later instruction on an asset of the collection, sent by the asset's owner.
pub record AreLater (h : SetupHost) (a : InitializeAccounts) (config : Config) (b : Accounts)
    (m : RewardsMint) : Type 0 where
  pub config_is : (b.config_key ≡ a.config) × (b.config ≡ config)
  pub collection_is : (b.collection_key ≡ a.collection) × (b.asset_collection ≡ some a.collection)
  pub owner_is : b.asset_owner ≡ b.owner
  pub authority_is :
      (b.collection_authority ≡ a.collection_authority) × (b.update_authority ≡ a.update_authority)
  pub mint_is : m.key ≡ a.rewards_mint
  pub addresses :
      ((k n : ℕ) → b.config_address k n ≡ h.config_address k n)
      × ((k : ℕ) → b.authority_address k ≡ h.authority_address k)
      × ((k n : ℕ) → m.address k n ≡ h.rewards_mint_address k n)
