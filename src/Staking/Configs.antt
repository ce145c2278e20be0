-- ===== src/Staking/Configs.antt =====
-- The configurations of the staking program over its transactions (lib.rs, instructions/initialize.rs).
use q2_26_accel_v1c70ryg0d.Prelude.{
  ℕ, ◌≡◌, sym, ap, ◌∙◌, ◌==◌, ==_iff, none, some, some-inj, Bool-cases, inl, inr, ◌⊎◌, ok,
  ok_or-eq-ok, guard-eq-ok,
}
use q2_26_accel_v1c70ryg0d.Prelude.Int.{ℤ}
use q2_26_accel_v1c70ryg0d.Staking.{account_not_initialized, Config}
use q2_26_accel_v1c70ryg0d.Staking.Setup.{World, write_at, SetupHost, create_collection, mint_asset}
use q2_26_accel_v1c70ryg0d.Staking.Ready.{
  write_at-same, write_at-other, initialize_program-IsInitialized,
}
use q2_26_accel_v1c70ryg0d.Staking.Unstake.{unstake}
use q2_26_accel_v1c70ryg0d.Staking.ClaimRewards.{claim_rewards}
use q2_26_accel_v1c70ryg0d.Staking.Program.{
  ProgramHost, Transaction, initialize_tx, create_collection_tx, mint_asset_tx, stake_tx,
  claim_rewards_tx, unstake_tx, execute,
}
use q2_26_accel_v1c70ryg0d.Staking.Ran.{AreLawful, stake_asset-Ran, with_rewards-Ran}

-- A new configuration, at the address that the collection derives.
pub record IsOpened (h : SetupHost) (w w' : World) : Type 0 where
  pub key : ℕ
  pub collection : ℕ
  pub config : Config
  pub free : w.configs key ≡ none
  pub stored : w'.configs ≡ write_at key config w.configs
  pub place : key ≡ h.config_address collection config.bump
  pub bump_is : config.bump ≡ h.config_bump collection

pub execute-IsOpened :
    (h : ProgramHost) (now : ℤ) (t : Transaction) (w w' : World)
    → AreLawful h
    → execute h now t w ≡ ok w'
    → (w'.configs ≡ w.configs) ⊎ IsOpened h.setup w w'
unfolding execute create_collection mint_asset
execute-IsOpened h now (initialize_tx a rewards_bps freeze_period) w w' l e =
    let (collection, _, e1) =
      ok_or-eq-ok (w.collections a.collection) account_not_initialized _ e in
    let i =
      initialize_program-IsInitialized h.setup _ rewards_bps freeze_period w w' l.records e1 in
    inr (record {
      key = a.config;
      collection = a.collection;
      config = i.config;
      free = i.free;
      stored = i.stored;
      place = i.config_at;
      bump_is = i.bump_is;
    })
execute-IsOpened h now (create_collection_tx a name uri) w w' l e =
    inl (l.records _ w w' (guard-eq-ok _ _ _ e).1).0
execute-IsOpened h now (mint_asset_tx a name uri) w w' l e =
    let (_, _, e1) = ok_or-eq-ok (w.collections a.collection) account_not_initialized _ e in
    inl (l.records _ w w' (guard-eq-ok _ _ _ e1).1).0
execute-IsOpened h now (stake_tx t) w w' l e = inl (stake_asset-Ran h now t w w' e).configs
execute-IsOpened h now (claim_rewards_tx t) w w' l e =
    inl (with_rewards-Ran claim_rewards h now t w w' l e).configs
execute-IsOpened h now (unstake_tx t) w w' l e =
    inl (with_rewards-Ran unstake h now t w w' l e).configs

-- Every configuration stands at the address that a collection derives.
abbrev pub IsCanonical : SetupHost → World → Type 0
IsCanonical h w =
    (k : ℕ) (config : Config)
    → w.configs k ≡ some config
    → (collection : ℕ) × (k ≡ h.config_address collection config.bump)
      × (config.bump ≡ h.config_bump collection)

pub execute-IsCanonical :
    (h : ProgramHost) (now : ℤ) (t : Transaction) (w w' : World)
    → AreLawful h
    → execute h now t w ≡ ok w'
    → IsCanonical h.setup w
    → IsCanonical h.setup w'
execute-IsCanonical h now t w w' l e canonical k config at =
    elim (execute-IsOpened h now t w w' l e) [
      | inl same ↦ canonical k config (sym (ap (λ f. f k) same) ∙ at)
      | inr o ↦ elim (Bool-cases (k == o.key)) [
        | inl here ↦
            let there = (==_iff _ _).0 here in
            let config_is = some-inj (
              sym at
              ∙ ap (λ f. f k) o.stored
              ∙ ap (write_at o.key o.config w.configs) there
              ∙ write_at-same o.key o.config w.configs) in
            (
              o.collection,
              there
                  ∙ o.place
                  ∙ ap (λ c. h.setup.config_address o.collection c.bump) (sym config_is),
              ap (λ c. c.bump) config_is ∙ o.bump_is,
            )
        | inr other ↦ canonical k config (
            sym (write_at-other o.key k o.config w.configs other)
            ∙ sym (ap (λ f. f k) o.stored)
            ∙ at)
      ]
    ]

pub execute-keeps :
    (h : ProgramHost) (now : ℤ) (t : Transaction) (w w' : World) (k : ℕ) (config : Config)
    → AreLawful h
    → execute h now t w ≡ ok w'
    → w.configs k ≡ some config
    → w'.configs k ≡ some config
execute-keeps h now t w w' k config l e at = elim (execute-IsOpened h now t w w' l e) [
  | inl same ↦ ap (λ f. f k) same ∙ at
  | inr o ↦ elim (Bool-cases (k == o.key)) [
    | inl here ↦ absurd (cc (at, o.free, (==_iff k o.key).0 here))
    | inr other ↦ ap (λ f. f k) o.stored ∙ write_at-other o.key k o.config w.configs other ∙ at
  ]
]
