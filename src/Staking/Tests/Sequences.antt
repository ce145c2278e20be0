-- ===== src/Staking/Tests/Sequences.antt =====
-- A sequence of transactions of the staking program: the set-up, a stake under a freeze period of ten
-- days, then within that period a claim, and an unstake and a second stake, both refused.
use q2_26_accel_v1c70ryg0d.Prelude.{
  ◌+◌, ◌≡◌, refl, sym, ap, ◌∙◌, none, some, List, [], ◌∷◌, ok, ok-inj, arith,
}
use q2_26_accel_v1c70ryg0d.Prelude.Int.{ℤ, pos, ◌+ℤ◌, ◌-ℤ◌, ◌*ℤ◌, div_trunc, checked_i64}
use q2_26_accel_v1c70ryg0d.Prelude.Words.{checked_u64, u64_of_i64}
use q2_26_accel_v1c70ryg0d.Prelude.Decimal.{
  text_eq, parse_i64, parse_unsigned, parse_digits, show_i64, show_digits,
}
use q2_26_accel_v1c70ryg0d.Staking.{Config, initialize, check_accounts, check_rewards_mint}
use q2_26_accel_v1c70ryg0d.Staking.Laws.{perform}
use q2_26_accel_v1c70ryg0d.Staking.Attributes.{kind_of, keep_unstaked, scan}
use q2_26_accel_v1c70ryg0d.Staking.Counters.{
  count_step, count_all, new_counters, counter_attributes, update_collection_staked_count,
}
use q2_26_accel_v1c70ryg0d.Staking.Setup.{World, write_at, initialize_program}
use q2_26_accel_v1c70ryg0d.Staking.Rewards.{whole_days, reward_amount, pay}
use q2_26_accel_v1c70ryg0d.Staking.Unstake.{unstake, unstake_days}
use q2_26_accel_v1c70ryg0d.Staking.ClaimRewards.{claim_rewards, claim_days, new_last_claim}
use q2_26_accel_v1c70ryg0d.Staking.Stake.{stake}
use q2_26_accel_v1c70ryg0d.Staking.Program.{
  ProgramHost, AssetCall, RewardsCall, stake_asset, with_rewards, check_rewards_ata, Transaction,
  initialize_tx, stake_tx, claim_rewards_tx, unstake_tx, execute, settle, execute_all,
}
use q2_26_accel_v1c70ryg0d.Staking.Ran.{AreLawful}
use q2_26_accel_v1c70ryg0d.Staking.Configs.{execute-IsCanonical}
use q2_26_accel_v1c70ryg0d.Staking.Held.{IsHeld}
use q2_26_accel_v1c70ryg0d.Staking.Frozen.{stays_frozen}

abbrev host : ProgramHost
host = record {
  setup = record {
    config_address = λ collection bump. collection + 100;
    config_bump = λ collection. 255;
    authority_address = λ collection. 4;
    rewards_mint_address = λ config bump. 5;
    rewards_mint_bump = λ config. 254;
    invoke = λ c w. ok (record w { sent = c ∷ w.sent });
  };
  associated_address = λ wallet mint token_program. 8;
  invoke = λ c w. ok (perform c w);
  create_token_account = λ payer key mint owner token_program w. ok (record w {
    tokens =
        write_at key
          (record { mint = mint; owner = owner; token_program = token_program; amount = 0 })
          w.tokens;
  });
}

host-AreLawful : AreLawful host
host-AreLawful = record {
  performs = λ c w w' h. sym (ok-inj h);
  records = λ c w w' h. (ap (λ z. z.configs) (sym (ok-inj h)), ap (λ z. z.sent) (sym (ok-inj h)));
  keeps = λ c w w' k asset h at. ap (λ z. z.assets k) (sym (ok-inj h)) ∙ at;
  opens = λ payer key mint owner token_program w w' h.
      (ap (λ z. z.configs) (sym (ok-inj h)), ap (λ z. z.assets) (sym (ok-inj h)));
}

abbrev bare : World
bare = record {
  configs = λ k. none;
  assets =
      write_at 7 (record { owner = 1; collection = some 3; attributes = none; frozen = none })
        (λ k. none);
  collections = write_at 3 (record { update_authority = 4; attributes = none }) (λ k. none);
  mints = write_at 5 6 (λ k. none);
  tokens = λ k. none;
  sent = [];
}

abbrev set_up : Transaction
set_up =
    initialize_tx
      (record {
        admin = 9;
        config = 103;
        collection = 3;
        collection_authority = 4;
        update_authority = 4;
        rewards_mint = 5;
      })
      500 10

abbrev on_asset : AssetCall
on_asset = record { owner = 1; config = 103; asset = 7; collection = 3; update_authority = 4 }

abbrev with_account : RewardsCall
with_account = record {
  on_asset = on_asset;
  rewards_mint = 5;
  user_rewards_ata = 8;
  token_program = 6;
}

configured : World
unfolding execute initialize_program initialize
configured = settle bare (execute host (pos 900_000) set_up bare)

set_up_runs : execute host (pos 900_000) set_up bare ≡ ok configured
unfolding configured execute initialize_program initialize
set_up_runs = refl

abbrev terms : Config
terms = record { rewards_bps = 500; freeze_period = 10; rewards_bump = 254; bump = 255 }

configured-stored : configured.configs 103 ≡ some terms
unfolding configured execute initialize_program initialize
configured-stored = refl

staked_world : World
unfolding execute
staked_world = settle configured (execute host (pos 1_000_000) (stake_tx on_asset) configured)

stake_runs : execute host (pos 1_000_000) (stake_tx on_asset) configured ≡ ok staked_world
unfolding staked_world configured execute initialize_program initialize stake_asset stake
    check_accounts keep_unstaked kind_of count_step count_all new_counters counter_attributes
    update_collection_staked_count text_eq parse_i64 parse_unsigned parse_digits show_i64
    show_digits checked_i64 checked_u64 u64_of_i64 ◌+ℤ◌ ◌-ℤ◌ ◌*ℤ◌ div_trunc
stake_runs = refl

abbrev within_the_period : List (ℤ × Transaction)
within_the_period =
    (pos 1_302_400, claim_rewards_tx with_account)
    ∷ (pos 1_500_000, unstake_tx with_account)
    ∷ (pos 1_863_999, stake_tx on_asset)
    ∷ []

stays_frozen_example :
    IsHeld 7 1 3 (pos 1_000_000) (execute_all host within_the_period staked_world)
unfolding ◌+ℤ◌
stays_frozen_example =
    stays_frozen host (pos 1_000_000) on_asset terms within_the_period configured staked_world
      host-AreLawful (λ c d m n h. ground arith)
      (record {
        canonical =
            execute-IsCanonical host (pos 900_000) set_up bare configured host-AreLawful set_up_runs
              (λ k config at. absurd (cc at));
        stored = configured-stored;
      })
      (λ h. ground arith) (omega arith) (omega arith) stake_runs
      (λ h. ground arith, (λ h. ground arith, (λ h. ground arith, tt)))

-- The claim opens the account and pays three days, and the other two are rolled back.
paid :
    (execute_all host within_the_period staked_world).tokens 8
    ≡ some (record { mint = 5; owner = 1; token_program = 6; amount = 150_000 })
unfolding staked_world configured execute execute_all initialize_program initialize stake_asset
    with_rewards check_rewards_ata claim_rewards claim_days new_last_claim unstake unstake_days scan
    check_rewards_mint whole_days reward_amount pay stake check_accounts keep_unstaked kind_of
    count_step count_all new_counters counter_attributes update_collection_staked_count text_eq
    parse_i64 parse_unsigned parse_digits show_i64 show_digits checked_i64 checked_u64 u64_of_i64
    ◌+ℤ◌ ◌-ℤ◌ ◌*ℤ◌ div_trunc
paid = refl
