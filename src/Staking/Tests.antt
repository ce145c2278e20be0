-- ===== src/Staking/Tests.antt =====
-- Runs of the staking program on one asset of a collection: a stake, a claim after three and a half
-- days, and an unstake after twenty days, under a freeze period of ten.
mod Sequences
use q2_26_accel_v1c70ryg0d.Prelude.{ℕ, ◌≡◌, refl, none, some, [], ◌∷◌, Result, ok, err, arith}
use q2_26_accel_v1c70ryg0d.Prelude.Int.{ℤ, pos, ◌+ℤ◌, ◌-ℤ◌, ◌*ℤ◌, div_trunc, checked_i64}
use q2_26_accel_v1c70ryg0d.Prelude.Words.{checked_u64, u64_of_i64}
use q2_26_accel_v1c70ryg0d.Prelude.Decimal.{
  codes, text_eq, parse_i64, parse_unsigned, parse_digits, show_i64, show_digits,
}
use q2_26_accel_v1c70ryg0d.Staking.{
  ErrorCode, Chain, Host, Accounts, RewardsMint, check_accounts, check_rewards_mint,
}
use q2_26_accel_v1c70ryg0d.Staking.Laws.{perform}
use q2_26_accel_v1c70ryg0d.Staking.Attributes.{kind_of, keep_unstaked, scan}
use q2_26_accel_v1c70ryg0d.Staking.Rewards.{whole_days, reward_amount, pay}
use q2_26_accel_v1c70ryg0d.Staking.Rewards.Days.{claims_add_up}
use q2_26_accel_v1c70ryg0d.Staking.Counters.{
  count_step, count_all, new_counters, counter_attributes, update_collection_staked_count,
}
use q2_26_accel_v1c70ryg0d.Staking.Stake.{stake}
use q2_26_accel_v1c70ryg0d.Staking.Setup.{World, SetupHost, InitializeAccounts, initialize_program}
use q2_26_accel_v1c70ryg0d.Staking.Unstake.{unstake_days, unstake}
use q2_26_accel_v1c70ryg0d.Staking.ClaimRewards.{new_last_claim, claim_days, claim_rewards}

-- A host that performs every call, at a time.
abbrev at_time : ℕ → Host
at_time now = record { unix_timestamp = ok (pos now); invoke = λ c w. ok (perform c w) }

abbrev accounts : Accounts
accounts = record {
  owner = 1;
  config_key = 2;
  config = record { rewards_bps = 500; freeze_period = 10; rewards_bump = 254; bump = 255 };
  config_address = λ collection bump. 2;
  asset_owner = 1;
  asset_collection = some 3;
  collection_key = 3;
  collection_authority = 4;
  update_authority = 4;
  authority_address = λ collection. 4;
}

abbrev rewards_mint : RewardsMint
rewards_mint = record { key = 5; address = λ config bump. 5; decimals = 6 }

abbrev fresh : Chain
fresh = record {
  attributes = some (record { key = codes "colour"; value = codes "red" } ∷ []);
  frozen = none;
  collection_attributes = none;
  rewards = 0;
}

abbrev chain_of : Chain → Result ErrorCode Chain → Chain
chain_of old (ok w) = w
chain_of old (err e) = old

staked_chain : Chain
unfolding stake
staked_chain = chain_of fresh (stake (at_time 1_000_000) accounts fresh)

stake_runs : stake (at_time 1_000_000) accounts fresh ≡ ok staked_chain
unfolding staked_chain stake unstake unstake_days claim_rewards claim_days new_last_claim
    check_accounts check_rewards_mint keep_unstaked scan kind_of whole_days reward_amount pay
    count_step count_all new_counters counter_attributes update_collection_staked_count text_eq
    parse_i64 parse_unsigned parse_digits show_i64 show_digits checked_i64 checked_u64 u64_of_i64
    ◌+ℤ◌ ◌-ℤ◌ ◌*ℤ◌ div_trunc
stake_runs = refl

claimed_chain : Chain
unfolding claim_rewards
claimed_chain =
    chain_of staked_chain (claim_rewards (at_time 1_302_400) accounts rewards_mint staked_chain)

unstaked_chain : Chain
unfolding unstake
unstaked_chain =
    chain_of claimed_chain (unstake (at_time 2_728_000) accounts rewards_mint claimed_chain)

abbrev day_clock : ℕ → Result ErrorCode ℤ
day_clock n = ok (pos n)

three_days : whole_days (pos 1_302_400) (pos 1_000_000) ≡ day_clock 3
unfolding whole_days ◌-ℤ◌ checked_i64 div_trunc
three_days = refl

moved_on : new_last_claim (pos 1_000_000) (pos 3) ≡ day_clock 1_259_200
unfolding new_last_claim ◌+ℤ◌ ◌*ℤ◌ checked_i64
moved_on = refl

later_days : whole_days (pos 2_728_000) (pos 1_259_200) ≡ day_clock 17
unfolding whole_days ◌-ℤ◌ checked_i64 div_trunc
later_days = refl

all_days : whole_days (pos 2_728_000) (pos 1_000_000) ≡ day_clock 20
unfolding whole_days ◌-ℤ◌ checked_i64 div_trunc
all_days = refl

claims_add_up_example : pos 20 ≡ pos 3 +ℤ pos 17
claims_add_up_example =
    claims_add_up (pos 1_000_000) (pos 1_302_400) (pos 2_728_000) (pos 1_259_200) (pos 20) (pos 3)
      (pos 17) (omega arith) (omega arith) three_days moved_on later_days all_days

-- Setting the program up: the accounts of the runs above are those of a later instruction.
abbrev setup_host : SetupHost
setup_host = record {
  config_address = λ collection bump. 2;
  config_bump = λ collection. 255;
  authority_address = λ collection. 4;
  rewards_mint_address = λ config bump. 5;
  rewards_mint_bump = λ config. 254;
  invoke = λ c w. ok (record w { sent = c ∷ w.sent });
}

abbrev initialize_accounts : InitializeAccounts
initialize_accounts = record {
  admin = 9;
  config = 2;
  collection = 3;
  collection_authority = 4;
  update_authority = 4;
  rewards_mint = 5;
}

abbrev nothing_yet : World
nothing_yet = record {
  configs = λ k. none;
  assets = λ k. none;
  collections = λ k. none;
  mints = λ k. none;
  tokens = λ k. none;
  sent = [];
}

set_up : World
unfolding initialize_program
set_up = elim (initialize_program setup_host initialize_accounts 500 10 nothing_yet) [
  | ok w ↦ w
  | err e ↦ nothing_yet
]
