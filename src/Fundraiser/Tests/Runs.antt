-- ===== src/Fundraiser/Tests/Runs.antt =====
-- The runs themselves, and what the theorems say about them.
use q2_26_accel_v1c70ryg0d.Prelude.{◌-◌, ◌≡◌, ◌≤◌, ◌<◌, ◌*◌, ◌^◌, refl, [], length, ok, arith}
use q2_26_accel_v1c70ryg0d.Prelude.Int.{pos, div_trunc, saturate_i64, ◌-ℤ◌}
use q2_26_accel_v1c70ryg0d.Prelude.Words.{
  to_le_bytes, from_le_bytes, AreBytes, checked_u64, checked_sub, u64_of_i64, i64_of_u64,
}
use q2_26_accel_v1c70ryg0d.Solana.{World}
use q2_26_accel_v1c70ryg0d.Solana.Sample.{
  unpack, set_token_amount, close_account, move_tokens, invoke,
}
use q2_26_accel_v1c70ryg0d.Fundraiser.State.{
  Fundraiser, fundraiser_of_bytes, bytes_of_fundraiser, load_fundraiser, store_fundraiser, maker,
  mint_to_raise, amount_to_raise, current_amount, time_started, set_current_amount, set_maker,
  set_mint_to_raise, set_amount_to_raise, set_time_started, set_duration, Contributor,
  contributor_of_bytes, bytes_of_contributor, load_contributor, store_contributor, amount,
  set_amount,
}
use q2_26_accel_v1c70ryg0d.Fundraiser.Utils.{
  read_u64, pow10, has_ended, verify_fundraiser_pda, verify_fundraiser_pda_with_maker,
  verify_contributor_pda, validate_token_account, token_amount, close_program_account,
}
use q2_26_accel_v1c70ryg0d.Fundraiser.Contribute.{contribute}
use q2_26_accel_v1c70ryg0d.Fundraiser.Contribute.Goal.{contribute_never}
use q2_26_accel_v1c70ryg0d.Fundraiser.Refund.{refund, pay_back, check_failed}
use q2_26_accel_v1c70ryg0d.Fundraiser.Refund.Effects.{IsRefundable, refund-IsRefundable}
use q2_26_accel_v1c70ryg0d.Fundraiser.CheckContributions.{
  check_contributions, ready_maker_ata, collect,
}
use q2_26_accel_v1c70ryg0d.Fundraiser.CheckContributions.Target.{collect_excludes_refund}
use q2_26_accel_v1c70ryg0d.Fundraiser.Initialize.{
  initialize, create_fundraiser, check_goal, fill_fundraiser,
}
use q2_26_accel_v1c70ryg0d.Fundraiser.Initialize.Effects.{
  IsStartable, IsStarted, initialize-IsStarted,
}
use q2_26_accel_v1c70ryg0d.Solana.Sample.Lawful.{
  sample-WritesOnly, sample-TokensHaveLen, sample-TokensOwned, sample-ClosesEmpty,
}
use q2_26_accel_v1c70ryg0d.Fundraiser.Tests.{
  day_one, day_ten, campaign, chain, contribute_accounts, refund_accounts, check_accounts,
  initialize_accounts, world_of, contribute_input, initialize_input,
}

abbrev pub start : World
start = chain (campaign 100_000_000 10) 30_000_000

-- The vault of the same campaign once it holds the goal.
abbrev full : World
full = chain (campaign 100_000_000 10) 100_000_000

-- A campaign for five tokens, and one without a duration.
abbrev small : World
small = chain (campaign 5_000_000 10) 1_000_000

abbrev endless : World
endless = chain (campaign 100_000_000 0) 30_000_000

-- No campaign yet.
abbrev empty : World
empty k = record { lamports = 1_000_000; owner = 0; bytes = [] }

contributed : World
unfolding contribute
contributed = world_of start (contribute day_one contribute_accounts contribute_input start)

refunded : World
unfolding refund
refunded = world_of start (refund day_ten refund_accounts start)

refund_runs : refund day_ten refund_accounts start ≡ ok refunded
unfolding refunded refund pay_back check_failed has_ended read_u64 pow10
    verify_fundraiser_pda_with_maker verify_fundraiser_pda verify_contributor_pda
    validate_token_account token_amount close_program_account load_fundraiser load_contributor
    store_fundraiser store_contributor fundraiser_of_bytes contributor_of_bytes bytes_of_fundraiser
    bytes_of_contributor maker mint_to_raise amount_to_raise current_amount time_started amount
    set_amount set_current_amount to_le_bytes from_le_bytes checked_u64 checked_sub i64_of_u64 chain
    unpack invoke move_tokens set_token_amount close_account div_trunc saturate_i64 ◌-ℤ◌
refund_runs = refl

refund-IsRefundable_example :
    (f : Fundraiser) × (c : Contributor) × IsRefundable day_ten refund_accounts start f c
    × (amount c ≤ current_amount f)
    × (load_fundraiser refunded refund_accounts.fundraiser
        ≡ ok (set_current_amount f (current_amount f - amount c)))
    × (length (refunded refund_accounts.contributor_account.address).bytes ≡ 0)
refund-IsRefundable_example =
    refund-IsRefundable day_ten refund_accounts start refunded (sample-WritesOnly 866_000 [])
      (sample-TokensHaveLen 866_000 []) (sample-ClosesEmpty 866_000 []) (omega arith) (omega arith)
      refund_runs

collected : World
unfolding check_contributions
collected = world_of full (check_contributions day_ten check_accounts full)

check_runs : check_contributions day_ten check_accounts full ≡ ok collected
unfolding collected check_contributions ready_maker_ata collect has_ended read_u64 pow10
    verify_fundraiser_pda_with_maker verify_fundraiser_pda verify_contributor_pda
    validate_token_account token_amount close_program_account load_fundraiser load_contributor
    store_fundraiser store_contributor fundraiser_of_bytes contributor_of_bytes bytes_of_fundraiser
    bytes_of_contributor maker mint_to_raise amount_to_raise current_amount time_started amount
    set_amount set_current_amount to_le_bytes from_le_bytes checked_u64 checked_sub i64_of_u64 chain
    unpack invoke move_tokens set_token_amount close_account div_trunc saturate_i64 ◌-ℤ◌
check_runs = refl

collect_excludes_refund_example : ¬ (refund day_ten refund_accounts full ≡ ok full)
collect_excludes_refund_example =
    collect_excludes_refund day_ten check_accounts refund_accounts full collected full
      (sample-WritesOnly 866_000 []) (sample-TokensHaveLen 866_000 [])
      (sample-TokensOwned 866_000 []) (omega arith) refl refl check_runs

small_loads : load_fundraiser small contribute_accounts.fundraiser ≡ ok (campaign 5_000_000 10)
unfolding load_fundraiser fundraiser_of_bytes bytes_of_fundraiser chain to_le_bytes
small_loads = refl

small_goal : amount_to_raise (campaign 5_000_000 10) < 10 * 10 ^ 6
unfolding amount_to_raise from_le_bytes to_le_bytes
small_goal = omega arith

contribute_never_example :
    ¬ (contribute day_one contribute_accounts contribute_input small ≡ ok small)
contribute_never_example =
    contribute_never day_one contribute_accounts contribute_input small small
      (campaign 5_000_000 10) 6 (sample-WritesOnly 5000 []) (sample-TokensHaveLen 5000 [])
      (omega arith) (omega arith) (omega arith) small_loads refl small_goal

initialized : World
unfolding initialize
initialized = world_of empty (initialize day_one initialize_accounts initialize_input empty)

initialize_runs : initialize day_one initialize_accounts initialize_input empty ≡ ok initialized
unfolding initialized initialize create_fundraiser check_goal set_maker set_mint_to_raise
    set_amount_to_raise set_time_started set_duration u64_of_i64 fill_fundraiser has_ended read_u64
    pow10 verify_fundraiser_pda_with_maker verify_fundraiser_pda verify_contributor_pda
    validate_token_account token_amount close_program_account load_fundraiser load_contributor
    store_fundraiser store_contributor fundraiser_of_bytes contributor_of_bytes bytes_of_fundraiser
    bytes_of_contributor maker mint_to_raise amount_to_raise current_amount time_started amount
    set_amount set_current_amount to_le_bytes from_le_bytes checked_u64 checked_sub i64_of_u64 chain
    unpack invoke move_tokens set_token_amount close_account div_trunc saturate_i64 ◌-ℤ◌
initialize_runs = refl

initialize_input-AreBytes : AreBytes initialize_input
unfolding to_le_bytes
initialize_input-AreBytes = ground arith

initialize-IsStarted_example :
    IsStartable day_one initialize_accounts initialize_input empty
    × ((f : Fundraiser) × (load_fundraiser initialized initialize_accounts.fundraiser ≡ ok f)
        × IsStarted day_one initialize_accounts initialize_input f)
initialize-IsStarted_example =
    initialize-IsStarted day_one initialize_accounts initialize_input empty initialized (pos 5000)
      initialize_input-AreBytes (omega arith) (omega arith) refl (omega arith) (omega arith)
      initialize_runs
