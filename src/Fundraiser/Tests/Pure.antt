-- ===== src/Fundraiser/Tests/Pure.antt =====
-- Dispatch, amounts, the clock, closing and the layout, at concrete values.
use q2_26_accel_v1c70ryg0d.Prelude.{
  ℕ, ◌+◌, ◌≡◌, ◌≢◌, ◌<◌, subst, sym, ◌*◌, refl, true, false, List, [], ◌∷◌, ◌↔◌, ok, arith,
}
use q2_26_accel_v1c70ryg0d.Prelude.Int.{
  pos, i64_min, i64_max, ◌≤ℤ◌, div_trunc, saturate_i64, ◌-ℤ◌, ◌+ℤ◌,
}
use q2_26_accel_v1c70ryg0d.Prelude.Words.{
  to_le_bytes, from_le_bytes, checked_u64, checked_sub, i64_of_u64,
}
use q2_26_accel_v1c70ryg0d.Solana.{AccountView, World}
use q2_26_accel_v1c70ryg0d.Solana.Sample.{
  unpack, set_token_amount, close_account, move_tokens, invoke, program,
}
use q2_26_accel_v1c70ryg0d.Fundraiser.{instruction_of, process, process_instruction}
use q2_26_accel_v1c70ryg0d.Fundraiser.Signers.{process_instruction-signed}
use q2_26_accel_v1c70ryg0d.Fundraiser.Contribute.Amounts.{IsAdmissible, new_amounts_iff}
use q2_26_accel_v1c70ryg0d.Fundraiser.Utils.Time.{has_ended_iff}
use q2_26_accel_v1c70ryg0d.Fundraiser.State.{
  fundraiser_of_bytes, bytes_of_fundraiser, load_fundraiser, store_fundraiser, maker, mint_to_raise,
  amount_to_raise, current_amount, time_started, set_current_amount, contributor_of_bytes,
  bytes_of_contributor, load_contributor, store_contributor, amount, set_amount,
}
use q2_26_accel_v1c70ryg0d.Fundraiser.Utils.{
  seconds_to_days, read_u64, pow10, has_ended, verify_fundraiser_pda,
  verify_fundraiser_pda_with_maker, verify_contributor_pda, validate_token_account, token_amount,
  close_program_account,
}
use q2_26_accel_v1c70ryg0d.Fundraiser.Contribute.{
  max_contribution, new_amounts, create_contributor_if_needed, record_contribution, contribute_to,
  contribute, unpack_contribute, process_contribute,
}
use q2_26_accel_v1c70ryg0d.Fundraiser.Tests.Runs.{start}
use q2_26_accel_v1c70ryg0d.Fundraiser.Tests.{
  day_one, view, fundraiser_key, contributor_key, campaign, given, chain, world_of,
  contribute_input,
}

abbrev accounts : List AccountView
accounts =
    view 2 false
    ∷ view fundraiser_key false
    ∷ view contributor_key false
    ∷ view 5 false
    ∷ view 4 false
    ∷ view 8 false
    ∷ view 7 false
    ∷ []

processed : World
unfolding process_instruction
processed =
    world_of start
      (process_instruction day_one program (view 3 true ∷ accounts) (1 ∷ contribute_input) start)

process_runs :
    process_instruction day_one program (view 3 true ∷ accounts) (1 ∷ contribute_input) start
    ≡ ok processed
unfolding processed process_instruction process instruction_of process_contribute unpack_contribute
    contribute contribute_to record_contribution create_contributor_if_needed new_amounts
    max_contribution has_ended read_u64 pow10 verify_fundraiser_pda_with_maker verify_fundraiser_pda
    verify_contributor_pda validate_token_account token_amount close_program_account load_fundraiser
    load_contributor store_fundraiser store_contributor fundraiser_of_bytes contributor_of_bytes
    bytes_of_fundraiser bytes_of_contributor maker mint_to_raise amount_to_raise current_amount
    time_started amount set_amount set_current_amount to_le_bytes from_le_bytes checked_u64
    checked_sub i64_of_u64 chain unpack invoke move_tokens set_token_amount close_account div_trunc
    saturate_i64 ◌-ℤ◌
process_runs = refl

process_instruction-signed_example :
    (program ≡ day_one.program_id) × (1 < 4) × ((view 3 true).is_signer ≡ true)
process_instruction-signed_example =
    process_instruction-signed day_one program (view 3 true) accounts 1 contribute_input start
      processed process_runs

abbrev totals : ℕ × ℕ
totals = (6_000_000, 32_000_000)

new_amounts_iff_example : (new_amounts (campaign 100_000_000 10) given 6 2_000_000 ≡ ok totals) ↔ (
    IsAdmissible (campaign 100_000_000 10) given 6 2_000_000
    × (totals ≡ (amount given + 2_000_000, current_amount (campaign 100_000_000 10) + 2_000_000)))
new_amounts_iff_example = new_amounts_iff (campaign 100_000_000 10) given 6 2_000_000 totals

campaign_start : time_started (campaign 100_000_000 10) ≡ pos 1000
unfolding time_started i64_of_u64 from_le_bytes to_le_bytes
campaign_start = refl

has_ended_iff_example : (has_ended (campaign 100_000_000 10) (pos 865_000) ≡ true) ↔ (
    ((campaign 100_000_000 10).duration ≢ 0)
    × (time_started (campaign 100_000_000 10)
          +ℤ pos ((campaign 100_000_000 10).duration * seconds_to_days)
        ≤ℤ pos 865_000))
has_ended_iff_example =
    has_ended_iff (campaign 100_000_000 10) (pos 865_000) (omega arith)
      (subst (λ t. i64_min ≤ℤ t) (sym campaign_start) (omega arith))
      (subst (λ t. t ≤ℤ i64_max) (sym campaign_start) (omega arith)) (omega arith) (omega arith)

closed : World
unfolding close_program_account
closed =
    world_of start (close_program_account day_one start (view contributor_key false) (view 3 true))

close_runs :
    close_program_account day_one start (view contributor_key false) (view 3 true) ≡ ok closed
unfolding closed close_program_account chain close_account checked_u64
close_runs = refl
