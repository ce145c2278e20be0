-- ===== src/Escrow/Tests/Runs.antt =====
-- The runs themselves, and what the theorems say about them.
use q2_26_accel_v1c70ryg0d.Prelude.{◌<◌, ◌^◌, ◌≡◌, ◌≢◌, refl, false, [], ◌∷◌, ok, arith}
use q2_26_accel_v1c70ryg0d.Prelude.Words.{to_le_bytes, from_le_bytes, checked_u64}
use q2_26_accel_v1c70ryg0d.Solana.{World}
use q2_26_accel_v1c70ryg0d.Solana.Sample.{
  program, token_program, unpack, set_token_amount, close_account, move_tokens, invoke,
}
use q2_26_accel_v1c70ryg0d.Escrow.State.{
  Escrow, escrow_of_bytes, bytes_of_escrow, load_escrow, store_escrow, maker, mint_a, mint_b,
  amount_to_receive, amount_to_give, set_maker, set_mint_a, set_mint_b, set_amount_to_receive,
  set_amount_to_give,
}
use q2_26_accel_v1c70ryg0d.Escrow.Utils.{
  escrow_pda, verify_escrow_pda, check_token_account, close_escrow_account,
}
use q2_26_accel_v1c70ryg0d.Escrow.Make.{
  make, open_escrow, check_maker_ata, fill_escrow, read_unchecked,
}
use q2_26_accel_v1c70ryg0d.Escrow.Make.Effects.{bump_of, IsOffer, make-IsOffer}
use q2_26_accel_v1c70ryg0d.Escrow.Take.{take_offer, exchange, check_token_accounts}
use q2_26_accel_v1c70ryg0d.Escrow.Take.Checks.{IsTakeable}
use q2_26_accel_v1c70ryg0d.Escrow.Take.Swap.{AreDistinct, IsSwap, take_offer-IsSwap}
use q2_26_accel_v1c70ryg0d.Escrow.Refund.{refund, give_back}
use q2_26_accel_v1c70ryg0d.Escrow.Refund.Effects.{IsRefundable, IsGivenBack, refund-IsGivenBack}
use q2_26_accel_v1c70ryg0d.Solana.Sample.Lawful.{
  sample-WritesOnly, sample-TokensHaveLen, sample-TokensOwned, sample-ClosesEmpty,
  sample-TransferMoves,
}
use q2_26_accel_v1c70ryg0d.Escrow.Tests.{
  here, view, escrow_key, open_offer, before, take_accounts, refund_accounts, make_accounts,
  make_input, world_of,
}

taken : World
unfolding take_offer
taken = world_of open_offer (take_offer here take_accounts open_offer)

take_runs : take_offer here take_accounts open_offer ≡ ok taken
unfolding taken take_offer check_token_accounts exchange verify_escrow_pda check_token_account
    close_escrow_account load_escrow escrow_of_bytes bytes_of_escrow maker mint_a mint_b
    amount_to_receive amount_to_give to_le_bytes from_le_bytes checked_u64 open_offer unpack invoke
    move_tokens set_token_amount close_account
take_runs = refl

parties : AreDistinct here take_accounts open_offer
unfolding open_offer
parties = record {
  taker_maker = omega arith;
  taker_escrow = omega arith;
  maker_escrow = omega arith;
  mints = omega arith;
  wallet = omega arith;
}

take_offer-IsSwap_example :
    (e : Escrow) × IsTakeable here take_accounts open_offer e
    × IsSwap here take_accounts e open_offer taken
take_offer-IsSwap_example =
    take_offer-IsSwap here take_accounts open_offer taken (sample-WritesOnly 5000 (9 ∷ 9 ∷ []))
      (sample-TokensHaveLen 5000 (9 ∷ 9 ∷ [])) (sample-TokensOwned 5000 (9 ∷ 9 ∷ []))
      (sample-TransferMoves 5000 (9 ∷ 9 ∷ [])) (sample-ClosesEmpty 5000 (9 ∷ 9 ∷ [])) parties
      take_runs

given_back : World
unfolding refund
given_back = world_of open_offer (refund here refund_accounts open_offer)

refund_runs : refund here refund_accounts open_offer ≡ ok given_back
unfolding given_back refund give_back verify_escrow_pda check_token_account close_escrow_account
    load_escrow escrow_of_bytes bytes_of_escrow maker mint_a mint_b amount_to_receive amount_to_give
    to_le_bytes from_le_bytes checked_u64 open_offer unpack invoke move_tokens set_token_amount
    close_account
refund_runs = refl

maker_wallet : (open_offer 1).owner ≢ token_program
unfolding open_offer
maker_wallet = omega arith

refund-IsGivenBack_example :
    (e : Escrow) × IsRefundable here refund_accounts open_offer e
    × IsGivenBack here refund_accounts e open_offer given_back
refund-IsGivenBack_example =
    refund-IsGivenBack here refund_accounts open_offer given_back
      (sample-WritesOnly 5000 (9 ∷ 9 ∷ [])) (sample-TokensHaveLen 5000 (9 ∷ 9 ∷ []))
      (sample-TokensOwned 5000 (9 ∷ 9 ∷ [])) (sample-TransferMoves 5000 (9 ∷ 9 ∷ []))
      (sample-ClosesEmpty 5000 (9 ∷ 9 ∷ [])) (omega arith) maker_wallet refund_runs

made : World
unfolding make
made = world_of before (make here make_accounts make_input before)

make_runs : make here make_accounts make_input before ≡ ok made
unfolding made make open_escrow check_maker_ata fill_escrow read_unchecked store_escrow set_maker
    set_mint_a set_mint_b set_amount_to_receive set_amount_to_give before verify_escrow_pda
    check_token_account close_escrow_account load_escrow escrow_of_bytes bytes_of_escrow maker
    mint_a mint_b amount_to_receive amount_to_give to_le_bytes from_le_bytes checked_u64 open_offer
    unpack invoke move_tokens set_token_amount close_account
make_runs = refl

read_receive : read_unchecked here make_input 1 < 2 ^ 64
unfolding read_unchecked to_le_bytes from_le_bytes
read_receive = omega arith

read_give : read_unchecked here make_input 9 < 2 ^ 64
unfolding read_unchecked to_le_bytes from_le_bytes
read_give = omega arith

make-IsOffer_example :
    (escrow_key ≡ escrow_pda here 1 (bump_of make_input))
    × ((before escrow_key).owner ≢ program)
    × ((e : Escrow) × (load_escrow made make_accounts.escrow_account ≡ ok e)
        × IsOffer here make_accounts
            (read_unchecked here make_input 1)
            (read_unchecked here make_input 9)
            (bump_of make_input)
            e)
make-IsOffer_example =
    make-IsOffer here make_accounts make_input before made (sample-WritesOnly 5000 (9 ∷ 9 ∷ []))
      (record {
        from_maker = omega arith;
        from_maker_ata = omega arith;
        from_escrow_ata = omega arith;
      })
      (omega arith) (omega arith) (omega arith) read_receive read_give make_runs

closed : World
unfolding close_escrow_account
closed =
    world_of open_offer
      (close_escrow_account here open_offer (view escrow_key false) (view 1 false))

close_runs : close_escrow_account here open_offer (view escrow_key false) (view 1 false) ≡ ok closed
unfolding closed close_escrow_account open_offer close_account checked_u64
close_runs = refl
