-- ===== src/Escrow/Tests.antt =====
-- Runs of accel-p-escrow on concrete accounts: the maker 1 offers seventy of the mint 2 for fifty of
-- the mint 3, and the taker 4 has them.
pub mod Runs
use q2_26_accel_v1c70ryg0d.Prelude.{
  ℕ, ◌+◌, ◌-◌, ◌≤◌, ◌<◌, ◌^◌, ◌≡◌, ◌≢◌, ◌⊎◌, refl, Bool, true, false, List, [], ◌∷◌, ◌++◌, take,
  drop, length, ◌==◌, if◌then◌else◌, Result, ok, err, arith,
}
use q2_26_accel_v1c70ryg0d.Prelude.Words.{Bytes, u64_max, to_le_bytes, from_le_bytes, checked_u64}
use q2_26_accel_v1c70ryg0d.Solana.{
  Address, address_bytes, Account, AccountView, World, ProgramResult, Platform,
}
use q2_26_accel_v1c70ryg0d.Solana.Sample.{
  sample, program, token_program, token_bytes, unpack, set_token_amount, close_account, move_tokens,
  invoke,
}
use q2_26_accel_v1c70ryg0d.Escrow.State.{
  Escrow, escrow_of_bytes, bytes_of_escrow, load_escrow, store_escrow, maker, mint_a, mint_b,
  amount_to_receive, amount_to_give, set_maker, set_mint_a, set_mint_b, set_amount_to_receive,
  set_amount_to_give,
}
use q2_26_accel_v1c70ryg0d.Escrow.State.Layout.{IsLaidOut, load-store_escrow}
use q2_26_accel_v1c70ryg0d.Escrow.Utils.{
  escrow_pda, verify_escrow_pda, check_token_account, close_escrow_account,
}
use q2_26_accel_v1c70ryg0d.Escrow.Utils.Close.{close_escrow_account_lem}
use q2_26_accel_v1c70ryg0d.Escrow.Make.{
  MakeAccounts, make, open_escrow, check_maker_ata, fill_escrow, read_unchecked,
}
use q2_26_accel_v1c70ryg0d.Escrow.Make.Effects.{
  bump_of, IsOffer, make-IsOffer, read_unchecked-inside, read_unchecked-outside, IsApartFrom,
}
use q2_26_accel_v1c70ryg0d.Escrow.Take.{TakeAccounts, take_offer, exchange, check_token_accounts}
use q2_26_accel_v1c70ryg0d.Escrow.Take.Checks.{IsTakeable}
use q2_26_accel_v1c70ryg0d.Escrow.Take.Swap.{AreDistinct, IsSwap, take_offer-IsSwap}
use q2_26_accel_v1c70ryg0d.Escrow.Refund.{RefundAccounts, refund, give_back}
use q2_26_accel_v1c70ryg0d.Escrow.Refund.Effects.{IsRefundable, IsGivenBack, refund-IsGivenBack}

abbrev pub here : Platform
here = sample 5000 (9 ∷ 9 ∷ [])

abbrev pub view : Address → Bool → AccountView
view a s = record { address = a; is_signer = s }

-- The key that the sample derivation gives for the maker 1.
abbrev pub escrow_key : Address
escrow_key = 1910

abbrev pub offer : Escrow
offer = record {
  maker = address_bytes 1;
  mint_a = address_bytes 2;
  mint_b = address_bytes 3;
  amount_to_receive = to_le_bytes 8 50;
  amount_to_give = to_le_bytes 8 70;
  bump = 250;
}

abbrev pub token : Address → Address → ℕ → Account
token mint owner n = record {
  lamports = 3000;
  owner = token_program;
  bytes = token_bytes mint owner n;
}

abbrev pub wallet : Account
wallet = record { lamports = 1_000_000; owner = 0; bytes = [] }

-- The offer with its vault, the maker's two token accounts and the taker's two.
unfoldable pub open_offer : World
open_offer k =
    if k == escrow_key
    then record { lamports = 2000; owner = program; bytes = bytes_of_escrow offer }
    else if k == 5
    then token 2 escrow_key 70
    else if k == 6
    then token 2 1 200
    else if k == 11
    then token 3 1 0
    else if k == 8
    then token 2 4 0
    else if k == 12
    then token 3 4 60
    else wallet

unfoldable pub before : World
before k = if k == 6 then token 2 1 200 else wallet

abbrev pub take_accounts : TakeAccounts
take_accounts = record {
  taker = view 4 true;
  maker = view 1 false;
  mint_a = view 2 false;
  mint_b = view 3 false;
  escrow_account = view escrow_key false;
  taker_ata_a = view 8 false;
  taker_ata_b = view 12 false;
  maker_ata_b = view 11 false;
  escrow_ata = view 5 false;
  token_program = view token_program false;
}

abbrev pub refund_accounts : RefundAccounts
refund_accounts = record {
  maker = view 1 true;
  mint_a = view 2 false;
  escrow_account = view escrow_key false;
  maker_ata = view 6 false;
  escrow_ata = view 5 false;
  token_program = view token_program false;
}

abbrev pub make_accounts : MakeAccounts
make_accounts = record {
  maker = view 1 true;
  mint_a = view 2 false;
  mint_b = view 3 false;
  escrow_account = view escrow_key false;
  maker_ata = view 6 false;
  escrow_ata = view 5 false;
  system_program = view 10 false;
  token_program = view token_program false;
}

abbrev pub make_input : Bytes
make_input = 250 ∷ (to_le_bytes 8 50 ++ to_le_bytes 8 70)

abbrev pub world_of : World → ProgramResult World → World
world_of old (ok w) = w
world_of old (err e) = old
