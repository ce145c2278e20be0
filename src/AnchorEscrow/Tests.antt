-- ===== src/AnchorEscrow/Tests.antt =====
-- Runs of the Anchor escrow: an offer of 30 tokens for 20, taken, or refunded to its maker.
use q2_26_accel_v1c70ryg0d.Prelude.{
  ◌+◌, ◌*◌, ◌≡◌, refl, ◌∙◌, true, Option, none, some, inl, Result, ok, err, ◌==◌, if◌then◌else◌,
  arith,
}
use q2_26_accel_v1c70ryg0d.AnchorEscrow.{
  Error, foreign, Escrow, system_account, token_account, mint_account, Accounts, Chain, Call,
  create_escrow, create_token_account, transfer_checked, close_account, close_escrow, Platform,
  empty_and_close_vault,
}
use q2_26_accel_v1c70ryg0d.AnchorEscrow.Laws.{perform, Performs}
use q2_26_accel_v1c70ryg0d.AnchorEscrow.Make.{
  MakeAccounts, open_accounts, check_make, init_escrow, deposit_to_vault, write_escrow, make,
}
use q2_26_accel_v1c70ryg0d.AnchorEscrow.Take.{
  TakeAccounts, check_opened, open_if_needed, check_take, deposit_to_maker, swap, take,
}
use q2_26_accel_v1c70ryg0d.AnchorEscrow.Take.Effects.{IsTaken, take-IsTaken}
use q2_26_accel_v1c70ryg0d.AnchorEscrow.Refund.{RefundAccounts, check_refund, refund}
use q2_26_accel_v1c70ryg0d.AnchorEscrow.Program.{make_request, run}
use q2_26_accel_v1c70ryg0d.AnchorEscrow.Backed.{IsVaulted, IsBacked}
use q2_26_accel_v1c70ryg0d.AnchorEscrow.Reach.{IsOutside, here, later, instruction, Reach-IsBacked}
use q2_26_accel_v1c70ryg0d.AnchorEscrow.Once.{Settles, settled_once, make-refund}

abbrev addresses : Platform
addresses = record {
  escrow_address = λ maker seed bump. 1000 + maker * 10 + seed;
  escrow_bump = λ maker seed. 255;
  associated_address = λ wallet mint program. 100000 + wallet * 10 + mint;
  default_associated_address = λ wallet mint. 100000 + wallet * 10 + mint;
  is_token_program = λ key. key == 5;
  invoke = λ c w. err (foreign 0);
}

abbrev answer : Option Accounts → Chain → Result Error Chain
answer (some accounts) w = ok (record w { accounts = accounts })
answer none w = err (foreign 0)

-- A platform on which every call succeeds that need not fail.
abbrev sample : Platform
sample = record addresses { invoke = λ c w. answer (perform addresses c w.accounts) w }

same_perform : (c : Call) (A : Accounts) → perform sample c A ≡ perform addresses c A
same_perform (create_escrow payer key) A = refl
same_perform (create_token_account payer key mint owner program) A = refl
same_perform (transfer_checked program from mint to authority signer amount decimals) A = refl
same_perform (close_account program key destination authority signer) A = refl
same_perform (close_escrow key destination) A = refl

answer_lem : (o : Option Accounts) (w w' : Chain) → answer o w ≡ ok w' → o ≡ some w'.accounts
answer_lem (some accounts) w w' h = cc
answer_lem none w w' h = cc

sample-Performs : Performs sample
sample-Performs c w w' h = same_perform c w.accounts ∙ answer_lem _ w w' h

abbrev start : Chain
start = record {
  accounts = λ k.
      if k == 3
      then mint_account (record { decimals = 6; token_program = 5 })
      else if k == 4
      then mint_account (record { decimals = 2; token_program = 5 })
      else if k == 100013
      then token_account (record { mint = 3; owner = 1; amount = 50; token_program = 5 })
      else if k == 100024
      then token_account (record { mint = 4; owner = 2; amount = 80; token_program = 5 })
      else system_account;
  lamports = λ k. 0;
}

abbrev make_accounts : MakeAccounts
make_accounts = record {
  maker = 1;
  maker_signed = true;
  mint_a = 3;
  mint_b = 4;
  maker_ata_a = 100013;
  escrow = 1017;
  vault = 110173;
  token_program = 5;
}

abbrev take_accounts : TakeAccounts
take_accounts = record {
  taker = 2;
  taker_signed = true;
  maker = 1;
  mint_a = 3;
  mint_b = 4;
  taker_ata_a = 100023;
  taker_ata_b = 100024;
  maker_ata_b = 100014;
  escrow = 1017;
  vault = 110173;
  token_program = 5;
}

abbrev refund_accounts : RefundAccounts
refund_accounts = record {
  maker = 1;
  maker_signed = true;
  mint_a = 3;
  maker_ata_a = 100013;
  escrow = 1017;
  vault = 110173;
  token_program = 5;
}

abbrev chain_of : Chain → Result Error Chain → Chain
chain_of w (ok w') = w'
chain_of w (err e) = w

made : Chain
made = chain_of start (make sample make_accounts 7 30 20 start)

taken : Chain
taken = chain_of made (take sample take_accounts made)

refunded : Chain
refunded = chain_of made (refund sample refund_accounts made)

make_runs : make sample make_accounts 7 30 20 start ≡ ok made
unfolding made make open_accounts check_make init_escrow deposit_to_vault write_escrow
make_runs = refl

take_runs : take sample take_accounts made ≡ ok taken
unfolding made taken make open_accounts check_make init_escrow deposit_to_vault write_escrow
    check_opened open_if_needed check_take deposit_to_maker swap take empty_and_close_vault
take_runs = refl

refund_runs : refund sample refund_accounts made ≡ ok refunded
unfolding made refunded make open_accounts check_make init_escrow deposit_to_vault write_escrow
    check_refund refund empty_and_close_vault
refund_runs = refl

take-IsTaken_example : IsTaken sample take_accounts made taken
take-IsTaken_example =
    take-IsTaken sample take_accounts made taken sample-Performs (omega arith) (omega arith)
      (omega arith) take_runs

start-IsBacked : IsBacked sample start
start-IsBacked k e h = absurd (ground arith)

Reach-IsBacked_example : IsBacked sample made
unfolding run
Reach-IsBacked_example =
    Reach-IsBacked sample start made sample-Performs
      (later here (instruction (make_request make_accounts 7 30 20) make_runs)) start-IsBacked

abbrev offer : Escrow
offer = record { seed = 7; maker = 1; mint_a = 3; mint_b = 4; receive = 20; bump = 255 }

offer-IsVaulted : IsVaulted sample 1017 offer made
unfolding made make open_accounts check_make init_escrow deposit_to_vault write_escrow
offer-IsVaulted = record {
  derived = refl;
  program = 5;
  vault = record { mint = 3; owner = 1017; amount = 30; token_program = 5 };
  stands = refl;
  owner_is = refl;
  mint_is = refl;
}

make-refund_example : refunded.accounts 100013 ≡ start.accounts 100013
make-refund_example =
    make-refund sample make_accounts refund_accounts 7 30 20 start made refunded sample-Performs
      (omega arith) (record { maker_is = refl; ata_is = refl; escrow_is = refl; vault_is = refl })
      make_runs refund_runs 100013

nothing-IsOutside : IsOutside taken taken
nothing-IsOutside = record { escrows = λ k e h. h; vaults = λ k j e t h x o. (t, x, refl, refl) }

settled_once_example : ¬ Settles sample 1017 taken taken
settled_once_example =
    settled_once sample 1017 made taken taken taken sample-Performs
      (inl (take_accounts, refl, take_runs)) nothing-IsOutside
