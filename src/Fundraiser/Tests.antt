-- ===== src/Fundraiser/Tests.antt =====
-- Runs of pinocchio-fundraiser on concrete accounts: a campaign for a hundred tokens of six decimals
-- over ten days, a tenth of which one contributor may give.
pub mod Runs
mod Pure
use q2_26_accel_v1c70ryg0d.Prelude.{
  ℕ, Bool, true, false, List, [], ◌∷◌, ◌++◌, ◌==◌, if◌then◌else◌, Result, ok, err,
}
use q2_26_accel_v1c70ryg0d.Prelude.Words.{Bytes, to_le_bytes}
use q2_26_accel_v1c70ryg0d.Solana.{
  Address, address_bytes, Account, AccountView, World, ProgramResult, Platform,
}
use q2_26_accel_v1c70ryg0d.Solana.Sample.{sample, program, token_program, token_bytes}
use q2_26_accel_v1c70ryg0d.Fundraiser.State.{
  Fundraiser, bytes_of_fundraiser, Contributor, bytes_of_contributor,
}
use q2_26_accel_v1c70ryg0d.Fundraiser.Contribute.{ContributeAccounts}
use q2_26_accel_v1c70ryg0d.Fundraiser.CheckContributions.{CheckAccounts}
use q2_26_accel_v1c70ryg0d.Fundraiser.Refund.{RefundAccounts}
use q2_26_accel_v1c70ryg0d.Fundraiser.Initialize.{InitializeAccounts}

-- The clock on the first day, and after the ten days.
abbrev pub day_one : Platform
day_one = sample 5000 []

abbrev pub day_ten : Platform
day_ten = sample 866_000 []

abbrev pub view : Address → Bool → AccountView
view a s = record { address = a; is_signer = s }

-- The keys that the sample derivation gives for the maker 1 and for the contributor 3.
abbrev pub fundraiser_key : Address
fundraiser_key = 2331

abbrev pub contributor_key : Address
contributor_key = 2504

abbrev pub campaign : ℕ → ℕ → Fundraiser
campaign goal days = record {
  maker = address_bytes 1;
  mint_to_raise = address_bytes 2;
  amount_to_raise = to_le_bytes 8 goal;
  current_amount = to_le_bytes 8 30_000_000;
  time_started = to_le_bytes 8 1000;
  duration = days;
  bump = 255;
}

abbrev pub given : Contributor
given = record { amount = to_le_bytes 8 4_000_000; bump = 254 }

abbrev pub token : Address → ℕ → Account
token owner n = record { lamports = 3000; owner = token_program; bytes = token_bytes 2 owner n }

abbrev pub wallet : Account
wallet = record { lamports = 1_000_000; owner = 0; bytes = [] }

-- The accounts of the campaign, with the tokens in its vault.
unfoldable pub chain : Fundraiser → ℕ → World
chain f in_vault k =
    if k == fundraiser_key
    then record { lamports = 2000; owner = program; bytes = bytes_of_fundraiser f }
    else if k == contributor_key
    then record { lamports = 1000; owner = program; bytes = bytes_of_contributor given }
    else if k == 4
    then token fundraiser_key in_vault
    else if k == 5
    then token 3 50_000_000
    else if k == 6
    then token 1 0
    else wallet

abbrev pub contribute_accounts : ContributeAccounts
contribute_accounts = record {
  contributor = view 3 true;
  mint_to_raise = view 2 false;
  fundraiser = view fundraiser_key false;
  contributor_account = view contributor_key false;
  contributor_ata = view 5 false;
  vault = view 4 false;
  system_program = view 8 false;
  token_program = view 7 false;
}

abbrev pub refund_accounts : RefundAccounts
refund_accounts = record {
  contributor = view 3 true;
  maker = view 1 false;
  mint_to_raise = view 2 false;
  fundraiser = view fundraiser_key false;
  contributor_account = view contributor_key false;
  contributor_ata = view 5 false;
  vault = view 4 false;
  token_program = view 7 false;
}

abbrev pub check_accounts : CheckAccounts
check_accounts = record {
  maker = view 1 true;
  mint_to_raise = view 2 false;
  fundraiser = view fundraiser_key false;
  vault = view 4 false;
  maker_ata = view 6 false;
  token_program = view 7 false;
  system_program = view 8 false;
}

abbrev pub initialize_accounts : InitializeAccounts
initialize_accounts = record {
  maker = view 1 true;
  mint_to_raise = view 2 false;
  fundraiser = view fundraiser_key false;
  vault = view 4 false;
  system_program = view 8 false;
  token_program = view 7 false;
}

-- The world that a run leaves, the old one if it fails.
abbrev pub world_of : World → ProgramResult World → World
world_of old (ok w) = w
world_of old (err e) = old

abbrev pub contribute_input : Bytes
contribute_input = 254 ∷ to_le_bytes 8 2_000_000

abbrev pub initialize_input : Bytes
initialize_input = 255 ∷ (to_le_bytes 8 100_000_000 ++ (10 ∷ []))
