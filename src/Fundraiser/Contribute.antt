-- ===== src/Fundraiser/Contribute.antt =====
-- pinocchio-fundraiser/src/instructions/contribute.rs.
pub mod Amounts
pub mod Account
pub mod Effects
pub mod Whole
pub mod Goal
use q2_26_accel_v1c70ryg0d.Prelude.{
  ℕ, ◌+◌, ◌*◌, ◌/◌, true, false, List, [], ◌∷◌, length, get_elem?, ltb, leb, ◌==◌, if◌then◌else◌,
  ok, err, ◌>>=◌, ◌>>◌, guard, reject_if, ok_or,
}
use q2_26_accel_v1c70ryg0d.Prelude.Words.{Bytes, checked_u64}
use q2_26_accel_v1c70ryg0d.Solana.{
  address_bytes, AccountView, World, ProgramResult, Platform, create_account, transfer, owned_by,
  not_enough_account_keys, invalid_instruction_data, missing_required_signature, illegal_owner,
  invalid_account_data, arithmetic_overflow, panicked,
}
use q2_26_accel_v1c70ryg0d.Fundraiser.State.{
  Fundraiser, load_fundraiser, store_fundraiser, maker, mint_to_raise, amount_to_raise,
  current_amount, set_current_amount, Contributor, contributor_len, load_contributor,
  store_contributor, amount, set_amount,
}
use q2_26_accel_v1c70ryg0d.Fundraiser.Utils.{
  max_contribution_percentage, percentage_scaler, contribution_too_big, contribution_too_small,
  maximum_contributions_reached, fundraiser_ended, has_ended, pow10, read_u64,
  validate_token_account, verify_contributor_pda, verify_fundraiser_pda_with_maker,
  contributor_seed,
}

pub record ContributeAccounts : Type 0 where
  pub contributor : AccountView
  pub mint_to_raise : AccountView
  pub fundraiser : AccountView
  pub contributor_account : AccountView
  pub contributor_ata : AccountView
  pub vault : AccountView
  pub system_program : AccountView
  pub token_program : AccountView

unfoldable pub unpack_contribute : List AccountView → ProgramResult ContributeAccounts
unpack_contribute (user ∷ mint ∷ fundraiser ∷ account ∷ ata ∷ vault ∷ system ∷ token ∷ _) =
    ok (record {
      contributor = user;
      mint_to_raise = mint;
      fundraiser = fundraiser;
      contributor_account = account;
      contributor_ata = ata;
      vault = vault;
      system_program = system;
      token_program = token;
    })
unpack_contribute _ = err not_enough_account_keys

-- The most that one contributor may give in all: a tenth of the goal.
unfoldable pub max_contribution : Fundraiser → ProgramResult ℕ
max_contribution f = do
  scaled ← ok_or (checked_u64 (amount_to_raise f * max_contribution_percentage)) arithmetic_overflow
  ok (scaled / percentage_scaler)

-- The checks on the amount, and the two new totals: the contributor's and the fundraiser's.
unfoldable pub new_amounts : Fundraiser → Contributor → ℕ → ℕ → ProgramResult (ℕ × ℕ)
unfolding max_contribution
new_amounts f c decimals n = do
  unit ← pow10 decimals
  reject_if (ltb n unit) contribution_too_small
  most ← max_contribution f
  reject_if (ltb most n) contribution_too_big
  new_contributor_amount ← ok_or (checked_u64 (amount c + n)) arithmetic_overflow
  reject_if (ltb most new_contributor_amount) maximum_contributions_reached
  new_current_amount ← ok_or (checked_u64 (current_amount f + n)) arithmetic_overflow
  ok (new_contributor_amount, new_current_amount)

module _ (p : Platform) where
  -- The part of `create_contributor_if_needed` behind its early return.
  unfoldable pub create_contributor :
      AccountView → AccountView → AccountView → ℕ → World → ProgramResult World
  create_contributor contributor fundraiser contributor_account bump w = do
    verify_contributor_pda p contributor_account fundraiser contributor bump
    lamports ← p.minimum_balance contributor_len
    let seeds =
        contributor_seed
        ∷ address_bytes fundraiser.address
        ∷ address_bytes contributor.address
        ∷ (bump ∷ [])
        ∷ []
    w1 ←
        p.invoke_signed (seeds ∷ [])
          (create_account contributor.address contributor_account.address lamports contributor_len
            p.program_id)
          w
    c ← load_contributor w1 contributor_account
    ok (store_contributor w1 contributor_account (record (set_amount c 0) { bump = bump }))

  unfoldable pub create_contributor_if_needed :
      AccountView → AccountView → AccountView → ℕ → World → ProgramResult World
  create_contributor_if_needed contributor fundraiser contributor_account bump w =
      if owned_by w contributor_account p.program_id
      then ok w
      else create_contributor contributor fundraiser contributor_account bump w

  -- From the transfer on: the tokens move, then the two totals are written.
  unfoldable pub record_contribution : ContributeAccounts → ℕ → ℕ × ℕ → World → ProgramResult World
  record_contribution a n (new_contributor_amount, new_current_amount) w = do
    w1 ←
        p.invoke_signed []
          (transfer a.contributor_ata.address a.vault.address a.contributor.address n) w
    f ← load_fundraiser w1 a.fundraiser
    let w2 = store_fundraiser w1 a.fundraiser (set_current_amount f new_current_amount)
    c ← load_contributor w2 a.contributor_account
    ok (store_contributor w2 a.contributor_account (set_amount c new_contributor_amount))

  -- The checks and writes once the contributor's account is there.
  unfoldable pub contribute_to : ContributeAccounts → ℕ → Fundraiser → World → ProgramResult World
  contribute_to a n f w = do
    c ← load_contributor w a.contributor_account
    verify_contributor_pda p a.contributor_account a.fundraiser a.contributor c.bump
    validate_token_account p w a.contributor_ata a.contributor.address a.mint_to_raise.address
    validate_token_account p w a.vault a.fundraiser.address a.mint_to_raise.address
    now ← p.unix_timestamp
    reject_if (has_ended f now) fundraiser_ended
    decimals ← p.unpack_decimals (w a.mint_to_raise.address)
    totals ← new_amounts f c decimals n
    record_contribution a n totals w

  unfoldable pub contribute : ContributeAccounts → Bytes → World → ProgramResult World
  contribute a input w = do
    guard (length input == 9) invalid_instruction_data
    guard a.contributor.is_signer missing_required_signature
    guard (owned_by w a.fundraiser p.program_id) illegal_owner
    bump ← ok_or (get_elem? input 0) panicked
    n ← read_u64 input 1
    f ← load_fundraiser w a.fundraiser
    guard (mint_to_raise f == a.mint_to_raise.address) invalid_account_data
    verify_fundraiser_pda_with_maker p a.fundraiser (maker f) f.bump
    w1 ← create_contributor_if_needed a.contributor a.fundraiser a.contributor_account bump w
    contribute_to a n f w1

  unfoldable pub process_contribute : List AccountView → Bytes → World → ProgramResult World
  unfolding unpack_contribute
  process_contribute accounts input w = do a ← unpack_contribute accounts; contribute a input w
