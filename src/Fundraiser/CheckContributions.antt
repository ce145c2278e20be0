-- ===== src/Fundraiser/CheckContributions.antt =====
-- pinocchio-fundraiser/src/instructions/check_contributions.rs: the maker collects a full vault.
pub mod Target
use q2_26_accel_v1c70ryg0d.Prelude.{
  ℕ, true, false, ◌||◌, not, List, [], ◌∷◌, ltb, ◌==◌, if◌then◌else◌, ok, err, ◌>>=◌, ◌>>◌, guard,
  reject_if,
}
use q2_26_accel_v1c70ryg0d.Prelude.Words.{Bytes}
use q2_26_accel_v1c70ryg0d.Solana.{
  address_bytes, AccountView, World, ProgramResult, Platform, create_ata, transfer,
  close_token_account, owned_by, not_enough_account_keys, missing_required_signature, illegal_owner,
  invalid_account_data,
}
use q2_26_accel_v1c70ryg0d.Fundraiser.State.{
  Fundraiser, load_fundraiser, maker, mint_to_raise, amount_to_raise,
}
use q2_26_accel_v1c70ryg0d.Fundraiser.Utils.{
  target_not_met, token_amount, validate_token_account, verify_fundraiser_pda,
  close_program_account, fundraiser_seed,
}

pub record CheckAccounts : Type 0 where
  pub maker : AccountView
  pub mint_to_raise : AccountView
  pub fundraiser : AccountView
  pub vault : AccountView
  pub maker_ata : AccountView
  pub token_program : AccountView
  pub system_program : AccountView

unfoldable pub unpack_check : List AccountView → ProgramResult CheckAccounts
unpack_check (maker ∷ mint ∷ fundraiser ∷ vault ∷ ata ∷ token ∷ system ∷ _) = ok (record {
  maker = maker;
  mint_to_raise = mint;
  fundraiser = fundraiser;
  vault = vault;
  maker_ata = ata;
  token_program = token;
  system_program = system;
})
unpack_check _ = err not_enough_account_keys

module _ (p : Platform) where
  -- The maker's token account is created, or checked if it is there.
  unfoldable pub ready_maker_ata : CheckAccounts → World → ProgramResult World
  ready_maker_ata a w =
      if owned_by w a.maker_ata p.token_program_id
      then (validate_token_account p w a.maker_ata a.maker.address a.mint_to_raise.address >> ok w)
      else p.invoke_signed []
          (create_ata a.maker.address a.maker_ata.address a.maker.address a.mint_to_raise.address) w

  -- From the transfer on: the vault is emptied and closed, then the fundraiser.
  unfoldable pub collect : CheckAccounts → Fundraiser → ℕ → World → ProgramResult World
  collect a f n w = do
    let seeds = fundraiser_seed ∷ address_bytes a.maker.address ∷ (f.bump ∷ []) ∷ []
    w1 ←
        p.invoke_signed (seeds ∷ [])
          (transfer a.vault.address a.maker_ata.address a.fundraiser.address n) w
    w2 ←
        p.invoke_signed (seeds ∷ [])
          (close_token_account a.vault.address a.maker.address a.fundraiser.address) w1
    close_program_account p w2 a.fundraiser a.maker

  unfoldable pub check_contributions : CheckAccounts → World → ProgramResult World
  check_contributions a w = do
    guard a.maker.is_signer missing_required_signature
    guard (owned_by w a.fundraiser p.program_id) illegal_owner
    f ← load_fundraiser w a.fundraiser
    reject_if (not (maker f == a.maker.address) || not (mint_to_raise f == a.mint_to_raise.address))
        invalid_account_data
    verify_fundraiser_pda p a.fundraiser a.maker f.bump
    validate_token_account p w a.vault a.fundraiser.address a.mint_to_raise.address
    w1 ← ready_maker_ata a w
    n ← token_amount p w1 a.vault
    reject_if (ltb n (amount_to_raise f)) target_not_met
    collect a f n w1

  unfoldable pub process_check_contributions :
      List AccountView → Bytes → World → ProgramResult World
  unfolding unpack_check
  process_check_contributions accounts input w = do
    a ← unpack_check accounts
    check_contributions a w
