-- ===== src/Fundraiser/Refund.antt =====
-- pinocchio-fundraiser/src/instructions/refund.rs: a contributor takes the contribution back.
pub mod Effects
pub mod Once
use q2_26_accel_v1c70ryg0d.Prelude.{
  ℕ, true, false, ◌||◌, ◌&&◌, not, List, [], ◌∷◌, leb, ◌==◌, ok, err, ◌>>=◌, ◌>>◌, guard, reject_if,
  ok_or,
}
use q2_26_accel_v1c70ryg0d.Prelude.Words.{Bytes, checked_sub}
use q2_26_accel_v1c70ryg0d.Solana.{
  address_bytes, AccountView, World, ProgramResult, Platform, transfer, owned_by,
  not_enough_account_keys, missing_required_signature, illegal_owner, invalid_account_data,
  arithmetic_overflow,
}
use q2_26_accel_v1c70ryg0d.Fundraiser.State.{
  Fundraiser, load_fundraiser, store_fundraiser, maker, mint_to_raise, amount_to_raise,
  current_amount, set_current_amount, Contributor, load_contributor, amount,
}
use q2_26_accel_v1c70ryg0d.Fundraiser.Utils.{
  target_met, fundraiser_not_ended, has_ended, token_amount, validate_token_account,
  verify_fundraiser_pda, verify_contributor_pda, close_program_account, fundraiser_seed,
}

pub record RefundAccounts : Type 0 where
  pub contributor : AccountView
  pub maker : AccountView
  pub mint_to_raise : AccountView
  pub fundraiser : AccountView
  pub contributor_account : AccountView
  pub contributor_ata : AccountView
  pub vault : AccountView
  pub token_program : AccountView

unfoldable pub unpack_refund : List AccountView → ProgramResult RefundAccounts
unpack_refund (user ∷ maker ∷ mint ∷ fundraiser ∷ account ∷ ata ∷ vault ∷ token ∷ _) = ok (record {
  contributor = user;
  maker = maker;
  mint_to_raise = mint;
  fundraiser = fundraiser;
  contributor_account = account;
  contributor_ata = ata;
  vault = vault;
  token_program = token;
})
unpack_refund _ = err not_enough_account_keys

module _ (p : Platform) where
  -- From the transfer on: the tokens go back, the fundraiser's total falls, the account is closed.
  unfoldable pub pay_back : RefundAccounts → Fundraiser → Contributor → World → ProgramResult World
  pay_back a f c w = do
    let seeds = fundraiser_seed ∷ address_bytes a.maker.address ∷ (f.bump ∷ []) ∷ []
    w1 ←
        p.invoke_signed (seeds ∷ [])
          (transfer a.vault.address a.contributor_ata.address a.fundraiser.address (amount c)) w
    new_current_amount ← ok_or (checked_sub (current_amount f) (amount c)) arithmetic_overflow
    f' ← load_fundraiser w1 a.fundraiser
    let w2 = store_fundraiser w1 a.fundraiser (set_current_amount f' new_current_amount)
    close_program_account p w2 a.contributor_account a.contributor

  -- The checks on the clock and the vault.
  unfoldable pub check_failed : RefundAccounts → Fundraiser → World → ProgramResult (Unit {0})
  check_failed a f w = do
    now ← p.unix_timestamp
    guard (has_ended f now) fundraiser_not_ended
    n ← token_amount p w a.vault
    reject_if (leb (amount_to_raise f) n) target_met

  unfoldable pub refund : RefundAccounts → World → ProgramResult World
  refund a w = do
    guard a.contributor.is_signer missing_required_signature
    reject_if
        (not (owned_by w a.fundraiser p.program_id)
          || not (owned_by w a.contributor_account p.program_id))
        illegal_owner
    f ← load_fundraiser w a.fundraiser
    reject_if (not (maker f == a.maker.address) || not (mint_to_raise f == a.mint_to_raise.address))
        invalid_account_data
    verify_fundraiser_pda p a.fundraiser a.maker f.bump
    c ← load_contributor w a.contributor_account
    verify_contributor_pda p a.contributor_account a.fundraiser a.contributor c.bump
    validate_token_account p w a.contributor_ata a.contributor.address a.mint_to_raise.address
    validate_token_account p w a.vault a.fundraiser.address a.mint_to_raise.address
    check_failed a f w
    pay_back a f c w

  unfoldable pub process_refund : List AccountView → Bytes → World → ProgramResult World
  unfolding unpack_refund
  process_refund accounts input w = do a ← unpack_refund accounts; refund a w
